-- ===== src/Buf/Granted.antt =====
-- Where the allocator grants every request, a buffer of less than half of the address space does
-- not fail.
use tamga_c.Prelude.{
  ℕ, ◌+◌, ◌^◌, ◌≤◌, ◌<◌, ◌≡◌, refl, ap, ◌∙◌, Bool, true, false, none, some, inl, inr, arith, [],
  ◌∷◌, ltb, ◌==◌, if◌then◌else◌, length, length-append, Bytes, contains_byte, Bool-cases,
}
use tamga_c.Memory.{checked_add}
use tamga_c.Memory.Exec.{Allocator}
use tamga_c.Memory.Growth.{
  Growth, grown, overflow, stuck, double_until, double_until-ne-stuck, double_until-ne-overflow,
}
use tamga_c.Buf.{
  Buf, min_capacity, empty, reserve, reserve_needed, make_room, after_growth, grow_to, append,
  append_reserved, append_bytes, detach_reserved, detach_string,
}
use tamga_c.Buf.Laws.{IsValid, Reserved, reserve-Reserved, append-Appended, append_bytes-Appended}

abbrev pub Grants : Allocator → Type 0
Grants m = (k size : ℕ) → m.grants k size ≡ true

Growth-grown : (g : Growth) → (g ≡ stuck → ⊥) → (g ≡ overflow → ⊥) → (c : ℕ) × (g ≡ grown c)
Growth-grown (grown c) s o = (c, refl)
Growth-grown overflow s o = absurd (o refl)
Growth-grown stuck s o = absurd (s refl)

after_growth-grown :
    (g : Growth) (c : ℕ) (b : Buf) (m : Allocator) (n : ℕ)
    → Grants m
    → g ≡ grown c
    → (after_growth g b m n).0 ≡ true
unfolding after_growth grow_to
after_growth-grown g c b m n all e = ground (arith, all n c)

reserve-granted :
    (extra : ℕ) (b : Buf) (m : Allocator) (n : ℕ)
    → Grants m
    → b.failed ≡ false
    → length b.content + extra ≤ 2 ^ 63
    → (reserve extra b m n).0 ≡ true
unfolding reserve reserve_needed make_room checked_add
reserve-granted extra b m n all live small =
    let needed = length b.content + extra in
    let start = if ltb b.capacity min_capacity then min_capacity else b.capacity in
    let (c, e) =
      Growth-grown (double_until 65 start needed)
        (double_until-ne-stuck 64 start needed (ground arith))
        (double_until-ne-overflow 65 start needed small) in
    let done = after_growth-grown (double_until 65 start needed) c b m n all e in
    simp live (ground (arith, done))

append_reserved-live :
    (bytes : Bytes) (b : Buf) (r : Bool × Buf × ℕ)
    → Reserved (length bytes) b r
    → r.0 ≡ true
    → (append_reserved bytes r).0.failed ≡ false
unfolding append_reserved
append_reserved-live bytes b (true, b', n) h e = h.sound refl
append_reserved-live bytes b (false, b', n) h e = cc

append-granted :
    (bytes : Bytes) (b : Buf) (m : Allocator) (n : ℕ)
    → Grants m
    → IsValid b
    → b.failed ≡ false
    → length b.content + length bytes ≤ 2 ^ 63
    → (append bytes b m n).0.failed ≡ false
unfolding append
append-granted bytes b m n all v live small = elim (Bool-cases (length bytes == 0)) [
  | inl empty_bytes ↦ simp (live, empty_bytes)
  | inr some_bytes ↦
      simp (live, some_bytes)
        (append_reserved-live bytes b _ (reserve-Reserved (length bytes) b m n v)
          (reserve-granted (length bytes) b m n all live small))
]

append_bytes-granted :
    (cs : Bytes) (b : Buf) (m : Allocator) (n : ℕ)
    → Grants m
    → IsValid b
    → b.failed ≡ false
    → length b.content + length cs ≤ 2 ^ 63
    → (append_bytes cs b m n).0.failed ≡ false
unfolding append_bytes
append_bytes-granted [] b m n all v live small = live
append_bytes-granted (c ∷ cs) b m n all v live small =
    let first = append-Appended (c ∷ []) b m n v in
    let live' = append-granted (c ∷ []) b m n all v live (omega arith) in
    let (_, content) = first.live live' in
    let size = ap length content ∙ length-append b.content (c ∷ []) in
    append_bytes-granted cs (append (c ∷ []) b m n).0 m _ all first.valid live' (omega arith)

detach_reserved-granted :
    (r : Bool × Buf × ℕ) → r.0 ≡ true → (detach_reserved r).0 ≡ some r.1.content
unfolding detach_reserved
detach_reserved-granted (true, b, n) e = refl
detach_reserved-granted (false, b, n) e = cc

detach_string-granted :
    (b : Buf) (m : Allocator) (n : ℕ)
    → Grants m
    → IsValid b
    → b.failed ≡ false
    → contains_byte 0 b.content ≡ false
    → length b.content + 1 ≤ 2 ^ 63
    → (detach_string b m n).0 ≡ some b.content
unfolding detach_string
detach_string-granted b m n all v live clean small =
    simp (live, clean)
      (detach_reserved-granted (reserve 1 b m n) (reserve-granted 1 b m n all live small)
        ∙ ap some (reserve-Reserved 1 b m n v).content)

detach_string-nul :
    (b : Buf) (m : Allocator) (n : ℕ)
    → contains_byte 0 b.content ≡ true
    → (detach_string b m n).0 ≡ none
unfolding detach_string
detach_string-nul b m n nul = ground arith

pub empty-IsValid : IsValid empty
empty-IsValid = omega arith

-- Where every request is granted, a fresh buffer takes any bytes below half of the address space,
-- and hands them over as a string exactly where no NUL is among them.
pub detach_string-append_bytes :
    (cs : Bytes) (m : Allocator) (n : ℕ)
    → Grants m
    → length cs < 2 ^ 63
    → (let (b, n') = append_bytes cs empty m n in (detach_string b m n').0)
      ≡ (if contains_byte 0 cs then none else some cs)
detach_string-append_bytes cs m n all small =
    let h = append_bytes-Appended cs empty m n empty-IsValid in
    let live = append_bytes-granted cs empty m n all empty-IsValid refl (omega arith) in
    let (_, content) = h.live live in
    let (b, n') = append_bytes cs empty m n in
    elim (Bool-cases (contains_byte 0 cs)) [
      | inl nul ↦ rw nul (detach_string-nul b m n' (rw content nul))
      | inr clean ↦
          let size = ap length content in
          rw clean (
            detach_string-granted b m n' all h.valid live (rw content clean) (omega arith)
            ∙ ap some content)
    ]
