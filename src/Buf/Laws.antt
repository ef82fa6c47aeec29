-- ===== src/Buf/Laws.antt =====
-- The buffer refines a byte string that grows at its end: unless it has failed, its content is what
-- was appended.
use mathlib.Core.List.{append-nil, append_assoc}
use mathlib.Core.Option.{some-injective}
use tamga_c.Prelude.{
  ℕ, ◌+◌, ◌≤◌, ◌<◌, ◌≡◌, refl, sym, ap, ◌∙◌, Bool, true, false, Option, none, some, arith, [], ◌∷◌,
  ◌++◌, ltb, leb, ◌==◌, if◌then◌else◌, length, length-append, Bytes, contains_byte, Bool-cases, inl,
  inr,
}
use tamga_c.Memory.{checked_add, size_max}
use tamga_c.Memory.Exec.{Allocator}
use tamga_c.Memory.Growth.{Growth, grown, overflow, stuck, double_until, double_until-grown}
use tamga_c.Buf.{
  Buf, min_capacity, reserve, reserve_needed, make_room, after_growth, grow_to, append,
  append_reserved, append_bytes, detach_reserved, detach_string, detach_raw,
}

pub record IsValid (b : Buf) : Type 0 where
  pub fits : length b.content ≤ b.capacity
  pub bounded : b.capacity ≤ size_max

-- What a call that makes room for `extra` bytes leaves behind.
pub record Reserved (extra : ℕ) (b : Buf) (r : Bool × Buf × ℕ) : Type 0 where
  pub content : r.1.content ≡ b.content
  pub valid : IsValid r.1
  pub room : r.0 ≡ true → length b.content + extra ≤ r.1.capacity
  pub sound : r.0 ≡ true → r.1.failed ≡ false
  pub sticky : r.0 ≡ false → r.1.failed ≡ true

after_growth-Reserved :
    (g : Growth) (extra needed : ℕ) (b : Buf) (m : Allocator) (n : ℕ)
    → IsValid b
    → b.failed ≡ false
    → length b.content + extra ≡ needed
    → b.capacity < needed
    → ((got : ℕ) → g ≡ grown got → (needed ≤ got) × (got ≤ size_max))
    → Reserved extra b (after_growth g b m n)
unfolding after_growth grow_to
after_growth-Reserved (grown got) extra needed b m n v live e less h = ground (arith, h got refl)
after_growth-Reserved overflow extra needed b m n v live e less h = ground arith
after_growth-Reserved stuck extra needed b m n v live e less h = ground arith

make_room-Reserved :
    (extra needed : ℕ) (b : Buf) (m : Allocator) (n : ℕ)
    → IsValid b
    → b.failed ≡ false
    → length b.content + extra ≡ needed
    → Reserved extra b (make_room needed b m n)
unfolding make_room
make_room-Reserved extra needed b m n v live e = elim (Bool-cases (leb needed b.capacity)) [
  | inl enough ↦ rw enough (record {
    content = refl;
    valid = v;
    room = λ _. ground arith;
    sound = λ _. live;
    sticky = λ h. cc;
  })
  | inr less ↦
      let start = if ltb b.capacity min_capacity then min_capacity else b.capacity in
      let small : start ≤ size_max = ground arith in
      rw less (
        after_growth-Reserved (double_until 65 start needed) extra needed b m n v live e
          (ground arith)
          (λ got g. let (p, _, q) = double_until-grown 65 start needed got small g in (p, q)))
]

reserve_needed-Reserved :
    (extra : ℕ) (o : Option ℕ) (b : Buf) (m : Allocator) (n : ℕ)
    → IsValid b
    → b.failed ≡ false
    → ((needed : ℕ) → o ≡ some needed → length b.content + extra ≡ needed)
    → Reserved extra b (reserve_needed o b m n)
unfolding reserve_needed
reserve_needed-Reserved extra none b m n v live h = ground arith
reserve_needed-Reserved extra (some needed) b m n v live h =
    make_room-Reserved extra needed b m n v live (h needed refl)

pub reserve-Reserved :
    (extra : ℕ) (b : Buf) (m : Allocator) (n : ℕ)
    → IsValid b
    → Reserved extra b (reserve extra b m n)
unfolding reserve checked_add
reserve-Reserved extra b m n v = elim (Bool-cases b.failed) [
  | inl dead ↦
      simp dead
        (record { content = refl; valid = v; room = λ h. cc; sound = λ h. cc; sticky = λ _. dead })
  | inr live ↦ simp live (
      reserve_needed-Reserved extra (checked_add (length b.content) extra) b m n v live
        (λ needed e. ground arith))
]

-- What an append leaves behind.
pub record Appended (bytes : Bytes) (b : Buf) (r : Buf × ℕ) : Type 0 where
  pub valid : IsValid r.0
  pub live : r.0.failed ≡ false → (b.failed ≡ false) × (r.0.content ≡ b.content ++ bytes)

pub append_reserved-Appended :
    (bytes : Bytes) (b : Buf) (r : Bool × Buf × ℕ)
    → b.failed ≡ false
    → Reserved (length bytes) b r
    → Appended bytes b (append_reserved bytes r)
unfolding append_reserved
append_reserved-Appended bytes b (true, b', n) live h = record {
  valid = record { fits = rw (length-append, h.content) (h.room refl); bounded = h.valid.bounded };
  live = λ _. (live, ap (λ c. c ++ bytes) h.content);
}
append_reserved-Appended bytes b (false, b', n) live h = record {
  valid = h.valid;
  live = λ e. absurd (cc (h.sticky refl));
}

pub append-Appended :
    (bytes : Bytes) (b : Buf) (m : Allocator) (n : ℕ)
    → IsValid b
    → Appended bytes b (append bytes b m n)
unfolding append
append-Appended bytes b m n v = elim (Bool-cases b.failed) [
  | inl dead ↦ simp dead (record { valid = v; live = λ e. absurd (cc (dead, e)) })
  | inr live ↦ elim (Bool-cases (length bytes == 0)) [
    | inl empty_bytes ↦
        let nil : bytes ≡ [] = ground arith in
        simp (live, empty_bytes)
          (record { valid = v; live = λ e. (e, rw nil (sym (append-nil b.content))) })
    | inr some_bytes ↦
        simp (live, some_bytes)
          (append_reserved-Appended bytes b _ live (reserve-Reserved (length bytes) b m n v))
  ]
]

pub append_bytes-Appended :
    (cs : Bytes) (b : Buf) (m : Allocator) (n : ℕ)
    → IsValid b
    → Appended cs b (append_bytes cs b m n)
unfolding append_bytes
append_bytes-Appended [] b m n v = record { valid = v; live = λ e. (e, sym (append-nil b.content)) }
append_bytes-Appended (c ∷ cs) b m n v =
    let first = append-Appended (c ∷ []) b m n v in
    let rest = append_bytes-Appended cs (append (c ∷ []) b m n).0 m _ first.valid in
    record {
      valid = rest.valid;
      live = λ e.
          let (live', e') = rest.live e in
          let (live'', e'') = first.live live' in (live'', e' ∙ rw (e'', append_assoc));
    }

-- A valid buffer keeps its content within its allocation through an append and through a loop of
-- appended bytes; and unless the buffer has failed at the end, it had not failed before, and its
-- content is the old content with the bytes behind it.
pub append-refines :
    (bytes : Bytes) (b : Buf) (m : Allocator) (n : ℕ)
    → IsValid b
    → Appended bytes b (append bytes b m n) × Appended bytes b (append_bytes bytes b m n)
append-refines bytes b m n v = (append-Appended bytes b m n v, append_bytes-Appended bytes b m n v)

detach_reserved_lem :
    (r : Bool × Buf × ℕ) (out : Bytes) → (detach_reserved r).0 ≡ some out → out ≡ r.1.content
unfolding detach_reserved
detach_reserved_lem (true, b, n) out e = sym (some-injective _ _ e)
detach_reserved_lem (false, b, n) out e = cc

-- A string that a valid buffer hands over is its content, without a NUL in it, and the buffer had not
-- failed.
pub detach_string_lem :
    (b : Buf) (m : Allocator) (n : ℕ) (out : Bytes)
    → IsValid b
    → (detach_string b m n).0 ≡ some out
    → (out ≡ b.content) × (b.failed ≡ false) × (contains_byte 0 out ≡ false)
unfolding detach_string
detach_string_lem b m n out v e = elim (Bool-cases b.failed) [
  | inl dead ↦ absurd (cc (simp dead at e))
  | inr live ↦ elim (Bool-cases (contains_byte 0 b.content)) [
    | inl nul ↦ absurd (cc (simp (live, nul) at e))
    | inr clean ↦
        let same =
          detach_reserved_lem (reserve 1 b m n) out (simp (live, clean) at e)
          ∙ (reserve-Reserved 1 b m n v).content in
        (same, live, rw same clean)
  ]
]

-- Raw bytes that a valid buffer hands over are its content.
pub detach_raw_lem :
    (b : Buf) (m : Allocator) (n : ℕ) (out : Bytes)
    → IsValid b
    → (detach_raw b m n).0 ≡ some out
    → out ≡ b.content
unfolding detach_raw
detach_raw_lem b m n out v e = elim (Bool-cases b.failed) [
  | inl dead ↦ absurd (cc (simp dead at e))
  | inr live ↦ elim (Bool-cases (b.capacity == 0)) [
    | inl blank ↦
        detach_reserved_lem (reserve 1 b m n) out (simp (live, blank) at e)
        ∙ (reserve-Reserved 1 b m n v).content
    | inr held ↦ sym (some-injective _ _ (simp (live, held) at e))
  ]
]
