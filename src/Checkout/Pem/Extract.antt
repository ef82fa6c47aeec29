-- ===== src/Checkout/Pem/Extract.antt =====
-- What tamga_pem_extract returns, and which body it cannot return.
use mathlib.Core.Path.{subst}
use tamga_c.Prelude.{
  ℕ, ◌+◌, ◌-◌, ◌≤◌, ◌<◌, ◌^◌, ◌≡◌, ◌⊎◌, sym, ap, ◌∙◌, true, false, not, ◌||◌, arith, [], ◌∷◌, ◌++◌,
  ltb, ◌==◌, if◌then◌else◌, length, take, drop, Bytes, bytes_eq, bytes_eq_iff, contains_byte,
  Bool-cases, inl, inr, take-append-drop, drop-drop, length-append, suc,
}
use tamga_c.Memory.{max_reasonable_len}
use tamga_c.Memory.Exec.{Allocator, ok, err, lift, guard, >>=-eq-ok, ok-injective, or_error-eq-ok}
use tamga_c.Errors.{length_invalid, out_of_memory}
use tamga_c.Buf
use tamga_c.Buf.{append_bytes, detach_string}
use tamga_c.Buf.Laws.{detach_string_lem, append_bytes-Appended}
use tamga_c.Buf.Granted.{Grants, detach_string-append_bytes, empty-IsValid}
use tamga_c.Checkout.Pem.{
  is_space, trim_start, trim_end, keep_end, trim, drop_spaces, collect, body_between, pem_extract,
}

span_lem :
    (b k : ℕ) (text : Bytes) → text ≡ take b text ++ (take k (drop b text) ++ drop (b + k) text)
span_lem b k text =
    cc (take-append-drop b text, take-append-drop k (drop b text), drop-drop k b text)

body_between_lem :
    (begin_marker end_marker text raw : Bytes)
    → body_between begin_marker end_marker text ≡ ok raw
    → text ≡ begin_marker ++ (raw ++ end_marker)
unfolding body_between
body_between_lem begin_marker end_marker text raw h =
    elim (Bool-cases (ltb (length text) (length begin_marker + length end_marker))) [
      | inl short ↦ absurd (cc (rw short at h))
      | inr long ↦ elim (Bool-cases (bytes_eq (take (length begin_marker) text) begin_marker)) [
        | inr other ↦ absurd (cc (rw (long, other) at h))
        | inl opened ↦
            elim (Bool-cases (bytes_eq (drop (length text - length end_marker) text) end_marker)) [
              | inr other ↦ absurd (cc (rw (long, opened, other) at h))
              | inl closed ↦
                  let opening =
                    (bytes_eq_iff (take (length begin_marker) text) begin_marker).0 opened in
                  let closing =
                    (bytes_eq_iff (drop (length text - length end_marker) text) end_marker).0
                      closed in
                  let body_len = length text - length begin_marker - length end_marker in
                  let up_to : length begin_marker + body_len ≡ length text - length end_marker =
                    ground arith in
                  cc (
                    ok-injective (rw (long, opened, closed) at h),
                    span_lem (length begin_marker) body_len text,
                    up_to,
                  )
            ]
      ]
    ]

collect_lem :
    (raw : Bytes) (m : Allocator) (n : ℕ) (body : Bytes)
    → (collect raw m n).0 ≡ ok body
    → (body ≡ drop_spaces raw) × (contains_byte 0 body ≡ false)
unfolding collect
collect_lem raw m n body h =
    let appended = append_bytes-Appended (drop_spaces raw) Buf.empty m n empty-IsValid in
    let (same, live, clean) =
      detach_string_lem (append_bytes (drop_spaces raw) Buf.empty m n).0 m _ body appended.valid
        (or_error-eq-ok out_of_memory _ h) in
    (same ∙ (appended.live live).1, clean)

-- A space, or one of the bytes 9 to 13.
abbrev pub IsWhite : ℕ → Type 0
IsWhite c = (c ≡ 32) ⊎ (9 ≤ c) × (c ≤ 13)

-- The second text is the first one with its white bytes left out, and no others.
pub data Stripped : Bytes → Bytes → Type 0 where
  at_end : Stripped [] []
  left_out : {c : ℕ} {cs out : Bytes} → IsWhite c → Stripped cs out → Stripped (c ∷ cs) out
  kept : {c : ℕ} {cs out : Bytes} → (IsWhite c → ⊥) → Stripped cs out → Stripped (c ∷ cs) (c ∷ out)

white : (c : ℕ) → is_space c ≡ true → IsWhite c
white c h = ground arith

not_white : (c : ℕ) → is_space c ≡ false → IsWhite c → ⊥
not_white c h (inl blank) = ground arith
not_white c h (inr (low, high)) = ground arith

drop_spaces-Stripped : (text : Bytes) → Stripped text (drop_spaces text)
unfolding drop_spaces
drop_spaces-Stripped [] = at_end
drop_spaces-Stripped (c ∷ cs) = elim (Bool-cases (is_space c)) [
  | inl blank ↦ rw blank (left_out (white c blank) (drop_spaces-Stripped cs))
  | inr other ↦ rw other (kept (not_white c other) (drop_spaces-Stripped cs))
]

-- The body that is returned is the text between the two markers of the trimmed input, without its
-- white bytes, which are the space and the bytes 9 to 13, and with no NUL in it.
pub pem_extract_sound :
    (pem begin_marker end_marker : Bytes) (m : Allocator) (n : ℕ) (body : Bytes)
    → (pem_extract pem begin_marker end_marker m n).0 ≡ ok body
    → (raw : Bytes) × (trim pem ≡ begin_marker ++ (raw ++ end_marker))
      × (body ≡ drop_spaces raw)
      × (contains_byte 0 body ≡ false)
      × Stripped raw body
unfolding pem_extract
pem_extract_sound pem begin_marker end_marker m n body h =
    let (_, _, h1) =
      >>=-eq-ok
        (guard (not (length pem == 0 || ltb max_reasonable_len (length pem))) length_invalid) _ h in
    let (raw, span, h2) = >>=-eq-ok (lift (body_between begin_marker end_marker (trim pem))) _ h1 in
    let (same, clean) = collect_lem raw m _ body h2 in
    (
      raw,
      body_between_lem begin_marker end_marker (trim pem) raw span,
      same,
      clean,
      subst (Stripped raw) (sym same) (drop_spaces-Stripped raw),
    )

drop_spaces-length : (text : Bytes) → length (drop_spaces text) ≤ length text
unfolding drop_spaces
drop_spaces-length [] = omega arith
drop_spaces-length (c ∷ cs) = ground (arith, drop_spaces-length cs)

trim_start-length : (text : Bytes) → length (trim_start text) ≤ length text
unfolding trim_start
trim_start-length [] = omega arith
trim_start-length (c ∷ cs) = ground (arith, trim_start-length cs)

keep_end-length : (c : ℕ) (rest : Bytes) → length (keep_end c rest) ≤ suc (length rest)
keep_end-length c [] = ground arith
keep_end-length c (d ∷ ds) = omega arith

trim_end-length : (text : Bytes) → length (trim_end text) ≤ length text
unfolding trim_end
trim_end-length [] = omega arith
trim_end-length (c ∷ cs) = omega (arith, keep_end-length c (trim_end cs), trim_end-length cs)

-- The collected body of an accepted input is far below the buffer's bound.
body-length :
    (pem begin_marker end_marker raw : Bytes)
    → trim pem ≡ begin_marker ++ (raw ++ end_marker)
    → length pem ≤ max_reasonable_len
    → length (drop_spaces raw) < 2 ^ 63
unfolding trim
body-length pem begin_marker end_marker raw split small =
    let total : length (trim pem) ≡ length begin_marker + (length raw + length end_marker) =
      ap length split
      ∙ length-append begin_marker (raw ++ end_marker)
      ∙ ap (λ t. length begin_marker + t) (length-append raw end_marker) in
    omega (
      arith,
      total,
      drop_spaces-length raw,
      trim_end-length (trim_start pem),
      trim_start-length pem,
    )

-- With an allocator that grants every request, a text of an accepted length whose markers are in
-- place gives its body, and gives `out_of_memory` exactly where a NUL stands in that body.
pub pem_extract-granted :
    (pem begin_marker end_marker raw : Bytes) (m : Allocator) (n : ℕ)
    → Grants m
    → 0 < length pem
    → length pem ≤ max_reasonable_len
    → body_between begin_marker end_marker (trim pem) ≡ ok raw
    → (pem_extract pem begin_marker end_marker m n).0
      ≡ (if contains_byte 0 (drop_spaces raw) then err out_of_memory else ok (drop_spaces raw))
unfolding pem_extract collect
pem_extract-granted pem begin_marker end_marker raw m n all some_pem small span =
    let bound =
      body-length pem begin_marker end_marker raw
        (body_between_lem begin_marker end_marker (trim pem) raw span) small in
    let out = detach_string-append_bytes (drop_spaces raw) m n all bound in
    let there : (length pem == 0) ≡ false = ground arith in
    let accepted : ltb max_reasonable_len (length pem) ≡ false = ground arith in
    rw (there, accepted, span, out)
      (elim (Bool-cases (contains_byte 0 (drop_spaces raw))) [
        | inl nul ↦ rw nul
        | inr clean ↦ rw clean
      ])
