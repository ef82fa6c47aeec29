-- ===== src/Base64/Sizes.antt =====
-- The sizes that callers allocate are the sizes that the codec writes.
use tamga_c.Prelude.{
  ℕ, ◌+◌, ◌-◌, ◌*◌, ◌/◌, ◌≤◌, ◌≡◌, refl, ap, some, arith, leb, ◌==◌, Bool-cases, inl, inr, [], ◌∷◌,
  length, length-take, take, Bytes,
}
use tamga_c.Prelude.Options.{>>=-eq-some}
use mathlib.Core.Option.{some-injective}
use tamga_c.Memory.{checked_add, checked_mul}
use tamga_c.Base64.{
  sextet, decode_chars, check_leftover, decode_body, decoded_cap, encoded_len, strip_padding,
  base64_decode, base64_encode,
}

-- Six bits in for each character, eight out for each byte.
decode_chars_bits :
    (cs : Bytes) (a bits : ℕ) (out : Bytes) (last left : ℕ)
    → decode_chars cs a bits ≡ some (out, last, left)
    → length out * 8 + left ≡ length cs * 6 + bits
unfolding decode_chars
decode_chars_bits [] a bits out last left e = ground arith
decode_chars_bits (c ∷ cs) a bits out last left e = elim (Bool-cases (sextet c == 0xff)) [
  | inl bad ↦ absurd (cc (rw bad at e))
  | inr good ↦ elim (Bool-cases (leb 8 (bits + 6))) [
    | inl full ↦
        let (state, er, ew) =
          >>=-eq-some (decode_chars cs _ (bits + 6 - 8)) _ (rw (good, full) at e) in
        let ih = decode_chars_bits cs _ (bits + 6 - 8) state.0 state.1 state.2 er in
        let w = some-injective _ _ ew in
        let same_length = ap (λ (s : Bytes × ℕ × ℕ). length s.0) w in
        let same_left = ap (λ (s : Bytes × ℕ × ℕ). s.2) w in ground arith
    | inr short ↦
        let ih = decode_chars_bits cs _ (bits + 6) out last left (rw (good, short) at e) in
        omega arith
  ]
]

decode_body_bits : (cs bs : Bytes) → decode_body cs ≡ some bs → length bs * 8 ≤ length cs * 6
unfolding decode_body check_leftover
decode_body_bits cs bs e =
    let ((out, last, left), er, ec) = >>=-eq-some (decode_chars cs 0 0) _ e in
    let bits = decode_chars_bits cs 0 0 out last left er in
    let same : out ≡ bs = ground arith in omega (arith, ap length same)

decoded_cap_lem : (n cap : ℕ) → decoded_cap n ≡ some cap → cap ≡ (n + 3) / 4 * 3
unfolding decoded_cap checked_add checked_mul
decoded_cap_lem n cap e = ground arith

-- The decoder writes no byte behind the buffer of `decoded_cap` bytes that its callers allocate.
pub length-base64_decode :
    (text bs : Bytes) (cap : ℕ)
    → decoded_cap (length text) ≡ some cap
    → base64_decode text ≡ some bs
    → length bs ≤ cap
unfolding base64_decode
length-base64_decode text bs cap c e = elim (Bool-cases (length text == 0)) [
  | inl empty ↦ let nil = ap length (some-injective _ _ (rw empty at e)) in omega arith
  | inr full ↦
      let r = strip_padding 2 text (length text) 0 in
      let body : decode_body (take r.0 text) ≡ some bs = ground arith in
      omega (
        arith,
        decode_body_bits _ bs body,
        length-take r.0 text,
        decoded_cap_lem (length text) cap c,
      )
]

encode_length : (bs : Bytes) → length (base64_encode bs) ≡ (length bs + 2) / 3 * 4
unfolding base64_encode
encode_length [] = refl
encode_length (x ∷ []) = refl
encode_length (x ∷ y ∷ []) = refl
encode_length (x ∷ y ∷ z ∷ rest) = omega (arith, encode_length rest)

-- An encoding has exactly the length that `encoded_len` allocates for it.
pub length-base64_encode :
    (bs : Bytes) (n : ℕ) → encoded_len (length bs) ≡ some n → length (base64_encode bs) ≡ n
unfolding encoded_len checked_add checked_mul
length-base64_encode bs n e = ground (arith, encode_length bs)
