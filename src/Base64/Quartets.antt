-- ===== src/Base64/Quartets.antt =====
-- The decoding loop, one round at a time and four rounds at a time.
use tamga_c.Prelude.{
  ℕ, ◌+◌, ◌-◌, ◌*◌, ◌/◌, ◌%◌, ◌^◌, ◌≤◌, ◌<◌, ◌≡◌, ◌≢◌, ◌⊎◌, refl, sym, ap, ◌∙◌, true, false, Option,
  none, some, inl, inr, Bool-cases, ==_iff, ◌==◌, leb, arith, [], ◌∷◌, length, All, IsByte, Bytes,
}
use mathlib.Core.Option.{some-injective}
use tamga_c.Prelude.Options.{◌>>=◌, >>=-eq-some}
use tamga_c.Base64.{sextet, letter, shift_in, write, decode_chars, check_leftover, decode_body}
use tamga_c.Base64.Alphabet.{letter-sextet, sextet-letter, letter_mod}
use tamga_c.Base64.Shape.{unpadded, letter_eq}

-- The loop and the test after it.
pub read : Bytes → ℕ → ℕ → Option Bytes
read cs accum bits = decode_chars cs accum bits >>= check_leftover

abbrev behind : ℕ → Option Bytes → Option Bytes
behind byte rest = rest >>= λ out. some (byte ∷ out)

check_leftover-write :
    (byte : ℕ) (state : Bytes × ℕ × ℕ)
    → check_leftover (write byte state) ≡ behind byte (check_leftover state)
unfolding check_leftover
check_leftover-write byte (out, accum, bits) = ground arith

write-behind :
    (byte : ℕ) (o : Option (Bytes × ℕ × ℕ))
    → ((o >>= λ s. some (write byte s)) >>= check_leftover) ≡ behind byte (o >>= check_leftover)
write-behind byte none = refl
write-behind byte (some s) = check_leftover-write byte s

module _ (c : ℕ) (cs : Bytes) (accum : ℕ) where
  read_first : sextet c ≢ 0xff → read (c ∷ cs) accum 0 ≡ read cs (shift_in accum (sextet c)) 6
  unfolding read decode_chars
  read_first h = ground arith

  read_emit :
      (bits : ℕ)
      → 2 ≤ bits
      → sextet c ≢ 0xff
      → read (c ∷ cs) accum bits
        ≡ behind
            (shift_in accum (sextet c) / 2 ^ (bits - 2) % 256)
            (read cs (shift_in accum (sextet c)) (bits - 2))
  unfolding read decode_chars
  read_emit bits b h =
      let known : (sextet c == 0xff) ≡ false = ground arith in
      let full : leb 8 (bits + 6) ≡ true = ground arith in
      let e : bits + 6 - 8 ≡ bits - 2 = omega arith in rw (known, full, e) (write-behind _ _)

  read_bad : (bits : ℕ) → sextet c ≡ 0xff → read (c ∷ cs) accum bits ≡ none
  unfolding read decode_chars
  read_bad bits h = rw h

module _ (c : ℕ) (cs : Bytes) (accum : ℕ) (bs : Bytes) where
  read_first_inv :
      read (c ∷ cs) accum 0 ≡ some bs
      → (sextet c ≢ 0xff) × (read cs (shift_in accum (sextet c)) 6 ≡ some bs)
  read_first_inv e = elim (Bool-cases (sextet c == 0xff)) [
    | inl bad ↦ cc (read_bad c cs accum 0 ((==_iff _ _).0 bad))
    | inr good ↦ let n : sextet c ≢ 0xff = ground arith in (n, sym (read_first c cs accum n) ∙ e)
  ]

  read_emit_inv :
      (bits : ℕ)
      → 2 ≤ bits
      → read (c ∷ cs) accum bits ≡ some bs
      → (tail : Bytes) × (sextet c ≢ 0xff)
        × (read cs (shift_in accum (sextet c)) (bits - 2) ≡ some tail)
        × (shift_in accum (sextet c) / 2 ^ (bits - 2) % 256 ∷ tail ≡ bs)
  read_emit_inv bits b e = elim (Bool-cases (sextet c == 0xff)) [
    | inl bad ↦ cc (read_bad c cs accum bits ((==_iff _ _).0 bad))
    | inr good ↦
        let n : sextet c ≢ 0xff = ground arith in
        let (tail, et, e') =
          >>=-eq-some (read cs _ _) _ (sym (read_emit c cs accum bits b n) ∙ e) in
        (tail, n, et, some-injective _ _ e')
  ]

-- The bytes of one quartet. What the accumulator held before does not matter.
abbrev after_two : ℕ → ℕ → ℕ → ℕ
after_two a s₀ s₁ = shift_in (shift_in a s₀) s₁

byte_one : (a s₀ s₁ : ℕ) → s₀ < 64 → s₁ < 64 → after_two a s₀ s₁ / 2 ^ 4 % 256 ≡ s₀ * 4 + s₁ / 16
byte_one a s₀ s₁ h₀ h₁ = omega arith

byte_two :
    (a s₀ s₁ s₂ : ℕ)
    → s₁ < 64
    → s₂ < 64
    → shift_in (after_two a s₀ s₁) s₂ / 2 ^ 2 % 256 ≡ s₁ % 16 * 16 + s₂ / 4
byte_two a s₀ s₁ s₂ h₁ h₂ = omega arith

byte_three :
    (a s₂ s₃ : ℕ) → s₂ < 64 → s₃ < 64 → shift_in (shift_in a s₂) s₃ / 2 ^ 0 % 256 ≡ s₂ % 4 * 64 + s₃
byte_three a s₂ s₃ h₂ h₃ = omega arith

read-nil : (a bits : ℕ) → read [] a bits ≡ check_leftover ([], a, bits)
unfolding read decode_chars
read-nil a bits = refl

read-nil_inv :
    (a bits : ℕ) (bs : Bytes)
    → read [] a bits ≡ some bs
    → ((bits ≡ 0) ⊎ (a % 2 ^ bits ≡ 0)) × (bs ≡ [])
unfolding check_leftover
read-nil_inv a bits bs e =
    let known : check_leftover ([], a, bits) ≡ some bs = sym (read-nil a bits) ∙ e in
    (ground arith, ground arith)

as_letter : (c t : ℕ) → IsByte c → sextet c ≢ 0xff → t % 64 ≡ sextet c → letter t ≡ c
as_letter c t h n e =
    let (back, small) = letter-sextet c h n in letter_eq t (sextet c) (omega arith) ∙ back

-- Text that the loop accepts is the encoding, without padding, of the bytes that it gives.
pub read_canonical :
    (cs bs : Bytes) (a : ℕ)
    → All IsByte cs
    → length cs % 4 ≢ 1
    → read cs a 0 ≡ some bs
    → All IsByte bs × (unpadded bs ≡ cs)
unfolding unpadded
read_canonical [] bs a h n e = let (_, nil) = read-nil_inv a 0 bs e in rw nil (tt, refl)
read_canonical (c₀ ∷ []) bs a h n e = absurd (n refl)
read_canonical (c₀ ∷ c₁ ∷ []) bs a (h₀, (h₁, h)) n e =
    let (n₀, e₁) = read_first_inv c₀ _ a bs e in
    let (tail, n₁, e₂, eq) = read_emit_inv c₁ _ _ bs 6 (omega arith) e₁ in
    let (left, nil) = read-nil_inv _ 4 tail e₂ in
    let (_, s₀) = letter-sextet c₀ h₀ n₀ in
    let (_, s₁) = letter-sextet c₁ h₁ n₁ in
    let x = sextet c₀ * 4 + sextet c₁ / 16 in
    rw (← eq, nil, byte_one a _ _ s₀ s₁)
      (
        (omega arith, tt),
        rw (
          as_letter c₀ (x / 4) h₀ n₀ (omega arith),
          as_letter c₁ (x % 4 * 16) h₁ n₁ (omega arith),
        ),
      )
read_canonical (c₀ ∷ c₁ ∷ c₂ ∷ []) bs a (h₀, (h₁, (h₂, h))) n e =
    let (n₀, e₁) = read_first_inv c₀ _ a bs e in
    let (tail, n₁, e₂, eq) = read_emit_inv c₁ _ _ bs 6 (omega arith) e₁ in
    let (tail', n₂, e₃, eq') = read_emit_inv c₂ _ _ tail 4 (omega arith) e₂ in
    let (left, nil) = read-nil_inv _ 2 tail' e₃ in
    let (_, s₀) = letter-sextet c₀ h₀ n₀ in
    let (_, s₁) = letter-sextet c₁ h₁ n₁ in
    let (_, s₂) = letter-sextet c₂ h₂ n₂ in
    let x = sextet c₀ * 4 + sextet c₁ / 16 in
    let y = sextet c₁ % 16 * 16 + sextet c₂ / 4 in
    rw (← eq, ← eq', nil, byte_one a _ _ s₀ s₁, byte_two a _ _ _ s₁ s₂)
      (
        (omega arith, (omega arith, tt)),
        rw (
          as_letter c₀ (x / 4) h₀ n₀ (omega arith),
          as_letter c₁ (x % 4 * 16 + y / 16) h₁ n₁ (omega arith),
          as_letter c₂ (y % 16 * 4) h₂ n₂ (omega arith),
        ),
      )
read_canonical (c₀ ∷ c₁ ∷ c₂ ∷ c₃ ∷ rest) bs a (h₀, (h₁, (h₂, (h₃, h)))) n e =
    let (n₀, e₁) = read_first_inv c₀ _ a bs e in
    let (tail, n₁, e₂, eq) = read_emit_inv c₁ _ _ bs 6 (omega arith) e₁ in
    let (tail', n₂, e₃, eq') = read_emit_inv c₂ _ _ tail 4 (omega arith) e₂ in
    let (tail'', n₃, e₄, eq'') = read_emit_inv c₃ _ _ tail' 2 (omega arith) e₃ in
    let (_, s₀) = letter-sextet c₀ h₀ n₀ in
    let (_, s₁) = letter-sextet c₁ h₁ n₁ in
    let (_, s₂) = letter-sextet c₂ h₂ n₂ in
    let (_, s₃) = letter-sextet c₃ h₃ n₃ in
    let (bytes, text) = read_canonical rest tail'' _ h (λ k. n (omega arith)) e₄ in
    let x = sextet c₀ * 4 + sextet c₁ / 16 in
    let y = sextet c₁ % 16 * 16 + sextet c₂ / 4 in
    let z = sextet c₂ % 4 * 64 + sextet c₃ in
    rw (← eq, ← eq', ← eq'', byte_one a _ _ s₀ s₁, byte_two a _ _ _ s₁ s₂, byte_three _ _ _ s₂ s₃)
      (
        (omega arith, (omega arith, (omega arith, bytes))),
        rw (
          as_letter c₀ (x / 4) h₀ n₀ (omega arith),
          as_letter c₁ (x % 4 * 16 + y / 16) h₁ n₁ (omega arith),
          as_letter c₂ (y % 16 * 4 + z / 64) h₂ n₂ (omega arith),
          as_letter c₃ (z % 64) h₃ n₃ (omega arith),
          text,
        ),
      )

sextet-letter_mod : (t : ℕ) → (sextet (letter t) ≡ t % 64) × (sextet (letter t) ≢ 0xff)
sextet-letter_mod t =
    let (value, _) = sextet-letter (t % 64) (omega arith) in
    let e : sextet (letter t) ≡ t % 64 = rw letter_mod at value in (e, λ bad. absurd (omega arith))

first_letter :
    (t : ℕ) (cs : Bytes) (a : ℕ) → read (letter t ∷ cs) a 0 ≡ read cs (shift_in a (t % 64)) 6
first_letter t cs a =
    let (value, good) = sextet-letter_mod t in
    read_first (letter t) cs a good ∙ ap (λ s. read cs (shift_in a s) 6) value

next_letter :
    (t : ℕ) (cs : Bytes) (a bits : ℕ)
    → 2 ≤ bits
    → read (letter t ∷ cs) a bits
      ≡ behind
          (shift_in a (t % 64) / 2 ^ (bits - 2) % 256)
          (read cs (shift_in a (t % 64)) (bits - 2))
next_letter t cs a bits b =
    let (value, good) = sextet-letter_mod t in
    read_emit (letter t) cs a bits b good
    ∙ ap (λ s. behind (shift_in a s / 2 ^ (bits - 2) % 256) (read cs (shift_in a s) (bits - 2)))
        value

read_end : (a bits : ℕ) → a % 2 ^ bits ≡ 0 → read [] a bits ≡ some []
unfolding check_leftover
read_end a bits h = read-nil a bits ∙ ground arith

-- The loop reads the unpadded encoding of any bytes back.
pub read-unpadded : (bs : Bytes) (a : ℕ) → All IsByte bs → read (unpadded bs) a 0 ≡ some bs
unfolding unpadded
read-unpadded [] a h = read-nil a 0 ∙ unfold check_leftover in refl
read-unpadded (x ∷ []) a (hx, h) =
    let s₀ = x / 4 % 64 in
    let s₁ = x % 4 * 16 % 64 in
    let b₀ : after_two a s₀ s₁ / 2 ^ 4 % 256 ≡ x =
      byte_one a s₀ s₁ (omega arith) (omega arith) ∙ omega arith in
    let end = read_end (after_two a s₀ s₁) 4 (omega arith) in
    rw (first_letter, next_letter _ _ _ 6 (omega arith), b₀, end)
read-unpadded (x ∷ y ∷ []) a (hx, (hy, h)) =
    let s₀ = x / 4 % 64 in
    let s₁ = (x % 4 * 16 + y / 16) % 64 in
    let s₂ = y % 16 * 4 % 64 in
    let b₀ : after_two a s₀ s₁ / 2 ^ 4 % 256 ≡ x =
      byte_one a s₀ s₁ (omega arith) (omega arith) ∙ omega arith in
    let b₁ : shift_in (after_two a s₀ s₁) s₂ / 2 ^ 2 % 256 ≡ y =
      byte_two a s₀ s₁ s₂ (omega arith) (omega arith) ∙ omega arith in
    let end = read_end (shift_in (after_two a s₀ s₁) s₂) 2 (omega arith) in
    rw (
      first_letter,
      next_letter _ _ _ 6 (omega arith),
      b₀,
      next_letter _ _ _ 4 (omega arith),
      b₁,
      end,
    )
read-unpadded (x ∷ y ∷ z ∷ rest) a (hx, (hy, (hz, h))) =
    let s₀ = x / 4 % 64 in
    let s₁ = (x % 4 * 16 + y / 16) % 64 in
    let s₂ = (y % 16 * 4 + z / 64) % 64 in
    let s₃ = z % 64 % 64 in
    let b₀ : after_two a s₀ s₁ / 2 ^ 4 % 256 ≡ x =
      byte_one a s₀ s₁ (omega arith) (omega arith) ∙ omega arith in
    let b₁ : shift_in (after_two a s₀ s₁) s₂ / 2 ^ 2 % 256 ≡ y =
      byte_two a s₀ s₁ s₂ (omega arith) (omega arith) ∙ omega arith in
    let b₂ : shift_in (shift_in (after_two a s₀ s₁) s₂) s₃ / 2 ^ 0 % 256 ≡ z =
      byte_three (after_two a s₀ s₁) s₂ s₃ (omega arith) (omega arith) ∙ omega arith in
    rw (
      first_letter,
      next_letter _ _ _ 6 (omega arith),
      b₀,
      next_letter _ _ _ 4 (omega arith),
      b₁,
      next_letter _ _ _ 2 (omega arith),
      b₂,
      read-unpadded rest _ h,
    )

pub decode_body-eq-read : (cs : Bytes) → decode_body cs ≡ read cs 0 0
unfolding decode_body read
decode_body-eq-read cs = refl
