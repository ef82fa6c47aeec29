-- ===== src/Base64/Shape.antt =====
-- Encoded text without its padding, and the padding that belongs to it.
use tamga_c.Prelude.{
  ℕ, ◌+◌, ◌*◌, ◌/◌, ◌%◌, ◌^◌, ◌<◌, ◌≡◌, ◌≢◌, refl, arith, [], ◌∷◌, ◌++◌, length, replicate, All,
  IsByte, Bytes, ◌⊎◌, inl, inr,
}
use tamga_c.Base64.{pad_char, letter, base64_encode}
use tamga_c.Base64.Alphabet.{sextet-letter, letter_mod}

-- RFC 4648 without padding: six bits at a time, the last ones filled up with zeros.
unfoldable pub unpadded : Bytes → Bytes
unpadded [] = []
unpadded (a ∷ []) = letter (a / 4) ∷ letter (a % 4 * 16) ∷ []
unpadded (a ∷ b ∷ []) = letter (a / 4) ∷ letter (a % 4 * 16 + b / 16) ∷ letter (b % 16 * 4) ∷ []
unpadded (a ∷ b ∷ c ∷ rest) =
    letter (a / 4)
    ∷ letter (a % 4 * 16 + b / 16)
    ∷ letter (b % 16 * 4 + c / 64)
    ∷ letter (c % 64)
    ∷ unpadded rest

-- How many '=' complete the last quartet.
abbrev pub padding : Bytes → ℕ
padding [] = 0
padding (a ∷ []) = 2
padding (a ∷ b ∷ []) = 1
padding (a ∷ b ∷ c ∷ rest) = padding rest

pub letter_eq : (s t : ℕ) → s % 64 ≡ t % 64 → letter s ≡ letter t
unfolding letter
letter_eq s t e = rw e

pub base64_encode_lem :
    (bs : Bytes) → All IsByte bs → base64_encode bs ≡ unpadded bs ++ replicate (padding bs) pad_char
unfolding base64_encode unpadded
base64_encode_lem [] h = refl
base64_encode_lem (x ∷ []) (hx, h) =
    let t = x * 2 ^ 16 in
    rw (
      letter_eq (t / 2 ^ 18) (x / 4) (omega arith),
      letter_eq (t / 2 ^ 12) (x % 4 * 16) (omega arith),
    )
base64_encode_lem (x ∷ y ∷ []) (hx, (hy, h)) =
    let t = x * 2 ^ 16 + y * 2 ^ 8 in
    rw (
      letter_eq (t / 2 ^ 18) (x / 4) (omega arith),
      letter_eq (t / 2 ^ 12) (x % 4 * 16 + y / 16) (omega arith),
      letter_eq (t / 2 ^ 6) (y % 16 * 4) (omega arith),
    )
base64_encode_lem (x ∷ y ∷ z ∷ rest) (hx, (hy, (hz, h))) =
    let t = x * 2 ^ 16 + y * 2 ^ 8 + z in
    rw (
      letter_eq (t / 2 ^ 18) (x / 4) (omega arith),
      letter_eq (t / 2 ^ 12) (x % 4 * 16 + y / 16) (omega arith),
      letter_eq (t / 2 ^ 6) (y % 16 * 4 + z / 64) (omega arith),
      letter_eq t (z % 64) (omega arith),
      base64_encode_lem rest h,
    )

pub length-unpadded :
    (bs : Bytes)
    → (padding bs ≡ 0) × (length (unpadded bs) % 4 ≡ 0)
      ⊎ ((padding bs ≡ 1) × (length (unpadded bs) % 4 ≡ 3)
          ⊎ (padding bs ≡ 2) × (length (unpadded bs) % 4 ≡ 2))
unfolding unpadded
length-unpadded [] = inl (refl, refl)
length-unpadded (x ∷ []) = inr (inr (refl, refl))
length-unpadded (x ∷ y ∷ []) = inr (inl (refl, refl))
length-unpadded (x ∷ y ∷ z ∷ rest) = omega (arith, length-unpadded rest)

letter-ne-pad : (t : ℕ) → letter t ≢ pad_char
letter-ne-pad t = rw letter_mod at ((sextet-letter (t % 64) (omega arith)).1)

pub unpadded-ne-pad : (bs : Bytes) → All (λ c. c ≢ pad_char) (unpadded bs)
unfolding unpadded
unpadded-ne-pad [] = tt
unpadded-ne-pad (x ∷ []) = (letter-ne-pad _, (letter-ne-pad _, tt))
unpadded-ne-pad (x ∷ y ∷ []) = (letter-ne-pad _, (letter-ne-pad _, (letter-ne-pad _, tt)))
unpadded-ne-pad (x ∷ y ∷ z ∷ rest) =
    (letter-ne-pad _, (letter-ne-pad _, (letter-ne-pad _, (letter-ne-pad _, unpadded-ne-pad rest))))

pub unpadded_pos : (x : ℕ) (xs : Bytes) → 0 < length (unpadded (x ∷ xs))
unfolding unpadded
unpadded_pos x [] = omega arith
unpadded_pos x (y ∷ []) = omega arith
unpadded_pos x (y ∷ z ∷ rest) = omega arith
