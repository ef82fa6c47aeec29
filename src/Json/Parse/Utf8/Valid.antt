-- ===== src/Json/Parse/Utf8/Valid.antt =====
-- The text that the parser accepts in strings is UTF-8.
use mathlib.Core.List.{append_assoc, append-nil}
use tamga_c.Prelude.{
  ℕ, ◌+◌, ◌-◌, ◌*◌, ◌/◌, ◌≤◌, ◌<◌, ◌≡◌, ◌≢◌, ◌⊎◌, inl, inr, refl, sym, ap, ◌∙◌, Bool, true, false,
  ◌||◌, arith, [], ◌∷◌, ◌++◌, ltb, ◌==◌, if◌then◌else◌, length, take, Bytes, Bool-cases,
}
use tamga_c.Json.Parse.Utf8.{between, is_continuation, two, three, four, sequence_len, utf8_encode}

-- A code point that is no surrogate.
abbrev pub IsScalar : ℕ → Type 0
IsScalar c = (c < 0x110000) × ((c < 0xd800) ⊎ (0xdfff < c))

-- A text that is the encodings of scalar values, one behind the other.
pub data IsUtf8 : Bytes → Type 0 where
  no_more : IsUtf8 []
  character :
      {text : Bytes} (c : ℕ) (rest : Bytes)
      → IsScalar c
      → text ≡ utf8_encode c ++ rest
      → IsUtf8 rest
      → IsUtf8 text

pub one_character : (c : ℕ) → IsScalar c → IsUtf8 (utf8_encode c)
one_character c h = character c [] h (sym (append-nil (utf8_encode c))) no_more

pub append-IsUtf8 : (xs ys : Bytes) → IsUtf8 xs → IsUtf8 ys → IsUtf8 (xs ++ ys)
append-IsUtf8 xs ys no_more h = h
append-IsUtf8 xs ys (character c rest s e k) h =
    character c (rest ++ ys) s (ap (λ zs. zs ++ ys) e ∙ append_assoc (utf8_encode c) rest ys)
      (append-IsUtf8 rest ys k h)

encode_two :
    (x y : ℕ) → 2 ≤ x → x < 32 → y < 64 → utf8_encode (x * 64 + y) ≡ (0xc0 + x) ∷ (0x80 + y) ∷ []
unfolding utf8_encode
encode_two x y a b c = ground arith

encode_three :
    (x y z : ℕ)
    → x < 16
    → y < 64
    → z < 64
    → 32 ≤ x * 64 + y
    → utf8_encode (x * 4096 + y * 64 + z) ≡ (0xe0 + x) ∷ (0x80 + y) ∷ (0x80 + z) ∷ []
unfolding utf8_encode
encode_three x y z a b c d = ground arith

encode_four :
    (x y z w : ℕ)
    → x < 8
    → y < 64
    → z < 64
    → w < 64
    → 16 ≤ x * 64 + y
    → utf8_encode (x * 262144 + y * 4096 + z * 64 + w)
      ≡ (0xf0 + x) ∷ (0x80 + y) ∷ (0x80 + z) ∷ (0x80 + w) ∷ []
unfolding utf8_encode
encode_four x y z w a b c d e = ground arith

-- A front of the text of this length, which is one character.
abbrev IsFront : Bytes → ℕ → Type 0
IsFront text k = (k ≤ length text) × (c : ℕ) × IsScalar c × (take k text ≡ utf8_encode c)

one_start : (b0 : ℕ) (more : Bytes) → b0 < 0x80 → IsFront (b0 ∷ more) 1
unfolding utf8_encode
one_start b0 more h = (omega arith, b0, (omega arith, inl (omega arith)), ground arith)

two_start :
    (b0 : ℕ) (more : Bytes) → 0xc2 ≤ b0 → b0 ≤ 0xdf → two more ≢ 0 → IsFront (b0 ∷ more) (two more)
unfolding two
two_start b0 [] p q h = absurd (h refl)
two_start b0 (b1 ∷ rest) p q h = elim (Bool-cases (is_continuation b1)) [
  | inr other ↦ absurd (h (rw other))
  | inl is_next ↦
      let e : b1 / 64 ≡ 2 = ground arith in
      let back : (b0 - 0xc0 + 0xc0) ≡ b0 = omega arith in
      rw is_next (
        omega arith,
        (b0 - 0xc0) * 64 + (b1 - 0x80),
        (omega arith, inl (omega arith)),
        sym (
            encode_two (b0 - 0xc0) (b1 - 0x80) (omega arith) (omega arith) (omega arith)
            ∙ ground arith),
      )
]

-- The range of the second byte, which one first byte narrows below and another one above.
abbrev is_outside : ℕ → ℕ → ℕ → ℕ → ℕ → ℕ → ℕ → Bool
is_outside low_at low high_at high top b0 b1 =
    ltb b1 (if b0 == low_at then low else 0x80) || ltb (if b0 == high_at then high else top) b1

outside_lem :
    (low_at low high_at high b0 b1 : ℕ)
    → 0x80 ≤ low
    → high ≤ 0xbf
    → is_outside low_at low high_at high 0xbf b0 b1 ≡ false
    → (0x80 ≤ b1) × (b1 ≤ 0xbf) × (b0 ≡ low_at → low ≤ b1) × (b0 ≡ high_at → b1 ≤ high)
outside_lem low_at low high_at high b0 b1 p q h =
    (ground arith, ground arith, (λ e. ground arith), λ e. ground arith)

continuation_lem : (b : ℕ) → is_continuation b ≡ true → (0x80 ≤ b) × (b < 0xc0)
continuation_lem b h = ground arith

three_start :
    (b0 : ℕ) (more : Bytes)
    → 0xe0 ≤ b0
    → b0 ≤ 0xef
    → three b0 more ≢ 0
    → IsFront (b0 ∷ more) (three b0 more)
unfolding three
three_start b0 [] p q h = absurd (h refl)
three_start b0 (b1 ∷ []) p q h = absurd (h refl)
three_start b0 (b1 ∷ b2 ∷ rest) p q h =
    elim (Bool-cases (is_outside 0xe0 0xa0 0xed 0x9f 0xbf b0 b1)) [
      | inl outside ↦ absurd (h (rw outside))
      | inr inside ↦ elim (Bool-cases (is_continuation b2)) [
        | inr other ↦ absurd (h (rw (inside, other)))
        | inl is_next ↦
            let (l1, u1, low, high) =
              outside_lem 0xe0 0xa0 0xed 0x9f b0 b1 (omega arith) (omega arith) inside in
            let (l2, u2) = continuation_lem b2 is_next in
            let least : 32 ≤ (b0 - 0xe0) * 64 + (b1 - 0x80) = elim (Bool-cases (b0 == 0xe0)) [
              | inl e ↦ let k = low (ground arith) in omega arith
              | inr e ↦ ground arith
            ] in
            let c = (b0 - 0xe0) * 4096 + (b1 - 0x80) * 64 + (b2 - 0x80) in
            let no_surrogate : (c < 0xd800) ⊎ (0xdfff < c) = elim (Bool-cases (ltb b0 0xed)) [
              | inl e ↦ inl (ground arith)
              | inr e ↦ elim (Bool-cases (b0 == 0xed)) [
                | inl e' ↦ let k = high (ground arith) in inl (ground arith)
                | inr e' ↦ inr (ground arith)
              ]
            ] in
            rw (inside, is_next)
              (
                omega arith,
                c,
                (omega arith, no_surrogate),
                sym (
                    encode_three (b0 - 0xe0) (b1 - 0x80) (b2 - 0x80) (omega arith) (omega arith)
                      (omega arith) least
                    ∙ ground arith),
              )
      ]
    ]

four_start :
    (b0 : ℕ) (more : Bytes)
    → 0xf0 ≤ b0
    → b0 ≤ 0xf4
    → four b0 more ≢ 0
    → IsFront (b0 ∷ more) (four b0 more)
unfolding four
four_start b0 [] p q h = absurd (h refl)
four_start b0 (b1 ∷ []) p q h = absurd (h refl)
four_start b0 (b1 ∷ b2 ∷ []) p q h = absurd (h refl)
four_start b0 (b1 ∷ b2 ∷ b3 ∷ rest) p q h =
    elim (Bool-cases (is_outside 0xf0 0x90 0xf4 0x8f 0xbf b0 b1)) [
      | inl outside ↦ absurd (h (rw outside))
      | inr inside ↦ elim (Bool-cases (is_continuation b2)) [
        | inr other ↦ absurd (h (rw (inside, other)))
        | inl next2 ↦ elim (Bool-cases (is_continuation b3)) [
          | inr other ↦ absurd (h (rw (inside, next2, other)))
          | inl next3 ↦
              let (l1, u1, low, high) =
                outside_lem 0xf0 0x90 0xf4 0x8f b0 b1 (omega arith) (omega arith) inside in
              let (l2, u2) = continuation_lem b2 next2 in
              let (l3, u3) = continuation_lem b3 next3 in
              let least : 16 ≤ (b0 - 0xf0) * 64 + (b1 - 0x80) = elim (Bool-cases (b0 == 0xf0)) [
                | inl e ↦ let k = low (ground arith) in omega arith
                | inr e ↦ ground arith
              ] in
              let c = (b0 - 0xf0) * 262144 + (b1 - 0x80) * 4096 + (b2 - 0x80) * 64 + (b3 - 0x80) in
              let most : c < 0x110000 = elim (Bool-cases (b0 == 0xf4)) [
                | inl e ↦ let k = high (ground arith) in ground arith
                | inr e ↦ ground arith
              ] in
              rw (inside, next2, next3)
                (
                  omega arith,
                  c,
                  (most, inr (omega arith)),
                  sym (
                      encode_four (b0 - 0xf0) (b1 - 0x80) (b2 - 0x80) (b3 - 0x80) (omega arith)
                        (omega arith) (omega arith) (omega arith) least
                      ∙ ground arith),
                )
        ]
      ]
    ]

sequence_cases :
    (b0 : ℕ) (more : Bytes)
    → sequence_len (b0 ∷ more) ≢ 0
    → IsFront (b0 ∷ more) (sequence_len (b0 ∷ more))
unfolding sequence_len
sequence_cases b0 more h = elim (Bool-cases (ltb b0 0x80)) [
  | inl a ↦ rw a (one_start b0 more (ground arith))
  | inr a ↦ elim (Bool-cases (between 0xc2 0xdf b0)) [
    | inl b ↦ rw (a, b) (two_start b0 more (ground arith) (ground arith) (rw (a, b) at h))
    | inr b ↦ elim (Bool-cases (between 0xe0 0xef b0)) [
      | inl c ↦ rw (a, b, c) (three_start b0 more (ground arith) (ground arith) (rw (a, b, c) at h))
      | inr c ↦ elim (Bool-cases (between 0xf0 0xf4 b0)) [
        | inl d ↦
            rw (a, b, c, d)
              (four_start b0 more (ground arith) (ground arith) (rw (a, b, c, d) at h))
        | inr d ↦ absurd (h (rw (a, b, c, d)))
      ]
    ]
  ]
]

-- A sequence that the parser accepts is the encoding of a scalar value: no overlong form, no
-- surrogate, nothing above U+10FFFF, and no byte that is missing.
pub sequence_len_lem :
    (text : Bytes)
    → sequence_len text ≢ 0
    → (sequence_len text ≤ length text)
      × (c : ℕ) × IsScalar c
      × (take (sequence_len text) text ≡ utf8_encode c)
unfolding sequence_len
sequence_len_lem [] h = absurd (h refl)
sequence_len_lem (b0 ∷ more) h = sequence_cases b0 more h

-- The encoding of every scalar value is accepted, whatever follows it, and in full.
pub sequence_len-utf8_encode :
    (c : ℕ) (rest : Bytes)
    → IsScalar c
    → sequence_len (utf8_encode c ++ rest) ≡ length (utf8_encode c)
unfolding sequence_len utf8_encode
sequence_len-utf8_encode c rest (top, plane) = elim (Bool-cases (ltb c 0x80)) [
  | inl a ↦ rw (a, a)
  | inr a ↦ elim (Bool-cases (ltb c 0x800)) [
    | inl b ↦ rw (a, b) (ground arith)
    | inr b ↦ elim (Bool-cases (ltb c 0x10000)) [
      | inl d ↦ rw (a, b, d) (elim plane [ inl low ↦ ground arith | inr high ↦ ground arith ])
      | inr d ↦ rw (a, b, d) (ground arith)
    ]
  ]
]
