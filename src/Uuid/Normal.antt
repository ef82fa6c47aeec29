-- ===== src/Uuid/Normal.antt =====
-- A text that is read is 16 bytes, so that its normal form is a fixed point.
use mathlib.Core.Option.{some-injective}
use mathlib.Core.Path.{subst}
use tamga_c.Prelude.{
  ℕ, suc, ◌+◌, ◌*◌, ◌≤◌, ◌≡◌, inl, inr, refl, sym, ap, ◌∙◌, Bool, false, ◌||◌, not, Option, some,
  arith, List, [], ◌∷◌, ◌++◌, map, ◌==◌, if◌then◌else◌, length, length-append, length-take,
  length-drop, take, drop, get_or, All, All-append, All-take, Bytes, IsByte, bytes_eq, c_string,
  Bool-cases,
}
use tamga_c.Prelude.Options.{◌>>=◌, >>=-eq-some}
use tamga_c.Hex.{hex_decode}
use tamga_c.Hex.RoundTrip.{hex_encode-hex_decode, length-hex_encode, to_lower}
use tamga_c.Uuid.{
  skip_hyphen, urn, lower, parse_groups, parse_hyphenated, parse_text, uuid_parse, uuid_normalize,
}
use tamga_c.Uuid.Groups.{All-drop, length-uuid_format}
use tamga_c.Uuid.Spellings.{uuid_parse_spellings}

abbrev Bytes16 : ℕ → Bytes → Type 0
Bytes16 n bs = (length bs ≡ n) × All IsByte bs

length-map_lower : (text : Bytes) → length (map to_lower text) ≡ length text
length-map_lower [] = refl
length-map_lower (c ∷ cs) = ap suc (length-map_lower cs)

hex_decode-Bytes16 :
    (k : ℕ) (text bs : Bytes)
    → All IsByte text
    → length text ≡ k * 2
    → hex_decode text ≡ some bs
    → Bytes16 k bs
hex_decode-Bytes16 k text bs h size e =
    let (bytes, same) = hex_encode-hex_decode text bs h e in
    (omega (arith, length-hex_encode bs, ap length same, length-map_lower text), bytes)

-- The bytes of the groups, and the text that they take.
abbrev total : List ℕ → ℕ
total [] = 0
total (k ∷ ks) = k + total ks

abbrev room : List ℕ → ℕ
room [] = 0
room (k ∷ ks) = suc (k * 2 + room ks)

skip_hyphen_lem :
    (text rest : Bytes)
    → skip_hyphen text ≡ some rest
    → All IsByte text
    → (length text ≡ suc (length rest)) × All IsByte rest
unfolding skip_hyphen
skip_hyphen_lem [] rest e h = cc
skip_hyphen_lem (c ∷ cs) rest e (p, h) = elim (Bool-cases (c == b'-')) [
  | inl hyphen ↦
      let same = some-injective _ _ (rw hyphen at e) in
      (ap (λ t. suc (length t)) same, subst (All IsByte) same h)
  | inr other ↦ absurd (cc (rw other at e))
]

start : Bool → Bytes → Option Bytes
start first text = if first then some text else skip_hyphen text

group_after :
    (k : ℕ) (ks : List ℕ) (digits bs : Bytes)
    → ((text rest : Bytes)
        → All IsByte text
        → room ks ≤ length text
        → parse_groups false ks text ≡ some rest
        → Bytes16 (total ks) rest)
    → All IsByte digits
    → k * 2 + room ks ≤ length digits
    → (do
      bytes ← hex_decode (take (k * 2) digits)
      rest ← parse_groups false ks (drop (k * 2) digits)
      some (bytes ++ rest))
      ≡ some bs
    → Bytes16 (k + total ks) bs
group_after k ks digits bs more h fits e =
    let (g, e0, e1) = >>=-eq-some (hex_decode (take (k * 2) digits)) _ e in
    let (rest, e2, e3) = >>=-eq-some (parse_groups false ks (drop (k * 2) digits)) _ e1 in
    let (size, bytes) =
      hex_decode-Bytes16 k (take (k * 2) digits) g (All-take IsByte (k * 2) digits h)
        (omega (arith, length-take (k * 2) digits)) e0 in
    let (size', bytes') =
      more (drop (k * 2) digits) rest (All-drop (k * 2) digits h)
        (omega (arith, length-drop (k * 2) digits)) e2 in
    subst (Bytes16 (k + total ks)) (some-injective _ _ e3)
      (omega (arith, length-append g rest), All-append IsByte g rest bytes bytes')

parse_groups-Bytes16 :
    (ks : List ℕ) (text bs : Bytes)
    → All IsByte text
    → room ks ≤ length text
    → parse_groups false ks text ≡ some bs
    → Bytes16 (total ks) bs
unfolding parse_groups
parse_groups-Bytes16 [] text bs h fits e = subst (Bytes16 0) (some-injective _ _ e) (refl, tt)
parse_groups-Bytes16 (k ∷ ks) text bs h fits e =
    let (digits, e0, e1) = >>=-eq-some (skip_hyphen text) _ e in
    let (size, bytes) = skip_hyphen_lem text digits e0 h in
    group_after k ks digits bs (parse_groups-Bytes16 ks) bytes (omega arith) e1

parse_hyphenated-Bytes16 :
    (text bs : Bytes)
    → All IsByte text
    → 36 ≤ length text
    → parse_hyphenated text ≡ some bs
    → Bytes16 16 bs
unfolding parse_hyphenated parse_groups
parse_hyphenated-Bytes16 text bs h fits e =
    group_after 4 (2 ∷ 2 ∷ 2 ∷ 6 ∷ []) text bs (parse_groups-Bytes16 (2 ∷ 2 ∷ 2 ∷ 6 ∷ [])) h fits e

parse_text-Bytes16 : (text bs : Bytes) → All IsByte text → parse_text text ≡ some bs → Bytes16 16 bs
unfolding parse_text
parse_text-Bytes16 text bs h e = elim (Bool-cases (length text == 45)) [
  | inl a ↦ elim (Bool-cases (bytes_eq (map lower (take 9 text)) urn)) [
    | inl b ↦
        parse_hyphenated-Bytes16 (drop 9 text) bs (All-drop 9 text h)
          (ground (arith, length-drop 9 text)) (rw (a, b) at e)
    | inr b ↦ absurd (cc (rw (a, b) at e))
  ]
  | inr a ↦ elim (Bool-cases (length text == 38)) [
    | inl b ↦ elim (Bool-cases (not (get_or text 0 0 == b'{') || not (get_or text 37 0 == b'}'))) [
      | inl d ↦ absurd (cc (rw (a, b, d) at e))
      | inr d ↦
          parse_hyphenated-Bytes16 (drop 1 text) bs (All-drop 1 text h)
            (ground (arith, length-drop 1 text)) (rw (a, b, d) at e)
    ]
    | inr b ↦ elim (Bool-cases (length text == 36)) [
      | inl d ↦ parse_hyphenated-Bytes16 text bs h (ground arith) (rw (a, b, d) at e)
      | inr d ↦ elim (Bool-cases (length text == 32)) [
        | inl f ↦ hex_decode-Bytes16 16 text bs h (ground arith) (rw (a, b, d, f) at e)
        | inr f ↦ absurd (cc (rw (a, b, d, f) at e))
      ]
    ]
  ]
]

All-c_string : (text : Bytes) → All IsByte text → All IsByte (c_string text)
unfolding c_string
All-c_string [] h = tt
All-c_string (c ∷ cs) (p, h) = elim (Bool-cases (c == 0)) [
  | inl a ↦ rw a tt
  | inr a ↦ rw a (p, All-c_string cs h)
]

-- A text that normalises gives the 36 bytes of its UUID's hyphenated text, which normalises to itself
-- and is read as the same 16 bytes.
pub uuid_normalize_stable :
    (text out : Bytes)
    → All IsByte text
    → uuid_normalize (some text) ≡ some out
    → (length out ≡ 36)
      × (uuid_normalize (some out) ≡ some out)
      × (uuid_parse (some out) ≡ uuid_parse (some text))
unfolding uuid_normalize uuid_parse
uuid_normalize_stable text out h e =
    let (bs, e0, e1) = >>=-eq-some (parse_text (c_string text)) _ e in
    let (size, bytes) = parse_text-Bytes16 (c_string text) bs (All-c_string text h) e0 in
    let same = some-injective _ _ e1 in
    let (again, _, _, _) = uuid_parse_spellings bs size bytes in
    rw (sym same) (length-uuid_format bs size, rw again refl, again ∙ sym e0)
