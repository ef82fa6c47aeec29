-- ===== src/Json/Write/Double/Text.antt =====
-- The text of a double: a reference for tamga_json_write_double of src/util/json_write.c. The digits
-- and the exponent are taken from the `%.*e` text, and laid out by the place of the point.
use tamga_c.Prelude.{
  ℕ, zero, suc, ◌+◌, ◌-◌, ◌≡◌, refl, Bool, true, false, Option, none, some, List, [], ◌∷◌, ◌++◌,
  ltb, leb, ◌==◌, ◌||◌, ◌&&◌, if◌then◌else◌, length, take, drop, replicate, Bytes, codes, arith,
  Bool-cases, Option-cases, inl, inr, ap, ◌∙◌,
}
use mathlib.Core.Path.{subst}
use tamga_c.Prelude.Int.{ℤ, pos, negsuc, ◌+ℤ◌}
use tamga_c.Buf.Written.{
  Writes, ◌then◌, text_of, skip-Writes, append-Writes, append_bytes-Writes, append_fmt-Writes,
  then-Writes, if-Writes,
}
use tamga_c.Json.Write.Sort.{iota_from}
use tamga_c.Json.Write.Double.{
  Formats, shortest, split_digits, strip_zeros, exponent_of, is_short, is_small, write_decimal,
  write_small, write_exponential, write_digits, write_parts, write_scratch, write_double,
}

-- The text of the least precision up to 17 that is read back as the double, unless one before it
-- cannot be formatted.
abbrev precisions : List ℕ
precisions = 0 ∷ 1 ∷ 2 ∷ 3 ∷ 4 ∷ 5 ∷ 6 ∷ 7 ∷ 8 ∷ 9 ∷ 10 ∷ 11 ∷ 12 ∷ 13 ∷ 14 ∷ 15 ∷ 16 ∷ 17 ∷ []

abbrev settles : Formats → ℕ → Option Bytes → Bool
settles f x none = true
settles f x (some text) = f.reads_back text x

unfoldable pub first_settled : Formats → ℕ → List ℕ → Option Bytes
first_settled f x [] = none
first_settled f x (p ∷ ps) =
    if settles f x (f.exponential p x) then f.exponential p x else first_settled f x ps

-- The mantissa's digits, and what follows the `e`.
unfoldable pub mantissa : Bytes → Bytes
mantissa [] = []
mantissa (c ∷ cs) =
    if c == b'e' || c == b'E' then [] else if c == b'.' then mantissa cs else c ∷ mantissa cs

unfoldable pub behind_e : Bytes → Option Bytes
behind_e [] = none
behind_e (c ∷ cs) = if c == b'e' || c == b'E' then some cs else behind_e cs

unfoldable pub all_zeros : Bytes → Bool
all_zeros [] = true
all_zeros (c ∷ cs) = c == b'0' && all_zeros cs

unfoldable pub without_trailing_zeros : Bytes → Bytes
without_trailing_zeros [] = []
without_trailing_zeros (c ∷ cs) = if all_zeros (c ∷ cs) then [] else c ∷ without_trailing_zeros cs

unfoldable pub significant : Bytes → Bytes
significant [] = []
significant (d ∷ ds) = d ∷ without_trailing_zeros ds

-- The point behind the first `k` digits, zeros filled in, and `.0` behind a whole number.
unfoldable pub plain_text : ℕ → Bytes → Bytes
plain_text k digits =
    if leb (length digits) k
    then (digits ++ replicate (k - length digits) b'0') ++ codes ".0"
    else (take k digits ++ b'.' ∷ []) ++ drop k digits

unfoldable pub small_text : ℕ → Bytes → Bytes
small_text count digits = (codes "0." ++ replicate count b'0') ++ digits

unfoldable pub fraction_text : Bytes → Bytes
fraction_text digits = if ltb 1 (length digits) then b'.' ∷ [] ++ drop 1 digits else []

unfoldable pub scientific_text : Formats → ℤ → Bytes → Bytes
scientific_text f e digits = (take 1 digits ++ fraction_text digits) ++ text_of (f.exponent e)

-- The layout by the place of the point: 1 to 16, 0 to -4, and others.
unfoldable pub layout : Formats → ℤ → Bytes → Bytes
layout f (pos zero) digits = small_text 0 digits
layout f (pos (suc k)) digits =
    if leb (suc k) 16 then plain_text (suc k) digits else scientific_text f (pos k) digits
layout f (negsuc n) digits =
    if leb (suc n) 4 then small_text (suc n) digits else scientific_text f (negsuc (suc n)) digits

unfoldable pub exponent_read : Formats → Option Bytes → ℤ
exponent_read f none = pos 0
exponent_read f (some text) = f.strtol text

-- `null` where there are no digits, or more of them than 32.
unfoldable pub unsigned_text : Formats → Bytes → Bytes → Bytes
unsigned_text f sign text =
    if ltb 32 (length (mantissa text))
    then codes "null"
    else if length (mantissa text) == 0
    then codes "null"
    else sign ++ layout f (exponent_read f (behind_e text) +ℤ pos 1) (significant (mantissa text))

unfoldable pub signed_text : Formats → Option Bytes → Bytes
signed_text f none = codes "null"
signed_text f (some []) = codes "null"
signed_text f (some (c ∷ cs)) =
    if c == b'-' then unsigned_text f (b'-' ∷ []) cs else unsigned_text f [] (c ∷ cs)

unfoldable pub double_text : Formats → ℕ → Bytes
double_text f x =
    if f.is_finite x then signed_text f (first_settled f x precisions) else codes "null"

write_decimal-Writes :
    (k : ℕ) (digits : Bytes) → Writes (write_decimal k digits) (plain_text k digits)
unfolding write_decimal plain_text
write_decimal-Writes k digits =
    if-Writes (leb (length digits) k) _ _ _ _
      (then-Writes _ _ _ _ (then-Writes _ _ _ _ (append-Writes digits) (append_bytes-Writes _))
        (append-Writes (codes ".0")))
      (then-Writes _ _ _ _ (then-Writes _ _ _ _ (append-Writes _) (append-Writes (b'.' ∷ [])))
        (append-Writes _))

write_small-Writes :
    (count : ℕ) (digits : Bytes) → Writes (write_small count digits) (small_text count digits)
unfolding write_small small_text
write_small-Writes count digits =
    then-Writes _ _ _ _ (then-Writes _ _ _ _ (append-Writes (codes "0.")) (append_bytes-Writes _))
      (append-Writes digits)

write_exponential-Writes :
    (f : Formats) (kk : ℤ) (digits : Bytes)
    → Writes (write_exponential f kk digits) (scientific_text f (kk +ℤ negsuc 0) digits)
unfolding write_exponential scientific_text fraction_text
write_exponential-Writes f kk digits =
    then-Writes _ _ _ _
      (then-Writes _ _ _ _ (append-Writes _) (
        if-Writes (ltb 1 (length digits)) _ _ _ _
          (then-Writes _ _ _ _ (append-Writes (b'.' ∷ [])) (append-Writes _)) skip-Writes))
      (append_fmt-Writes _)

before_positive : (k : ℕ) → pos (suc k) +ℤ negsuc 0 ≡ pos k
before_positive k =
    let reaches : leb (0 + 1) (suc k + 0) ≡ true = ground arith in
    let less : suc k + 0 - (0 + 1) ≡ k = omega arith in rw reaches (ap pos less)

before_negative : (n : ℕ) → negsuc n +ℤ negsuc 0 ≡ negsuc (suc n)
before_negative n =
    let short : leb (suc n + 1) (0 + 0) ≡ false = ground arith in
    let more : suc n + 1 - (0 + 0) - 1 ≡ suc n = omega arith in rw short (ap negsuc more)

scientific-Writes :
    (f : Formats) (kk e : ℤ) (digits : Bytes)
    → kk +ℤ negsuc 0 ≡ e
    → Writes (write_exponential f kk digits) (scientific_text f e digits)
scientific-Writes f kk e digits same =
    subst (λ shown. Writes (write_exponential f kk digits) (scientific_text f shown digits)) same
      (write_exponential-Writes f kk digits)

write_digits-Writes :
    (f : Formats) (kk : ℤ) (digits : Bytes) → Writes (write_digits f kk digits) (layout f kk digits)
unfolding write_digits layout
write_digits-Writes f (pos zero) digits = write_small-Writes 0 digits
write_digits-Writes f (pos (suc k)) digits = elim (Bool-cases (leb (suc k) 16)) [
  | inl short ↦
      let code : is_short (pos (suc k)) ≡ true = ground (arith, short) in
      simp (short, code) (write_decimal-Writes (suc k) digits)
  | inr long ↦
      let code : is_short (pos (suc k)) ≡ false = ground (arith, long) in
      let positive : is_small (pos (suc k)) ≡ false = ground arith in
      simp (long, code, positive)
        (scientific-Writes f (pos (suc k)) (pos k) digits (before_positive k))
]
write_digits-Writes f (negsuc n) digits =
    let negative : is_short (negsuc n) ≡ false = ground arith in
    elim (Bool-cases (leb (suc n) 4)) [
      | inl near ↦
          let code : is_small (negsuc n) ≡ true = ground (arith, near) in
          simp (near, code, negative) (write_small-Writes (suc n) digits)
      | inr far ↦
          let code : is_small (negsuc n) ≡ false = ground (arith, far) in
          simp (far, code, negative)
            (scientific-Writes f (negsuc n) (negsuc (suc n)) digits (before_negative n))
    ]

split_digits_lem : (text : Bytes) → split_digits text ≡ (mantissa text, behind_e text)
unfolding split_digits mantissa behind_e
split_digits_lem [] = refl
split_digits_lem (c ∷ cs) = rw (split_digits_lem cs) (elim (Bool-cases (c == b'e' || c == b'E')) [
  | inl here ↦ rw here refl
  | inr past ↦
      rw past
        (elim (Bool-cases (c == b'.')) [ inl point ↦ rw point refl | inr digit ↦ rw digit refl ])
])

exponent_of_lem : (f : Formats) (text : Option Bytes) → exponent_of f text ≡ exponent_read f text
unfolding exponent_of exponent_read
exponent_of_lem f none = refl
exponent_of_lem f (some text) = refl

trailing_zeros_lem :
    (digits : Bytes) → (length (without_trailing_zeros digits) == 0) ≡ all_zeros digits
unfolding without_trailing_zeros
trailing_zeros_lem [] = unfold all_zeros in refl
trailing_zeros_lem (c ∷ cs) = elim (Bool-cases (all_zeros (c ∷ cs))) [
  | inl zeros_only ↦ rw zeros_only refl
  | inr digit ↦
      let some_digit : (suc (length (without_trailing_zeros cs)) == 0) ≡ false = ground arith in
      rw digit some_digit
]

strip_zeros_cons :
    (d : ℕ) (digits : Bytes) → strip_zeros (d ∷ digits) ≡ d ∷ without_trailing_zeros digits
unfolding strip_zeros without_trailing_zeros
strip_zeros_cons d [] = refl
strip_zeros_cons d (c ∷ cs) =
    let same = ap (drop 1) (strip_zeros_cons d cs) in
    rw same (
      rw (trailing_zeros_lem cs) (
        unfold all_zeros in
        elim (Bool-cases (all_zeros cs)) [
          | inl zeros_only ↦ rw zeros_only (elim (Bool-cases (c == b'0')) [
            | inl zero_digit ↦ rw zero_digit refl
            | inr digit ↦ rw digit refl
          ])
          | inr more ↦ rw more (elim (Bool-cases (c == b'0')) [
            | inl zero_digit ↦ rw zero_digit refl
            | inr digit ↦ rw digit refl
          ])
        ]))

strip_zeros_lem : (digits : Bytes) → strip_zeros digits ≡ significant digits
unfolding significant
strip_zeros_lem [] = unfold strip_zeros in refl
strip_zeros_lem (d ∷ digits) = strip_zeros_cons d digits

shortest_step :
    (f : Formats) (x p tries : ℕ)
    → shortest f x p (suc tries)
      ≡ (if settles f x (f.exponential p x) then f.exponential p x else shortest f x (p + 1) tries)
unfolding shortest
shortest_step f x p tries = elim (Option-cases (f.exponential p x)) [
  | inl long ↦ rw long refl
  | inr (text, found) ↦ rw found refl
]

shortest_lem :
    (f : Formats) (x p tries : ℕ) → shortest f x p tries ≡ first_settled f x (iota_from p tries)
unfolding first_settled iota_from
shortest_lem f x p zero = unfold shortest in refl
shortest_lem f x p (suc tries) =
    shortest_step f x p tries
    ∙ (let next : p + 1 ≡ suc p = omega arith in
        let rest = shortest_lem f x (p + 1) tries in rw rest (rw next refl))

write_parts-Writes :
    (f : Formats) (negative : Bool) (text : Bytes)
    → Writes
        (write_parts f negative (split_digits text))
        (unsigned_text f (if negative then b'-' ∷ [] else []) text)
unfolding write_parts unsigned_text
write_parts-Writes f negative text =
    rw (split_digits_lem text, exponent_of_lem f (behind_e text), strip_zeros_lem (mantissa text))
      (if-Writes (ltb 32 (length (mantissa text))) _ _ _ _ (append-Writes (codes "null")) (
        if-Writes (length (mantissa text) == 0) _ _ _ _ (append-Writes (codes "null")) (
          then-Writes _ _ _ _ (if-Writes negative _ _ _ _ (append-Writes (b'-' ∷ [])) skip-Writes)
            (write_digits-Writes f _ _))))

write_scratch-Writes :
    (f : Formats) (text : Option Bytes) → Writes (write_scratch f text) (signed_text f text)
unfolding write_scratch signed_text
write_scratch-Writes f none = append-Writes (codes "null")
write_scratch-Writes f (some []) = unfold split_digits write_parts in append-Writes (codes "null")
write_scratch-Writes f (some (c ∷ cs)) =
    if-Writes (c == b'-') _ _ _ _ (write_parts-Writes f true cs)
      (write_parts-Writes f false (c ∷ cs))

pub write_double-Writes : (f : Formats) (x : ℕ) → Writes (write_double f x) (double_text f x)
unfolding write_double double_text iota_from
write_double-Writes f x = rw (shortest_lem f x 0 18) (
    if-Writes (f.is_finite x) _ _ _ _ (write_scratch-Writes f (first_settled f x precisions))
      (append-Writes (codes "null")))
