-- ===== src/Uuid/Groups.antt =====
-- The hyphenated text of 16 bytes, and reading it.
use tamga_c.Prelude.{
  ℕ, zero, suc, ◌+◌, ◌*◌, ◌≤◌, ◌≡◌, refl, sym, ap, ◌∙◌, true, false, some, arith, List, [], ◌∷◌,
  ◌++◌, map, ◌==◌, length, length-append, length-take, length-drop, take, drop, take-append_self,
  take-length_self, drop-append_self, take-append-drop, drop-drop, All, All-take, contains_byte,
  contains_byte-append, passes_below, passes_below_lem, not, ◌||◌, Bytes, IsByte,
}
use mathlib.Core.List.{append-nil, append_assoc}
use tamga_c.Hex.{hex_encode, hex_high, hex_low}
use tamga_c.Hex.RoundTrip.{hex_decode-hex_encode, length-hex_encode}
use tamga_c.Uuid.{parse_groups, parse_hyphenated, uuid_format}

-- Groups, each behind a hyphen.
abbrev pub dashed : List Bytes → Bytes
dashed [] = []
dashed (g ∷ gs) = b'-' ∷ (hex_encode g ++ dashed gs)

abbrev concat : List Bytes → Bytes
concat [] = []
concat (g ∷ gs) = g ++ concat gs

AreByteGroups : List Bytes → Type 0
AreByteGroups [] = Unit
AreByteGroups (g ∷ gs) = All IsByte g × AreByteGroups gs

group-hex :
    (g : Bytes) (k : ℕ) (rest : Bytes)
    → length g ≡ k
    → (take (k * 2) (hex_encode g ++ rest) ≡ hex_encode g)
      × (drop (k * 2) (hex_encode g ++ rest) ≡ rest)
group-hex g k rest h =
    let size : k * 2 ≡ length (hex_encode g) = omega (arith, length-hex_encode g) in
    rw size (take-append_self (hex_encode g) rest, drop-append_self (hex_encode g) rest)

-- What follows the groups is not looked at.
parse_groups-dashed :
    (gs : List Bytes) (tail : Bytes)
    → AreByteGroups gs
    → parse_groups false (map length gs) (dashed gs ++ tail) ≡ some (concat gs)
unfolding parse_groups AreByteGroups
parse_groups-dashed [] tail h = refl
parse_groups-dashed (g ∷ gs) tail (bytes, h) =
    let (front, back) = group-hex g (length g) (dashed gs ++ tail) refl in
    rw
      (
        append_assoc (hex_encode g) (dashed gs) tail,
        front,
        back,
        hex_decode-hex_encode g bytes,
        parse_groups-dashed gs tail h,
      )
      refl

take_none : (k : ℕ) → take {A = ℕ} k [] ≡ []
take_none zero = refl
take_none (suc k) = refl

drop_none : (k : ℕ) → drop {A = ℕ} k [] ≡ []
drop_none zero = refl
drop_none (suc k) = refl

take-hex_encode : (k : ℕ) (bs : Bytes) → take (k * 2) (hex_encode bs) ≡ hex_encode (take k bs)
unfolding hex_encode
take-hex_encode zero bs = refl
take-hex_encode (suc k) [] = take_none (suc k * 2)
take-hex_encode (suc k) (b ∷ bs) =
    let twice : suc k * 2 ≡ suc (suc (k * 2)) = omega arith in
    rw twice (ap (λ t. hex_high b ∷ hex_low b ∷ t) (take-hex_encode k bs))

drop-hex_encode : (k : ℕ) (bs : Bytes) → drop (k * 2) (hex_encode bs) ≡ hex_encode (drop k bs)
unfolding hex_encode
drop-hex_encode zero bs = refl
drop-hex_encode (suc k) [] = drop_none (suc k * 2)
drop-hex_encode (suc k) (b ∷ bs) =
    let twice : suc k * 2 ≡ suc (suc (k * 2)) = omega arith in rw twice (drop-hex_encode k bs)

-- The five groups of 16 bytes.
abbrev groups : Bytes → List Bytes
groups bs = take 2 (drop 4 bs) ∷ take 2 (drop 6 bs) ∷ take 2 (drop 8 bs) ∷ take 6 (drop 10 bs) ∷ []

uuid_format-groups :
    (bs : Bytes)
    → length bs ≡ 16
    → uuid_format (some bs) ≡ hex_encode (take 4 bs) ++ dashed (groups bs)
unfolding uuid_format
uuid_format-groups bs h =
    rw
      (
        take-hex_encode 4 bs,
        drop-hex_encode 4 bs,
        drop-hex_encode 6 bs,
        drop-hex_encode 8 bs,
        drop-hex_encode 10 bs,
        take-hex_encode 2 (drop 4 bs),
        take-hex_encode 2 (drop 6 bs),
        take-hex_encode 2 (drop 8 bs),
        take-hex_encode 6 (drop 10 bs),
      )
      (rw (append-nil (hex_encode (take 6 (drop 10 bs)))) refl)

read_groups :
    (a : Bytes) (gs : List Bytes) (tail : Bytes)
    → length a ≡ 4
    → map length gs ≡ 2 ∷ 2 ∷ 2 ∷ 6 ∷ []
    → All IsByte a
    → AreByteGroups gs
    → parse_hyphenated (hex_encode a ++ (dashed gs ++ tail)) ≡ some (a ++ concat gs)
unfolding parse_hyphenated parse_groups
read_groups a gs tail four sizes bytes more =
    let (front, back) = group-hex a 4 (dashed gs ++ tail) four in
    let rest : parse_groups false (2 ∷ 2 ∷ 2 ∷ 6 ∷ []) (dashed gs ++ tail) ≡ some (concat gs) =
      ap (λ ks. parse_groups false ks (dashed gs ++ tail)) (sym sizes)
      ∙ parse_groups-dashed gs tail more in
    rw (front, back, hex_decode-hex_encode a bytes, rest) refl

sizes-groups : (bs : Bytes) → length bs ≡ 16 → map length (groups bs) ≡ 2 ∷ 2 ∷ 2 ∷ 6 ∷ []
sizes-groups bs h =
    let size : (k n : ℕ) → k + n ≤ 16 → length (take k (drop n bs)) ≡ k =
      λ k n fits. omega (arith, length-take k (drop n bs), length-drop n bs) in
    let a = size 2 4 (omega arith) in
    let b = size 2 6 (omega arith) in
    let c = size 2 8 (omega arith) in let d = size 6 10 (omega arith) in cc

pub All-drop : (k : ℕ) (bs : Bytes) → All IsByte bs → All IsByte (drop k bs)
All-drop zero bs h = h
All-drop (suc k) [] h = tt
All-drop (suc k) (b ∷ bs) (p, h) = All-drop k bs h

concat-groups : (bs : Bytes) → length bs ≡ 16 → take 4 bs ++ concat (groups bs) ≡ bs
concat-groups bs h =
    let step : (k n : ℕ) → take k (drop n bs) ++ drop (n + k) bs ≡ drop n bs = λ k n.
      ap (λ t. take k (drop n bs) ++ t) (sym (drop-drop k n bs)) ∙ take-append-drop k (drop n bs) in
    let six : length (drop 10 bs) ≡ 6 = omega (arith, length-drop 10 bs) in
    let last : take 6 (drop 10 bs) ≡ drop 10 bs =
      ap (λ k. take k (drop 10 bs)) (sym six) ∙ take-length_self (drop 10 bs) in
    rw (append-nil (take 6 (drop 10 bs)), last, step 2 8, step 2 6, step 2 4)
      (take-append-drop 4 bs)

-- The hyphenated text of 16 bytes is read as those bytes, whatever follows it.
pub parse_hyphenated-uuid_format :
    (bs tail : Bytes)
    → length bs ≡ 16
    → All IsByte bs
    → parse_hyphenated (uuid_format (some bs) ++ tail) ≡ some bs
unfolding AreByteGroups
parse_hyphenated-uuid_format bs tail h bytes =
    let part : (k n : ℕ) → All IsByte (take k (drop n bs)) =
      λ k n. All-take IsByte k (drop n bs) (All-drop n bs bytes) in
    let four : length (take 4 bs) ≡ 4 = omega (arith, length-take 4 bs) in
    ap (λ t. parse_hyphenated (t ++ tail)) (uuid_format-groups bs h)
    ∙ ap parse_hyphenated (append_assoc (hex_encode (take 4 bs)) (dashed (groups bs)) tail)
    ∙ read_groups (take 4 bs) (groups bs) tail four (sizes-groups bs h) (All-take IsByte 4 bs bytes)
        (part 2 4, (part 2 6, (part 2 8, (part 6 10, tt))))
    ∙ ap some (concat-groups bs h)

pub length-uuid_format : (bs : Bytes) → length bs ≡ 16 → length (uuid_format (some bs)) ≡ 36
unfolding uuid_format
length-uuid_format bs h = simp (length-append, length-take, length-drop, length-hex_encode, h) refl

clean_table : passes_below (λ b. not (hex_high b == 0 || hex_low b == 0)) 256 ≡ true
unfolding passes_below
clean_table = refl

pub clean-hex_encode : (bs : Bytes) → All IsByte bs → contains_byte 0 (hex_encode bs) ≡ false
unfolding hex_encode contains_byte
clean-hex_encode [] h = refl
clean-hex_encode (b ∷ bs) (p, h) =
    let digits =
      passes_below_lem (λ b. not (hex_high b == 0 || hex_low b == 0)) 256 b clean_table p in
    ground (arith, digits, clean-hex_encode bs h)

clean-dashed : (gs : List Bytes) → AreByteGroups gs → contains_byte 0 (dashed gs) ≡ false
unfolding contains_byte AreByteGroups
clean-dashed [] h = refl
clean-dashed (g ∷ gs) (p, h) =
    contains_byte-append 0 (hex_encode g) (dashed gs)
    ∙ rw (clean-hex_encode g p) (clean-dashed gs h)

-- No byte of the hyphenated text is a NUL.
pub clean-uuid_format :
    (bs : Bytes) → length bs ≡ 16 → All IsByte bs → contains_byte 0 (uuid_format (some bs)) ≡ false
unfolding AreByteGroups
clean-uuid_format bs h bytes =
    let part : (k n : ℕ) → All IsByte (take k (drop n bs)) =
      λ k n. All-take IsByte k (drop n bs) (All-drop n bs bytes) in
    ap (contains_byte 0) (uuid_format-groups bs h)
    ∙ contains_byte-append 0 (hex_encode (take 4 bs)) (dashed (groups bs))
    ∙ rw (clean-hex_encode (take 4 bs) (All-take IsByte 4 bs bytes))
        (clean-dashed (groups bs) (part 2 4, (part 2 6, (part 2 8, (part 6 10, tt)))))
