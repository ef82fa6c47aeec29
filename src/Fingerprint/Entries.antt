-- ===== src/Fingerprint/Entries.antt =====
-- The components of src/util/fingerprint.c as pairs of a label and a value, and how the text that holds
-- them is taken apart again.
use mathlib.Core.List.{Perm, Mem, forall_mem-cons, not-mem-nil}
use mathlib.Core.List.Perm
use tamga_c.Prelude.{
  ℕ, ◌≡◌, ◌<◌, refl, sym, ◌∙◌, true, false, Option, none, some, arith, List, [], ◌∷◌, ◌++◌, map,
  ◌==◌, if◌then◌else◌, length, All, Bytes, c_string, contains_byte, contains_byte-append,
}
use tamga_c.Checkout.Pem.{trim}
use tamga_c.Fingerprint.{Component, equals, separator, is_control, has_control, is_label}

abbrev pub Entry : Type 0
Entry = Bytes × Bytes

abbrev pub Input : Type 0
Input = Option Bytes × Option Bytes

-- A label as a C string, and a value as one that is trimmed.
unfoldable pub entry : Input → Entry
entry (some label, some value) = (c_string label, trim (c_string value))
entry (none, value) = ([], [])
entry (some label, none) = ([], [])

pub record IsEntry (e : Entry) : Type 0 where
  pub label : is_label e.0 ≡ true
  pub named : 0 < length e.0
  pub value : has_control e.1 ≡ false

abbrev pub line : Entry → Bytes
line e = e.0 ++ equals ∷ e.1

abbrev pub component_of : Entry → Component
component_of e = record { text = line e; label_len = length e.0 }

-- Each text behind a separator.
abbrev pub joined : List Bytes → Bytes
joined [] = []
joined (t ∷ ts) = separator ∷ (t ++ joined ts)

pub label-equals : (cs : Bytes) → is_label cs ≡ true → contains_byte equals cs ≡ false
unfolding is_label contains_byte
label-equals [] h = refl
label-equals (c ∷ cs) h = ground (arith, label-equals cs)

label-separator : (cs : Bytes) → is_label cs ≡ true → contains_byte separator cs ≡ false
unfolding is_label contains_byte
label-separator [] h = refl
label-separator (c ∷ cs) h = ground (arith, label-separator cs)

value-separator : (cs : Bytes) → has_control cs ≡ false → contains_byte separator cs ≡ false
unfolding has_control is_control contains_byte
value-separator [] h = refl
value-separator (c ∷ cs) h = ground (arith, value-separator cs)

pub line-separator : (e : Entry) → IsEntry e → contains_byte separator (line e) ≡ false
unfolding contains_byte
line-separator e h =
    contains_byte-append separator e.0 (equals ∷ e.1)
    ∙ ground (arith, label-separator e.0 h.label, value-separator e.1 h.value)

-- The bytes before the first `c`, and those behind it.
unfoldable pub until : ℕ → Bytes → Bytes
until c [] = []
until c (x ∷ xs) = let rest = until c xs in if x == c then [] else x ∷ rest

behind : ℕ → Bytes → Bytes
behind c [] = []
behind c (x ∷ xs) = let rest = behind c xs in if x == c then xs else rest

pub until-append :
    (c : ℕ) (xs ys : Bytes) → contains_byte c xs ≡ false → until c (xs ++ c ∷ ys) ≡ xs
unfolding until contains_byte
until-append c [] ys h = ground arith
until-append c (x ∷ xs) ys h = ground (arith, until-append c xs ys)

behind-append : (c : ℕ) (xs ys : Bytes) → contains_byte c xs ≡ false → behind c (xs ++ c ∷ ys) ≡ ys
unfolding behind contains_byte
behind-append c [] ys h = ground arith
behind-append c (x ∷ xs) ys h = ground (arith, behind-append c xs ys)

unfoldable pub parts : Bytes → Entry
unfolding until behind
parts text = (until equals text, behind equals text)

pub parts-line : (e : Entry) → IsEntry e → parts (line e) ≡ e
unfolding parts
parts-line e h =
    let clean = label-equals e.0 h.label in
    let before = until-append equals e.0 e.1 clean in
    let later = behind-append equals e.0 e.1 clean in cc

pub lines_taken_apart : (es : List Entry) → All IsEntry es → map parts (map line es) ≡ es
lines_taken_apart [] h = refl
lines_taken_apart (e ∷ es) (p, h) =
    let first = parts-line e p in let rest = lines_taken_apart es h in cc

-- Lines that are the same up to order are those of entries that are.
pub line-perm :
    (es fs : List Entry)
    → All IsEntry es
    → All IsEntry fs
    → Perm (map line es) (map line fs)
    → Perm es fs
line-perm es fs h k p =
    rw (sym (lines_taken_apart es h), sym (lines_taken_apart fs k)) (Perm.map parts p)

-- No text has a separator in it.
abbrev pub AreWhole : List Bytes → Type 0
AreWhole ts = (t : Bytes) → Mem t ts → contains_byte separator t ≡ false

pub line-AreWhole : (es : List Entry) → All IsEntry es → AreWhole (map line es)
line-AreWhole [] h = λ t m. absurd (not-mem-nil m)
line-AreWhole (e ∷ es) (p, h) =
    (forall_mem-cons (λ t. hlevel)).1 (line-separator e p, line-AreWhole es h)

cons_parts : {x y : ℕ} {xs ys : Bytes} → ◌≡◌ {A = Bytes} (x ∷ xs) (y ∷ ys) → (x ≡ y) × (xs ≡ ys)
cons_parts e = (cc, cc)

first_text :
    (xs ys : Bytes) (ts us : List Bytes)
    → contains_byte separator xs ≡ false
    → contains_byte separator ys ≡ false
    → xs ++ joined ts ≡ ys ++ joined us
    → (xs ≡ ys) × (joined ts ≡ joined us)
unfolding contains_byte
first_text [] [] ts us h k e = (refl, e)
first_text [] (y ∷ ys) [] us h k e = cc
first_text [] (y ∷ ys) (t ∷ ts) us h k e = absurd (ground (arith, cons_parts e))
first_text (x ∷ xs) [] ts [] h k e = cc
first_text (x ∷ xs) [] ts (u ∷ us) h k e = absurd (ground (arith, cons_parts e))
first_text (x ∷ xs) (y ∷ ys) ts us h k e =
    let (heads, tails) = cons_parts e in
    let (first, more) = first_text xs ys ts us (ground arith) (ground arith) tails in (cc, more)

AreWhole-cons :
    (t : Bytes) (ts : List Bytes)
    → AreWhole (t ∷ ts)
    → (contains_byte separator t ≡ false) × AreWhole ts
AreWhole-cons t ts h = (forall_mem-cons (λ t. hlevel)).0 h

pub joined-injective :
    (ts us : List Bytes) → AreWhole ts → AreWhole us → joined ts ≡ joined us → ts ≡ us
joined-injective [] [] h k e = refl
joined-injective [] (u ∷ us) h k e = cc
joined-injective (t ∷ ts) [] h k e = cc
joined-injective (t ∷ ts) (u ∷ us) h k e =
    let (ht, hs) = AreWhole-cons t ts h in
    let (hu, ks) = AreWhole-cons u us k in
    let (first, more) = first_text t u ts us ht hu (cons_parts e).1 in
    let rest = joined-injective ts us hs ks more in cc
