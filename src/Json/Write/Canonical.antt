-- ===== src/Json/Write/Canonical.antt =====
-- The canonical text of an object does not depend on the order of its members.
use mathlib.Core.List.{
  Pairwise, Perm, Mem, mem-cons_self, mem-cons_of_mem, mem-cons, forall_mem-cons, not-mem-nil,
}
use mathlib.Core.List.Pairwise
use mathlib.Core.List.Perm
use mathlib.Core.Logic.Or
use native.Mathlib.Bridge.{le_prop}
use tamga_c.Prelude.{
  ℕ, zero, suc, ◌+◌, ◌≤◌, ◌<◌, ◌≡◌, ◌≢◌, refl, sym, ap, ◌∙◌, Bool, true, false, some, inl, inr,
  arith, List, [], ◌∷◌, ◌++◌, map, ltb, length, get_elem?, get_or, Bytes, Bool-cases,
}
use tamga_c.Fingerprint.Lexical.{◌≼◌, ≼_refl, ≼_antisym}
use tamga_c.Memory.Exec.{Allocator}
use tamga_c.Json.{Json, Members, object, end, member}
use tamga_c.Json.Write.{json_write_canonical}
use tamga_c.Json.Write.Double.{Formats}
use tamga_c.Json.Write.Sort.{iota_from, iota}
use tamga_c.Json.Write.Sort.Keys.{sorted_places_sorted}
use tamga_c.Json.Write.Printed.{
  comma_text, row_text, rows_text, names_of, places, object_text, printed, member_texts,
  json_write-printed,
}

-- A member's key and the text of its value.
abbrev Row : Type 0
Row = Bytes × Bytes

abbrev no_row : Row
no_row = ([], [])

abbrev pub ByKey : Row → Row → Type 0
ByKey a b = a.0 ≼ b.0

row_at : List Row → ℕ → Row
row_at rows i = get_or rows i no_row

map-shift :
    (x : Row) (rows : List Row) (start count : ℕ)
    → map (row_at (x ∷ rows)) (iota_from (suc start) count)
      ≡ map (row_at rows) (iota_from start count)
unfolding row_at iota_from
map-shift x rows start zero = refl
map-shift x rows start (suc count) =
    ap (λ zs. get_or rows start no_row ∷ zs) (map-shift x rows (suc start) count)

rows_back : (rows : List Row) → map (row_at rows) (iota_from 0 (length rows)) ≡ rows
unfolding iota_from row_at
rows_back [] = refl
rows_back (x ∷ rows) = ap (λ zs. x ∷ zs) (map-shift x rows 0 (length rows) ∙ rows_back rows)

name_at : (rows : List Row) (i : ℕ) → get_or (names_of rows) i [] ≡ (row_at rows i).0
unfolding row_at
name_at [] i = refl
name_at ((k, t) ∷ rows) zero = refl
name_at ((k, t) ∷ rows) (suc i) = name_at rows i

length-names_of : (rows : List Row) → length (names_of rows) ≡ length rows
length-names_of [] = refl
length-names_of ((k, t) ∷ rows) = ap suc (length-names_of rows)

-- The members in the order that the canonical form gives them.
arranged : List Row → List Row
arranged rows = map (row_at rows) (places true rows)

places-perm : (rows : List Row) → Perm (places true rows) (iota (length rows))
unfolding places
places-perm rows = elim (Bool-cases (ltb 1 (length rows))) [
  | inl many ↦
      let (perm, _) = sorted_places_sorted (names_of rows) in
      rw many (rw (length-names_of rows) at perm)
  | inr few ↦ rw few Perm.rfl
]

arranged-perm : (rows : List Row) → Perm (arranged rows) rows
unfolding arranged iota
arranged-perm rows = rw (rows_back rows) at (Perm.map (row_at rows) (places-perm rows))

few_ascend : (rows : List Row) → length rows ≤ 1 → Pairwise ByKey rows
few_ascend [] h = Pairwise.nil
few_ascend (x ∷ []) h = Pairwise.cons (λ y m. absurd (not-mem-nil m)) Pairwise.nil
few_ascend (x ∷ y ∷ rows) h = absurd (omega arith)

arranged-Pairwise : (rows : List Row) → Pairwise ByKey (arranged rows)
unfolding arranged places iota
arranged-Pairwise rows = elim (Bool-cases (ltb 1 (length rows))) [
  | inl many ↦
      let (_, up) = sorted_places_sorted (names_of rows) in
      rw many (
        Pairwise.map' {S = ByKey} (row_at rows) (λ a b. hlevel)
          (Pairwise.imp (λ i j h. rw (name_at rows i, name_at rows j) at h) up))
  | inr few ↦ rw few (rw (rows_back rows) (few_ascend rows (ground (arith, few))))
]

-- A key that stands in two rows has the same text in both; an object's keys stand in one row only.
abbrev AgreesOnKeys : List Row → Type 0
AgreesOnKeys rows = (a b : Row) → Mem a rows → Mem b rows → a.0 ≡ b.0 → a ≡ b

no_rows-AgreesOnKeys : AgreesOnKeys []
no_rows-AgreesOnKeys a b m k e = absurd (not-mem-nil m)

-- A row with a key of its own in front.
fresh_row-AgreesOnKeys :
    (row : Row) (rows : List Row)
    → ((other : Row) → Mem other rows → row.0 ≢ other.0)
    → AgreesOnKeys rows
    → AgreesOnKeys (row ∷ rows)
fresh_row-AgreesOnKeys row rows fresh h a b m k e =
    Or.elim (hlevel) (mem-cons.0 m)
      (λ first.
        Or.elim (hlevel) (mem-cons.0 k) (λ second. first ∙ sym second)
          (λ later. absurd (fresh b later (ap (λ r. r.0) (sym first) ∙ e))))
      (λ earlier.
        Or.elim (hlevel) (mem-cons.0 k)
          (λ second. absurd (fresh a earlier (ap (λ r. r.0) (sym second) ∙ sym e)))
          (λ later. h a b earlier later e))

head_le :
    {a b : Row} {xs ys : List Row} → Pairwise ByKey (a ∷ xs) → Perm (b ∷ ys) (a ∷ xs) → ByKey a b
head_le {a} {b} (Pairwise.cons below rest) p =
    (forall_mem-cons (λ x. hlevel)).1 (≼_refl a.0, below) b ((Perm.mem_iff p).0 mem-cons_self)

tail-AgreesOnKeys : (a : Row) (xs : List Row) → AgreesOnKeys (a ∷ xs) → AgreesOnKeys xs
tail-AgreesOnKeys a xs h x y m k = h x y (mem-cons_of_mem a m) (mem-cons_of_mem a k)

-- Rows have one ascending order.
one_order :
    (xs ys : List Row)
    → Pairwise ByKey xs
    → Pairwise ByKey ys
    → AgreesOnKeys xs
    → Perm xs ys
    → xs ≡ ys
one_order [] ys s t h p = Perm.nil-eq p
one_order (a ∷ xs) [] s t h p = Perm.eq-nil p
one_order (a ∷ xs) (b ∷ ys) s t h p =
    let keys = ≼_antisym a.0 b.0 (head_le s (Perm.symm p)) (head_le t p) in
    let heads = h a b mem-cons_self ((Perm.mem_iff p).1 mem-cons_self) keys in
    let tails = Perm.cons_inv (Perm.trans p (Perm.symm (Perm.cons' heads Perm.rfl))) in
    let rest =
      one_order xs ys (Pairwise.of_cons s) (Pairwise.of_cons t) (tail-AgreesOnKeys a xs h) tails in
    cc

rows_listed : Bool → List Row → Bytes
rows_listed first [] = []
rows_listed first (row ∷ rows) = (comma_text first ++ row_text (some row)) ++ rows_listed false rows

found : (rows : List Row) (i : ℕ) → i < length rows → get_elem? rows i ≡ some (row_at rows i)
unfolding row_at
found [] i h = absurd (omega arith)
found (x ∷ rows) zero h = refl
found (x ∷ rows) (suc i) h = found rows i (omega arith)

rows_text-listed :
    (first : Bool) (rows : List Row) (order : List ℕ)
    → ((i : ℕ) → Mem i order → i < length rows)
    → rows_text first rows order ≡ rows_listed first (map (row_at rows) order)
unfolding rows_text rows_listed
rows_text-listed first rows [] h = refl
rows_text-listed first rows (i ∷ order) h =
    let here = found rows i (h i mem-cons_self) in
    let rest = rows_text-listed false rows order (λ j m. h j (mem-cons_of_mem i m)) in
    simp (here, rest)

iota_from-below : (start count i : ℕ) → Mem i (iota_from start count) → i < start + count
unfolding iota_from
iota_from-below start zero i m = absurd (not-mem-nil m)
iota_from-below start (suc count) i m =
    (forall_mem-cons {p = λ j. j < start + suc count} (λ x. le_prop)).1
      (
        omega arith,
        λ j k. (let below = iota_from-below (suc start) count j k in omega (arith, below)),
      )
      i m

object_text-listed :
    (rows : List Row)
    → object_text true rows ≡ b'{' ∷ [] ++ (rows_listed true (arranged rows) ++ b'}' ∷ [])
unfolding object_text arranged iota
object_text-listed rows =
    let listed = rows_text-listed true rows (places true rows) (λ i m.
      (let below = iota_from-below 0 (length rows) i ((Perm.mem_iff (places-perm rows)).0 m) in
        omega (arith, below))) in
    rw listed refl

printed_order :
    (f : Formats) (members others : Members)
    → AgreesOnKeys (member_texts f true members)
    → Perm (member_texts f true members) (member_texts f true others)
    → printed f true (object members) ≡ printed f true (object others)
unfolding printed
printed_order f members others h p =
    let xs = member_texts f true members in
    let ys = member_texts f true others in
    let same =
      one_order (arranged xs) (arranged ys) (arranged-Pairwise xs) (arranged-Pairwise ys)
        (λ a b m k.
          h a b ((Perm.mem_iff (arranged-perm xs)).0 m) ((Perm.mem_iff (arranged-perm xs)).0 k))
        (Perm.trans (arranged-perm xs) (Perm.trans p (Perm.symm (arranged-perm ys)))) in
    object_text-listed xs
    ∙ ap (λ rows. b'{' ∷ [] ++ (rows_listed true rows ++ b'}' ∷ [])) same
    ∙ sym (object_text-listed ys)

-- The members of an object, in its order.
abbrev pub entries : Members → List (Bytes × Json)
entries end = []
entries (member k v rest) = (k, v) ∷ entries rest

-- No key is there twice.
abbrev pub DistinctKeys {ℓ} : {A : Type ℓ} → List (Bytes × A) → Type ℓ
DistinctKeys rows = Pairwise (λ a b. a.0 ≢ b.0) rows

entry_text : Formats → Bytes × Json → Row
entry_text f (k, v) = (k, printed f true v)

texts_lem :
    (f : Formats) (members : Members)
    → member_texts f true members ≡ map (entry_text f) (entries members)
unfolding printed entry_text
texts_lem f end = refl
texts_lem f (member k v rest) = ap (λ rows. (k, printed f true v) ∷ rows) (texts_lem f rest)

DistinctKeys-AgreesOnKeys : (rows : List Row) → DistinctKeys rows → AgreesOnKeys rows
DistinctKeys-AgreesOnKeys [] h = no_rows-AgreesOnKeys
DistinctKeys-AgreesOnKeys (row ∷ rows) (Pairwise.cons fresh rest) =
    fresh_row-AgreesOnKeys row rows fresh (DistinctKeys-AgreesOnKeys rows rest)

-- The canonical texts that tamga_json_write_canonical returns for two objects with the same members,
-- set in whatever orders, are one text, if no key is there twice; and whatever the allocators of the
-- two runs answered.
pub canonical_order :
    (f : Formats) (members others : Members) (m m' : Allocator) (n n' : ℕ) (out out' : Bytes)
    → DistinctKeys (entries members)
    → Perm (entries members) (entries others)
    → (json_write_canonical f (object members) m n).0 ≡ some out
    → (json_write_canonical f (object others) m' n').0 ≡ some out'
    → out ≡ out'
unfolding entry_text
canonical_order f members others m m' n n' out out' distinct perm first second =
    let text = entry_text f in
    let rows = Pairwise.map' {S = λ (a b : Row). a.0 ≢ b.0} text (λ a b. hlevel) distinct in
    let agrees =
      DistinctKeys-AgreesOnKeys (member_texts f true members) (rw (texts_lem f members) rows) in
    let moved : Perm (member_texts f true members) (member_texts f true others) =
      rw (texts_lem f members, texts_lem f others) (Perm.map text perm) in
    let (one, _) = (json_write-printed f (object members) m n out).1 first in
    let (two, _) = (json_write-printed f (object others) m' n' out').1 second in
    one ∙ (printed_order f members others agrees moved ∙ sym two)
