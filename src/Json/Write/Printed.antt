-- ===== src/Json/Write/Printed.antt =====
-- The text of a document: a reference printer without a buffer, which the two serializers implement.
-- The texts of its strings and doubles are those of Strings and Double/Text.
use tamga_c.Prelude.{
  ℕ, zero, suc, ◌≡◌, refl, sym, ap, ◌∙◌, Bool, true, false, ◌&&◌, Option, none, some, List, [], ◌∷◌,
  ◌++◌, ltb, if◌then◌else◌, length, get_elem?, Bytes, codes, contains_byte, c_string, Bool-cases,
  inl, inr,
}
use tamga_c.Memory.{checked_mul}
use tamga_c.Memory.Exec.{
  Allocator, Result, ok, err, pure, lift, or_error, allocate, ◌>>◌, >>=-eq-ok, ok-injective,
}
use tamga_c.Buf.{append}
use tamga_c.Buf.Written.{
  Write, Writes, ◌then◌, text_of, skip-Writes, append-Writes, append_fmt-Writes, then-Writes,
  if-Writes, written_lem,
}
use tamga_c.Json.{
  Json, Items, Members, null, boolean, integer, real, string, array, object, nil, cons, end, member,
}
use tamga_c.Json.Write.Double.{Formats}
use tamga_c.Json.Write.Strings.{quoted, write_escaped-Writes}
use tamga_c.Json.Write.Double.Text.{double_text, write_double-Writes}
use tamga_c.Json.Write.Sort.{iota, sort_keys, sorted_places, index_size}
use tamga_c.Json.Write.{
  mark_failed, comma_unless, write_row, write_rows, keys_of, with_order, write_object, write_items,
  write_value, item_writers, member_writers, json_write_canonical, json_write,
}

unfoldable pub comma_text : Bool → Bytes
comma_text first = if first then [] else b',' ∷ []

unfoldable pub row_text : Option (Bytes × Bytes) → Bytes
row_text none = []
row_text (some (key, text)) = (quoted (c_string key) ++ b':' ∷ []) ++ text

unfoldable pub rows_text : Bool → List (Bytes × Bytes) → List ℕ → Bytes
rows_text first rows [] = []
rows_text first rows (i ∷ order) =
    (comma_text first ++ row_text (get_elem? rows i)) ++ rows_text false rows order

abbrev pub names_of : List (Bytes × Bytes) → List Bytes
names_of [] = []
names_of ((key, text) ∷ rows) = key ∷ names_of rows

-- In canonical form the members stand in the order of their keys, and else in the document's.
unfoldable pub places : Bool → List (Bytes × Bytes) → List ℕ
places canonical rows =
    if canonical && ltb 1 (length rows) then sorted_places (names_of rows) else iota (length rows)

unfoldable pub object_text : Bool → List (Bytes × Bytes) → Bytes
object_text canonical rows = b'{' ∷ [] ++ (rows_text true rows (places canonical rows) ++ b'}' ∷ [])

unfoldable pub items_text : Bool → List Bytes → Bytes
items_text first [] = []
items_text first (text ∷ texts) = (comma_text first ++ text) ++ items_text false texts

unfoldable mutual
  pub printed : Formats → Bool → Json → Bytes
  printed f canonical null = codes "null"
  printed f canonical (boolean true) = codes "true"
  printed f canonical (boolean false) = codes "false"
  printed f canonical (integer i) = text_of (f.integer i)
  printed f canonical (real x) = double_text f x
  printed f canonical (string bytes) = quoted bytes
  printed f canonical (array items) =
      (b'[' ∷ [] ++ items_text true (item_texts f canonical items)) ++ b']' ∷ []
  printed f canonical (object members) = object_text canonical (member_texts f canonical members)

  pub item_texts : Formats → Bool → Items → List Bytes
  item_texts f canonical nil = []
  item_texts f canonical (cons x xs) = printed f canonical x ∷ item_texts f canonical xs

  pub member_texts : Formats → Bool → Members → List (Bytes × Bytes)
  member_texts f canonical end = []
  member_texts f canonical (member k v rest) =
      (k, printed f canonical v) ∷ member_texts f canonical rest

mark_failed-Writes : (bytes : Bytes) → Writes mark_failed bytes
mark_failed-Writes bytes b m n v = record {
  valid = record { fits = v.fits; bounded = v.bounded };
  live = λ e. absurd (cc e);
}

comma_unless-Writes : (first : Bool) → Writes (comma_unless first) (comma_text first)
unfolding comma_unless comma_text
comma_unless-Writes first = if-Writes first _ _ _ _ skip-Writes (append-Writes (b',' ∷ []))

-- Writers of members with their texts.
abbrev RowsWrite : List (Bytes × Write) → List (Bytes × Bytes) → Type 0
RowsWrite [] [] = Unit
RowsWrite [] (t ∷ texts) = ⊥
RowsWrite (r ∷ rows) [] = ⊥
RowsWrite ((key, write) ∷ rows) ((name, text) ∷ texts) =
    (key ≡ name) × Writes write text × RowsWrite rows texts

abbrev ItemsWrite : List Write → List Bytes → Type 0
ItemsWrite [] [] = Unit
ItemsWrite [] (t ∷ texts) = ⊥
ItemsWrite (w ∷ writes) [] = ⊥
ItemsWrite (write ∷ writes) (text ∷ texts) = Writes write text × ItemsWrite writes texts

write_row-Writes :
    (rows : List (Bytes × Write)) (texts : List (Bytes × Bytes)) (i : ℕ)
    → RowsWrite rows texts
    → Writes (write_row (get_elem? rows i)) (row_text (get_elem? texts i))
unfolding write_row row_text
write_row-Writes [] [] i h = mark_failed-Writes []
write_row-Writes [] (t ∷ texts) i h = absurd h
write_row-Writes (r ∷ rows) [] i h = absurd h
write_row-Writes ((key, write) ∷ rows) ((name, text) ∷ texts) zero (same, w, h) = rw⁻¹ same (
    then-Writes _ _ _ _
      (then-Writes _ _ _ _ (write_escaped-Writes (c_string key)) (append-Writes (b':' ∷ []))) w)
write_row-Writes ((key, write) ∷ rows) ((name, text) ∷ texts) (suc i) (same, w, h) =
    write_row-Writes rows texts i h

write_rows-Writes :
    (first : Bool) (rows : List (Bytes × Write)) (texts : List (Bytes × Bytes)) (order : List ℕ)
    → RowsWrite rows texts
    → Writes (write_rows first rows order) (rows_text first texts order)
unfolding write_rows rows_text
write_rows-Writes first rows texts [] h = skip-Writes
write_rows-Writes first rows texts (i ∷ order) h =
    then-Writes _ _ _ _
      (then-Writes _ _ _ _ (comma_unless-Writes first) (write_row-Writes rows texts i h))
      (write_rows-Writes false rows texts order h)

rows_agree :
    (rows : List (Bytes × Write)) (texts : List (Bytes × Bytes))
    → RowsWrite rows texts
    → (keys_of rows ≡ names_of texts) × (length rows ≡ length texts)
rows_agree [] [] h = (refl, refl)
rows_agree [] (t ∷ texts) h = absurd h
rows_agree (r ∷ rows) [] h = absurd h
rows_agree ((key, write) ∷ rows) ((name, text) ∷ texts) (same, w, h) =
    let (keys, count) = rows_agree rows texts h in (cc (same, keys), ap suc count)

sort_keys-eq-ok :
    (keys : List Bytes) (m : Allocator) (n : ℕ) (order : List ℕ)
    → (sort_keys keys m n).0 ≡ ok order
    → order ≡ sorted_places keys
unfolding sort_keys
sort_keys-eq-ok keys m n order h =
    let (size, _, h1) =
      >>=-eq-ok (lift (or_error tt (checked_mul (length keys) index_size)))
        (λ size. (do allocate tt size; allocate tt size; pure (sorted_places keys))) {m = m} {n = n}
        h in
    let (_, _, h2) =
      >>=-eq-ok (allocate tt size) (λ _. (do allocate tt size; pure (sorted_places keys))) {m = m}
        {n = _} h1 in
    let (_, _, h3) =
      >>=-eq-ok (allocate tt size) (λ _. pure (sorted_places keys)) {m = m} {n = _} h2 in
    cc (ok-injective h3)

with_order-Writes :
    (r : Result (Unit {0}) (List ℕ)) (rows : List (Bytes × Write)) (texts : List (Bytes × Bytes))
    (expected : List ℕ)
    → RowsWrite rows texts
    → ((order : List ℕ) → r ≡ ok order → order ≡ expected)
    → Writes (with_order r rows) (rows_text true texts expected ++ b'}' ∷ [])
unfolding with_order
with_order-Writes (err e) rows texts expected h k = mark_failed-Writes _
with_order-Writes (ok order) rows texts expected h k =
    rw⁻¹ (k order refl)
      (then-Writes _ _ _ _ (write_rows-Writes true rows texts order h) (append-Writes (b'}' ∷ [])))

-- What follows the opening brace.
behind_brace : Bool → List (Bytes × Write) → Write
behind_brace canonical rows b m n =
    if canonical && ltb 1 (length rows)
    then (let (order, n') = sort_keys (keys_of rows) m n in with_order order rows b m n')
    else with_order (ok (iota (length rows))) rows b m n

behind_brace-Writes :
    (canonical : Bool) (rows : List (Bytes × Write)) (texts : List (Bytes × Bytes))
    → RowsWrite rows texts
    → Writes
        (behind_brace canonical rows)
        (rows_text true texts (places canonical texts) ++ b'}' ∷ [])
unfolding behind_brace places
behind_brace-Writes canonical rows texts h b m n v =
    let (keys, count) = rows_agree rows texts h in
    elim (Bool-cases (canonical && ltb 1 (length texts))) [
      | inl sorted ↦
          let (order, n') = sort_keys (keys_of rows) m n in
          let here : (canonical && ltb 1 (length rows)) ≡ true = rw count sorted in
          simp (here, sorted)
            (with_order-Writes order rows texts (sorted_places (names_of texts)) h
              (λ o e. sort_keys-eq-ok (keys_of rows) m n o e ∙ ap sorted_places keys) b m n' v)
      | inr plain ↦
          let here : (canonical && ltb 1 (length rows)) ≡ false = rw count plain in
          simp (here, plain)
            (with_order-Writes (ok (iota (length rows))) rows texts (iota (length texts)) h
              (λ o e. sym (ok-injective e) ∙ ap iota count) b m n v)
    ]

write_object-Writes :
    (canonical : Bool) (rows : List (Bytes × Write)) (texts : List (Bytes × Bytes))
    → RowsWrite rows texts
    → Writes (write_object canonical rows) (object_text canonical texts)
unfolding write_object object_text behind_brace
write_object-Writes canonical rows texts h =
    then-Writes (append (b'{' ∷ [])) (behind_brace canonical rows) _ _ (append-Writes (b'{' ∷ []))
      (behind_brace-Writes canonical rows texts h)

write_items-Writes :
    (first : Bool) (writes : List Write) (texts : List Bytes)
    → ItemsWrite writes texts
    → Writes (write_items first writes) (items_text first texts)
unfolding write_items items_text
write_items-Writes first [] [] h = skip-Writes
write_items-Writes first [] (t ∷ texts) h = absurd h
write_items-Writes first (w ∷ writes) [] h = absurd h
write_items-Writes first (write ∷ writes) (text ∷ texts) (w, h) =
    then-Writes _ _ _ _ (then-Writes _ _ _ _ (comma_unless-Writes first) w)
      (write_items-Writes false writes texts h)

mutual
  unfolding write_value printed

  write_value-Writes :
      (f : Formats) (canonical : Bool) (v : Json)
      → Writes (write_value f canonical v) (printed f canonical v)
  write_value-Writes f canonical null = append-Writes (codes "null")
  write_value-Writes f canonical (boolean true) = append-Writes (codes "true")
  write_value-Writes f canonical (boolean false) = append-Writes (codes "false")
  write_value-Writes f canonical (integer i) = append_fmt-Writes (f.integer i)
  write_value-Writes f canonical (real x) = write_double-Writes f x
  write_value-Writes f canonical (string bytes) = write_escaped-Writes bytes
  write_value-Writes f canonical (array items) =
      then-Writes _ _ _ _
        (then-Writes _ _ _ _ (append-Writes (b'[' ∷ []))
          (write_items-Writes true _ _ (item_writers-ItemsWrite f canonical items)))
        (append-Writes (b']' ∷ []))
  write_value-Writes f canonical (object members) =
      write_object-Writes canonical _ _ (member_writers-RowsWrite f canonical members)

  item_writers-ItemsWrite :
      (f : Formats) (canonical : Bool) (items : Items)
      → ItemsWrite (item_writers f canonical items) (item_texts f canonical items)
  item_writers-ItemsWrite f canonical nil = tt
  item_writers-ItemsWrite f canonical (cons x xs) =
      (write_value-Writes f canonical x, item_writers-ItemsWrite f canonical xs)

  member_writers-RowsWrite :
      (f : Formats) (canonical : Bool) (members : Members)
      → RowsWrite (member_writers f canonical members) (member_texts f canonical members)
  member_writers-RowsWrite f canonical end = tt
  member_writers-RowsWrite f canonical (member k v rest) =
      (refl, write_value-Writes f canonical v, member_writers-RowsWrite f canonical rest)

-- A text that a serializer returns is the one that the reference printer gives: strings escaped by the
-- table of short escapes, doubles laid out by the place of their point, and members in the order of
-- their keys in canonical form and in the document's order else, whatever the allocator answered; it
-- has no NUL.
pub json_write-printed :
    (f : Formats) (value : Json) (m : Allocator) (n : ℕ) (out : Bytes)
    → ((json_write f value m n).0 ≡ some out
        → (out ≡ printed f false value) × (contains_byte 0 out ≡ false))
      × ((json_write_canonical f value m n).0 ≡ some out
          → (out ≡ printed f true value) × (contains_byte 0 out ≡ false))
unfolding json_write json_write_canonical
json_write-printed f value m n out = (
  (λ e.
      written_lem (write_value f false value) (printed f false value) m n out
        (write_value-Writes f false value) e),
  (λ e.
      written_lem (write_value f true value) (printed f true value) m n out
        (write_value-Writes f true value) e),
)
