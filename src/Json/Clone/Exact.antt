-- ===== src/Json/Clone/Exact.antt =====
-- A copy that tamga_json_clone returns is the document that it was given.
use tamga_c.Prelude.{
  ℕ, ◌+◌, ◌≡◌, refl, sym, ap, ◌∙◌, false, ◌||◌, arith, Bytes, bytes_eq, [], ◌∷◌, c_string-id,
  contains_byte,
}
use tamga_c.Memory.{checked_add}
use tamga_c.Memory.Exec.{Allocator, ok, >>=-eq-ok, ok-injective}
use tamga_c.Json.{
  Json, Items, Members, null, boolean, integer, real, string, array, object, nil, cons, end, member,
}
use tamga_c.Json.Clone.{
  pointer_size, member_size, new_node, new_string, grow, copy_key, snoc, has_key, snoc_member,
  clone, clone_items, clone_members,
}

-- Keys without a NUL and none of them twice, at every level: what the parser builds.
unfoldable mutual
  pub IsClean : Json → Type 0
  IsClean (array items) = AreClean items
  IsClean (object members) = HasCleanMembers members
  IsClean _ = Unit

  pub AreClean : Items → Type 0
  AreClean nil = Unit
  AreClean (cons x xs) = IsClean x × AreClean xs

  pub HasCleanMembers : Members → Type 0
  HasCleanMembers end = Unit
  HasCleanMembers (member k v rest) =
      (contains_byte 0 k ≡ false) × (has_key k rest ≡ false) × IsClean v × HasCleanMembers rest

append_items : Items → Items → Items
append_items nil ys = ys
append_items (cons x xs) ys = cons x (append_items xs ys)

append_members : Members → Members → Members
append_members end ys = ys
append_members (member k v xs) ys = member k v (append_members xs ys)

append_items-snoc :
    (xs : Items) (x : Json) (ys : Items) → append_items (snoc xs x) ys ≡ append_items xs (cons x ys)
unfolding append_items snoc
append_items-snoc nil x ys = refl
append_items-snoc (cons y xs) x ys = ap (cons y) (append_items-snoc xs x ys)

append_members-snoc_member :
    (xs : Members) (k : Bytes) (v : Json) (ys : Members)
    → append_members (snoc_member xs k v) ys ≡ append_members xs (member k v ys)
unfolding append_members snoc_member
append_members-snoc_member end k v ys = refl
append_members-snoc_member (member j w xs) k v ys =
    ap (member j w) (append_members-snoc_member xs k v ys)

append_items-nil : (xs : Items) → append_items xs nil ≡ xs
unfolding append_items
append_items-nil nil = refl
append_items-nil (cons x xs) = ap (cons x) (append_items-nil xs)

append_members-end : (xs : Members) → append_members xs end ≡ xs
unfolding append_members
append_members-end end = refl
append_members-end (member k v xs) = ap (member k v) (append_members-end xs)

-- No key of the members that are left is in the copy yet.
Fresh : Members → Members → Type 0
Fresh end copy = Unit
Fresh (member k v rest) copy = (has_key k copy ≡ false) × Fresh rest copy

pub has_key-snoc_member :
    (j k : Bytes) (v : Json) (xs : Members)
    → has_key j (snoc_member xs k v) ≡ (has_key j xs || bytes_eq k j)
unfolding has_key snoc_member
has_key-snoc_member j k v end = ground arith
has_key-snoc_member j k v (member i w xs) = ground (arith, has_key-snoc_member j k v xs)

pub bytes_eq_comm : (j k : Bytes) → bytes_eq j k ≡ bytes_eq k j
unfolding bytes_eq
bytes_eq_comm [] [] = refl
bytes_eq_comm [] (y ∷ ys) = refl
bytes_eq_comm (x ∷ xs) [] = refl
bytes_eq_comm (x ∷ xs) (y ∷ ys) = ground (arith, bytes_eq_comm xs ys)

Fresh-snoc_member :
    (rest copy : Members) (k : Bytes) (v : Json)
    → has_key k rest ≡ false
    → Fresh rest copy
    → Fresh rest (snoc_member copy k v)
unfolding Fresh has_key
Fresh-snoc_member end copy k v h f = tt
Fresh-snoc_member (member j w rest) copy k v h (fj, f) = (
  ground (arith, has_key-snoc_member j k v copy, bytes_eq_comm j k),
  Fresh-snoc_member rest copy k v (ground arith) f,
)

Fresh-end : (ms : Members) → Fresh ms end
unfolding Fresh has_key
Fresh-end end = tt
Fresh-end (member k v rest) = (refl, Fresh-end rest)

pub new_node_lem : (x : Json) (m : Allocator) (n : ℕ) {y : Json} → (new_node x m n).0 ≡ ok y → y ≡ x
unfolding new_node
new_node_lem x m n h = ground arith

pub new_string_lem :
    (x : Bytes) (m : Allocator) (n : ℕ) {y : Json} → (new_string x m n).0 ≡ ok y → y ≡ string x
unfolding new_string
new_string_lem x m n h = ground arith

pub copy_key_lem :
    (k : Bytes) (m : Allocator) (n : ℕ) {k' : Bytes} → (copy_key k m n).0 ≡ ok k' → k' ≡ k
unfolding copy_key checked_add
copy_key_lem k m n h = ground arith

mutual
  unfolding IsClean clone Fresh append_items append_members

  clone_exact :
      (j : Json) (m : Allocator) (n : ℕ) (j' : Json) → IsClean j → (clone j m n).0 ≡ ok j' → j' ≡ j
  clone_exact null m n j' c e = new_node_lem null m n e
  clone_exact (boolean b) m n j' c e = new_node_lem (boolean b) m n e
  clone_exact (integer i) m n j' c e = new_node_lem (integer i) m n e
  clone_exact (real x) m n j' c e = new_node_lem (real x) m n e
  clone_exact (string bytes) m n j' c e = new_string_lem bytes m n e
  clone_exact (array items) m n j' c e =
      let (_, _, e') = >>=-eq-ok (new_node (array nil)) _ e in
      clone_items_exact items nil 0 0 m _ j' c e'
  clone_exact (object members) m n j' c e =
      let (_, _, e') = >>=-eq-ok (new_node (object end)) _ e in
      clone_members_exact members end 0 0 m _ j' c (Fresh-end members) e'

  clone_items_exact :
      (xs copy : Items) (count capacity : ℕ) (m : Allocator) (n : ℕ) (j' : Json)
      → AreClean xs
      → (clone_items xs copy count capacity m n).0 ≡ ok j'
      → j' ≡ array (append_items copy xs)
  clone_items_exact nil copy count capacity m n j' c e =
      sym (ok-injective e) ∙ ap array (sym (append_items-nil copy))
  clone_items_exact (cons x xs) copy count capacity m n j' (cx, c) e =
      let (child, ec, e') = >>=-eq-ok (clone x) _ e in
      let (capacity', eg, e'') = >>=-eq-ok (grow capacity count pointer_size) _ e' in
      let same = clone_exact x m n child cx ec in
      clone_items_exact xs (snoc copy child) (count + 1) capacity' m _ j' c e''
      ∙ ap array (append_items-snoc copy child xs ∙ ap (λ y. append_items copy (cons y xs)) same)

  clone_members_exact :
      (ms copy : Members) (count capacity : ℕ) (m : Allocator) (n : ℕ) (j' : Json)
      → HasCleanMembers ms
      → Fresh ms copy
      → (clone_members ms copy count capacity m n).0 ≡ ok j'
      → j' ≡ object (append_members copy ms)
  clone_members_exact end copy count capacity m n j' c f e =
      sym (ok-injective e) ∙ ap object (sym (append_members-end copy))
  clone_members_exact (member k v rest) copy count capacity m n j' (clean, once, cv, c) (new, f) e =
      let (child, ec, e') = >>=-eq-ok (clone v) _ e in
      let same = clone_exact v m n child cv ec in
      let key = c_string-id k clean in
      let (capacity', eg, e₂) =
        >>=-eq-ok (grow capacity count member_size) _ (rw (key, new) at e') in
      let (key', ek, e₃) = >>=-eq-ok (copy_key k) _ e₂ in
      let same_key = copy_key_lem k m _ ek in
      clone_members_exact rest (snoc_member copy key' child) (count + 1) capacity' m _ j' c
        (rw same_key (Fresh-snoc_member rest copy k child once f)) e₃
      ∙ ap object (append_members-snoc_member copy key' child rest ∙ rw (same_key, same))

-- A copy that tamga_json_clone returns is the document itself, whatever the allocator does, where
-- no object has a key twice or a key with a NUL in it.
pub clone-eq :
    (j : Json) (m : Allocator) (n : ℕ) (j' : Json) → IsClean j → (clone j m n).0 ≡ ok j' → j' ≡ j
clone-eq j m n j' c e = clone_exact j m n j' c e
