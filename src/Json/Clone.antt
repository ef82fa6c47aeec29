-- ===== src/Json/Clone.antt =====
-- tamga_json_clone of src/util/json.c, with the constructors it builds the copy by.
pub mod Exact
use tamga_c.Prelude.{
  ℕ, zero, suc, ◌+◌, ◌*◌, Bool, Option, none, some, ltb, ◌==◌, if◌then◌else◌, Bool, not, length,
  Bytes, bytes_eq, c_string, contains_byte,
}
use tamga_c.Memory.{checked_add, checked_mul, max_reasonable_len}
use tamga_c.Memory.Exec.{Exec, pure, raise, lift, guard, or_error, allocate, ◌>>=◌, ◌>>◌}
use tamga_c.Json.{
  Json, Items, Members, null, boolean, integer, real, string, array, object, nil, cons, end, member,
}

-- A NULL result: an allocation was refused.
pub data Refused : Type 0 where
  refused : Refused

-- sizeof(TamgaJson), sizeof(TamgaJson *) and sizeof(TamgaJsonMember) on a 64-bit target.
abbrev node_size : ℕ
node_size = 32

abbrev pub pointer_size : ℕ
pointer_size = 8

abbrev pub member_size : ℕ
member_size = 24

unfoldable pub new_node : Json → Exec Refused Json
new_node value = do allocate refused node_size; pure value

unfoldable pub new_string : Bytes → Exec Refused Json
unfolding new_node
new_string bytes = do allocate refused (length bytes + 1); new_node (string bytes)

-- tamga_json_grow: the capacity after it.
unfoldable pub grow : ℕ → ℕ → ℕ → Exec Refused ℕ
grow capacity count elem_size = if ltb count capacity then pure capacity else do
  new_cap ← lift (or_error refused (checked_mul (if capacity == 0 then 8 else capacity) 2))
  bytes ← lift (or_error refused (checked_mul new_cap elem_size))
  allocate refused bytes
  pure new_cap

unfoldable pub snoc : Items → Json → Items
snoc nil x = cons x nil
snoc (cons y ys) x = cons y (snoc ys x)

-- tamga_strndup(key, strlen(key)): what follows a NUL is not seen.
unfoldable pub copy_key : Bytes → Exec Refused Bytes
copy_key key = do
  guard (not (ltb max_reasonable_len (length key))) refused
  total ← lift (or_error refused (checked_add (length key) 1))
  allocate refused total
  pure key

-- Whether a key is there, and the members with its value replaced or with a new one at the end.
unfoldable pub has_key : Bytes → Members → Bool
has_key key end = Bool.false
has_key key (member k v rest) = if bytes_eq k key then Bool.true else has_key key rest

unfoldable pub replace : Bytes → Json → Members → Members
replace key x end = end
replace key x (member k v rest) =
    if bytes_eq k key then member k x rest else member k v (replace key x rest)

unfoldable pub snoc_member : Members → Bytes → Json → Members
snoc_member end key x = member key x end
snoc_member (member k v rest) key x = member k v (snoc_member rest key x)

-- tamga_json_array_append and tamga_json_object_set on the copy, which carries its count and its
-- capacity, stand in the loops over the children.
unfoldable mutual
  pub clone : Json → Exec Refused Json
  clone null = new_node null
  clone (boolean b) = new_node (boolean b)
  clone (integer i) = new_node (integer i)
  clone (real x) = new_node (real x)
  clone (string bytes) = new_string bytes
  clone (array items) = do new_node (array nil); clone_items items nil 0 0
  clone (object members) = do new_node (object end); clone_members members end 0 0

  pub clone_items : Items → Items → ℕ → ℕ → Exec Refused Json
  clone_items nil copy count capacity = pure (array copy)
  clone_items (cons x xs) copy count capacity = do
    child ← clone x
    capacity' ← grow capacity count pointer_size
    clone_items xs (snoc copy child) (count + 1) capacity'

  pub clone_members : Members → Members → ℕ → ℕ → Exec Refused Json
  clone_members end copy count capacity = pure (object copy)
  clone_members (member k v rest) copy count capacity = do
    child ← clone v
    if has_key (c_string k) copy
        then clone_members rest (replace (c_string k) child copy) count capacity
        else do
          capacity' ← grow capacity count member_size
          key ← copy_key (c_string k)
          clone_members rest (snoc_member copy key child) (count + 1) capacity'
