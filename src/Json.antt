-- ===== src/Json.antt =====
-- src/util/json.c: the document tree and the functions that read it. A `const TamgaJson *` that may
-- be NULL is an `Option Json`.
pub mod Clone
pub mod Build
pub mod Parse
pub mod Write
mod Runs
use tamga_c.Prelude.{
  ℕ, zero, suc, ◌+◌, ◌≡◌, refl, Bool, ◌&&◌, Option, none, some, if◌then◌else◌, Bytes, bytes_eq,
  c_string,
}
use tamga_c.Prelude.Int.{ℤ}

-- `real` holds the 64 bits of a double.
mutual
  pub data Json : Type 0 where
    null : Json
    boolean : Bool → Json
    integer : ℤ → Json
    real : ℕ → Json
    string : Bytes → Json
    array : Items → Json
    object : Members → Json

  pub data Items : Type 0 where
    nil : Items
    cons : Json → Items → Items

  pub data Members : Type 0 where
    end : Members
    member : Bytes → Json → Members → Members

-- The C compiler's arithmetic on doubles, each given by its 64 bits: `<=`, `==`, unary minus and
-- the casts from and to int64_t.
pub record Doubles : Type 0 where
  pub le : ℕ → ℕ → Bool
  pub lt : ℕ → ℕ → Bool
  pub eq : ℕ → ℕ → Bool
  pub neg : ℕ → ℕ
  pub from_int64 : ℤ → ℕ
  pub to_int64 : ℕ → ℤ

-- The bits of 9007199254740992.0, of its negative and of 0.0.
abbrev two_53 : ℕ
two_53 = 0x4340_0000_0000_0000

abbrev minus_two_53 : ℕ
minus_two_53 = 0xc340_0000_0000_0000

-- The integer that a double within 2^53 of 0 stands for.
real_as_int : Doubles → ℕ → Option ℤ
real_as_int d x =
    let truncated =
      if d.lt x 0
      then d.neg (d.from_int64 (d.to_int64 (d.neg x)))
      else d.from_int64 (d.to_int64 x) in
    if d.le minus_two_53 x && d.le x two_53
    then (if d.eq truncated x then some (d.to_int64 x) else none)
    else none

unfoldable pub as_int : Doubles → Option Json → Option ℤ
unfolding real_as_int
as_int d (some (integer i)) = some i
as_int d (some (real x)) = real_as_int d x
as_int d _ = none

-- The bytes of a string, with their length.
unfoldable pub as_string : Option Json → Option Bytes
as_string (some (string bytes)) = some bytes
as_string _ = none

unfoldable pub is_null : Option Json → Bool
is_null none = Bool.true
is_null (some null) = Bool.true
is_null (some _) = Bool.false

unfoldable pub lookup : Bytes → Members → Option Json
lookup key end = none
lookup key (member k v rest) = if bytes_eq k key then some v else lookup key rest

-- Every key that the library looks up is a literal, so its `strlen` is its length.
unfoldable pub object_get : Option Json → Bytes → Option Json
unfolding lookup
object_get (some (object members)) key = lookup key members
object_get _ key = none

unfoldable pub array_items : Option Json → Items
array_items (some (array items)) = items
array_items _ = nil

unfoldable pub count : Items → ℕ
count nil = 0
count (cons x xs) = suc (count xs)

unfoldable pub array_len : Option Json → ℕ
unfolding array_items count
array_len value = count (array_items value)

unfoldable pub item_at : Items → ℕ → Option Json
item_at nil i = none
item_at (cons x xs) zero = some x
item_at (cons x xs) (suc i) = item_at xs i

unfoldable pub array_at : Option Json → ℕ → Option Json
unfolding array_items item_at
array_at value i = item_at (array_items value) i

unfoldable pub as_object : Option Json → Option Json
as_object (some (object members)) = some (object members)
as_object _ = none

unfoldable pub as_array : Option Json → Option Items
as_array (some (array items)) = some items
as_array _ = none

-- The tag of a value; numbers are of one type.
pub data JsonType : Type 0 where
  null_type bool_type number_type string_type array_type object_type : JsonType

unfoldable pub json_type : Option Json → JsonType
json_type none = null_type
json_type (some null) = null_type
json_type (some (boolean b)) = bool_type
json_type (some (integer i)) = number_type
json_type (some (real x)) = number_type
json_type (some (string bytes)) = string_type
json_type (some (array items)) = array_type
json_type (some (object members)) = object_type

unfoldable pub bool_or : Option Json → Bool → Bool
bool_or (some (boolean b)) fallback = b
bool_or _ fallback = fallback

unfoldable pub int_literal : Option Json → Option ℤ
int_literal (some (integer i)) = some i
int_literal _ = none

unfoldable pub as_double : Doubles → Option Json → Option ℕ
as_double d (some (integer i)) = some (d.from_int64 i)
as_double d (some (real x)) = some x
as_double d _ = none

-- The members of an object, in their order.
unfoldable pub members_of : Option Json → Members
members_of (some (object members)) = members
members_of _ = end

unfoldable pub count_members : Members → ℕ
count_members end = 0
count_members (member k v rest) = suc (count_members rest)

unfoldable pub member_at : Members → ℕ → Option (Bytes × Json)
member_at end i = none
member_at (member k v rest) zero = some (k, v)
member_at (member k v rest) (suc i) = member_at rest i

unfoldable pub key_of : Option (Bytes × Json) → Option Bytes
key_of none = none
key_of (some (k, v)) = some k

unfoldable pub value_of : Option (Bytes × Json) → Option Json
value_of none = none
value_of (some (k, v)) = some v

unfoldable pub object_len : Option Json → ℕ
unfolding members_of count_members
object_len value = count_members (members_of value)

unfoldable pub object_key_at : Option Json → ℕ → Option Bytes
unfolding members_of member_at key_of
object_key_at value i = key_of (member_at (members_of value) i)

unfoldable pub object_value_at : Option Json → ℕ → Option Json
unfolding members_of member_at value_of
object_value_at value i = value_of (member_at (members_of value) i)
