-- ===== src/Http/Read.antt =====
-- The functions of src/http/client.c that read a response: its headers, a validation, a page of a
-- listing, a heartbeat window, entitlements, signing keys and artifacts. The response is not NULL, the
-- out-pointers are there, and `none` is NULL or a false return. A string is given with its length; a
-- caller in C sees it up to a NUL.
pub mod Paging
pub mod Rows
mod Runs
use tamga_c.Prelude.{
  ℕ, zero, suc, ◌+◌, ◌-◌, Bool, true, false, not, ◌&&◌, ◌||◌, Option, none, some, List, [], ◌∷◌,
  ltb, leb, ◌==◌, if◌then◌else◌, Bytes, bytes_eq, codes, c_string,
}
use tamga_c.Prelude.Int.{ℤ, pos, negsuc, ltb_ℤ}
use tamga_c.Prelude.Options.{◌>>=◌}
use tamga_c.Json.{
  Json, Doubles, JsonType, array_type, object_type, object_get, as_string, as_int, bool_or, is_null,
  array_len, array_at, json_type,
}
use tamga_c.Http.{Reply}
use tamga_c.Http.Transport.{find_header}

-- tamga_response_header
unfoldable pub response_header : Reply → Bytes → Option Bytes
response_header reply name = find_header name reply.headers

abbrev is_array : Option Json → Bool
is_array value = elim (json_type value) [ array_type ↦ true | _ ↦ false ]

abbrev is_object : Option Json → Bool
is_object value = elim (json_type value) [ object_type ↦ true | _ ↦ false ]

unfoldable pub or_whole : Option Json → Option Json → Option Json
or_whole none json = json
or_whole (some meta) json = some meta

-- tamga_response_meta_field
unfoldable pub meta_field : Reply → Bytes → Option Json
unfolding or_whole
meta_field reply field =
    object_get (or_whole (object_get reply.json (codes "meta")) reply.json) field

-- tamga_response_validation_is_valid, tamga_response_validation_code and
-- tamga_response_validation_detail
unfoldable pub validation_is_valid : Reply → Bool
unfolding meta_field
validation_is_valid reply = bool_or (meta_field reply (codes "valid")) false

unfoldable pub validation_code : Reply → Option Bytes
unfolding meta_field
validation_code reply = as_string (meta_field reply (codes "code"))

unfoldable pub validation_detail : Reply → Option Bytes
unfolding meta_field
validation_detail reply = as_string (meta_field reply (codes "detail"))

-- The element is an object, or there is none to read.
unfoldable pub object_or_none : Option Json → Option Json
unfolding json_type
object_or_none value = if is_object value then value else none

unfoldable pub cursor_of : Option Json → ℕ → Option Bytes
unfolding json_type object_or_none
cursor_of items limit =
    if not (is_array items)
    then none
    else if array_len items == 0 || not (array_len items == limit)
    then none
    else as_string (object_get (object_or_none (array_at items (array_len items - 1))) (codes "id"))

-- tamga_response_next_cursor
unfoldable pub next_cursor : Reply → ℕ → Option Bytes
unfolding cursor_of
next_cursor reply limit =
    if limit == 0 then none else cursor_of (object_get reply.json (codes "data")) limit

-- What the loop over the four fields reads, in their order.
unfoldable pub page_fields : Doubles → Option Json → Option (ℤ × ℤ × ℤ × ℤ)
page_fields d page = do
  number ← as_int d (object_get page (codes "number"))
  size ← as_int d (object_get page (codes "size"))
  total ← as_int d (object_get page (codes "total"))
  total_pages ← as_int d (object_get page (codes "totalPages"))
  some (number, size, total, total_pages)

-- tamga_response_page
unfoldable pub page : Doubles → Reply → Option (ℤ × ℤ × ℤ × ℤ)
unfolding page_fields object_or_none
page d reply =
    page_fields d
      (object_or_none (object_get (object_get reply.json (codes "meta")) (codes "page")))

-- TAMGA_DEFAULT_HEARTBEAT_WINDOW_SECONDS
abbrev pub default_window : ℤ
default_window = pos 600

unfoldable pub positive : ℤ → Option ℤ
positive seconds = if ltb_ℤ (pos 0) seconds then some seconds else none

unfoldable pub window_of : Doubles → Option Json → Option ℤ
unfolding positive
window_of d none = none
window_of d (some duration) =
    if is_null (some duration)
    then some default_window
    else (do seconds ← as_int d (some duration); positive seconds)

abbrev pub attributes_of : Option Json → Option Json
attributes_of resource = object_get resource (codes "attributes")

-- tamga_response_heartbeat_window_secs
unfoldable pub heartbeat_window_secs : Doubles → Reply → Option ℤ
unfolding window_of
heartbeat_window_secs d reply =
    window_of d (
      object_get (attributes_of (object_get reply.json (codes "data")))
        (codes "heartbeat_duration"))

-- The resource at an index of `data`: of an array, or a single object as an array of one.
unfoldable pub located : Option Json → ℕ → Option Json
unfolding json_type
located items index =
    if is_array items
    then (if leb (array_len items) index then none else array_at items index)
    else if is_object items && index == 0
    then items
    else none

unfoldable pub has_type : Bytes → Option Bytes → Bool
has_type type none = false
has_type type (some text) = bytes_eq (c_string text) type

-- tamga_response_entitlement and tamga_response_artifact, which differ in the type.
unfoldable pub resource_at : Bytes → Reply → ℕ → Option Json
unfolding located has_type object_or_none
resource_at type reply index =
    let resource = object_or_none (located (object_get reply.json (codes "data")) index) in
    if has_type type (as_string (object_get resource (codes "type"))) then resource else none

abbrev is_some : Option Json → Bool
is_some none = false
is_some (some value) = true

-- tamga_response_entitlement_count and tamga_response_artifact_count, which differ in the type.
unfoldable pub resource_count : Bytes → Reply → ℕ
unfolding json_type
resource_count type reply =
    let items = object_get reply.json (codes "data") in
    if is_array items then array_len items else if is_some (resource_at type reply 0) then 1 else 0

abbrev pub entitlements : Bytes
entitlements = codes "entitlements"

abbrev pub artifacts : Bytes
artifacts = codes "artifacts"

-- tamga_response_entitlement_kind_at
unfoldable pub entitlement_kind_at : Reply → ℕ → Option Bytes
entitlement_kind_at reply index =
    as_string (object_get (attributes_of (resource_at entitlements reply index)) (codes "kind"))

-- tamga_response_entitlement_max_value_at. What is no number, null included, is no integer.
unfoldable pub entitlement_max_value_at : Doubles → Reply → ℕ → Option ℤ
entitlement_max_value_at d reply index =
    let value =
      object_get (attributes_of (resource_at entitlements reply index)) (codes "max_value") in
    if is_null value then none else as_int d value

-- tamga_response_entitlement_current_value_at
unfoldable pub entitlement_current_value_at : Doubles → Reply → ℕ → Option ℤ
entitlement_current_value_at d reply index =
    as_int d
      (object_get (attributes_of (resource_at entitlements reply index)) (codes "current_value"))
