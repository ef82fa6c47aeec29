-- ===== src/Http/Read/Runs.antt =====
-- Runs of the functions that read a response, and their theorems at a concrete listing.
use tamga_c.Prelude.{◌<◌, ◌≡◌, refl, none, some, [], Bytes, codes, bytes_eq, c_string}
use tamga_c.Prelude.Int.{pos}
use tamga_c.Json.{
  Json, Members, string, array, object, nil, cons, end, member, lookup, object_get, as_string,
  array_len, array_at, array_items, count, item_at, json_type,
}
use tamga_c.Http.{Reply}
use tamga_c.Http.Read.{
  object_or_none, cursor_of, next_cursor, located, has_type, resource_at, resource_count, artifacts,
  entitlements, entitlement_kind_at,
}
use tamga_c.Http.Read.Rows.{artifact_at, signing_key_at, signing_key_row, signing_keys}
use tamga_c.Http.Read.Paging.{
  EndsWith, IsElement, SaysType, next_cursor-EndsWith, resource_at-counted,
}

abbrev row : Bytes → Json
row id = object (
    member (codes "id") (string id) (
      member (codes "type") (string (codes "artifacts")) (
        member (codes "attributes")
          (object (
            member (codes "filename") (string (codes "a.zip"))
              (member (codes "status") (string (codes "UPLOADED")) end)))
          end)))

abbrev listing : Reply
listing = record {
  status = pos 200;
  body = none;
  json = some (
      object
        (member (codes "data") (array (cons (row (codes "x")) (cons (row (codes "y")) nil))) end));
  headers = [];
  api_error_code = none;
}

reads :
    (next_cursor listing 2 ≡ some (codes "y"))
    × (next_cursor listing 3 ≡ none)
    × (resource_count artifacts listing ≡ 2)
    × (resource_count entitlements listing ≡ 2)
    × (entitlement_kind_at listing 0 ≡ none)
    × (artifact_at listing 1
        ≡ some (record {
          id = codes "y";
          filename = codes "a.zip";
          filetype = none;
          platform = none;
          arch = none;
          status = codes "UPLOADED";
        }))
    × (signing_key_at listing 0 ≡ none)
unfolding next_cursor cursor_of object_or_none object_get lookup bytes_eq json_type array_len
    array_at array_items count item_at as_string resource_count resource_at located has_type
    c_string entitlement_kind_at artifact_at signing_key_at signing_keys signing_key_row
reads = (refl, refl, refl, refl, refl, refl, refl)

next_cursor-EndsWith_example :
    (0 < 2) × EndsWith (object_get listing.json (codes "data")) 2 (codes "y")
unfolding next_cursor cursor_of object_or_none object_get lookup bytes_eq json_type array_len
    array_at array_items count item_at as_string
next_cursor-EndsWith_example = next_cursor-EndsWith listing 2 (codes "y") refl

resource_at-counted_example :
    (1 < resource_count artifacts listing)
    × IsElement (object_get listing.json (codes "data")) 1 (row (codes "y"))
    × ((ms : Members) × (row (codes "y") ≡ object ms))
    × SaysType artifacts (row (codes "y"))
unfolding object_or_none object_get lookup bytes_eq json_type array_len array_at array_items count
    item_at as_string resource_at located has_type c_string
resource_at-counted_example = resource_at-counted artifacts listing 1 (row (codes "y")) refl
