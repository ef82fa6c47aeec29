-- ===== src/Checkout/Claims/Runs.antt =====
-- The theorems on claims at concrete inputs.
use tamga_c.Prelude.{◌≡◌, refl, true, some, codes}
use tamga_c.Prelude.Int.{pos, negsuc}
use tamga_c.Memory.Exec.{ok}
use tamga_c.Json.{object, member, end, integer, object_get, as_int, is_null, as_object}
use tamga_c.Checkout.Samples.{doubles, claims}
use tamga_c.Checkout.Claims.{Claims, claims_read, are_expired}
use tamga_c.Json.{Json}
use tamga_c.Prelude.{bytes_eq}

late : are_expired claims (pos 1061) ≡ true
unfolding are_expired
late = refl

abbrev meta : Json
meta = object (member (codes "exp") (integer (negsuc 4)) end)

abbrev of_meta : Claims
of_meta = record { issued_at = pos 0; expiry = some (negsuc 4) }

reads : claims_read doubles (some meta) ≡ ok of_meta
unfolding claims_read object_get as_int is_null as_object bytes_eq
reads = refl
