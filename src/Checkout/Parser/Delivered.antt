-- ===== src/Checkout/Parser/Delivered.antt =====
-- What an accepted file hands out, in terms of its signed text.
use mathlib.Core.Option.{some-injective}
use mathlib.Core.Path.{subst}
use tamga_c.Prelude.{
  ℕ, ◌-◌, ◌≡◌, inl, inr, sym, ◌∙◌, false, Option, none, some, Bytes, bytes_eq, Bool-cases, codes,
}
use tamga_c.Prelude.Int.{ℤ}
use tamga_c.Memory.Exec.{Allocator, ok, map_error-eq-ok}
use tamga_c.Json.{
  Json, Members, null, boolean, integer, real, string, array, object, end, member, object_get,
  as_object, lookup,
}
use tamga_c.Json.Clone.Exact.{clone-eq}
use tamga_c.Json.Parse.Numbers.{Conversions}
use tamga_c.Json.Parse.{max_depth, json_parse}
use tamga_c.Json.Parse.Strict.{IsStrict, HasStrictMembers, IsStrict-IsClean}
use tamga_c.Json.Parse.Strict.Documents.{json_parse-IsStrict}
use tamga_c.Checkout.Primitives.{Primitives}
use tamga_c.Checkout.Claims.{Claims, claims_read, are_expired}
use tamga_c.Checkout.Payload.{Trust}
use tamga_c.Checkout.Payload.Verdict.{Accepted}
use tamga_c.Checkout.LicenseFile
use tamga_c.Checkout.LicenseFile.Soundness.{verify_core-Genuine}
use tamga_c.Checkout.MachineFile
use tamga_c.Checkout.MachineFile.{Scheme, check_scheme}
use tamga_c.Checkout.MachineFile.Soundness.{verify_core-Authentic}
use tamga_c.Checkout.Parser.{as_failure, with_parser}

lookup-IsStrict :
    (levels : ℕ) (key : Bytes) (ms : Members) (v : Json)
    → HasStrictMembers levels ms
    → lookup key ms ≡ some v
    → IsStrict levels v
unfolding HasStrictMembers lookup
lookup-IsStrict levels key end v h e = cc
lookup-IsStrict levels key (member k w rest) v (_, _, _, p, h) e =
    elim (Bool-cases (bytes_eq k key)) [
      | inl here ↦ subst (IsStrict levels) (some-injective _ _ (rw here at e)) p
      | inr there ↦ lookup-IsStrict levels key rest v h (rw there at e)
    ]

object_get-IsStrict :
    (levels : ℕ) (key : Bytes) (j v : Json)
    → IsStrict levels j
    → object_get (some j) key ≡ some v
    → IsStrict (levels - 1) v
unfolding object_get IsStrict
object_get-IsStrict levels key (object members) v (_, h) e =
    lookup-IsStrict (levels - 1) key members v h e
object_get-IsStrict levels key null v h e = cc
object_get-IsStrict levels key (boolean b) v h e = cc
object_get-IsStrict levels key (integer i) v h e = cc
object_get-IsStrict levels key (real x) v h e = cc
object_get-IsStrict levels key (string bytes) v h e = cc
object_get-IsStrict levels key (array items) v h e = cc

as_object-eq-some : (o : Option Json) (v : Json) → as_object o ≡ some v → o ≡ some v
unfolding as_object
as_object-eq-some (some (object members)) v e = e
as_object-eq-some none v e = cc
as_object-eq-some (some null) v e = cc
as_object-eq-some (some (boolean b)) v e = cc
as_object-eq-some (some (integer i)) v e = cc
as_object-eq-some (some (real x)) v e = cc
as_object-eq-some (some (string bytes)) v e = cc
as_object-eq-some (some (array items)) v e = cc

-- The text is that of a payload, the resource is the object under its `data`, and the claims are
-- those under its `meta` and have not expired.
pub record Delivered (c : Conversions) (p : Primitives) (text : Bytes) (now : ℤ) (resource : Json)
    (claims : Claims) : Type 0 where
  pub payload : Json
  pub memory : Allocator
  pub requests : ℕ
  pub parses : (json_parse c text memory requests).0 ≡ ok payload
  pub under_data : object_get (some payload) (codes "data") ≡ some resource
  pub nested : IsStrict (max_depth - 1) resource
  pub under_meta : claims_read p.doubles (object_get (some payload) (codes "meta")) ≡ ok claims
  pub current : are_expired claims now ≡ false

delivered :
    (c : Conversions) (p : Primitives) (text : Bytes) (now : ℤ) (resource : Json) (claims : Claims)
    (payload : Json) (m : Allocator) (n : ℕ)
    → ((with_parser c p).json_parse text m n).0 ≡ ok payload
    → Accepted (with_parser c p) payload now resource claims
    → Delivered c p text now resource claims
delivered c p text now resource claims payload m n h a =
    let parses = map_error-eq-ok as_failure (json_parse c text) m n h in
    let found = as_object-eq-some _ a.original a.original_of_data in
    let strict =
      object_get-IsStrict max_depth (codes "data") payload a.original
        (json_parse-IsStrict c text m n payload parses) found in
    let same =
      clone-eq a.original a.memory a.requests resource (IsStrict-IsClean _ a.original strict)
        a.copied in
    record {
      payload = payload;
      memory = m;
      requests = n;
      parses = parses;
      under_data = found ∙ sym (ap_some same);
      nested = subst (IsStrict (max_depth - 1)) (sym same) strict;
      under_meta = a.claims_of_meta;
      current = a.current;
    }
  where
    ap_some : {a b : Json} → a ≡ b → ◌≡◌ {A = Option Json} (some a) (some b)
    ap_some e = cc

-- The text that a licence file signs says all that is handed out. An accepted file is genuine: its
-- certificate stands between the markers of the file's text, and the 64 bytes of that certificate's
-- signature verify over its `enc` under the key, or under a held key of the set. The plaintext of that
-- very `enc` is a JSON document, and the resource is the very object under its `data`, no member lost,
-- merged or cut, for any allocator.
pub license_file-Delivered :
    (c : Conversions) (p : Primitives) (pem : Bytes) (trust : Trust) (license_key : Option Bytes)
    (now : ℤ) (m : Allocator) (n : ℕ) (resource : Json) (claims : Claims)
    → (LicenseFile.verify_core (with_parser c p) pem trust license_key now m n).0
      ≡ ok (resource, claims)
    → (file : LicenseFile.Soundness.Genuine
        (with_parser c p)
        pem
        trust
        license_key
        now
        resource
        claims)
      × Delivered c p file.plaintext now resource claims
license_file-Delivered c p pem trust license_key now m n resource claims h =
    let g = verify_core-Genuine (with_parser c p) pem trust license_key now m n resource claims h in
    (
      g,
      delivered c p g.plaintext now resource claims g.payload g.memory g.requests g.payload_parses
          g.accepted,
    )

-- The text that a machine file signs says all that is handed out. An accepted file is authentic: its
-- certificate stands between the markers of the file's text and names the algorithm of the caller's
-- scheme, and that certificate's signature verifies over its `enc`: under the key by the caller's
-- scheme, or by Ed25519 under a held key of the set. The plaintext of that very `enc` is a JSON
-- document, and the resource is the very object under its `data`, for any allocator.
pub machine_file-Delivered :
    (c : Conversions) (p : Primitives) (pem : Bytes) (scheme : Scheme) (trust : Trust)
    (license_key fingerprint : Option Bytes) (now : ℤ) (m : Allocator) (n : ℕ) (resource : Json)
    (claims : Claims)
    → (MachineFile.verify_core (with_parser c p) pem scheme trust license_key fingerprint now m n).0
      ≡ ok (resource, claims)
    → (file : MachineFile.Soundness.Authentic
        (with_parser c p)
        pem
        scheme
        trust
        license_key
        fingerprint
        now
        resource
        claims)
      × Delivered c p file.plaintext now resource claims
machine_file-Delivered c p pem scheme trust license_key fingerprint now m n resource claims h =
    let g =
      verify_core-Authentic (with_parser c p) pem scheme trust license_key fingerprint now m n
        resource claims h in
    (
      g,
      delivered c p g.plaintext now resource claims g.payload g.memory g.requests g.payload_parses
          g.accepted,
    )
