-- ===== src/Checkout/Payload.antt =====
-- What src/checkout/license_file.c and src/checkout/machine_file.c both do, in functions of their
-- own that differ in the messages alone: the steps from the signature's verdict on.
pub mod Verdict
pub mod Signed
use tamga_c.Prelude.{ℕ, Bool, true, false, not, Option, none, some, if◌then◌else◌, Bytes, codes}
use tamga_c.Prelude.Int.{ℤ}
use tamga_c.Memory.Exec.{
  Allocator, Exec, Result, ok, err, pure, raise, lift, guard, or_error, map_error, ◌>>=◌, ◌>>◌,
}
use tamga_c.Errors.{ErrorCode, out_of_memory, expired, invalid_json, signature_invalid}
use tamga_c.Json.{Json, object_get, as_object}
use tamga_c.Json.Clone.{clone}
use tamga_c.Checkout.Primitives.{Primitives}
use tamga_c.Checkout.Cert.{parse_error}
use tamga_c.Checkout.Claims.{Claims, claims_read, are_expired}
use tamga_c.Checkout.KeySet.{KeySet}
use tamga_c.Checkout.KeySet.Select.{label_failure}

-- The trust that a caller brings: one key, or a set of them.
pub data Trust : Type 0 where
  single : Bytes → Trust
  any_of : KeySet → Trust

-- tamga_license_parse_payload, tamga_machine_parse_payload
unfoldable pub parse_payload : Primitives → Bytes → Exec ErrorCode Json
parse_payload p plaintext = map_error parse_error (p.json_parse plaintext)

-- tamga_license_finish, tamga_machine_finish: the resource, and the claims.
unfoldable pub finish : Primitives → Option Json → ℤ → Exec ErrorCode (Json × Claims)
finish p payload now = do
  claims ← lift (claims_read p.doubles (object_get payload (codes "meta")))
  guard (not (are_expired claims now)) expired
  found ← lift (or_error invalid_json (as_object (object_get payload (codes "data"))))
  resource ← map_error (λ _. out_of_memory) (clone found)
  pure (resource, claims)

-- The outcome of an action as a value, for a caller that looks at its status.
abbrev settle : {A : Type 0} → Exec ErrorCode A → Exec ErrorCode (Result ErrorCode A)
settle act m n = let (r, n') = act m n in (ok r, n')

abbrev payload_of : Result ErrorCode Json → Option Json
payload_of (ok payload) = some payload
payload_of (err e) = none

abbrev status_of : Result ErrorCode Json → Result ErrorCode (Unit {0})
status_of (ok payload) = ok tt
status_of (err e) = err e

-- With one key, a signature that does not verify ends the call before the payload is opened.
reject_early : Trust → Bool → Exec ErrorCode (Unit {0})
reject_early (single key) verified = guard verified signature_invalid
reject_early (any_of keys) verified = pure tt

-- With a set of keys, the payload of a file that none verifies is opened for its label.
label : Trust → Bool → Result ErrorCode Json → Result ErrorCode (Unit {0})
label trust true probe = status_of probe
label (single key) false probe = status_of probe
label (any_of keys) false probe = label_failure keys probe

-- The part of the two verify_core functions behind the signature check; `probe` decodes and parses
-- the payload.
unfoldable pub conclude :
    Primitives → Trust → Bool → Exec ErrorCode Json → ℤ → Exec ErrorCode (Json × Claims)
unfolding reject_early label
conclude p trust verified probe now = do
  reject_early trust verified
  outcome ← settle probe
  lift (label trust verified outcome)
  finish p (payload_of outcome) now
