-- ===== src/Checkout/Payload/Signed.antt =====
-- What it means that a message is signed under the trust that a caller brings.
use tamga_c.Prelude.{◌≡◌, Bool, true, Bytes}
use tamga_c.Checkout.Primitives.{Primitives}
use tamga_c.Checkout.KeySet.Select.Verdicts.{FirstWith, verifies}
use tamga_c.Checkout.Payload.{Trust, single, any_of}

-- With one key the test of the scheme passes under it; with a set, Ed25519 passes under a held key.
abbrev pub IsSigned : Primitives → (Bytes → Bytes → Bytes → Bool) → Trust → Bytes → Bytes → Type 0
IsSigned p test (single key) message signature = test key message signature ≡ true
IsSigned p test (any_of set) message signature =
    (key : Bytes) × FirstWith (verifies p message signature) key set.entries
