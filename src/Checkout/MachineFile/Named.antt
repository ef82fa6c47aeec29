-- ===== src/Checkout/MachineFile/Named.antt =====
-- The signature algorithms that the suffixes of src/checkout/machine_file.c name, each with the
-- primitive of src/crypto that goes by the name.
use mathlib.Core.Option.{some-injective}
use tamga_c.Prelude.{
  ◌≡◌, ◌⊎◌, inl, inr, sym, arith, true, not, ◌||◌, ◌==◌, some, length, Bytes, codes, Bool-cases,
}
use tamga_c.Checkout.Primitives.{Primitives}
use tamga_c.Checkout.KeySet.Select.Verdicts.{FirstWith, verifies}
use tamga_c.Checkout.Payload.{Trust, single, any_of}
use tamga_c.Checkout.Payload.Signed.{IsSigned}
use tamga_c.Checkout.MachineFile.{
  Scheme, unset, ed25519, rsa_pkcs1, rsa_pss, ecdsa_p256, rsa_jwt, other, alg_suffix, check_scheme,
}

-- The signature passes the test that the suffix names; an Ed25519 key has 32 bytes and its signature
-- has 64.
abbrev pub PassesNamed : Primitives → Bytes → Bytes → Bytes → Bytes → Type 0
PassesNamed p suffix key message signature =
    (suffix ≡ codes "ed25519")
      × (length key ≡ 32)
      × (length signature ≡ 64)
      × (p.ed25519_verify key message signature ≡ true)
    ⊎ (suffix ≡ codes "rsa-sha256") × (p.rsa_verify_pkcs1 key message signature ≡ true)
    ⊎ (suffix ≡ codes "rsa-pss-sha256") × (p.rsa_verify_pss key message signature ≡ true)
    ⊎ (suffix ≡ codes "ecdsa-p256") × (p.ecdsa_verify key message signature ≡ true)

-- With one key, the test that the suffix names passes under it; with a set, Ed25519 passes under a held
-- key.
abbrev pub IsSignedAs : Primitives → Bytes → Trust → Bytes → Bytes → Type 0
IsSignedAs p suffix (single key) message signature = PassesNamed p suffix key message signature
IsSignedAs p suffix (any_of set) message signature =
    (key : Bytes) × FirstWith (verifies p message signature) key set.entries

check_scheme-PassesNamed :
    (p : Primitives) (scheme : Scheme) (suffix key message signature : Bytes)
    → alg_suffix scheme ≡ some suffix
    → check_scheme p scheme key message signature ≡ true
    → PassesNamed p suffix key message signature
unfolding alg_suffix check_scheme
check_scheme-PassesNamed p ed25519 suffix key message signature named passes =
    elim (Bool-cases (not (length key == 32) || not (length signature == 64))) [
      | inl wrong ↦ absurd (cc (rw wrong at passes))
      | inr right ↦ inl (
        sym (some-injective _ _ named),
        ground (arith, right),
        ground (arith, right),
        rw right at passes,
      )
    ]
check_scheme-PassesNamed p rsa_pkcs1 suffix key message signature named passes =
    inr (inl (sym (some-injective _ _ named), passes))
check_scheme-PassesNamed p rsa_pss suffix key message signature named passes =
    inr (inr (inl (sym (some-injective _ _ named), passes)))
check_scheme-PassesNamed p ecdsa_p256 suffix key message signature named passes =
    inr (inr (inr (sym (some-injective _ _ named), passes)))
check_scheme-PassesNamed p unset suffix key message signature named passes = cc
check_scheme-PassesNamed p rsa_jwt suffix key message signature named passes = cc
check_scheme-PassesNamed p (other v) suffix key message signature named passes = cc

pub IsSigned-IsSignedAs :
    (p : Primitives) (scheme : Scheme) (suffix : Bytes) (trust : Trust) (message signature : Bytes)
    → alg_suffix scheme ≡ some suffix
    → IsSigned p (check_scheme p scheme) trust message signature
    → IsSignedAs p suffix trust message signature
IsSigned-IsSignedAs p scheme suffix (single key) message signature named h =
    check_scheme-PassesNamed p scheme suffix key message signature named h
IsSigned-IsSignedAs p scheme suffix (any_of set) message signature named h = h
