-- ===== src/Checkout/Payload/Verdict.antt =====
-- What the steps behind the signature check accept and refuse.
use mathlib.Core.Path.{subst}
use tamga_c.Prelude.{ℕ, ◌≡◌, ◌≢◌, refl, Bool, true, false, not, some, codes}
use tamga_c.Prelude.Int.{ℤ}
use tamga_c.Memory.Exec.{
  Allocator, Exec, Result, ok, err, lift, guard, or_error, map_error, ◌>>=◌, ◌>>◌, >>=-eq-ok,
  ok-injective, guard-eq-ok, or_error-eq-ok, map_error-eq-ok,
}
use tamga_c.Errors.{ErrorCode, out_of_memory, expired, invalid_json}
use tamga_c.Json.{Json, object_get, as_object}
use tamga_c.Json.Clone.{clone}
use tamga_c.Checkout.Primitives.{Primitives}
use tamga_c.Checkout.Claims.{Claims, claims_read, are_expired}
use tamga_c.Checkout.KeySet.Select.Verdicts.{label_failure-ne-ok}
use tamga_c.Checkout.Payload.{
  Trust, single, any_of, finish, settle, payload_of, reject_early, label, conclude,
}

-- What stands behind a resource and claims that are handed out for a payload: the claims are those
-- of `meta` and have not expired, and the resource is a copy of the object under `data`.
pub record Accepted (p : Primitives) (payload : Json) (now : ℤ) (resource : Json) (claims : Claims)
    : Type 0 where
  pub claims_of_meta : claims_read p.doubles (object_get (some payload) (codes "meta")) ≡ ok claims
  pub current : are_expired claims now ≡ false
  pub original : Json
  pub original_of_data : as_object (object_get (some payload) (codes "data")) ≡ some original
  pub memory : Allocator
  pub requests : ℕ
  pub copied : (clone original memory requests).0 ≡ ok resource

not-eq-true : (b : Bool) → not b ≡ true → b ≡ false
not-eq-true true h = cc
not-eq-true false h = refl

pub finish_sound :
    (p : Primitives) (payload : Json) (now : ℤ) (m : Allocator) (n : ℕ) (resource : Json)
    (claims : Claims)
    → (finish p (some payload) now m n).0 ≡ ok (resource, claims)
    → Accepted p payload now resource claims
unfolding finish
finish_sound p payload now m n resource claims h =
    let meta = object_get (some payload) (codes "meta") in
    let shown = as_object (object_get (some payload) (codes "data")) in
    let (c, read, h1) = >>=-eq-ok (lift (claims_read p.doubles meta)) _ h in
    let (u, live, h2) = >>=-eq-ok (guard (not (are_expired c now)) expired) _ h1 in
    let (o, found, h3) = >>=-eq-ok (lift (or_error invalid_json shown)) _ h2 in
    let (r, copy, h4) = >>=-eq-ok (map_error (λ _. out_of_memory) (clone o)) _ h3 in
    let same : (r, c) ≡ (resource, claims) = ok-injective h4 in
    subst (λ (out : Json × Claims). Accepted p payload now out.0 out.1) same
      (record {
        claims_of_meta = read;
        current = not-eq-true _ (guard-eq-ok _ expired m _ live);
        original = o;
        original_of_data = or_error-eq-ok invalid_json shown found;
        memory = m;
        requests = _;
        copied = map_error-eq-ok (λ _. out_of_memory) (clone o) m _ copy;
      })

label-eq-ok :
    (trust : Trust) (verified : Bool) (probe : Result ErrorCode Json)
    → label trust verified probe ≡ ok tt
    → (payload : Json) × (probe ≡ ok payload)
unfolding label
label-eq-ok trust true (ok payload) h = (payload, refl)
label-eq-ok trust true (err e) h = cc
label-eq-ok (single key) false (ok payload) h = (payload, refl)
label-eq-ok (single key) false (err e) h = cc
label-eq-ok (any_of keys) false probe h = absurd (label_failure-ne-ok keys probe h)

-- Neither one key nor a set lets a file through that does not verify.
unverified_stops :
    (trust : Trust) (probe : Result ErrorCode Json) (m : Allocator) (n : ℕ) (u : Unit {0})
    → (reject_early trust false m n).0 ≡ ok u
    → label trust false probe ≢ ok tt
unfolding label reject_early
unverified_stops (single key) probe m n u early h = cc
unverified_stops (any_of keys) probe m n u early h = label_failure-ne-ok keys probe h

-- The steps behind the early refusal.
abbrev rest_of :
    Primitives → Trust → Bool → Exec ErrorCode Json → ℤ → Exec ErrorCode (Json × Claims)
rest_of p trust verified probe now = do
  outcome ← settle probe
  lift (label trust verified outcome)
  finish p (payload_of outcome) now

rest_sound :
    (p : Primitives) (trust : Trust) (verified : Bool) (probe : Exec ErrorCode Json) (now : ℤ)
    (m : Allocator) (n : ℕ) (resource : Json) (claims : Claims)
    → (rest_of p trust verified probe now m n).0 ≡ ok (resource, claims)
    → (label trust verified (probe m n).0 ≡ ok tt)
      × (payload : Json) × ((probe m n).0 ≡ ok payload)
      × Accepted p payload now resource claims
rest_sound p trust verified probe now m n resource claims h =
    let (u, labelled, h1) = >>=-eq-ok (lift (label trust verified (probe m n).0)) _ h in
    let (payload, read) = label-eq-ok trust verified (probe m n).0 labelled in
    (labelled, payload, read, finish_sound p payload now m _ resource claims (rw read at h1))

early_or_not : (trust : Trust) (m : Allocator) (n : ℕ) → reject_early trust true m n ≡ (ok tt, n)
unfolding reject_early
early_or_not (single key) m n = refl
early_or_not (any_of keys) m n = refl

-- Where a file is accepted, its signature verified, its payload was decoded and parsed, and the
-- resource and the claims are those of that payload.
pub conclude_sound :
    (p : Primitives) (trust : Trust) (verified : Bool) (probe : Exec ErrorCode Json) (now : ℤ)
    (m : Allocator) (n : ℕ) (resource : Json) (claims : Claims)
    → (conclude p trust verified probe now m n).0 ≡ ok (resource, claims)
    → (verified ≡ true)
      × (payload : Json) × ((probe m n).0 ≡ ok payload)
      × Accepted p payload now resource claims
unfolding conclude
conclude_sound p trust true probe now m n resource claims h =
    let (_, payload, read, accepted) =
      rest_sound p trust true probe now m n resource claims (rw (early_or_not trust m n) at h) in
    (refl, payload, read, accepted)
conclude_sound p trust false probe now m n resource claims h =
    let (u, early, h1) = >>=-eq-ok (reject_early trust false) _ h in
    let (labelled, _, _, _) = rest_sound p trust false probe now m _ resource claims h1 in
    absurd (unverified_stops trust _ m n u early labelled)
