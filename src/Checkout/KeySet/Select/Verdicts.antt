-- ===== src/Checkout/KeySet/Select/Verdicts.antt =====
-- Which key is found, which key verifies, and how a failure is labelled.
use mathlib.Core.Option.{some-injective}
use mathlib.Core.Path.{subst}
use tamga_c.Prelude.{
  ◌≡◌, ◌≢◌, ◌⊎◌, inl, inr, refl, ap, Bool, true, false, Option, none, some, arith, List, [], ◌∷◌,
  ◌++◌, ◌==◌, ==_iff, length, Bytes, bytes_eq, bytes_eq_iff, c_string, Bool-cases, Option-cases,
  codes, All, All-middle,
}
use tamga_c.Memory.Exec.{Result, ok, err}
use tamga_c.Errors.{
  ErrorCode, out_of_memory, null_argument, invalid_json, signature_invalid, unknown_signing_key,
}
use tamga_c.Json.{Json, object_get}
use tamga_c.Checkout.Primitives.{Primitives}
use tamga_c.Checkout.KeySet.{Entry, KeySet}
use tamga_c.Checkout.KeySet.Select.{
  signature_length, find_entry, lookup, select, select_missing, claims_key_id, first_verifier,
  find_verifier, is_there, label_failure, label_selected, label_unread, unpublished_key_id,
}

-- A key stands in a list of entries behind entries that fail the test, and passes it.
pub record FirstWith (test : Entry → Bool) (key : Bytes) (entries : List Entry) : Type 0 where
  pub before : List Entry
  pub entry : Entry
  pub after : List Entry
  pub split : entries ≡ before ++ entry ∷ after
  pub passed_over : All (λ e. test e ≡ false) before
  pub passes : test entry ≡ true
  pub same_key : entry.public_key ≡ key

abbrev pub verifies : Primitives → Bytes → Bytes → Entry → Bool
verifies p message signature e = p.ed25519_verify e.public_key message signature

abbrev pub names : Bytes → Entry → Bool
names key_id e = bytes_eq e.key_id key_id

FirstWith-cons :
    {test : Entry → Bool} {key : Bytes} {es : List Entry} (e : Entry)
    → test e ≡ false
    → FirstWith test key es
    → FirstWith test key (e ∷ es)
FirstWith-cons e h f = record {
  before = e ∷ f.before;
  entry = f.entry;
  after = f.after;
  split = ap (λ es. e ∷ es) f.split;
  passed_over = (h, f.passed_over);
  passes = f.passes;
  same_key = f.same_key;
}

FirstWith-here :
    {test : Entry → Bool} (e : Entry) (es : List Entry)
    → test e ≡ true
    → FirstWith test e.public_key (e ∷ es)
FirstWith-here e es h = record {
  before = [];
  entry = e;
  after = es;
  split = refl;
  passed_over = tt;
  passes = h;
  same_key = refl;
}

first_verifier_lem :
    (p : Primitives) (es : List Entry) (message signature key : Bytes)
    → first_verifier p es message signature ≡ some key
    → FirstWith (verifies p message signature) key es
unfolding first_verifier
first_verifier_lem p [] message signature key h = cc
first_verifier_lem p (e ∷ es) message signature key h =
    elim (Bool-cases (p.ed25519_verify e.public_key message signature)) [
      | inl good ↦
          subst (λ k. FirstWith (verifies p message signature) k (e ∷ es))
            (some-injective _ _ (rw good at h)) (FirstWith-here e es good)
      | inr bad ↦ FirstWith-cons e bad (first_verifier_lem p es message signature key (rw bad at h))
    ]

first_verifier-none :
    (p : Primitives) (es : List Entry) (message signature : Bytes)
    → first_verifier p es message signature ≡ none
    → All (λ e. verifies p message signature e ≡ false) es
unfolding first_verifier
first_verifier-none p [] message signature h = tt
first_verifier-none p (e ∷ es) message signature h =
    elim (Bool-cases (p.ed25519_verify e.public_key message signature)) [
      | inl good ↦ absurd (cc (rw good at h))
      | inr bad ↦ (bad, first_verifier-none p es message signature (rw bad at h))
    ]

-- Where a verifier is found, the signature has 64 bytes and the key is that of the first entry it
-- verifies under; where none is found, it has another length or verifies under no entry at all.
pub find_verifier_lem :
    (p : Primitives) (set : KeySet) (message signature : Bytes)
    → ((key : Bytes)
        → find_verifier p set message signature ≡ some key
        → (length signature ≡ signature_length)
          × FirstWith (verifies p message signature) key set.entries)
      × (find_verifier p set message signature ≡ none
          → (length signature ≢ signature_length)
            ⊎ All (λ e. p.ed25519_verify e.public_key message signature ≡ false) set.entries)
unfolding find_verifier
find_verifier_lem p set message signature =
    elim (Bool-cases (length signature == signature_length)) [
      | inl whole ↦ rw whole (
        (λ key h. ((==_iff _ _).0 whole, first_verifier_lem p set.entries message signature key h)),
        λ h. inr (first_verifier-none p set.entries message signature h),
      )
      | inr other_length ↦ rw other_length ((λ key h. cc), λ h. inl (ground arith))
    ]

find_entry_lem :
    (es : List Entry) (id key : Bytes) → find_entry es id ≡ some key → FirstWith (names id) key es
unfolding find_entry
find_entry_lem [] id key h = cc
find_entry_lem (e ∷ es) id key h = elim (Bool-cases (bytes_eq e.key_id id)) [
  | inl good ↦
      subst (λ k. FirstWith (names id) k (e ∷ es)) (some-injective _ _ (rw good at h))
        (FirstWith-here e es good)
  | inr bad ↦ FirstWith-cons e bad (find_entry_lem es id key (rw bad at h))
]

find_entry-none :
    (es : List Entry) (id : Bytes) → find_entry es id ≡ none → All (λ e. e.key_id ≢ id) es
unfolding find_entry
find_entry-none [] id h = tt
find_entry-none (e ∷ es) id h = elim (Bool-cases (bytes_eq e.key_id id)) [
  | inl good ↦ absurd (cc (rw good at h))
  | inr bad ↦
      ((λ same. cc ((bytes_eq_iff e.key_id id).1 same)), find_entry-none es id (rw bad at h))
]

-- The key that a lookup gives is that of the first entry whose id is the given one up to its first
-- NUL, and a lookup that gives none is over a set with no such entry.
pub lookup_lem :
    (set : KeySet) (key_id : Bytes)
    → ((key : Bytes)
        → lookup set key_id ≡ some key
        → FirstWith (names (c_string key_id)) key set.entries)
      × (lookup set key_id ≡ none → All (λ e. e.key_id ≢ c_string key_id) set.entries)
unfolding lookup
lookup_lem set key_id =
    (find_entry_lem set.entries (c_string key_id), find_entry-none set.entries (c_string key_id))

label_unread_cases :
    (e : ErrorCode)
    → (label_unread e ≡ err signature_invalid)
      ⊎ ((label_unread e ≡ err out_of_memory) ⊎ (label_unread e ≡ err null_argument))
unfolding label_unread
label_unread_cases out_of_memory = inr (inl refl)
label_unread_cases null_argument = inr (inr refl)
label_unread_cases _ = inl refl

label_selected-ne-ok : (r : Result ErrorCode Bytes) → label_selected r ≢ ok tt
unfolding label_selected
label_selected-ne-ok (ok key) h = cc
label_selected-ne-ok (err invalid_json) h = cc
label_selected-ne-ok (err _) h = cc

label_unread-ne-ok : (e : ErrorCode) → label_unread e ≢ ok tt
label_unread-ne-ok e h = elim (label_unread_cases e) [
  | inl a ↦ cc
  | inr (inl b) ↦ cc
  | inr (inr c) ↦ cc
]

-- A failure is never labelled as a success.
pub label_failure-ne-ok :
    (set : KeySet) (probe : Result ErrorCode Json) → label_failure set probe ≢ ok tt
unfolding label_failure
label_failure-ne-ok set (err e) h = label_unread-ne-ok e h
label_failure-ne-ok set (ok payload) h = label_selected-ne-ok _ h

abbrev pub kid_of : Json → Option Bytes
kid_of payload = claims_key_id (object_get (some payload) (codes "meta"))

lookup-held :
    (es : List Entry) (id : Bytes) (e : Entry) (before after : List Entry)
    → es ≡ before ++ e ∷ after
    → e.key_id ≡ id
    → (key : Bytes) × (find_entry es id ≡ some key)
lookup-held es id e before after split same = elim (Option-cases (find_entry es id)) [
  | inr found ↦ found
  | inl nothing ↦ absurd (
      All-middle (λ x. x.key_id ≢ id) before e after (rw split at (find_entry-none es id nothing))
        same)
]

-- Where no key verifies a file, and the payload could be read and names by a non-empty id a key that
-- the set holds, the label is `signature_invalid`.
pub label_failure_held :
    (set : KeySet) (payload : Json) (kid : Bytes) (e : Entry) (before after : List Entry)
    → kid_of payload ≡ some kid
    → c_string kid ≢ []
    → set.entries ≡ before ++ e ∷ after
    → e.key_id ≡ c_string kid
    → label_failure set (ok payload) ≡ err signature_invalid
unfolding label_failure select lookup label_selected
label_failure_held set payload kid e before after named some_id split same =
    let (key, found) = lookup-held set.entries (c_string kid) e before after split same in
    let id : (length (c_string kid) == 0) ≡ false = ground arith in rw (named, id, found)

missing_unknown :
    (id : Bytes) (found : Option Bytes)
    → label_selected (select_missing id found) ≡ err unknown_signing_key
    → (found ≡ none) × (id ≢ unpublished_key_id)
unfolding select_missing label_selected
missing_unknown id (some key) h = cc
missing_unknown id none h = elim (Bool-cases (bytes_eq id unpublished_key_id)) [
  | inl a ↦ absurd (cc (rw a at h))
  | inr b ↦ (refl, λ same. cc ((bytes_eq_iff id unpublished_key_id).1 same))
]

-- A file is labelled with an unknown key only where its payload could be read and names an id,
-- other than that of no published key, under which the set holds no key.
pub label_failure_unknown :
    (set : KeySet) (probe : Result ErrorCode Json)
    → label_failure set probe ≡ err unknown_signing_key
    → (payload : Json) × (kid : Bytes) × (probe ≡ ok payload)
      × (kid_of payload ≡ some kid)
      × (c_string kid ≢ [])
      × (c_string kid ≢ unpublished_key_id)
      × All (λ e. e.key_id ≢ c_string kid) set.entries
unfolding label_failure select lookup label_selected
label_failure_unknown set (err e) h =
    absurd (elim (label_unread_cases e) [ inl a ↦ cc | inr (inl b) ↦ cc | inr (inr c) ↦ cc ])
label_failure_unknown set (ok payload) h = elim (Option-cases (kid_of payload)) [
  | inl nothing ↦ absurd (cc (rw nothing at h))
  | inr (kid, named) ↦ elim (Bool-cases (length (c_string kid) == 0)) [
    | inl nameless ↦ absurd (cc (rw (named, nameless) at h))
    | inr some_id ↦
        let (unheld, published) =
          missing_unknown (c_string kid) (find_entry set.entries (c_string kid))
            (rw (named, some_id) at h) in
        (
          payload,
          kid,
          refl,
          named,
          (λ empty. ground arith),
          published,
          find_entry-none set.entries (c_string kid) unheld,
        )
  ]
]

-- A set under which some key verifies holds the first such key.
pub found_verifier_lem :
    (p : Primitives) (set : KeySet) (message signature : Bytes)
    → is_there (find_verifier p set message signature) ≡ true
    → (key : Bytes) × FirstWith (verifies p message signature) key set.entries
found_verifier_lem p set message signature h =
    elim (Option-cases (find_verifier p set message signature)) [
      | inl nothing ↦ absurd (cc (rw nothing at h))
      | inr (key, found) ↦ (key, ((find_verifier_lem p set message signature).0 key found).1)
    ]
