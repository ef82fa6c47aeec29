-- ===== src/Checkout/KeySet/Merge/Rows.antt =====
-- Which rows of a document become entries.
use tamga_c.Prelude.{
  ℕ, ◌+◌, ◌≡◌, ◌⊎◌, inl, inr, refl, sym, ap, ◌∙◌, Bool, true, false, Option, none, some, arith,
  List, [], ◌∷◌, ◌++◌, ◌==◌, ==_iff, if◌then◌else◌, length, length-append, Bytes, bytes_eq,
  c_string, codes, Bool-cases,
}
use mathlib.Core.List.{append-nil, append_assoc}
use mathlib.Core.Path.{subst}
use tamga_c.Memory.Exec
use tamga_c.Memory.Exec.{
  Allocator, Exec, Result, ok, err, pure, allocate, ok-injective, >>=-eq-ok, guard, map_error,
  guard-eq-ok, map_error-eq-ok,
}
use tamga_c.Errors.{ErrorCode, out_of_memory, length_invalid}
use tamga_c.Base64.{base64_decode}
use tamga_c.Base64.Alloc.{decode_alloc, decode_alloc-eq-ok}
use tamga_c.Json.{Json, Items, nil, cons, as_object, count}
use tamga_c.Checkout.Primitives.{Primitives}
use tamga_c.Checkout.Cert.{base64_error}
use tamga_c.Checkout.KeySet.{Entry, KeySet}
use tamga_c.Checkout.KeySet.Keys.{set_size, new_set, create, key_length, key_id_compute, key_decode}
use tamga_c.Checkout.KeySet.Store.{continue, append}
use tamga_c.Checkout.KeySet.Store.Keeps.{IsValid, append-Extended}
use tamga_c.Checkout.KeySet.Merge.{
  Tally, row_fields, equals_ignoring_case, add_decoded, skip, mismatch, stage_fields, stage_object,
  stage_resource, stage_all, staged_rows, stage_into, staged_of,
}

-- A row that is an object with an id, an algorithm equal to "ed25519" but for case, and a public
-- key, which is the base64 text of this entry's 32 bytes.
pub record Holds (row : Json) (e : Entry) : Type 0 where
  pub resource : Json
  pub is_object : as_object (some row) ≡ some resource
  pub served_id : Bytes
  pub algorithm : Bytes
  pub public_key : Bytes
  pub fields : row_fields resource ≡ some (served_id, algorithm, public_key)
  pub ed25519 : equals_ignoring_case algorithm (codes "ed25519") ≡ true
  pub decodes : base64_decode public_key ≡ some e.public_key
  pub whole : length e.public_key ≡ key_length
  pub same_id : e.key_id ≡ c_string served_id

-- The entries of some of the rows, in the rows' order.
pub data Chosen : Items → List Entry → Type 0 where
  all_read : Chosen nil []
  passed_over : {x : Json} {xs : Items} {es : List Entry} → Chosen xs es → Chosen (cons x xs) es
  taken :
      {x : Json} {xs : Items} {e : Entry} {es : List Entry}
      → Holds x e
      → Chosen xs es
      → Chosen (cons x xs) (e ∷ es)

abbrev Picked : Json → List Entry → Type 0
Picked x es = (es ≡ []) ⊎ ((e : Entry) × (es ≡ e ∷ []) × Holds x e)

-- What staging one row does where it succeeds.
abbrev Stages : Json → Tally → KeySet → Result ErrorCode Tally × KeySet × ℕ → Type 0
Stages x t s r =
    (t' : Tally)
    → r.0 ≡ ok t'
    → IsValid r.1
      × (es : List Entry) × (r.1.entries ≡ s.entries ++ es)
      × Picked x es
      × (t'.skipped + length es ≡ t.skipped + 1)

skipping :
    (x : Json) (t : Tally) (s : KeySet) (n : ℕ) → IsValid s → Stages x t s (ok (skip t), s, n)
skipping x t s n v t' h =
    let same = ok-injective h in
    (v, [], sym (append-nil s.entries), inl refl, omega (arith, ap (λ (u : Tally). u.skipped) same))

key_decode_lem :
    (public_key : Bytes) (m : Allocator) (n : ℕ) (decoded : Bytes)
    → (key_decode public_key m n).0 ≡ ok decoded
    → (base64_decode public_key ≡ some decoded) × (length decoded ≡ key_length)
unfolding key_decode
key_decode_lem public_key m n decoded h =
    let (d, h0, k0) = Exec.>>=-eq-ok (map_error base64_error (decode_alloc public_key)) _ h in
    let (_, h1, k1) = Exec.>>=-eq-ok (guard (length d == key_length) length_invalid) _ k0 in
    subst (λ d. (base64_decode public_key ≡ some d) × (length d ≡ key_length)) (ok-injective k1)
      (
        decode_alloc-eq-ok public_key m n d
            (map_error-eq-ok base64_error (decode_alloc public_key) m n h0),
        (==_iff (length d) key_length).0 (guard-eq-ok _ length_invalid m _ h1),
      )

appended :
    (p : Primitives) (x : Json) (t : Tally) (s : KeySet) (m : Allocator) (key_id : Bytes)
    (e : Entry) (more : Bool) (r : Result ErrorCode (Unit {0}) × KeySet × ℕ)
    → Holds x e
    → IsValid r.1
    → (r.0 ≡ ok tt → r.1.entries ≡ s.entries ++ e ∷ [])
    → Stages x t s
        (continue r.0 (λ _ s' m n. (ok (if more then t else mismatch t), s', n)) r.1 m r.2)
appended p x t s m key_id e true (ok u, s', n) held v h t' k = (
  v,
  e ∷ [],
  h refl,
  inr (e, refl, held),
  omega (arith, ap (λ (u : Tally). u.skipped) (ok-injective k)),
)
appended p x t s m key_id e false (ok u, s', n) held v h t' k = (
  v,
  e ∷ [],
  h refl,
  inr (e, refl, held),
  omega (arith, ap (λ (u : Tally). u.skipped) (ok-injective k)),
)
appended p x t s m key_id e more (err c, s', n) held v h t' k = cc

stage_decoded :
    (p : Primitives) (x : Json) (t : Tally) (s : KeySet) (m : Allocator) (n : ℕ)
    (served_id public_key : Bytes) (r : Result ErrorCode Bytes)
    → IsValid s
    → ((decoded : Bytes)
        → r ≡ ok decoded
        → Holds x (record { key_id = c_string served_id; public_key = decoded }))
    → Stages x t s (add_decoded p served_id public_key t r s m n)
unfolding add_decoded
stage_decoded p x t s m n served_id public_key (ok decoded) v held =
    let e : Entry = record { key_id = c_string served_id; public_key = decoded } in
    let h = append-Extended served_id decoded s m n v in
    appended p x t s m served_id e (bytes_eq (key_id_compute p public_key) served_id)
      (append served_id decoded s m n) (held decoded refl) h.valid
      (λ done. one e s _ (h.taken tt done))
  where
    one :
        (e : Entry) (s : KeySet) (out : List Entry)
        → (more : List Entry) × (out ≡ s.entries ++ more) × (more ≡ e ∷ [])
        → out ≡ s.entries ++ e ∷ []
    one e s out (more, h, k) = h ∙ ap (λ es. s.entries ++ es) k
stage_decoded p x t s m n served_id public_key (err out_of_memory) v held = λ t' h. cc
stage_decoded p x t s m n served_id public_key (err _) v held = skipping x t s n v

stage_fields_lem :
    (p : Primitives) (x resource : Json) (t : Tally) (s : KeySet) (m : Allocator) (n : ℕ)
    (fields : Option (Bytes × Bytes × Bytes))
    → as_object (some x) ≡ some resource
    → row_fields resource ≡ fields
    → IsValid s
    → Stages x t s (stage_fields p t fields s m n)
unfolding stage_fields
stage_fields_lem p x resource t s m n none o f v = skipping x t s n v
stage_fields_lem p x resource t s m n (some (served_id, algorithm, public_key)) o f v =
    elim (Bool-cases (equals_ignoring_case algorithm (codes "ed25519"))) [
      | inr another ↦ rw another (skipping x t s n v)
      | inl matching ↦ rw matching (
          stage_decoded p x t s m (key_decode public_key m n).1 served_id public_key
            (key_decode public_key m n).0 v
            (λ decoded h.
              let (decodes, whole) = key_decode_lem public_key m n decoded h in
              record {
                resource = resource;
                is_object = o;
                served_id = served_id;
                algorithm = algorithm;
                public_key = public_key;
                fields = f;
                ed25519 = matching;
                decodes = decodes;
                whole = whole;
                same_id = refl;
              }))
    ]

stage_object_lem :
    (p : Primitives) (x : Json) (t : Tally) (s : KeySet) (m : Allocator) (n : ℕ)
    (resource : Option Json)
    → as_object (some x) ≡ resource
    → IsValid s
    → Stages x t s (stage_object p t resource s m n)
unfolding stage_object
stage_object_lem p x t s m n none o v = skipping x t s n v
stage_object_lem p x t s m n (some resource) o v =
    stage_fields_lem p x resource t s m n (row_fields resource) o refl v

stage_resource_lem :
    (p : Primitives) (t : Tally) (x : Json) (s : KeySet) (m : Allocator) (n : ℕ)
    → IsValid s
    → Stages x t s (stage_resource p t x s m n)
unfolding stage_resource
stage_resource_lem p t x s m n v = stage_object_lem p x t s m n (as_object (some x)) refl v

Chosen-cons :
    (x : Json) (xs : Items) (es rest : List Entry)
    → Picked x es
    → Chosen xs rest
    → Chosen (cons x xs) (es ++ rest)
Chosen-cons x xs es rest (inl nothing) chosen = rw nothing (passed_over chosen)
Chosen-cons x xs es rest (inr (e, one, held)) chosen = rw one (taken held chosen)

-- What staging all rows does where it succeeds.
abbrev StagesAll : Items → Tally → KeySet → Result ErrorCode Tally × KeySet × ℕ → Type 0
StagesAll items t s r =
    (t' : Tally)
    → r.0 ≡ ok t'
    → (es : List Entry) × (r.1.entries ≡ s.entries ++ es)
      × Chosen items es
      × (t'.skipped + length es ≡ t.skipped + count items)

stage_rest :
    (p : Primitives) (x : Json) (xs : Items) (t : Tally) (s : KeySet) (m : Allocator)
    (r : Result ErrorCode Tally × KeySet × ℕ)
    → Stages x t s r
    → ((t1 : Tally) (s1 : KeySet) (n1 : ℕ)
        → IsValid s1
        → StagesAll xs t1 s1 (stage_all p t1 xs s1 m n1))
    → StagesAll (cons x xs) t s (continue r.0 (λ t1. stage_all p t1 xs) r.1 m r.2)
unfolding count
stage_rest p x xs t s m (ok t1, s1, n1) first later t' h =
    let (v1, es, added, picked, counted) = first t1 refl in
    let (rest, all_added, chosen, all_counted) = later t1 s1 n1 v1 t' h in
    (
      es ++ rest,
      all_added ∙ ap (λ out. out ++ rest) added ∙ append_assoc s.entries es rest,
      Chosen-cons x xs es rest picked chosen,
      omega (arith, counted, all_counted, length-append es rest),
    )
stage_rest p x xs t s m (err e, s1, n1) first later t' h = cc

stage_all_lem :
    (p : Primitives) (items : Items) (t : Tally) (s : KeySet) (m : Allocator) (n : ℕ)
    → IsValid s
    → StagesAll items t s (stage_all p t items s m n)
unfolding stage_all count
stage_all_lem p nil t s m n v = λ t' h. (
  [],
  sym (append-nil s.entries),
  all_read,
  omega (arith, ap (λ (u : Tally). u.skipped) (ok-injective h)),
)
stage_all_lem p (cons x xs) t s m n v =
    stage_rest p x xs t s m (stage_resource p t x s m n) (stage_resource_lem p t x s m n v)
      (λ t1 s1 n1 v1. stage_all_lem p xs t1 s1 m n1 v1)

fresh-IsValid : IsValid new_set
fresh-IsValid = record { fits = omega arith; bounded = omega arith }

abbrev no_rows : Tally
no_rows = record { skipped = 0; mismatched = 0 }

staged-eq-ok :
    (r : Result ErrorCode Tally × KeySet × ℕ) (tally : Tally) (set : KeySet)
    → (staged_of r).0 ≡ ok (tally, set)
    → (r.0 ≡ ok tally) × (r.1.entries ≡ set.entries)
unfolding staged_of
staged-eq-ok (ok t, s, n) tally set h =
    let same = ok-injective h in
    (ap (λ (o : Tally × KeySet). ok o.0) same, ap (λ (o : Tally × KeySet). o.1.entries) same)
staged-eq-ok (err e, s, n) tally set h = cc

-- What staging the rows of a document into a set of their own does where it succeeds.
pub staged_rows_lem :
    (p : Primitives) (items : Items) (m : Allocator) (n : ℕ) (tally : Tally) (staged : KeySet)
    → (staged_rows p items m n).0 ≡ ok (tally, staged)
    → Chosen items staged.entries × (tally.skipped + length staged.entries ≡ count items)
unfolding staged_rows create stage_into
staged_rows_lem p items m n tally staged h =
    let (fresh, made, h1) = Exec.>>=-eq-ok create (stage_into p items) {m = m} {n = n} h in
    let (_, _, start) =
      Exec.>>=-eq-ok (allocate out_of_memory set_size) (λ _. pure new_set) {m = m} {n = n} made in
    let (counted, out) =
      staged-eq-ok (stage_all p no_rows items fresh m (create m n).1) tally staged h1 in
    let v : IsValid fresh = subst IsValid (ok-injective start) fresh-IsValid in
    let (es, added, chosen, sum) =
      stage_all_lem p items no_rows fresh m (create m n).1 v tally counted in
    let whole : es ≡ staged.entries =
      cc (added, out, ap (λ (s : KeySet). s.entries ++ es) (sym (ok-injective start))) in
    (subst (Chosen items) whole chosen, omega (arith, sum, ap length whole))
