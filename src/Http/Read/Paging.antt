-- ===== src/Http/Read/Paging.antt =====
-- What the readers of a response promise about a listing, a page and a heartbeat.
use tamga_c.Prelude.{
  ℕ, ◌-◌, ◌<◌, ◌≡◌, ◌⊎◌, refl, true, not, ◌&&◌, ◌||◌, Option, none, some, arith, leb, ◌==◌,
  if◌then◌else◌, Bytes, bytes_eq_iff, c_string, codes, Bool-cases, inl, inr,
}
use tamga_c.Prelude.Int.{ℤ, pos, ltb_ℤ, ◌<ℤ◌}
use tamga_c.Prelude.Options.{◌>>=◌, >>=-eq-some}
use mathlib.Core.Option.{some-injective}
use tamga_c.Json.{
  Json, Items, Members, Doubles, null, boolean, integer, real, string, array, object, object_get,
  as_string, as_int, is_null, array_len, array_at, json_type, array_items, count, item_at,
}
use tamga_c.Http.{Reply}
use tamga_c.Http.Read.{
  is_array, is_object, object_or_none, cursor_of, next_cursor, default_window, positive, window_of,
  attributes_of, heartbeat_window_secs, located, has_type, resource_at, resource_count,
}

-- A JSON array of so many elements whose last is an object with this id.
abbrev pub EndsWith : Option Json → ℕ → Bytes → Type 0
EndsWith value length id =
    (items : Items) × (value ≡ some (array items))
    × (count items ≡ length)
    × (as_string (object_get (object_or_none (item_at items (length - 1))) (codes "id")) ≡ some id)

cursor_of-EndsWith :
    (value : Option Json) (limit : ℕ) (id : Bytes)
    → cursor_of value limit ≡ some id
    → EndsWith value limit id
unfolding cursor_of json_type array_len array_at array_items
cursor_of-EndsWith none limit id h = cc
cursor_of-EndsWith (some null) limit id h = cc
cursor_of-EndsWith (some (boolean b)) limit id h = cc
cursor_of-EndsWith (some (integer i)) limit id h = cc
cursor_of-EndsWith (some (real x)) limit id h = cc
cursor_of-EndsWith (some (string s)) limit id h = cc
cursor_of-EndsWith (some (object ms)) limit id h = cc
cursor_of-EndsWith (some (array items)) limit id h =
    elim (Bool-cases (count items == 0 || not (count items == limit))) [
      | inl short ↦ absurd (cc (rw short at h))
      | inr full ↦
          let exact : count items ≡ limit = ground (arith, full) in
          (items, refl, exact, rw exact at (rw full at h))
    ]

-- The cursor of the next page is there only behind a page that is exactly full: `data` is an array of
-- `limit` elements, which are not none, and the cursor is the id of the last of them.
pub next_cursor-EndsWith :
    (reply : Reply) (limit : ℕ) (id : Bytes)
    → next_cursor reply limit ≡ some id
    → (0 < limit) × EndsWith (object_get reply.json (codes "data")) limit id
unfolding next_cursor
next_cursor-EndsWith reply limit id h = elim (Bool-cases (limit == 0)) [
  | inl zero_limit ↦ absurd (cc (rw zero_limit at h))
  | inr some_limit ↦
      (ground (arith, some_limit), cursor_of-EndsWith _ limit id (rw some_limit at h))
]

positive_lem :
    (value seconds : ℤ) → positive value ≡ some seconds → (value ≡ seconds) × (pos 0 <ℤ seconds)
unfolding positive
positive_lem value seconds h = elim (Bool-cases (ltb_ℤ (pos 0) value)) [
  | inl above ↦
      let same = some-injective _ _ (rw above at h) in (same, rw⁻¹ same (ground (arith, above)))
  | inr below ↦ absurd (cc (rw below at h))
]

by_reading :
    (d : Doubles) (value : Option Json) (seconds : ℤ)
    → (do v ← as_int d value; positive v) ≡ some seconds
    → ((value ≡ some null) × (seconds ≡ default_window))
      ⊎ (as_int d value ≡ some seconds) × (pos 0 <ℤ seconds)
by_reading d value seconds h =
    let (v, read, h1) = >>=-eq-some (as_int d value) positive h in
    let (same, above) = positive_lem v seconds h1 in inr (rw same at read, above)

window_of-read :
    (d : Doubles) (value : Option Json) (seconds : ℤ)
    → window_of d value ≡ some seconds
    → ((value ≡ some null) × (seconds ≡ default_window))
      ⊎ (as_int d value ≡ some seconds) × (pos 0 <ℤ seconds)
unfolding window_of is_null
window_of-read d none seconds h = cc
window_of-read d (some null) seconds h = inl (refl, cc (some-injective _ _ h))
window_of-read d (some (boolean b)) seconds h = by_reading d (some (boolean b)) seconds h
window_of-read d (some (integer i)) seconds h = by_reading d (some (integer i)) seconds h
window_of-read d (some (real x)) seconds h = by_reading d (some (real x)) seconds h
window_of-read d (some (string t)) seconds h = by_reading d (some (string t)) seconds h
window_of-read d (some (array items)) seconds h = by_reading d (some (array items)) seconds h
window_of-read d (some (object ms)) seconds h = by_reading d (some (object ms)) seconds h

-- A heartbeat window that is read is the default one of 600 seconds where the policy says null, and
-- else the positive integer that it says.
pub heartbeat_window_secs-read :
    (d : Doubles) (reply : Reply) (seconds : ℤ)
    → heartbeat_window_secs d reply ≡ some seconds
    → let value =
        object_get
          (attributes_of (object_get reply.json (codes "data")))
          (codes "heartbeat_duration") in
      ((value ≡ some null) × (seconds ≡ default_window))
      ⊎ (as_int d value ≡ some seconds) × (pos 0 <ℤ seconds)
unfolding heartbeat_window_secs
heartbeat_window_secs-read d reply seconds h = window_of-read d _ seconds h

located-below :
    (items : Option Json) (index : ℕ) (resource : Json)
    → located items index ≡ some resource
    → index < (if is_array items then array_len items else 1)
unfolding located
located-below items index resource h = elim (Bool-cases (is_array items)) [
  | inl many ↦ rw many (elim (Bool-cases (leb (array_len items) index)) [
    | inl over ↦ absurd (cc (simp (many, over) at h))
    | inr under ↦ ground (arith, under)
  ])
  | inr one ↦ rw one (elim (Bool-cases (is_object items && index == 0)) [
    | inl first ↦ ground (arith, first)
    | inr other ↦ absurd (cc (simp (one, other) at h))
  ])
]

-- The value is an array with this element at the index, or it is the element, and the index is 0.
abbrev pub IsElement : Option Json → ℕ → Json → Type 0
IsElement value index r =
    ((items : Items) × (value ≡ some (array items)) × (item_at items index ≡ some r))
    ⊎ (value ≡ some r) × (index ≡ 0)

located-IsElement :
    (value : Option Json) (index : ℕ) (r : Json)
    → located value index ≡ some r
    → IsElement value index r
unfolding located json_type array_len array_at array_items
located-IsElement none index r h = cc
located-IsElement (some null) index r h = cc
located-IsElement (some (boolean b)) index r h = cc
located-IsElement (some (integer i)) index r h = cc
located-IsElement (some (real x)) index r h = cc
located-IsElement (some (string s)) index r h = cc
located-IsElement (some (object ms)) index r h = elim (Bool-cases (index == 0)) [
  | inl first ↦ inr (rw first at h, ground (arith, first))
  | inr later ↦ absurd (cc (rw later at h))
]
located-IsElement (some (array items)) index r h = elim (Bool-cases (leb (count items) index)) [
  | inl over ↦ absurd (cc (rw over at h))
  | inr under ↦ inl (items, refl, rw under at h)
]

is_object-members : (r : Json) → is_object (some r) ≡ true → (ms : Members) × (r ≡ object ms)
unfolding json_type
is_object-members null h = cc
is_object-members (boolean b) h = cc
is_object-members (integer i) h = cc
is_object-members (real x) h = cc
is_object-members (string s) h = cc
is_object-members (array items) h = cc
is_object-members (object ms) h = (ms, refl)

object_or_none-eq-some :
    (value : Option Json) (r : Json)
    → object_or_none value ≡ some r
    → (value ≡ some r) × (ms : Members) × (r ≡ object ms)
unfolding object_or_none
object_or_none-eq-some value r h = elim (Bool-cases (is_object value)) [
  | inl good ↦
      let same : value ≡ some r = rw good at h in
      let (ms, members) = is_object-members r (rw same at good) in (same, ms, members)
  | inr bad ↦ absurd (cc (rw bad at h))
]

-- The object says this type, up to a NUL.
abbrev pub SaysType : Bytes → Json → Type 0
SaysType type r =
    (text : Bytes) × (as_string (object_get (some r) (codes "type")) ≡ some text)
    × (c_string text ≡ type)

has_type_lem :
    (type : Bytes) (said : Option Bytes)
    → has_type type said ≡ true
    → (text : Bytes) × (said ≡ some text) × (c_string text ≡ type)
unfolding has_type
has_type_lem type none h = cc
has_type_lem type (some text) h = (text, refl, (bytes_eq_iff (c_string text) type).0 h)

resource_at-located :
    (type : Bytes) (reply : Reply) (index : ℕ) (r : Json)
    → resource_at type reply index ≡ some r
    → (located (object_get reply.json (codes "data")) index ≡ some r)
      × ((ms : Members) × (r ≡ object ms))
      × SaysType type r
unfolding resource_at
resource_at-located type reply index r h =
    let resource = object_or_none (located (object_get reply.json (codes "data")) index) in
    elim (Bool-cases (has_type type (as_string (object_get resource (codes "type"))))) [
      | inl good ↦
          let same : resource ≡ some r = rw good at h in
          let (there, ms, members) = object_or_none-eq-some _ r same in
          (there, (ms, members), has_type_lem type _ (rw same at good))
      | inr bad ↦ absurd (cc (rw bad at h))
    ]

-- A resource that is found at an index stands below the count of the listing, is the element of the
-- array `data` at that index or, at 0, the value of `data` itself, and is an object that says the
-- wanted type.
pub resource_at-counted :
    (type : Bytes) (reply : Reply) (index : ℕ) (r : Json)
    → resource_at type reply index ≡ some r
    → (index < resource_count type reply)
      × IsElement (object_get reply.json (codes "data")) index r
      × ((ms : Members) × (r ≡ object ms))
      × SaysType type r
unfolding resource_count
resource_at-counted type reply index r h =
    let items = object_get reply.json (codes "data") in
    let (there, members, typed) = resource_at-located type reply index r h in
    let below = located-below items index r there in
    let element = located-IsElement items index r there in
    elim (Bool-cases (is_array items)) [
      | inl many ↦ (rw many (rw many at below), element, members, typed)
      | inr one ↦
          let first : index ≡ 0 = let b = rw one at below in omega (arith, b) in
          let found = rw first at h in
          (simp (one, found, first) (omega arith), element, members, typed)
    ]
