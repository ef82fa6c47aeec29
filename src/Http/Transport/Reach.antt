-- ===== src/Http/Transport/Reach.antt =====
-- The responses that a caller's transport can fill in, by any sequence of the calls that it has.
use tamga_c.Prelude.{
  ℕ, ◌*◌, ◌≤◌, ◌<◌, ◌≡◌, refl, Bool, true, false, not, arith, Option, none, some, [], ◌∷◌, ltb,
  ◌==◌, if◌then◌else◌, length, length-append, Bytes, contains_byte, All, All-append, Bool-cases,
  inl, inr,
}
use tamga_c.Prelude.Int.{ℤ}
use tamga_c.Memory.{checked_mul, max_reasonable_len}
use tamga_c.Memory.Exec.{
  Allocator, Result, ok, err, pure, lift, guard, or_error, allocate, ◌>>=◌, ◌>>◌, >>=-eq-ok,
  guard-eq-ok, ok-injective,
}
use tamga_c.Memory.Copy.{strdup-eq-ok, memdup_terminated, memdup_terminated-eq-ok}
use tamga_c.Http.{Header, HttpResponse}
use tamga_c.Http.Transport.{
  Refused, refused, fresh, header_size, grow_headers, both, copy_header, store_header,
  with_capacity, response_add_header, result_set_status, store_body, result_set_body,
  noting_failure, result_add_header,
}

-- What a transport has filled in after some calls, whatever the allocator answered to each.
pub data Filled : HttpResponse → Type 0 where
  started : Filled fresh
  status_set : (status : ℤ) {r : HttpResponse} → Filled r → Filled (result_set_status status r)
  body_set :
      (body : Option Bytes) (m : Allocator) (n : ℕ) {r : HttpResponse}
      → Filled r
      → Filled (result_set_body body r m n).1
  header_added :
      (name value : Option Bytes) (m : Allocator) (n : ℕ) {r : HttpResponse}
      → Filled r
      → Filled (result_add_header name value r m n).1

abbrev pub BodyFits : Option Bytes → Type 0
BodyFits none = Unit
BodyFits (some body) = length body ≤ max_reasonable_len

-- No NUL in the name, and none in the value.
abbrev pub IsString : Header → Type 0
IsString header = (contains_byte 0 header.name ≡ false) × (contains_byte 0 header.value ≡ false)

-- The headers are within their array, which has at most 512 places; they are C strings; and the body
-- has at most 16 MiB.
pub record IsBounded (r : HttpResponse) : Type 0 where
  pub within : length r.headers ≤ r.header_capacity
  pub capped : r.header_capacity ≤ 512
  pub strings : All IsString r.headers
  pub body : BodyFits r.body

grow_headers-eq-ok :
    (capacity count : ℕ) (m : Allocator) (n : ℕ) (out : ℕ)
    → count ≤ capacity
    → capacity ≤ 512
    → (grow_headers capacity count m n).0 ≡ ok out
    → (count < out) × (out ≤ 512)
unfolding grow_headers
grow_headers-eq-ok capacity count m n out h k e = elim (Bool-cases (ltb count capacity)) [
  | inl room ↦ let same = ok-injective (rw room at e) in rw⁻¹ same (ground (arith, room))
  | inr full ↦
      let new = if capacity == 0 then 8 else capacity * 2 in
      let (_, small, e1) =
        >>=-eq-ok (guard (not (ltb 512 new)) refused)
          (λ _. (do
            bytes ← lift (or_error refused (checked_mul new header_size))
            allocate refused bytes
            pure new))
          {m = m} {n = n} (rw full at e) in
      let (bytes, _, e2) =
        >>=-eq-ok (lift (or_error refused (checked_mul new header_size)))
          (λ bytes. (do allocate refused bytes; pure new)) {m = m} {n = _} e1 in
      let (_, _, e3) = >>=-eq-ok (allocate refused bytes) (λ _. pure new) {m = m} {n = _} e2 in
      let below = guard-eq-ok (not (ltb 512 new)) refused m n small in
      rw⁻¹ (ok-injective e3) (ground (arith, below, full))
]

both-eq-ok :
    (a b : Result Refused Bytes) (header : Header)
    → both a b ≡ ok header
    → (a ≡ ok header.name) × (b ≡ ok header.value)
unfolding both
both-eq-ok (ok name) (ok value) header h = let same = ok-injective h in (cc same, cc same)
both-eq-ok (ok name) (err e) header h = cc
both-eq-ok (err e) b header h = cc

copy_header-eq-ok :
    (name value : Bytes) (m : Allocator) (n : ℕ) (header : Header)
    → (copy_header name value m n).0 ≡ ok header
    → (header.name ≡ name) × (header.value ≡ value) × IsString header
unfolding copy_header
copy_header-eq-ok name value m n header h =
    let (e, f) = both-eq-ok _ _ header h in
    let (same, _, clean) = strdup-eq-ok refused name m n header.name e in
    let (same', _, clean') = strdup-eq-ok refused value m _ header.value f in
    (same, same', (rw same clean, rw same' clean'))

store_header-IsBounded :
    (h : Result Refused Header) (r : HttpResponse)
    → IsBounded r
    → length r.headers < r.header_capacity
    → ((header : Header) → h ≡ ok header → IsString header)
    → IsBounded (store_header h r).1
unfolding store_header
store_header-IsBounded (ok header) r b room k = record {
  within = rw length-append (omega arith);
  capped = b.capped;
  strings = All-append IsString r.headers (header ∷ []) b.strings (k header refl, tt);
  body = b.body;
}
store_header-IsBounded (err e) r b room k = b

with_capacity-IsBounded :
    (c : Result Refused ℕ) (name value : Bytes) (r : HttpResponse) (m : Allocator) (n : ℕ)
    → IsBounded r
    → ((capacity : ℕ) → c ≡ ok capacity → (length r.headers < capacity) × (capacity ≤ 512))
    → IsBounded (with_capacity c name value r m n).1
unfolding with_capacity
with_capacity-IsBounded (err e) name value r m n b k = b
with_capacity-IsBounded (ok capacity) name value r m n b k =
    let (room, capped) = k capacity refl in
    store_header-IsBounded (copy_header name value m n).0 (record r { header_capacity = capacity })
      (record { within = omega arith; capped = capped; strings = b.strings; body = b.body }) room
      (λ header e. (let (_, _, s) = copy_header-eq-ok name value m n header e in s))

response_add_header-IsBounded :
    (name value : Option Bytes) (r : HttpResponse) (m : Allocator) (n : ℕ)
    → IsBounded r
    → IsBounded (response_add_header name value r m n).1
unfolding response_add_header
response_add_header-IsBounded none value r m n b = b
response_add_header-IsBounded (some name) none r m n b = b
response_add_header-IsBounded (some name) (some value) r m n b =
    with_capacity-IsBounded _ name value r m _ b (λ capacity e.
      grow_headers-eq-ok r.header_capacity (length r.headers) m n capacity b.within b.capped e)

noting_failure-IsBounded :
    (o : Bool × HttpResponse × ℕ) → IsBounded o.1 → IsBounded (noting_failure o).1
unfolding noting_failure
noting_failure-IsBounded (true, r, n) b = b
noting_failure-IsBounded (false, r, n) b = record {
  within = b.within;
  capped = b.capped;
  strings = b.strings;
  body = b.body;
}

store_body-IsBounded :
    (copy : Result Refused Bytes) (r : HttpResponse)
    → IsBounded r
    → ((body : Bytes) → copy ≡ ok body → length body ≤ max_reasonable_len)
    → IsBounded (store_body copy r).1
unfolding store_body
store_body-IsBounded (ok body) r b k = record {
  within = b.within;
  capped = b.capped;
  strings = b.strings;
  body = k body refl;
}
store_body-IsBounded (err e) r b k = record {
  within = b.within;
  capped = b.capped;
  strings = b.strings;
  body = b.body;
}

result_set_body-IsBounded :
    (body : Option Bytes) (r : HttpResponse) (m : Allocator) (n : ℕ)
    → IsBounded r
    → IsBounded (result_set_body body r m n).1
unfolding result_set_body
result_set_body-IsBounded none r m n b = b
result_set_body-IsBounded (some body) r m n b =
    elim (Bool-cases (ltb max_reasonable_len (length body))) [
      | inl large ↦
          rw large
            (record { within = b.within; capped = b.capped; strings = b.strings; body = b.body })
      | inr fits ↦ rw fits (
          store_body-IsBounded (memdup_terminated refused body m n).0 r b (λ copy e.
            (let (same, small) = memdup_terminated-eq-ok refused body m n copy e in rw same small)))
    ]

-- However a caller's transport fills in a response, by whatever sequence of calls: it never has more
-- than 512 headers or a body of more than 16 MiB, and its headers are C strings within their array.
pub Filled-IsBounded : (r : HttpResponse) → Filled r → IsBounded r
unfolding result_set_status result_add_header
Filled-IsBounded r started = record {
  within = omega arith;
  capped = omega arith;
  strings = tt;
  body = tt;
}
Filled-IsBounded r (status_set status {r = s} h) =
    let b = Filled-IsBounded s h in
    record { within = b.within; capped = b.capped; strings = b.strings; body = b.body }
Filled-IsBounded r (body_set body m n {r = s} h) =
    result_set_body-IsBounded body s m n (Filled-IsBounded s h)
Filled-IsBounded r (header_added name value m n {r = s} h) =
    noting_failure-IsBounded (response_add_header name value s m n)
      (response_add_header-IsBounded name value s m n (Filled-IsBounded s h))
