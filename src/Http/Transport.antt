-- ===== src/Http/Transport.antt =====
-- src/http/transport.c, and the functions of src/http/client.c by which a caller's transport fills in
-- a response. The handles are not NULL.
pub mod Reach
pub mod Names
use tamga_c.Prelude.{
  ℕ, ◌+◌, ◌-◌, ◌*◌, Bool, true, false, not, ◌&&◌, Option, none, some, List, [], ◌∷◌, ◌++◌, ltb, leb,
  ◌==◌, if◌then◌else◌, length, Bytes,
}
use tamga_c.Prelude.Int.{ℤ, pos}
use tamga_c.Memory.{checked_mul, max_reasonable_len}
use tamga_c.Memory.Exec.{
  Allocator, Exec, Result, ok, err, pure, lift, guard, or_error, allocate, ◌>>=◌, ◌>>◌,
}
use tamga_c.Memory.Copy.{strdup, memdup_terminated}
use tamga_c.Http.{
  Header, Request, HttpResponse, Performed, Transport, network, oversized, no_memory,
}

-- A NULL or false result.
pub data Refused : Type 0 where
  refused : Refused

-- tamga_http_response_init
abbrev pub fresh : HttpResponse
fresh = record { status = pos 0; body = none; headers = []; header_capacity = 0; failure = network }

-- sizeof(TamgaHttpHeader)
abbrev pub header_size : ℕ
header_size = 16

-- The capacity of the header array that has room for one more.
unfoldable pub grow_headers : ℕ → ℕ → Exec Refused ℕ
grow_headers capacity count = if ltb count capacity then pure capacity else do
  let new_capacity = if capacity == 0 then 8 else capacity * 2
  guard (not (ltb 512 new_capacity)) refused
  bytes ← lift (or_error refused (checked_mul new_capacity header_size))
  allocate refused bytes
  pure new_capacity

both : Result Refused Bytes → Result Refused Bytes → Result Refused Header
both (ok name) (ok value) = ok (record { name = name; value = value })
both (ok name) (err e) = err e
both (err e) value = err e

-- The value is copied also where the name could not be.
unfoldable pub copy_header : Bytes → Bytes → Exec Refused Header
unfolding both
copy_header name value m n =
    let (name', n1) = strdup refused name m n in
    let (value', n2) = strdup refused value m n1 in (both name' value', n2)

-- A function on a response returns its result, the response, and the count of allocator requests.
abbrev pub ResponseStep : Type 0
ResponseStep = HttpResponse → Allocator → ℕ → Bool × HttpResponse × ℕ

unfoldable pub store_header : Result Refused Header → HttpResponse → Bool × HttpResponse
store_header (ok header) r = (true, record r { headers = r.headers ++ header ∷ [] })
store_header (err e) r = (false, r)

unfoldable pub with_capacity : Result Refused ℕ → Bytes → Bytes → ResponseStep
with_capacity (err e) name value r m n = (false, r, n)
with_capacity (ok capacity) name value r m n =
    let (header, n') = copy_header name value m n in
    let (done, r') = store_header header (record r { header_capacity = capacity }) in (done, r', n')

-- tamga_http_response_add_header
unfoldable pub response_add_header : Option Bytes → Option Bytes → ResponseStep
response_add_header (some name) (some value) r m n =
    let (capacity, n') = grow_headers r.header_capacity (length r.headers) m n in
    with_capacity capacity name value r m n'
response_add_header _ _ r m n = (false, r, n)

unfoldable pub lower : ℕ → ℕ
lower c = if leb b'A' c && leb c b'Z' then c + (b'a' - b'A') else c

-- tamga_header_name_equal, and the same loop in tamga_response_header.
unfoldable pub header_name_equal : Bytes → Bytes → Bool
header_name_equal [] [] = true
header_name_equal [] (b ∷ bs) = false
header_name_equal (a ∷ more) [] = false
header_name_equal (a ∷ more) (b ∷ bs) =
    let rest = header_name_equal more bs in if lower a == lower b then rest else false

unfoldable pub find_header : Bytes → List Header → Option Bytes
find_header name [] = none
find_header name (header ∷ headers) =
    let rest = find_header name headers in
    if header_name_equal header.name name then some header.value else rest

-- tamga_http_response_header
unfoldable pub http_response_header : HttpResponse → Bytes → Option Bytes
unfolding find_header
http_response_header response name = find_header name response.headers

-- tamga_http_result_set_status
unfoldable pub result_set_status : ℤ → HttpResponse → HttpResponse
result_set_status status r = record r { status = status }

unfoldable pub store_body : Result Refused Bytes → HttpResponse → Bool × HttpResponse
store_body (ok copy) r = (true, record r { body = some copy })
store_body (err e) r = (false, record r { failure = no_memory })

-- tamga_http_result_set_body
unfoldable pub result_set_body : Option Bytes → ResponseStep
result_set_body none r m n = (false, r, n)
result_set_body (some body) r m n =
    if ltb max_reasonable_len (length body)
    then (false, record r { failure = oversized }, n)
    else (let (copy, n') = memdup_terminated refused body m n in
        let (done, r') = store_body copy r in (done, r', n'))

noting_failure : Bool × HttpResponse × ℕ → Bool × HttpResponse × ℕ
noting_failure (true, r, n) = (true, r, n)
noting_failure (false, r, n) = (false, record r { failure = no_memory }, n)

-- tamga_http_result_add_header
unfoldable pub result_add_header : Option Bytes → Option Bytes → ResponseStep
unfolding noting_failure
result_add_header name value r m n = noting_failure (response_add_header name value r m n)

-- tamga_custom_perform: the caller's function gets the request unless it has more than 8 headers.
unfoldable pub custom_perform : Transport → Transport
custom_perform perform k request =
    if ltb 8 (length request.headers)
    then record { succeeded = false; response = fresh }
    else perform k request
