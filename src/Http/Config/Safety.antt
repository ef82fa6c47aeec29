-- ===== src/Http/Config/Safety.antt =====
-- What every client that the interface of src/http/client.c builds and configures keeps.
use tamga_c.Prelude.{
  ℕ, ◌≤◌, ◌<◌, ◌≡◌, refl, ap, true, not, ◌&&◌, ◌||◌, arith, Option, none, some, ltb, ◌==◌, length,
  Bytes,
}
use tamga_c.Memory.Exec.{
  Allocator, ok, pure, guard, allocate, ◌>>=◌, ◌>>◌, >>=-eq-ok, guard-eq-ok, ok-injective,
}
use tamga_c.Memory.Copy.{strdup, strdup-eq-ok}
use tamga_c.Errors.{null_argument, out_of_memory, length_invalid}
use tamga_c.Http.{Client, AuthKind, Transport}
use tamga_c.Http.Text.{header_value_is_safe}
use tamga_c.Http.Config.{
  client_size, transport_size, new_strings, client_new, new_client, check_kind, safe_or_null,
  strdup_or_null, set_auth, set_api_version, set_timeout_ms, set_max_retries, set_transport, over,
  authenticated,
}

-- No credential has a line break in it, there are at most 16 retries, and there is a timeout.
pub record IsSound (client : Client) : Type 0 where
  pub primary_safe : safe_or_null client.auth_primary ≡ true
  pub secondary_safe : safe_or_null client.auth_secondary ≡ true
  pub few_retries : client.max_retries ≤ 16
  pub some_time : 0 < client.timeout_ms

-- A client that the interface built and then configured, in any order and with any arguments.
pub data Configured : Client → Type 0 where
  created :
      (builtin : Option Transport) (account_id host : Bytes) (m : Allocator) (n : ℕ) {c : Client}
      → (client_new builtin account_id host m n).0 ≡ ok c
      → Configured c
  with_auth :
      (kind : AuthKind) (primary secondary : Option Bytes) (m : Allocator) (n : ℕ) {c d : Client}
      → Configured c
      → (set_auth kind primary secondary c m n).0 ≡ ok d
      → Configured d
  with_api_version :
      (version : Option Bytes) (m : Allocator) (n : ℕ) {c d : Client}
      → Configured c
      → (set_api_version version c m n).0 ≡ ok d
      → Configured d
  with_timeout :
      (ms : ℕ) (m : Allocator) (n : ℕ) {c d : Client}
      → Configured c
      → (set_timeout_ms ms c m n).0 ≡ ok d
      → Configured d
  with_retries :
      (count : ℕ) (m : Allocator) (n : ℕ) {c d : Client}
      → Configured c
      → (set_max_retries count c m n).0 ≡ ok d
      → Configured d
  with_transport :
      (perform : Option Transport) (m : Allocator) (n : ℕ) {c d : Client}
      → Configured c
      → (set_transport perform c m n).0 ≡ ok d
      → Configured d

client_new-IsSound :
    (builtin : Option Transport) (account_id host : Bytes) (m : Allocator) (n : ℕ) (c : Client)
    → (client_new builtin account_id host m n).0 ≡ ok c
    → IsSound c
unfolding client_new safe_or_null
client_new-IsSound builtin account_id host m n c h =
    let (_, _, h1) =
      >>=-eq-ok (guard (not (length account_id == 0 || length host == 0)) null_argument)
        (λ _. (do
          allocate out_of_memory client_size
          strings ← new_strings account_id host
          pure (new_client builtin strings)))
        {m = m} {n = n} h in
    let (_, _, h2) =
      >>=-eq-ok (allocate out_of_memory client_size)
        (λ _. (do strings ← new_strings account_id host; pure (new_client builtin strings))) {m = m}
        {n = _} h1 in
    let (strings, _, h3) =
      >>=-eq-ok (new_strings account_id host) (λ strings. pure (new_client builtin strings)) {m = m}
        {n = _} h2 in
    rw⁻¹ (ok-injective h3) (record {
      primary_safe = refl;
      secondary_safe = refl;
      few_retries = omega arith;
      some_time = omega arith;
    })

strdup_or_null-eq-ok :
    (value : Option Bytes) (m : Allocator) (n : ℕ) (out : Option Bytes)
    → (strdup_or_null value m n).0 ≡ ok out
    → out ≡ value
unfolding strdup_or_null
strdup_or_null-eq-ok none m n out h = cc (ok-injective h)
strdup_or_null-eq-ok (some value) m n out h =
    let (copy, copied, h1) =
      >>=-eq-ok (strdup out_of_memory value) (λ copy. pure (some copy)) {m = m} {n = n} h in
    let (same, _, _) = strdup-eq-ok out_of_memory value m n copy copied in
    cc (ok-injective h1, ap some same)

set_auth-IsSound :
    (kind : AuthKind) (primary secondary : Option Bytes) (m : Allocator) (n : ℕ) (c d : Client)
    → IsSound c
    → (set_auth kind primary secondary c m n).0 ≡ ok d
    → IsSound d
unfolding set_auth
set_auth-IsSound kind none secondary m n c d s h = cc
set_auth-IsSound kind (some primary) secondary m n c d s h =
    let safe = header_value_is_safe primary && safe_or_null secondary in
    let (_, _, h1) =
      >>=-eq-ok (check_kind kind secondary)
        (λ _. (do
          guard safe null_argument
          p ← strdup out_of_memory primary
          q ← strdup_or_null secondary
          pure (authenticated c kind p q)))
        {m = m} {n = n} h in
    let (_, passed, h2) =
      >>=-eq-ok (guard safe null_argument)
        (λ _. (do
          p ← strdup out_of_memory primary
          q ← strdup_or_null secondary
          pure (authenticated c kind p q)))
        {m = m} {n = _} h1 in
    let (p, copied, h3) =
      >>=-eq-ok (strdup out_of_memory primary)
        (λ p. (do q ← strdup_or_null secondary; pure (authenticated c kind p q))) {m = m} {n = _}
        h2 in
    let (q, copied', h4) =
      >>=-eq-ok (strdup_or_null secondary) (λ q. pure (authenticated c kind p q)) {m = m} {n = _}
        h3 in
    let (same, _, _) = strdup-eq-ok out_of_memory primary m _ p copied in
    let same' = strdup_or_null-eq-ok secondary m _ q copied' in
    let both_safe : safe ≡ true = guard-eq-ok safe null_argument m _ passed in
    rw⁻¹ (ok-injective h4) (record {
      primary_safe = unfold safe_or_null in rw same (ground (arith, both_safe));
      secondary_safe = rw same' (ground (arith, both_safe));
      few_retries = s.few_retries;
      some_time = s.some_time;
    })

set_api_version-IsSound :
    (version : Option Bytes) (m : Allocator) (n : ℕ) (c d : Client)
    → IsSound c
    → (set_api_version version c m n).0 ≡ ok d
    → IsSound d
unfolding set_api_version
set_api_version-IsSound none m n c d s h = cc
set_api_version-IsSound (some version) m n c d s h =
    let (copy, _, h1) =
      >>=-eq-ok (strdup out_of_memory version) (λ copy. pure (record c { api_version = copy }))
        {m = m} {n = n} h in
    rw⁻¹ (ok-injective h1) (kept s)
  where
    kept : {a : Bytes} → IsSound c → IsSound (record c { api_version = a })
    kept t = record {
      primary_safe = t.primary_safe;
      secondary_safe = t.secondary_safe;
      few_retries = t.few_retries;
      some_time = t.some_time;
    }

set_timeout_ms-IsSound :
    (ms : ℕ) (m : Allocator) (n : ℕ) (c d : Client)
    → IsSound c
    → (set_timeout_ms ms c m n).0 ≡ ok d
    → IsSound d
unfolding set_timeout_ms
set_timeout_ms-IsSound ms m n c d s h =
    let (_, passed, h1) =
      >>=-eq-ok (guard (not (ms == 0)) length_invalid) (λ _. pure (record c { timeout_ms = ms }))
        {m = m} {n = n} h in
    let positive = guard-eq-ok (not (ms == 0)) length_invalid m n passed in
    rw⁻¹ (ok-injective h1) (record {
      primary_safe = s.primary_safe;
      secondary_safe = s.secondary_safe;
      few_retries = s.few_retries;
      some_time = ground (arith, positive);
    })

set_max_retries-IsSound :
    (count : ℕ) (m : Allocator) (n : ℕ) (c d : Client)
    → IsSound c
    → (set_max_retries count c m n).0 ≡ ok d
    → IsSound d
unfolding set_max_retries
set_max_retries-IsSound count m n c d s h =
    let (_, passed, h1) =
      >>=-eq-ok (guard (not (ltb 16 count)) length_invalid)
        (λ _. pure (record c { max_retries = count })) {m = m} {n = n} h in
    let few = guard-eq-ok (not (ltb 16 count)) length_invalid m n passed in
    rw⁻¹ (ok-injective h1) (record {
      primary_safe = s.primary_safe;
      secondary_safe = s.secondary_safe;
      few_retries = ground (arith, few);
      some_time = s.some_time;
    })

set_transport-IsSound :
    (perform : Option Transport) (m : Allocator) (n : ℕ) (c d : Client)
    → IsSound c
    → (set_transport perform c m n).0 ≡ ok d
    → IsSound d
unfolding set_transport
set_transport-IsSound none m n c d s h = cc
set_transport-IsSound (some perform) m n c d s h =
    let (_, _, h1) =
      >>=-eq-ok (allocate out_of_memory transport_size)
        (λ _. (do allocate out_of_memory transport_size; pure (over perform c))) {m = m} {n = n}
        h in
    let (_, _, h2) =
      >>=-eq-ok (allocate out_of_memory transport_size) (λ _. pure (over perform c)) {m = m} {n = _}
        h1 in
    rw⁻¹ (ok-injective h2) (record {
      primary_safe = s.primary_safe;
      secondary_safe = s.secondary_safe;
      few_retries = s.few_retries;
      some_time = s.some_time;
    })

-- Every client that tamga_client_new returned and the tamga_client_set_ functions configured, in any
-- order, has credentials without a line break, at most 16 retries and a timeout that is not 0.
pub Configured-IsSound : (c : Client) → Configured c → IsSound c
Configured-IsSound c (created builtin a h m n e) = client_new-IsSound builtin a h m n c e
Configured-IsSound c (with_auth kind p q m n {c = b} made e) =
    set_auth-IsSound kind p q m n b c (Configured-IsSound b made) e
Configured-IsSound c (with_api_version v m n {c = b} made e) =
    set_api_version-IsSound v m n b c (Configured-IsSound b made) e
Configured-IsSound c (with_timeout ms m n {c = b} made e) =
    set_timeout_ms-IsSound ms m n b c (Configured-IsSound b made) e
Configured-IsSound c (with_retries count m n {c = b} made e) =
    set_max_retries-IsSound count m n b c (Configured-IsSound b made) e
Configured-IsSound c (with_transport p m n {c = b} made e) =
    set_transport-IsSound p m n b c (Configured-IsSound b made) e
