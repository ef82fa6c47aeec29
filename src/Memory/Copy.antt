-- ===== src/Memory/Copy.antt =====
-- tamga_strdup, tamga_strndup and tamga_memdup_terminated of src/tamga_mem.c, their source not NULL.
use tamga_c.Prelude.{ℕ, ◌≤◌, ◌≡◌, false, not, length, ltb, Bytes, contains_byte, arith}
use tamga_c.Memory.{checked_add, max_reasonable_len}
use tamga_c.Memory.Exec.{
  Allocator, Exec, ok, pure, lift, guard, or_error, allocate, ◌>>=◌, ◌>>◌, >>=-eq-ok, guard-eq-ok,
  ok-injective,
}

unfoldable pub strndup : {E : Type 0} → E → Bytes → Exec E Bytes
strndup refused text = do
  guard (not (ltb max_reasonable_len (length text))) refused
  guard (not (contains_byte 0 text)) refused
  total ← lift (or_error refused (checked_add (length text) 1))
  allocate refused total
  pure text

-- The length of a C string is what `strlen` says.
unfoldable pub strdup : {E : Type 0} → E → Bytes → Exec E Bytes
unfolding strndup
strdup refused text = strndup refused text

unfoldable pub memdup_terminated : {E : Type 0} → E → Bytes → Exec E Bytes
memdup_terminated refused text = do
  guard (not (ltb max_reasonable_len (length text))) refused
  total ← lift (or_error refused (checked_add (length text) 1))
  allocate refused total
  pure text

copied :
    {E : Type 0} (e : E) (text : Bytes) (m : Allocator) (n : ℕ) (out : Bytes)
    → ((do total ← lift (or_error e (checked_add (length text) 1)); allocate e total; pure text) m
        n).0
      ≡ ok out
    → out ≡ text
copied e text m n out h =
    let (total, _, h1) =
      >>=-eq-ok (lift (or_error e (checked_add (length text) 1)))
        (λ total. allocate e total >> pure text) {m = m} {n = n} h in
    let (_, _, h2) = >>=-eq-ok (allocate e total) (λ _. pure text) {m = m} {n = n} h1 in
    cc (ok-injective h2)

-- A copy is its source, which has no NUL and is of a reasonable length.
pub strdup-eq-ok :
    {E : Type 0} (e : E) (text : Bytes) (m : Allocator) (n : ℕ) (out : Bytes)
    → (strdup e text m n).0 ≡ ok out
    → (out ≡ text) × (length text ≤ max_reasonable_len) × (contains_byte 0 text ≡ false)
unfolding strdup
strdup-eq-ok e text m n out h =
    let (_, short, h1) =
      >>=-eq-ok (guard (not (ltb max_reasonable_len (length text))) e)
        (λ _. (do
          guard (not (contains_byte 0 text)) e
          total ← lift (or_error e (checked_add (length text) 1))
          allocate e total
          pure text))
        {m = m} {n = n} h in
    let (_, clean, h2) =
      >>=-eq-ok (guard (not (contains_byte 0 text)) e)
        (λ _. (do
          total ← lift (or_error e (checked_add (length text) 1))
          allocate e total
          pure text))
        {m = m} {n = _} h1 in
    (
      copied e text m _ out h2,
      ground (arith, guard-eq-ok _ e m n short),
      ground (arith, guard-eq-ok _ e m _ clean),
    )

pub memdup_terminated-eq-ok :
    {E : Type 0} (e : E) (text : Bytes) (m : Allocator) (n : ℕ) (out : Bytes)
    → (memdup_terminated e text m n).0 ≡ ok out
    → (out ≡ text) × (length text ≤ max_reasonable_len)
unfolding memdup_terminated
memdup_terminated-eq-ok e text m n out h =
    let (_, short, h1) =
      >>=-eq-ok (guard (not (ltb max_reasonable_len (length text))) e)
        (λ _. (do
          total ← lift (or_error e (checked_add (length text) 1))
          allocate e total
          pure text))
        {m = m} {n = n} h in
    (copied e text m _ out h1, ground (arith, guard-eq-ok _ e m n short))
