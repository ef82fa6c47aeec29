-- ===== src/Base64/Alloc.antt =====
-- tamga_base64_decode_alloc_why and tamga_base64_encode_alloc of src/util/base64.c.
use tamga_c.Prelude.{ℕ, ◌≡◌, some, length, Bytes}
use tamga_c.Memory.{checked_add}
use tamga_c.Memory.Exec.{
  Allocator, Exec, ok, lift, or_error, allocate, pure, >>=-eq-ok, or_error-eq-ok, ◌>>=◌, ◌>>◌,
}
use tamga_c.Base64.{decoded_cap, encoded_len, base64_decode, base64_encode}

-- TamgaBase64Failure
pub data Failure : Type 0 where
  malformed out_of_memory : Failure

unfoldable pub decode_alloc : Bytes → Exec Failure Bytes
decode_alloc text = do
  cap ← lift (or_error malformed (decoded_cap (length text)))
  allocate out_of_memory cap
  lift (or_error malformed (base64_decode text))

-- A NULL result stands for both failures here; `malformed` is a length that overflows.
unfoldable pub encode_alloc : Bytes → Exec Failure Bytes
encode_alloc input = do
  enc_len ← lift (or_error malformed (encoded_len (length input)))
  total ← lift (or_error malformed (checked_add enc_len 1))
  allocate out_of_memory total
  pure (base64_encode input)

-- What is decoded into a fresh block is what the text encodes.
pub decode_alloc-eq-ok :
    (text : Bytes) (m : Allocator) (n : ℕ) (out : Bytes)
    → (decode_alloc text m n).0 ≡ ok out
    → base64_decode text ≡ some out
unfolding decode_alloc
decode_alloc-eq-ok text m n out h =
    let (cap_len, sized, h1) =
      >>=-eq-ok (lift (or_error malformed (decoded_cap (length text)))) _ h in
    let (_, granted, h2) =
      >>=-eq-ok (allocate out_of_memory cap_len)
        (λ _. lift (or_error malformed (base64_decode text))) {m = m} {n = n} h1 in
    or_error-eq-ok malformed (base64_decode text) h2
