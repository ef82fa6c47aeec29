-- ===== src/Http/Text/Safety.antt =====
-- No line break gets into a header value.
use tamga_c.Prelude.{ℕ, ◌+◌, ◌≤◌, ◌≡◌, refl, true, some, arith, [], ◌∷◌, ◌++◌, ◌&&◌, length, Bytes}
use tamga_c.Memory.Exec.{Allocator}
use tamga_c.Buf.{append_bytes}
use tamga_c.Buf.Written.{written_lem, append_bytes-Writes}
use tamga_c.Http.Text.{
  is_version_char, version_bytes, sanitize_api_version, header_value_is_safe, within,
}

pub header_value_is_safe-append :
    (xs ys : Bytes)
    → header_value_is_safe (xs ++ ys) ≡ (header_value_is_safe xs && header_value_is_safe ys)
unfolding header_value_is_safe
header_value_is_safe-append [] ys = refl
header_value_is_safe-append (x ∷ xs) ys = ground (arith, header_value_is_safe-append xs ys)

version_bytes-safe : (kept : ℕ) (cs : Bytes) → header_value_is_safe (version_bytes kept cs) ≡ true
unfolding version_bytes header_value_is_safe is_version_char within
version_bytes-safe kept [] = refl
version_bytes-safe kept (c ∷ cs) =
    ground (arith, version_bytes-safe (kept + 1) cs, version_bytes-safe kept cs)

version_bytes-short :
    (kept : ℕ) (cs : Bytes) → kept ≤ 32 → length (version_bytes kept cs) + kept ≤ 32
unfolding version_bytes
version_bytes-short kept [] h = omega arith
version_bytes-short kept (c ∷ cs) h =
    ground (arith, version_bytes-short (kept + 1) cs, version_bytes-short kept cs h)

-- A version that is sent has at most 32 bytes, and no line break among them.
pub sanitize_api_version_lem :
    (version : Bytes) (m : Allocator) (n : ℕ) (out : Bytes)
    → (sanitize_api_version version m n).0 ≡ some out
    → (length out ≤ 32) × (header_value_is_safe out ≡ true)
unfolding sanitize_api_version
sanitize_api_version_lem version m n out e =
    let (same, _) =
      written_lem (append_bytes (version_bytes 0 version)) _ m n out (append_bytes-Writes _) e in
    rw same
      (omega (arith, version_bytes-short 0 version (omega arith)), version_bytes-safe 0 version)
