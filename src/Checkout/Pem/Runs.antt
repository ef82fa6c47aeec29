-- ===== src/Checkout/Pem/Runs.antt =====
-- The theorems on envelopes at concrete inputs.
use tamga_c.Prelude.{
  ◌≡◌, refl, false, arith, [], ◌∷◌, ◌++◌, if◌then◌else◌, Bytes, bytes_eq, contains_byte, codes,
}
use tamga_c.Memory.{checked_add, checked_mul}
use tamga_c.Memory.Growth.{double_until}
use tamga_c.Memory.Exec.{ok, err}
use tamga_c.Errors.{out_of_memory}
use tamga_c.Buf.{append_bytes, append, detach_string, reserve}
use tamga_c.Checkout.Samples.{generous}
use tamga_c.Checkout.Pem.{trim_start, trim_end, trim, drop_spaces, body_between, pem_extract}
use tamga_c.Checkout.Pem.Extract.{Stripped, pem_extract_sound, pem_extract-granted}

abbrev pem : Bytes
pem = codes " [[a b\n]]\n"

extracts : (pem_extract pem (codes "[[") (codes "]]") generous 0).0 ≡ ok (codes "ab")
unfolding pem_extract trim trim_start trim_end drop_spaces body_between append_bytes append
    detach_string reserve bytes_eq contains_byte double_until checked_add checked_mul
extracts = refl

pem_extract_sound_example :
    (raw : Bytes) × (trim pem ≡ codes "[[" ++ (raw ++ codes "]]"))
    × (codes "ab" ≡ drop_spaces raw)
    × (contains_byte 0 (codes "ab") ≡ false)
    × Stripped raw (codes "ab")
pem_extract_sound_example =
    pem_extract_sound pem (codes "[[") (codes "]]") generous 0 (codes "ab") extracts

-- The body of this envelope is the byte 0.
abbrev nul_pem : Bytes
nul_pem = codes "[[" ++ 0 ∷ codes "]]"

nul_span : body_between (codes "[[") (codes "]]") (trim nul_pem) ≡ ok (0 ∷ [])
unfolding body_between trim trim_start trim_end bytes_eq
nul_span = refl

pem_extract-granted_example : (pem_extract nul_pem (codes "[[") (codes "]]") generous 0).0 ≡ (
    if contains_byte 0 (drop_spaces (0 ∷ [])) then err out_of_memory else ok (drop_spaces (0 ∷ [])))
pem_extract-granted_example =
    pem_extract-granted nul_pem (codes "[[") (codes "]]") (0 ∷ []) generous 0 (λ n size. refl)
      (omega arith) (omega arith) nul_span
