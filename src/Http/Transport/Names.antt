-- ===== src/Http/Transport/Names.antt =====
-- Header names are compared without regard to the case of ASCII letters.
use tamga_c.Prelude.{◌≡◌, refl, arith, [], ◌∷◌, map, Bytes, bytes_eq}
use tamga_c.Http.Transport.{lower, header_name_equal}

-- The loop over two names compares their lower-case spellings.
pub header_name_equal-lower :
    (a b : Bytes) → header_name_equal a b ≡ bytes_eq (map lower a) (map lower b)
unfolding header_name_equal bytes_eq
header_name_equal-lower [] [] = refl
header_name_equal-lower [] (b ∷ bs) = refl
header_name_equal-lower (a ∷ more) [] = refl
header_name_equal-lower (a ∷ more) (b ∷ bs) = ground (arith, header_name_equal-lower more bs)
