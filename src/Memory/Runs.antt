-- ===== src/Memory/Runs.antt =====
-- The theorems on checked arithmetic and on the doubling loop at concrete inputs.
use tamga_c.Prelude.{◌≡◌, refl}
use tamga_c.Memory.{checked_mul}
use tamga_c.Memory.Growth.{grown, double_until}

doubles : double_until 65 4 100 ≡ grown 128
unfolding double_until checked_mul
doubles = refl
