-- ===== src/Checkout/MachineFile/Algorithm.antt =====
-- tamga_machine_alg_split of src/checkout/machine_file.c.
pub mod Parts
pub mod Joined
use tamga_c.Prelude.{
  ℕ, suc, ◌+◌, ◌-◌, Bool, not, Option, none, some, [], ◌∷◌, ◌==◌, if◌then◌else◌, length, take, drop,
  Bytes, bytes_eq, codes,
}
use tamga_c.Prelude.Options.{◌>>=◌}

abbrev pub plus : ℕ
plus = b'+'

-- `memchr`: the index of the first byte of this value.
unfoldable pub index_of : ℕ → Bytes → Option ℕ
index_of c [] = none
index_of c (x ∷ xs) =
    let later = index_of c xs in if x == c then some 0 else (do i ← later; some (suc i))

later_or : Option ℕ → Option ℕ → Option ℕ
later_or (some i) here = some (suc i)
later_or none here = here

-- The loop from the end: the index of the last byte of this value.
unfoldable pub last_index_of : ℕ → Bytes → Option ℕ
unfolding later_or
last_index_of c [] = none
last_index_of c (x ∷ xs) = later_or (last_index_of c xs) (if x == c then some 0 else none)

split_at : Bytes → ℕ → ℕ → Option (Bytes × Bytes)
split_at alg first last =
    if last == first
    then none
    else if not (bytes_eq (drop (last + 1) alg) (codes "v2"))
    then none
    else some (take first alg, take (last - first - 1) (drop (first + 1) alg))

-- The encoding before the first '+', and the signing suffix up to the last one; "v2" stands behind.
unfoldable pub alg_split : Bytes → Option (Bytes × Bytes)
unfolding split_at
alg_split alg = do first ← index_of plus alg; last ← last_index_of plus alg; split_at alg first last
