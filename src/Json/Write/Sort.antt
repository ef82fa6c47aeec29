-- ===== src/Json/Write/Sort.antt =====
-- tamga_json_key_cmp and tamga_json_sort_keys of src/util/json_write.c: a bottom-up merge sort of the
-- places of an object's members by their keys, which are C strings.
pub mod Ordered
pub mod Keys
use tamga_c.Prelude.{
  ℕ, zero, suc, ◌+◌, ◌*◌, Bool, true, false, List, [], ◌∷◌, ◌++◌, ltb, ◌==◌, if◌then◌else◌, length,
  take, drop, get_or, Bytes,
}
use tamga_c.Memory.Exec.{Exec, pure, lift, or_error, allocate, ◌>>=◌, ◌>>◌}
use tamga_c.Memory.{checked_mul}
use tamga_c.Fingerprint.{Order, before, same, after}

-- `before`, `same` and `after` are the source's -1, 0 and 1.
unfoldable pub key_cmp : Bytes → Bytes → Order
key_cmp [] [] = same
key_cmp [] (b ∷ bs) = before
key_cmp (a ∷ more) [] = after
key_cmp (a ∷ more) (b ∷ bs) =
    let rest = key_cmp more bs in if a == b then rest else if ltb a b then before else after

-- `take_left` where both runs have elements left.
unfoldable pub not_after : Order → Bool
not_after after = false
not_after before = true
not_after same = true

unfoldable pub key_le : List Bytes → ℕ → ℕ → Bool
key_le keys i j = not_after (key_cmp (get_or keys i []) (get_or keys j []))

-- The loop that merges two runs.
unfoldable pub merge : (ℕ → ℕ → Bool) → List ℕ → List ℕ → List ℕ
merge le [] right = right
merge le (x ∷ left) [] = x ∷ left
merge le (x ∷ left) (y ∷ right) = elim (le x y) [
  | true ↦ x ∷ merge le left (y ∷ right)
  | false ↦ y ∷ merge le (x ∷ left) right
]

-- One round over all pairs of runs of a width, with fuel for each pair.
unfoldable pub merge_pass : (ℕ → ℕ → Bool) → ℕ → ℕ → List ℕ → List ℕ
merge_pass le zero width order = []
merge_pass le (suc fuel) width order =
    merge le (take width order) (take width (drop width order))
    ++ merge_pass le fuel width (drop (width * 2) order)

-- `for (width = 1u; width < count; width *= 2u)`, with fuel for each width.
unfoldable pub merge_passes : (ℕ → ℕ → Bool) → ℕ → ℕ → List ℕ → List ℕ
merge_passes le zero width order = order
merge_passes le (suc fuel) width order =
    let next = merge_passes le fuel (width * 2) (merge_pass le (length order) width order) in
    if ltb width (length order) then next else order

unfoldable pub iota_from : ℕ → ℕ → List ℕ
iota_from start zero = []
iota_from start (suc count) = start ∷ iota_from (suc start) count

-- 0, 1 and so on.
unfoldable pub iota : ℕ → List ℕ
unfolding iota_from
iota count = iota_from 0 count

unfoldable pub sorted_places : List Bytes → List ℕ
unfolding merge_passes iota key_le
sorted_places keys = merge_passes (key_le keys) (length keys) 1 (iota (length keys))

-- sizeof(size_t)
abbrev pub index_size : ℕ
index_size = 8

-- tamga_json_sort_keys
unfoldable pub sort_keys : List Bytes → Exec (Unit {0}) (List ℕ)
sort_keys keys = do
  size ← lift (or_error tt (checked_mul (length keys) index_size))
  allocate tt size
  allocate tt size
  pure (sorted_places keys)
