-- ===== src/Json/Write/Sort/Keys.antt =====
-- The order of the keys: unsigned bytes, lexicographically, as the fingerprint's.
use mathlib.Core.List.{Pairwise, Perm}
use mathlib.Core.List.Pairwise
use tamga_c.Prelude.{
  ℕ, zero, suc, ◌≡◌, ◌≢◌, refl, ap, true, false, arith, List, [], ◌∷◌, length, get_or, Bytes,
}
use tamga_c.Fingerprint.{Order, before, same, after}
use tamga_c.Fingerprint.Lexical.{lex, ◌≼◌, ≼_refl, ≼_trans}
use tamga_c.Json.Write.Sort.{key_cmp, not_after, key_le, iota_from, iota, sorted_places}
use tamga_c.Json.Write.Sort.Ordered.{passes_sort, singles}

key_cmp-lex : (a b : Bytes) → key_cmp a b ≡ lex a b
unfolding key_cmp lex
key_cmp-lex [] [] = refl
key_cmp-lex [] (b ∷ bs) = refl
key_cmp-lex (a ∷ more) [] = refl
key_cmp-lex (a ∷ more) (b ∷ bs) = ground (arith, key_cmp-lex more bs)

lex_total : (a b : Bytes) → lex a b ≡ after → lex b a ≡ before
unfolding lex
lex_total [] [] h = cc
lex_total [] (b ∷ bs) h = cc
lex_total (a ∷ more) [] h = refl
lex_total (a ∷ more) (b ∷ bs) h = ground (arith, lex_total more bs)

not_after_lem : (o : Order) → not_after o ≡ true → o ≢ after
unfolding not_after
not_after_lem before h = λ e. cc
not_after_lem same h = λ e. cc
not_after_lem after h = cc

after_lem : (o : Order) → not_after o ≡ false → o ≡ after
unfolding not_after
after_lem before h = cc
after_lem same h = cc
after_lem after h = refl

is_not_after : (o : Order) → o ≢ after → not_after o ≡ true
unfolding not_after
is_not_after before h = refl
is_not_after same h = refl
is_not_after after h = absurd (h refl)

module _ (keys : List Bytes) where
  abbrev at : ℕ → Bytes
  at i = get_or keys i []

  key_le-≼ : (i j : ℕ) → key_le keys i j ≡ true → at i ≼ at j
  unfolding key_le
  key_le-≼ i j h = rw (key_cmp-lex (at i) (at j)) at (not_after_lem _ h)

  ≼_key_le : (i j : ℕ) → at i ≼ at j → key_le keys i j ≡ true
  unfolding key_le
  ≼_key_le i j h = is_not_after _ (rw (key_cmp-lex (at i) (at j)) h)

  key_le_total : (i j : ℕ) → key_le keys i j ≡ false → key_le keys j i ≡ true
  unfolding key_le
  key_le_total i j h =
      let o = rw (key_cmp-lex (at i) (at j)) at (after_lem (key_cmp (at i) (at j)) h) in
      ≼_key_le j i (λ e. cc (lex_total (at i) (at j) o, e))

  key_le_trans :
      (i j k : ℕ) → key_le keys i j ≡ true → key_le keys j k ≡ true → key_le keys i k ≡ true
  key_le_trans i j k g h =
      ≼_key_le i k (≼_trans (at i) (at j) (at k) (key_le-≼ i j g) (key_le-≼ j k h))

  key_le_refl : (i : ℕ) → key_le keys i i ≡ true
  key_le_refl i = ≼_key_le i i (≼_refl (at i))

length-iota_from : (start count : ℕ) → length (iota_from start count) ≡ count
unfolding iota_from
length-iota_from start zero = refl
length-iota_from start (suc count) = ap suc (length-iota_from (suc start) count)

-- The places that the merge sort returns are all places of the keys, each once, and the keys at them
-- ascend by their bytes.
pub sorted_places_sorted :
    (keys : List Bytes)
    → Perm (sorted_places keys) (iota (length keys))
      × Pairwise (λ i j. get_or keys i [] ≼ get_or keys j []) (sorted_places keys)
unfolding sorted_places iota
sorted_places_sorted keys =
    let (up, perm) =
      passes_sort (key_le keys) (key_le_total keys) (key_le_trans keys) (key_le_refl keys)
        (length keys) 1 (iota_from 0 (length keys)) (omega arith)
        (omega (arith, length-iota_from 0 (length keys)))
        (singles (key_le keys) (key_le_total keys) (key_le_trans keys) (key_le_refl keys)
          (iota_from 0 (length keys))) in
    (perm, Pairwise.imp (key_le-≼ keys) up)
