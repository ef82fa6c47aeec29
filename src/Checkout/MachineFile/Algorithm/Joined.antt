-- ===== src/Checkout/MachineFile/Algorithm/Joined.antt =====
-- An algorithm name that is put together from its parts is split into them again.
use mathlib.Core.List.{append_assoc}
use tamga_c.Prelude.{
  ℕ, suc, ◌+◌, ◌-◌, ◌≡◌, inl, inr, refl, sym, ap, ◌∙◌, false, none, some, arith, [], ◌∷◌, ◌++◌,
  ◌==◌, length, drop, Bytes, bytes_eq_refl, contains_byte, Bool-cases, codes, length-append,
  take-append_self, drop-append_self, drop-drop,
}
use tamga_c.Checkout.MachineFile.Algorithm.{
  plus, index_of, later_or, last_index_of, split_at, alg_split,
}

index_of-append :
    (c : ℕ) (xs ys : Bytes)
    → contains_byte c xs ≡ false
    → index_of c (xs ++ c ∷ ys) ≡ some (length xs)
unfolding index_of contains_byte
index_of-append c [] ys h = ground arith
index_of-append c (x ∷ xs) ys h = elim (Bool-cases (x == c)) [
  | inl here ↦ absurd (cc (rw here at h))
  | inr there ↦ rw (there, index_of-append c xs ys (rw there at h))
]

last_index_of-none : (c : ℕ) (ys : Bytes) → contains_byte c ys ≡ false → last_index_of c ys ≡ none
unfolding last_index_of later_or contains_byte
last_index_of-none c [] h = refl
last_index_of-none c (y ∷ ys) h = elim (Bool-cases (y == c)) [
  | inl here ↦ absurd (cc (rw here at h))
  | inr there ↦ rw (last_index_of-none c ys (rw there at h), there)
]

last_index_of-append :
    (c : ℕ) (xs ys : Bytes)
    → contains_byte c ys ≡ false
    → last_index_of c (xs ++ c ∷ ys) ≡ some (length xs)
unfolding last_index_of later_or
last_index_of-append c [] ys h = rw (last_index_of-none c ys h) (ground arith)
last_index_of-append c (x ∷ xs) ys h = rw (last_index_of-append c xs ys h)

-- Any encoding without a '+', joined by '+' to any suffix and to "v2", is split into the two.
pub alg_split-join :
    (prefix suffix : Bytes)
    → contains_byte plus prefix ≡ false
    → alg_split (prefix ++ plus ∷ (suffix ++ codes "+v2")) ≡ some (prefix, suffix)
unfolding alg_split split_at contains_byte
alg_split-join prefix suffix clean =
    let v2 = codes "v2" in
    let alg = prefix ++ plus ∷ (suffix ++ codes "+v2") in
    let body = prefix ++ plus ∷ suffix in
    let whole : body ++ plus ∷ v2 ≡ alg = append_assoc prefix (plus ∷ suffix) (plus ∷ v2) in
    let first = index_of-append plus prefix (suffix ++ codes "+v2") clean in
    let last : last_index_of plus alg ≡ some (length body) =
      rw (sym whole) (last_index_of-append plus body v2 refl) in
    let longer : length body ≡ length prefix + suc (length suffix) =
      length-append prefix (plus ∷ suffix) in
    let apart : (length body == length prefix) ≡ false = ground arith in
    let size : length body - length prefix - 1 ≡ length suffix = omega (arith, longer) in
    let version : drop (length body + 1) alg ≡ v2 =
      sym (drop-drop 1 (length body) alg)
      ∙ ap (drop 1) (ap (drop (length body)) (sym whole))
      ∙ ap (drop 1) (drop-append_self body (plus ∷ v2)) in
    let behind : drop (length prefix + 1) alg ≡ suffix ++ codes "+v2" =
      sym (drop-drop 1 (length prefix) alg)
      ∙ ap (drop 1) (drop-append_self prefix (plus ∷ (suffix ++ codes "+v2"))) in
    let front = take-append_self prefix (plus ∷ (suffix ++ codes "+v2")) in
    let middle = take-append_self suffix (codes "+v2") in
    rw (first, last, apart, version, bytes_eq_refl v2, size, behind, front, middle)
