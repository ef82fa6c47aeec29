-- ===== src/Checkout/MachineFile/Algorithm/Parts.antt =====
-- The parts that an algorithm name is split into.
use mathlib.Core.Path.{subst}
use mathlib.Core.Option.{some-injective}
use tamga_c.Prelude.{
  ℕ, suc, ◌+◌, ◌-◌, ◌≤◌, ◌<◌, ◌≡◌, inl, inr, refl, false, none, some, arith, [], ◌∷◌, ◌++◌, ◌==◌,
  take, drop, Bytes, bytes_eq, bytes_eq_iff, contains_byte, Bool-cases, Option-cases, codes,
  take-append-drop, drop-drop,
}
use tamga_c.Prelude.Options.{>>=-eq-some}
use tamga_c.Checkout.MachineFile.Algorithm.{
  plus, index_of, later_or, last_index_of, split_at, alg_split,
}

-- The first position of a byte, and no such byte before it.
pub index_of_lem :
    (c : ℕ) (xs : Bytes) (i : ℕ)
    → index_of c xs ≡ some i
    → (drop i xs ≡ c ∷ drop (suc i) xs) × (contains_byte c (take i xs) ≡ false)
unfolding index_of contains_byte
index_of_lem c [] i h = cc
index_of_lem c (x ∷ xs) i h = elim (Bool-cases (x == c)) [
  | inl here ↦
      let first : 0 ≡ i = some-injective _ _ (rw here at h) in
      subst (λ i. (drop i (x ∷ xs) ≡ c ∷ drop i xs) × (contains_byte c (take i (x ∷ xs)) ≡ false))
        first (ground arith, refl)
  | inr there ↦
      let (j, later, e) = >>=-eq-some (index_of c xs) _ (rw there at h) in
      let next : suc j ≡ i = some-injective _ _ e in
      let (at, before) = index_of_lem c xs j later in
      subst (λ i. (drop i (x ∷ xs) ≡ c ∷ drop i xs) × (contains_byte c (take i (x ∷ xs)) ≡ false))
        next (at, rw there before)
]

last_index_of_lem :
    (c : ℕ) (xs : Bytes) (j : ℕ) → last_index_of c xs ≡ some j → drop j xs ≡ c ∷ drop (suc j) xs
unfolding last_index_of later_or
last_index_of_lem c [] j h = cc
last_index_of_lem c (x ∷ xs) j h = elim (Option-cases (last_index_of c xs)) [
  | inr (k, later) ↦
      subst (λ j. drop j (x ∷ xs) ≡ c ∷ drop j xs) (some-injective _ _ (rw later at h))
        (last_index_of_lem c xs k later)
  | inl none_later ↦ elim (Bool-cases (x == c)) [
    | inl here ↦
        subst (λ j. drop j (x ∷ xs) ≡ c ∷ drop j xs)
          (some-injective _ _ (rw (none_later, here) at h)) (ground arith)
    | inr nowhere ↦ absurd (cc (rw (none_later, nowhere) at h))
  ]
]

none_last : (c : ℕ) (xs : Bytes) → last_index_of c xs ≡ none → index_of c xs ≡ none
unfolding index_of last_index_of later_or
none_last c [] h = refl
none_last c (x ∷ xs) h = elim (Option-cases (last_index_of c xs)) [
  | inr (k, later) ↦ absurd (cc (rw later at h))
  | inl none_later ↦ elim (Bool-cases (x == c)) [
    | inl here ↦ absurd (cc (rw (none_later, here) at h))
    | inr nowhere ↦ rw (nowhere, none_last c xs none_later)
  ]
]

first-le-last :
    (c : ℕ) (xs : Bytes) (i j : ℕ) → index_of c xs ≡ some i → last_index_of c xs ≡ some j → i ≤ j
unfolding index_of last_index_of later_or
first-le-last c [] i j h k = cc
first-le-last c (x ∷ xs) i j h k = elim (Bool-cases (x == c)) [
  | inl here ↦ let first : 0 ≡ i = some-injective _ _ (rw here at h) in omega arith
  | inr there ↦
      let (i', early, e) = >>=-eq-some (index_of c xs) _ (rw there at h) in
      let next : suc i' ≡ i = some-injective _ _ e in
      elim (Option-cases (last_index_of c xs)) [
        | inl none_later ↦ absurd (cc (none_last c xs none_later, early))
        | inr (j', later) ↦
            let last : suc j' ≡ j = some-injective _ _ (rw later at k) in
            omega (arith, first-le-last c xs i' j' early later)
      ]
]

-- What is split off at two positions is joined again by what stands at them.
join_lem :
    (alg : Bytes) (first last : ℕ)
    → first < last
    → drop first alg ≡ plus ∷ drop (suc first) alg
    → drop last alg ≡ plus ∷ drop (suc last) alg
    → drop (suc last) alg ≡ codes "v2"
    → alg ≡ take first alg ++ plus ∷ (take (last - first - 1) (drop (suc first) alg) ++ codes "+v2")
join_lem alg first last less at_first at_last version =
    let k = last - first - 1 in
    let sum : suc first + k ≡ last = omega arith in
    cc (
      take-append-drop first alg,
      take-append-drop k (drop (suc first) alg),
      drop-drop k (suc first) alg,
      sum,
      at_first,
      at_last,
      version,
    )

-- An algorithm that is split is its encoding, which has no '+', its suffix and "v2", joined by '+'.
pub alg_split_sound :
    (alg prefix suffix : Bytes)
    → alg_split alg ≡ some (prefix, suffix)
    → (alg ≡ prefix ++ plus ∷ (suffix ++ codes "+v2")) × (contains_byte plus prefix ≡ false)
unfolding alg_split split_at
alg_split_sound alg prefix suffix h =
    let (first, h0, k0) = >>=-eq-some (index_of plus alg) _ h in
    let (last, h1, k1) = >>=-eq-some (last_index_of plus alg) _ k0 in
    let (at_first, clean) = index_of_lem plus alg first h0 in
    let at_last = last_index_of_lem plus alg last h1 in
    let le = first-le-last plus alg first last h0 h1 in
    let after_last : last + 1 ≡ suc last = omega arith in
    let after_first : first + 1 ≡ suc first = omega arith in
    elim (Bool-cases (last == first)) [
      | inl one ↦ absurd (cc (rw one at k1))
      | inr two ↦
          let less : first < last = ground arith in
          elim (Bool-cases (bytes_eq (drop (suc last) alg) (codes "v2"))) [
            | inr other ↦ absurd (cc (rw (two, after_last, other) at k1))
            | inl v2 ↦
                let same : (take first alg, take (last - first - 1) (drop (suc first) alg))
                    ≡ (prefix, suffix) =
                  some-injective _ _ (rw (two, after_last, v2, after_first) at k1) in
                subst
                  (λ (o : Bytes × Bytes).
                    (alg ≡ o.0 ++ plus ∷ (o.1 ++ codes "+v2")) × (contains_byte plus o.0 ≡ false))
                  same
                  (
                    join_lem alg first last less at_first at_last
                        ((bytes_eq_iff (drop (suc last) alg) (codes "v2")).0 v2),
                    clean,
                  )
          ]
    ]
