-- ===== src/Json/Write/Sort/Ordered.antt =====
-- The merge sort sorts: for any total preorder its result is an ascending permutation.
use mathlib.Core.List.{
  Pairwise, Pairwise-cons, Perm, Mem, perm_middle, append-nil, append_assoc, mem-append,
  forall_mem-cons, not-mem-nil,
}
use mathlib.Core.List.Perm
use mathlib.Core.Logic.Or
use tamga_c.Prelude.{
  ℕ, zero, suc, ◌+◌, ◌*◌, ◌≤◌, ◌≡◌, refl, sym, ap, ◌∙◌, Bool, true, false, inl, inr, arith, List,
  [], ◌∷◌, ◌++◌, ltb, length, length-append, take, drop, take-append_self, drop-append_self,
  Bool-cases,
}
use tamga_c.Json.Write.Sort.{merge, merge_pass, merge_passes}

module _ (le : ℕ → ℕ → Bool) (total : (x y : ℕ) → le x y ≡ false → le y x ≡ true)
    (transitive : (x y z : ℕ) → le x y ≡ true → le y z ≡ true → le x z ≡ true)
    (reflexive : (x : ℕ) → le x x ≡ true) where
  abbrev IsBelow : ℕ → List ℕ → Type 0
  IsBelow x ys = (y : ℕ) → Mem y ys → le x y ≡ true

  abbrev pub Ascends : List ℕ → Type 0
  Ascends = Pairwise (λ x y. le x y ≡ true)

  IsBelow-head : (x y : ℕ) (ys : List ℕ) → le x y ≡ true → Ascends (y ∷ ys) → IsBelow x (y ∷ ys)
  IsBelow-head x y ys h (Pairwise.cons below rest) =
      (forall_mem-cons (λ z. hlevel)).1 (h, λ z m. transitive x y z h (below z m))

  IsBelow-append : (x : ℕ) (ys zs : List ℕ) → IsBelow x ys → IsBelow x zs → IsBelow x (ys ++ zs)
  IsBelow-append x ys zs h k z m = Or.elim (hlevel) (mem-append.0 m) (h z) (k z)

  IsBelow-perm : (x : ℕ) (ys zs : List ℕ) → Perm ys zs → IsBelow x zs → IsBelow x ys
  IsBelow-perm x ys zs p h z m = h z ((Perm.mem_iff p).0 m)

  merge-perm : (xs ys : List ℕ) → Perm (merge le xs ys) (xs ++ ys)
  unfolding merge
  merge-perm [] ys = Perm.rfl
  merge-perm (x ∷ xs) [] = rw (append-nil xs) Perm.rfl
  merge-perm (x ∷ xs) (y ∷ ys) = elim (Bool-cases (le x y)) [
    | inl first ↦ rw (merge, first) (Perm.cons x (merge-perm xs (y ∷ ys)))
    | inr second ↦
        rw (merge, second)
          (Perm.trans (Perm.cons y (merge-perm (x ∷ xs) ys)) (Perm.symm (perm_middle (x ∷ xs) ys)))
  ]

  merge-Ascends : (xs ys : List ℕ) → Ascends xs → Ascends ys → Ascends (merge le xs ys)
  unfolding merge
  merge-Ascends [] ys h k = k
  merge-Ascends (x ∷ xs) [] h k = h
  merge-Ascends (x ∷ xs) (y ∷ ys) h k =
      let (below_x, tail_x) = Pairwise-cons.0 h in
      let (below_y, tail_y) = Pairwise-cons.0 k in
      elim (Bool-cases (le x y)) [
        | inl first ↦
            rw (merge, first)
              (Pairwise.cons
                (IsBelow-perm x _ _ (merge-perm xs (y ∷ ys))
                  (IsBelow-append x xs (y ∷ ys) below_x (IsBelow-head x y ys first k)))
                (merge-Ascends xs (y ∷ ys) tail_x k))
        | inr second ↦
            rw (merge, second)
              (Pairwise.cons
                (IsBelow-perm y _ _ (merge-perm (x ∷ xs) ys)
                  (IsBelow-append y (x ∷ xs) ys (IsBelow-head y x xs (total x y second) h) below_y))
                (merge-Ascends (x ∷ xs) ys h tail_y))
      ]

  merge-length : (xs ys : List ℕ) → length (merge le xs ys) ≡ length xs + length ys
  unfolding merge
  merge-length [] ys = omega arith
  merge-length (x ∷ xs) [] = omega arith
  merge-length (x ∷ xs) (y ∷ ys) = elim (Bool-cases (le x y)) [
    | inl first ↦ rw (merge, first) (omega (arith, merge-length xs (y ∷ ys)))
    | inr second ↦ rw (merge, second) (omega (arith, merge-length (x ∷ xs) ys))
  ]

  merge_nil : (xs : List ℕ) → merge le xs [] ≡ xs
  unfolding merge
  merge_nil [] = refl
  merge_nil (x ∷ xs) = refl

  -- Ascending runs of a width, the last of which may be shorter.
  pub data AreRuns (width : ℕ) : List ℕ → Type 0 where
    final : (xs : List ℕ) → length xs ≤ width → Ascends xs → AreRuns width xs
    another :
        (xs ys : List ℕ)
        → length xs ≡ width
        → Ascends xs
        → AreRuns width ys
        → AreRuns width (xs ++ ys)

  take_all : (n : ℕ) (xs : List ℕ) → length xs ≤ n → (take n xs ≡ xs) × (drop n xs ≡ [])
  take_all zero [] h = (refl, refl)
  take_all zero (x ∷ xs) h = absurd (omega arith)
  take_all (suc n) [] h = (refl, refl)
  take_all (suc n) (x ∷ xs) h =
      let (taken, dropped) = take_all n xs (omega arith) in (ap (λ zs. x ∷ zs) taken, dropped)

  drop_more : (k n : ℕ) (xs ys : List ℕ) → length xs ≡ k → drop (k + n) (xs ++ ys) ≡ drop n ys
  drop_more k n [] ys e = let same : k + n ≡ n = omega arith in rw same refl
  drop_more zero n (x ∷ xs) ys e = absurd (omega arith)
  drop_more (suc k) n (x ∷ xs) ys e =
      let step : suc k + n ≡ suc (k + n) = omega arith in
      rw step (drop_more k n xs ys (omega arith))

  take_front : (k : ℕ) (xs ys : List ℕ) → length xs ≡ k → take k (xs ++ ys) ≡ xs
  take_front k xs ys e = rw⁻¹ e (take-append_self xs ys)

  drop_front : (k : ℕ) (xs ys : List ℕ) → length xs ≡ k → drop k (xs ++ ys) ≡ ys
  drop_front k xs ys e = rw⁻¹ e (drop-append_self xs ys)

  pass_pair :
      (fuel width : ℕ) (order xs ys zs : List ℕ)
      → take width order ≡ xs
      → take width (drop width order) ≡ ys
      → drop (width * 2) order ≡ zs
      → merge_pass le (suc fuel) width order ≡ merge le xs ys ++ merge_pass le fuel width zs
  unfolding merge_pass
  pass_pair fuel width order xs ys zs t u d = rw (t, u, d) refl

  pass_nil : (fuel width : ℕ) → merge_pass le fuel width [] ≡ []
  unfolding merge_pass
  pass_nil zero width = refl
  pass_nil (suc fuel) width =
      let (t, _) = take_all width [] (omega arith) in
      let (_, d) = take_all width [] (omega arith) in
      let (_, d') = take_all (width * 2) [] (omega arith) in
      rw (d, t, d', pass_nil fuel width, merge_nil) refl

  -- What a round makes of runs: a permutation of them, in runs of twice the width.
  abbrev Doubled : ℕ → List ℕ → List ℕ → Type 0
  Doubled width order out = AreRuns (width * 2) out × Perm out order × (length out ≡ length order)

  pass-final :
      (fuel width : ℕ) (xs : List ℕ)
      → length xs ≤ width
      → Ascends xs
      → Doubled width xs (merge_pass le (suc fuel) width xs)
  pass-final fuel width xs short up =
      let (t, d) = take_all width xs short in
      let (t', _) = take_all width [] (omega arith) in
      let (_, d') = take_all (width * 2) xs (omega arith) in
      let whole =
        pass_pair fuel width xs xs [] [] t (rw d t') d'
        ∙ rw (merge_nil, pass_nil) (append-nil xs) in
      rw whole (final xs (omega arith) up, Perm.rfl, refl)

  pass-two :
      (fuel width : ℕ) (xs ys : List ℕ)
      → length xs ≡ width
      → Ascends xs
      → length ys ≤ width
      → Ascends ys
      → Doubled width (xs ++ ys) (merge_pass le (suc fuel) width (xs ++ ys))
  pass-two fuel width xs ys full up short up' =
      let (t', _) = take_all width ys short in
      let d = drop_front width xs ys full in
      let (_, d') =
        take_all (width * 2) (xs ++ ys) (let l = length-append xs ys in omega (arith, l)) in
      let whole =
        pass_pair fuel width (xs ++ ys) xs ys [] (take_front width xs ys full) (rw d t') d'
        ∙ rw pass_nil (append-nil (merge le xs ys)) in
      rw whole (
        final (merge le xs ys) (let l = merge-length xs ys in omega (arith, l))
            (merge-Ascends xs ys up up'),
        merge-perm xs ys,
        merge-length xs ys ∙ sym (length-append xs ys),
      )

  pass-AreRuns :
      (fuel width : ℕ) (order : List ℕ)
      → 1 ≤ width
      → AreRuns width order
      → length order ≤ fuel
      → Doubled width order (merge_pass le fuel width order)
  pass-AreRuns zero width [] wide runs h =
      rw (pass_nil 0 width) (final [] (omega arith) Pairwise.nil, Perm.rfl, refl)
  pass-AreRuns zero width (x ∷ xs) wide runs h = absurd (omega arith)
  pass-AreRuns (suc fuel) width order wide (final xs short up) h =
      pass-final fuel width order short up
  pass-AreRuns (suc fuel) width order wide (another xs ys full up (final ys' short' up')) h =
      pass-two fuel width xs ys full up short' up'
  pass-AreRuns (suc fuel) width order wide (another xs ys full up (another ys' zs full' up' runs))
        h =
      let front = length-append xs (ys' ++ zs) in
      let back = length-append ys' zs in
      let (runs', perm, same) = pass-AreRuns fuel width zs wide runs (omega (arith, front, back)) in
      let d = drop_front width xs (ys' ++ zs) full in
      let two : width * 2 ≡ width + width = omega arith in
      let d' : drop (width * 2) (xs ++ (ys' ++ zs)) ≡ zs =
        rw two (drop_more width width xs (ys' ++ zs) full ∙ drop_front width ys' zs full') in
      let whole =
        pass_pair fuel width (xs ++ (ys' ++ zs)) xs ys' zs (take_front width xs (ys' ++ zs) full)
          (rw d (take_front width ys' zs full')) d' in
      let size = merge-length xs ys' in
      rw whole (
        another (merge le xs ys') (merge_pass le fuel width zs) (omega (arith, size))
            (merge-Ascends xs ys' up up') runs',
        rw⁻¹ (append_assoc xs ys' zs) (Perm.append (merge-perm xs ys') perm),
        (let l = length-append (merge le xs ys') (merge_pass le fuel width zs) in
            omega (arith, l, size, same, front, back)),
      )

  runs_ascend :
      (width : ℕ) (order : List ℕ) → AreRuns width order → length order ≤ width → Ascends order
  runs_ascend width order (final xs short up) h = up
  runs_ascend width order (another xs [] full up runs) h = rw (append-nil xs) up
  runs_ascend zero order (another xs (y ∷ ys) full up runs) h =
      let l = length-append xs (y ∷ ys) in absurd (omega (arith, l, h))
  runs_ascend (suc width) order (another xs (y ∷ ys) full up runs) h =
      let l = length-append xs (y ∷ ys) in absurd (omega (arith, l, h))

  -- The rounds with the fuel that is enough for the widths that are left.
  pub passes_sort :
      (fuel width : ℕ) (order : List ℕ)
      → 1 ≤ width
      → length order ≤ fuel + width
      → AreRuns width order
      → Ascends (merge_passes le fuel width order) × Perm (merge_passes le fuel width order) order
  unfolding merge_passes
  passes_sort zero width order wide h runs = (runs_ascend width order runs (omega arith), Perm.rfl)
  passes_sort (suc fuel) width order wide h runs = elim (Bool-cases (ltb width (length order))) [
    | inr enough ↦ rw enough (runs_ascend width order runs (ground (arith, enough)), Perm.rfl)
    | inl more ↦
        let (runs', perm, same) = pass-AreRuns (length order) width order wide runs (omega arith) in
        let (up, perm') =
          passes_sort fuel (width * 2) (merge_pass le (length order) width order) (omega arith)
            (omega (arith, same)) runs' in
        rw more (up, Perm.trans perm' perm)
  ]

  -- Every list has runs of width 1.
  pub singles : (order : List ℕ) → AreRuns 1 order
  singles [] = final [] (omega arith) Pairwise.nil
  singles (x ∷ xs) =
      another (x ∷ []) xs (omega arith) (Pairwise.cons (λ y m. absurd (not-mem-nil m)) Pairwise.nil)
        (singles xs)
