-- ===== src/Fingerprint/Runs/Insertion.antt =====
-- Insertion sort: a qsort for the runs.
use mathlib.Core.List.{Pairwise, Perm, forall_mem-cons, not-mem-nil}
use mathlib.Core.List.Perm
use tamga_c.Prelude.{
  ◌≡◌, ◌≢◌, inl, inr, refl, sym, ◌∙◌, Bool, true, false, arith, List, [], ◌∷◌, if◌then◌else◌, Bytes,
  Bool-cases,
}
use tamga_c.Fingerprint.{Component, Qsort, Order, before, same, after, compare}
use tamga_c.Fingerprint.Lexical.{lex, compare_text-lex, ≼_trans}
use tamga_c.Fingerprint.Identity.{Sorts}

abbrev is_after : Order → Bool
is_after after = true
is_after before = false
is_after same = false

unfoldable pub insert :
    (Component → Component → Order) → Component → List Component → List Component
insert cmp c [] = c ∷ []
insert cmp c (d ∷ ds) =
    let rest = insert cmp c ds in if is_after (cmp c d) then d ∷ rest else c ∷ d ∷ ds

unfoldable pub insertion_sort : Qsort
insertion_sort cmp [] = []
insertion_sort cmp (c ∷ cs) = insert cmp c (insertion_sort cmp cs)

insert-perm :
    (cmp : Component → Component → Order) (c : Component) (ds : List Component)
    → Perm (insert cmp c ds) (c ∷ ds)
unfolding insert
insert-perm cmp c [] = Perm.rfl
insert-perm cmp c (d ∷ ds) = elim (Bool-cases (is_after (cmp c d))) [
  | inl later ↦ rw later (Perm.trans (Perm.cons d (insert-perm cmp c ds)) (Perm.swap c d ds))
  | inr sooner ↦ rw sooner Perm.rfl
]

abbrev Le : Component → Component → Type 0
Le a b = compare a b ≢ after

lex_flip : (x y : Bytes) → lex x y ≡ after → lex y x ≢ after
unfolding lex
lex_flip [] [] h = λ e. cc
lex_flip [] (y ∷ ys) h = λ e. cc
lex_flip (x ∷ xs) [] h = λ e. cc
lex_flip (x ∷ xs) (y ∷ ys) h = ground (arith, lex_flip xs ys)

le_flip : (a b : Component) → is_after (compare a b) ≡ true → Le b a
unfolding compare
le_flip a b h e =
    lex_flip a.text b.text (sym (compare_text-lex a.text b.text) ∙ afterwards _ h)
      (sym (compare_text-lex b.text a.text) ∙ e)
  where
    afterwards : (o : Order) → is_after o ≡ true → o ≡ after
    afterwards after h = refl
    afterwards before h = cc
    afterwards same h = cc

le_trans : (a b c : Component) → Le a b → Le b c → Le a c
unfolding compare
le_trans a b c h k e =
    ≼_trans a.text b.text c.text (λ f. h (compare_text-lex a.text b.text ∙ f))
      (λ f. k (compare_text-lex b.text c.text ∙ f)) (sym (compare_text-lex a.text c.text) ∙ e)

insert-Pairwise :
    (c : Component) (ds : List Component) → Pairwise Le ds → Pairwise Le (insert compare c ds)
unfolding insert
insert-Pairwise c [] p = Pairwise.cons (λ d m. absurd (not-mem-nil m)) Pairwise.nil
insert-Pairwise c (d ∷ ds) (Pairwise.cons below more) = elim (Bool-cases (is_after (compare c d))) [
  | inl later ↦ rw later (
      Pairwise.cons
        (λ e m.
          (forall_mem-cons (λ x. hlevel)).1 (le_flip c d later, below) e
            ((Perm.mem_iff (insert-perm compare c ds)).0 m))
        (insert-Pairwise c ds more))
  | inr sooner ↦
      let first : Le c d = λ e. cc (sooner, e) in
      rw sooner (
        Pairwise.cons
          ((forall_mem-cons (λ x. hlevel)).1 (first, λ e m. le_trans c d e first (below e m)))
          (Pairwise.cons below more))
]

pub insertion_sort-Sorts : Sorts insertion_sort
unfolding insertion_sort
insertion_sort-Sorts = record { permutes = permutes; ascends = ascends }
  where
    permutes : (cs : List Component) → Perm (insertion_sort compare cs) cs
    permutes [] = Perm.rfl
    permutes (c ∷ cs) = Perm.trans (insert-perm compare c _) (Perm.cons c (permutes cs))

    ascends : (cs : List Component) → Pairwise Le (insertion_sort compare cs)
    ascends [] = Pairwise.nil
    ascends (c ∷ cs) = insert-Pairwise c _ (ascends cs)
