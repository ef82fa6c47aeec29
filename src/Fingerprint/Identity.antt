-- ===== src/Fingerprint/Identity.antt =====
-- When two calls of tamga_fingerprint_build_canonical give one string.
use mathlib.Core.List.{Pairwise, Perm}
use mathlib.Core.List.Pairwise
use mathlib.Core.List.Perm
use tamga_c.Prelude.{
  ℕ, ◌≡◌, ◌≢◌, ◌↔◌, refl, sym, ap, ◌∙◌, List, [], ◌∷◌, ◌++◌, map, Bytes, All, drop, length,
  drop-append_self,
}
use tamga_c.Memory.Exec.{Allocator, ok}
use tamga_c.Fingerprint.{Component, Qsort, after, compare, domain, build_canonical}
use tamga_c.Fingerprint.Lexical.{◌≼◌, compare_text-lex, IsAscending, IsAscending-eq_of_perm}
use tamga_c.Fingerprint.Entries.{
  Entry, Input, entry, IsEntry, line, component_of, joined, AreWhole, line-AreWhole, line-perm,
  joined-injective,
}
use tamga_c.Fingerprint.Built.{build_canonical-Canonical}

-- What the C library says of qsort with this comparison.
pub record Sorts (qsort : Qsort) : Type 0 where
  pub permutes : (cs : List Component) → Perm (qsort compare cs) cs
  pub ascends : (cs : List Component) → Pairwise (λ a b. compare a b ≢ after) (qsort compare cs)

abbrev pub texts : List Component → List Bytes
texts cs = map (λ c. c.text) cs

compare-≼ : (a b : Component) → compare a b ≢ after → a.text ≼ b.text
unfolding compare
compare-≼ a b h e = h (compare_text-lex a.text b.text ∙ e)

texts-IsAscending :
    (cs : List Component) → Pairwise (λ a b. compare a b ≢ after) cs → IsAscending (texts cs)
texts-IsAscending cs h =
    Pairwise.map' {S = ◌≼◌} (λ c. c.text) (λ a b. hlevel) (Pairwise.imp compare-≼ h)

pub texts-component_of : (es : List Entry) → texts (map component_of es) ≡ map line es
texts-component_of [] = refl
texts-component_of (e ∷ es) = ap (◌∷◌ (line e)) (texts-component_of es)

module _ (qsort : Qsort) (sorts : Sorts qsort) (es : List Entry) where
  abbrev pub sorted_texts : List Bytes
  sorted_texts = texts (qsort compare (map component_of es))

  pub sorted_texts-perm : Perm sorted_texts (map line es)
  sorted_texts-perm =
      rw (sym (texts-component_of es))
        (Perm.map (λ c. c.text) (sorts.permutes (map component_of es)))

  pub sorted_texts-IsAscending : IsAscending sorted_texts
  sorted_texts-IsAscending = texts-IsAscending _ (sorts.ascends (map component_of es))

  pub sorted_texts-AreWhole : All IsEntry es → AreWhole sorted_texts
  sorted_texts-AreWhole h t m = line-AreWhole es h t ((Perm.mem_iff sorted_texts-perm).0 m)

-- Two sets of components have one canonical string exactly where they are the same labels with the
-- same trimmed values, in any order: no order that a caller lists them in makes a second machine, and
-- no two machines share a string. It holds for any two runs that succeed, on any allocators, with any
-- qsort that sorts.
pub build_canonical_iff :
    (qsort qsort' : Qsort) (inputs inputs' : List Input) (m m' : Allocator) (n n' : ℕ)
    (s s' : Bytes)
    → Sorts qsort
    → Sorts qsort'
    → (build_canonical qsort inputs m n).0 ≡ ok s
    → (build_canonical qsort' inputs' m' n').0 ≡ ok s'
    → (s ≡ s') ↔ Perm (map entry inputs) (map entry inputs')
build_canonical_iff qsort qsort' inputs inputs' m m' n n' s s' sorts sorts' h h' =
    let a = build_canonical-Canonical qsort inputs m n s h in
    let b = build_canonical-Canonical qsort' inputs' m' n' s' h' in
    let es = map entry inputs in
    let fs = map entry inputs' in
    let p = sorted_texts-perm qsort sorts es in
    let q = sorted_texts-perm qsort' sorts' fs in
    (
      (λ same.
          let tails =
            sym (drop-append_self domain _)
            ∙ ap (drop (length domain)) (sym a.text ∙ same ∙ b.text)
            ∙ drop-append_self domain _ in
          let one =
            joined-injective _ _ (sorted_texts-AreWhole qsort sorts es a.entries)
              (sorted_texts-AreWhole qsort' sorts' fs b.entries) tails in
          line-perm es fs a.entries b.entries (Perm.trans (Perm.symm p) (rw one q))),
      (λ perm.
          let one =
            IsAscending-eq_of_perm (sorted_texts-IsAscending qsort sorts es)
              (sorted_texts-IsAscending qsort' sorts' fs)
              (Perm.trans p (Perm.trans (Perm.map line perm) (Perm.symm q))) in
          a.text ∙ ap (λ ts. domain ++ joined ts) one ∙ sym b.text),
    )
