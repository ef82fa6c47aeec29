-- ===== src/Fingerprint/Labels.antt =====
-- tamga_fp_reject_duplicates: one pass over neighbours finds every label that is there twice.
use mathlib.Core.List.{
  Pairwise, Perm, Mem, mem-cons_self, forall_mem-cons, not-mem-nil, mem-map_of_mem,
  rel_of_Pairwise-cons,
}
use mathlib.Core.List.Perm
use mathlib.Core.Path.{subst}
use native.Mathlib.Bridge.{le_prop}
use tamga_c.Prelude.{
  ◌≡◌, ◌≢◌, ◌↔◌, inl, inr, refl, sym, ap, ◌∙◌, Bool, true, false, ◌||◌, arith, List, [], ◌∷◌, ◌++◌,
  map, ltb, Bytes, All, length, take, take-append_self, bytes_eq, bytes_eq_iff, Bool-cases,
}
use mathlib.Core.List.{append_assoc}
use tamga_c.Fingerprint.{Component, Qsort, compare, equals, is_repeated, has_duplicates}
use tamga_c.Fingerprint.Lexical.{◌≼◌, lex, IsAscending}
use tamga_c.Fingerprint.Entries.{
  Entry, IsEntry, line, component_of, until, until-append, label-equals, parts, parts-line,
}
use tamga_c.Fingerprint.Identity.{Sorts, texts, texts-component_of, sorted_texts-IsAscending}

-- Between two texts that begin alike, every text begins so.
between_prefix : (p v w y : Bytes) → (p ++ v) ≼ y → y ≼ (p ++ w) → (z : Bytes) × (y ≡ p ++ z)
unfolding lex
between_prefix [] v w y h k = (y, refl)
between_prefix (x ∷ p) v w [] h k = absurd (h refl)
between_prefix (x ∷ p) v w (b ∷ ys) h k = elim (Bool-cases (ltb x b)) [
  | inl less ↦ absurd (k (ground arith))
  | inr more ↦ elim (Bool-cases (ltb b x)) [
    | inl greater ↦ absurd (h (ground arith))
    | inr equal ↦
        let (z, rest) = between_prefix p v w ys (ground arith) (ground arith) in
        let first : b ≡ x = ground arith in (z, cc)
  ]
]

-- So a label that stands on both sides of a component is its own.
between_label :
    (a b c : Entry)
    → IsEntry a
    → IsEntry b
    → a.0 ≡ c.0
    → line a ≼ line b
    → line b ≼ line c
    → b.0 ≡ a.0
between_label a b c ha hb same h k =
    let p = a.0 ++ equals ∷ [] in
    let low : line a ≡ p ++ a.1 = sym (append_assoc a.0 (equals ∷ []) a.1) in
    let high : line c ≡ p ++ c.1 =
      ap (λ l. l ++ equals ∷ c.1) (sym same) ∙ sym (append_assoc a.0 (equals ∷ []) c.1) in
    let (z, text) = between_prefix p a.1 c.1 (line b) (rw low at h) (rw high at k) in
    sym (until-append equals b.0 b.1 (label-equals b.0 hb.label))
    ∙ ap (until equals) (text ∙ append_assoc a.0 (equals ∷ []) z)
    ∙ until-append equals a.0 z (label-equals a.0 ha.label)

is_repeated_iff :
    (a b : Entry) → (is_repeated (component_of a) (component_of b) ≡ true) ↔ (a.0 ≡ b.0)
unfolding is_repeated
is_repeated_iff a b = (
  λ h.
      let lengths : length b.0 ≡ length a.0 = ground arith in
      let spans : bytes_eq (take (length b.0) (line a)) (take (length b.0) (line b)) ≡ true =
        ground arith in
      let found = (bytes_eq_iff _ _).0 spans in
      sym (take-append_self a.0 (equals ∷ a.1))
      ∙ ap (λ k. take k (line a)) (sym lengths)
      ∙ found
      ∙ take-append_self b.0 (equals ∷ b.1),
  λ e.
      let left =
        ap (λ k. take k (line a)) (sym (ap length e)) ∙ take-append_self a.0 (equals ∷ a.1) in
      let spans =
        (bytes_eq_iff (take (length b.0) (line a)) (take (length b.0) (line b))).1
          (left ∙ e ∙ sym (take-append_self b.0 (equals ∷ b.1))) in
      let lengths : length a.0 ≡ length b.0 = ap length e in ground (arith, spans),
)

abbrev pub AreDistinct : List Entry → Type 0
AreDistinct = Pairwise (λ a b. a.0 ≢ b.0)

or_left : (x y : Bool) → (x || y) ≡ false → x ≡ false
or_left false y h = refl
or_left true y h = h

or_right : (x y : Bool) → (x || y) ≡ false → y ≡ false
or_right false y h = h
or_right true y h = cc

neither : (x : Bool) → x ≢ true → x ≡ false
neither false h = refl
neither true h = absurd (h refl)

no_neighbours :
    (es : List Entry)
    → All IsEntry es
    → IsAscending (map line es)
    → has_duplicates (map component_of es) ≡ false
    → AreDistinct es
unfolding has_duplicates
no_neighbours [] good asc h = Pairwise.nil
no_neighbours (a ∷ []) good asc h = Pairwise.cons (λ c m. absurd (not-mem-nil m)) Pairwise.nil
no_neighbours (a ∷ b ∷ es) (ha, good) (Pairwise.cons below rest) h =
    let apart : a.0 ≢ b.0 = λ e. cc (
      or_left (is_repeated (component_of a) (component_of b))
          (has_duplicates (map component_of (b ∷ es))) h,
      (is_repeated_iff a b).1 e,
    ) in
    Pairwise.cons
      ((forall_mem-cons (λ c. hlevel)).1 (
        apart,
        λ c m same. apart (
            sym (
              between_label a b c ha good.0 same (below (line b) mem-cons_self)
                (rel_of_Pairwise-cons rest (mem-map_of_mem line m)))),
      ))
      (no_neighbours (b ∷ es) good rest (
        or_right (is_repeated (component_of a) (component_of b))
          (has_duplicates (map component_of (b ∷ es))) h))

distinct_neighbours :
    (es : List Entry) → AreDistinct es → has_duplicates (map component_of es) ≡ false
unfolding has_duplicates
distinct_neighbours [] d = refl
distinct_neighbours (a ∷ []) d = refl
distinct_neighbours (a ∷ b ∷ es) (Pairwise.cons h d) =
    let apart = neither _ (λ e. h b mem-cons_self ((is_repeated_iff a b).0 e)) in
    rw (apart, distinct_neighbours (b ∷ es) d)

-- A component of a sorted list, as the entry that it holds.
entry_of : Component → Entry
entry_of c = parts c.text

holds-component_of :
    (e : Entry) → IsEntry e → component_of (entry_of (component_of e)) ≡ component_of e
unfolding entry_of
holds-component_of e h = ap component_of (parts-line e h)

all_hold :
    (es : List Entry)
    → All IsEntry es
    → (c : Component) → Mem c (map component_of es)
    → component_of (entry_of c) ≡ c
all_hold [] h = λ c m. absurd (not-mem-nil m)
all_hold (e ∷ es) (p, h) = (forall_mem-cons (λ c. hlevel)).1 (holds-component_of e p, all_hold es h)

all_cons :
    (c : Component) (cs : List Component)
    → ((d : Component) → Mem d (c ∷ cs) → component_of (entry_of d) ≡ d)
    → (component_of (entry_of c) ≡ c) × ((d : Component) → Mem d cs → component_of (entry_of d) ≡ d)
all_cons c cs h = (forall_mem-cons (λ d. hlevel)).0 h

entries_held :
    (cs : List Component)
    → ((c : Component) → Mem c cs → component_of (entry_of c) ≡ c)
    → map component_of (map entry_of cs) ≡ cs
entries_held [] h = refl
entries_held (c ∷ cs) h =
    let (first, more) = all_cons c cs h in let rest = entries_held cs more in cc

entries_back : (es : List Entry) → All IsEntry es → map entry_of (map component_of es) ≡ es
unfolding entry_of
entries_back [] h = refl
entries_back (e ∷ es) (p, h) = let first = parts-line e p in let rest = entries_back es h in cc

IsEntry-prop : (e : Entry) → IsProp (IsEntry e)
IsEntry-prop e = hlevel (le_prop)

all_of : (es : List Entry) → All IsEntry es → (e : Entry) → Mem e es → IsEntry e
all_of [] h = λ e m. absurd (not-mem-nil m)
all_of (f ∷ es) (p, h) = (forall_mem-cons IsEntry-prop).1 (p, all_of es h)

all_back : (es : List Entry) → ((e : Entry) → Mem e es → IsEntry e) → All IsEntry es
all_back [] h = tt
all_back (f ∷ es) h = let (p, more) = (forall_mem-cons IsEntry-prop).0 h in (p, all_back es more)

all_perm : (es fs : List Entry) → Perm fs es → All IsEntry es → All IsEntry fs
all_perm es fs p h = all_back fs (λ e m. all_of es h e ((Perm.mem_iff p).0 m))

-- On components that are valid each by itself, the pass over the neighbours of the sorted list finds
-- nothing exactly where no two of them share a label, whatever their values and their order are.
pub has_duplicates_iff :
    (qsort : Qsort) (es : List Entry)
    → Sorts qsort
    → All IsEntry es
    → (has_duplicates (qsort compare (map component_of es)) ≡ false) ↔ AreDistinct es
has_duplicates_iff qsort es sorts good =
    let sorted = qsort compare (map component_of es) in
    let p = sorts.permutes (map component_of es) in
    let fs = map entry_of sorted in
    let same = entries_held sorted (λ c m. all_hold es good c ((Perm.mem_iff p).0 m)) in
    let q : Perm fs es = subst (Perm fs) (entries_back es good) (Perm.map entry_of p) in
    let ascending : IsAscending (map line fs) =
      subst IsAscending (ap texts (sym same) ∙ texts-component_of fs)
        (sorted_texts-IsAscending qsort sorts es) in
    (
      λ h.
          Perm.pairwise (λ a b. hlevel) (λ a b r e. r (sym e)) q
            (no_neighbours fs (all_perm es fs q good) ascending (rw same h)),
      λ d. rw (sym same) (
          distinct_neighbours fs
            (Perm.pairwise (λ a b. hlevel) (λ a b r e. r (sym e)) (Perm.symm q) d)),
    )
