-- ===== src/Fingerprint/Lexical.antt =====
-- The comparison of components is the lexicographic order of their bytes.
use mathlib.Core.List.{Pairwise, Perm, mem-cons_self, forall_mem-cons}
use mathlib.Core.List.Pairwise
use mathlib.Core.List.Perm
use tamga_c.Prelude.{
  ℕ, zero, suc, ◌≡◌, ◌≢◌, inl, inr, refl, ◌∙◌, arith, List, [], ◌∷◌, ltb, if◌then◌else◌, length,
  take, Bytes, Bool-cases,
}
use tamga_c.Fingerprint.{Order, before, same, after, memcmp, by_length, compare_text}

-- A text stands before those that extend it, and a smaller byte decides.
unfoldable pub lex : Bytes → Bytes → Order
lex [] [] = same
lex [] (y ∷ ys) = before
lex (x ∷ xs) [] = after
lex (x ∷ xs) (y ∷ ys) = if ltb x y then before else if ltb y x then after else lex xs ys

compared : ℕ → ℕ → ℕ → Bytes → Bytes → Order
compared k a b x y = by_length a b (memcmp (take k x) (take k y))

by_length-suc : (a b : ℕ) (o : Order) → by_length (suc a) (suc b) o ≡ by_length a b o
unfolding by_length
by_length-suc a b before = refl
by_length-suc a b after = refl
by_length-suc a b same = ground arith

compared-lex :
    (x y : Bytes) (k : ℕ)
    → k ≡ (if ltb (length x) (length y) then length x else length y)
    → compared k (length x) (length y) x y ≡ lex x y
unfolding compared lex by_length memcmp
compared-lex [] [] k e = ground arith
compared-lex [] (y ∷ ys) k e = ground arith
compared-lex (x ∷ xs) [] zero e = ground arith
compared-lex (x ∷ xs) [] (suc k) e = ground arith
compared-lex (x ∷ xs) (y ∷ ys) zero e = absurd (ground arith)
compared-lex (x ∷ xs) (y ∷ ys) (suc k) e =
    let smaller : k ≡ (if ltb (length xs) (length ys) then length xs else length ys) =
      ground arith in
    let rest =
      by_length-suc (length xs) (length ys) (memcmp (take k xs) (take k ys))
      ∙ compared-lex xs ys k smaller in
    elim (Bool-cases (ltb x y)) [
      | inl less ↦ rw less refl
      | inr more ↦ elim (Bool-cases (ltb y x)) [
        | inl greater ↦ rw (more, greater) refl
        | inr equal ↦ rw (more, equal) rest
      ]
    ]

-- The comparison that the program sorts by is the lexicographic order of the texts by bytes, one that
-- ends first being the smaller.
pub compare_text-lex : (x y : Bytes) → compare_text x y ≡ lex x y
unfolding compare_text compared memcmp
compare_text-lex x y =
    let k = if ltb (length x) (length y) then length x else length y in
    elim (Bool-cases (ltb 0 k)) [
      | inl longer ↦ rw longer (compared-lex x y k refl)
      | inr none_left ↦ rw none_left (compared-lex x y 0 (ground arith))
    ]

infix 50 ◌≼◌
abbrev pub ◌≼◌ : Bytes → Bytes → Type 0
x ≼ y = lex x y ≢ after

pub ≼_refl : (x : Bytes) → x ≼ x
unfolding lex
≼_refl [] h = cc
≼_refl (x ∷ xs) h = ≼_refl xs (ground arith)

pub ≼_antisym : (x y : Bytes) → x ≼ y → y ≼ x → x ≡ y
unfolding lex
≼_antisym [] [] h k = refl
≼_antisym [] (y ∷ ys) h k = absurd (k refl)
≼_antisym (x ∷ xs) [] h k = absurd (h refl)
≼_antisym (x ∷ xs) (y ∷ ys) h k = elim (Bool-cases (ltb x y)) [
  | inl less ↦ absurd (k (ground arith))
  | inr more ↦ elim (Bool-cases (ltb y x)) [
    | inl greater ↦ absurd (h (ground arith))
    | inr equal ↦
        let rest = ≼_antisym xs ys (ground arith) (ground arith) in
        let first : x ≡ y = ground arith in cc
  ]
]

pub ≼_trans : (x y z : Bytes) → x ≼ y → y ≼ z → x ≼ z
unfolding lex
≼_trans [] [] z h k = k
≼_trans [] (y ∷ ys) [] h k = λ e. cc
≼_trans [] (y ∷ ys) (z ∷ zs) h k = λ e. cc
≼_trans (x ∷ xs) [] z h k = absurd (h refl)
≼_trans (x ∷ xs) (y ∷ ys) [] h k = absurd (k refl)
≼_trans (x ∷ xs) (y ∷ ys) (z ∷ zs) h k = ground (arith, ≼_trans xs ys zs)

-- A list of texts has one ascending order.
abbrev pub IsAscending : List Bytes → Type 0
IsAscending = Pairwise ◌≼◌

heads_le :
    {a b : Bytes} {xs ys : List Bytes} → IsAscending (a ∷ xs) → Perm (b ∷ ys) (a ∷ xs) → a ≼ b
heads_le {a} {b} (Pairwise.cons below rest) p =
    (forall_mem-cons (λ x. hlevel)).1 (≼_refl a, below) b ((Perm.mem_iff p).0 mem-cons_self)

pub IsAscending-eq_of_perm :
    {xs ys : List Bytes} → IsAscending xs → IsAscending ys → Perm xs ys → xs ≡ ys
IsAscending-eq_of_perm {xs = []} _ _ p = Perm.nil-eq p
IsAscending-eq_of_perm {xs = a ∷ xs} {ys = []} _ _ p = Perm.eq-nil p
IsAscending-eq_of_perm {xs = a ∷ xs} {ys = b ∷ ys} s t p =
    let heads = ≼_antisym a b (heads_le s (Perm.symm p)) (heads_le t p) in
    let tails = Perm.cons_inv (Perm.trans p (Perm.symm (Perm.cons' heads Perm.rfl))) in
    let rest = IsAscending-eq_of_perm {xs = xs} (Pairwise.of_cons s) (Pairwise.of_cons t) tails in
    cc
