-- ===== src/Checkout/KeySet/Store/Keeps.antt =====
-- What adding keys does to the entries and to the capacity.
use tamga_c.Prelude.{
  ℕ, ◌+◌, ◌≤◌, ◌≡◌, ◌⊎◌, inl, inr, refl, ap, some, arith, List, [], ◌∷◌, ◌++◌, leb, ◌==◌,
  if◌then◌else◌, length, length-append, Bytes, c_string, Bool-cases, Option-cases,
}
use tamga_c.Memory.{size_max, checked_add}
use tamga_c.Memory.Growth.{Growth, grown, overflow, stuck, double_until-grown}
use tamga_c.Memory.Exec.{Allocator, Result, ok, err}
use tamga_c.Errors.{ErrorCode, out_of_memory}
use tamga_c.Checkout.KeySet.{Entry, KeySet}
use tamga_c.Checkout.KeySet.Keys.{copy_id}
use tamga_c.Checkout.KeySet.Store.{
  continue, ◌>>=◌, run, initial_capacity, set_capacity, grow_entries, after_growth, reserve,
  push_entry, append,
}

-- The entries fit the array, whose capacity is a `size_t`.
pub record IsValid (s : KeySet) : Type 0 where
  pub fits : length s.entries ≤ s.capacity
  pub bounded : s.capacity ≤ size_max

-- What a call that makes room for so many entries leaves behind.
pub record Reserved (additional : ℕ) (s : KeySet) (r : Result ErrorCode (Unit {0}) × KeySet × ℕ)
    : Type 0 where
  pub entries : r.1.entries ≡ s.entries
  pub valid : IsValid r.1
  pub room : r.0 ≡ ok tt → length s.entries + additional ≤ r.1.capacity
  pub only_error : (r.0 ≡ ok tt) ⊎ (r.0 ≡ err out_of_memory)

grow_entries-Reserved :
    (additional got : ℕ) (s : KeySet) (m : Allocator) (n : ℕ)
    → IsValid s
    → length s.entries + additional ≤ got
    → got ≤ size_max
    → Reserved additional s (grow_entries got s m n)
unfolding grow_entries set_capacity
grow_entries-Reserved additional got s m n v room small = ground (arith, v.fits, v.bounded)

refused :
    (additional : ℕ) (s : KeySet) (n : ℕ)
    → IsValid s
    → Reserved additional s (err out_of_memory, s, n)
refused additional s n v = record {
  entries = refl;
  valid = v;
  room = λ h. cc;
  only_error = inr refl;
}

after_growth-Reserved :
    (g : Growth) (additional : ℕ) (s : KeySet) (m : Allocator) (n : ℕ)
    → IsValid s
    → ((got : ℕ) → g ≡ grown got → (length s.entries + additional ≤ got) × (got ≤ size_max))
    → Reserved additional s (after_growth g s m n)
unfolding after_growth
after_growth-Reserved (grown got) additional s m n v h =
    let (room, small) = h got refl in grow_entries-Reserved additional got s m n v room small
after_growth-Reserved overflow additional s m n v h = refused additional s n v
after_growth-Reserved stuck additional s m n v h = refused additional s n v

sum_lem : (a b sum : ℕ) → checked_add a b ≡ some sum → a + b ≡ sum
unfolding checked_add
sum_lem a b sum h = ground arith

-- Making room for entries keeps the entries and the set valid, on every branch; where it succeeds
-- the array holds them, and its one error is `out_of_memory`.
pub reserve-Reserved :
    (additional : ℕ) (s : KeySet) (m : Allocator) (n : ℕ)
    → IsValid s
    → Reserved additional s (reserve additional s m n)
unfolding reserve
reserve-Reserved additional s m n v =
    elim (Option-cases (checked_add (length s.entries) additional)) [
      | inl too_many ↦ rw too_many (refused additional s n v)
      | inr (needed, sum) ↦
          let exact : length s.entries + additional ≡ needed =
            sum_lem (length s.entries) additional needed sum in
          elim (Bool-cases (leb needed s.capacity)) [
            | inl enough ↦
                rw (sum, enough)
                  (record {
                    entries = refl;
                    valid = v;
                    room = λ _. ground arith;
                    only_error = inl refl;
                  })
            | inr more ↦
                rw (sum, more)
                  (after_growth-Reserved _ additional s m n v (λ got e.
                    let start = if s.capacity == 0 then initial_capacity else s.capacity in
                    let (holds, _, small) =
                      double_until-grown 65 start needed got (ground (arith, v.bounded)) e in
                    (omega arith, small)))
          ]
    ]

-- What a call that may add entries leaves behind: all of them where it succeeds, none where it
-- reports an error.
pub record Extended {A : Type 0} (added : A → List Entry → Type 0) (s : KeySet)
    (r : Result ErrorCode A × KeySet × ℕ) : Type 0 where
  pub valid : IsValid r.1
  pub taken :
      (a : A) → r.0 ≡ ok a → (more : List Entry) × (r.1.entries ≡ s.entries ++ more) × added a more
  pub kept : (e : ErrorCode) → r.0 ≡ err e → r.1.entries ≡ s.entries

-- A call that failed, or that has changed no entry yet.
pub unchanged :
    {A : Type 0} {added : A → List Entry → Type 0} (s s' : KeySet) (e : ErrorCode) (n : ℕ)
    → IsValid s'
    → s'.entries ≡ s.entries
    → Extended added s (err e, s', n)
unchanged s s' e n v same = record { valid = v; taken = λ a h. cc; kept = λ e' h. same }

pushed :
    (entry : Entry) (s s' : KeySet) (m : Allocator) (n : ℕ)
    → IsValid s'
    → s'.entries ≡ s.entries
    → length s.entries + 1 ≤ s'.capacity
    → Extended (λ _ more. more ≡ entry ∷ []) s (push_entry entry s' m n)
unfolding push_entry
pushed entry s s' m n v same room = record {
  valid = record { fits = rw (length-append, same) room; bounded = v.bounded };
  taken = λ a h. (entry ∷ [], ap (λ es. es ++ entry ∷ []) same, refl);
  kept = λ e h. cc;
}

copied :
    (key_id : Bytes) (entry : Entry) (s s' : KeySet) (r : Result ErrorCode (Unit {0}) × ℕ)
    (m : Allocator)
    → IsValid s'
    → s'.entries ≡ s.entries
    → length s.entries + 1 ≤ s'.capacity
    → Extended (λ _ more. more ≡ entry ∷ []) s (continue r.0 (λ _. push_entry entry) s' m r.1)
copied key_id entry s s' (ok u, n) m v same room = pushed entry s s' m n v same room
copied key_id entry s s' (err e, n) m v same room = unchanged s s' e n v same

append_reserved :
    (key_id : Bytes) (entry : Entry) (s : KeySet) (r : Result ErrorCode (Unit {0}) × KeySet × ℕ)
    (m : Allocator)
    → Reserved 1 s r
    → Extended
        (λ _ more. more ≡ entry ∷ [])
        s
        (continue r.0 (λ _. run (copy_id key_id) >>= λ _. push_entry entry) r.1 m r.2)
append_reserved key_id entry s (ok u, s', n) m h =
    copied key_id entry s s' (copy_id key_id m n) m h.valid h.entries (h.room refl)
append_reserved key_id entry s (err e, s', n) m h = unchanged s s' e n h.valid h.entries

-- A key that is appended to a valid set stands behind the others under the id's bytes before a NUL;
-- where the call fails the entries are as they were. The set stays valid either way.
pub append-Extended :
    (key_id public_key : Bytes) (s : KeySet) (m : Allocator) (n : ℕ)
    → IsValid s
    → Extended
        (λ _ more. more ≡ record { key_id = c_string key_id; public_key = public_key } ∷ [])
        s
        (append key_id public_key s m n)
unfolding append
append-Extended key_id public_key s m n v =
    append_reserved (c_string key_id) (record { key_id = c_string key_id; public_key = public_key })
      s (reserve 1 s m n) m (reserve-Reserved 1 s m n v)
