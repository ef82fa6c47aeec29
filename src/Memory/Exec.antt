-- ===== src/Memory/Exec.antt =====
-- Actions that may allocate and may fail. The system's allocator answers each request, the n-th one
-- of the run for so many bytes, as it likes; an action counts the requests that it makes.
use mathlib.Core.Path.{◌≡◌, refl}
use mathlib.Core.Bool.{Bool, true, false}
use tamga_c.Prelude.{ℕ, ◌+◌, Option, none, some, ◌==◌, if◌then◌else◌}

pub data Result {ℓ} (E A : Type ℓ) : Type ℓ where
  ok : A → Result E A
  err : E → Result E A

-- The C library's `malloc`, `calloc` and `realloc`: whether request number n is granted.
pub record Allocator : Type 0 where
  pub grants : ℕ → ℕ → Bool

abbrev pub Exec : Type 0 → Type 0 → Type 0
Exec E A = Allocator → ℕ → Result E A × ℕ

module _ {E A : Type 0} where
  abbrev pub pure : A → Exec E A
  pure a m n = (ok a, n)

  abbrev pub raise : E → Exec E A
  raise e m n = (err e, n)

  abbrev pub lift : Result E A → Exec E A
  lift r m n = (r, n)

  -- An `Option` with the error that its absence stands for.
  abbrev pub or_error : E → Option A → Result E A
  or_error e none = err e
  or_error e (some a) = ok a

module _ {E A B : Type 0} where
  abbrev pub continue : Result E A → (A → Exec E B) → Exec E B
  continue (ok a) f m n = f a m n
  continue (err e) f m n = (err e, n)

  infixl 5 ◌>>=◌ ◌>>◌
  abbrev pub ◌>>=◌ : Exec E A → (A → Exec E B) → Exec E B
  ◌>>=◌ act f m n = let (r, n') = act m n in continue r f m n'

  abbrev pub ◌>>◌ : Exec E A → Exec E B → Exec E B
  a >> b = a >>= λ _. b

module _ {E : Type 0} where
  -- `if (!test) return error;`
  abbrev pub guard : Bool → E → Exec E (Unit {0})
  guard true e = pure tt
  guard false e = raise e

module _ {D E A : Type 0} where
  abbrev pub map_error_result : (D → E) → Result D A → Result E A
  map_error_result f (ok a) = ok a
  map_error_result f (err d) = err (f d)

  -- The same action, its error reported otherwise.
  abbrev pub map_error : (D → E) → Exec D A → Exec E A
  map_error f act m n = let (r, n') = act m n in (map_error_result f r, n')

-- tamga_malloc (and tamga_calloc and tamga_realloc after their checks): a request for 0 bytes asks
-- for 1.
abbrev pub allocate : {E : Type 0} → E → ℕ → Exec E (Unit {0})
allocate e size m n =
    if m.grants n (if size == 0 then 1 else size) then (ok tt, n + 1) else (err e, n + 1)

-- What a successful chain says of its first step.
pub >>=-eq-ok :
    {E A B : Type 0} (act : Exec E A) (f : A → Exec E B) {m : Allocator} {n : ℕ} {b : B}
    → ((act >>= f) m n).0 ≡ ok b
    → (a : A) × ((act m n).0 ≡ ok a) × ((f a m (act m n).1).0 ≡ ok b)
>>=-eq-ok {E} {A} {B} act f {m} {n} {b} h = go (act m n).0 refl h
  where
    go :
        (r : Result E A)
        → (act m n).0 ≡ r
        → (continue r f m (act m n).1).0 ≡ ok b
        → (a : A) × ((act m n).0 ≡ ok a) × ((f a m (act m n).1).0 ≡ ok b)
    go (ok a) e k = (a, e, k)
    go (err x) e k = cc

pub ok-injective : {E A : Type 0} {a b : A} → ◌≡◌ {A = Result E A} (ok a) (ok b) → a ≡ b
ok-injective h = cc

pub guard-eq-ok :
    {E : Type 0} (b : Bool) (e : E) (m : Allocator) (n : ℕ) {u : Unit {0}}
    → (guard b e m n).0 ≡ ok u
    → b ≡ true
guard-eq-ok true e m n h = refl
guard-eq-ok false e m n h = cc

pub or_error-eq-ok :
    {E A : Type 0} (e : E) (o : Option A) {a : A} → or_error e o ≡ ok a → o ≡ some a
or_error-eq-ok e none h = cc
or_error-eq-ok e (some b) h = cc (ok-injective h)

map_error_result-eq-ok :
    {D E A : Type 0} (f : D → E) (r : Result D A) {a : A} → map_error_result f r ≡ ok a → r ≡ ok a
map_error_result-eq-ok f (ok b) h = cc (ok-injective h)
map_error_result-eq-ok f (err d) h = cc

pub map_error-eq-ok :
    {D E A : Type 0} (f : D → E) (act : Exec D A) (m : Allocator) (n : ℕ) {a : A}
    → (map_error f act m n).0 ≡ ok a
    → (act m n).0 ≡ ok a
map_error-eq-ok f act m n h = map_error_result-eq-ok f (act m n).0 h
