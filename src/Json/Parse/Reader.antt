-- ===== src/Json/Parse/Reader.antt =====
-- The parser's state and its failures: the text that is left, the allocator, and what went wrong
-- first. src/util/json_parse.c keeps the first message only, and its callers ask of it no more than
-- whether it is TAMGA_JSON_ERROR_OUT_OF_MEMORY.
use tamga_c.Prelude.{ℕ, Option, none, some, Bytes, [], ◌∷◌}
use tamga_c.Memory.Exec.{Allocator, Exec, Result, ok, err}

-- `exhausted`: the model's fuel ran out, which is no outcome of the parser.
pub data Fault : Type 0 where
  malformed out_of_memory exhausted : Fault

abbrev pub Parser : Type 0 → Type 0
Parser A = Bytes → Exec Fault (A × Bytes)

module _ {A : Type 0} where
  abbrev pub pure : A → Parser A
  pure a text m n = (ok (a, text), n)

  abbrev pub fail : Fault → Parser A
  fail e text m n = (err e, n)

  abbrev pub with_rest : Bytes → Result Fault A → Result Fault (A × Bytes)
  with_rest text (ok a) = ok (a, text)
  with_rest text (err e) = err e

  -- An action that reads nothing.
  abbrev pub run : Exec Fault A → Parser A
  run act text m n = let (r, n') = act m n in (with_rest text r, n')

  abbrev pub or_malformed : Option (A × Bytes) → Result Fault (A × Bytes)
  or_malformed none = err malformed
  or_malformed (some o) = ok o

  -- A step that allocates nothing.
  abbrev pub scan : (Bytes → Option (A × Bytes)) → Parser A
  scan read text m n = (or_malformed (read text), n)

module _ {A B : Type 0} where
  abbrev pub go_on : Result Fault (A × Bytes) → (A → Parser B) → Exec Fault (B × Bytes)
  go_on (ok (a, rest)) f m n = f a rest m n
  go_on (err e) f m n = (err e, n)

  infixl 5 ◌>>=◌ ◌>>◌
  abbrev pub ◌>>=◌ : Parser A → (A → Parser B) → Parser B
  ◌>>=◌ p f text m n = let (r, n') = p text m n in go_on r f m n'

  abbrev pub ◌>>◌ : Parser A → Parser B → Parser B
  a >> b = a >>= λ _. b

-- tamga_json_peek and `pos++`.
abbrev pub peek : Bytes → ℕ
peek [] = 0
peek (c ∷ cs) = c

abbrev pub advance : Bytes → Bytes
advance [] = []
advance (c ∷ cs) = cs

-- Total correctness: the step ends, and what it returns meets the condition.
abbrev pub Returns : {A : Type 0} → (A → Bytes → Type 0) → Result Fault (A × Bytes) → Type 0
Returns Q (ok (a, rest)) = Q a rest
Returns Q (err malformed) = Unit
Returns Q (err out_of_memory) = Unit
Returns Q (err exhausted) = ⊥

go_on-Returns :
    {A B : Type 0} (r : Result Fault (A × Bytes)) (f : A → Parser B) (Q : A → Bytes → Type 0)
    (R : B → Bytes → Type 0) (m : Allocator) (n : ℕ)
    → Returns Q r
    → ((a : A) (rest : Bytes) → Q a rest → Returns R (f a rest m n).0)
    → Returns R (go_on r f m n).0
go_on-Returns (ok (a, rest)) f Q R m n h k = k a rest h
go_on-Returns (err malformed) f Q R m n h k = tt
go_on-Returns (err out_of_memory) f Q R m n h k = tt
go_on-Returns (err exhausted) f Q R m n h k = h

pub >>=-Returns :
    {A B : Type 0} (p : Parser A) (f : A → Parser B) (Q : A → Bytes → Type 0)
    (R : B → Bytes → Type 0) (text : Bytes) (m : Allocator) (n : ℕ)
    → Returns Q (p text m n).0
    → ((a : A) (rest : Bytes) (n' : ℕ) → Q a rest → Returns R (f a rest m n').0)
    → Returns R ((p >>= f) text m n).0
>>=-Returns p f Q R text m n h k =
    go_on-Returns (p text m n).0 f Q R m (p text m n).1 h (λ a rest q. k a rest (p text m n).1 q)

pub Returns-weaken :
    {A : Type 0} (r : Result Fault (A × Bytes)) (Q R : A → Bytes → Type 0)
    → Returns Q r
    → ((a : A) (rest : Bytes) → Q a rest → R a rest)
    → Returns R r
Returns-weaken (ok (a, rest)) Q R h k = k a rest h
Returns-weaken (err malformed) Q R h k = tt
Returns-weaken (err out_of_memory) Q R h k = tt
Returns-weaken (err exhausted) Q R h k = h
