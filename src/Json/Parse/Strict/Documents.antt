-- ===== src/Json/Parse/Strict/Documents.antt =====
-- tamga_json_parse of src/util/json_parse.c as a whole.
use mathlib.Core.Path.{subst}
use tamga_c.Prelude.{
  ℕ, ◌+◌, ◌*◌, ◌≡◌, ◌≢◌, inl, inr, refl, arith, ltb, ◌==◌, length, Bytes, Bool-cases,
}
use tamga_c.Memory.Exec.{Allocator, Result, ok, err}
use tamga_c.Json.{Json}
use tamga_c.Json.Parse.Reader.{Fault, malformed, out_of_memory, exhausted, Returns, >>=-Returns}
use tamga_c.Json.Parse.Numbers.{Conversions}
use tamga_c.Json.Parse.{max_depth, skip_ws, parse_value, at_end, forget_rest, json_parse}
use tamga_c.Json.Parse.Strict.{IsStrict}
use tamga_c.Json.Parse.Strict.Leaves.{Value}
use tamga_c.Memory.{max_reasonable_len}
use tamga_c.Json.Parse.Strict.Nested.{parse_value-Value}

Document : Result Fault Json → Type 0
Document (ok v) = IsStrict max_depth v
Document (err malformed) = Unit
Document (err out_of_memory) = Unit
Document (err exhausted) = ⊥

forget_rest-Document :
    (r : Result Fault (Json × Bytes))
    → Returns (λ v rest. IsStrict max_depth v) r
    → Document (forget_rest r)
unfolding Document
forget_rest-Document (ok (v, rest)) h = h
forget_rest-Document (err malformed) h = h
forget_rest-Document (err out_of_memory) h = h
forget_rest-Document (err exhausted) h = h

at_end-Returns :
    (v : Json) (text : Bytes) (m : Allocator) (n : ℕ)
    → IsStrict max_depth v
    → Returns (λ v rest. IsStrict max_depth v) (at_end v text m n).0
unfolding at_end
at_end-Returns v text m n h = elim (Bool-cases (length (skip_ws text) == 0)) [
  | inl done ↦ rw done h
  | inr more ↦ rw more tt
]

json_parse-Document :
    (c : Conversions) (text : Bytes) (m : Allocator) (n : ℕ) → Document (json_parse c text m n).0
unfolding json_parse Document
json_parse-Document c text m n = elim (Bool-cases (ltb max_reasonable_len (length text))) [
  | inl large ↦ rw large tt
  | inr fits ↦ rw fits (
      forget_rest-Document _ (
        >>=-Returns (parse_value c (3 * length text + 3) 0) at_end (Value max_depth text)
          (λ v rest. IsStrict max_depth v) text m n
          (parse_value-Value c (3 * length text + 3) 0 max_depth text m n refl (omega arith))
          (λ v rest n' (h, _). at_end-Returns v rest m n' h)))
]

-- The parser ends on every text, whatever the allocator and the conversions of numbers answer: its
-- calls and loops never take as many rounds as the model has fuel for, three for each byte and three
-- more.
pub json_parse-ne-exhausted :
    (c : Conversions) (text : Bytes) (m : Allocator) (n : ℕ)
    → (json_parse c text m n).0 ≢ err exhausted
unfolding Document
json_parse-ne-exhausted c text m n h = subst Document h (json_parse-Document c text m n)

-- A document that the parser returns is nested at most 64 levels deep, counting itself; its strings
-- and its keys are UTF-8, no key has a NUL in it, and no object has a key twice, however the text was
-- escaped and whatever the allocator and the conversions of numbers answer.
pub json_parse-IsStrict :
    (c : Conversions) (text : Bytes) (m : Allocator) (n : ℕ) (v : Json)
    → (json_parse c text m n).0 ≡ ok v
    → IsStrict max_depth v
unfolding Document
json_parse-IsStrict c text m n v h = subst Document h (json_parse-Document c text m n)
