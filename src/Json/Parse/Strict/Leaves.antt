-- ===== src/Json/Parse/Strict/Leaves.antt =====
-- Strings, keys, numbers and literals: what src/util/json_parse.c returns for them.
use mathlib.Core.Option.{some-injective}
use mathlib.Core.Path.{subst}
use tamga_c.Prelude.{
  ℕ, ◌≤◌, ◌<◌, ◌≡◌, ◌≢◌, inl, inr, refl, sym, ap, false, Option, none, some, arith, [], ◌∷◌, ltb,
  length, length-drop, take, Bytes, bytes_eq, contains_byte, Bool-cases, Option-cases,
}
use tamga_c.Memory.Exec
use tamga_c.Memory.Exec.{Allocator, Exec, Result, ok, err, ok-injective}
use tamga_c.Buf.{detach_string, detach_raw}
use tamga_c.Buf.Laws.{detach_string_lem, detach_raw_lem}
use tamga_c.Json.{Json}
use tamga_c.Json.Clone.{Refused, new_node, new_string}
use tamga_c.Json.Clone.Exact.{new_node_lem, new_string_lem}
use tamga_c.Json.Parse.Reader
use tamga_c.Json.Parse.Reader.{
  Fault, malformed, out_of_memory, exhausted, Parser, pure, fail, run, scan, or_malformed, ◌>>=◌,
  ◌>>◌, peek, advance, Returns, >>=-Returns, Returns-weaken,
}
use tamga_c.Json.Parse.Utf8.Valid.{IsUtf8}
use tamga_c.Json.Parse.Strings.{string_into}
use tamga_c.Json.Parse.Strings.Text.{Ends, string_into-Ends}
use tamga_c.Json.Parse.Numbers.{Conversions, read_number}
use tamga_c.Json.Parse.Numbers.Shorter.{IsNumber, an_integer, a_real, read_number_lem}
use tamga_c.Json.Parse.{
  is_ws, skip_ws, match_literal, skipping, built, detached, parse_key, parse_string, parse_number,
  parse_literal,
}
use tamga_c.Json.Parse.Strict.{IsStrict}

pub skip_ws-le : (text : Bytes) → length (skip_ws text) ≤ length text
unfolding skip_ws
skip_ws-le [] = omega arith
skip_ws-le (c ∷ cs) = elim (Bool-cases (is_ws c)) [
  | inl a ↦ rw a (omega (arith, skip_ws-le cs))
  | inr a ↦ rw a (omega arith)
]

-- An action that reads nothing, where it succeeds.
pub built-Returns :
    {A : Type 0} (act : Exec Refused A) (Q : A → Bytes → Type 0) (text : Bytes) (m : Allocator)
    (n : ℕ)
    → ((a : A) → (act m n).0 ≡ ok a → Q a text)
    → Returns Q (built act text m n).0
built-Returns {A} act Q text m n h = go (act m n).0 refl
  where
    go :
        (r : Result Refused A)
        → (act m n).0 ≡ r
        → Returns Q (Reader.with_rest text (Exec.map_error_result (λ _. out_of_memory) r))
    go (ok a) e = h a e
    go (err x) e = tt

detached-Returns :
    (e : Fault) (act : Allocator → ℕ → Option Bytes × ℕ) (Q : Bytes → Bytes → Type 0) (text : Bytes)
    (m : Allocator) (n : ℕ)
    → e ≢ exhausted
    → ((out : Bytes) → (act m n).0 ≡ some out → Q out text)
    → Returns Q (detached e act text m n).0
detached-Returns e act Q text m n ends h = go e (act m n).0 refl ends
  where
    go :
        (e : Fault) (o : Option Bytes)
        → (act m n).0 ≡ o
        → e ≢ exhausted
        → Returns Q (Reader.with_rest text (Exec.or_error e o))
    go e (some out) same ends = h out same
    go malformed none same ends = tt
    go out_of_memory none same ends = tt
    go exhausted none same ends = ends refl

-- What a value's parser returns: a strict document, and less text.
abbrev pub Value : ℕ → Bytes → Json → Bytes → Type 0
Value levels text v rest = IsStrict levels v × (length rest < length text)

pub Value-shorter :
    (levels : ℕ) (text text' : Bytes) (r : Result Fault (Json × Bytes))
    → length text' ≤ length text
    → Returns (Value levels text') r
    → Returns (Value levels text) r
Value-shorter levels text text' r h k =
    Returns-weaken r (Value levels text') (Value levels text) k (λ v rest (s, l). (s, omega arith))

-- A step that moves over text, with what comes next.
pub moved :
    (levels : ℕ) (move : Bytes → Bytes) (next : Parser Json) (text : Bytes) (m : Allocator) (n : ℕ)
    → length (move text) ≤ length text
    → Returns (Value levels (move text)) (next (move text) m n).0
    → Returns (Value levels text) ((skipping move >>= λ _. next) text m n).0
moved levels move next text m n h k = Value-shorter levels text (move text) _ h k

pub parse_string-Value :
    (levels : ℕ) (text : Bytes) (m : Allocator) (n : ℕ)
    → 0 < levels
    → Returns (Value levels text) (parse_string text m n).0
unfolding parse_string IsStrict
parse_string-Value levels text m n h =
    >>=-Returns string_into _ (Ends text) (Value levels text) text m n (string_into-Ends text m n)
      (λ b rest n1 (v, u, live, shorter).
        >>=-Returns (detached out_of_memory (detach_raw b)) _
          (λ out rest'. IsUtf8 out × (length rest' < length text)) (Value levels text) rest m n1
          (detached-Returns out_of_memory (detach_raw b) _ rest m n1 (λ e. cc)
            (λ out e. (subst IsUtf8 (sym (detach_raw_lem b m n1 out v e)) u, shorter)))
          (λ out rest' n2 (u', shorter').
            built-Returns (new_string out) (Value levels text) rest' m n2 (λ j e.
              subst (λ j. Value levels text j rest') (sym (new_string_lem out m n2 e))
                ((h, u'), shorter'))))

-- A key is UTF-8 without a NUL.
abbrev pub Key : Bytes → Bytes → Bytes → Type 0
Key text key rest = IsUtf8 key × (contains_byte 0 key ≡ false) × (length rest < length text)

pub parse_key-Key :
    (text : Bytes) (m : Allocator) (n : ℕ) → Returns (Key text) (parse_key text m n).0
unfolding parse_key
parse_key-Key text m n =
    >>=-Returns string_into _ (Ends text) (Key text) text m n (string_into-Ends text m n)
      (λ b rest n1 (v, u, live, shorter).
        detached-Returns malformed (detach_string b) (Key text) rest m n1 (λ e. cc)
          (λ out e.
            let (same, _, nul) = detach_string_lem b m n1 out v e in
            (subst IsUtf8 (sym same) u, nul, shorter)))

leaf-Value :
    (levels : ℕ) (text rest : Bytes) (v : Json) (m : Allocator) (n : ℕ)
    → IsStrict levels v
    → length rest < length text
    → Returns (Value levels text) (built (new_node v) rest m n).0
leaf-Value levels text rest v m n strict shorter =
    built-Returns (new_node v) (Value levels text) rest m n
      (λ j e. subst (λ j. Value levels text j rest) (sym (new_node_lem v m n e)) (strict, shorter))

scanned-Value :
    {A : Type 0} (levels : ℕ) (read : Bytes → Option (A × Bytes)) (next : A → Parser Json)
    (text : Bytes) (m : Allocator) (n : ℕ)
    → ((a : A) (rest : Bytes)
        → read text ≡ some (a, rest)
        → Returns (Value levels text) (next a rest m n).0)
    → Returns (Value levels text) ((scan read >>= next) text m n).0
scanned-Value levels read next text m n h = elim (Option-cases (read text)) [
  | inl nothing ↦ rw nothing tt
  | inr (o, found) ↦ rw found (h o.0 o.1 found)
]

number-IsStrict : (levels : ℕ) (v : Json) → 0 < levels → IsNumber v → IsStrict levels v
unfolding IsStrict
number-IsStrict levels v h an_integer = h
number-IsStrict levels v h a_real = h

pub parse_number-Value :
    (c : Conversions) (levels : ℕ) (text : Bytes) (m : Allocator) (n : ℕ)
    → 0 < levels
    → Returns (Value levels text) (parse_number c text m n).0
unfolding parse_number
parse_number-Value c levels text m n h =
    scanned-Value levels (read_number c) _ text m n (λ v rest e.
      let (number, shorter) = read_number_lem c text v rest e in
      leaf-Value levels text rest v m n (number-IsStrict levels v h number) shorter)

match_literal-lt :
    (literal text rest : Bytes)
    → 0 < length literal
    → match_literal literal text ≡ some (tt, rest)
    → length rest < length text
unfolding match_literal
match_literal-lt literal text rest some_bytes h =
    elim (Bool-cases (ltb (length text) (length literal))) [
      | inl short ↦ absurd (cc (rw short at h))
      | inr long ↦ elim (Bool-cases (bytes_eq (take (length literal) text) literal)) [
        | inr other ↦ absurd (cc (rw (long, other) at h))
        | inl here ↦
            let same = some-injective _ _ (rw (long, here) at h) in
            let fits : length literal ≤ length text = ground arith in
            omega (
              arith,
              length-drop (length literal) text,
              ap (λ (o : Unit {0} × Bytes). length o.1) same,
            )
      ]
    ]

pub parse_literal-Value :
    (levels : ℕ) (literal : Bytes) (v : Json) (text : Bytes) (m : Allocator) (n : ℕ)
    → 0 < length literal
    → IsStrict levels v
    → Returns (Value levels text) (parse_literal literal v text m n).0
unfolding parse_literal
parse_literal-Value levels literal v text m n some_bytes strict =
    scanned-Value levels (match_literal literal) _ text m n (λ u rest e.
      leaf-Value levels text rest v m n strict (match_literal-lt literal text rest some_bytes e))
