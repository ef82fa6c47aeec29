-- ===== src/Json/Parse/Strict.antt =====
-- The documents that the parser builds: bounded in depth, UTF-8, with keys that occur once.
pub mod Leaves
pub mod Containers
pub mod Nested
pub mod Documents
use mathlib.Core.Option.{some-injective}
use mathlib.Core.Path.{subst}
use tamga_c.Prelude.{
  ℕ, zero, suc, ◌+◌, ◌-◌, ◌*◌, ◌≤◌, ◌<◌, ◌≡◌, ◌≢◌, ◌⊎◌, inl, inr, refl, sym, ap, ◌∙◌, Bool, true,
  false, not, ◌||◌, Option, none, some, arith, [], ◌∷◌, ltb, ◌==◌, if◌then◌else◌, length,
  length-drop, take, drop, Bytes, bytes_eq, bytes_eq_iff, c_string, c_string-id, contains_byte,
  Bool-cases, Option-cases, codes,
}
use tamga_c.Memory.Exec
use tamga_c.Memory.Exec.{Allocator, Exec, Result, ok, err, ok-injective, >>=-eq-ok}
use tamga_c.Buf.{Buf, detach_string, detach_raw}
use tamga_c.Buf.Laws.{IsValid, detach_string_lem, detach_raw_lem}
use tamga_c.Json.{
  Json, Items, Members, null, boolean, integer, real, string, array, object, nil, cons, end, member,
}
use tamga_c.Json.Clone.{
  Refused, grow, snoc, copy_key, has_key, replace, snoc_member, new_node, new_string, pointer_size,
  member_size,
}
use tamga_c.Json.Clone.Exact.{
  IsClean, AreClean, HasCleanMembers, has_key-snoc_member, bytes_eq_comm, new_node_lem,
  new_string_lem, copy_key_lem,
}
use tamga_c.Json.Build.{array_append, object_set}
use tamga_c.Json.Parse.Reader
use tamga_c.Json.Parse.Reader.{
  Fault, malformed, out_of_memory, exhausted, Parser, pure, fail, run, scan, or_malformed, ◌>>=◌,
  ◌>>◌, peek, advance, Returns, >>=-Returns, Returns-weaken,
}
use tamga_c.Json.Parse.Utf8.Valid.{IsUtf8}
use tamga_c.Json.Parse.Strings.{string_into}
use tamga_c.Json.Parse.Strings.Text.{Ends, string_into-Ends}
use tamga_c.Json.Parse.Numbers.{Conversions, read_number}
use tamga_c.Json.Parse.Numbers.Shorter.{
  advance-le, advance-lt, IsNumber, an_integer, a_real, read_number_lem,
}
use tamga_c.Json.Parse.{
  max_depth, is_ws, skip_ws, match_literal, skipping, expect, built, detached, parse_key,
  parse_string, parse_number, parse_literal, Kind, brace, bracket, quote, letter_t, letter_f,
  letter_n, digit, unexpected, kind, Delimiter, comma, closing, neither, delimiter, on_kind,
  unless_closed, on_delimiter, parse_value, parse_array, parse_items, parse_object, parse_members,
  at_end, forget_rest, json_parse,
}

-- A document of at most so many levels, whose strings and keys are UTF-8, whose keys have no NUL,
-- and no object of which has a key twice.
unfoldable mutual
  pub IsStrict : ℕ → Json → Type 0
  IsStrict levels (string bytes) = (0 < levels) × IsUtf8 bytes
  IsStrict levels (array items) = (0 < levels) × AreStrict (levels - 1) items
  IsStrict levels (object members) = (0 < levels) × HasStrictMembers (levels - 1) members
  IsStrict levels _ = 0 < levels

  pub AreStrict : ℕ → Items → Type 0
  AreStrict levels nil = Unit
  AreStrict levels (cons x xs) = IsStrict levels x × AreStrict levels xs

  pub HasStrictMembers : ℕ → Members → Type 0
  HasStrictMembers levels end = Unit
  HasStrictMembers levels (member k v rest) =
      IsUtf8 k
      × (contains_byte 0 k ≡ false)
      × (has_key k rest ≡ false)
      × IsStrict levels v
      × HasStrictMembers levels rest

mutual
  unfolding IsStrict IsClean

  strict-IsClean : (levels : ℕ) (j : Json) → IsStrict levels j → IsClean j
  strict-IsClean levels null h = tt
  strict-IsClean levels (boolean b) h = tt
  strict-IsClean levels (integer i) h = tt
  strict-IsClean levels (real x) h = tt
  strict-IsClean levels (string bytes) h = tt
  strict-IsClean levels (array items) (_, h) = strict_items-AreClean (levels - 1) items h
  strict-IsClean levels (object members) (_, h) =
      strict_members-HasCleanMembers (levels - 1) members h

  strict_items-AreClean : (levels : ℕ) (xs : Items) → AreStrict levels xs → AreClean xs
  strict_items-AreClean levels nil h = tt
  strict_items-AreClean levels (cons x xs) (p, h) =
      (strict-IsClean levels x p, strict_items-AreClean levels xs h)

  strict_members-HasCleanMembers :
      (levels : ℕ) (ms : Members) → HasStrictMembers levels ms → HasCleanMembers ms
  strict_members-HasCleanMembers levels end h = tt
  strict_members-HasCleanMembers levels (member k v rest) (_, nul, once, p, h) =
      (nul, once, strict-IsClean levels v p, strict_members-HasCleanMembers levels rest h)

pub IsStrict-IsClean : (levels : ℕ) (j : Json) → IsStrict levels j → IsClean j
IsStrict-IsClean levels j h = strict-IsClean levels j h

snoc-AreStrict :
    (levels : ℕ) (xs : Items) (x : Json)
    → AreStrict levels xs
    → IsStrict levels x
    → AreStrict levels (snoc xs x)
unfolding AreStrict snoc
snoc-AreStrict levels nil x h p = (p, tt)
snoc-AreStrict levels (cons y ys) x (q, h) p = (q, snoc-AreStrict levels ys x h p)

has_key-replace :
    (j k : Bytes) (x : Json) (ms : Members) → has_key j (replace k x ms) ≡ has_key j ms
unfolding has_key replace
has_key-replace j k x end = refl
has_key-replace j k x (member i v rest) = ground (arith, has_key-replace j k x rest)

replace-HasStrictMembers :
    (levels : ℕ) (k : Bytes) (x : Json) (ms : Members)
    → HasStrictMembers levels ms
    → IsStrict levels x
    → HasStrictMembers levels (replace k x ms)
unfolding HasStrictMembers replace
replace-HasStrictMembers levels k x end h p = tt
replace-HasStrictMembers levels k x (member i v rest) (u, nul, once, q, h) p =
    elim (Bool-cases (bytes_eq i k)) [
      | inl here ↦ rw here (u, nul, once, p, h)
      | inr there ↦ rw there (
        u,
        nul,
        has_key-replace i k x rest ∙ once,
        q,
        replace-HasStrictMembers levels k x rest h p,
      )
    ]

snoc-HasStrictMembers :
    (levels : ℕ) (ms : Members) (k : Bytes) (x : Json)
    → HasStrictMembers levels ms
    → IsUtf8 k
    → contains_byte 0 k ≡ false
    → has_key k ms ≡ false
    → IsStrict levels x
    → HasStrictMembers levels (snoc_member ms k x)
unfolding HasStrictMembers snoc_member has_key
snoc-HasStrictMembers levels end k x h u nul new p = (u, nul, refl, p, tt)
snoc-HasStrictMembers levels (member i v rest) k x (ui, nuli, once, q, h) u nul new p = (
  ui,
  nuli,
  ground (arith, has_key-snoc_member i k x rest, bytes_eq_comm i k),
  q,
  snoc-HasStrictMembers levels rest k x h u nul (ground arith) p,
)

pub array_append-AreStrict :
    (levels : ℕ) (xs : Items) (count capacity : ℕ) (x : Json) (m : Allocator) (n : ℕ)
    (out : Items × ℕ × ℕ)
    → AreStrict levels xs
    → IsStrict levels x
    → (array_append xs count capacity x m n).0 ≡ ok out
    → AreStrict levels out.0
unfolding array_append
array_append-AreStrict levels xs count capacity x m n out h p e =
    let (capacity', _, e') = >>=-eq-ok (grow capacity count pointer_size) _ e in
    subst (λ (o : Items × ℕ × ℕ). AreStrict levels o.0) (ok-injective e')
      (snoc-AreStrict levels xs x h p)

pub object_set-HasStrictMembers :
    (levels : ℕ) (ms : Members) (count capacity : ℕ) (k : Bytes) (x : Json) (m : Allocator) (n : ℕ)
    (out : Members × ℕ × ℕ)
    → HasStrictMembers levels ms
    → IsUtf8 k
    → contains_byte 0 k ≡ false
    → IsStrict levels x
    → (object_set ms count capacity k x m n).0 ≡ ok out
    → HasStrictMembers levels out.0
unfolding object_set
object_set-HasStrictMembers levels ms count capacity k x m n out h u nul p e =
    let key = c_string-id k nul in
    elim (Bool-cases (has_key k ms)) [
      | inl here ↦
          subst (λ (o : Members × ℕ × ℕ). HasStrictMembers levels o.0)
            (ok-injective (rw (key, here) at e)) (replace-HasStrictMembers levels k x ms h p)
      | inr new ↦
          let (capacity', _, e') =
            >>=-eq-ok (grow capacity count member_size) _ (rw (key, new) at e) in
          let (copy, ek, e'') = >>=-eq-ok (copy_key k) _ e' in
          subst (λ (o : Members × ℕ × ℕ). HasStrictMembers levels o.0) (ok-injective e'')
            (rw (copy_key_lem k m _ ek) (snoc-HasStrictMembers levels ms k x h u nul new p))
    ]
