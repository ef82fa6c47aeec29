-- ===== src/Json/Parse/Strict/Containers.antt =====
-- The tests between the elements of arrays and objects, and the two functions that add an element.
use tamga_c.Prelude.{
  ℕ, ◌<◌, ◌≡◌, inl, inr, refl, true, false, arith, ◌==◌, length, Bytes, contains_byte, Bool-cases,
  codes,
}
use tamga_c.Memory.Exec.{Allocator}
use tamga_c.Json.{Json, Items, Members, null, boolean}
use tamga_c.Json.Clone.{new_node}
use tamga_c.Json.Build.{array_append, object_set}
use tamga_c.Json.Parse.Reader.{Parser, peek, advance, Returns}
use tamga_c.Json.Parse.Utf8.Valid.{IsUtf8}
use tamga_c.Json.Parse.Numbers.{Conversions}
use tamga_c.Json.Parse.Numbers.Shorter.{advance-le, advance-lt}
use tamga_c.Json.Parse.{
  skip_ws, expect, built, Kind, brace, bracket, quote, letter_t, letter_f, letter_n, digit,
  unexpected, kind, Delimiter, comma, closing, neither, delimiter, on_kind, unless_closed,
  on_delimiter,
}
use tamga_c.Json.Parse.Strict.{IsStrict, AreStrict, HasStrictMembers}
use tamga_c.Json.Parse.Strict.{array_append-AreStrict, object_set-HasStrictMembers}
use tamga_c.Json.Parse.Strict.Leaves.{
  skip_ws-le, built-Returns, Value, Value-shorter, parse_string-Value, parse_number-Value,
  parse_literal-Value,
}

pub kind-brace : (x : ℕ) → kind x ≡ brace → x ≡ b'{'
unfolding kind
kind-brace x h = ground arith

pub kind-bracket : (x : ℕ) → kind x ≡ bracket → x ≡ b'['
unfolding kind
kind-bracket x h = ground arith

pub on_kind-Value :
    (c : Conversions) (read_object read_array : Parser Json) (levels : ℕ) (k : Kind) (text : Bytes)
    (m : Allocator) (n : ℕ)
    → 0 < levels
    → (k ≡ brace → Returns (Value levels text) (read_object text m n).0)
    → (k ≡ bracket → Returns (Value levels text) (read_array text m n).0)
    → Returns (Value levels text) (on_kind c read_object read_array k text m n).0
unfolding on_kind IsStrict
on_kind-Value c ro ra levels brace text m n h o a = o refl
on_kind-Value c ro ra levels bracket text m n h o a = a refl
on_kind-Value c ro ra levels quote text m n h o a = parse_string-Value levels text m n h
on_kind-Value c ro ra levels letter_t text m n h o a =
    parse_literal-Value levels (codes "true") (boolean true) text m n (omega arith) h
on_kind-Value c ro ra levels letter_f text m n h o a =
    parse_literal-Value levels (codes "false") (boolean false) text m n (omega arith) h
on_kind-Value c ro ra levels letter_n text m n h o a =
    parse_literal-Value levels (codes "null") null text m n (omega arith) h
on_kind-Value c ro ra levels digit text m n h o a = parse_number-Value c levels text m n h
on_kind-Value c ro ra levels unexpected text m n h o a = tt

pub unless_closed-Value :
    (levels close : ℕ) (empty : Json) (more : Parser Json) (text : Bytes) (m : Allocator) (n : ℕ)
    → 0 < close
    → IsStrict levels empty
    → Returns (Value levels text) (more text m n).0
    → Returns (Value levels text) (unless_closed close empty more text m n).0
unfolding unless_closed
unless_closed-Value levels close empty more text m n p s h =
    elim (Bool-cases (peek text == close)) [
      | inl here ↦ rw here (s, advance-lt text close (ground arith) p)
      | inr there ↦ rw there h
    ]

delimiter-comma : (close x : ℕ) → delimiter close x ≡ comma → x ≡ b','
unfolding delimiter
delimiter-comma close x h = ground arith

delimiter-closing : (close x : ℕ) → delimiter close x ≡ closing → x ≡ close
unfolding delimiter
delimiter-closing close x h = ground arith

pub on_delimiter-Value :
    (levels close : ℕ) (whole : Json) (more : Parser Json) (text : Bytes) (m : Allocator) (n : ℕ)
    → 0 < close
    → IsStrict levels whole
    → ((next : Bytes) → length next < length text → Returns (Value levels next) (more next m n).0)
    → Returns (Value levels text) (on_delimiter whole more (delimiter close (peek text)) text m n).0
unfolding on_delimiter
on_delimiter-Value levels close whole more text m n p s h = go (delimiter close (peek text)) refl
  where
    go :
        (d : Delimiter)
        → delimiter close (peek text) ≡ d
        → Returns (Value levels text) (on_delimiter whole more d text m n).0
    go comma e =
        let off = advance-lt text b',' (delimiter-comma close _ e) (omega arith) in
        Value-shorter levels text (skip_ws (advance text)) _
          (omega (arith, skip_ws-le (advance text)))
          (h (skip_ws (advance text)) (omega (arith, skip_ws-le (advance text))))
    go closing e = (s, advance-lt text close (delimiter-closing close _ e) p)
    go neither e = tt

pub expect_lem :
    (close : ℕ) (whole text : Bytes) (m : Allocator) (n : ℕ)
    → length text < length whole
    → Returns (λ (_ : Unit {0}) rest. length rest < length whole) (expect close text m n).0
expect_lem close whole text m n h = elim (Bool-cases (peek text == close)) [
  | inl here ↦ rw here (omega (arith, advance-le text))
  | inr there ↦ rw there tt
]

pub opened-Returns :
    (v : Json) (text : Bytes) (m : Allocator) (n : ℕ)
    → Returns (λ _ rest. rest ≡ text) (built (new_node v) text m n).0
opened-Returns v text m n =
    built-Returns (new_node v) (λ _ rest. rest ≡ text) text m n (λ _ _. refl)

abbrev pub WithItem : ℕ → Bytes → Items × ℕ × ℕ → Bytes → Type 0
WithItem levels text out rest = AreStrict levels out.0 × (rest ≡ text)

pub item-Returns :
    (levels : ℕ) (items : Items) (count capacity : ℕ) (item : Json) (text : Bytes) (m : Allocator)
    (n : ℕ)
    → AreStrict levels items
    → IsStrict levels item
    → Returns (WithItem levels text) (built (array_append items count capacity item) text m n).0
item-Returns levels items count capacity item text m n s p =
    built-Returns (array_append items count capacity item) (WithItem levels text) text m n
      (λ out e. (array_append-AreStrict levels items count capacity item m n out s p e, refl))

abbrev pub WithMember : ℕ → Bytes → Members × ℕ × ℕ → Bytes → Type 0
WithMember levels text out rest = HasStrictMembers levels out.0 × (rest ≡ text)

pub set_member-Returns :
    (levels : ℕ) (members : Members) (count capacity : ℕ) (key : Bytes) (item : Json) (text : Bytes)
    (m : Allocator) (n : ℕ)
    → HasStrictMembers levels members
    → IsUtf8 key
    → contains_byte 0 key ≡ false
    → IsStrict levels item
    → Returns
        (WithMember levels text)
        (built (object_set members count capacity key item) text m n).0
set_member-Returns levels members count capacity key item text m n s u nul p =
    built-Returns (object_set members count capacity key item) (WithMember levels text) text m n
      (λ out e. (
        object_set-HasStrictMembers levels members count capacity key item m n out s u nul p e,
        refl,
      ))
