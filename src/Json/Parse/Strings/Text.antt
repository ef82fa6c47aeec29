-- ===== src/Json/Parse/Strings/Text.antt =====
-- A string token is read to its end, and what it stands for is UTF-8.
use mathlib.Core.Path.{subst}
use tamga_c.Prelude.{
  ℕ, zero, suc, ◌<◌, ◌≡◌, inl, inr, refl, sym, false, Option, some, arith, [], ◌∷◌, ◌==◌, length,
  Bytes, Bool-cases, Option-cases,
}
use tamga_c.Memory.Exec.{Allocator}
use tamga_c.Buf
use tamga_c.Buf.{Buf, append, append_bytes}
use tamga_c.Buf.Laws.{IsValid, Appended, append-Appended, append_bytes-Appended}
use tamga_c.Buf.Granted.{empty-IsValid}
use tamga_c.Json.Parse.Reader.{Parser, scan, ◌>>=◌, Returns, >>=-Returns, Returns-weaken}
use tamga_c.Json.Parse.Utf8.Valid.{IsUtf8, no_more, append-IsUtf8}
use tamga_c.Json.Parse.Strings.{
  read_escape, read_plain, Step, more, finished, put, put_bytes, close, string_step, go_round,
  string_loop, string_into,
}
use tamga_c.Json.Parse.Strings.Escapes.{Reads, read_escape_lem, read_plain_lem}

-- A buffer whose content is UTF-8 unless an append to it has failed.
record Held (b : Buf) : Type 0 where
  valid : IsValid b
  content : b.failed ≡ false → IsUtf8 b.content

append-Held :
    (bytes : Bytes) (b b' : Buf) (n : ℕ)
    → IsUtf8 bytes
    → Held b
    → Appended bytes b (b', n)
    → Held b'
append-Held bytes b b' n valid held h = record {
  valid = h.valid;
  content = λ live.
      let (was_live, same) = h.live live in
      subst IsUtf8 (sym same) (append-IsUtf8 b.content bytes (held.content was_live) valid);
}

-- What one round leaves behind: less text, and a buffer that is as good as before.
abbrev Goes : Bytes → Step → Bytes → Type 0
Goes text (more b) rest = Held b × (length rest < length text)
Goes text (finished b) rest = Held b × (b.failed ≡ false) × (length rest < length text)

abbrev pub Ends : Bytes → Buf → Bytes → Type 0
Ends text b rest = IsValid b × IsUtf8 b.content × (b.failed ≡ false) × (length rest < length text)

close-Goes :
    (b : Buf) (c : ℕ) (cs : Bytes) (m : Allocator) (n : ℕ)
    → Held b
    → Returns (Goes (c ∷ cs)) (close b cs m n).0
unfolding close
close-Goes b c cs m n held = elim (Bool-cases b.failed) [
  | inl dead ↦ rw dead tt
  | inr live ↦ simp live (held, refl, omega arith)
]

scanned-Goes :
    (read : Bytes → Option (Bytes × Bytes)) (next : Bytes → Parser Step) (text : Bytes)
    (limit : Bytes) (m : Allocator) (n : ℕ)
    → ((bytes rest : Bytes) → read text ≡ some (bytes, rest) → Reads limit bytes rest)
    → ((bytes rest : Bytes) (n' : ℕ)
        → Reads limit bytes rest
        → Returns (Goes limit) (next bytes rest m n').0)
    → Returns (Goes limit) ((scan read >>= next) text m n).0
scanned-Goes read next text limit m n h k = elim (Option-cases (read text)) [
  | inl nothing ↦ rw nothing tt
  | inr (o, found) ↦ rw found (k o.0 o.1 n (h o.0 o.1 found))
]

put-Goes :
    (b : Buf) (bytes limit text : Bytes) (m : Allocator) (n : ℕ)
    → IsUtf8 bytes
    → length text < length limit
    → Held b
    → Returns (Goes limit) (put b bytes text m n).0
unfolding put
put-Goes b bytes limit text m n valid shorter held =
    (append-Held bytes b _ _ valid held (append-Appended bytes b m n held.valid), shorter)

put_bytes-Goes :
    (b : Buf) (bytes limit text : Bytes) (m : Allocator) (n : ℕ)
    → IsUtf8 bytes
    → length text < length limit
    → Held b
    → Returns (Goes limit) (put_bytes b bytes text m n).0
unfolding put_bytes
put_bytes-Goes b bytes limit text m n valid shorter held =
    (append-Held bytes b _ _ valid held (append_bytes-Appended bytes b m n held.valid), shorter)

longer-Reads : (c : ℕ) (cs bytes rest : Bytes) → Reads cs bytes rest → Reads (c ∷ cs) bytes rest
longer-Reads c cs bytes rest (valid, shorter) = (valid, omega arith)

string_step-Goes :
    (b : Buf) (text : Bytes) (m : Allocator) (n : ℕ)
    → Held b
    → Returns (Goes text) (string_step b text m n).0
unfolding string_step
string_step-Goes b [] m n held = tt
string_step-Goes b (c ∷ cs) m n held = elim (Bool-cases (c == b'"')) [
  | inl quote ↦ rw quote (close-Goes b c cs m n held)
  | inr inside ↦ elim (Bool-cases (c == b'\\')) [
    | inl backslash ↦
        rw (inside, backslash)
          (scanned-Goes read_escape (put_bytes b) cs (c ∷ cs) m n
            (λ bytes rest h. longer-Reads c cs bytes rest (read_escape_lem cs bytes rest h))
            (λ bytes rest n' (valid, shorter).
              put_bytes-Goes b bytes (c ∷ cs) rest m n' valid shorter held))
    | inr other ↦
        rw (inside, other)
          (scanned-Goes read_plain (put b) (c ∷ cs) (c ∷ cs) m n (read_plain_lem (c ∷ cs))
            (λ bytes rest n' (valid, shorter).
              put-Goes b bytes (c ∷ cs) rest m n' valid shorter held))
  ]
]

next_round :
    (fuel : ℕ) (s : Step) (limit text : Bytes) (m : Allocator) (n : ℕ)
    → Goes limit s text
    → ((b : Buf)
        → Held b
        → length text < length limit
        → Returns (Ends text) (string_loop fuel b text m n).0)
    → Returns (Ends limit) (go_round (string_loop fuel) s text m n).0
unfolding go_round
next_round fuel (finished b) limit text m n (held, live, shorter) loop =
    (held.valid, held.content live, live, shorter)
next_round fuel (more b) limit text m n (held, shorter) loop =
    Returns-weaken (string_loop fuel b text m n).0 (Ends text) (Ends limit) (loop b held shorter)
      (λ b' rest (v, u, f, s). (v, u, f, omega arith))

string_loop-Ends :
    (fuel : ℕ) (b : Buf) (text : Bytes) (m : Allocator) (n : ℕ)
    → length text < fuel
    → Held b
    → Returns (Ends text) (string_loop fuel b text m n).0
unfolding string_loop
string_loop-Ends zero b text m n h held = absurd (omega arith)
string_loop-Ends (suc fuel) b text m n h held =
    >>=-Returns (string_step b) (go_round (string_loop fuel)) (Goes text) (Ends text) text m n
      (string_step-Goes b text m n held)
      (λ s rest n' goes.
        next_round fuel s text rest m n' goes
          (λ b' held' shorter. string_loop-Ends fuel b' rest m n' (omega arith) held'))

-- A string token is read without running out of fuel, and where it is accepted what it stands for
-- is UTF-8 and at least its opening quote is gone from the text.
pub string_into-Ends :
    (text : Bytes) (m : Allocator) (n : ℕ) → Returns (Ends text) (string_into text m n).0
unfolding string_into
string_into-Ends [] m n = tt
string_into-Ends (c ∷ cs) m n = elim (Bool-cases (c == b'"')) [
  | inr other ↦ rw other tt
  | inl quote ↦ rw quote (
      Returns-weaken (string_loop (suc (length (c ∷ cs))) Buf.empty cs m n).0 (Ends cs)
        (Ends (c ∷ cs))
        (string_loop-Ends (suc (length (c ∷ cs))) Buf.empty cs m n (omega arith)
          (record { valid = empty-IsValid; content = λ _. no_more }))
        (λ b rest (v, u, f, s). (v, u, f, omega arith)))
]
