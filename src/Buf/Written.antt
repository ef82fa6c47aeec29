-- ===== src/Buf/Written.antt =====
-- A string that is written by a sequence of appends to a fresh buffer and handed over at the end, as
-- the functions of src/http/client.c and src/util/json_write.c do, and tamga_buf_append_str of
-- src/util/buf.c.
use mathlib.Core.List.{append_assoc}
use tamga_c.Prelude.{
  ℕ, ◌+◌, ◌≡◌, ap, ◌∙◌, Bool, true, false, Option, none, some, arith, [], ◌++◌, length, Bytes,
  contains_byte, if◌then◌else◌, Bool-cases, inl, inr,
}
use tamga_c.Memory.Exec.{Allocator}
use tamga_c.Buf.{Buf, empty, fail, reserve, append, append_reserved, append_bytes, detach_string}
use tamga_c.Buf.Laws.{
  IsValid, Reserved, reserve-Reserved, append_reserved-Appended, Appended, append-Appended,
  append_bytes-Appended, detach_string_lem,
}
use tamga_c.Buf.Granted.{empty-IsValid}

abbrev pub Write : Type 0
Write = Buf → Allocator → ℕ → Buf × ℕ

infixl 5 ◌then◌
abbrev pub ◌then◌ : Write → Write → Write
◌then◌ f g b m n = let (b', n') = f b m n in g b' m n'

abbrev pub skip : Write
skip b m n = (b, n)

-- tamga_buf_append_str: NULL makes the buffer a failed one.
unfoldable pub append_str : Option Bytes → Write
append_str none b m n = (fail b, n)
append_str (some text) b m n = append text b m n

-- tamga_buf_append_fmt, of what `vsnprintf` prints; `none` is its error. One more byte is reserved, for
-- the NUL that it writes.
unfoldable pub append_fmt : Option Bytes → Write
append_fmt none b m n = if b.failed then (b, n) else (fail b, n)
append_fmt (some text) b m n =
    if b.failed then (b, n) else append_reserved text (reserve (length text + 1) b m n)

-- tamga_buf_init, the writing, tamga_buf_detach_string, tamga_buf_free.
unfoldable pub written : Write → Allocator → ℕ → Option Bytes × ℕ
written act m n = let (b, n') = act empty m n in detach_string b m n'

-- The sequence appends these bytes or leaves a failed buffer.
abbrev pub Writes : Write → Bytes → Type 0
Writes act bytes = (b : Buf) (m : Allocator) (n : ℕ) → IsValid b → Appended bytes b (act b m n)

pub skip-Writes : Writes skip []
unfolding append_bytes
skip-Writes b m n v = append_bytes-Appended [] b m n v

pub append-Writes : (bytes : Bytes) → Writes (append bytes) bytes
append-Writes bytes b m n v = append-Appended bytes b m n v

pub append_bytes-Writes : (bytes : Bytes) → Writes (append_bytes bytes) bytes
append_bytes-Writes bytes b m n v = append_bytes-Appended bytes b m n v

-- What `strlen` finds at NULL is never used.
abbrev pub text_of : Option Bytes → Bytes
text_of none = []
text_of (some text) = text

pub append_str-Writes : (text : Option Bytes) → Writes (append_str text) (text_of text)
unfolding append_str
append_str-Writes none b m n v = record {
  valid = record { fits = v.fits; bounded = v.bounded };
  live = λ e. absurd (cc e);
}
append_str-Writes (some text) b m n v = append-Appended text b m n v

more_room :
    (text : Bytes) (b : Buf) (r : Bool × Buf × ℕ)
    → Reserved (length text + 1) b r
    → Reserved (length text) b r
more_room text b r h = record {
  content = h.content;
  valid = h.valid;
  room = λ e. (let room = h.room e in omega (arith, room));
  sound = h.sound;
  sticky = h.sticky;
}

pub append_fmt-Writes : (text : Option Bytes) → Writes (append_fmt text) (text_of text)
unfolding append_fmt
append_fmt-Writes none b m n v = elim (Bool-cases b.failed) [
  | inl dead ↦ simp dead (record { valid = v; live = λ e. absurd (cc (dead, e)) })
  | inr live ↦
      simp live (record {
        valid = record { fits = v.fits; bounded = v.bounded };
        live = λ e. absurd (cc e);
      })
]
append_fmt-Writes (some text) b m n v = elim (Bool-cases b.failed) [
  | inl dead ↦ simp dead (record { valid = v; live = λ e. absurd (cc (dead, e)) })
  | inr live ↦ simp live (
      append_reserved-Appended text b _ live
        (more_room text b _ (reserve-Reserved (length text + 1) b m n v)))
]

pub then-Writes :
    (f g : Write) (xs ys : Bytes) → Writes f xs → Writes g ys → Writes (f then g) (xs ++ ys)
then-Writes f g xs ys hf hg b m n v =
    let first = hf b m n v in
    let second = hg (f b m n).0 m (f b m n).1 first.valid in
    record {
      valid = second.valid;
      live = λ e.
          let (live', e') = second.live e in
          let (live'', e'') = first.live live' in
          (live'', e' ∙ (ap (λ c. c ++ ys) e'' ∙ append_assoc _ xs ys));
    }

pub if-Writes :
    (t : Bool) (f g : Write) (xs ys : Bytes)
    → Writes f xs
    → Writes g ys
    → Writes (if t then f else g) (if t then xs else ys)
if-Writes true f g xs ys hf hg = hf
if-Writes false f g xs ys hf hg = hg

-- A string that comes out is what was written, and holds no NUL.
pub written_lem :
    (act : Write) (bytes : Bytes) (m : Allocator) (n : ℕ) (out : Bytes)
    → Writes act bytes
    → (written act m n).0 ≡ some out
    → (out ≡ bytes) × (contains_byte 0 out ≡ false)
unfolding written
written_lem act bytes m n out h e =
    let done = h empty m n empty-IsValid in
    let (same, live, clean) = detach_string_lem (act empty m n).0 m _ out done.valid e in
    let (_, content) = done.live live in (same ∙ content, clean)
