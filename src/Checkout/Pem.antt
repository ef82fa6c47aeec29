-- ===== src/Checkout/Pem.antt =====
-- src/checkout/pem.c: the body between two PEM markers, without its white space.
pub mod Extract
mod Runs
use tamga_c.Prelude.{
  ℕ, ◌+◌, ◌-◌, Bool, true, false, ◌||◌, ◌&&◌, not, Option, none, some, [], ◌∷◌, ltb, leb, ◌==◌,
  if◌then◌else◌, length, take, drop, Bytes, bytes_eq,
}
use tamga_c.Memory.{max_reasonable_len}
use tamga_c.Memory.Exec.{Exec, Allocator, Result, ok, err, lift, guard, or_error, ◌>>=◌, ◌>>◌}
use tamga_c.Errors.{ErrorCode, length_invalid, invalid_pem, out_of_memory}
use tamga_c.Buf
use tamga_c.Buf.{append_bytes, detach_string}

abbrev pub is_space : ℕ → Bool
is_space c = c == 32 || c == 9 || c == 10 || c == 13 || c == 11 || c == 12

-- `while (start < end && is_space(pem[start])) start++`
unfoldable pub trim_start : Bytes → Bytes
trim_start [] = []
trim_start (c ∷ cs) = let rest = trim_start cs in if is_space c then rest else c ∷ cs

-- `while (end > start && is_space(pem[end - 1])) end--`
abbrev keep_end : ℕ → Bytes → Bytes
keep_end c [] = if is_space c then [] else c ∷ []
keep_end c (d ∷ ds) = c ∷ d ∷ ds

unfoldable pub trim_end : Bytes → Bytes
trim_end [] = []
trim_end (c ∷ cs) = keep_end c (trim_end cs)

unfoldable pub trim : Bytes → Bytes
unfolding trim_start trim_end
trim text = trim_end (trim_start text)

unfoldable pub drop_spaces : Bytes → Bytes
drop_spaces [] = []
drop_spaces (c ∷ cs) = let rest = drop_spaces cs in if is_space c then rest else c ∷ rest

-- The body is appended byte by byte to a fresh buffer, and taken out as a string.
collect : Bytes → Exec ErrorCode Bytes
collect body m n =
    let (b, n') = append_bytes (drop_spaces body) Buf.empty m n in
    let (out, n'') = detach_string b m n' in (or_error out_of_memory out, n'')

-- The three tests on the trimmed text, and the span between the markers.
unfoldable pub body_between : Bytes → Bytes → Bytes → Result ErrorCode Bytes
body_between begin_marker end_marker text =
    let begin_len = length begin_marker in
    let end_len = length end_marker in
    if ltb (length text) (begin_len + end_len)
    then err invalid_pem
    else if not (bytes_eq (take begin_len text) begin_marker)
    then err invalid_pem
    else if not (bytes_eq (drop (length text - end_len) text) end_marker)
    then err invalid_pem
    else ok (take (length text - begin_len - end_len) (drop begin_len text))

-- tamga_pem_extract, its pointers not NULL.
unfoldable pub pem_extract : Bytes → Bytes → Bytes → Exec ErrorCode Bytes
unfolding collect
pem_extract pem begin_marker end_marker = do
  guard (not (length pem == 0 || ltb max_reasonable_len (length pem))) length_invalid
  body ← lift (body_between begin_marker end_marker (trim pem))
  collect body
