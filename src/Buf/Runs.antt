-- ===== src/Buf/Runs.antt =====
-- The theorems on buffers at concrete inputs.
use tamga_c.Prelude.{◌≡◌, refl, true, false, none, some, arith, if◌then◌else◌, contains_byte, codes}
use tamga_c.Memory.{checked_add}
use tamga_c.Memory.Exec.{Allocator}
use tamga_c.Buf.{Buf, empty, reserve, append, append_bytes, detach_string}
use tamga_c.Buf.Laws.{IsValid, Appended, append-refines}
use tamga_c.Buf.Granted.{detach_string-append_bytes}

abbrev generous : Allocator
generous = record { grants = λ n size. true }

abbrev small_buf : Buf
small_buf = record { content = codes "ab"; capacity = 64; failed = false }

small_buf-IsValid : IsValid small_buf
small_buf-IsValid = record { fits = omega arith; bounded = omega arith }

append-refines_example :
    Appended (codes "cd") small_buf (append (codes "cd") small_buf generous 0)
    × Appended (codes "cd") small_buf (append_bytes (codes "cd") small_buf generous 0)
append-refines_example = append-refines (codes "cd") small_buf generous 0 small_buf-IsValid

detaches : (detach_string small_buf generous 0).0 ≡ some (codes "ab")
unfolding detach_string reserve contains_byte checked_add
detaches = refl

detach_string-append_bytes_example :
    (let (b, n') = append_bytes (codes "ab") empty generous 0 in (detach_string b generous n').0)
    ≡ (if contains_byte 0 (codes "ab") then none else some (codes "ab"))
detach_string-append_bytes_example =
    detach_string-append_bytes (codes "ab") generous 0 (λ n size. refl) (omega arith)
