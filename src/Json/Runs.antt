-- ===== src/Json/Runs.antt =====
-- The theorem on copies at a concrete document.
use tamga_c.Prelude.{◌≡◌, refl, true, codes, bytes_eq, contains_byte, c_string}
use tamga_c.Prelude.Int.{pos}
use tamga_c.Memory.{checked_add, checked_mul}
use tamga_c.Memory.Exec.{Allocator, ok}
use tamga_c.Json.{Json, null, integer, string, array, object, nil, cons, end, member}
use tamga_c.Json.Clone.{clone, snoc, snoc_member, copy_key, has_key, new_node, new_string, grow}
use tamga_c.Json.Clone.Exact.{IsClean, clone-eq}

abbrev generous : Allocator
generous = record { grants = λ n size. true }

abbrev document : Json
document = object (
    member (codes "a") (array (cons null (cons (integer (pos 3)) nil)))
      (member (codes "b") (string (codes "x")) end))

document-IsClean : IsClean document
unfolding IsClean contains_byte has_key bytes_eq
document-IsClean = (refl, refl, (tt, (tt, tt)), (refl, refl, tt, tt))

copies : (clone document generous 0).0 ≡ ok document
unfolding clone snoc snoc_member copy_key has_key new_node new_string grow bytes_eq contains_byte
    c_string checked_add checked_mul
copies = refl

clone-eq_example : document ≡ document
clone-eq_example = clone-eq document generous 0 document document-IsClean copies
