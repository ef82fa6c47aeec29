-- ===== src/Checkout/KeySet/Store.antt =====
-- src/checkout/key_set.c: creating a key set and adding one key to it.
pub mod Keeps
use tamga_c.Prelude.{
  ℕ, ◌+◌, ◌-◌, Bool, true, false, ◌&&◌, ◌||◌, not, Option, none, some, List, [], ◌∷◌, ◌++◌, ltb,
  leb, ◌==◌, if◌then◌else◌, length, take, Bytes, bytes_eq, c_string,
}
use tamga_c.Memory.{checked_add, checked_mul, max_reasonable_len}
use tamga_c.Memory.Growth.{Growth, grown, overflow, stuck, double_until}
use tamga_c.Memory.Exec.{
  Allocator, Exec, Result, ok, err, pure, raise, lift, guard, or_error, allocate,
}
use tamga_c.Errors.{ErrorCode, out_of_memory, length_invalid, null_argument}
use tamga_c.Checkout.Primitives.{Primitives}
use tamga_c.Checkout.KeySet.{Entry, KeySet}
use tamga_c.Checkout.KeySet.Keys.{copy_id, key_id_compute, key_decode}

-- A function that writes to a set returns the set as it leaves it, on its error paths too.
abbrev pub SetExec : Type 0 → Type 0
SetExec A = KeySet → Allocator → ℕ → Result ErrorCode A × KeySet × ℕ

module _ {A B : Type 0} where
  abbrev pub continue : Result ErrorCode A → (A → SetExec B) → SetExec B
  continue (ok a) f s m n = f a s m n
  continue (err e) f s m n = (err e, s, n)

  infixl 5 ◌>>=◌ ◌>>◌
  abbrev pub ◌>>=◌ : SetExec A → (A → SetExec B) → SetExec B
  ◌>>=◌ act f s m n = let (r, s', n') = act s m n in continue r f s' m n'

  abbrev pub ◌>>◌ : SetExec A → SetExec B → SetExec B
  a >> b = a >>= λ _. b

module _ {A : Type 0} where
  -- An action that does not touch the set.
  abbrev pub run : Exec ErrorCode A → SetExec A
  run act s m n = let (r, n') = act m n in (r, s, n')

-- sizeof(TamgaSigningKeyEntry) on a 64-bit target.
abbrev pub entry_size : ℕ
entry_size = 40

abbrev pub initial_capacity : ℕ
initial_capacity = 4

set_capacity : ℕ → SetExec (Unit {0})
set_capacity capacity s m n = (ok tt, record s { capacity = capacity }, n)

grow_entries : ℕ → SetExec (Unit {0})
grow_entries capacity = do
  bytes ← run (lift (or_error out_of_memory (checked_mul capacity entry_size)))
  run (allocate out_of_memory bytes)
  set_capacity capacity

after_growth : Growth → SetExec (Unit {0})
after_growth (grown capacity) = grow_entries capacity
after_growth overflow = run (raise out_of_memory)
after_growth stuck = run (raise out_of_memory)

-- tamga_key_set_reserve. With the fuel that `double_until-ne-stuck` asks for, `stuck` does not come
-- up.
unfoldable pub reserve : ℕ → SetExec (Unit {0})
unfolding after_growth grow_entries set_capacity
reserve additional s =
    (do
      needed ← run (lift (or_error out_of_memory (checked_add (length s.entries) additional)))
      if leb needed s.capacity
          then run (pure tt)
          else after_growth
              (double_until 65 (if s.capacity == 0 then initial_capacity else s.capacity) needed))
      s

push_entry : Entry → SetExec (Unit {0})
push_entry e s m n = (ok tt, record s { entries = s.entries ++ e ∷ [] }, n)

-- tamga_key_set_append. After a reserve that succeeds the array is there.
unfoldable pub append : Bytes → Bytes → SetExec (Unit {0})
unfolding push_entry
append key_id public_key = do
  reserve 1
  run (copy_id (c_string key_id))
  push_entry (record { key_id = c_string key_id; public_key = public_key })

-- tamga_key_set_add_public_key; `none` is a NULL key.
unfoldable pub add_public_key : Primitives → Option Bytes → SetExec (Unit {0})
add_public_key p none = run (raise null_argument)
add_public_key p (some text) = do
  let public_key = c_string text
  run (guard (not (ltb max_reasonable_len (length public_key))) length_invalid)
  decoded ← run (key_decode public_key)
  append (key_id_compute p public_key) decoded
