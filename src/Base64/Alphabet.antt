-- ===== src/Base64/Alphabet.antt =====
-- The alphabet and its reverse table are inverse to one another.
use tamga_c.Prelude.{
  ℕ, ◌%◌, ◌<◌, ◌≡◌, ◌≢◌, refl, true, ◌&&◌, ◌||◌, not, arith, ltb, ◌==◌, passes_below,
  passes_below_lem, IsByte,
}
use tamga_c.Base64.{sextet, letter, pad_char}

letter_table : passes_below (λ s. sextet (letter s) == s && not (letter s == pad_char)) 64 ≡ true
unfolding passes_below sextet letter
letter_table = refl

pub sextet-letter : (s : ℕ) → s < 64 → (sextet (letter s) ≡ s) × (letter s ≢ pad_char)
sextet-letter s h = ground (arith, passes_below_lem _ 64 s letter_table h)

sextet_table :
    passes_below (λ c. sextet c == 0xff || (ltb (sextet c) 64 && letter (sextet c) == c)) 256 ≡ true
unfolding passes_below sextet letter
sextet_table = refl

pub letter-sextet : (c : ℕ) → IsByte c → sextet c ≢ 0xff → (letter (sextet c) ≡ c) × (sextet c < 64)
letter-sextet c h n = ground (arith, passes_below_lem _ 256 c sextet_table h)

pub sextet-pad_char : sextet pad_char ≡ 0xff
unfolding sextet
sextet-pad_char = refl

pub letter_mod : (s : ℕ) → letter (s % 64) ≡ letter s
unfolding letter
letter_mod s = let e : s % 64 % 64 ≡ s % 64 = omega arith in rw e
