-- ===== src/Base64/RoundTrip.antt =====
-- What the decoder accepts, and that it undoes the encoder.
use mathlib.Core.List.{append-nil, append_assoc}
use mathlib.Core.Option.{some-injective}
use native.Mathlib.Nat.{sub-zero}
use tamga_c.Prelude.{
  ℕ, zero, suc, ◌+◌, ◌-◌, ◌%◌, ◌≤◌, ◌<◌, ◌≡◌, ◌≢◌, ◌⊎◌, inl, inr, refl, sym, ap, ◌∙◌, true, false,
  ◌&&◌, none, some, arith, ltb, ◌==◌, if◌then◌else◌, Bool-cases, [], ◌∷◌, ◌++◌, length,
  length-append, length-take, take, get_or, replicate, All, All-take, All-get_or, IsByte, Bytes,
  take-suc, take-length_self, take-append_self, get_or-append_left, get_or-append_right,
  get_or-replicate, length-replicate, replicate_snoc,
}
use tamga_c.Base64.{pad_char, strip_padding, lengths_ok, decode_body, base64_decode, base64_encode}
use tamga_c.Base64.Shape.{
  unpadded, padding, base64_encode_lem, length-unpadded, unpadded_pos, unpadded-ne-pad,
}
use tamga_c.Base64.Quartets.{decode_body-eq-read, read_canonical, read-unpadded}

-- Stripping a text that ends in `q` padding characters behind `xs`.
strip_padding-replicate :
    (p q room pad : ℕ) (xs : Bytes)
    → All (λ c. c ≢ pad_char) xs
    → p ≤ room
    → p ≤ q
    → strip_padding room (xs ++ replicate q pad_char) (length xs + p) pad ≡ (length xs, pad + p)
unfolding strip_padding
strip_padding-replicate p q zero pad xs h r l = ground arith
strip_padding-replicate zero q (suc room) pad xs h r l =
    let text = xs ++ replicate q pad_char in
    let stop : (ltb 0 (length xs + 0) && get_or text (length xs + 0 - 1) 0 == pad_char) ≡ false =
      ground (
        arith,
        get_or-append_left xs (replicate q pad_char) (length xs + 0 - 1) 0,
        All-get_or (λ c. c ≢ pad_char) xs (length xs + 0 - 1) 0 h,
      ) in
    rw stop (ground arith)
strip_padding-replicate (suc p) q (suc room) pad xs h r l =
    let text = xs ++ replicate q pad_char in
    let index : length xs + suc p - 1 ≡ length xs + p = omega arith in
    let byte : get_or text (length xs + p) 0 ≡ pad_char =
      get_or-append_right xs (replicate q pad_char) p 0 ∙ get_or-replicate q p pad_char 0 l in
    let go : (ltb 0 (length xs + suc p) && get_or text (length xs + suc p - 1) 0 == pad_char)
        ≡ true =
      rw (index, byte) (ground arith) in
    rw (go, index)
      (strip_padding-replicate p q room (pad + 1) xs h (omega arith) (omega arith) ∙ ground arith)

-- What stripping removes: padding characters, at most `room` of them.
record Stripped (room pad n : ℕ) (text : Bytes) (r : ℕ × ℕ) : Type 0 where
  total : r.0 + r.1 ≡ n + pad
  more : pad ≤ r.1
  most : r.1 ≤ pad + room
  kept : take n text ≡ take r.0 text ++ replicate (r.1 - pad) pad_char

Stripped-more :
    (room pad n : ℕ) (text : Bytes) (r : ℕ × ℕ)
    → n ≤ length text
    → 0 < n
    → get_or text (n - 1) 0 ≡ pad_char
    → Stripped room (pad + 1) (n - 1) text r
    → Stripped (suc room) pad n text r
Stripped-more room pad zero text r h pos byte s = absurd (omega arith)
Stripped-more room pad (suc m) text r h pos byte s = record {
  total = omega (arith, s.total);
  more = omega (arith, s.more);
  most = omega (arith, s.most);
  kept =
      let back : suc m - 1 ≡ m = omega arith in
      let count : suc (r.1 - (pad + 1)) ≡ r.1 - pad = omega (arith, s.more) in
      let byte' : get_or text m 0 ≡ pad_char = rw back at byte in
      let kept' : take m text ≡ take r.0 text ++ replicate (r.1 - (pad + 1)) pad_char =
        rw back at s.kept in
      take-suc m text 0 h ∙ rw (byte', kept', append_assoc, replicate_snoc, ← count);
}

Stripped-none : (room pad n : ℕ) (text : Bytes) → Stripped room pad n text (n, pad)
Stripped-none room pad n text =
    let nothing : pad - pad ≡ 0 = omega arith in
    record {
      total = refl;
      more = omega arith;
      most = omega arith;
      kept = rw nothing (sym (append-nil _));
    }

strip_padding-Stripped :
    (room pad n : ℕ) (text : Bytes)
    → n ≤ length text
    → Stripped room pad n text (strip_padding room text n pad)
unfolding strip_padding
strip_padding-Stripped zero pad n text h = Stripped-none 0 pad n text
strip_padding-Stripped (suc room) pad n text h =
    elim (Bool-cases (ltb 0 n && get_or text (n - 1) 0 == pad_char)) [
      | inl go ↦ rw go (
          Stripped-more room pad n text _ h (ground arith) (ground arith)
            (strip_padding-Stripped room (pad + 1) (n - 1) text (omega arith)))
      | inr stop ↦ rw stop (Stripped-none (suc room) pad n text)
    ]

module _ (text : Bytes) where
  -- The decoder on a text that ends in `p` padding characters behind `xs`.
  decode-padded :
      (xs : Bytes) (p : ℕ)
      → text ≡ xs ++ replicate p pad_char
      → All (λ c. c ≢ pad_char) xs
      → p ≤ 2
      → 0 < length text
      → base64_decode text ≡ (if lengths_ok text (length xs) p then decode_body xs else none)
  unfolding base64_decode
  decode-padded xs p e h small pos =
      let len : length text ≡ length xs + p =
        ap length e ∙ length-append xs _ ∙ ap (λ k. length xs + k) (length-replicate p pad_char) in
      let some_text : (length text == 0) ≡ false = ground arith in
      let strip : strip_padding 2 text (length text) 0 ≡ (length xs, p) =
        rw (len, e) (strip_padding-replicate p p 2 0 xs h small (omega arith) ∙ ground arith) in
      let body : take (length xs) text ≡ xs = rw e (take-append_self xs _) in
      rw (some_text, strip, body)

  not_pad :
      (xs : Bytes) (p : ℕ)
      → text ≡ xs ++ replicate p pad_char
      → All (λ c. c ≢ pad_char) xs
      → (ltb 0 (length xs) && get_or text (length xs - 1) 0 == pad_char) ≡ false
  not_pad xs p e h = rw e (
      ground (
        arith,
        get_or-append_left xs (replicate p pad_char) (length xs - 1) 0,
        All-get_or (λ c. c ≢ pad_char) xs (length xs - 1) 0 h,
      ))

  decode-shape :
      (bs : Bytes) (p : ℕ)
      → All IsByte bs
      → text ≡ unpadded bs ++ replicate p pad_char
      → (p ≡ padding bs) ⊎ (p ≡ 0)
      → 0 < length text
      → base64_decode text ≡ some bs
  decode-shape bs p h e shape pos =
      let clean = unpadded-ne-pad bs in
      let ok : lengths_ok text (length (unpadded bs)) p ≡ true =
        unfold lengths_ok in
        rw (not_pad (unpadded bs) p e clean) (ground (arith, length-unpadded bs)) in
      decode-padded (unpadded bs) p e clean (ground (arith, length-unpadded bs)) pos
      ∙ rw (ok, decode_body-eq-read) (read-unpadded bs 0 h)

-- The decoder gives back the bytes of their padded encoding, and of the encoding with its padding
-- left off.
pub base64_decode-base64_encode :
    (bs : Bytes)
    → All IsByte bs
    → (base64_decode (base64_encode bs) ≡ some bs) × (base64_decode (unpadded bs) ≡ some bs)
base64_decode-base64_encode [] h = unfold base64_decode base64_encode unpadded in (refl, refl)
base64_decode-base64_encode (x ∷ xs) h =
    let text = base64_encode (x ∷ xs) in
    let e = base64_encode_lem (x ∷ xs) h in
    let pos = unpadded_pos x xs in
    let pos' : 0 < length text = rw (e, length-append) (omega arith) in
    (
      decode-shape text (x ∷ xs) (padding (x ∷ xs)) h e (inl refl) pos',
      decode-shape (unpadded (x ∷ xs)) (x ∷ xs) 0 h (sym (append-nil _)) (inr refl) pos,
    )

-- What the tests on the lengths say of the stripped text.
lengths_ok_lem :
    (text : Bytes) (n p : ℕ)
    → lengths_ok text n p ≡ true
    → p ≤ 2
    → (n % 4 ≢ 1) × ((p ≡ 0) ⊎ ((p ≡ 1) × (n % 4 ≡ 3) ⊎ (p ≡ 2) × (n % 4 ≡ 2)))
unfolding lengths_ok
lengths_ok_lem text n p h small = (ground arith, ground arith)

accepted_shape :
    (text bs : Bytes) (r : ℕ × ℕ)
    → All IsByte text
    → Stripped 2 0 (length text) text r
    → (if lengths_ok text r.0 r.1 then decode_body (take r.0 text) else none) ≡ some bs
    → All IsByte bs × ((text ≡ base64_encode bs) ⊎ (text ≡ unpadded bs))
accepted_shape text bs (n, p) h s e =
    let ok : lengths_ok text n p ≡ true = ground arith in
    let body : decode_body (take n text) ≡ some bs = ground arith in
    let (not_one, shape) = lengths_ok_lem text n p ok s.most in
    let size : length (take n text) ≡ n = omega (arith, length-take n text, s.total) in
    let (bytes, same) =
      read_canonical (take n text) bs 0 (All-take IsByte n text h) (rw size not_one)
        (sym (decode_body-eq-read _) ∙ body) in
    let whole : text ≡ unpadded bs ++ replicate p pad_char =
      sym (take-length_self text) ∙ s.kept ∙ rw (same, sub-zero p) in
    let count : length (unpadded bs) ≡ n = ap length same ∙ size in
    let padded : p ≢ 0 → text ≡ base64_encode bs = λ some_pad.
      let fits : p ≡ padding bs = ground (arith, length-unpadded bs) in
      whole ∙ rw (base64_encode_lem bs bytes, fits) in
    (
      bytes,
      elim shape [
        | inl bare ↦ inr (whole ∙ rw (bare, append-nil))
        | inr (inl (one, _)) ↦ inl (padded (omega arith))
        | inr (inr (two, _)) ↦ inl (padded (omega arith))
      ],
    )

-- A text that the decoder accepts is the encoding of the bytes that it gives, padded in full or
-- not at all.
pub base64_decode_canonical :
    (text bs : Bytes)
    → All IsByte text
    → base64_decode text ≡ some bs
    → All IsByte bs × ((text ≡ base64_encode bs) ⊎ (text ≡ unpadded bs))
unfolding base64_decode
base64_decode_canonical [] bs h e =
    let nil : bs ≡ [] = sym (some-injective _ _ e) in
    rw nil (tt, inl (unfold base64_encode in refl))
base64_decode_canonical (c ∷ cs) bs h e =
    accepted_shape (c ∷ cs) bs _ h (strip_padding-Stripped 2 0 _ (c ∷ cs) (omega arith))
      (ground arith)
