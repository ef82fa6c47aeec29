-- ===== src/Fingerprint/Built.antt =====
-- What the steps of tamga_fingerprint_build_canonical leave behind where they succeed.
use mathlib.Core.Path.{subst}
use tamga_c.Prelude.{
  ℕ, ◌<◌, ◌≡◌, inl, inr, refl, sym, ap, ◌∙◌, Bool, true, false, not, ◌&&◌, Option, none, some,
  arith, List, [], ◌∷◌, ◌++◌, map, ltb, length, All, Bytes, c_string, Bool-cases,
}
use mathlib.Core.List.{append_assoc, append-nil}
use mathlib.Core.Option.{some-injective}
use tamga_c.Memory.{checked_mul}
use tamga_c.Memory.Exec.{
  Allocator, ok, lift, guard, or_error, allocate, ◌>>=◌, >>=-eq-ok, ok-injective, guard-eq-ok,
  or_error-eq-ok,
}
use tamga_c.Errors.{invalid_fingerprint_component, out_of_memory}
use tamga_c.Buf.{Buf, empty, append, detach_string}
use tamga_c.Buf.Laws.{IsValid, append-Appended, detach_string_lem}
use tamga_c.Buf.Granted.{empty-IsValid}
use tamga_c.Checkout.Pem.{trim}
use tamga_c.Fingerprint.{
  Component, component_size, domain, separator, equals, Qsort, has_control, is_label, label_length,
  compare, assemble, build_component, build_all, has_duplicates, write_components, write_canonical,
  build_canonical,
}
use tamga_c.Fingerprint.Entries.{Input, entry, IsEntry, component_of, line, joined}

assemble_lem :
    (label value : Bytes) (m : Allocator) (n : ℕ) (text : Bytes)
    → (assemble label value m n).0 ≡ ok text
    → text ≡ line (label, value)
unfolding assemble
assemble_lem label value m n text h =
    let (b1, n1) = append label empty m n in
    let a1 = append-Appended label empty m n empty-IsValid in
    let (b2, n2) = append (equals ∷ []) b1 m n1 in
    let a2 = append-Appended (equals ∷ []) b1 m n1 a1.valid in
    let (b3, n3) = append value b2 m n2 in
    let a3 = append-Appended value b2 m n2 a2.valid in
    let (same, live3, _) =
      detach_string_lem b3 m n3 text a3.valid
        (or_error-eq-ok out_of_memory (detach_string b3 m n3).0 h) in
    let (live2, text3) = a3.live live3 in
    let (live1, text2) = a2.live live2 in
    let (_, text1) = a1.live live1 in
    same
    ∙ text3
    ∙ ap (λ t. t ++ value) (text2 ∙ ap (λ t. t ++ equals ∷ []) text1)
    ∙ append_assoc label (equals ∷ []) value

write_components_lem :
    (cs : List Component) (b : Buf) (m : Allocator) (n : ℕ)
    → IsValid b
    → (let r = write_components cs b m n in
        IsValid r.0
        × (r.0.failed ≡ false
            → (b.failed ≡ false) × (r.0.content ≡ b.content ++ joined (map (λ c. c.text) cs))))
unfolding write_components
write_components_lem [] b m n v = (v, λ live. (live, sym (append-nil b.content)))
write_components_lem (c ∷ cs) b m n v =
    let (b1, n1) = append (separator ∷ []) b m n in
    let a1 = append-Appended (separator ∷ []) b m n v in
    let (b2, n2) = append c.text b1 m n1 in
    let a2 = append-Appended c.text b1 m n1 a1.valid in
    let (valid, more) = write_components_lem cs b2 m n2 a2.valid in
    (
      valid,
      λ live.
          let (live2, text3) = more live in
          let (live1, text2) = a2.live live2 in
          let (live0, text1) = a1.live live1 in
          let tail = joined (map (λ c. c.text) cs) in
          (
            live0,
            text3
                ∙ ap (λ t. t ++ tail) (text2 ∙ ap (λ t. t ++ c.text) text1)
                ∙ append_assoc (b.content ++ separator ∷ []) c.text tail
                ∙ append_assoc b.content (separator ∷ []) (c.text ++ tail),
          ),
    )

write_canonical_lem :
    (cs : List Component) (m : Allocator) (n : ℕ) (s : Bytes)
    → (write_canonical cs m n).0 ≡ ok s
    → s ≡ domain ++ joined (map (λ c. c.text) cs)
unfolding write_canonical
write_canonical_lem cs m n s h =
    let (b1, n1) = append domain empty m n in
    let a1 = append-Appended domain empty m n empty-IsValid in
    let (b2, n2) = write_components cs b1 m n1 in
    let (valid, more) = write_components_lem cs b1 m n1 a1.valid in
    let (same, live2, _) =
      detach_string_lem b2 m n2 s valid
        (or_error-eq-ok out_of_memory (detach_string b2 m n2).0 h) in
    let (live1, text2) = more live2 in
    let (_, text1) = a1.live live1 in
    same ∙ text2 ∙ ap (λ t. t ++ joined (map (λ c. c.text) cs)) text1

label_length_lem :
    (label : Bytes) (len : ℕ)
    → label_length label ≡ some len
    → (is_label label ≡ true) × (0 < length label) × (len ≡ length label)
unfolding label_length
label_length_lem label len h = elim (Bool-cases (is_label label && ltb 0 (length label))) [
  | inl good ↦ (ground arith, ground arith, sym (some-injective _ _ (rw good at h)))
  | inr bad ↦ absurd (cc (rw bad at h))
]

not-eq-true : (b : Bool) → not b ≡ true → b ≡ false
not-eq-true true h = cc
not-eq-true false h = refl

build_component_lem :
    (label value : Option Bytes) (m : Allocator) (n : ℕ) (c : Component)
    → (build_component label value m n).0 ≡ ok c
    → IsEntry (entry (label, value)) × (c ≡ component_of (entry (label, value)))
unfolding build_component entry
build_component_lem none value m n c h = cc
build_component_lem (some label) none m n c h = cc
build_component_lem (some label) (some value) m n c h =
    let name = c_string label in
    let content = trim (c_string value) in
    let (len, h0, k0) =
      >>=-eq-ok (lift (or_error invalid_fingerprint_component (label_length name))) _ h in
    let (_, h1, k1) =
      >>=-eq-ok (guard (not (has_control content)) invalid_fingerprint_component) _ k0 in
    let (text, h2, k2) = >>=-eq-ok (assemble name content) _ k1 in
    let (good, some_bytes, same_len) =
      label_length_lem name len
        (or_error-eq-ok invalid_fingerprint_component (label_length name) h0) in
    let same_text = assemble_lem name content m _ text h2 in
    (
      record {
        label = good;
        named = some_bytes;
        value = not-eq-true _ (guard-eq-ok _ invalid_fingerprint_component m _ h1);
      },
      sym (ok-injective k2) ∙ with_fields same_text same_len,
    )
  where
    with_fields :
        {t u : Bytes} {a b : ℕ}
        → t ≡ u
        → a ≡ b
        → ◌≡◌ {A = Component}
            (record { text = t; label_len = a })
            (record { text = u; label_len = b })
    with_fields e f = cc

build_all_lem :
    (inputs : List Input) (m : Allocator) (n : ℕ) (cs : List Component)
    → (build_all inputs m n).0 ≡ ok cs
    → All IsEntry (map entry inputs) × (cs ≡ map component_of (map entry inputs))
unfolding build_all
build_all_lem [] m n cs h = (tt, sym (ok-injective h))
build_all_lem ((label, value) ∷ more) m n cs h =
    let (c, h0, k0) = >>=-eq-ok (build_component label value) _ h in
    let (rest, h1, k1) = >>=-eq-ok (build_all more) _ k0 in
    let (good, same) = build_component_lem label value m n c h0 in
    let (all_good, all_same) = build_all_lem more m _ rest h1 in
    ((good, all_good), sym (ok-injective k1) ∙ both same all_same)
  where
    both :
        {c d : Component} {cs ds : List Component}
        → c ≡ d
        → cs ≡ ds
        → ◌≡◌ {A = List Component} (c ∷ cs) (d ∷ ds)
    both e f = cc

-- What stands behind a canonical string.
pub record Canonical (qsort : Qsort) (inputs : List Input) (s : Bytes) : Type 0 where
  pub some_input : 0 < length inputs
  pub entries : All IsEntry (map entry inputs)
  pub once : has_duplicates (qsort compare (map component_of (map entry inputs))) ≡ false
  pub text :
      s ≡ domain ++ joined (map (λ c. c.text) (qsort compare (map component_of (map entry inputs))))

pub build_canonical-Canonical :
    (qsort : Qsort) (inputs : List Input) (m : Allocator) (n : ℕ) (s : Bytes)
    → (build_canonical qsort inputs m n).0 ≡ ok s
    → Canonical qsort inputs s
unfolding build_canonical
build_canonical-Canonical qsort inputs m n s h =
    let nonempty = ltb 0 (length inputs) in
    let (_, h0, k0) = >>=-eq-ok (guard nonempty invalid_fingerprint_component) _ h in
    let size = checked_mul (length inputs) component_size in
    let (total, _, k1) = >>=-eq-ok (lift (or_error out_of_memory size)) _ k0 in
    let (_, _, k2) =
      >>=-eq-ok (allocate out_of_memory total)
        (λ _. build_all inputs >>= λ components.
          guard (not (has_duplicates (qsort compare components))) invalid_fingerprint_component
          >>= λ _. write_canonical (qsort compare components))
        {m = m} {n = _} k1 in
    let (cs, h3, k3) = >>=-eq-ok (build_all inputs) _ k2 in
    let (_, h4, k4) =
      >>=-eq-ok (guard (not (has_duplicates (qsort compare cs))) invalid_fingerprint_component) _
        k3 in
    let (good, same) = build_all_lem inputs m _ cs h3 in
    let live : (0 < length inputs) =
      ground (arith, guard-eq-ok nonempty invalid_fingerprint_component m n h0) in
    record {
      some_input = live;
      entries = good;
      once =
          subst (λ cs. has_duplicates (qsort compare cs) ≡ false) same
            (not-eq-true _ (guard-eq-ok _ invalid_fingerprint_component m _ h4));
      text =
          subst (λ cs. s ≡ domain ++ joined (map (λ c. c.text) (qsort compare cs))) same
            (write_canonical_lem (qsort compare cs) m _ s k4);
    }
