-- ===== src/Json/Parse/Strict/Nested.antt =====
-- Arrays and objects, and the induction on the fuel.
use tamga_c.Prelude.{
  ℕ, zero, suc, ◌+◌, ◌-◌, ◌*◌, ◌≤◌, ◌<◌, ◌≡◌, inl, inr, arith, ltb, length, Bytes, Bool-cases,
}
use tamga_c.Memory.Exec.{Allocator}
use tamga_c.Json.{Items, Members, array, object, nil, end}
use tamga_c.Json.Clone.{new_node}
use tamga_c.Json.Build.{array_append, object_set}
use tamga_c.Json.Parse.Reader.{peek, advance, Returns, >>=-Returns}
use tamga_c.Json.Parse.Numbers.{Conversions}
use tamga_c.Json.Parse.Numbers.Shorter.{advance-lt}
use tamga_c.Json.Parse.{
  max_depth, skip_ws, expect, built, parse_key, kind, parse_value, parse_array, parse_items,
  parse_object, parse_members,
}
use tamga_c.Json.Parse.Strict.{IsStrict, AreStrict, HasStrictMembers}
use tamga_c.Json.Parse.Strict.Leaves.{skip_ws-le, Value, Value-shorter, Key, parse_key-Key}
use tamga_c.Json.Parse.Strict.Containers.{
  kind-brace, kind-bracket, on_kind-Value, unless_closed-Value, on_delimiter-Value, expect_lem,
  opened-Returns, WithItem, item-Returns, WithMember, set_member-Returns,
}

module _ (c : Conversions) where
  mutual
    unfolding parse_value IsStrict

    value_lem :
        (fuel depth levels : ℕ) (text : Bytes) (m : Allocator) (n : ℕ)
        → depth + levels ≡ max_depth
        → 3 * length text + 3 ≤ fuel
        → Returns (Value levels text) (parse_value c fuel depth text m n).0
    value_lem zero depth levels text m n d f = absurd (omega arith)
    value_lem (suc fuel) depth levels text m n d f = elim (Bool-cases (ltb depth max_depth)) [
      | inr deep ↦ rw deep tt
      | inl shallow ↦ rw shallow (
          Value-shorter levels text (skip_ws text) _ (skip_ws-le text) (
            on_kind-Value c (parse_object c fuel depth) (parse_array c fuel depth) levels
              (kind (peek (skip_ws text))) (skip_ws text) m n (ground arith)
              (λ e.
                object_lem fuel depth levels (skip_ws text) m n d (kind-brace _ e)
                  (omega (arith, skip_ws-le text)) (ground arith))
              (λ e.
                array_lem fuel depth levels (skip_ws text) m n d (kind-bracket _ e)
                  (omega (arith, skip_ws-le text)) (ground arith))))
    ]

    array_lem :
        (fuel depth levels : ℕ) (text : Bytes) (m : Allocator) (n : ℕ)
        → depth + levels ≡ max_depth
        → peek text ≡ b'['
        → 3 * length text + 2 ≤ fuel
        → 0 < levels
        → Returns (Value levels text) (parse_array c fuel depth text m n).0
    array_lem zero depth levels text m n d at f h = absurd (omega arith)
    array_lem (suc fuel) depth levels text m n d at f h =
        let inside = skip_ws (advance text) in
        let off = advance-lt text b'[' at (omega arith) in
        >>=-Returns (built (new_node (array nil))) _ (λ _ rest. rest ≡ text) (Value levels text)
          text m n (opened-Returns (array nil) text m n)
          (λ _ rest n1 same. rw same (
            Value-shorter levels text inside _ (omega (arith, skip_ws-le (advance text))) (
              unless_closed-Value levels b']' (array nil) (parse_items c fuel depth nil 0 0) inside
                m n1 (omega arith) (h, tt)
                (items_lem fuel depth levels nil 0 0 inside m n1 d
                  (omega (arith, skip_ws-le (advance text))) h tt))))

    items_lem :
        (fuel depth levels : ℕ) (items : Items) (count capacity : ℕ) (text : Bytes) (m : Allocator)
        (n : ℕ)
        → depth + levels ≡ max_depth
        → 3 * length text + 4 ≤ fuel
        → 0 < levels
        → AreStrict (levels - 1) items
        → Returns (Value levels text) (parse_items c fuel depth items count capacity text m n).0
    items_lem zero depth levels items count capacity text m n d f h s = absurd (omega arith)
    items_lem (suc fuel) depth levels items count capacity text m n d f h s =
        >>=-Returns (parse_value c fuel (depth + 1)) _ (Value (levels - 1) text) (Value levels text)
          text m n (value_lem fuel (depth + 1) (levels - 1) text m n (omega arith) (omega arith))
          (λ item rest n1 (p, off).
            >>=-Returns (built (array_append items count capacity item)) _
              (WithItem (levels - 1) rest) (Value levels text) rest m n1
              (item-Returns (levels - 1) items count capacity item rest m n1 s p)
              (λ out rest' n2 (s', same). rw same (
                Value-shorter levels text (skip_ws rest) _ (omega (arith, skip_ws-le rest)) (
                  on_delimiter-Value levels b']' (array out.0)
                    (parse_items c fuel depth out.0 out.1 out.2) (skip_ws rest) m n2 (omega arith)
                    (h, s')
                    (λ next shorter.
                      items_lem fuel depth levels out.0 out.1 out.2 next m n2 d
                        (omega (arith, skip_ws-le rest)) h s')))))

    object_lem :
        (fuel depth levels : ℕ) (text : Bytes) (m : Allocator) (n : ℕ)
        → depth + levels ≡ max_depth
        → peek text ≡ b'{'
        → 3 * length text + 2 ≤ fuel
        → 0 < levels
        → Returns (Value levels text) (parse_object c fuel depth text m n).0
    object_lem zero depth levels text m n d at f h = absurd (omega arith)
    object_lem (suc fuel) depth levels text m n d at f h =
        let inside = skip_ws (advance text) in
        let off = advance-lt text b'{' at (omega arith) in
        >>=-Returns (built (new_node (object end))) _ (λ _ rest. rest ≡ text) (Value levels text)
          text m n (opened-Returns (object end) text m n)
          (λ _ rest n1 same. rw same (
            Value-shorter levels text inside _ (omega (arith, skip_ws-le (advance text))) (
              unless_closed-Value levels b'}' (object end) (parse_members c fuel depth end 0 0)
                inside m n1 (omega arith) (h, tt)
                (members_lem fuel depth levels end 0 0 inside m n1 d
                  (omega (arith, skip_ws-le (advance text))) h tt))))

    members_lem :
        (fuel depth levels : ℕ) (members : Members) (count capacity : ℕ) (text : Bytes)
        (m : Allocator) (n : ℕ)
        → depth + levels ≡ max_depth
        → 3 * length text + 4 ≤ fuel
        → 0 < levels
        → HasStrictMembers (levels - 1) members
        → Returns (Value levels text) (parse_members c fuel depth members count capacity text m n).0
    members_lem zero depth levels members count capacity text m n d f h s = absurd (omega arith)
    members_lem (suc fuel) depth levels members count capacity text m n d f h s =
        >>=-Returns parse_key _ (Key text) (Value levels text) text m n (parse_key-Key text m n)
          (λ key rest n1 (u, nul, off).
            >>=-Returns (expect b':') _ (λ _ rest'. length rest' < length text) (Value levels text)
              (skip_ws rest) m n1
              (expect_lem b':' text (skip_ws rest) m n1 (omega (arith, skip_ws-le rest)))
              (λ _ rest1 n2 off1.
                >>=-Returns (parse_value c fuel (depth + 1)) _ (Value (levels - 1) rest1)
                  (Value levels text) rest1 m n2
                  (value_lem fuel (depth + 1) (levels - 1) rest1 m n2 (omega arith) (omega arith))
                  (λ item rest2 n3 (p, off2).
                    >>=-Returns (built (object_set members count capacity key item)) _
                      (WithMember (levels - 1) rest2) (Value levels text) rest2 m n3
                      (set_member-Returns (levels - 1) members count capacity key item rest2 m n3 s
                        u nul p)
                      (λ out rest' n4 (s', same). rw same (
                        Value-shorter levels text (skip_ws rest2) _
                          (omega (arith, skip_ws-le rest2))
                          (on_delimiter-Value levels b'}' (object out.0)
                            (parse_members c fuel depth out.0 out.1 out.2) (skip_ws rest2) m n4
                            (omega arith) (h, s')
                            (λ next shorter.
                              members_lem fuel depth levels out.0 out.1 out.2 next m n4 d
                                (omega (arith, skip_ws-le rest2)) h s')))))))

-- A value is read from every text with the fuel that the text asks for.
pub parse_value-Value :
    (c : Conversions) (fuel depth levels : ℕ) (text : Bytes) (m : Allocator) (n : ℕ)
    → depth + levels ≡ max_depth
    → 3 * length text + 3 ≤ fuel
    → Returns (Value levels text) (parse_value c fuel depth text m n).0
parse_value-Value c fuel depth levels text m n d f = value_lem c fuel depth levels text m n d f
