-- ===== src/Http/Answer/Codes.antt =====
-- The error codes that a server's refusal is reported by.
use tamga_c.Prelude.{
  ℕ, ◌≡◌, ◌≢◌, ◌↔◌, inl, inr, refl, Bool, true, false, arith, Option, none, some, [], ◌∷◌, Bytes,
  bytes_eq, Bool-cases, Option-cases, List, All,
}
use mathlib.Core.Option.{some-injective}
use tamga_c.Prelude.Int.{ℤ, pos, negsuc}
use tamga_c.Errors.{ErrorCode, rate_limited, unauthorized, forbidden, not_found, server, api}
use tamga_c.Http.Answer.{
  is_status, find_code, known_codes, known_code, code_of_status, or_status, map_api_error,
}

-- Whether an error code is one of those that the status alone is reported by.
unfoldable pub is_status_code : ErrorCode → Bool
is_status_code rate_limited = true
is_status_code unauthorized = true
is_status_code forbidden = true
is_status_code not_found = true
is_status_code server = true
is_status_code api = true
is_status_code _ = false

-- What the table answers is none of them.
find_code-other :
    (code : Bytes) (table : List (Bytes × ErrorCode)) (error : ErrorCode)
    → All (λ (row : Bytes × ErrorCode). is_status_code row.1 ≡ false) table
    → find_code code table ≡ some error
    → is_status_code error ≡ false
unfolding find_code
find_code-other code [] error rows h = cc
find_code-other code ((text, other) ∷ rest) error (row, rows) h =
    elim (Bool-cases (bytes_eq code text)) [
      | inl here ↦ cc (some-injective _ _ (rw here at h), row)
      | inr there ↦ find_code-other code rest error rows (rw there at h)
    ]

known_code-other :
    (code : Option Bytes) (error : ErrorCode)
    → known_code code ≡ some error
    → is_status_code error ≡ false
unfolding known_code is_status_code
known_code-other none error h = cc
known_code-other (some code) error h =
    find_code-other code known_codes error
      (
        refl,
        (
          refl,
          (
            refl,
            (
              refl,
              (
                refl,
                (
                  refl,
                  (
                    refl,
                    (
                      refl,
                      (
                        refl,
                        (
                          refl,
                          (
                            refl,
                            (
                              refl,
                              (refl, (refl, (refl, (refl, (refl, (refl, (refl, (refl, tt)))))))),
                            ),
                          ),
                        ),
                      ),
                    ),
                  ),
                ),
              ),
            ),
          ),
        ),
      )
      h

is_status_unique :
    (a b : ℕ) (status : ℤ) → is_status a status ≡ true → is_status b status ≡ true → a ≡ b
unfolding is_status
is_status_unique a b (pos s) h k = ground arith
is_status_unique a b (negsuc n) h k = cc

unauthorized_iff :
    (status : ℤ) → (code_of_status status ≡ unauthorized) ↔ (is_status 401 status ≡ true)
unfolding code_of_status is_status
unauthorized_iff (pos s) = ground arith
unauthorized_iff (negsuc n) = ground arith

forbidden_iff : (status : ℤ) → (code_of_status status ≡ forbidden) ↔ (is_status 403 status ≡ true)
unfolding code_of_status is_status
forbidden_iff (pos s) = ground arith
forbidden_iff (negsuc n) = ground arith

never_rate_limited : (status : ℤ) → code_of_status status ≢ rate_limited
unfolding code_of_status is_status
never_rate_limited (pos s) h = ground arith
never_rate_limited (negsuc n) h = ground arith

apart :
    (error : ErrorCode) (target : ErrorCode)
    → is_status_code error ≡ false
    → is_status_code target ≡ true
    → error ≢ target
apart error target h k e = cc

-- A refusal is reported as rate limited if and only if its status is 429, whatever code it names; as
-- unauthorized if and only if its status is 401 and it names none of the known codes; and as
-- forbidden if and only if its status is 403 and it names none of them.
pub map_api_error_iff :
    (status : ℤ) (code : Option Bytes)
    → ((map_api_error status code ≡ rate_limited) ↔ (is_status 429 status ≡ true))
      × ((map_api_error status code ≡ unauthorized)
          ↔ ((is_status 401 status ≡ true) × (known_code code ≡ none)))
      × ((map_api_error status code ≡ forbidden)
          ↔ ((is_status 403 status ≡ true) × (known_code code ≡ none)))
unfolding map_api_error
map_api_error_iff status code = elim (Bool-cases (is_status 429 status)) [
  | inl many ↦
      let not_401 : is_status 401 status ≡ true → ⊥ =
        λ h. (let same = is_status_unique 429 401 status many h in omega (arith, same)) in
      let not_403 : is_status 403 status ≡ true → ⊥ =
        λ h. (let same = is_status_unique 429 403 status many h in omega (arith, same)) in
      rw many (
        ((λ _. refl), (λ _. refl)),
        ((λ h. cc), (λ h. absurd (not_401 h.0))),
        ((λ h. cc), (λ h. absurd (not_403 h.0))),
      )
  | inr few ↦ elim (Option-cases (known_code code)) [
    | inl none_known ↦
        let (u, u') = unauthorized_iff status in
        let (f, f') = forbidden_iff status in
        unfold or_status in
        simp (few, none_known)
          (
            ((λ h. absurd (never_rate_limited status h)), (λ h. cc)),
            ((λ h. (u h, refl)), (λ h. u' h.0)),
            ((λ h. (f h, refl)), (λ h. f' h.0)),
          )
    | inr (error, known) ↦
        let other = known_code-other code error known in
        unfold or_status in
        simp (few, known)
          (
            (
              (λ h. absurd (apart error rate_limited other (unfold is_status_code in refl) h)),
              (λ h. cc),
            ),
            (
              (λ h. absurd (apart error unauthorized other (unfold is_status_code in refl) h)),
              (λ h. cc),
            ),
            (
              (λ h. absurd (apart error forbidden other (unfold is_status_code in refl) h)),
              (λ h. cc),
            ),
          )
  ]
]
