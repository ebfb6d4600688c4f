-- ===== src/Finance/Split.antt =====
-- `ValidateEDSSplit` and `validateSupportedCurrency` of services/finance/internal/service/finance.go.
use gofin.Prelude.{
  if◌then◌else◌, ℕ, ◌+◌, ◌≤◌, String, str_append, ◌≡◌, refl, sym, ◌↔◌, true, Option, none, some, [],
  ◌∷◌, arith,
}
use gofin.Prelude.Int.{wrap32_pos, add_pos, ◌+ℤ◌, negsuc, leb_ℤ, pos, eqb_ℤ, ℤ, wrap32}
use gofin.Api.{api, validation, Fields, Error}
use gofin.Validator.{check-eq-nil, has_errors, check}
use gofin.Currency.{is_supported}

abbrev non_negative : String
non_negative = "must be non-negative"

abbrev not_over : String
not_over = "must not exceed 100"

-- The nine checks, on int32 percentages.
unfoldable pub eds_fields : ℤ → ℤ → ℤ → Fields
unfolding check
eds_fields essentials desires savings =
    let sums = eqb_ℤ (wrap32 (wrap32 (essentials +ℤ desires) +ℤ savings)) (pos 100) in
    check sums "savingsPercent" "must sum to 100 with essentials and desires" (
      check sums "desiresPercent" "must sum to 100 with essentials and savings" (
        check sums "essentialsPercent" "must sum to 100 with desires and savings" (
          check (leb_ℤ savings (pos 100)) "savingsPercent" not_over (
            check (leb_ℤ desires (pos 100)) "desiresPercent" not_over (
              check (leb_ℤ essentials (pos 100)) "essentialsPercent" not_over (
                check (leb_ℤ (pos 0) savings) "savingsPercent" non_negative (
                  check (leb_ℤ (pos 0) desires) "desiresPercent" non_negative
                    (check (leb_ℤ (pos 0) essentials) "essentialsPercent" non_negative []))))))))

unfoldable pub validate_eds_split : ℤ → ℤ → ℤ → Option Error
unfolding eds_fields has_errors
validate_eds_split essentials desires savings =
    let v = eds_fields essentials desires savings in
    if has_errors v then some (validation "validation failed" v) else none

-- The message quotes the code without Go's escapes.
unfoldable pub validate_supported_currency : String → String → Option Error
unfolding check has_errors
validate_supported_currency field_name currency_code =
    let v = check (is_supported currency_code) field_name "unsupported currency" [] in
    if has_errors v
    then some (
        api (record {
          code = "UNSUPPORTED_CURRENCY";
          message = str_append "Unsupported currency \"" (str_append currency_code "\"");
          status = pos 400;
          fields = v;
        }))
    else none

-- The three shares of a budget, in percent.
abbrev pub IsSplit : ℤ → ℤ → ℤ → Type 0
IsSplit e d s =
    (e' : ℕ) × (d' : ℕ) × (s' : ℕ) × (e ≡ pos e')
    × (d ≡ pos d')
    × (s ≡ pos s')
    × (e' + d' + s' ≡ 100)

split_sum :
    (e d s : ℕ)
    → e ≤ 100
    → d ≤ 100
    → s ≤ 100
    → wrap32 (wrap32 (pos e +ℤ pos d) +ℤ pos s) ≡ pos (e + d + s)
split_sum e d s a b c =
    rw (add_pos, wrap32_pos (e + d) (omega arith), add_pos) (wrap32_pos (e + d + s) (omega arith))

percent :
    (z : ℤ) → leb_ℤ (pos 0) z ≡ true → leb_ℤ z (pos 100) ≡ true → (n : ℕ) × (z ≡ pos n) × (n ≤ 100)
percent (pos n) h k = (n, refl, ground arith)
percent (negsuc n) h k = absurd (ground arith)

no_error_iff :
    (v : Fields) (e : Error) → ((if has_errors v then some e else none) ≡ none) ↔ (v ≡ [])
unfolding has_errors
no_error_iff [] e = (λ h. refl, λ h. refl)
no_error_iff (f ∷ v) e = (λ h. cc, λ h. cc)

-- Each of the checks held.
eds_conditions :
    (e d s : ℤ)
    → eds_fields e d s ≡ []
    → (leb_ℤ (pos 0) e ≡ true)
      × (leb_ℤ (pos 0) d ≡ true)
      × (leb_ℤ (pos 0) s ≡ true)
      × (leb_ℤ e (pos 100) ≡ true)
      × (leb_ℤ d (pos 100) ≡ true)
      × (leb_ℤ s (pos 100) ≡ true)
      × (eqb_ℤ (wrap32 (wrap32 (e +ℤ d) +ℤ s)) (pos 100) ≡ true)
unfolding eds_fields
eds_conditions e d s h =
    let (sum, h8) = (check-eq-nil _ _ _ _).0 h in
    let (_, h7) = (check-eq-nil _ _ _ _).0 h8 in
    let (_, h6) = (check-eq-nil _ _ _ _).0 h7 in
    let (cs, h5) = (check-eq-nil _ _ _ _).0 h6 in
    let (cd, h4) = (check-eq-nil _ _ _ _).0 h5 in
    let (ce, h3) = (check-eq-nil _ _ _ _).0 h4 in
    let (ps, h2) = (check-eq-nil _ _ _ _).0 h3 in
    let (pd, h1) = (check-eq-nil _ _ _ _).0 h2 in
    let (pe, _) = (check-eq-nil _ _ _ _).0 h1 in (pe, pd, ps, ce, cd, cs, sum)

IsSplit-of_conditions : (e d s : ℤ) → eds_fields e d s ≡ [] → IsSplit e d s
IsSplit-of_conditions e d s h =
    let (pe, pd, ps, ce, cd, cs, sum) = eds_conditions e d s h in
    let (e', ee, le) = percent e pe ce in
    let (d', ed, ld) = percent d pd cd in
    let (s', es, ls) = percent s ps cs in
    let exact = subst3 ee ed es sum in
    (e', d', s', ee, ed, es, hundred (e' + d' + s') (rw (split_sum e' d' s' le ld ls) at exact))
  where
    hundred : (n : ℕ) → eqb_ℤ (pos n) (pos 100) ≡ true → n ≡ 100
    hundred n q = ground arith

    subst3 :
        {a b c a' b' c' : ℤ}
        → a ≡ a'
        → b ≡ b'
        → c ≡ c'
        → eqb_ℤ (wrap32 (wrap32 (a +ℤ b) +ℤ c)) (pos 100) ≡ true
        → eqb_ℤ (wrap32 (wrap32 (a' +ℤ b') +ℤ c')) (pos 100) ≡ true
    subst3 p q r h' = rw (sym p, sym q, sym r) h'

conditions_of_IsSplit : (e d s : ℤ) → IsSplit e d s → eds_fields e d s ≡ []
unfolding eds_fields check
conditions_of_IsSplit e d s (e', d', s', ee, ed, es, total) = rw (
  ee,
  ed,
  es,
  split_sum e' d' s' (omega arith) (omega arith) (omega arith),
  total,
  low e',
  low d',
  low s',
  high e' (omega arith),
  high d' (omega arith),
  high s' (omega arith),
)
  where
    low : (n : ℕ) → leb_ℤ (pos 0) (pos n) ≡ true
    low n = ground arith

    high : (n : ℕ) → n ≤ 100 → leb_ℤ (pos n) (pos 100) ≡ true
    high n le = ground arith

-- The split is accepted, for any percentages at all, exactly if the three are not negative and add
-- up to 100.
pub validate_eds_split_iff : (e d s : ℤ) → (validate_eds_split e d s ≡ none) ↔ IsSplit e d s
unfolding validate_eds_split
validate_eds_split_iff e d s = (
  λ h. IsSplit-of_conditions e d s ((no_error_iff _ _).0 h),
  λ h. (no_error_iff _ _).1 (conditions_of_IsSplit e d s h),
)
