-- ===== src/Expense/Installments/Accepted.antt =====
-- When an installment is written (services/expense/internal/service/prorata.go).
use gofin.Api.{◌>>=◌, Result, err, ok, validation, Error}
use gofin.Prelude.{
  Bool-cases, String, ◌≡◌, refl, inl, inr, true, false, Option, none, some, List, [], ◌∷◌, ◌++◌,
  arith, eq_iff, str_eq,
}
use gofin.Expense.Validation.{validate_reporting_currency, validate_transaction_currency}
use gofin.Expense.Installments.{
  validate_reporting_currency, validate_transaction_currency, validate_snapshot_coverage,
  build_provider_snapshot, Money, normalize_currency_code, Peers, has_errors, active,
  new_installment, leb_ℤ, pos, insert_expense, write_installment, ltb_ℤ, TrustedPeriodContext,
  create_pro_rata_installment, installment_fields, validate_trusted_period_context,
  validate_pro_rata_installment_request,
}
use gofin.Expense.Ledger.{build_provider_snapshot, Money, active, insert_expense}
use gofin.Validator.{has_errors_iff, has_errors, check-eq-nil}
use gofin.Currency.{normalize_currency_code}
use gofin.Expense.Model.{Peers, Expense}
use gofin.Prelude.Int.{leb_ℤ, pos, ltb_ℤ}
use gofin.Finance.ProRata.{TrustedPeriodContext, CreateProRataInstallmentInput}

-- What the service has checked of an installment that it has written, and the row.
abbrev pub IsAccepted : CreateProRataInstallmentInput → Expense → Type 0
IsAccepted req e =
    (ltb_ℤ (pos 0) req.amount ≡ true)
    × (leb_ℤ (pos 1) req.pro_rata_index ≡ true)
    × (leb_ℤ req.pro_rata_index req.pro_rata_total ≡ true)
    × (req.period_context.user_id ≡ req.user_id)
    × (e.status ≡ active)
    × (e.user_id ≡ req.user_id)
    × (e.period_year ≡ req.period_context.year)
    × (e.period_month ≡ req.period_context.month)
    × (e.pro_rata_group ≡ req.pro_rata_group)
    × (e.pro_rata_index ≡ req.pro_rata_index)

abbrev pub Installed :
    List Expense → CreateProRataInstallmentInput → List Expense × Result Expense → Type 0
Installed ledger req (ledger', err x) = ledger' ≡ ledger
Installed ledger req (ledger', ok e) = (ledger' ≡ ledger ++ (e ∷ [])) × IsAccepted req e

installment_conditions :
    (req : CreateProRataInstallmentInput)
    → installment_fields req ≡ []
    → (ltb_ℤ (pos 0) req.amount ≡ true)
      × (leb_ℤ (pos 1) req.pro_rata_index ≡ true)
      × (leb_ℤ req.pro_rata_index req.pro_rata_total ≡ true)
unfolding installment_fields
installment_conditions req h =
    let (total, h1) = (check-eq-nil _ _ _ _).0 h in
    let (index, h2) = (check-eq-nil _ _ _ _).0 h1 in
    let (_, h3) = (check-eq-nil _ _ _ _).0 h2 in
    let (_, h4) = (check-eq-nil _ _ _ _).0 h3 in
    let (_, h5) = (check-eq-nil _ _ _ _).0 h4 in
    let (_, h6) = (check-eq-nil _ _ _ _).0 h5 in
    let (_, h7) = (check-eq-nil _ _ _ _).0 h6 in
    let (amount, _) = (check-eq-nil _ _ _ _).0 h7 in (amount, index, total)

request_conditions :
    (req : CreateProRataInstallmentInput)
    → validate_pro_rata_installment_request req ≡ none
    → (ltb_ℤ (pos 0) req.amount ≡ true)
      × (leb_ℤ (pos 1) req.pro_rata_index ≡ true)
      × (leb_ℤ req.pro_rata_index req.pro_rata_total ≡ true)
unfolding validate_pro_rata_installment_request
request_conditions req h = elim (Bool-cases (has_errors (installment_fields req))) [
  | inl bad ↦
      let e : some (validation "validation failed" (installment_fields req)) ≡ none = rw bad at h in
      cc
  | inr fine ↦ installment_conditions req ((has_errors_iff (installment_fields req)).0 fine)
]

same_user :
    (user_id : String) (pc : TrustedPeriodContext)
    → validate_trusted_period_context user_id pc ≡ none
    → pc.user_id ≡ user_id
unfolding validate_trusted_period_context
same_user user_id pc h = elim (Bool-cases (str_eq pc.user_id user_id)) [
  | inl e ↦ (eq_iff pc.user_id user_id).0 e
  | inr e ↦ absurd (mismatch e h)
]
  where
    mismatch :
        str_eq pc.user_id user_id ≡ false → validate_trusted_period_context user_id pc ≡ none → ⊥
    mismatch e h' = ground arith

-- An installment is written only if its amount is positive, its index is positive and at most the
-- total, and the trusted context is that of its user; then exactly one row is added, the one that is
-- returned: active, the user's, of the context's month, with the request's group and index. On any
-- error the ledger is as it was.
pub create_pro_rata_installment-Installed :
    (peers : Peers) (id now : String) (ledger : List Expense) (req : CreateProRataInstallmentInput)
    → Installed ledger req (create_pro_rata_installment peers id now ledger req)
unfolding create_pro_rata_installment write_installment insert_expense new_installment
create_pro_rata_installment-Installed peers id now ledger req =
    first (validate_pro_rata_installment_request req) refl
  where
    O : List Expense × Result Expense → Type 0
    O r = Installed ledger req r

    reporting : String
    reporting = normalize_currency_code req.period_context.reporting_currency_code

    Fine : Type 0
    Fine =
        (ltb_ℤ (pos 0) req.amount ≡ true)
        × (leb_ℤ (pos 1) req.pro_rata_index ≡ true)
        × (leb_ℤ req.pro_rata_index req.pro_rata_total ≡ true)

    stored : Expense → Option Error → List Expense × Result Expense
    stored e q = elim q [ some x ↦ (ledger, err x) | none ↦ (ledger ++ (e ∷ []), ok e) ]

    sixth :
        (m : Money) (q : Option Error)
        → Fine
        → req.period_context.user_id ≡ req.user_id
        → O (stored (new_installment req id now m) q)
    sixth m (some x) f u = refl
    sixth m none (a, i, t) u = (refl, (a, i, t, u, refl, refl, refl, refl, refl, refl))

    fifth :
        (m : Result Money)
        → Fine
        → req.period_context.user_id ≡ req.user_id
        → O (insert_expense peers ledger (m >>= λ x. ok (new_installment req id now x)))
    fifth (err x) f u = refl
    fifth (ok m) f u = sixth m (peers.statement "CreateExpense") f u

    money : String → Result Money
    money transaction =
        peers.convert_with_snapshot
          (record {
            amount = req.amount;
            source_currency = transaction;
            target_currency = reporting;
            requested_at = now;
          })
          req.captured_rate_snapshot
        >>= build_provider_snapshot req.amount transaction reporting

    covered : String → Option Error → List Expense × Result Expense
    covered transaction c = elim c [
      | some e ↦ (ledger, err e)
      | none ↦
          insert_expense peers ledger (money transaction >>= λ x. ok (new_installment req id now x))
    ]

    fourth :
        (t : String) (c : Option Error)
        → Fine
        → req.period_context.user_id ≡ req.user_id
        → O (covered t c)
    fourth t (some e) f u = refl
    fourth t none f u = fifth (money t) f u

    currency : Result String → List Expense × Result Expense
    currency t = elim t [
      | err e ↦ (ledger, err e)
      | ok transaction ↦
          covered transaction
            (validate_snapshot_coverage req.captured_rate_snapshot transaction reporting)
    ]

    third : (t : Result String) → Fine → req.period_context.user_id ≡ req.user_id → O (currency t)
    third (err e) f u = refl
    third (ok t) f u =
        fourth t (validate_snapshot_coverage req.captured_rate_snapshot t reporting) f u

    reported : Option Error → List Expense × Result Expense
    reported c = elim c [
      | some e ↦ (ledger, err e)
      | none ↦ currency (validate_transaction_currency (normalize_currency_code req.currency))
    ]

    report : (c : Option Error) → Fine → req.period_context.user_id ≡ req.user_id → O (reported c)
    report (some e) f u = refl
    report none f u =
        third (validate_transaction_currency (normalize_currency_code req.currency)) f u

    trusted : Option Error → List Expense × Result Expense
    trusted c = elim c [
      | some e ↦ (ledger, err e)
      | none ↦ reported (validate_reporting_currency reporting)
    ]

    second :
        (c : Option Error)
        → validate_trusted_period_context req.user_id req.period_context ≡ c
        → Fine
        → O (trusted c)
    second (some e) h f = refl
    second none h f =
        report (validate_reporting_currency reporting) f
          (same_user req.user_id req.period_context h)

    first :
        (c : Option Error)
        → validate_pro_rata_installment_request req ≡ c
        → O (elim c [
          | some e ↦ (ledger, err e)
          | none ↦ trusted (validate_trusted_period_context req.user_id req.period_context)
        ])
    first (some e) h = refl
    first none h =
        second (validate_trusted_period_context req.user_id req.period_context) refl
          (request_conditions req h)
