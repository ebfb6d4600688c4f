-- ===== src/Expense/Installments.antt =====
-- `CreateProRataInstallment` of services/expense/internal/service/prorata.go and the checks of
-- prorata_request.go. The request is the finance service's, field by field.
pub mod Accepted
use gofin.Api.{
  ◌>>=◌, Fields, Error, coded, api, validation, code_forbidden, code_internal, Result, err, ok,
}
use gofin.Prelude.{
  if◌then◌else◌, is_empty, ℕ, String, true, false, not, ◌&&◌, Option, none, some, List, [], ◌∷◌,
  str_eq,
}
use gofin.Prelude.Int.{ltb_ℤ, pos, leb_ℤ}
use gofin.Expense.Ledger.{active, insert_expense, Money, build_provider_snapshot}
use gofin.Expense.Validation.{
  is_valid_expense_type, validate_transaction_currency, validate_reporting_currency, is_iso_date,
}
use gofin.Expense.Model.{Expense, Peers}
use gofin.Finance.ProRata.{
  snapshot_currency_missing, has_rate, TrustedPeriodContext, CreateProRataInstallmentInput,
}
use gofin.Finance.Model.{CapturedRateSnapshot}
use gofin.Validator.{check, has_errors}
use gofin.Currency.{normalize_currency_code}

unfoldable pub installment_fields : CreateProRataInstallmentInput → Fields
installment_fields req =
    check (leb_ℤ req.pro_rata_index req.pro_rata_total) "proRataTotal"
      "pro_rata_total must be >= pro_rata_index"
      (check (leb_ℤ (pos 1) req.pro_rata_index) "proRataIndex" "pro_rata_index must be positive" (
        check (not (str_eq req.pro_rata_group "")) "proRataGroup" "pro_rata_group is required" (
          check (is_iso_date req.expense_date) "expenseDate"
            "expense_date must be in ISO format (YYYY-MM-DD)"
            (check (not (str_eq req.expense_date "")) "expenseDate" "expense_date is required" (
              check (not (str_eq req.tag_id "")) "tagId" "tag_id is required" (
                check (is_valid_expense_type req.expense_type) "expenseType"
                  "expense_type must be one of: essentials, desires, savings"
                  (check (ltb_ℤ (pos 0) req.amount) "amount" "amount must be positive" (
                    check (not (str_eq req.name "")) "name" "name is required" (
                      check (not (str_eq req.user_id "")) "userId" "user_id is required" [])))))))))

unfoldable pub validate_pro_rata_installment_request : CreateProRataInstallmentInput → Option Error
unfolding installment_fields has_errors validation
validate_pro_rata_installment_request req =
    let v = installment_fields req in
    if has_errors v then some (validation "validation failed" v) else none

unfoldable pub context_fields : TrustedPeriodContext → Fields
unfolding check
context_fields pc =
    check (leb_ℤ (pos 1) pc.month && leb_ℤ pc.month (pos 12)) "month" "must be between 1 and 12" (
      check (leb_ℤ (pos 1) pc.year) "year" "must be positive" (
        check (not (str_eq pc.period_id "")) "periodId" "required"
          (check (str_eq pc.source "finance_service") "source" "must be finance_service" [])))

abbrev pub with_fields : String → String → ℕ → Fields → Error
with_fields error_code message status fields =
    api (record { code = error_code; message = message; status = pos status; fields = fields })

unfoldable pub validate_trusted_period_context : String → TrustedPeriodContext → Option Error
unfolding context_fields has_errors
validate_trusted_period_context user_id pc =
    let v = context_fields pc in
    if not (str_eq pc.user_id user_id)
    then some (
        with_fields code_forbidden "trusted period context user does not match the request user" 403
          (("userId", "mismatch") ∷ []))
    else if has_errors v
    then some (with_fields code_internal "trusted period context is invalid" 500 v)
    else none

abbrev pub snapshot_currency_missing_error : Error
snapshot_currency_missing_error =
    coded snapshot_currency_missing
      "The captured rate snapshot does not contain a required currency" 409

-- The check of the snapshot itself, and those of the two currencies where there is one.
unfoldable pub coverage_fields : Option CapturedRateSnapshot → String → String → Fields
unfolding check has_rate
coverage_fields none transaction reporting = check false "snapshot" "snapshot is required" []
coverage_fields (some s) transaction reporting =
    check (has_rate reporting s.rates_by_currency) reporting "currency is missing from the snapshot"
      (check (has_rate transaction s.rates_by_currency) transaction
        "currency is missing from the snapshot"
        (check (not (is_empty s.rates_by_currency)) "snapshot" "snapshot is required" []))

unfoldable pub validate_snapshot_coverage :
    Option CapturedRateSnapshot → String → String → Option Error
unfolding coverage_fields has_errors
validate_snapshot_coverage snapshot transaction reporting =
    if has_errors (coverage_fields snapshot transaction reporting)
    then some snapshot_currency_missing_error
    else none

unfoldable pub new_installment : CreateProRataInstallmentInput → String → String → Money → Expense
new_installment req id now m = record {
  id = id;
  user_id = req.user_id;
  name = req.name;
  transaction_currency_code = m.transaction_currency_code;
  expense_type = req.expense_type;
  tag_id = req.tag_id;
  expense_date_iso = req.expense_date;
  period_year = req.period_context.year;
  period_month = req.period_context.month;
  status = active;
  corrects_id = "";
  is_pro_rata = true;
  pro_rata_group = req.pro_rata_group;
  pro_rata_index = req.pro_rata_index;
  pro_rata_total = req.pro_rata_total;
  created_at = now;
  original_transaction_amount = m.original_transaction_amount;
  reporting_amount = m.reporting_amount;
  reporting_currency_code = m.reporting_currency_code;
  exchange_rate = m.exchange_rate;
  exchange_rate_source = m.exchange_rate_source;
  exchange_rate_timestamp = m.exchange_rate_timestamp;
  exchange_rate_cache_expires_at = m.exchange_rate_cache_expires_at;
  idempotency_key = "";
}

-- From the checked currencies on: the conversion through the captured snapshot, and the insert.
unfoldable pub write_installment :
    Peers
    → String
    → String
    → List Expense
    → CreateProRataInstallmentInput
    → String
    → String
    → List Expense × Result Expense
unfolding build_provider_snapshot new_installment insert_expense validate_snapshot_coverage
write_installment peers id now ledger req transaction reporting =
    let money =
      peers.convert_with_snapshot
        (record {
          amount = req.amount;
          source_currency = transaction;
          target_currency = reporting;
          requested_at = now;
        })
        req.captured_rate_snapshot
      >>= build_provider_snapshot req.amount transaction reporting in
    elim (validate_snapshot_coverage req.captured_rate_snapshot transaction reporting) [
      | some e ↦ (ledger, err e)
      | none ↦ insert_expense peers ledger (money >>= λ m. ok (new_installment req id now m))
    ]

unfoldable pub create_pro_rata_installment :
    Peers
    → String
    → String
    → List Expense
    → CreateProRataInstallmentInput
    → List Expense × Result Expense
unfolding validate_pro_rata_installment_request validate_trusted_period_context
    normalize_currency_code validate_reporting_currency validate_transaction_currency
    write_installment
create_pro_rata_installment peers id now ledger req =
    let reporting = normalize_currency_code req.period_context.reporting_currency_code in
    elim (validate_pro_rata_installment_request req) [
      | some e ↦ (ledger, err e)
      | none ↦ elim (validate_trusted_period_context req.user_id req.period_context) [
        | some e ↦ (ledger, err e)
        | none ↦ elim (validate_reporting_currency reporting) [
          | some e ↦ (ledger, err e)
          | none ↦ elim (validate_transaction_currency (normalize_currency_code req.currency)) [
            | err e ↦ (ledger, err e)
            | ok transaction ↦ write_installment peers id now ledger req transaction reporting
          ]
        ]
      ]
    ]
