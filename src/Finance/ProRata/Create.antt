-- ===== src/Finance/ProRata/Create.antt =====
-- `CreateProRataExpense` of services/finance/internal/service/prorata.go.
pub mod Whole
pub mod Rows
use gofin.Prelude.{
  if◌then◌else◌, String, Bool, true, not, ◌||◌, Option, none, some, List, [], ◌∷◌, ◌++◌, str_eq,
}
use gofin.Api.{◌>>=◌, other, Fields, ok, err, internal, validation, Result, Error}
use gofin.Finance.Periods.{validation_failed, get_current_period, is_month}
use gofin.Prelude.Int.{◌+ℤ◌, ltb_ℤ, leb_ℤ, wrap32, pos, ℤ}
use gofin.Finance.ProRata.{
  record_installment, leb_ℤ, trusted_context, CreatedExpenseData, CreateProRataInstallmentInput,
  Environment, Store,
}
use gofin.Currency.{is_supported, normalize_currency_code}
use gofin.Finance.Model.{pending, ProRataSchedule, CapturedRateSnapshot, BudgetPeriod}
use gofin.Finance.Split.{validate_supported_currency}
use gofin.Finance.Months.{YearMonth, advance_month}
use gofin.Finance.Installments.{calculate_installments}
use gofin.Validator.{check, has_errors}
use gofin.Prelude.Text.{trim_space}

pub record CreateProRataRequest : Type 0 where
  pub name : String
  pub total_amount : ℤ
  pub transaction_currency_code : String
  pub expense_type : String
  pub tag_id : String
  pub expense_date_iso : String
  pub spread_over_months : ℤ
  pub period_year : ℤ
  pub period_month : ℤ

pub record CreatedExpense : Type 0 where
  pub id : String
  pub name : String
  pub installment_amount : ℤ
  pub transaction_currency_code : String
  pub currency : String
  pub expense_type : String
  pub tag_id : String
  pub expense_date_iso : String
  pub period_year : ℤ
  pub period_month : ℤ
  pub is_pro_rata : Bool
  pub pro_rata_group : String
  pub pro_rata_index : ℤ
  pub pro_rata_total : ℤ
  pub created_at : String

pub record ProRataResponse : Type 0 where
  pub expense : CreatedExpense
  pub schedules : List ProRataSchedule

abbrev pub is_blank : String → Bool
is_blank s = str_eq (trim_space s) ""

unfoldable pub is_valid_type : String → Bool
is_valid_type t = str_eq t "essentials" || str_eq t "desires" || str_eq t "savings"

unfoldable pub request_fields : CreateProRataRequest → Fields
unfolding check trim_space is_valid_type is_month
request_fields req = check (is_month req.period_month) "periodMonth" "must be between 1 and 12" (
    check (leb_ℤ (pos 1) req.period_year) "periodYear" "required" (
      check (not (is_blank req.expense_date_iso)) "expenseDateIso" "required" (
        check (not (is_blank req.tag_id)) "tagId" "required" (
          check (is_valid_type req.expense_type) "expenseType"
            "must be essentials, desires, or savings"
            (check (leb_ℤ (pos 2) req.spread_over_months) "spreadOverMonths" "must be at least 2" (
              check (ltb_ℤ (pos 0) req.total_amount) "totalAmountInMinorUnits" "must be positive"
                (check (not (is_blank req.name)) "name" "required" [])))))))

abbrev of_check : Option Error → String → Result String
of_check none code = ok code
of_check (some e) code = err e

unfoldable pub resolve_pro_rata_transaction_currency :
    BudgetPeriod → CreateProRataRequest → Result String
unfolding normalize_currency_code validate_supported_currency
resolve_pro_rata_transaction_currency period req =
    let transaction_currency = normalize_currency_code req.transaction_currency_code in
    let default_currency = normalize_currency_code period.reporting_currency_code in
    if not (str_eq transaction_currency "")
    then of_check (validate_supported_currency "transactionCurrency" transaction_currency)
        transaction_currency
    else of_check (validate_supported_currency "transactionCurrency" default_currency)
        default_currency

-- What all the rows of one schedule share.
pub record Group : Type 0 where
  pub user_id : String
  pub pro_rata_group : String
  pub transaction_currency : String
  pub reporting_currency : String
  pub snapshot : CapturedRateSnapshot

unfoldable pub new_schedule : Group → CreateProRataRequest → YearMonth → ℤ → ℤ → ProRataSchedule
new_schedule g req target index amount = record {
  id = "";
  user_id = g.user_id;
  pro_rata_group = g.pro_rata_group;
  name = req.name;
  installment_amount = amount;
  currency = g.transaction_currency;
  expense_type = req.expense_type;
  tag_id = req.tag_id;
  target_year = target.year;
  target_month = target.month;
  installment_index = index;
  installment_total = req.spread_over_months;
  status = pending;
  original_transaction_amount = amount;
  transaction_currency_code = g.transaction_currency;
  creation_reporting_currency = g.reporting_currency;
  captured_rate_snapshot = some g.snapshot;
  failure_reason = "";
}

abbrev pub schedule_failed : Error
schedule_failed =
    internal "First installment was created but schedule creation failed. Please contact support."

abbrev prepend_row :
    ProRataSchedule → Store × Result (List ProRataSchedule) → Store × Result (List ProRataSchedule)
prepend_row row (store, ok rows) = (store, ok (row ∷ rows))
prepend_row row (store, err e) = (store, err e)

abbrev pub add_schedule : ProRataSchedule → Store → Store
add_schedule row store = record store { schedules = store.schedules ++ (row ∷ []) }

-- The loop over the later installments; the first of the list is that of `index`, whose month
-- follows `before`.
unfoldable pub insert_schedules :
    Environment
    → Group
    → CreateProRataRequest
    → YearMonth
    → ℤ
    → List ℤ
    → Store
    → Store × Result (List ProRataSchedule)
unfolding new_schedule advance_month internal
insert_schedules env g req before index [] store = (store, ok [])
insert_schedules env g req before index (amount ∷ amounts) store =
    let target = advance_month before.year before.month in
    let row = new_schedule g req target index amount in
    elim (env.insert_schedule row) [
      | err e ↦ (store, err schedule_failed)
      | ok id ↦
          let saved = record row { id = id } in
          prepend_row saved (
            insert_schedules env g req target (wrap32 (index +ℤ pos 1)) amounts
              (add_schedule saved store))
    ]

-- The write of the first installment.
unfoldable pub first_input :
    Group → CreateProRataRequest → BudgetPeriod → ℤ → CreateProRataInstallmentInput
first_input g req period amount = record {
  user_id = g.user_id;
  period_context = record (trusted_context period) {
    reporting_currency_code = g.reporting_currency;
  };
  name = req.name;
  amount = amount;
  currency = g.transaction_currency;
  expense_type = req.expense_type;
  tag_id = req.tag_id;
  expense_date = req.expense_date_iso;
  pro_rata_group = g.pro_rata_group;
  pro_rata_index = pos 1;
  pro_rata_total = req.spread_over_months;
  captured_rate_snapshot = some g.snapshot;
}

unfoldable pub created_expense :
    Group → CreateProRataRequest → ℤ → CreatedExpenseData → CreatedExpense
created_expense g req amount created = record {
  id = created.id;
  name = req.name;
  installment_amount = amount;
  transaction_currency_code = g.transaction_currency;
  currency = g.transaction_currency;
  expense_type = req.expense_type;
  tag_id = req.tag_id;
  expense_date_iso = req.expense_date_iso;
  period_year = req.period_year;
  period_month = req.period_month;
  is_pro_rata = true;
  pro_rata_group = g.pro_rata_group;
  pro_rata_index = pos 1;
  pro_rata_total = req.spread_over_months;
  created_at = created.created_at;
}

abbrev pub respond_with :
    CreatedExpense → Store × Result (List ProRataSchedule) → Store × Result ProRataResponse
respond_with e (store, ok rows) = (store, ok (record { expense = e; schedules = rows }))
respond_with e (store, err x) = (store, err x)

-- The writes, once the snapshot is captured. Go would panic on an empty list of installments.
unfoldable pub write_installments :
    Environment
    → Group
    → CreateProRataRequest
    → BudgetPeriod
    → List ℤ
    → Store
    → Store × Result ProRataResponse
unfolding first_input insert_schedules created_expense
write_installments env g req period [] store = (store, err (other "index out of range"))
write_installments env g req period (first ∷ later) store =
    let input = first_input g req period first in
    elim (env.create_installment input) [
      | err e ↦ (store, err e)
      | ok created ↦ respond_with (created_expense g req first created) (
          insert_schedules env g req (record { year = req.period_year; month = req.period_month })
            (pos 2) later (record_installment input store))
    ]

abbrev pub capture : Environment → List String → String → Result CapturedRateSnapshot
capture env required requested_at = elim env.capture_rate_snapshot [
  | none ↦ err (internal "pro-rata snapshot capture is not configured")
  | some call ↦ elim (call required requested_at) [
    | err e ↦ err e
    | ok none ↦ err (internal "FX returned an empty pro-rata snapshot")
    | ok (some snapshot) ↦ ok snapshot
  ]
]

abbrev group : String → String → String → String → CapturedRateSnapshot → Group
group user_id pro_rata_group transaction_currency reporting_currency snapshot = record {
  user_id = user_id;
  pro_rata_group = pro_rata_group;
  transaction_currency = transaction_currency;
  reporting_currency = reporting_currency;
  snapshot = snapshot;
}

unfoldable pub prepare_in :
    Environment
    → String
    → String
    → String
    → CreateProRataRequest
    → BudgetPeriod
    → Result (BudgetPeriod × Group)
unfolding normalize_currency_code is_supported resolve_pro_rata_transaction_currency internal
prepare_in env user_id pro_rata_group now req period =
    let reporting_currency = normalize_currency_code period.reporting_currency_code in
    let captured = do
      transaction_currency ← resolve_pro_rata_transaction_currency period req
      snapshot ← capture env (transaction_currency ∷ reporting_currency ∷ []) now
      ok (period, group user_id pro_rata_group transaction_currency reporting_currency snapshot)
    in if not (is_supported reporting_currency)
      then err (internal "creation period reporting currency is not supported")
      else captured

-- The checks and the capture, which write nothing: the period and what the rows will share.
unfoldable pub prepare :
    Environment
    → Store
    → String
    → String
    → String
    → CreateProRataRequest
    → Result (BudgetPeriod × Group)
unfolding request_fields has_errors validation get_current_period prepare_in
prepare env store user_id pro_rata_group now req =
    let v = request_fields req in
    if has_errors v
    then err (validation_failed v)
    else (get_current_period env store user_id req.period_year req.period_month
        >>= prepare_in env user_id pro_rata_group now req)

-- The group id is the new UUID, and `now` is the clock's text.
unfoldable pub create_pro_rata_expense :
    Environment
    → Store
    → String
    → String
    → String
    → CreateProRataRequest
    → Store × Result ProRataResponse
unfolding prepare calculate_installments write_installments
create_pro_rata_expense env store user_id pro_rata_group now req =
    elim (prepare env store user_id pro_rata_group now req) [
      | err e ↦ (store, err e)
      | ok (period, g) ↦
          write_installments env g req period
            (calculate_installments req.total_amount req.spread_over_months) store
    ]
