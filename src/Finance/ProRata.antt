-- ===== src/Finance/ProRata.antt =====
-- The pro-rata schedules of services/finance/internal/service/prorata.go: the store, the calls that
-- the service makes, and the application of the rows that fall due in a period.
pub mod Create
pub mod Rows
pub mod Settle
pub mod Due
pub mod Ledger
use gofin.Prelude.{
  ◌==◌, if◌then◌else◌, keep, sort_by, ℕ, String, str_append, Bool, true, false, ◌&&◌, ◌||◌, Option,
  none, some, List, [], ◌∷◌, ◌++◌, map, str_eq,
}
use gofin.Finance.Model.{
  DefaultSettings, failed, CapturedRateSnapshot, applied, pending, BudgetPeriod, ProRataSchedule,
  ScheduleStatus,
}
use gofin.Api.{other, ok, grpc, err, api, Result, Error}
use gofin.Prelude.Int.{eqb_ℤ, leb_ℤ, ℤ}
use gofin.Prelude.Format.{show_padded}
use gofin.Currency.{normalize_currency_code}

pub record TrustedPeriodContext : Type 0 where
  pub period_id : String
  pub user_id : String
  pub year : ℤ
  pub month : ℤ
  pub reporting_currency_code : String
  pub source : String

pub record CreateProRataInstallmentInput : Type 0 where
  pub user_id : String
  pub period_context : TrustedPeriodContext
  pub name : String
  pub amount : ℤ
  pub currency : String
  pub expense_type : String
  pub tag_id : String
  pub expense_date : String
  pub pro_rata_group : String
  pub pro_rata_index : ℤ
  pub pro_rata_total : ℤ
  pub captured_rate_snapshot : Option CapturedRateSnapshot

pub record CreatedExpenseData : Type 0 where
  pub id : String
  pub created_at : String

-- What the database, the Expense service and the FX service answer. A statement that fails writes
-- nothing; the id of a new row is the database's. `query` is the failure of the query of a name, and
-- `capture_rate_snapshot` is missing where no FX client is configured.
pub record Environment : Type 0 where
  pub create_installment : CreateProRataInstallmentInput → Result CreatedExpenseData
  pub read_pending : ℤ → ℤ → Option Error
  pub mark_applied : String → Option Error
  pub mark_failed : String → String → Option Error
  pub query : String → Option Error
  pub capture_rate_snapshot : Option (List String → String → Result (Option CapturedRateSnapshot))
  pub insert_period : BudgetPeriod → Result String
  pub insert_schedule : ProRataSchedule → Result String

-- The tables of periods and schedules, and the installments that the Expense service has accepted.
pub record Store : Type 0 where
  pub schedules : List ProRataSchedule
  pub periods : List BudgetPeriod
  pub defaults : List DefaultSettings
  pub ledger : List CreateProRataInstallmentInput

unfoldable pub is_pending : ScheduleStatus → Bool
is_pending pending = true
is_pending applied = false
is_pending failed = false

-- The WHERE clause of GetPendingProRata.
unfoldable pub is_due : String → ℤ → ℤ → ProRataSchedule → Bool
unfolding is_pending
is_due user_id year month s =
    str_eq s.user_id user_id
    && eqb_ℤ s.target_year year
    && eqb_ℤ s.target_month month
    && is_pending s.status

abbrev pub by_index : ProRataSchedule → ProRataSchedule → Bool
by_index s t = leb_ℤ s.installment_index t.installment_index

unfoldable pub get_pending_pro_rata : String → ℤ → ℤ → List ProRataSchedule → List ProRataSchedule
unfolding is_due
get_pending_pro_rata user_id year month rows =
    sort_by by_index (keep (is_due user_id year month) rows)

-- UPDATE … WHERE id = …
unfoldable pub update_row :
    String → (ProRataSchedule → ProRataSchedule) → List ProRataSchedule → List ProRataSchedule
update_row id f rows = map (λ s. if str_eq s.id id then f s else s) rows

abbrev pub set_applied : ProRataSchedule → ProRataSchedule
set_applied s = record s { status = applied }

abbrev pub set_failed : String → ProRataSchedule → ProRataSchedule
set_failed reason s = record s { status = failed; failure_reason = reason }

abbrev pub snapshot_currency_missing : String
snapshot_currency_missing = "SNAPSHOT_CURRENCY_MISSING"

-- codes.FailedPrecondition
abbrev pub failed_precondition : ℕ
failed_precondition = 9

-- The reason of a failure that would recur on a retry, or "".
unfoldable pub classify_pro_rata_expense_error : Error → String
classify_pro_rata_expense_error (api e) =
    if str_eq e.code snapshot_currency_missing then snapshot_currency_missing else ""
classify_pro_rata_expense_error (grpc c) =
    if c == failed_precondition then snapshot_currency_missing else ""
classify_pro_rata_expense_error (other text) = ""

unfoldable pub mark_pro_rata_failed : Environment → ProRataSchedule → String → Store → Store
unfolding update_row
mark_pro_rata_failed env schedule reason store = elim (env.mark_failed schedule.id reason) [
  | some e ↦ store
  | none ↦ record store { schedules = update_row schedule.id (set_failed reason) store.schedules }
]

unfoldable pub has_rate : String → List (String × String) → Bool
has_rate currency [] = false
has_rate currency ((c, r) ∷ rates) = str_eq c currency || has_rate currency rates

-- The write that a due row asks of the Expense service.
unfoldable pub installment_input :
    String → ProRataSchedule → TrustedPeriodContext → CreateProRataInstallmentInput
unfolding normalize_currency_code show_padded
installment_input user_id schedule trusted_ctx = record {
  user_id = user_id;
  period_context = trusted_ctx;
  name = schedule.name;
  amount = schedule.installment_amount;
  currency = normalize_currency_code schedule.transaction_currency_code;
  expense_type = schedule.expense_type;
  tag_id = schedule.tag_id;
  expense_date =
      str_append (show_padded 4 schedule.target_year)
        (str_append "-" (str_append (show_padded 2 schedule.target_month) "-01"));
  pro_rata_group = schedule.pro_rata_group;
  pro_rata_index = schedule.installment_index;
  pro_rata_total = schedule.installment_total;
  captured_rate_snapshot = schedule.captured_rate_snapshot;
}

abbrev pub record_installment : CreateProRataInstallmentInput → Store → Store
record_installment input store = record store { ledger = store.ledger ++ (input ∷ []) }

-- After the answer of the Expense service.
unfoldable pub settle_answer :
    Environment
    → ProRataSchedule
    → CreateProRataInstallmentInput
    → Result CreatedExpenseData
    → Store
    → Store × Option ProRataSchedule
unfolding mark_pro_rata_failed classify_pro_rata_expense_error update_row
settle_answer env schedule input (err e) store =
    let reason = classify_pro_rata_expense_error e in
    (if str_eq reason "" then store else mark_pro_rata_failed env schedule reason store, none)
settle_answer env schedule input (ok created) store =
    let written = record_installment input store in
    elim (env.mark_applied schedule.id) [
      | some e ↦ (written, none)
      | none ↦ (
        record written { schedules = update_row schedule.id set_applied written.schedules },
        some (set_applied schedule),
      )
    ]

unfoldable pub apply_one_pro_rata_schedule :
    Environment
    → String
    → String
    → TrustedPeriodContext
    → ProRataSchedule
    → Store
    → Store × Option ProRataSchedule
unfolding mark_pro_rata_failed has_rate installment_input settle_answer
apply_one_pro_rata_schedule env user_id target_reporting_currency trusted_ctx schedule store =
    let input = installment_input user_id schedule trusted_ctx in
    let missing : Store × Option ProRataSchedule =
      (mark_pro_rata_failed env schedule snapshot_currency_missing store, none) in
    elim schedule.captured_rate_snapshot [
      | none ↦ missing
      | some snapshot ↦
          if has_rate target_reporting_currency snapshot.rates_by_currency
          then settle_answer env schedule input (env.create_installment input) store
          else missing
    ]

abbrev pub append_some {ℓ} : {A : Type ℓ} → Option A → List A → List A
append_some none xs = xs
append_some (some x) xs = x ∷ xs

-- The loop over the due rows.
unfoldable pub apply_all :
    Environment
    → String
    → String
    → TrustedPeriodContext
    → List ProRataSchedule
    → Store
    → Store × List ProRataSchedule
unfolding apply_one_pro_rata_schedule
apply_all env user_id target ctx [] store = (store, [])
apply_all env user_id target ctx (s ∷ rest) store =
    let (store1, row) = apply_one_pro_rata_schedule env user_id target ctx s store in
    let (store2, rows) = apply_all env user_id target ctx rest store1 in
    (store2, append_some row rows)

abbrev pub trusted_context : BudgetPeriod → TrustedPeriodContext
trusted_context period = record {
  period_id = period.id;
  user_id = period.user_id;
  year = period.year;
  month = period.month;
  reporting_currency_code = normalize_currency_code period.reporting_currency_code;
  source = "finance_service";
}

unfoldable pub apply_pending_pro_rata :
    Environment → String → BudgetPeriod → Store → Store × Result (List ProRataSchedule)
unfolding get_pending_pro_rata apply_all normalize_currency_code
apply_pending_pro_rata env user_id period store = elim (env.read_pending period.year period.month) [
  | some e ↦ (store, err e)
  | none ↦
      let due = get_pending_pro_rata user_id period.year period.month store.schedules in
      let (store1, rows) =
        apply_all env user_id (normalize_currency_code period.reporting_currency_code)
          (trusted_context period) due store in
      (store1, ok rows)
]
