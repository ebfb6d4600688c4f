-- ===== src/Finance/CreatePeriod.antt =====
-- `CreatePeriodWithProRata`, `createMissedPeriods` (services/finance/internal/service/prorata.go) and
-- `getPeriodCreationDefaults` (finance.go).
pub mod Appended
pub mod Defaults
pub mod Whole
use mathlib.Core.Option
use gofin.Prelude.{
  if◌then◌else◌, length, ℕ, String, str_append, Bool, ◌&&◌, ◌||◌, Option, none, some, List, [], ◌∷◌,
  ◌++◌, str_eq,
}
use gofin.Prelude.Format.{text_at, show_padded}
use gofin.Prelude.Int.{negsuc, leb_ℤ, eqb_ℤ, pos, ltb_ℤ, ℤ}
use gofin.Finance.Periods.{validation_failed, is_month}
use gofin.Api.{other, validation, err, Fields, ok, Result}
use gofin.Validator.{has_errors, check}
use gofin.Finance.Split.{validate_supported_currency, validate_eds_split}
use gofin.Finance.ProRata.{Store, apply_pending_pro_rata, Environment}
use gofin.Finance.Months.{YearMonth, compute_missed_months}
use gofin.Finance.Model.{ProRataSchedule, DefaultSettings, BudgetPeriod}
use gofin.Currency.{normalize_currency_code}

pub record CreatePeriodRequest : Type 0 where
  pub year : ℤ
  pub month : ℤ
  pub budget_amount : Option ℤ
  pub reporting_currency_code : String
  pub essentials_percent : ℤ
  pub desires_percent : ℤ
  pub savings_percent : ℤ

pub record CreatePeriodResponse : Type 0 where
  pub period : BudgetPeriod
  pub applied_pro_rata : List ProRataSchedule
  pub auto_created_periods : ℕ
  pub auto_created_months : List String

unfoldable pub find_defaults : String → List DefaultSettings → Option DefaultSettings
find_defaults user_id [] = none
find_defaults user_id (d ∷ ds) =
    if str_eq d.user_id user_id then some d else find_defaults user_id ds

unfoldable pub get_period_creation_defaults : Environment → Store → String → Result DefaultSettings
unfolding find_defaults normalize_currency_code validate_supported_currency
get_period_creation_defaults env store user_id = elim (env.query "GetDefaults") [
  | some e ↦ err e
  | none ↦ elim (find_defaults user_id store.defaults) [
    | none ↦ err (
        other (
          str_append "defaults row missing for user "
            (str_append user_id " during period creation")))
    | some d ↦
        let currency = normalize_currency_code d.currency in
        elim (validate_supported_currency "reportingCurrencyCode" currency) [
          | some e ↦ err e
          | none ↦ ok (record d { currency = currency })
        ]
  ]
]

-- INSERT INTO budget_periods: the row with its new id.
unfoldable pub create_period : Environment → BudgetPeriod → Store → Store × Result BudgetPeriod
create_period env p store = elim (env.insert_period p) [
  | err e ↦ (store, err e)
  | ok id ↦
      let row = record p { id = id } in
      (record store { periods = store.periods ++ (row ∷ []) }, ok row)
]

unfoldable pub month_name : ℤ → String
month_name (negsuc m) = ""
month_name (pos m) =
    text_at
      ("" ∷ "January" ∷ "February" ∷ "March" ∷ "April" ∷ "May" ∷ "June" ∷ "July" ∷ "August"
        ∷ "September" ∷ "October" ∷ "November" ∷ "December" ∷ [])
      m

-- `monthLabel`, for the months 1 to 12, which are all that the callers pass.
unfoldable pub month_label : ℤ → ℤ → String
unfolding month_name show_padded
month_label year month = str_append (month_name month) (str_append " " (show_padded 4 year))

abbrev pub auto_period : String → DefaultSettings → YearMonth → BudgetPeriod
auto_period user_id defaults ym = record {
  id = "";
  user_id = user_id;
  year = ym.year;
  month = ym.month;
  budget_amount = defaults.budget_amount;
  reporting_currency_code = defaults.currency;
  essentials_percent = defaults.essentials_percent;
  desires_percent = defaults.desires_percent;
  savings_percent = defaults.savings_percent;
}

-- An error of the application is reported and dropped.
abbrev pub rows_or_none : Result (List ProRataSchedule) → List ProRataSchedule
rows_or_none (ok rows) = rows
rows_or_none (err e) = []

pub record AutoCreated : Type 0 where
  pub months : List String
  pub applied : List ProRataSchedule

abbrev pub add_month :
    String → List ProRataSchedule → Store × Result AutoCreated → Store × Result AutoCreated
add_month label rows (store, ok c) =
    (store, ok (record { months = label ∷ c.months; applied = rows ++ c.applied }))
add_month label rows (store, err e) = (store, err e)

-- The loop over the missed months: an insert that fails ends it, with the months so far written.
unfoldable pub create_missed :
    Environment → String → DefaultSettings → List YearMonth → Store → Store × Result AutoCreated
unfolding create_period apply_pending_pro_rata month_label
create_missed env user_id defaults [] store = (store, ok (record { months = []; applied = [] }))
create_missed env user_id defaults (ym ∷ yms) store =
    let (store1, created) = create_period env (auto_period user_id defaults ym) store in
    elim created [
      | err e ↦ (store1, err e)
      | ok period ↦
          let (store2, rows) = apply_pending_pro_rata env user_id period store1 in
          add_month (month_label ym.year ym.month) (rows_or_none rows)
            (create_missed env user_id defaults yms store2)
    ]

-- `none` is a run that has not ended within the rounds of `compute_missed_months`.
unfoldable pub create_missed_periods :
    Environment → String → Option BudgetPeriod → ℤ → ℤ → Store → Option (Store × Result AutoCreated)
unfolding compute_missed_months get_period_creation_defaults create_missed
create_missed_periods env user_id none target_year target_month store =
    some (store, ok (record { months = []; applied = [] }))
create_missed_periods env user_id (some latest) target_year target_month store =
    elim (compute_missed_months latest.year latest.month target_year target_month) [
      | none ↦ none
      | some [] ↦ some (store, ok (record { months = []; applied = [] }))
      | some (ym ∷ yms) ↦ elim (get_period_creation_defaults env store user_id) [
        | err e ↦ some (store, err e)
        | ok defaults ↦ some (create_missed env user_id defaults (ym ∷ yms) store)
      ]
    ]

abbrev later_period : BudgetPeriod → BudgetPeriod → Bool
later_period p q = ltb_ℤ q.year p.year || (eqb_ℤ q.year p.year && ltb_ℤ q.month p.month)

-- SELECT … WHERE user_id = … ORDER BY year DESC, month DESC LIMIT 1
unfoldable pub latest_period : String → List BudgetPeriod → Option BudgetPeriod
latest_period user_id [] = none
latest_period user_id (p ∷ ps) =
    let rest = latest_period user_id ps in
    if str_eq p.user_id user_id
    then elim rest [ none ↦ some p | some q ↦ if later_period q p then some q else some p ]
    else rest

abbrev pub requested_period : String → CreatePeriodRequest → ℤ → String → BudgetPeriod
requested_period user_id req budget_amount reporting_currency = record {
  id = "";
  user_id = user_id;
  year = req.year;
  month = req.month;
  budget_amount = budget_amount;
  reporting_currency_code = reporting_currency;
  essentials_percent = req.essentials_percent;
  desires_percent = req.desires_percent;
  savings_percent = req.savings_percent;
}

-- The requested period itself, after the missed ones.
unfoldable pub create_requested :
    Environment
    → String
    → BudgetPeriod
    → Store × Result AutoCreated
    → Store × Result CreatePeriodResponse
unfolding create_period apply_pending_pro_rata
create_requested env user_id requested (store, err e) = (store, err e)
create_requested env user_id requested (store, ok auto) =
    let (store1, created) = create_period env requested store in
    elim created [
      | err e ↦ (store1, err e)
      | ok period ↦
          let (store2, rows) = apply_pending_pro_rata env user_id period store1 in
          (
            store2,
            ok (record {
              period = period;
              applied_pro_rata = auto.applied ++ rows_or_none rows;
              auto_created_periods = length auto.months;
              auto_created_months = auto.months;
            }),
          )
    ]

abbrev pub amount_or_zero : Option ℤ → ℤ
amount_or_zero none = pos 0
amount_or_zero (some z) = z

unfoldable pub period_fields : CreatePeriodRequest → Fields
unfolding check is_month
period_fields req =
    check (leb_ℤ (pos 0) (amount_or_zero req.budget_amount)) "budgetAmount" "must be non-negative"
      (check (is_month req.month) "month" "must be between 1 and 12" [])

unfoldable pub create_period_with_pro_rata :
    Environment
    → String
    → CreatePeriodRequest
    → Store
    → Option (Store × Result CreatePeriodResponse)
unfolding validate_eds_split period_fields has_errors validation normalize_currency_code
    validate_supported_currency latest_period create_missed_periods create_requested
create_period_with_pro_rata env user_id req store =
    let currency = normalize_currency_code req.reporting_currency_code in
    let requested = requested_period user_id req (amount_or_zero req.budget_amount) currency in
    elim (validate_eds_split req.essentials_percent req.desires_percent req.savings_percent) [
      | some e ↦ some (store, err e)
      | none ↦
          if has_errors (period_fields req)
          then some (store, err (validation_failed (period_fields req)))
          else elim (validate_supported_currency "reportingCurrencyCode" currency) [
            | some e ↦ some (store, err e)
            | none ↦ elim (env.query "GetLatestPeriod") [
              | some e ↦ some (store, err e)
              | none ↦ Option.map (create_requested env user_id requested) (
                  create_missed_periods env user_id (latest_period user_id store.periods) req.year
                    req.month store)
            ]
          ]
    ]
