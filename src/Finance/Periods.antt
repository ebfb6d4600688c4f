-- ===== src/Finance/Periods.antt =====
-- The budget periods of services/finance/internal/service/finance.go: reads, the lock on past months,
-- and the update. The clock's year and month are arguments.
pub mod Rows
pub mod Locked
use gofin.Prelude.{
  if◌then◌else◌, String, str_append, Bool, not, ◌&&◌, ◌||◌, Option, none, some, List, [], ◌∷◌, map,
  str_eq,
}
use gofin.Api.{◌>>=◌, ok, err, Result, coded, validation, not_found, Fields, Error}
use gofin.Prelude.Format.{show_padded, show_ℤ}
use gofin.Validator.{has_errors, check}
use gofin.Prelude.Int.{pos, leb_ℤ, eqb_ℤ, ℤ}
use gofin.Finance.ProRata.{Store, Environment}
use gofin.Finance.Months.{YearMonth}
use gofin.Finance.Model.{BudgetPeriod}
use gofin.Finance.Split.{validate_eds_split}

abbrev pub validation_failed : Fields → Error
validation_failed v = validation "validation failed" v

unfoldable pub is_month : ℤ → Bool
is_month month = leb_ℤ (pos 1) month && leb_ℤ month (pos 12)

-- SELECT … WHERE user_id = … AND year = … AND month = …
unfoldable pub find_period : String → ℤ → ℤ → List BudgetPeriod → Option BudgetPeriod
find_period user_id year month [] = none
find_period user_id year month (p ∷ ps) =
    if str_eq p.user_id user_id && eqb_ℤ p.year year && eqb_ℤ p.month month
    then some p
    else find_period user_id year month ps

unfoldable pub find_period_by_id : String → String → List BudgetPeriod → Option BudgetPeriod
find_period_by_id id user_id [] = none
find_period_by_id id user_id (p ∷ ps) =
    if str_eq p.id id && str_eq p.user_id user_id then some p else find_period_by_id id user_id ps

abbrev pub period_not_found : ℤ → ℤ → Error
period_not_found year month =
    coded "PERIOD_NOT_FOUND"
      (str_append "No budget period found for "
        (str_append (show_ℤ year) (str_append "-" (show_padded 2 month))))
      404

unfoldable pub get_current_period : Environment → Store → String → ℤ → ℤ → Result BudgetPeriod
unfolding find_period is_month show_ℤ check has_errors validation
get_current_period env store user_id year month =
    let v = check (is_month month) "month" "must be between 1 and 12" [] in
    if has_errors v then err (validation_failed v) else elim (env.query "GetCurrentPeriod") [
      | some e ↦ err e
      | none ↦ elim (find_period user_id year month store.periods) [
        | none ↦ err (period_not_found year month)
        | some p ↦ ok p
      ]
    ]

pub record PeriodContext : Type 0 where
  pub period_id : String
  pub user_id : String
  pub year : ℤ
  pub month : ℤ
  pub reporting_currency_code : String
  pub is_locked : Bool

unfoldable pub is_other_month : YearMonth → BudgetPeriod → Bool
is_other_month now p = not (eqb_ℤ p.year now.year) || not (eqb_ℤ p.month now.month)

unfoldable pub get_period_context :
    Environment → YearMonth → Store → String → ℤ → ℤ → Result PeriodContext
unfolding get_current_period is_other_month
get_period_context env now store user_id year month = do
  period ← get_current_period env store user_id year month
  ok (record {
    period_id = period.id;
    user_id = period.user_id;
    year = period.year;
    month = period.month;
    reporting_currency_code = period.reporting_currency_code;
    is_locked = is_other_month now period;
  })

pub record UpdatePeriodRequest : Type 0 where
  pub budget_amount : ℤ
  pub essentials_percent : ℤ
  pub desires_percent : ℤ
  pub savings_percent : ℤ

-- SET budget_amount, essentials_percent, desires_percent, savings_percent
unfoldable pub set_budget : UpdatePeriodRequest → BudgetPeriod → BudgetPeriod
set_budget req p = record p {
  budget_amount = req.budget_amount;
  essentials_percent = req.essentials_percent;
  desires_percent = req.desires_percent;
  savings_percent = req.savings_percent;
}

-- … WHERE id = … AND user_id = …
unfoldable pub update_periods :
    String → String → UpdatePeriodRequest → List BudgetPeriod → List BudgetPeriod
unfolding set_budget
update_periods id user_id req =
    map (λ p. if str_eq p.id id && str_eq p.user_id user_id then set_budget req p else p)

abbrev pub budget_not_found : Error
budget_not_found = not_found "Budget period not found"

abbrev pub period_locked : Error
period_locked = coded "PERIOD_LOCKED" "Past periods are read-only and cannot be modified" 403

unfoldable pub write_period :
    Environment → Store → String → String → UpdatePeriodRequest → Store × Result BudgetPeriod
unfolding update_periods find_period_by_id not_found
write_period env store user_id period_id req = elim (env.query "UpdatePeriod") [
  | some e ↦ (store, err e)
  | none ↦
      let rows = update_periods period_id user_id req store.periods in
      elim (find_period_by_id period_id user_id rows) [
        | none ↦ (store, err budget_not_found)
        | some updated ↦ (record store { periods = rows }, ok updated)
      ]
]

unfoldable pub update_period :
    Environment
    → YearMonth
    → Store
    → String
    → String
    → UpdatePeriodRequest
    → Store × Result BudgetPeriod
unfolding validate_eds_split check has_errors validation find_period_by_id is_other_month
    write_period not_found
update_period env now store user_id period_id req =
    let v = check (leb_ℤ (pos 0) req.budget_amount) "budgetAmount" "must be non-negative" [] in
    elim (validate_eds_split req.essentials_percent req.desires_percent req.savings_percent) [
      | some e ↦ (store, err e)
      | none ↦
          if has_errors v
          then (store, err (validation_failed v))
          else elim (env.query "GetPeriodByID") [
            | some e ↦ (store, err e)
            | none ↦ elim (find_period_by_id period_id user_id store.periods) [
              | none ↦ (store, err budget_not_found)
              | some existing ↦
                  if is_other_month now existing
                  then (store, err period_locked)
                  else write_period env store user_id period_id req
            ]
          ]
    ]
