-- ===== src/Finance/Dashboard.antt =====
-- The computations of services/finance/internal/service/dashboard.go.
pub mod Shares
pub mod Spending
use gofin.Prelude.{if◌then◌else◌, ℕ, String, Bool, true, not, ◌&&◌, ◌||◌, List, [], ◌∷◌, str_eq}
use gofin.Prelude.Int.{wrap32, pos_part, ◌-ℤ◌, ◌+ℤ◌, wrap64, ltb_ℤ, eqb_ℤ, pos, quot, ◌*ℤ◌, ℤ}
use gofin.Finance.Model.{BudgetPeriod, ExpenseData}

-- Go's float64, which the theorems leave open: the conversions from and to int64, the operations, the
-- rounding of `math.Round` and the comparison.
pub record Float : Type 1 where
  pub F : Type 0
  pub of_int : ℤ → F
  pub to_int : F → ℤ
  pub times : F → F → F
  pub over : F → F → F
  pub plus : F → F → F
  pub round : F → F
  pub at_most : F → F → Bool

pub record Allocation : Type 0 where
  pub essentials : ℤ
  pub desires : ℤ
  pub savings : ℤ

abbrev share : ℤ → ℤ → ℤ
share budget percent = quot (wrap64 (budget *ℤ percent)) 100

-- The remainder goes to the largest percentage, the first of the largest in the order of the source.
unfoldable pub add_remainder : ℤ → ℤ → ℤ → ℤ → Allocation → Allocation
add_remainder remainder essentials_pct desires_pct savings_pct a =
    let to_savings = record a { savings = wrap64 (a.savings +ℤ remainder) } in
    if ltb_ℤ essentials_pct desires_pct
    then if ltb_ℤ desires_pct savings_pct
      then to_savings
      else record a { desires = wrap64 (a.desires +ℤ remainder) }
    else if ltb_ℤ essentials_pct savings_pct
    then to_savings
    else record a { essentials = wrap64 (a.essentials +ℤ remainder) }

unfoldable pub allocate_categories : ℤ → ℤ → ℤ → ℤ → Allocation
unfolding add_remainder
allocate_categories budget essentials_pct desires_pct savings_pct =
    let a : Allocation = record {
      essentials = share budget essentials_pct;
      desires = share budget desires_pct;
      savings = share budget savings_pct;
    } in
    let remainder = wrap64 (budget -ℤ wrap64 (wrap64 (a.essentials +ℤ a.desires) +ℤ a.savings)) in
    if eqb_ℤ budget (pos 0)
    then record { essentials = pos 0; desires = pos 0; savings = pos 0 }
    else if eqb_ℤ remainder (pos 0)
    then a
    else add_remainder remainder essentials_pct desires_pct savings_pct a

-- What has been spent in total and in each category.
pub record Spent : Type 0 where
  pub total : ℤ
  pub essentials : ℤ
  pub desires : ℤ
  pub savings : ℤ

abbrev pub no_spending : Spent
no_spending = record { total = pos 0; essentials = pos 0; desires = pos 0; savings = pos 0 }

abbrev pub add_if : Bool → ℤ → ℤ → ℤ
add_if b total amount = if b then wrap64 (total +ℤ amount) else total

-- One round of the loop of `ComputePeriodSummary` and `ComputeSpendingTrends`.
unfoldable pub add_expense : Spent → ExpenseData → Spent
add_expense s e = record {
  total = wrap64 (s.total +ℤ e.reporting_amount);
  essentials = add_if (str_eq e.expense_type "essentials") s.essentials e.reporting_amount;
  desires = add_if (str_eq e.expense_type "desires") s.desires e.reporting_amount;
  savings = add_if (str_eq e.expense_type "savings") s.savings e.reporting_amount;
}

unfoldable pub add_expenses : List ExpenseData → Spent → Spent
unfolding add_expense
add_expenses [] s = s
add_expenses (e ∷ es) s = add_expenses es (add_expense s e)

-- A calendar date, and the last day of a month.
pub record Date : Type 0 where
  pub year : ℤ
  pub month : ℤ
  pub day : ℤ

abbrev divides : ℕ → ℤ → Bool
divides n y = eqb_ℤ (pos n *ℤ quot y n) y

unfoldable pub is_leap : ℤ → Bool
unfolding ◌*ℤ◌ quot
is_leap y = divides 4 y && (not (divides 100 y) || divides 400 y)

-- `daysInMonth`, for the months 1 to 12, which are all that the callers pass.
unfoldable pub days_in_month : ℤ → ℤ → ℤ
unfolding is_leap
days_in_month year month =
    if eqb_ℤ month (pos 2)
    then if is_leap year then pos 29 else pos 28
    else if eqb_ℤ month (pos 4)
        || eqb_ℤ month (pos 6)
        || eqb_ℤ month (pos 9)
        || eqb_ℤ month (pos 11)
    then pos 30
    else pos 31

unfoldable pub compute_days_elapsed : ℤ → ℤ → ℤ → Date → ℤ
compute_days_elapsed year month days_in_period now =
    if eqb_ℤ now.year year && eqb_ℤ now.month month then now.day else days_in_period

module _ (fl : Float) where
  pub record CategorySummary : Type 0 where
    pub allocated : ℤ
    pub spent : ℤ
    pub remaining : ℤ
    pub percent_used : fl.F

  abbrev hundredths : ℤ → ℤ → fl.F
  hundredths a b =
      fl.over (fl.round (fl.times (fl.over (fl.of_int a) (fl.of_int b)) (fl.of_int (pos 10000))))
        (fl.of_int (pos 100))

  unfoldable pub build_category_summary : ℤ → ℤ → CategorySummary
  build_category_summary allocated spent =
      let over_nothing =
        fl.plus (fl.of_int (pos 100))
          (fl.round (fl.over (fl.of_int spent) (fl.of_int (pos 100)))) in
      record {
        allocated = allocated;
        spent = spent;
        remaining = wrap64 (allocated -ℤ spent);
        percent_used =
            if ltb_ℤ (pos 0) allocated
            then hundredths spent allocated
            else if ltb_ℤ (pos 0) spent
            then over_nothing
            else fl.of_int (pos 0);
      }

  pub record PeriodSummary : Type 0 where
    pub period_id : String
    pub year : ℤ
    pub month : ℤ
    pub total_budget : ℤ
    pub total_spent : ℤ
    pub remaining : ℤ
    pub days_in_period : ℤ
    pub days_elapsed : ℤ
    pub daily_spend_rate : ℤ
    pub budget_pace : ℤ
    pub is_on_track : Bool
    pub essentials : CategorySummary
    pub desires : CategorySummary
    pub savings : CategorySummary

  abbrev quot_if_positive : ℤ → ℤ → ℤ
  quot_if_positive a days = if ltb_ℤ (pos 0) days then quot a (pos_part days) else pos 0

  unfoldable pub compute_period_summary :
      BudgetPeriod → List ExpenseData → ℤ → ℤ → Date → PeriodSummary
  unfolding days_in_month compute_days_elapsed add_expenses allocate_categories
      build_category_summary quot
  compute_period_summary period expenses year month now =
      let days_in_period = days_in_month year month in
      let days_elapsed = compute_days_elapsed year month days_in_period now in
      let s = add_expenses expenses no_spending in
      let a =
        allocate_categories period.budget_amount period.essentials_percent period.desires_percent
          period.savings_percent in
      let remaining = wrap64 (period.budget_amount -ℤ s.total) in
      let daily = quot_if_positive s.total days_elapsed in
      record {
        period_id = period.id;
        year = year;
        month = month;
        total_budget = period.budget_amount;
        total_spent = s.total;
        remaining = remaining;
        days_in_period = days_in_period;
        days_elapsed = days_elapsed;
        daily_spend_rate = daily;
        budget_pace = quot_if_positive remaining (wrap32 (days_in_period -ℤ days_elapsed));
        is_on_track =
            if ltb_ℤ (pos 0) days_in_period
            then fl.at_most (fl.of_int daily)
                (fl.over (fl.of_int period.budget_amount) (fl.of_int days_in_period))
            else true;
        essentials = build_category_summary a.essentials s.essentials;
        desires = build_category_summary a.desires s.desires;
        savings = build_category_summary a.savings s.savings;
      }
