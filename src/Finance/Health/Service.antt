-- ===== src/Finance/Health/Service.antt =====
-- services/finance/internal/service/healthscore_service.go and healthscore_trend.go, on the table of
-- stored scores.
use gofin.Prelude.{
  if◌then◌else◌, take, keep, ℕ, String, Bool, true, false, not, ◌&&◌, ◌||◌, Option, none, some,
  List, [], ◌∷◌, str_eq,
}
use gofin.Prelude.Int.{pos_part, pos, eqb_ℤ, ltb_ℤ, ℤ}
use gofin.Finance.Health.Score.{
  formula_version_now, compute_health_score, is_provisional, HealthScore,
}
use gofin.Finance.Dashboard.{add_if}
use gofin.Finance.Months.{YearMonth}
use gofin.Exec.{pure, gets, attempt, Exec, lift, ◌>>=◌, ◌>>◌}
use gofin.Finance.Model.{ExpenseData, BudgetPeriod}
use gofin.Api.{ok, err, Result, Error}
use gofin.Finance.Health.{pos, ltb_ℤ, eqb_ℤ, Float64}

pub record StoredScore : Type 0 where
  pub user_id : String
  pub score : HealthScore

-- A statement fails with an error, or not; the expense service answers with the active expenses of a
-- month; `periods` is the table of budget periods, newest first for each user, and `now` the clock.
pub record HealthPeers : Type 0 where
  pub statement : String → Option Error
  pub active_expenses : String → ℤ → ℤ → Result (List ExpenseData)
  pub periods : List BudgetPeriod
  pub now : YearMonth

pub record HealthScoreTrendPoint : Type 0 where
  pub year : ℤ
  pub month : ℤ
  pub total : ℤ
  pub band : String
  pub provisional : Bool
  pub formula_version : ℤ
  pub reporting_currency_code : String

abbrev pub is_score_of : String → ℤ → ℤ → StoredScore → Bool
is_score_of user_id year month r =
    str_eq r.user_id user_id && (eqb_ℤ r.score.year year && eqb_ℤ r.score.month month)

unfoldable pub find_score : String → ℤ → ℤ → List StoredScore → Option HealthScore
find_score user_id year month [] = none
find_score user_id year month (r ∷ rs) =
    let rest = find_score user_id year month rs in
    if is_score_of user_id year month r then some r.score else rest

abbrev pub put_score : String → HealthScore → List StoredScore → List StoredScore
put_score user_id score rows =
    record { user_id = user_id; score = score }
    ∷ keep (λ r. not (is_score_of user_id score.year score.month r)) rows

unfoldable pub after_target : ℤ → ℤ → ℤ → ℤ → Bool
after_target year month target_year target_month =
    ltb_ℤ target_year year || (eqb_ℤ year target_year && ltb_ℤ target_month month)

unfoldable pub sum_desires : ℤ → List ExpenseData → ℤ
sum_desires total [] = total
sum_desires total (e ∷ es) =
    sum_desires (add_if (str_eq e.expense_type "desires") total e.reporting_amount) es

-- A score from before the field was added takes the period's currency.
unfoldable pub backfilled : BudgetPeriod → HealthScore → HealthScore
backfilled period score =
    if str_eq score.reporting_currency_code ""
    then record score { reporting_currency_code = period.reporting_currency_code }
    else score

abbrev and_month : Result ℤ → Result (List ℤ) → Result (List ℤ)
and_month (err e) rest = err e
and_month (ok z) (err e) = err e
and_month (ok z) (ok zs) = ok (z ∷ zs)

abbrev desires_in : Result (List ExpenseData) → Result ℤ
unfolding sum_desires
desires_in (ok es) = ok (sum_desires (pos 0) es)
desires_in (err e) = err e

abbrev pub currency_of : BudgetPeriod → String
currency_of period =
    if str_eq period.reporting_currency_code "" then "USD" else period.reporting_currency_code

abbrev pub clamp_months : ℤ → ℕ
clamp_months months =
    if ltb_ℤ months (pos 1) then 6 else if ltb_ℤ (pos 12) months then 12 else pos_part months

module _ (f : Float64) (peers : HealthPeers) where
  unfoldable pub run : String → Exec (List StoredScore) Unit
  run name s = (s, elim (peers.statement name) [ none ↦ ok tt | some e ↦ err e ])

  unfoldable pub get_health_score_row :
      String → ℤ → ℤ → Exec (List StoredScore) (Option HealthScore)
  unfolding run find_score gets ◌>>=◌
  get_health_score_row user_id year month = do
    run "GetHealthScore"
    gets (find_score user_id year month)

  unfoldable pub upsert_health_score : String → HealthScore → Exec (List StoredScore) Unit
  unfolding run ◌>>=◌
  upsert_health_score user_id score = do
    run "UpsertHealthScore"
    (λ s. (put_score user_id score s, ok tt))

  unfoldable pub list_periods : String → Result (List BudgetPeriod)
  list_periods user_id = elim (peers.statement "ListPeriods") [
    | some e ↦ err e
    | none ↦ ok (keep (λ p. str_eq p.user_id user_id) peers.periods)
  ]

  -- The months of the window, read one after the other; the first error is the answer.
  unfoldable pub desires_of : String → List BudgetPeriod → Result (List ℤ)
  unfolding desires_in
  desires_of user_id [] = ok []
  desires_of user_id (p ∷ ps) =
      and_month (desires_in (peers.active_expenses user_id p.year p.month)) (desires_of user_id ps)

  -- The closed months at or before the target, six at most.
  unfoldable pub is_closed_by : ℤ → ℤ → BudgetPeriod → Bool
  unfolding after_target is_provisional
  is_closed_by year month p =
      not (after_target p.year p.month year month) && not (is_provisional p.year p.month peers.now)

  abbrev window_from : String → ℤ → ℤ → Result (List BudgetPeriod) → Result (List ℤ)
  unfolding desires_of is_closed_by
  window_from user_id year month (err e) = err e
  window_from user_id year month (ok periods) =
      desires_of user_id (take 6 (keep (is_closed_by year month) periods))

  unfoldable pub build_desires_window : String → ℤ → ℤ → Result (List ℤ)
  unfolding list_periods window_from
  build_desires_window user_id year month = window_from user_id year month (list_periods user_id)

  unfoldable pub live_from :
      BudgetPeriod → ℤ → ℤ → Result (List ExpenseData) → Result (List ℤ) → Result HealthScore
  unfolding compute_health_score
  live_from period year month (err e) window = err e
  live_from period year month (ok expenses) (err e) = err e
  live_from period year month (ok expenses) (ok window) =
      ok (compute_health_score f period expenses window year month peers.now (currency_of period))

  -- The score of now, which writes nothing.
  unfoldable pub compute_live : String → BudgetPeriod → ℤ → ℤ → Result HealthScore
  unfolding build_desires_window live_from
  compute_live user_id period year month =
      live_from period year month (peers.active_expenses user_id year month)
        (build_desires_window user_id year month)

  -- The answer does not depend on whether the score could be stored.
  unfoldable pub recompute : String → BudgetPeriod → ℤ → ℤ → Exec (List StoredScore) HealthScore
  unfolding compute_live upsert_health_score attempt lift pure
  recompute user_id period year month = do
    result ← lift (compute_live user_id period year month)
    attempt (upsert_health_score user_id result)
    pure result

  abbrev pub stored_or_new :
      String → BudgetPeriod → ℤ → ℤ → Option HealthScore → Exec (List StoredScore) HealthScore
  stored_or_new user_id period year month none = recompute user_id period year month
  stored_or_new user_id period year month (some stored) =
      if eqb_ℤ stored.formula_version formula_version_now
      then pure (backfilled period stored)
      else recompute user_id period year month

  unfoldable pub resolve_health_score :
      String → BudgetPeriod → ℤ → ℤ → Exec (List StoredScore) HealthScore
  unfolding is_provisional compute_live get_health_score_row lift
  resolve_health_score user_id period year month =
      if is_provisional year month peers.now
      then lift (compute_live user_id period year month)
      else do
        stored ← get_health_score_row user_id year month
        stored_or_new user_id period year month stored

  abbrev pub unconfigured : BudgetPeriod → ℤ → ℤ → HealthScore
  unconfigured period year month = record {
    year = year;
    month = month;
    total = pos 0;
    band = "";
    provisional = false;
    formula_version = pos 0;
    reporting_currency_code = period.reporting_currency_code;
    components = [];
    insight = record { summary = ""; driver = ""; nudge = "" };
    configure_budget = true;
  }

  unfoldable pub get_health_score :
      Result BudgetPeriod → String → ℤ → ℤ → Exec (List StoredScore) HealthScore
  unfolding resolve_health_score lift pure
  get_health_score current user_id year month = do
    period ← lift current
    if eqb_ℤ period.budget_amount (pos 0)
        then pure (unconfigured period year month)
        else resolve_health_score user_id period year month
