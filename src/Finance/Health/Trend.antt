-- ===== src/Finance/Health/Trend.antt =====
-- `GetHealthScoreTrend` of services/finance/internal/service/healthscore_trend.go.
use gofin.Exec.{◌>>=◌, ◌>>◌, pure, lift, gets, Exec}
use gofin.Prelude.{
  if◌then◌else◌, take, keep, String, Bool, false, not, ◌&&◌, Option, none, some, List, [], ◌∷◌, map,
  reverse, str_eq,
}
use gofin.Finance.Health.Service.{
  clamp_months, StoredScore, resolve_health_score, run, list_periods, HealthPeers,
  HealthScoreTrendPoint, after_target,
}
use gofin.Prelude.Int.{pos, eqb_ℤ, ℤ}
use gofin.Finance.Health.Score.{formula_version_now, HealthScore, is_provisional}
use gofin.Finance.Health.{pos, eqb_ℤ, Float64}
use gofin.Finance.Months.{YearMonth}
use gofin.Finance.Model.{BudgetPeriod}

-- The columns that are read without the score itself.
abbrev pub scalar_of : HealthScore → HealthScoreTrendPoint
scalar_of s = record {
  year = s.year;
  month = s.month;
  total = s.total;
  band = s.band;
  provisional = false;
  formula_version = s.formula_version;
  reporting_currency_code = "";
}

abbrev pub point_of : BudgetPeriod → HealthScore → HealthScoreTrendPoint
point_of period s = record {
  year = s.year;
  month = s.month;
  total = s.total;
  band = s.band;
  provisional = s.provisional;
  formula_version = s.formula_version;
  reporting_currency_code = period.reporting_currency_code;
}

abbrev pub scalar_for : ℤ → ℤ → List HealthScoreTrendPoint → Option HealthScoreTrendPoint
scalar_for year month [] = none
scalar_for year month (p ∷ ps) =
    let rest = scalar_for year month ps in
    if eqb_ℤ p.year year && eqb_ℤ p.month month then some p else rest

-- A scalar that can stand for the month: of this version, and the month is closed.
unfoldable pub usable :
    BudgetPeriod → YearMonth → Option HealthScoreTrendPoint → Option HealthScoreTrendPoint
unfolding is_provisional
usable period now none = none
usable period now (some p) =
    if not (is_provisional period.year period.month now)
      && eqb_ℤ p.formula_version formula_version_now
    then some (record p { reporting_currency_code = period.reporting_currency_code })
    else none

unfoldable pub is_in_trend : ℤ → ℤ → BudgetPeriod → Bool
unfolding after_target
is_in_trend year month p =
    not (after_target p.year p.month year month) && not (eqb_ℤ p.budget_amount (pos 0))

module _ (f : Float64) (peers : HealthPeers) where
  unfoldable pub list_health_score_scalars :
      String → Exec (List StoredScore) (List HealthScoreTrendPoint)
  unfolding run
  list_health_score_scalars user_id = do
    run f peers "ListHealthScoreScalars"
    gets
        (λ s. map (λ (r : StoredScore). scalar_of r.score) (keep (λ r. str_eq r.user_id user_id) s))

  abbrev pub point_or_score :
      String
      → BudgetPeriod
      → Option HealthScoreTrendPoint
      → Exec (List StoredScore) HealthScoreTrendPoint
  unfolding resolve_health_score
  point_or_score user_id period (some p) = pure p
  point_or_score user_id period none = do
    score ← resolve_health_score f peers user_id period period.year period.month
    pure (point_of period score)

  unfoldable pub trend_points :
      String
      → List HealthScoreTrendPoint
      → List BudgetPeriod
      → Exec (List StoredScore) (List HealthScoreTrendPoint)
  unfolding usable point_or_score
  trend_points user_id scalars [] = pure []
  trend_points user_id scalars (p ∷ ps) = do
    point ← point_or_score user_id p (usable p peers.now (scalar_for p.year p.month scalars))
    points ← trend_points user_id scalars ps
    pure (point ∷ points)

  unfoldable pub get_health_score_trend :
      String → ℤ → ℤ → ℤ → Exec (List StoredScore) (List HealthScoreTrendPoint)
  unfolding list_periods list_health_score_scalars is_in_trend trend_points
  get_health_score_trend user_id year month months = do
    periods ← lift (list_periods f peers user_id)
    scalars ← list_health_score_scalars user_id
    trend_points user_id scalars
        (reverse (take (clamp_months months) (keep (is_in_trend year month) periods)))
