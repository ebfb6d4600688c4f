-- ===== src/Finance/Health/Score.antt =====
-- `ComputeHealthScore` of services/finance/internal/service/healthscore.go, the bands of
-- services/finance/internal/model/healthscore.go, and what healthscore_service.go stores.
use gofin.Prelude.{leb, if◌then◌else◌, length, String, Bool, false, not, ◌&&◌, List, [], ◌∷◌, ◌++◌}
use gofin.Finance.Health.{
  WeightResolution, stability_component, stability_min_months, budget_factor, savings_ratio,
  allocation_component, round_clamp, wrap32, eqb_ℤ, wrap64, resolve_weights, HealthComponent, leb_ℤ,
  ltb_ℤ, pos, Float64,
}
use gofin.Finance.Health.Insight.{joined_text, InsightInputs, HealthInsight, build_insight}
use gofin.Finance.Health.Money.{format_money, currency_symbol}
use gofin.Prelude.Int.{◌*ℤ◌, ◌+ℤ◌, wrap32, eqb_ℤ, wrap64, ltb_ℤ, pos, quot, leb_ℤ, ℤ}
use gofin.Finance.Dashboard.{no_spending, Spent, add_expenses}
use gofin.Finance.Model.{BudgetPeriod, ExpenseData}
use gofin.Finance.Months.{YearMonth}

pub record HealthScore : Type 0 where
  pub year : ℤ
  pub month : ℤ
  pub total : ℤ
  pub band : String
  pub provisional : Bool
  pub formula_version : ℤ
  pub reporting_currency_code : String
  pub components : List HealthComponent
  pub insight : HealthInsight
  pub configure_budget : Bool

abbrev pub formula_version_now : ℤ
formula_version_now = pos 4

unfoldable pub band : ℤ → String
band total =
    if leb_ℤ (pos 80) total then "green" else if leb_ℤ (pos 55) total then "amber" else "red"

unfoldable pub spent_on : List ExpenseData → Spent
unfolding add_expenses
spent_on expenses = add_expenses expenses no_spending

unfoldable pub is_provisional : ℤ → ℤ → YearMonth → Bool
is_provisional year month now = eqb_ℤ now.year year && eqb_ℤ now.month month

unfoldable pub sum_scores : ℤ → List HealthComponent → ℤ
sum_scores total [] = total
sum_scores total (c ∷ cs) = sum_scores (wrap32 (total +ℤ c.score)) cs

unfoldable pub clamp_total : ℤ → ℤ
clamp_total total =
    if ltb_ℤ total (pos 0) then pos 0 else if ltb_ℤ (pos 100) total then pos 100 else total

abbrev pub when : {A : Type 0} → Bool → A → List A
when b a = if b then a ∷ [] else []

unfoldable pub component : String → ℤ → ℤ → String → HealthComponent
unfolding round_clamp
component key score max detail = record {
  key = key;
  score = round_clamp score max;
  max = max;
  detail = detail;
}

abbrev pub target : ℤ → ℤ → ℤ
target budget percent = quot (wrap64 (budget *ℤ percent)) 100

module _ (f : Float64) where
  -- The rounded scores and the details of the components, also of those not present.
  pub record Parts : Type 0 where
    pub weights : WeightResolution f
    pub savings : ℤ × String
    pub budget : ℤ × String
    pub alloc : ℤ × String
    pub stability : ℤ × String

  unfoldable pub health_parts : BudgetPeriod → Spent → List ℤ → String → Parts
  unfolding resolve_weights savings_ratio budget_factor allocation_component stability_component
      format_money
  health_parts period spent desires_window symbol =
      let ed_actual = wrap64 (spent.essentials +ℤ spent.desires) in
      let savings_target = target period.budget_amount period.savings_percent in
      let combined_target =
        target period.budget_amount
          (wrap32 (period.essentials_percent +ℤ period.desires_percent)) in
      let w =
        resolve_weights f (not (eqb_ℤ savings_target (pos 0)))
          (leb stability_min_months (length desires_window)) in
      let allocation =
        allocation_component f spent.essentials spent.desires spent.savings
          period.essentials_percent period.desires_percent period.savings_percent w.savings_dropped
          w.alloc_weight in
      let stability = stability_component f desires_window w.stability_weight in
      record {
        weights = w;
        savings = (
          f.rounded (f.times w.savings_weight (savings_ratio f spent.savings savings_target)),
          joined_text (
              "Saved "
              ∷ format_money spent.savings symbol
              ∷ " of "
              ∷ format_money savings_target symbol
              ∷ " target"
              ∷ []),
        );
        budget = (
          f.rounded (f.times w.budget_weight (budget_factor f ed_actual combined_target)),
          joined_text (
              "Spent "
              ∷ format_money ed_actual symbol
              ∷ " of "
              ∷ format_money combined_target symbol
              ∷ " plan"
              ∷ []),
        );
        alloc = (f.rounded allocation.score, allocation.detail);
        stability = (f.rounded stability.0, stability.1);
      }

  -- The components present, in their order.
  unfoldable pub present_components : Parts → List HealthComponent
  unfolding component
  present_components p =
      when (not p.weights.savings_dropped)
        (component "savings_achievement" p.savings.0 p.weights.max_savings p.savings.1)
      ++ (component "budget_adherence" p.budget.0 p.weights.max_budget p.budget.1
          ∷ component "allocation_balance" p.alloc.0 p.weights.max_alloc p.alloc.1
          ∷ when (not p.weights.stability_dropped)
              (component "spending_stability" p.stability.0 p.weights.max_stability p.stability.1))

  unfoldable pub health_components : BudgetPeriod → Spent → List ℤ → String → List HealthComponent
  unfolding health_parts present_components
  health_components period spent desires_window symbol =
      present_components (health_parts period spent desires_window symbol)

  unfoldable pub insight_inputs : BudgetPeriod → Spent → List ℤ → String → InsightInputs f
  unfolding resolve_weights allocation_component
  insight_inputs period spent desires_window symbol =
      let savings_target = target period.budget_amount period.savings_percent in
      let w =
        resolve_weights f (not (eqb_ℤ savings_target (pos 0)))
          (leb stability_min_months (length desires_window)) in
      let allocation =
        allocation_component f spent.essentials spent.desires spent.savings
          period.essentials_percent period.desires_percent period.savings_percent w.savings_dropped
          w.alloc_weight in
      record {
        savings_actual = spent.savings;
        savings_target = savings_target;
        ed_actual = wrap64 (spent.essentials +ℤ spent.desires);
        combined_target =
            target period.budget_amount
              (wrap32 (period.essentials_percent +ℤ period.desires_percent));
        max_savings = w.max_savings;
        max_budget = w.max_budget;
        max_alloc = w.max_alloc;
        max_stability = w.max_stability;
        alloc_devs = allocation.devs;
        symbol = symbol;
      }

  unfoldable pub compute_health_score :
      BudgetPeriod → List ExpenseData → List ℤ → ℤ → ℤ → YearMonth → String → HealthScore
  unfolding band spent_on is_provisional sum_scores clamp_total health_components insight_inputs
      build_insight currency_symbol
  compute_health_score period expenses desires_window year month now currency =
      let symbol = currency_symbol currency in
      let spent = spent_on expenses in
      let components = health_components period spent desires_window symbol in
      let total = clamp_total (sum_scores (pos 0) components) in
      record {
        year = year;
        month = month;
        total = total;
        band = band total;
        provisional = is_provisional year month now;
        formula_version = formula_version_now;
        reporting_currency_code = currency;
        components = components;
        insight = build_insight f components (insight_inputs period spent desires_window symbol);
        configure_budget = false;
      }
