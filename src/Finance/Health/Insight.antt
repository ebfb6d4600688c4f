-- ===== src/Finance/Health/Insight.antt =====
-- services/finance/internal/service/healthscore_insight.go.
use gofin.Prelude.{
  if◌then◌else◌, String, str_append, Bool, true, false, Option, none, some, List, [], ◌∷◌, str_eq,
}
use gofin.Prelude.Int.{pos, wrap64, ◌-ℤ◌, wrap32, ltb_ℤ, ℤ}
use gofin.Finance.Health.{
  pos, wrap64, points_of, min_negative_dev, CategoryDev, wrap32, max_positive_dev, show_ℤ, ℤ, ltb_ℤ,
  Float64, HealthComponent,
}
use gofin.Finance.Health.Money.{format_money}
use gofin.Prelude.Format.{show_ℤ}

pub record HealthInsight : Type 0 where
  pub summary : String
  pub driver : String
  pub nudge : String

abbrev pub joined_text : List String → String
joined_text [] = ""
joined_text (s ∷ ss) = str_append s (joined_text ss)

unfoldable pub all_at_max : List HealthComponent → Bool
all_at_max [] = true
all_at_max (c ∷ cs) = let rest = all_at_max cs in if ltb_ℤ c.score c.max then false else rest

-- The first of the lowest.
unfoldable pub select_driver : HealthComponent → List HealthComponent → HealthComponent
select_driver driver [] = driver
select_driver driver (c ∷ cs) = select_driver (if ltb_ℤ c.score driver.score then c else driver) cs

module _ (f : Float64) where
  pub record InsightInputs : Type 0 where
    pub savings_actual : ℤ
    pub savings_target : ℤ
    pub ed_actual : ℤ
    pub combined_target : ℤ
    pub max_savings : ℤ
    pub max_budget : ℤ
    pub max_alloc : ℤ
    pub max_stability : ℤ
    pub alloc_devs : List (CategoryDev f)
    pub symbol : String

  abbrev points_left : ℤ → HealthComponent → String
  unfolding show_ℤ
  points_left max driver = show_ℤ (wrap32 (max -ℤ driver.score))

  abbrev rebalance :
      InsightInputs → String → Option (CategoryDev f) → Option (CategoryDev f) → String
  unfolding show_ℤ
  rebalance i points (some over) (some under) = joined_text (
      over.label
      ∷ " is running "
      ∷ show_ℤ (points_of f over.dev)
      ∷ " pts over its target share. Shifting spend toward "
      ∷ under.label
      ∷ " could recover up to "
      ∷ points
      ∷ " points."
      ∷ [])
  rebalance i points over none =
      joined_text ("Rebalancing your categories could recover up to " ∷ points ∷ " points." ∷ [])
  rebalance i points none (some under) =
      joined_text ("Rebalancing your categories could recover up to " ∷ points ∷ " points." ∷ [])

  unfoldable pub driver_insight : InsightInputs → HealthComponent → HealthInsight
  unfolding points_left rebalance max_positive_dev min_negative_dev format_money
  driver_insight i driver =
      if str_eq driver.key "savings_achievement"
      then record {
        summary = "Savings is the softest score this month.";
        driver = driver.key;
        nudge = joined_text (
            "Move an extra "
            ∷ format_money (wrap64 (i.savings_target -ℤ i.savings_actual)) i.symbol
            ∷ " to savings to reach your target and lift your score about "
            ∷ points_left i.max_savings driver
            ∷ " points."
            ∷ []);
      }
      else if str_eq driver.key "budget_adherence"
      then record {
        summary = "Budget adherence is the softest score this month.";
        driver = driver.key;
        nudge =
            if ltb_ℤ (pos 0) (wrap64 (i.ed_actual -ℤ i.combined_target))
            then joined_text (
                "Trim about "
                ∷ format_money (wrap64 (i.ed_actual -ℤ i.combined_target)) i.symbol
                ∷ " from essentials and desires to get back to plan and lift your score about "
                ∷ points_left i.max_budget driver
                ∷ " points."
                ∷ [])
            else "Keep essentials and desires within your plan to lift this score.";
      }
      else if str_eq driver.key "allocation_balance"
      then record {
        summary = "Your category balance is the softest score this month.";
        driver = driver.key;
        nudge =
            rebalance i (points_left i.max_alloc driver) (max_positive_dev f none i.alloc_devs)
              (min_negative_dev f none i.alloc_devs);
      }
      else if str_eq driver.key "spending_stability"
      then record {
        summary = "Spending stability is the softest score this month.";
        driver = driver.key;
        nudge = joined_text (
            "Steadier discretionary spending month to month could lift your score about "
            ∷ points_left i.max_stability driver
            ∷ " points."
            ∷ []);
      }
      else record { summary = ""; driver = ""; nudge = "" }

  -- There is a component at least.
  unfoldable pub build_insight : List HealthComponent → InsightInputs → HealthInsight
  unfolding all_at_max select_driver driver_insight
  build_insight [] i = record {
    summary = "You're on plan across the board.";
    driver = "";
    nudge = "Keep your spending and savings on their current track to hold this score.";
  }
  build_insight (c ∷ cs) i =
      if all_at_max (c ∷ cs)
      then record {
        summary = "You're on plan across the board.";
        driver = "";
        nudge = "Keep your spending and savings on their current track to hold this score.";
      }
      else driver_insight i (select_driver c cs)
