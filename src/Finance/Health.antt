-- ===== src/Finance/Health.antt =====
-- services/finance/internal/service/healthscore.go with healthscore_components.go and
-- healthscore_stability.go: the parts of the score.
pub mod Money
pub mod Insight
pub mod Score
pub mod Bounds
pub mod Service
pub mod Frozen
pub mod Trend
pub mod Tests
use gofin.Prelude.{
  if◌then◌else◌, length, ℕ, ◌-◌, String, str_append, Bool, true, not, ◌&&◌, Option, none, some,
  List, [], ◌∷◌, ◌++◌,
}
use gofin.Prelude.Int.{◌-ℤ◌, ◌+ℤ◌, wrap64, eqb_ℤ, ltb_ℤ, wrap32, leb_ℤ, ℤ, pos}
use gofin.Prelude.Format.{show_ℤ}

-- Go's float64, which is a parameter: conversions, constants, arithmetic, and `math.Round` followed
-- by the conversion to an integer.
pub record Float64 : Type 1 where
  pub F : Type 0
  pub of_int : ℤ → F
  pub constant : ℕ → ℕ → F
  pub plus : F → F → F
  pub minus : F → F → F
  pub times : F → F → F
  pub over : F → F → F
  pub abs : F → F
  pub sqrt : F → F
  pub is_less : F → F → Bool
  pub is_at_most : F → F → Bool
  pub rounded : F → ℤ

pub record HealthComponent : Type 0 where
  pub key : String
  pub score : ℤ
  pub max : ℤ
  pub detail : String

abbrev pub stability_min_months : ℕ
stability_min_months = 3

abbrev pub alloc_balanced_detail : String
alloc_balanced_detail = "Balanced across categories"

abbrev pub stability_steady_detail : String
stability_steady_detail = "Desires spend held steady month to month"

unfoldable pub round_clamp : ℤ → ℤ → ℤ
round_clamp score max =
    if ltb_ℤ score (pos 0) then pos 0 else if ltb_ℤ max score then max else score

module _ (f : Float64) where
  abbrev pub whole : ℕ → f.F
  whole n = f.of_int (pos n)

  pub record WeightResolution : Type 0 where
    pub savings_dropped : Bool
    pub stability_dropped : Bool
    pub savings_weight : f.F
    pub budget_weight : f.F
    pub alloc_weight : f.F
    pub stability_weight : f.F
    pub max_savings : ℤ
    pub max_budget : ℤ
    pub max_alloc : ℤ
    pub max_stability : ℤ

  -- The base weights are 25, 25, 30 and 20.
  unfoldable pub weight_sum : Bool → Bool → f.F
  weight_sum savings_present stability_present =
      let base = f.plus (whole 25) (whole 30) in
      let with_savings = if savings_present then f.plus base (whole 25) else base in
      if stability_present then f.plus with_savings (whole 20) else with_savings

  abbrev pub eff_weight : f.F → ℕ → f.F
  eff_weight denom base = f.over (f.times (whole 100) (whole base)) denom

  unfoldable pub resolve_weights : Bool → Bool → WeightResolution
  unfolding weight_sum
  resolve_weights savings_present stability_present =
      let denom = weight_sum savings_present stability_present in
      let max_budget = f.rounded (eff_weight denom 25) in
      let max_alloc = f.rounded (eff_weight denom 30) in
      let max_savings = if savings_present then f.rounded (eff_weight denom 25) else pos 0 in
      let max_stability = if stability_present then f.rounded (eff_weight denom 20) else pos 0 in
      let sum =
        wrap32 (wrap32 (wrap32 (max_savings +ℤ max_budget) +ℤ max_alloc) +ℤ max_stability) in
      record {
        savings_dropped = not savings_present;
        stability_dropped = not stability_present;
        savings_weight = if savings_present then eff_weight denom 25 else whole 0;
        budget_weight = eff_weight denom 25;
        alloc_weight = eff_weight denom 30;
        stability_weight = if stability_present then eff_weight denom 20 else whole 0;
        max_savings = max_savings;
        max_budget = max_budget;
        max_alloc = wrap32 (max_alloc +ℤ wrap32 (pos 100 -ℤ sum));
        max_stability = max_stability;
      }

  -- An excess over 1 is cut off.
  abbrev at_most_one : f.F → f.F
  at_most_one x = if f.is_less (whole 1) x then whole 1 else x

  unfoldable pub savings_ratio : ℤ → ℤ → f.F
  savings_ratio savings_actual savings_target =
      at_most_one (f.over (f.of_int savings_actual) (f.of_int savings_target))

  unfoldable pub budget_factor : ℤ → ℤ → f.F
  budget_factor ed_actual combined_target =
      let ratio = f.over (f.of_int ed_actual) (f.of_int combined_target) in
      if eqb_ℤ combined_target (pos 0)
      then if eqb_ℤ ed_actual (pos 0) then whole 1 else whole 0
      else if f.is_at_most ratio (whole 1)
      then whole 1
      else if f.is_at_most (f.constant 3 2) ratio
      then whole 0
      else f.over (f.minus (f.constant 3 2) ratio) (f.minus (f.constant 3 2) (whole 1))

  pub record CategoryDev : Type 0 where
    pub label : String
    pub dev : f.F

  -- The category most over its share, and the one most under it.
  unfoldable pub max_positive_dev : Option CategoryDev → List CategoryDev → Option CategoryDev
  max_positive_dev best [] = best
  max_positive_dev best (d ∷ ds) =
      let better : Bool = elim best [ none ↦ true | some b ↦ f.is_less b.dev d.dev ] in
      max_positive_dev (if f.is_less (whole 0) d.dev && better then some d else best) ds

  unfoldable pub min_negative_dev : Option CategoryDev → List CategoryDev → Option CategoryDev
  min_negative_dev best [] = best
  min_negative_dev best (d ∷ ds) =
      let better : Bool = elim best [ none ↦ true | some b ↦ f.is_less d.dev b.dev ] in
      min_negative_dev (if f.is_less d.dev (whole 0) && better then some d else best) ds

  abbrev pub points_of : f.F → ℤ
  points_of x = f.rounded (f.times x (whole 100))

  unfoldable pub allocation_detail : List CategoryDev → String
  unfolding max_positive_dev show_ℤ
  allocation_detail devs = elim (max_positive_dev none devs) [
    | none ↦ alloc_balanced_detail
    | some over ↦
        if leb_ℤ (points_of over.dev) (pos 0)
        then alloc_balanced_detail
        else str_append over.label
            (str_append " " (str_append (show_ℤ (points_of over.dev)) " pts over target share"))
  ]

  -- A penalty with one coefficient, half or whole, for each sign.
  abbrev halved : f.F → f.F
  halved x = f.times (f.constant 1 2) (f.abs x)

  abbrev full : f.F → f.F
  full x = f.times (whole 1) (f.abs x)

  pub record AllocationResult : Type 0 where
    pub score : f.F
    pub detail : String
    pub devs : List CategoryDev

  unfoldable pub allocation_component :
      (essentials desires savings essentials_pct desires_pct savings_pct : ℤ)
      → Bool
      → f.F
      → AllocationResult
  unfolding allocation_detail
  allocation_component essentials desires savings essentials_pct desires_pct savings_pct dropped
        weight =
      let ed_pct = wrap32 (essentials_pct +ℤ desires_pct) in
      let ed_spend = wrap64 (essentials +ℤ desires) in
      let percent_sum = if dropped then ed_pct else wrap32 (ed_pct +ℤ savings_pct) in
      let spend = if dropped then ed_spend else wrap64 (ed_spend +ℤ savings) in
      let dev = λ (actual pct : ℤ).
        f.minus (f.over (f.of_int actual) (f.of_int spend))
          (f.over (f.of_int pct) (f.of_int percent_sum)) in
      let e = dev essentials essentials_pct in
      let d = dev desires desires_pct in
      let s = dev savings savings_pct in
      let ed_dev = f.plus (halved e) (if f.is_less (whole 0) d then full d else halved d) in
      let wdev =
        if dropped
        then ed_dev
        else f.plus ed_dev (if f.is_less s (whole 0) then full s else halved s) in
      let ed_devs : List CategoryDev =
        record { label = "Essentials"; dev = e } ∷ record { label = "Desires"; dev = d } ∷ [] in
      let devs =
        if dropped then ed_devs else ed_devs ++ (record { label = "Savings"; dev = s } ∷ []) in
      if eqb_ℤ spend (pos 0)
      then record { score = weight; detail = alloc_balanced_detail; devs = [] }
      else record {
        score = f.times weight (f.minus (whole 1) (at_most_one (f.over wdev (whole 1))));
        detail = allocation_detail devs;
        devs = devs;
      }

  unfoldable pub sum_int64 : ℤ → List ℤ → ℤ
  sum_int64 total [] = total
  sum_int64 total (z ∷ zs) = sum_int64 (wrap64 (total +ℤ z)) zs

  unfoldable pub mean_int64 : List ℤ → f.F
  unfolding sum_int64
  mean_int64 values = f.over (f.of_int (sum_int64 (pos 0) values)) (f.of_int (pos (length values)))

  unfoldable pub sum_squares : f.F → f.F → List ℤ → f.F
  sum_squares mean total [] = total
  sum_squares mean total (z ∷ zs) =
      let delta = f.minus (f.of_int z) mean in
      sum_squares mean (f.plus total (f.times delta delta)) zs

  unfoldable pub sample_std_dev : List ℤ → f.F → f.F
  unfolding sum_squares
  sample_std_dev values mean =
      f.sqrt (f.over (sum_squares mean (whole 0) values) (f.of_int (pos (length values - 1))))

  unfoldable pub stability_detail : f.F → String
  unfolding show_ℤ
  stability_detail cov =
      if leb_ℤ (points_of cov) (pos 0)
      then stability_steady_detail
      else str_append "Desires spend varied ~"
          (str_append (show_ℤ (points_of cov)) "% month to month")

  -- The score and the detail; there are months enough.
  unfoldable pub stability_component : List ℤ → f.F → f.F × String
  unfolding mean_int64 sample_std_dev stability_detail
  stability_component desires weight =
      let mean = mean_int64 desires in
      let cov = f.over (sample_std_dev desires mean) mean in
      let ratio = f.minus (whole 1) (f.over cov (whole 1)) in
      let floored = if f.is_less ratio (whole 0) then whole 0 else ratio in
      if f.is_at_most mean (whole 0) && f.is_at_most (whole 0) mean
      then (weight, stability_steady_detail)
      else (f.times weight (at_most_one floored), stability_detail cov)
