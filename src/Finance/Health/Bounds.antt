-- ===== src/Finance/Health/Bounds.antt =====
-- The range of the score of services/finance/internal/service/healthscore.go.
use gofin.Prelude.{
  leb, if◌then◌else◌, length, All, ℕ, ◌+◌, ◌*◌, ◌/◌, ◌≤◌, String, ◌≡◌, refl, ap, ◌∙◌, Bool, true,
  false, not, List, [], ◌∷◌, ◌++◌, arith,
}
use gofin.Finance.Health.Score.{
  Parts, health_parts, present_components, spent_on, clamp_total, compute_health_score, target,
  when, health_components, component, sum_scores,
}
use gofin.Finance.Health.Money.{currency_symbol}
use gofin.Finance.Months.{YearMonth}
use gofin.Finance.Model.{ExpenseData, BudgetPeriod}
use gofin.Finance.Health.{
  stability_min_months, eqb_ℤ, ℤ, round_clamp, ◌-ℤ◌, ◌+ℤ◌, wrap32, weight_sum, eff_weight, pos,
  resolve_weights, whole, WeightResolution, HealthComponent, Float64,
}
use gofin.Prelude.Int.{
  wrap32_pos, add_pos, eqb_ℤ, negsuc, ℤ, ◌-ℤ◌, ◌+ℤ◌, wrap32, pos, neg_part, pos_part,
}
use gofin.Finance.Dashboard.{Spent}

-- What float64 does with the small whole numbers that are the weights: sums are exact, and a share of
-- 100 is rounded to the nearest whole number, halves up.
pub record IsExact (f : Float64) : Type 0 where
  pub sums : (a b : ℕ) → a + b ≤ 100 → f.plus (whole f a) (whole f b) ≡ whole f (a + b)
  pub shares :
      (base denom : ℕ)
      → 1 ≤ denom
      → denom ≤ 100
      → base ≤ 30
      → f.rounded (eff_weight f (whole f denom) base) ≡ pos ((200 * base + denom) / (2 * denom))

abbrev pub IsWithin : HealthComponent → Type 0
IsWithin c = (neg_part c.score ≡ 0) × (neg_part c.max ≡ 0) × (pos_part c.score ≤ pos_part c.max)

abbrev pub max_sum : List HealthComponent → ℕ
max_sum [] = 0
max_sum (c ∷ cs) = pos_part c.max + max_sum cs

abbrev pub score_sum : List HealthComponent → ℕ
score_sum [] = 0
score_sum (c ∷ cs) = pos_part c.score + score_sum cs

-- The maxima, where the dropped ones count nothing.
abbrev pub Maxima : (f : Float64) → WeightResolution f → Type 0
Maxima f w =
    (neg_part w.max_savings ≡ 0)
    × (neg_part w.max_budget ≡ 0)
    × (neg_part w.max_alloc ≡ 0)
    × (neg_part w.max_stability ≡ 0)
    × (pos_part w.max_budget
          + pos_part w.max_alloc
          + (if not w.savings_dropped then pos_part w.max_savings else 0)
          + (if not w.stability_dropped then pos_part w.max_stability else 0)
        ≡ 100)

module _ (f : Float64) (exact : IsExact f) where
  resolve_weights-Maxima :
      (savings stability : Bool) → Maxima f (resolve_weights f savings stability)
  unfolding resolve_weights weight_sum wrap32 ◌+ℤ◌ ◌-ℤ◌
  resolve_weights-Maxima true true =
      let s1 = exact.sums 25 30 (ground arith) in
      let s2 = exact.sums 55 25 (ground arith) in
      let s3 = exact.sums 80 20 (ground arith) in
      let r1 = exact.shares 25 100 (ground arith) (ground arith) (ground arith) in
      let r2 = exact.shares 30 100 (ground arith) (ground arith) (ground arith) in
      let r3 = exact.shares 20 100 (ground arith) (ground arith) (ground arith) in
      rw (s1, s2, s3, r1, r2, r3) (refl, refl, refl, refl, refl)
  resolve_weights-Maxima true false =
      let s1 = exact.sums 25 30 (ground arith) in
      let s2 = exact.sums 55 25 (ground arith) in
      let r1 = exact.shares 25 80 (ground arith) (ground arith) (ground arith) in
      let r2 = exact.shares 30 80 (ground arith) (ground arith) (ground arith) in
      rw (s1, s2, r1, r2) (refl, refl, refl, refl, refl)
  resolve_weights-Maxima false true =
      let s1 = exact.sums 25 30 (ground arith) in
      let s2 = exact.sums 55 20 (ground arith) in
      let r1 = exact.shares 25 75 (ground arith) (ground arith) (ground arith) in
      let r2 = exact.shares 30 75 (ground arith) (ground arith) (ground arith) in
      let r3 = exact.shares 20 75 (ground arith) (ground arith) (ground arith) in
      rw (s1, s2, r1, r2, r3) (refl, refl, refl, refl, refl)
  resolve_weights-Maxima false false =
      let s1 = exact.sums 25 30 (ground arith) in
      let r1 = exact.shares 25 55 (ground arith) (ground arith) (ground arith) in
      let r2 = exact.shares 30 55 (ground arith) (ground arith) (ground arith) in
      rw (s1, r1, r2) (refl, refl, refl, refl, refl)

component-IsWithin :
    (key : String) (score max : ℤ) (detail : String)
    → neg_part max ≡ 0
    → IsWithin (component key score max detail)
unfolding component round_clamp
component-IsWithin key (pos s) max detail p = ground arith
component-IsWithin key (negsuc s) max detail p = ground arith

-- Every score lies within its maximum, and the maxima add up to 100.
abbrev pub IsBounded : List HealthComponent → Type 0
IsBounded cs = All IsWithin cs × (max_sum cs ≡ 100)

present-IsBounded :
    (savings stability : Bool) (c1 c2 c3 c4 : HealthComponent)
    → IsWithin c1
    → IsWithin c2
    → IsWithin c3
    → IsWithin c4
    → pos_part c2.max
        + pos_part c3.max
        + (if savings then pos_part c1.max else 0)
        + (if stability then pos_part c4.max else 0)
      ≡ 100
    → IsBounded (when savings c1 ++ (c2 ∷ c3 ∷ when stability c4))
present-IsBounded true true c1 c2 c3 c4 w1 w2 w3 w4 h =
    ((w1, (w2, (w3, (w4, tt)))), omega (arith, h))
present-IsBounded true false c1 c2 c3 c4 w1 w2 w3 w4 h = ((w1, (w2, (w3, tt))), omega (arith, h))
present-IsBounded false true c1 c2 c3 c4 w1 w2 w3 w4 h = ((w2, (w3, (w4, tt))), omega (arith, h))
present-IsBounded false false c1 c2 c3 c4 w1 w2 w3 w4 h = ((w2, (w3, tt)), omega (arith, h))

score_sum_lem : (cs : List HealthComponent) → All IsWithin cs → score_sum cs ≤ max_sum cs
score_sum_lem [] h = omega arith
score_sum_lem (c ∷ cs) ((e, k, w), h) = omega (arith, w, score_sum_lem cs h)

of_pos_part : (z : ℤ) → neg_part z ≡ 0 → z ≡ pos (pos_part z)
of_pos_part z h = ground arith

-- The int32 sum is the sum.
sum_scores_lem :
    (total : ℕ) (cs : List HealthComponent)
    → All IsWithin cs
    → total + max_sum cs ≤ 100
    → sum_scores (pos total) cs ≡ pos (total + score_sum cs)
unfolding sum_scores
sum_scores_lem total [] h k = ap pos (omega arith)
sum_scores_lem total (c ∷ cs) ((e, g, w), h) k =
    let n = pos_part c.score in
    let p = of_pos_part c.score e in
    let q = add_pos total n in
    let r = wrap32_pos (total + n) (ground arith) in
    let assoc : total + (n + score_sum cs) ≡ total + n + score_sum cs = omega arith in
    rw (assoc, p, q, r) (sum_scores_lem (total + n) cs h (omega (arith, w, k)))

present_components-IsBounded :
    (f : Float64) (p : Parts f) → Maxima f p.weights → IsBounded (present_components f p)
unfolding present_components component
present_components-IsBounded f p (a, b, c, d, h) =
    let w = p.weights in
    present-IsBounded (not w.savings_dropped) (not w.stability_dropped)
      (component "savings_achievement" p.savings.0 w.max_savings p.savings.1)
      (component "budget_adherence" p.budget.0 w.max_budget p.budget.1)
      (component "allocation_balance" p.alloc.0 w.max_alloc p.alloc.1)
      (component "spending_stability" p.stability.0 w.max_stability p.stability.1)
      (component-IsWithin "savings_achievement" p.savings.0 w.max_savings p.savings.1 a)
      (component-IsWithin "budget_adherence" p.budget.0 w.max_budget p.budget.1 b)
      (component-IsWithin "allocation_balance" p.alloc.0 w.max_alloc p.alloc.1 c)
      (component-IsWithin "spending_stability" p.stability.0 w.max_stability p.stability.1 d) h

health_components-IsBounded :
    (f : Float64)
    → IsExact f
    → (period : BudgetPeriod) (spent : Spent) (desires_window : List ℤ) (symbol : String)
    → IsBounded (health_components f period spent desires_window symbol)
unfolding health_components health_parts
health_components-IsBounded f exact period spent desires_window symbol =
    present_components-IsBounded f (health_parts f period spent desires_window symbol) (
      resolve_weights-Maxima f exact
        (not (eqb_ℤ (target period.budget_amount period.savings_percent) (pos 0)))
        (leb stability_min_months (length desires_window)))

clamp_total_lem : (n : ℕ) → n ≤ 100 → clamp_total (pos (0 + n)) ≡ pos n
unfolding clamp_total
clamp_total_lem n h = ground arith

-- Every component present scores from 0 to its maximum, whatever the expenses, the budget and the
-- months before; the maxima add up to exactly 100 whichever components are present; and the total,
-- which is the exact sum of the scores, is from 0 to 100 and is not changed by the last clamp. This
-- needs of the floating-point operations only that they are exact on the weights.
pub compute_health_score-IsBounded :
    (f : Float64)
    → IsExact f
    → (period : BudgetPeriod) (expenses : List ExpenseData) (desires_window : List ℤ)
      (year month : ℤ) (now : YearMonth) (currency : String)
    → let r = compute_health_score f period expenses desires_window year month now currency in
      IsBounded r.components
      × (r.total ≡ pos (score_sum r.components))
      × (score_sum r.components ≤ 100)
unfolding compute_health_score
compute_health_score-IsBounded f exact period expenses desires_window year month now currency =
    let (within, hundred) =
      health_components-IsBounded f exact period (spent_on expenses) desires_window
        (currency_symbol currency) in
    let cs =
      health_components f period (spent_on expenses) desires_window (currency_symbol currency) in
    let low = score_sum_lem cs within in
    let sum = sum_scores_lem 0 cs within (omega (arith, hundred)) in
    (
      (within, hundred),
      ap clamp_total sum ∙ clamp_total_lem (score_sum cs) (omega (arith, low, hundred)),
      omega (arith, low, hundred),
    )
