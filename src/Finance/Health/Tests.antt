-- ===== src/Finance/Health/Tests.antt =====
-- The health score on a concrete month.
use gofin.Exec.{◌>>=◌, gets, lift, pure, attempt}
use gofin.Prelude.{
  ltb, leb, ℕ, ◌+◌, ◌-◌, ◌*◌, ◌/◌, ◌≤◌, String, ◌≡◌, refl, none, List, [], ◌∷◌, arith,
}
use gofin.Finance.Health.Frozen.{resolve_health_score_frozen}
use gofin.Finance.Health.Service.{
  upsert_health_score, sum_desires, after_target, is_closed_by, desires_of, list_periods,
  build_desires_window, live_from, compute_live, recompute, find_score, run, get_health_score_row,
  resolve_health_score, HealthPeers,
}
use gofin.Api.{ok}
use gofin.Finance.Health.Score.{is_provisional, HealthScore, compute_health_score}
use gofin.Prelude.Int.{quot, ◌*ℤ◌, ◌-ℤ◌, wrap64, pos, pos_part}
use gofin.Finance.Health.{◌-ℤ◌, wrap64, show_ℤ, eff_weight, whole, pos, Float64}
use gofin.Prelude.Format.{digit, digits, show_padded, show_ℤ}
use gofin.Finance.Health.Bounds.{compute_health_score-IsBounded, score_sum, IsBounded, IsExact}
use gofin.Finance.Health.Money.{group_digits, with_thousands_separators, two_digits, format_money}
use gofin.Finance.Model.{ExpenseData, BudgetPeriod}

-- Fractions that are not negative, exactly: a difference stops at 0, and a root is left as it is.
abbrev fractions : Float64
fractions = record {
  F = ℕ × ℕ;
  of_int = λ z. (pos_part z, 1);
  constant = λ a b. (a, b);
  plus = λ x y. (x.0 * y.1 + y.0 * x.1, x.1 * y.1);
  minus = λ x y. (x.0 * y.1 - y.0 * x.1, x.1 * y.1);
  times = λ x y. (x.0 * y.0, x.1 * y.1);
  over = λ x y. (x.0 * y.1, x.1 * y.0);
  abs = λ x. x;
  sqrt = λ x. x;
  is_less = λ x y. ltb (x.0 * y.1) (y.0 * x.1);
  is_at_most = λ x y. leb (x.0 * y.1) (y.0 * x.1);
  rounded = λ x. pos ((2 * x.0 + x.1) / (2 * x.1));
}

fractions-IsExact : IsExact fractions
fractions-IsExact = record { sums = sums; shares = shares }
  where
    sums :
        (a b : ℕ)
        → a + b ≤ 100
        → fractions.plus (whole fractions a) (whole fractions b) ≡ whole fractions (a + b)
    sums a b h = let e : a * 1 + b * 1 ≡ a + b = omega arith in rw e refl

    shares :
        (base denom : ℕ)
        → 1 ≤ denom
        → denom ≤ 100
        → base ≤ 30
        → fractions.rounded (eff_weight fractions (whole fractions denom) base)
          ≡ pos ((200 * base + denom) / (2 * denom))
    shares base denom h1 h2 h3 =
        let e : 2 * (100 * base * 1) ≡ 200 * base = omega arith in
        let g : 1 * 1 * denom ≡ denom = omega arith in rw (e, g) refl

abbrev january : BudgetPeriod
january = record {
  id = "p1";
  user_id = "u1";
  year = pos 2026;
  month = pos 1;
  budget_amount = pos 100000;
  reporting_currency_code = "GBP";
  essentials_percent = pos 50;
  desires_percent = pos 30;
  savings_percent = pos 20;
}

abbrev bought : String → ℕ → ExpenseData
bought kind amount = record {
  id = "e1";
  reporting_amount = pos amount;
  reporting_currency_code = "GBP";
  expense_type = kind;
  tag_id = "t1";
  expense_date = "2026-01-02";
}

abbrev expenses : List ExpenseData
expenses = bought "essentials" 50000 ∷ bought "savings" 10000 ∷ []

money_run : format_money (pos 248012) "£" ≡ "£2,480.12"
unfolding format_money two_digits with_thousands_separators group_digits show_ℤ show_padded digits
    digit wrap64 ◌-ℤ◌ ◌*ℤ◌ quot
money_run = refl

compute_health_score-IsBounded_example :
    let r =
      compute_health_score fractions january expenses []
        (pos 2026)
        (pos 1)
        (record { year = pos 2026; month = pos 2 })
        "GBP" in
    IsBounded r.components
    × (r.total ≡ pos (score_sum r.components))
    × (score_sum r.components ≤ 100)
compute_health_score-IsBounded_example =
    compute_health_score-IsBounded fractions fractions-IsExact january expenses [] (pos 2026)
      (pos 1) (record { year = pos 2026; month = pos 2 }) "GBP"

abbrev in_february : HealthPeers
in_february = record {
  statement = λ name. none;
  active_expenses = λ user_id year month. ok expenses;
  periods = january ∷ [];
  now = record { year = pos 2026; month = pos 2 };
}

-- In March, the expense service answers with nothing.
abbrev in_march : HealthPeers
in_march = record in_february {
  active_expenses = λ user_id year month. ok [];
  now = record { year = pos 2026; month = pos 3 };
}

abbrev score_of_january : HealthScore
score_of_january =
    compute_health_score fractions january expenses (pos 0 ∷ []) (pos 2026) (pos 1)
      (record { year = pos 2026; month = pos 2 }) "GBP"

resolve_health_score_frozen_example :
    resolve_health_score fractions in_march "u1" january
      (pos 2026)
      (pos 1)
      (resolve_health_score fractions in_february "u1" january (pos 2026) (pos 1) []).0
    ≡ (
      (resolve_health_score fractions in_february "u1" january (pos 2026) (pos 1) []).0,
      ok score_of_january,
    )
unfolding is_provisional resolve_health_score get_health_score_row run find_score gets ◌>>=◌
    recompute compute_live live_from build_desires_window list_periods desires_of is_closed_by
    after_target sum_desires lift pure upsert_health_score attempt
resolve_health_score_frozen_example =
    resolve_health_score_frozen fractions fractions in_february in_march "u1" january (pos 2026)
      (pos 1) [] refl refl refl refl refl
