-- ===== src/Finance/Periods/Rows.antt =====
-- The rows of the period table that `UpdatePeriod` reads and writes
-- (services/finance/internal/repository/postgres.go).
use gofin.Prelude.{
  String, ◌≡◌, refl, ◌⊎◌, inl, inr, false, ◌&&◌, some, List, [], ◌∷◌, Memᴰ, arith, str_eq,
}
use gofin.Prelude.Changes.{not_both_named, both_named, Pointwise-map, found-Memᴰ, Pointwise}
use gofin.Prelude.Int.{eq_of_parts}
use gofin.Finance.Months.{YearMonth}
use gofin.Finance.Periods.{
  set_budget, YearMonth, BudgetPeriod, UpdatePeriodRequest, update_periods, find_period_by_id,
  is_other_month,
}
use gofin.Finance.Model.{BudgetPeriod}

-- A row with the id and the user has the request's four fields, and its others as they were; every
-- other row is as it was.
abbrev pub Rebudgeted : String → String → UpdatePeriodRequest → BudgetPeriod → BudgetPeriod → Type 0
Rebudgeted id user_id req p p' =
    ((p.id ≡ id)
      × (p.user_id ≡ user_id)
      × (p' ≡ (record p {
        budget_amount = req.budget_amount;
        essentials_percent = req.essentials_percent;
        desires_percent = req.desires_percent;
        savings_percent = req.savings_percent;
      })))
    ⊎ ((¬ ((p.id ≡ id) × (p.user_id ≡ user_id))) × (p' ≡ p))

pub find_period_by_id_lem :
    (id user_id : String) (ps : List BudgetPeriod) (p : BudgetPeriod)
    → find_period_by_id id user_id ps ≡ some p
    → Memᴰ p ps × ((p.id ≡ id) × (p.user_id ≡ user_id))
unfolding find_period_by_id
find_period_by_id_lem id user_id [] p h = cc
find_period_by_id_lem id user_id (x ∷ xs) p h =
    found-Memᴰ (λ y. (y.id ≡ id) × (y.user_id ≡ user_id))
      (str_eq x.id id && str_eq x.user_id user_id) x p xs (find_period_by_id id user_id xs)
      (both_named x.id id x.user_id user_id) (find_period_by_id_lem id user_id xs p) h

pub is_other_month_lem :
    (now : YearMonth) (p : BudgetPeriod)
    → is_other_month now p ≡ false
    → (p.year ≡ now.year) × (p.month ≡ now.month)
unfolding is_other_month
is_other_month_lem now p h =
    (eq_of_parts p.year now.year (ground arith), eq_of_parts p.month now.month (ground arith))

pub update_periods-Pointwise :
    (id user_id : String) (req : UpdatePeriodRequest) (ps : List BudgetPeriod)
    → Pointwise (Rebudgeted id user_id req) ps (update_periods id user_id req ps)
unfolding update_periods set_budget
update_periods-Pointwise id user_id req ps =
    Pointwise-map (Rebudgeted id user_id req) (λ p. str_eq p.id id && str_eq p.user_id user_id)
      (λ p. set_budget req p)
      (λ p c. let (i, u) = both_named p.id id p.user_id user_id c in inl (i, u, refl))
      (λ p c. inr (not_both_named p.id id p.user_id user_id c, refl)) ps
