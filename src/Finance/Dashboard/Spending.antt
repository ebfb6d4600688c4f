-- ===== src/Finance/Dashboard/Spending.antt =====
-- What the loops of services/finance/internal/service/dashboard.go add up.
use gofin.Prelude.{
  if◌then◌else◌, String, ◌≡◌, refl, sym, ap, ◌∙◌, Bool, true, false, List, [], ◌∷◌, arith, str_eq,
}
use gofin.Prelude.Int.{
  ◌-ℤ◌, wrap64_id, IsInt64, wrap64-IsInt64, int_laws, eq_of_parts, wrap64, ◌+ℤ◌, pos, ℤ,
}
use gofin.Finance.Dashboard.{
  allocate_categories, Date, BudgetPeriod, Float, build_category_summary, no_spending,
  compute_period_summary, Spent, add_if, add_expense, wrap64, pos, add_expenses,
}
use gofin.Finance.Model.{BudgetPeriod, ExpenseData}
use gofin.Prelude.Wrap.{wrap64-add}

-- The exact sums, of all amounts and of those of a type.
unfoldable pub spent_in_all : List ExpenseData → ℤ
spent_in_all [] = pos 0
spent_in_all (e ∷ es) = e.reporting_amount +ℤ spent_in_all es

unfoldable pub spent_on : String → List ExpenseData → ℤ
spent_on t [] = pos 0
spent_on t (e ∷ es) =
    let rest = spent_on t es in if str_eq e.expense_type t then e.reporting_amount +ℤ rest else rest

+ℤ_assoc : (a b c : ℤ) → (a +ℤ b) +ℤ c ≡ a +ℤ (b +ℤ c)
+ℤ_assoc a b c = eq_of_parts _ _ (omega int_laws)

wrapped_step :
    (acc amount rest : ℤ)
    → wrap64 (wrap64 (acc +ℤ amount) +ℤ rest) ≡ wrap64 (acc +ℤ (amount +ℤ rest))
wrapped_step acc amount rest =
    wrap64-add (acc +ℤ amount) rest ∙ ap wrap64 (+ℤ_assoc acc amount rest)

wrapped_if :
    (acc amount rest : ℤ) (b : Bool)
    → wrap64 (add_if b acc amount +ℤ rest) ≡ wrap64 (acc +ℤ (if b then amount +ℤ rest else rest))
wrapped_if acc amount rest true = wrapped_step acc amount rest
wrapped_if acc amount rest false = refl

-- What the loop adds to each of the four amounts it starts from is, up to the wrap-around of int64,
-- the exact sum of all the expenses and of those of each type.
pub add_expenses_lem :
    (es : List ExpenseData) (s : Spent)
    → let t = add_expenses es s in
      (wrap64 t.total ≡ wrap64 (s.total +ℤ spent_in_all es))
      × (wrap64 t.essentials ≡ wrap64 (s.essentials +ℤ spent_on "essentials" es))
      × (wrap64 t.desires ≡ wrap64 (s.desires +ℤ spent_on "desires" es))
      × (wrap64 t.savings ≡ wrap64 (s.savings +ℤ spent_on "savings" es))
unfolding add_expenses add_expense spent_in_all spent_on
add_expenses_lem [] s =
    (plus_zero s.total, plus_zero s.essentials, plus_zero s.desires, plus_zero s.savings)
  where
    plus_zero : (z : ℤ) → wrap64 z ≡ wrap64 (z +ℤ pos 0)
    plus_zero z = ap wrap64 (eq_of_parts _ _ (omega int_laws))
add_expenses_lem (e ∷ es) s =
    let (a, b, c, d) = add_expenses_lem es (add_expense s e) in
    let x = e.reporting_amount in
    (
      a ∙ wrapped_step s.total x (spent_in_all es),
      b ∙ wrapped_if s.essentials x (spent_on "essentials" es) (str_eq e.expense_type "essentials"),
      c ∙ wrapped_if s.desires x (spent_on "desires" es) (str_eq e.expense_type "desires"),
      d ∙ wrapped_if s.savings x (spent_on "savings" es) (str_eq e.expense_type "savings"),
    )

abbrev AreInt64 : Spent → Type 0
AreInt64 s = IsInt64 s.total × IsInt64 s.essentials × IsInt64 s.desires × IsInt64 s.savings

add_if-IsInt64 : (b : Bool) (acc amount : ℤ) → IsInt64 acc → IsInt64 (add_if b acc amount)
add_if-IsInt64 true acc amount h = wrap64-IsInt64 (acc +ℤ amount)
add_if-IsInt64 false acc amount h = h

add_expenses-AreInt64 :
    (es : List ExpenseData) (s : Spent) → AreInt64 s → AreInt64 (add_expenses es s)
unfolding add_expenses add_expense
add_expenses-AreInt64 [] s h = h
add_expenses-AreInt64 (e ∷ es) s (a, b, c, d) =
    let x = e.reporting_amount in
    add_expenses-AreInt64 es (add_expense s e) (
      wrap64-IsInt64 (s.total +ℤ x),
      add_if-IsInt64 (str_eq e.expense_type "essentials") s.essentials x b,
      add_if-IsInt64 (str_eq e.expense_type "desires") s.desires x c,
      add_if-IsInt64 (str_eq e.expense_type "savings") s.savings x d,
    )

-- From nothing, the loop gives the exact sums as an int64 holds them.
spent_from_nothing :
    (es : List ExpenseData)
    → let t = add_expenses es no_spending in
      (t.total ≡ wrap64 (spent_in_all es))
      × (t.essentials ≡ wrap64 (spent_on "essentials" es))
      × (t.desires ≡ wrap64 (spent_on "desires" es))
      × (t.savings ≡ wrap64 (spent_on "savings" es))
spent_from_nothing es =
    let (a, b, c, d) = add_expenses_lem es no_spending in
    let (p, q, u, v) =
      add_expenses-AreInt64 es no_spending (zero_fits, zero_fits, zero_fits, zero_fits) in
    (
      sym (wrap64_id _ p) ∙ a ∙ from_zero (spent_in_all es),
      sym (wrap64_id _ q) ∙ b ∙ from_zero (spent_on "essentials" es),
      sym (wrap64_id _ u) ∙ c ∙ from_zero (spent_on "desires" es),
      sym (wrap64_id _ v) ∙ d ∙ from_zero (spent_on "savings" es),
    )
  where
    zero_fits : IsInt64 (pos 0)
    zero_fits = (omega arith, omega arith)

    from_zero : (z : ℤ) → wrap64 (pos 0 +ℤ z) ≡ wrap64 z
    from_zero z = ap wrap64 (eq_of_parts _ _ (omega int_laws))

-- The summary of a period, whatever the period, the expenses, the clock and the floating-point
-- operations: the amounts spent are the exact sums of all expenses and of each type, as an int64 holds
-- them; what remains is the budget less the total spent, as an int64 holds it; and the three amounts
-- allocated are those of `allocateCategories` for the period's budget and percentages.
pub compute_period_summary_lem :
    (fl : Float) (period : BudgetPeriod) (es : List ExpenseData) (year month : ℤ) (now : Date)
    → let r = compute_period_summary fl period es year month now in
      let parts =
        allocate_categories period.budget_amount period.essentials_percent period.desires_percent
          period.savings_percent in
      (r.total_spent ≡ wrap64 (spent_in_all es))
      × (r.essentials.spent ≡ wrap64 (spent_on "essentials" es))
      × (r.desires.spent ≡ wrap64 (spent_on "desires" es))
      × (r.savings.spent ≡ wrap64 (spent_on "savings" es))
      × (r.remaining ≡ wrap64 (period.budget_amount -ℤ wrap64 (spent_in_all es)))
      × (r.essentials.allocated ≡ parts.essentials)
      × (r.desires.allocated ≡ parts.desires)
      × (r.savings.allocated ≡ parts.savings)
unfolding compute_period_summary build_category_summary
compute_period_summary_lem fl period es year month now =
    let (t, te, td, ts) = spent_from_nothing es in (t, te, td, ts, rw t refl, refl, refl, refl)
