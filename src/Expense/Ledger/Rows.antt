-- ===== src/Expense/Ledger/Rows.antt =====
-- The rows that the statements of services/expense/internal/repository read and write.
use gofin.Prelude.{
  String, ◌≡◌, refl, ◌⊎◌, inl, inr, false, ◌&&◌, some, List, [], ◌∷◌, Memᴰ, arith, eq_iff, str_eq,
}
use gofin.Prelude.Changes.{
  found-Memᴰ, not_both_named, not_named, Pointwise-map, both_named, Pointwise,
}
use gofin.Expense.Ledger.{corrected, mark_corrected, find_expense, is_past, deactivate}
use gofin.Prelude.Int.{eq_of_parts}
use gofin.Expense.Model.{Expense, Clock}

-- The row that a write names: it is in the ledger with the id, the user's, active, and of the clock's
-- month.
abbrev pub MayEdit : Clock → List Expense → String → String → Expense → Type 0
MayEdit clock ledger user_id id e =
    Memᴰ e ledger
    × (e.id ≡ id)
    × (e.user_id ≡ user_id)
    × (e.status ≡ "active")
    × (e.period_year ≡ clock.year)
    × (e.period_month ≡ clock.month)

-- A row with the id has become corrected, and every other one is as it was.
abbrev pub Marked : String → Expense → Expense → Type 0
Marked id e e' =
    ((e.id ≡ id) × (e' ≡ record e { status = "corrected" })) ⊎ ((¬ (e.id ≡ id)) × (e' ≡ e))

-- The same, for the rows of the user.
abbrev pub Deactivated : String → String → Expense → Expense → Type 0
Deactivated id user_id e e' =
    ((e.id ≡ id) × (e.user_id ≡ user_id) × (e' ≡ record e { status = "corrected" }))
    ⊎ ((¬ ((e.id ≡ id) × (e.user_id ≡ user_id))) × (e' ≡ e))

pub find_expense_lem :
    (id user_id : String) (ledger : List Expense) (e : Expense)
    → find_expense id user_id ledger ≡ some e
    → Memᴰ e ledger × ((e.id ≡ id) × (e.user_id ≡ user_id))
unfolding find_expense
find_expense_lem id user_id [] e h = cc
find_expense_lem id user_id (x ∷ xs) e h =
    found-Memᴰ (λ y. (y.id ≡ id) × (y.user_id ≡ user_id))
      (str_eq x.id id && str_eq x.user_id user_id) x e xs (find_expense id user_id xs)
      (both_named x.id id x.user_id user_id) (find_expense_lem id user_id xs e) h

pub is_past_lem :
    (clock : Clock) (e : Expense)
    → is_past clock e ≡ false
    → (e.period_year ≡ clock.year) × (e.period_month ≡ clock.month)
unfolding is_past
is_past_lem clock e h = (
  eq_of_parts e.period_year clock.year (ground arith),
  eq_of_parts e.period_month clock.month (ground arith),
)

pub mark_corrected-Pointwise :
    (id : String) (ledger : List Expense) → Pointwise (Marked id) ledger (mark_corrected id ledger)
unfolding mark_corrected
mark_corrected-Pointwise id ledger =
    Pointwise-map (Marked id) (λ e. str_eq e.id id) (λ e. record e { status = corrected })
      (λ e c. inl ((eq_iff e.id id).0 c, refl)) (λ e c. inr (not_named e.id id c, refl)) ledger

pub deactivate-Pointwise :
    (id user_id : String) (ledger : List Expense)
    → Pointwise (Deactivated id user_id) ledger (deactivate id user_id ledger)
unfolding deactivate
deactivate-Pointwise id user_id ledger =
    Pointwise-map (Deactivated id user_id) (λ e. str_eq e.id id && str_eq e.user_id user_id)
      (λ e. record e { status = corrected })
      (λ e c. let (i, u) = both_named e.id id e.user_id user_id c in inl (i, u, refl))
      (λ e c. inr (not_both_named e.id id e.user_id user_id c, refl)) ledger
