-- ===== src/Finance/Periods/Locked.antt =====
-- The lock on past months (`UpdatePeriod` and `GetPeriodContext` of
-- services/finance/internal/service/finance.go).
use gofin.Prelude.{
  if◌then◌else◌, String, ◌≡◌, refl, Bool, true, false, Option, none, some, List, [], Memᴰ, arith,
}
use gofin.Finance.Periods.Rows.{
  is_other_month_lem, Rebudgeted, find_period_by_id_lem, update_periods-Pointwise,
}
use gofin.Prelude.Changes.{Pointwise}
use gofin.Prelude.Int.{◌≤ℤ◌, pos, leb_ℤ, ℤ}
use gofin.Finance.Split.{validate_eds_split_iff, validate_eds_split, IsSplit}
use gofin.Finance.Periods.{
  validate_eds_split, validation_failed, period_locked, is_other_month, budget_not_found,
  find_period_by_id, pos, update_periods, Result, BudgetPeriod, leb_ℤ, UpdatePeriodRequest, check,
  Store, Environment, has_errors, update_period, write_period,
}
use gofin.Api.{Error, ok, err, Fields, Result}
use gofin.Validator.{has_errors_iff, check-eq-nil, check, has_errors}
use gofin.Finance.Model.{BudgetPeriod}
use gofin.Finance.ProRata.{Store, Environment}
use gofin.Finance.Months.{YearMonth}

-- What a write to the periods was allowed by: a row of the table with the id, of the user, of the
-- clock's year and month, a split that is accepted, and a budget that is not negative.
abbrev pub MayWrite : YearMonth → Store → String → String → UpdatePeriodRequest → Type 0
MayWrite now store user_id period_id req =
    (existing : BudgetPeriod) × Memᴰ existing store.periods
    × (existing.id ≡ period_id)
    × (existing.user_id ≡ user_id)
    × (existing.year ≡ now.year)
    × (existing.month ≡ now.month)
    × IsSplit req.essentials_percent req.desires_percent req.savings_percent
    × (pos 0 ≤ℤ req.budget_amount)

-- An error leaves the store alone; a success has written the rows and returns one of them.
abbrev pub Written :
    YearMonth → Store → String → String → UpdatePeriodRequest → Store × Result BudgetPeriod → Type 0
Written now store user_id period_id req (store', err e) = store' ≡ store
Written now store user_id period_id req (store', ok p) =
    (periods : List BudgetPeriod) × MayWrite now store user_id period_id req
    × Pointwise (Rebudgeted period_id user_id req) store.periods periods
    × (store' ≡ record store { periods = periods })
    × (Memᴰ p periods × ((p.id ≡ period_id) × (p.user_id ≡ user_id)))

write_period-Written :
    (env : Environment) (now : YearMonth) (store : Store) (user_id period_id : String)
    (req : UpdatePeriodRequest)
    → MayWrite now store user_id period_id req
    → Written now store user_id period_id req (write_period env store user_id period_id req)
unfolding write_period
write_period-Written env now store user_id period_id req may = go (env.query "UpdatePeriod")
  where
    rows : List BudgetPeriod
    rows = update_periods period_id user_id req store.periods

    found : Option BudgetPeriod → Store × Result BudgetPeriod
    found o = elim o [
      | none ↦ (store, err budget_not_found)
      | some updated ↦ (record store { periods = rows }, ok updated)
    ]

    after :
        (o : Option BudgetPeriod)
        → find_period_by_id period_id user_id rows ≡ o
        → Written now store user_id period_id req (found o)
    after none f = refl
    after (some p) f = (
      rows,
      may,
      update_periods-Pointwise period_id user_id req store.periods,
      refl,
      find_period_by_id_lem period_id user_id rows p f,
    )

    next : Option Error → Store × Result BudgetPeriod
    next q = elim q [
      | some e ↦ (store, err e)
      | none ↦ found (find_period_by_id period_id user_id rows)
    ]

    go : (q : Option Error) → Written now store user_id period_id req (next q)
    go (some e) = refl
    go none = after (find_period_by_id period_id user_id rows) refl

no_budget_error :
    (z : ℤ)
    → has_errors (check (leb_ℤ (pos 0) z) "budgetAmount" "must be non-negative" []) ≡ false
    → pos 0 ≤ℤ z
no_budget_error z h = let ok = ((check-eq-nil _ _ _ _).0 ((has_errors_iff _).0 h)).0 in ground arith

-- An error leaves the store alone. On success, a row of the period table had the id, was the user's
-- and of the clock's year and month, the new split is accepted, and the new budget is not negative;
-- the four fields of the rows with that id and user have the requested values, their other fields and
-- all other rows are as they were, and so are the other tables; and the answer is one of those rows.
pub update_period-Written :
    (env : Environment) (now : YearMonth) (store : Store) (user_id period_id : String)
    (req : UpdatePeriodRequest)
    → Written now store user_id period_id req (update_period env now store user_id period_id req)
unfolding update_period
update_period-Written env now store user_id period_id req =
    first (validate_eds_split req.essentials_percent req.desires_percent req.savings_percent) refl
  where
    W : Store × Result BudgetPeriod → Type 0
    W r = Written now store user_id period_id req r

    v : Fields
    v = check (leb_ℤ (pos 0) req.budget_amount) "budgetAmount" "must be non-negative" []

    Split : Type 0
    Split = IsSplit req.essentials_percent req.desires_percent req.savings_percent

    unlocked : BudgetPeriod → Bool → Store × Result BudgetPeriod
    unlocked p b =
        if b then (store, err period_locked) else write_period env store user_id period_id req

    fifth :
        (p : BudgetPeriod)
        → find_period_by_id period_id user_id store.periods ≡ some p
        → Split
        → pos 0 ≤ℤ req.budget_amount
        → (b : Bool) → is_other_month now p ≡ b
        → W (unlocked p b)
    fifth p f s n true e = refl
    fifth p f s n false e =
        let (m, (i, u)) = find_period_by_id_lem period_id user_id store.periods p f in
        let (y, k) = is_other_month_lem now p e in
        write_period-Written env now store user_id period_id req (p, m, i, u, y, k, s, n)

    found : Option BudgetPeriod → Store × Result BudgetPeriod
    found o = elim o [
      | none ↦ (store, err budget_not_found)
      | some existing ↦ unlocked existing (is_other_month now existing)
    ]

    fourth :
        (o : Option BudgetPeriod)
        → find_period_by_id period_id user_id store.periods ≡ o
        → Split
        → pos 0 ≤ℤ req.budget_amount
        → W (found o)
    fourth none f s n = refl
    fourth (some p) f s n = fifth p f s n (is_other_month now p) refl

    queried : Option Error → Store × Result BudgetPeriod
    queried q = elim q [
      | some e ↦ (store, err e)
      | none ↦ found (find_period_by_id period_id user_id store.periods)
    ]

    third : (q : Option Error) → Split → pos 0 ≤ℤ req.budget_amount → W (queried q)
    third (some e) s n = refl
    third none s n = fourth (find_period_by_id period_id user_id store.periods) refl s n

    checked : Bool → Store × Result BudgetPeriod
    checked b =
        if b then (store, err (validation_failed v)) else queried (env.query "GetPeriodByID")

    second : (b : Bool) → has_errors v ≡ b → Split → W (checked b)
    second true e s = refl
    second false e s = third (env.query "GetPeriodByID") s (no_budget_error req.budget_amount e)

    first :
        (c : Option Error)
        → validate_eds_split req.essentials_percent req.desires_percent req.savings_percent ≡ c
        → W (elim c [ some e ↦ (store, err e) | none ↦ checked (has_errors v) ])
    first (some e) h = refl
    first none h = second (has_errors v) refl (
        (validate_eds_split_iff req.essentials_percent req.desires_percent req.savings_percent).0 h)
