-- ===== src/Finance/ProRata/Create/Whole.antt =====
-- What `CreateProRataExpense` of services/finance/internal/service/prorata.go has written when it
-- succeeds.
use gofin.Prelude.{
  length, All, ℕ, suc, ◌+◌, ◌-◌, ◌^◌, ◌≤◌, ◌<◌, String, ◌≡◌, refl, sym, ap, subst, List, [], ◌∷◌,
  ◌++◌, map, arith,
}
use gofin.Finance.ProRata.Create.Rows.{
  insert_schedules-InsertedIn, InsertedIn, target_of, amounts_of,
}
use gofin.Finance.ProRata.Create.{
  insert_schedules, prepare, YearMonth, first_input, calculate_installments,
  create_pro_rata_expense, respond_with, pos, Group, ProRataResponse, CreateProRataRequest,
  created_expense, write_installments,
}
use gofin.Finance.Months.{YearMonth}
use gofin.Finance.Installments.Sum.{installments_conserve, sum_ℤ}
use gofin.Finance.ProRata.{
  record_installment, CreateProRataInstallmentInput, ℤ, CreatedExpenseData, Result, Store,
  Environment,
}
use gofin.Finance.Model.{pending, BudgetPeriod, ProRataSchedule}
use gofin.Finance.Installments.{calculate_installments}
use gofin.Finance.Months.Calendar.{months_from, month_at, last_ordinal}
use gofin.Prelude.Int.{ℤ, pos, ◌+ℤ◌}
use gofin.Api.{err, ok, Result}

-- The parts that a success has split an amount of t over n months into, from number o on.
abbrev pub Split : ℕ → ℕ → ℕ → Store → Store → ProRataResponse → Type 0
Split t n o store store' r =
    (store'.schedules ≡ store.schedules ++ r.schedules)
    × (length r.schedules + 1 ≡ n)
    × (r.expense.installment_amount +ℤ sum_ℤ (amounts_of r.schedules) ≡ pos t)
    × (map target_of r.schedules ≡ months_from (o + 1) (n - 1))
    × All (λ s. (s.status ≡ pending) × (s.pro_rata_group ≡ r.expense.pro_rata_group)) r.schedules

abbrev SplitIn : ℕ → ℕ → ℕ → Store → Store × Result ProRataResponse → Type 0
SplitIn t n o store (store', ok r) = Split t n o store store' r
SplitIn t n o store (store', err e) = Unit

length-amounts : (rows : List ProRataSchedule) → length (amounts_of rows) ≡ length rows
length-amounts [] = refl
length-amounts (s ∷ rows) = omega (arith, length-amounts rows)

answered :
    (g : Group) (req : CreateProRataRequest) (created : CreatedExpenseData) (t n o : ℕ) (first : ℤ)
    (later : List ℤ) (store : Store) (result : Store × Result (List ProRataSchedule))
    → suc (length later) ≡ n
    → first +ℤ sum_ℤ later ≡ pos t
    → InsertedIn g o later store result
    → SplitIn t n o store (respond_with (created_expense g req first created) result)
unfolding created_expense
answered g req created t n o first later store (store', err e) el es h = tt
answered g req created t n o first later store (store', ok rows) el es (a, b, c, d) = (
  a,
  let q : length (amounts_of rows) ≡ length later = ap length b in
      omega (arith, q, length-amounts rows),
  rw b es,
  let q : n - 1 ≡ length later = omega arith in rw q c,
  d,
)

whole :
    (env : Environment) (g : Group) (req : CreateProRataRequest) (period : BudgetPeriod) (t n o : ℕ)
    (amounts : List ℤ) (store : Store)
    → length amounts ≡ n
    → sum_ℤ amounts ≡ pos t
    → o + n + 12 < last_ordinal
    → req.period_year ≡ (month_at o).year
    → req.period_month ≡ (month_at o).month
    → SplitIn t n o store (write_installments env g req period amounts store)
unfolding write_installments sum_ℤ
whole env g req period t n o [] store el es room ey em = tt
whole env g req period t n o (first ∷ later) store el es room ey em =
    subst (λ s. SplitIn t n o store (next s (env.create_installment input))) (sym same)
      (go (env.create_installment input))
  where
    input : CreateProRataInstallmentInput
    input = first_input g req period first

    logged : Store
    logged = record_installment input store

    next : YearMonth → Result CreatedExpenseData → Store × Result ProRataResponse
    next start answer = elim answer [
      | err e ↦ (store, err e)
      | ok created ↦
          respond_with (created_expense g req first created)
            (insert_schedules env g req start (pos 2) later logged)
    ]

    same : record { year = req.period_year; month = req.period_month } ≡ month_at o
    same = rw (ey, em) refl

    go : (answer : Result CreatedExpenseData) → SplitIn t n o store (next (month_at o) answer)
    go (err e) = tt
    go (ok created) =
        answered g req created t n o first later logged _ el es
          (insert_schedules-InsertedIn env g req o (pos 2) later logged (omega arith))

-- A success over n months, one or more, of an amount t that is an int64, asked for a period with
-- number o and room for the months in an int32 year, has inserted n - 1 pending rows of the new group
-- behind those of the table. Their months follow the period's one by one, and with the first
-- installment they add up to exactly the amount.
pub create_pro_rata_expense-Split :
    (env : Environment) (store store' : Store) (user_id pro_rata_group now : String)
    (req : CreateProRataRequest) (r : ProRataResponse) (t n o : ℕ)
    → req.total_amount ≡ pos t
    → req.spread_over_months ≡ pos n
    → t < 2 ^ 63
    → 1 ≤ n
    → o + n + 12 < last_ordinal
    → req.period_year ≡ (month_at o).year
    → req.period_month ≡ (month_at o).month
    → create_pro_rata_expense env store user_id pro_rata_group now req ≡ (store', ok r)
    → Split t n o store store' r
create_pro_rata_expense-Split env store store' user_id pro_rata_group now req r t n o et en ht hn
      room ey em e =
    subst (λ x. SplitIn t n o store x) e split
  where
    all : List ℤ
    all = calculate_installments req.total_amount req.spread_over_months

    facts : (length all ≡ n) × (sum_ℤ all ≡ pos t)
    facts = rw (et, en) (let (a, b, _) = installments_conserve t n ht hn in (a, b))

    next : Result (BudgetPeriod × Group) → Store × Result ProRataResponse
    next answer = elim answer [
      | err x ↦ (store, err x)
      | ok (period, g) ↦ write_installments env g req period all store
    ]

    go : (answer : Result (BudgetPeriod × Group)) → SplitIn t n o store (next answer)
    go (err x) = tt
    go (ok (period, g)) = whole env g req period t n o all store facts.0 facts.1 room ey em

    split : SplitIn t n o store (create_pro_rata_expense env store user_id pro_rata_group now req)
    split = unfold create_pro_rata_expense in go (prepare env store user_id pro_rata_group now req)
