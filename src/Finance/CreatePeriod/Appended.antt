-- ===== src/Finance/CreatePeriod/Appended.antt =====
-- The periods that the creation of a period adds (services/finance/internal/service/prorata.go).
use gofin.Prelude.{
  if◌then◌else◌, Bool-cases, length, String, ◌≡◌, refl, sym, ap, ◌∙◌, inl, inr, Option, none, some,
  List, [], ◌∷◌, ◌++◌, arith, str_eq,
}
use gofin.Finance.ProRata.{
  set_applied, record_installment, classify_pro_rata_expense_error, trusted_context, has_rate,
  set_failed, CreatedExpenseData, update_row, installment_input, snapshot_currency_missing,
  CreateProRataInstallmentInput, get_pending_pro_rata, Store, TrustedPeriodContext, Environment,
  mark_pro_rata_failed, settle_answer, apply_one_pro_rata_schedule, apply_all,
  apply_pending_pro_rata,
}
use gofin.Finance.CreatePeriod.{
  rows_or_none, month_label, add_month, AutoCreated, normalize_currency_code, Result, auto_period,
  ProRataSchedule, Store, create_period, YearMonth, BudgetPeriod, Environment, create_missed,
}
use mathlib.Core.List.{append_assoc, append-nil}
use gofin.Api.{err, ok, Error, Result}
use gofin.Finance.Model.{CapturedRateSnapshot, ProRataSchedule, BudgetPeriod, DefaultSettings}
use gofin.Currency.{normalize_currency_code}
use gofin.Finance.Months.{YearMonth}

-- The application of due rows does not touch the table of periods.
mark_failed-periods :
    (env : Environment) (s : ProRataSchedule) (reason : String) (store : Store)
    → (mark_pro_rata_failed env s reason store).periods ≡ store.periods
unfolding mark_pro_rata_failed
mark_failed-periods env s reason store = go (env.mark_failed s.id reason)
  where
    go :
        (answer : Option Error)
        → (elim answer as (λ a. Store) [
          | some e ↦ store
          | none ↦ record store { schedules = update_row s.id (set_failed reason) store.schedules }
        ]).periods
          ≡ store.periods
    go none = refl
    go (some e) = refl

settle_answer-periods :
    (env : Environment) (s : ProRataSchedule) (input : CreateProRataInstallmentInput)
    (answer : Result CreatedExpenseData) (store : Store)
    → (settle_answer env s input answer store).0.periods ≡ store.periods
unfolding settle_answer
settle_answer-periods env s input (err x) store =
    elim (Bool-cases (str_eq (classify_pro_rata_expense_error x) "")) [
      | inl e ↦ rw e refl
      | inr e ↦ rw e (mark_failed-periods env s (classify_pro_rata_expense_error x) store)
    ]
settle_answer-periods env s input (ok created) store = go (env.mark_applied s.id)
  where
    written : Store
    written = record_installment input store

    go :
        (answer : Option Error)
        → (elim answer as (λ a. Store × Option ProRataSchedule) [
          | some e ↦ (written, none)
          | none ↦ (
            record written { schedules = update_row s.id set_applied written.schedules },
            some (set_applied s),
          )
        ]).0.periods
          ≡ store.periods
    go none = refl
    go (some e) = refl

step-periods :
    (env : Environment) (user_id target : String) (ctx : TrustedPeriodContext) (s : ProRataSchedule)
    (store : Store)
    → (apply_one_pro_rata_schedule env user_id target ctx s store).0.periods ≡ store.periods
unfolding apply_one_pro_rata_schedule
step-periods env user_id target ctx s store = go s.captured_rate_snapshot
  where
    missing : Store × Option ProRataSchedule
    missing = (mark_pro_rata_failed env s snapshot_currency_missing store, none)

    input : CreateProRataInstallmentInput
    input = installment_input user_id s ctx

    result : Option CapturedRateSnapshot → Store × Option ProRataSchedule
    result snapshot = elim snapshot as (λ x. Store × Option ProRataSchedule) [
      | none ↦ missing
      | some snap ↦
          if has_rate target snap.rates_by_currency
          then settle_answer env s input (env.create_installment input) store
          else missing
    ]

    go : (snapshot : Option CapturedRateSnapshot) → (result snapshot).0.periods ≡ store.periods
    go none = mark_failed-periods env s snapshot_currency_missing store
    go (some snap) = elim (Bool-cases (has_rate target snap.rates_by_currency)) [
      | inl e ↦ rw e (settle_answer-periods env s input (env.create_installment input) store)
      | inr e ↦ rw e (mark_failed-periods env s snapshot_currency_missing store)
    ]

apply_all-periods :
    (env : Environment) (user_id target : String) (ctx : TrustedPeriodContext)
    (ds : List ProRataSchedule) (store : Store)
    → (apply_all env user_id target ctx ds store).0.periods ≡ store.periods
unfolding apply_all
apply_all-periods env user_id target ctx [] store = refl
apply_all-periods env user_id target ctx (d ∷ ds) store =
    apply_all-periods env user_id target ctx ds
      (apply_one_pro_rata_schedule env user_id target ctx d store).0
    ∙ step-periods env user_id target ctx d store

pub apply_pending-periods :
    (env : Environment) (user_id : String) (period : BudgetPeriod) (store : Store)
    → (apply_pending_pro_rata env user_id period store).0.periods ≡ store.periods
unfolding apply_pending_pro_rata
apply_pending-periods env user_id period store = go (env.read_pending period.year period.month)
  where
    due : List ProRataSchedule
    due = get_pending_pro_rata user_id period.year period.month store.schedules

    target : String
    target = normalize_currency_code period.reporting_currency_code

    result : Option Error → Store × Result (List ProRataSchedule)
    result answer = elim answer [
      | some e ↦ (store, err e)
      | none ↦
          let (store1, rows) = apply_all env user_id target (trusted_context period) due store in
          (store1, ok rows)
    ]

    go : (answer : Option Error) → (result answer).0.periods ≡ store.periods
    go (some e) = refl
    go none = apply_all-periods env user_id target (trusted_context period) due store

-- The rows are those of an automatic creation for the months, ids aside.
abbrev pub IsAuto : String → DefaultSettings → BudgetPeriod → YearMonth → Type 0
IsAuto user_id defaults p ym = p ≡ record (auto_period user_id defaults ym) { id = p.id }

abbrev pub AreAuto : String → DefaultSettings → List BudgetPeriod → List YearMonth → Type 0
AreAuto user_id defaults [] [] = Unit
AreAuto user_id defaults (p ∷ ps) (ym ∷ yms) =
    IsAuto user_id defaults p ym × AreAuto user_id defaults ps yms
AreAuto user_id defaults ps yms = ⊥

abbrev pub AutoIn :
    String → DefaultSettings → List YearMonth → Store → Store × Result AutoCreated → Type 0
AutoIn user_id defaults yms store (store', ok c) =
    (ps : List BudgetPeriod) × (store'.periods ≡ store.periods ++ ps)
    × AreAuto user_id defaults ps yms
    × (length c.months ≡ length yms)
AutoIn user_id defaults yms store (store', err e) = Unit

add_month-AutoIn :
    (user_id : String) (defaults : DefaultSettings) (ym : YearMonth) (yms : List YearMonth)
    (p : BudgetPeriod) (store store1 : Store) (label : String) (rows : List ProRataSchedule)
    (result : Store × Result AutoCreated)
    → IsAuto user_id defaults p ym
    → store1.periods ≡ store.periods ++ (p ∷ [])
    → AutoIn user_id defaults yms store1 result
    → AutoIn user_id defaults (ym ∷ yms) store (add_month label rows result)
add_month-AutoIn user_id defaults ym yms p store store1 label rows (store', err e) a q h = tt
add_month-AutoIn user_id defaults ym yms p store store1 label rows (store', ok c) a q
      (ps, b, autos, n) =
    (p ∷ ps, b ∙ ap (λ l. l ++ ps) q ∙ append_assoc store.periods _ _, (a, autos), omega (arith, n))

pub create_missed-AutoIn :
    (env : Environment) (user_id : String) (defaults : DefaultSettings) (yms : List YearMonth)
    (store : Store)
    → AutoIn user_id defaults yms store (create_missed env user_id defaults yms store)
unfolding create_missed create_period
create_missed-AutoIn env user_id defaults [] store = ([], sym (append-nil store.periods), tt, refl)
create_missed-AutoIn env user_id defaults (ym ∷ yms) store =
    go (λ st. create_missed-AutoIn env user_id defaults yms st) (env.insert_period auto)
  where
    auto : BudgetPeriod
    auto = auto_period user_id defaults ym

    added : String → Store
    added id = record store { periods = store.periods ++ ((record auto { id = id }) ∷ []) }

    next : Store × Result BudgetPeriod → Store × Result AutoCreated
    next (store1, created) = elim created [
      | err e ↦ (store1, err e)
      | ok period ↦
          let (store2, rows) = apply_pending_pro_rata env user_id period store1 in
          add_month (month_label ym.year ym.month) (rows_or_none rows)
            (create_missed env user_id defaults yms store2)
    ]

    go :
        ((st : Store) → AutoIn user_id defaults yms st (create_missed env user_id defaults yms st))
        → (answer : Result String)
        → AutoIn user_id defaults (ym ∷ yms) store (
            next (elim answer [
              | err e ↦ (store, err e)
              | ok id ↦ (added id, ok (record auto { id = id }))
            ]))
    go ih (err e) = tt
    go ih (ok id) =
        let p = record auto { id = id } in
        let applied = apply_pending_pro_rata env user_id p (added id) in
        add_month-AutoIn user_id defaults ym yms p store applied.0 _ _ _ refl
          (apply_pending-periods env user_id p (added id)) (ih applied.0)
