-- ===== src/Finance/ProRata/Ledger.antt =====
-- What the application of due rows writes through the Expense service
-- (services/finance/internal/service/prorata.go).
use gofin.Prelude.{
  if◌then◌else◌, Bool-cases, is_some, keep, String, ◌≡◌, refl, sym, ap, ◌∙◌, inl, inr, Bool, true,
  false, not, ◌&&◌, Option, none, some, List, [], ◌∷◌, ◌++◌, map, str_eq,
}
use gofin.Finance.ProRata.{
  has_rate, record_installment, classify_pro_rata_expense_error, append_some,
  snapshot_currency_missing, CreatedExpenseData, settle_answer, apply_one_pro_rata_schedule,
  apply_all, set_failed, update_row, installment_input, Store, CreateProRataInstallmentInput,
  set_applied, TrustedPeriodContext, Environment, mark_pro_rata_failed,
}
use mathlib.Core.List.{append_assoc, append-nil}
use gofin.Finance.Model.{CapturedRateSnapshot, ProRataSchedule}
use gofin.Finance.ProRata.Settle.{is_covered}
use gofin.Api.{Error, err, ok, Result}

abbrev is_ok {ℓ} : {A : Type ℓ} → Result A → Bool
is_ok (ok a) = true
is_ok (err e) = false

abbrev accepted_with : Environment → CreateProRataInstallmentInput → Bool → Bool
accepted_with env input true = is_ok (env.create_installment input)
accepted_with env input false = false

-- The row's snapshot covers the period's currency and the Expense service accepts the row's write.
unfoldable pub is_accepted :
    Environment → String → String → TrustedPeriodContext → ProRataSchedule → Bool
is_accepted env user_id target ctx s =
    accepted_with env (installment_input user_id s ctx) (is_covered target s.captured_rate_snapshot)

unfoldable pub is_marked : Environment → ProRataSchedule → Bool
is_marked env s = not (is_some (env.mark_applied s.id))

abbrev logged :
    Environment → Bool → CreateProRataInstallmentInput → List CreateProRataInstallmentInput
logged env b input = if b then input ∷ [] else []

abbrev returned : Bool → ProRataSchedule → Option ProRataSchedule
returned b s = if b then some (set_applied s) else none

mark_failed-ledger :
    (env : Environment) (s : ProRataSchedule) (reason : String) (store : Store)
    → (mark_pro_rata_failed env s reason store).ledger ≡ store.ledger ++ []
unfolding mark_pro_rata_failed
mark_failed-ledger env s reason store = go (env.mark_failed s.id reason)
  where
    go :
        (answer : Option Error)
        → (elim answer as (λ a. Store) [
          | some e ↦ store
          | none ↦ record store { schedules = update_row s.id (set_failed reason) store.schedules }
        ]).ledger
          ≡ store.ledger ++ []
    go none = sym (append-nil store.ledger)
    go (some e) = sym (append-nil store.ledger)

-- One answer: what is logged and what is returned.
answer-effects :
    (env : Environment) (s : ProRataSchedule) (input : CreateProRataInstallmentInput)
    (answer : Result CreatedExpenseData) (store : Store)
    → ((settle_answer env s input answer store).0.ledger
        ≡ store.ledger ++ logged env (is_ok answer) input)
      × ((settle_answer env s input answer store).1 ≡ returned (is_ok answer && is_marked env s) s)
unfolding settle_answer is_marked
answer-effects env s input (err x) store =
    elim (Bool-cases (str_eq (classify_pro_rata_expense_error x) "")) [
      | inl e ↦ rw e (sym (append-nil store.ledger), refl)
      | inr e ↦ rw e (mark_failed-ledger env s (classify_pro_rata_expense_error x) store, refl)
    ]
answer-effects env s input (ok created) store = go (env.mark_applied s.id)
  where
    written : Store
    written = record_installment input store

    result : Option Error → Store × Option ProRataSchedule
    result none = (
      record written { schedules = update_row s.id set_applied written.schedules },
      some (set_applied s),
    )
    result (some e) = (written, none)

    go :
        (answer : Option Error)
        → ((elim answer as (λ a. Store × Option ProRataSchedule) [
          | some e ↦ result (some e)
          | none ↦ result none
        ]).0.ledger
            ≡ store.ledger ++ (input ∷ []))
          × ((elim answer as (λ a. Store × Option ProRataSchedule) [
            | some e ↦ result (some e)
            | none ↦ result none
          ]).1
              ≡ returned (not (is_some answer)) s)
    go none = (refl, refl)
    go (some e) = (refl, refl)

step-effects :
    (env : Environment) (user_id target : String) (ctx : TrustedPeriodContext) (s : ProRataSchedule)
    (store : Store)
    → let one = apply_one_pro_rata_schedule env user_id target ctx s store in
      let accepted = is_accepted env user_id target ctx s in
      (one.0.ledger ≡ store.ledger ++ logged env accepted (installment_input user_id s ctx))
      × (one.1 ≡ returned (accepted && is_marked env s) s)
unfolding apply_one_pro_rata_schedule is_accepted
step-effects env user_id target ctx s store = go s.captured_rate_snapshot
  where
    input : CreateProRataInstallmentInput
    input = installment_input user_id s ctx

    missing : Store × Option ProRataSchedule
    missing = (mark_pro_rata_failed env s snapshot_currency_missing store, none)

    result : Option CapturedRateSnapshot → Store × Option ProRataSchedule
    result snapshot = elim snapshot as (λ x. Store × Option ProRataSchedule) [
      | none ↦ missing
      | some snap ↦
          if has_rate target snap.rates_by_currency
          then settle_answer env s input (env.create_installment input) store
          else missing
    ]

    go :
        (snapshot : Option CapturedRateSnapshot)
        → let accepted = accepted_with env input (is_covered target snapshot) in
          ((result snapshot).0.ledger ≡ store.ledger ++ logged env accepted input)
          × ((result snapshot).1 ≡ returned (accepted && is_marked env s) s)
    go none = (mark_failed-ledger env s snapshot_currency_missing store, refl)
    go (some snap) = elim (Bool-cases (has_rate target snap.rates_by_currency)) [
      | inl e ↦ rw e (answer-effects env s input (env.create_installment input) store)
      | inr e ↦ rw e (mark_failed-ledger env s snapshot_currency_missing store, refl)
    ]

-- The rows whose ledger write succeeded and could be marked come back, in order, as applied.
abbrev pub applied_rows :
    Environment
    → String
    → String
    → TrustedPeriodContext
    → List ProRataSchedule
    → List ProRataSchedule
applied_rows env user_id target ctx ds =
    map set_applied (keep (λ d. is_accepted env user_id target ctx d && is_marked env d) ds)

abbrev pub accepted_inputs :
    Environment
    → String
    → String
    → TrustedPeriodContext
    → List ProRataSchedule
    → List CreateProRataInstallmentInput
accepted_inputs env user_id target ctx ds =
    map (λ d. installment_input user_id d ctx) (keep (is_accepted env user_id target ctx) ds)

-- The loop writes one installment for each row that is accepted, in the order of the rows, and
-- returns exactly the rows among them that it could mark, as applied.
pub apply_all-effects :
    (env : Environment) (user_id target : String) (ctx : TrustedPeriodContext)
    (ds : List ProRataSchedule) (store : Store)
    → ((apply_all env user_id target ctx ds store).0.ledger
        ≡ store.ledger ++ accepted_inputs env user_id target ctx ds)
      × ((apply_all env user_id target ctx ds store).1 ≡ applied_rows env user_id target ctx ds)
unfolding apply_all
apply_all-effects env user_id target ctx [] store = (sym (append-nil store.ledger), refl)
apply_all-effects env user_id target ctx (d ∷ ds) store =
    let one = apply_one_pro_rata_schedule env user_id target ctx d store in
    let (log, row) = step-effects env user_id target ctx d store in
    let (logs, rows) = apply_all-effects env user_id target ctx ds one.0 in
    (
      logs
          ∙ ap (λ l. l ++ accepted_inputs env user_id target ctx ds) log
          ∙ append_assoc store.ledger _ _
          ∙ ap (λ l. store.ledger ++ l) (joined (is_accepted env user_id target ctx d)),
      ap (λ r. append_some r (apply_all env user_id target ctx ds one.0).1) row
          ∙ ap (append_some _) rows
          ∙ kept (is_accepted env user_id target ctx d && is_marked env d),
    )
  where
    joined :
        (b : Bool)
        → logged env b (installment_input user_id d ctx)
            ++ accepted_inputs env user_id target ctx ds
          ≡ map
              (λ x. installment_input user_id x ctx)
              (if b
                then d ∷ keep (is_accepted env user_id target ctx) ds
                else keep (is_accepted env user_id target ctx) ds)
    joined true = refl
    joined false = refl

    kept :
        (b : Bool)
        → append_some (returned b d) (applied_rows env user_id target ctx ds)
          ≡ map set_applied (
              if b
              then d ∷ keep (λ x. is_accepted env user_id target ctx x && is_marked env x) ds
              else keep (λ x. is_accepted env user_id target ctx x && is_marked env x) ds)
    kept true = refl
    kept false = refl
