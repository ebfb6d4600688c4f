-- ===== src/Finance/ProRata/Settle.antt =====
-- What becomes of the rows that fall due (services/finance/internal/service/prorata.go).
use mathlib.Core.Option
use gofin.Prelude.{
  if◌then◌else◌, Bool-cases, All, String, ◌≡◌, refl, sym, ap, ◌∙◌, inl, inr, Bool, true, false,
  Option, none, some, List, [], ◌∷◌, str_eq,
}
use gofin.Finance.ProRata.{
  record_installment, classify_pro_rata_expense_error, installment_input, set_failed,
  snapshot_currency_missing, CreatedExpenseData, TrustedPeriodContext,
  CreateProRataInstallmentInput, set_applied, Store, has_rate, Result, apply_one_pro_rata_schedule,
  update_row, mark_pro_rata_failed, settle_answer, Environment, apply_all,
}
use gofin.Api.{Error, ok, err, Result}
use gofin.Finance.ProRata.Rows.{row_of-update-other, row_of-update, IsFresh, row_of, IsKeyed}
use gofin.Finance.Model.{ProRataSchedule, CapturedRateSnapshot}

-- What happens to one due row, whatever happens to the others.
pub data Fate : Type 0 where
  stays : Fate
  is_applied : Fate
  is_failed : String → Fate

abbrev failing : Environment → ProRataSchedule → String → Fate
failing env s reason = elim (env.mark_failed s.id reason) [
  | some e ↦ stays
  | none ↦ is_failed reason
]

abbrev answered : Environment → ProRataSchedule → Result CreatedExpenseData → Fate
answered env s (ok created) = elim (env.mark_applied s.id) [ some e ↦ stays | none ↦ is_applied ]
answered env s (err e) =
    let reason = classify_pro_rata_expense_error e in
    if str_eq reason "" then stays else failing env s reason

-- The snapshot of the row has a rate for the currency that the period reports in.
abbrev pub is_covered : String → Option CapturedRateSnapshot → Bool
is_covered target none = false
is_covered target (some snapshot) = has_rate target snapshot.rates_by_currency

abbrev fate_with : Environment → ProRataSchedule → CreateProRataInstallmentInput → Bool → Fate
fate_with env s input true = answered env s (env.create_installment input)
fate_with env s input false = failing env s snapshot_currency_missing

unfoldable pub fate : Environment → String → String → TrustedPeriodContext → ProRataSchedule → Fate
fate env user_id target ctx s =
    fate_with env s (installment_input user_id s ctx) (is_covered target s.captured_rate_snapshot)

unfoldable pub meet : Fate → ProRataSchedule → ProRataSchedule
meet stays s = s
meet is_applied s = set_applied s
meet (is_failed reason) s = set_failed reason s

meet-id : (f : Fate) (s : ProRataSchedule) → (meet f s).id ≡ s.id
unfolding meet
meet-id stays s = refl
meet-id is_applied s = refl
meet-id (is_failed reason) s = refl

update-none : (id : String) (rows : List ProRataSchedule) → update_row id (meet stays) rows ≡ rows
unfolding update_row meet
update-none id [] = refl
update-none id (s ∷ rows) = elim (Bool-cases (str_eq s.id id)) [
  | inl e ↦ rw e (ap (λ r. s ∷ r) (update-none id rows))
  | inr e ↦ rw e (ap (λ r. s ∷ r) (update-none id rows))
]

-- One step updates the row, and no other, as its fate says.
mark_failed-rows :
    (env : Environment) (s : ProRataSchedule) (reason : String) (store : Store)
    → (mark_pro_rata_failed env s reason store).schedules
      ≡ update_row s.id (meet (failing env s reason)) store.schedules
unfolding mark_pro_rata_failed meet
mark_failed-rows env s reason store = go (env.mark_failed s.id reason)
  where
    go :
        (answer : Option Error)
        → (elim answer as (λ a. Store) [
          | some e ↦ store
          | none ↦ record store { schedules = update_row s.id (set_failed reason) store.schedules }
        ]).schedules
          ≡ update_row s.id
              (meet (elim answer as (λ a. Fate) [ some e ↦ stays | none ↦ is_failed reason ]))
              store.schedules
    go none = refl
    go (some e) = sym (update-none s.id store.schedules)

settle_answer-rows :
    (env : Environment) (s : ProRataSchedule) (input : CreateProRataInstallmentInput)
    (answer : Result CreatedExpenseData) (store : Store)
    → (settle_answer env s input answer store).0.schedules
      ≡ update_row s.id (meet (answered env s answer)) store.schedules
unfolding settle_answer meet
settle_answer-rows env s input (err x) store =
    elim (Bool-cases (str_eq (classify_pro_rata_expense_error x) "")) [
      | inl e ↦ rw e (sym (update-none s.id store.schedules))
      | inr e ↦ rw e (mark_failed-rows env s (classify_pro_rata_expense_error x) store)
    ]
settle_answer-rows env s input (ok created) store = go (env.mark_applied s.id)
  where
    written : Store
    written = record_installment input store

    go :
        (answer : Option Error)
        → (elim answer as (λ a. Store × Option ProRataSchedule) [
          | some e ↦ (written, none)
          | none ↦ (
            record written { schedules = update_row s.id set_applied written.schedules },
            some (set_applied s),
          )
        ]).0.schedules
          ≡ update_row s.id
              (meet (elim answer as (λ a. Fate) [ some e ↦ stays | none ↦ is_applied ]))
              store.schedules
    go none = refl
    go (some e) = sym (update-none s.id store.schedules)

step-rows :
    (env : Environment) (user_id target : String) (ctx : TrustedPeriodContext) (s : ProRataSchedule)
    (store : Store)
    → (apply_one_pro_rata_schedule env user_id target ctx s store).0.schedules
      ≡ update_row s.id (meet (fate env user_id target ctx s)) store.schedules
unfolding apply_one_pro_rata_schedule fate
step-rows env user_id target ctx s store = go s.captured_rate_snapshot
  where
    input : CreateProRataInstallmentInput
    input = installment_input user_id s ctx

    go :
        (snapshot : Option CapturedRateSnapshot)
        → (elim snapshot as (λ x. Store × Option ProRataSchedule) [
          | none ↦ (mark_pro_rata_failed env s snapshot_currency_missing store, none)
          | some snap ↦
              if has_rate target snap.rates_by_currency
              then settle_answer env s input (env.create_installment input) store
              else (mark_pro_rata_failed env s snapshot_currency_missing store, none)
        ]).0.schedules
          ≡ update_row s.id
              (meet (fate_with env s input (is_covered target snapshot)))
              store.schedules
    go none = mark_failed-rows env s snapshot_currency_missing store
    go (some snap) = elim (Bool-cases (has_rate target snap.rates_by_currency)) [
      | inl e ↦ rw e (settle_answer-rows env s input (env.create_installment input) store)
      | inr e ↦ rw e (mark_failed-rows env s snapshot_currency_missing store)
    ]

-- The loop gives each of its rows its fate and leaves the other ids alone.
pub apply_all-rows :
    (env : Environment) (user_id target : String) (ctx : TrustedPeriodContext)
    (ds : List ProRataSchedule) (store : Store)
    → IsKeyed ds
    → All (λ d. row_of d.id store.schedules ≡ some d) ds
    → let after = (apply_all env user_id target ctx ds store).0.schedules in
      All (λ d. row_of d.id after ≡ some (meet (fate env user_id target ctx d) d)) ds
      × ((id : String) → IsFresh id ds → row_of id after ≡ row_of id store.schedules)
unfolding apply_all
apply_all-rows env user_id target ctx [] store k h = (tt, λ id f. refl)
apply_all-rows env user_id target ctx (d ∷ ds) store (fresh, k) (h, hs) =
    let f = meet (fate env user_id target ctx d) in
    let one = apply_one_pro_rata_schedule env user_id target ctx d store in
    let step : one.0.schedules ≡ update_row d.id f store.schedules =
      step-rows env user_id target ctx d store in
    let (rest, frame) =
      apply_all-rows env user_id target ctx ds one.0 k
        (others f step ds fresh (meet-id (fate env user_id target ctx d)) hs) in
    (
      (
        frame d.id fresh
            ∙ ap (row_of d.id) step
            ∙ row_of-update d.id f store.schedules (meet-id (fate env user_id target ctx d))
            ∙ ap (Option.map f) h,
        rest,
      ),
      λ id (ne, g).
          frame id g
          ∙ ap (row_of id) step
          ∙ row_of-update-other id d.id f store.schedules ne
              (meet-id (fate env user_id target ctx d)),
    )
  where
    others :
        (f : ProRataSchedule → ProRataSchedule) {after : List ProRataSchedule}
        → after ≡ update_row d.id f store.schedules
        → (xs : List ProRataSchedule) → IsFresh d.id xs
        → ((s : ProRataSchedule) → (f s).id ≡ s.id)
        → All (λ x. row_of x.id store.schedules ≡ some x) xs
        → All (λ x. row_of x.id after ≡ some x) xs
    others f e [] g same q = tt
    others f e (x ∷ xs) (ne, g) same (q, qs) = (
      ap (row_of x.id) e
          ∙ row_of-update-other x.id d.id f store.schedules (λ r. ne (sym r)) same
          ∙ q,
      others f e xs g same qs,
    )
