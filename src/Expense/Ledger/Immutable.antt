-- ===== src/Expense/Ledger/Immutable.antt =====
-- What corrections and deletions do to the ledger (services/expense/internal/service/expense.go).
use gofin.Prelude.{
  if◌then◌else◌, is_some, String, str_append, ◌≡◌, refl, subst, ◌⊎◌, inl, inr, Bool, true, false,
  not, Option, none, some, List, [], ◌∷◌, ◌++◌, eq_iff, str_eq,
}
use gofin.Expense.Ledger.Rows.{
  mark_corrected-Pointwise, Deactivated, Marked, is_past_lem, deactivate-Pointwise,
  find_expense_lem, MayEdit,
}
use gofin.Prelude.Changes.{Pointwise}
use gofin.Api.{not_found, validation, err, Error, ok, Result}
use gofin.Expense.Validation.{validate_correct_expense_request}
use gofin.Validator.{has_errors}
use gofin.Expense.Ledger.{
  has_errors, validate_correct_expense_request, resolve_money, id_fields, locked, Money,
  already_corrected, deactivate, is_past, CorrectExpenseRequest, mark_corrected, find_expense,
  insert_expense, new_correction, active, Peers, delete_expense, correct_expense, editable,
  write_correction,
}
use gofin.Expense.Model.{CorrectExpenseRequest, Peers, Expense, Clock}

abbrev EditableIn : Clock → List Expense → String → String → Result Expense → Type 0
EditableIn clock ledger user_id id (ok e) = MayEdit clock ledger user_id id e
EditableIn clock ledger user_id id (err x) = Unit

editable-EditableIn :
    (peers : Peers) (clock : Clock) (ledger : List Expense) (user_id id taken past : String)
    → EditableIn clock ledger user_id id (editable peers clock ledger user_id id taken past)
unfolding editable
editable-EditableIn peers clock ledger user_id id taken past =
    first (peers.statement "GetExpenseByID")
  where
    unlocked : Expense → Bool → Bool → Result Expense
    unlocked e a p =
        if not a then err (already_corrected taken) else if p then err (locked past) else ok e

    third :
        (e : Expense) (a p : Bool)
        → find_expense id user_id ledger ≡ some e
        → str_eq e.status active ≡ a
        → is_past clock e ≡ p
        → EditableIn clock ledger user_id id (unlocked e a p)
    third e false p f s q = tt
    third e true true f s q = tt
    third e true false f s q =
        let (m, (i, u)) = find_expense_lem id user_id ledger e f in
        let (y, n) = is_past_lem clock e q in (m, i, u, (eq_iff e.status active).0 s, y, n)

    found : Option Expense → Result Expense
    found o = elim o [
      | none ↦ err (not_found (str_append "expense " (str_append id " not found")))
      | some e ↦ unlocked e (str_eq e.status active) (is_past clock e)
    ]

    second :
        (o : Option Expense)
        → find_expense id user_id ledger ≡ o
        → EditableIn clock ledger user_id id (found o)
    second none f = tt
    second (some e) f = third e (str_eq e.status active) (is_past clock e) f refl refl

    first :
        (q : Option Error)
        → EditableIn clock ledger user_id id
            (elim q [ some e ↦ err e | none ↦ found (find_expense id user_id ledger) ])
    first (some e) = tt
    first none = second (find_expense id user_id ledger) refl

abbrev pub Deleted : Clock → List Expense → String → String → List Expense × Option Error → Type 0
Deleted clock ledger user_id id r =
    ((r.0 ≡ ledger) × (is_some r.1 ≡ true))
    ⊎ ((e : Expense) × MayEdit clock ledger user_id id e
        × Pointwise (Deactivated id user_id) ledger r.0
        × (r.1 ≡ none))

-- A deletion either returns an error and leaves the ledger alone, or succeeds, and then a row of the
-- ledger has the id, is the user's, active and of the clock's year and month, and in the new ledger
-- each row with that id and user has become corrected, with its other fields unchanged, and each other
-- row is as it was: no row is ever removed or added.
pub delete_expense-Deleted :
    (peers : Peers) (clock : Clock) (ledger : List Expense) (user_id id : String)
    → Deleted clock ledger user_id id (delete_expense peers clock ledger user_id id)
unfolding delete_expense
delete_expense-Deleted peers clock ledger user_id id = first (has_errors (id_fields id))
  where
    answer : Result Expense
    answer =
        editable peers clock ledger user_id id "this expense has already been corrected or deleted"
          "cannot delete expenses from a past period"

    written : Option Error → List Expense × Option Error
    written q = elim q [ some x ↦ (ledger, some x) | none ↦ (deactivate id user_id ledger, none) ]

    third :
        (e : Expense)
        → MayEdit clock ledger user_id id e
        → (q : Option Error) → Deleted clock ledger user_id id (written q)
    third e may (some x) = inl (refl, refl)
    third e may none = inr (e, may, deactivate-Pointwise id user_id ledger, refl)

    after : Result Expense → List Expense × Option Error
    after a = elim a [
      | err e ↦ (ledger, some e)
      | ok e ↦ written (peers.statement "DeactivateExpense")
    ]

    second :
        (a : Result Expense)
        → EditableIn clock ledger user_id id a
        → Deleted clock ledger user_id id (after a)
    second (err e) h = inl (refl, refl)
    second (ok e) h = third e h (peers.statement "DeactivateExpense")

    first :
        (b : Bool)
        → Deleted clock ledger user_id id (
            if b
            then (ledger, some (validation "validation failed" (id_fields id)))
            else after answer)
    first true = inl (refl, refl)
    first false = second answer (
        editable-EditableIn peers clock ledger user_id id
          "this expense has already been corrected or deleted"
          "cannot delete expenses from a past period")

-- The new row of a correction of `original`.
abbrev pub Corrects : String → Expense → Expense → Type 0
Corrects user_id original c =
    (c.status ≡ "active")
    × (c.corrects_id ≡ original.id)
    × (c.user_id ≡ user_id)
    × (c.period_year ≡ original.period_year)
    × (c.period_month ≡ original.period_month)
    × (c.pro_rata_group ≡ original.pro_rata_group)
    × (c.pro_rata_index ≡ original.pro_rata_index)

abbrev is_error {ℓ} : {A : Type ℓ} → Result A → Bool
is_error (ok a) = false
is_error (err e) = true

abbrev pub Corrected :
    Clock → List Expense → String → String → List Expense × Result Expense → Type 0
Corrected clock ledger user_id id r =
    ((r.0 ≡ ledger) × (is_error r.1 ≡ true))
    ⊎ ((e : Expense) × MayEdit clock ledger user_id id e
        × ((marked : List Expense) × Pointwise (Marked id) ledger marked
            × (((r.0 ≡ marked) × (is_error r.1 ≡ true))
                ⊎ ((c : Expense) × (r.0 ≡ marked ++ (c ∷ []))
                    × (r.1 ≡ ok c)
                    × Corrects user_id e c))))

write_correction-Corrected :
    (peers : Peers) (clock : Clock) (ledger : List Expense) (user_id id : String)
    (original c : Expense)
    → MayEdit clock ledger user_id id original
    → Corrects user_id original c
    → Corrected clock ledger user_id id (write_correction peers ledger original c)
unfolding write_correction insert_expense
write_correction-Corrected peers clock ledger user_id id original c may fits =
    go (peers.statement "CorrectExpense")
  where
    marked : List Expense
    marked = mark_corrected original.id ledger

    becomes : Pointwise (Marked id) ledger marked
    becomes =
        let (m, i, u, s, y, n) = may in
        subst (λ k. Pointwise (Marked k) ledger marked) i
          (mark_corrected-Pointwise original.id ledger)

    inserted : Option Error → List Expense × Result Expense
    inserted q = elim q [ some x ↦ (marked, err x) | none ↦ (marked ++ (c ∷ []), ok c) ]

    after : (q : Option Error) → Corrected clock ledger user_id id (inserted q)
    after (some x) = inr (original, may, (marked, becomes, inl (refl, refl)))
    after none = inr (original, may, (marked, becomes, inr (c, refl, refl, fits)))

    go :
        (q : Option Error)
        → Corrected clock ledger user_id id (elim q [
          | some x ↦ (ledger, err x)
          | none ↦ inserted (peers.statement "CreateExpense")
        ])
    go (some x) = inl (refl, refl)
    go none = after (peers.statement "CreateExpense")

-- A correction leaves the ledger alone with an error, or a row of the ledger has the id, is the
-- user's, active and of the clock's year and month; then each row with that id has become corrected,
-- with its other fields unchanged, each other row is as it was, and on success exactly one row stands
-- behind them, the one that is returned: active, the user's, of the original's month and installment,
-- and a correction of the original. On an error after the mark no row is added. No row is removed.
pub correct_expense-Corrected :
    (peers : Peers) (clock : Clock) (ledger : List Expense) (user_id id new_id : String)
    (req : CorrectExpenseRequest)
    → Corrected clock ledger user_id id (correct_expense peers clock ledger user_id id new_id req)
unfolding correct_expense new_correction
correct_expense-Corrected peers clock ledger user_id id new_id req =
    first (has_errors (id_fields id))
  where
    answer : Result Expense
    answer =
        editable peers clock ledger user_id id "this expense has already been corrected"
          "cannot correct expenses from a past period"

    priced : Expense → Result Money → List Expense × Result Expense
    priced original m = elim m [
      | err e ↦ (ledger, err e)
      | ok m' ↦
          write_correction peers ledger original
            (new_correction req original user_id new_id clock.text m')
    ]

    fourth :
        (original : Expense)
        → MayEdit clock ledger user_id id original
        → (m : Result Money) → Corrected clock ledger user_id id (priced original m)
    fourth original may (err e) = inl (refl, refl)
    fourth original may (ok m) =
        write_correction-Corrected peers clock ledger user_id id original
          (new_correction req original user_id new_id clock.text m) may
          (refl, refl, refl, refl, refl, refl, refl)

    money : Expense → Result Money
    money original =
        resolve_money peers user_id original.period_year original.period_month req.amount
          req.transaction_currency_code (λ c. original.transaction_currency_code) clock.text

    after : Result Expense → List Expense × Result Expense
    after a = elim a [ err e ↦ (ledger, err e) | ok original ↦ priced original (money original) ]

    third :
        (a : Result Expense)
        → EditableIn clock ledger user_id id a
        → Corrected clock ledger user_id id (after a)
    third (err e) h = inl (refl, refl)
    third (ok original) h = fourth original h (money original)

    valid : Option Error → List Expense × Result Expense
    valid c = elim c [ some e ↦ (ledger, err e) | none ↦ after answer ]

    second : (c : Option Error) → Corrected clock ledger user_id id (valid c)
    second (some e) = inl (refl, refl)
    second none = third answer (
        editable-EditableIn peers clock ledger user_id id "this expense has already been corrected"
          "cannot correct expenses from a past period")

    first :
        (b : Bool)
        → Corrected clock ledger user_id id (
            if b
            then (ledger, err (validation "validation failed" (id_fields id)))
            else valid (validate_correct_expense_request req))
    first true = inl (refl, refl)
    first false = second (validate_correct_expense_request req)
