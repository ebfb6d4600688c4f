-- ===== src/Expense/Ledger/Replay.antt =====
-- Idempotent creation (`CreateExpense` of services/expense/internal/service/expense.go).
use gofin.Api.{◌>>=◌, Error, err, Result, ok}
use gofin.Prelude.{
  Bool-cases, String, ◌≡◌, refl, subst, inl, inr, Bool, true, ◌&&◌, Option, none, some, List, [],
  ◌∷◌, ◌++◌, str_eq, eq_refl,
}
use gofin.Expense.Ledger.{
  resolve_money, Money, validate_create, ok, Result, new_expense, Expense, Clock, create_expense,
  insert_expense, find_by_key,
}
use gofin.Expense.Model.{Clock, Expense, Peers, CreateExpenseRequest}

find_by_key-last :
    (user_id key : String) (ledger : List Expense) (e : Expense)
    → find_by_key user_id key ledger ≡ none
    → (str_eq e.user_id user_id && str_eq e.idempotency_key key) ≡ true
    → find_by_key user_id key (ledger ++ (e ∷ [])) ≡ some e
unfolding find_by_key
find_by_key-last user_id key [] e h m = rw m refl
find_by_key-last user_id key (x ∷ xs) e h m =
    elim (Bool-cases (str_eq x.user_id user_id && str_eq x.idempotency_key key)) [
      | inl hit ↦ let bad : some x ≡ none = rw hit at h in cc
      | inr miss ↦ rw miss (find_by_key-last user_id key xs e (rw miss at h) m)
    ]

-- The state that a successful creation leaves: a valid request, and the expense found by its key.
abbrev Created : (String → Bool) → String → CreateExpenseRequest → List Expense → Expense → Type 0
Created is_uuid user_id req ledger e =
    (validate_create is_uuid req ≡ none) × (find_by_key user_id req.idempotency_key ledger ≡ some e)

abbrev CreatedIn :
    (String → Bool) → String → CreateExpenseRequest → List Expense × Result Expense → Type 0
CreatedIn is_uuid user_id req (ledger, ok e) = Created is_uuid user_id req ledger e
CreatedIn is_uuid user_id req (ledger, err x) = Unit

insert-CreatedIn :
    (is_uuid : String → Bool) (peers : Peers) (clock : Clock) (ledger : List Expense)
    (user_id id : String) (req : CreateExpenseRequest) (money : Result Money)
    → validate_create is_uuid req ≡ none
    → find_by_key user_id req.idempotency_key ledger ≡ none
    → CreatedIn is_uuid user_id req
        (insert_expense peers ledger (money >>= λ m. ok (new_expense req user_id id clock.text m)))
unfolding insert_expense new_expense
insert-CreatedIn is_uuid peers clock ledger user_id id req (err x) v f = tt
insert-CreatedIn is_uuid peers clock ledger user_id id req (ok m) v f =
    go (peers.statement "CreateExpense")
  where
    e : Expense
    e = new_expense req user_id id clock.text m

    next : Option Error → List Expense × Result Expense
    next q = elim q [ some x ↦ (ledger, err x) | none ↦ (ledger ++ (e ∷ []), ok e) ]

    go : (q : Option Error) → CreatedIn is_uuid user_id req (next q)
    go (some x) = tt
    go none = (
      v,
      find_by_key-last user_id req.idempotency_key ledger e f
          (rw (eq_refl user_id, eq_refl req.idempotency_key) refl),
    )

create_expense-CreatedIn :
    (is_uuid : String → Bool) (peers : Peers) (clock : Clock) (ledger : List Expense)
    (user_id id : String) (req : CreateExpenseRequest)
    → CreatedIn is_uuid user_id req (create_expense is_uuid peers clock ledger user_id id req)
unfolding create_expense
create_expense-CreatedIn is_uuid peers clock ledger user_id id req =
    first (validate_create is_uuid req) refl
  where
    money : Result Money
    money =
        resolve_money peers user_id req.period_year req.period_month req.amount
          req.transaction_currency_code (λ c. c) clock.text

    fresh : Result Expense
    fresh = money >>= λ m. ok (new_expense req user_id id clock.text m)

    found : Option Expense → List Expense × Result Expense
    found o = elim o [
      | some existing ↦ (ledger, ok existing)
      | none ↦ insert_expense peers ledger fresh
    ]

    third :
        (o : Option Expense)
        → find_by_key user_id req.idempotency_key ledger ≡ o
        → validate_create is_uuid req ≡ none
        → CreatedIn is_uuid user_id req (found o)
    third (some existing) f v = (v, f)
    third none f v = insert-CreatedIn is_uuid peers clock ledger user_id id req money v f

    looked : Option Error → List Expense × Result Expense
    looked q = elim q [
      | some e ↦ (ledger, err e)
      | none ↦ found (find_by_key user_id req.idempotency_key ledger)
    ]

    second :
        (q : Option Error)
        → validate_create is_uuid req ≡ none
        → CreatedIn is_uuid user_id req (looked q)
    second (some e) v = tt
    second none v = third (find_by_key user_id req.idempotency_key ledger) refl v

    first :
        (c : Option Error)
        → validate_create is_uuid req ≡ c
        → CreatedIn is_uuid user_id req (elim c [
          | some e ↦ (ledger, err e)
          | none ↦ looked (peers.statement "GetExpenseByIdempotencyKey")
        ])
    first (some e) v = tt
    first none v = second (peers.statement "GetExpenseByIdempotencyKey") v

-- Once a creation has succeeded, the same request of the same user, whatever the other services, the
-- clock and the new id are by then, returns the same expense and leaves the ledger as it is, provided
-- that the key can be looked up.
pub create_expense-replay :
    (is_uuid : String → Bool) (peers peers' : Peers) (clock clock' : Clock)
    (ledger ledger' : List Expense) (user_id id id' : String) (req : CreateExpenseRequest)
    (e : Expense)
    → create_expense is_uuid peers clock ledger user_id id req ≡ (ledger', ok e)
    → peers'.statement "GetExpenseByIdempotencyKey" ≡ none
    → create_expense is_uuid peers' clock' ledger' user_id id' req ≡ (ledger', ok e)
unfolding create_expense
create_expense-replay is_uuid peers peers' clock clock' ledger ledger' user_id id id' req e h q =
    let (v, f) =
      subst (CreatedIn is_uuid user_id req) h
        (create_expense-CreatedIn is_uuid peers clock ledger user_id id req) in
    rw (create_expense, v, q, f) refl
