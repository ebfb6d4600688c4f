-- ===== src/Expense/Ledger.antt =====
-- The writes of services/expense/internal/service/expense.go on the ledger of
-- services/expense/internal/repository: the rows in the order of insertion.
pub mod Replay
pub mod Rows
pub mod Immutable
use gofin.Prelude.{
  if◌then◌else◌, String, str_append, Bool, not, ◌&&◌, ◌||◌, Option, none, some, List, [], ◌∷◌, ◌++◌,
  map, str_eq,
}
use gofin.Api.{
  ◌>>=◌, ok, err, Result, coded, validation, Fields, Error, internal, not_found, conflict,
}
use gofin.Expense.Validation.{
  validate_transaction_currency, validate_correct_expense_request, validate_idempotency_key,
  validate_reporting_currency, validate_create_expense_request,
}
use gofin.Prelude.Int.{eqb_ℤ, ℤ}
use gofin.Expense.Model.{
  FxConvertResponse, Expense, Clock, CreateExpenseRequest, Peers, CorrectExpenseRequest,
}
use gofin.Validator.{check, has_errors}
use gofin.Currency.{normalize_currency_code}

abbrev pub active : String
active = "active"

abbrev pub corrected : String
corrected = "corrected"

-- SELECT … WHERE id = … AND user_id = …
unfoldable pub find_expense : String → String → List Expense → Option Expense
find_expense id user_id [] = none
find_expense id user_id (e ∷ es) =
    if str_eq e.id id && str_eq e.user_id user_id then some e else find_expense id user_id es

unfoldable pub find_by_key : String → String → List Expense → Option Expense
find_by_key user_id key [] = none
find_by_key user_id key (e ∷ es) =
    if str_eq e.user_id user_id && str_eq e.idempotency_key key
    then some e
    else find_by_key user_id key es

-- UPDATE … SET status = 'corrected' WHERE id = …
unfoldable pub mark_corrected : String → List Expense → List Expense
mark_corrected id = map (λ e. if str_eq e.id id then record e { status = corrected } else e)

-- The same, for the rows of the user.
unfoldable pub deactivate : String → String → List Expense → List Expense
deactivate id user_id =
    map (λ e.
      if str_eq e.id id && str_eq e.user_id user_id then record e { status = corrected } else e)

-- What an expense records of its money.
pub record Money : Type 0 where
  pub original_transaction_amount : ℤ
  pub transaction_currency_code : String
  pub reporting_amount : ℤ
  pub reporting_currency_code : String
  pub exchange_rate : String
  pub exchange_rate_source : String
  pub exchange_rate_timestamp : String
  pub exchange_rate_cache_expires_at : String

unfoldable pub build_identity_snapshot : ℤ → String → String → String → Money
build_identity_snapshot amount transaction_currency reporting_currency timestamp = record {
  original_transaction_amount = amount;
  transaction_currency_code = transaction_currency;
  reporting_amount = amount;
  reporting_currency_code = reporting_currency;
  exchange_rate = "1";
  exchange_rate_source = "identity";
  exchange_rate_timestamp = timestamp;
  exchange_rate_cache_expires_at = "";
}

abbrev is_valid_source : String → Bool
is_valid_source s = str_eq s "identity" || str_eq s "open_exchange_rates" || str_eq s "migration"

unfoldable pub build_provider_snapshot : ℤ → String → String → FxConvertResponse → Result Money
unfolding internal
build_provider_snapshot amount transaction_currency reporting_currency fx =
    if not (is_valid_source fx.source)
    then err (internal (str_append "invalid exchange rate source: \"" (str_append fx.source "\"")))
    else ok (record {
      original_transaction_amount = amount;
      transaction_currency_code = transaction_currency;
      reporting_amount = fx.converted_amount;
      reporting_currency_code = reporting_currency;
      exchange_rate = fx.exchange_rate;
      exchange_rate_source = fx.source;
      exchange_rate_timestamp = fx.rate_timestamp;
      exchange_rate_cache_expires_at = fx.expires_at;
    })

-- The money of a write: the same currency does not ask the fx service. An error of its is passed on.
unfoldable pub resolve_snapshot : Peers → ℤ → String → String → String → Result Money
unfolding build_identity_snapshot build_provider_snapshot
resolve_snapshot peers amount transaction_currency reporting_currency now =
    let foreign =
      peers.convert_amount (record {
        amount = amount;
        source_currency = transaction_currency;
        target_currency = reporting_currency;
        requested_at = now;
      })
      >>= build_provider_snapshot amount transaction_currency reporting_currency in
    if str_eq transaction_currency reporting_currency
    then ok (build_identity_snapshot amount transaction_currency reporting_currency now)
    else foreign

abbrev checked {ℓ} : {A : Type ℓ} → Option Error → A → Result A
checked none a = ok a
checked (some e) a = err e

abbrev or_default : String → String → String
or_default code default = if str_eq code "" then default else code

-- The currencies of a write and its money: the period's reporting currency, and the request's
-- currency or else the one given.
unfoldable pub resolve_money :
    Peers → String → ℤ → ℤ → ℤ → String → (String → String) → String → Result Money
unfolding normalize_currency_code validate_reporting_currency validate_transaction_currency
    resolve_snapshot
resolve_money peers user_id year month amount requested default now = do
  period_currency ← peers.reporting_currency user_id year month
  reporting ←
      checked (validate_reporting_currency (normalize_currency_code period_currency))
        (normalize_currency_code period_currency)
  transaction ← validate_transaction_currency (
      or_default (normalize_currency_code requested)
        (normalize_currency_code (default period_currency)))
  resolve_snapshot peers amount transaction reporting now

unfoldable pub new_expense : CreateExpenseRequest → String → String → String → Money → Expense
new_expense req user_id id now m = record {
  id = id;
  user_id = user_id;
  name = req.name;
  transaction_currency_code = m.transaction_currency_code;
  expense_type = req.expense_type;
  tag_id = req.tag_id;
  expense_date_iso = req.expense_date_iso;
  period_year = req.period_year;
  period_month = req.period_month;
  status = active;
  corrects_id = "";
  is_pro_rata = req.is_pro_rata;
  pro_rata_group = req.pro_rata_group;
  pro_rata_index = req.pro_rata_index;
  pro_rata_total = req.pro_rata_total;
  created_at = now;
  original_transaction_amount = m.original_transaction_amount;
  reporting_amount = m.reporting_amount;
  reporting_currency_code = m.reporting_currency_code;
  exchange_rate = m.exchange_rate;
  exchange_rate_source = m.exchange_rate_source;
  exchange_rate_timestamp = m.exchange_rate_timestamp;
  exchange_rate_cache_expires_at = m.exchange_rate_cache_expires_at;
  idempotency_key = req.idempotency_key;
}

-- INSERT
unfoldable pub insert_expense :
    Peers → List Expense → Result Expense → List Expense × Result Expense
insert_expense peers ledger (err x) = (ledger, err x)
insert_expense peers ledger (ok e) = elim (peers.statement "CreateExpense") [
  | some x ↦ (ledger, err x)
  | none ↦ (ledger ++ (e ∷ []), ok e)
]

unfoldable pub validate_create : (String → Bool) → CreateExpenseRequest → Option Error
unfolding validate_create_expense_request validate_idempotency_key
validate_create is_uuid req = elim (validate_create_expense_request req) [
  | some e ↦ some e
  | none ↦ validate_idempotency_key is_uuid req.idempotency_key
]

-- The id is the new UUID.
unfoldable pub create_expense :
    (String → Bool)
    → Peers
    → Clock
    → List Expense
    → String
    → String
    → CreateExpenseRequest
    → List Expense × Result Expense
unfolding validate_create find_by_key resolve_money new_expense insert_expense
create_expense is_uuid peers clock ledger user_id id req =
    let fresh =
      resolve_money peers user_id req.period_year req.period_month req.amount
        req.transaction_currency_code (λ c. c) clock.text
      >>= λ m. ok (new_expense req user_id id clock.text m) in
    elim (validate_create is_uuid req) [
      | some e ↦ (ledger, err e)
      | none ↦ elim (peers.statement "GetExpenseByIdempotencyKey") [
        | some e ↦ (ledger, err e)
        | none ↦ elim (find_by_key user_id req.idempotency_key ledger) [
          | some existing ↦ (ledger, ok existing)
          | none ↦ insert_expense peers ledger fresh
        ]
      ]
    ]

unfoldable pub new_correction :
    CorrectExpenseRequest → Expense → String → String → String → Money → Expense
new_correction req original user_id id now m = record {
  id = id;
  user_id = user_id;
  name = req.name;
  transaction_currency_code = m.transaction_currency_code;
  expense_type = req.expense_type;
  tag_id = req.tag_id;
  expense_date_iso = req.expense_date_iso;
  period_year = original.period_year;
  period_month = original.period_month;
  status = active;
  corrects_id = original.id;
  is_pro_rata = original.is_pro_rata;
  pro_rata_group = original.pro_rata_group;
  pro_rata_index = original.pro_rata_index;
  pro_rata_total = original.pro_rata_total;
  created_at = now;
  original_transaction_amount = m.original_transaction_amount;
  reporting_amount = m.reporting_amount;
  reporting_currency_code = m.reporting_currency_code;
  exchange_rate = m.exchange_rate;
  exchange_rate_source = m.exchange_rate_source;
  exchange_rate_timestamp = m.exchange_rate_timestamp;
  exchange_rate_cache_expires_at = m.exchange_rate_cache_expires_at;
  idempotency_key = "";
}

-- The repository's two statements: a failure of the second leaves the first.
unfoldable pub write_correction :
    Peers → List Expense → Expense → Expense → List Expense × Result Expense
unfolding mark_corrected insert_expense
write_correction peers ledger original correction = elim (peers.statement "CorrectExpense") [
  | some x ↦ (ledger, err x)
  | none ↦ insert_expense peers (mark_corrected original.id ledger) (ok correction)
]

abbrev pub already_corrected : String → Error
unfolding conflict
already_corrected = conflict "ALREADY_CORRECTED"

abbrev pub locked : String → Error
locked message = coded "PERIOD_LOCKED" message 403

unfoldable pub is_past : Clock → Expense → Bool
is_past clock e = not (eqb_ℤ e.period_year clock.year) || not (eqb_ℤ e.period_month clock.month)

-- The checks that corrections and deletions share: the row, which is active and of the clock's month.
unfoldable pub editable :
    Peers → Clock → List Expense → String → String → (taken past : String) → Result Expense
unfolding find_expense not_found is_past
editable peers clock ledger user_id id taken past = elim (peers.statement "GetExpenseByID") [
  | some e ↦ err e
  | none ↦ elim (find_expense id user_id ledger) [
    | none ↦ err (not_found (str_append "expense " (str_append id " not found")))
    | some e ↦
        if not (str_eq e.status active)
        then err (already_corrected taken)
        else if is_past clock e
        then err (locked past)
        else ok e
  ]
]

abbrev pub id_fields : String → Fields
unfolding check
id_fields id = check (not (str_eq id "")) "expenseId" "expense ID is required" []

unfoldable pub correct_expense :
    Peers
    → Clock
    → List Expense
    → String
    → String
    → String
    → CorrectExpenseRequest
    → List Expense × Result Expense
unfolding has_errors validation validate_correct_expense_request editable resolve_money
    new_correction write_correction
correct_expense peers clock ledger user_id expense_id id req =
    if has_errors (id_fields expense_id)
    then (ledger, err (validation "validation failed" (id_fields expense_id)))
    else elim (validate_correct_expense_request req) [
      | some e ↦ (ledger, err e)
      | none ↦
          elim (editable peers clock ledger user_id expense_id
            "this expense has already been corrected"
            "cannot correct expenses from a past period") [
              | err e ↦ (ledger, err e)
              | ok original ↦
                  elim (resolve_money peers user_id original.period_year original.period_month
                    req.amount req.transaction_currency_code
                    (λ c. original.transaction_currency_code) clock.text) [
                      | err e ↦ (ledger, err e)
                      | ok m ↦
                          write_correction peers ledger original
                            (new_correction req original user_id id clock.text m)
                    ]
            ]
    ]

-- `none` is success.
unfoldable pub delete_expense :
    Peers → Clock → List Expense → String → String → List Expense × Option Error
unfolding has_errors validation editable deactivate
delete_expense peers clock ledger user_id expense_id =
    if has_errors (id_fields expense_id)
    then (ledger, some (validation "validation failed" (id_fields expense_id)))
    else elim (editable peers clock ledger user_id expense_id
        "this expense has already been corrected or deleted"
        "cannot delete expenses from a past period") [
          | err e ↦ (ledger, some e)
          | ok e ↦ elim (peers.statement "DeactivateExpense") [
            | some x ↦ (ledger, some x)
            | none ↦ (deactivate expense_id user_id ledger, none)
          ]
        ]
