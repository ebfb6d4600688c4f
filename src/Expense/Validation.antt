-- ===== src/Expense/Validation.antt =====
-- The validators of services/expense/internal/service/expense.go.
use gofin.Prelude.{
  ltb, leb, ◌==◌, if◌then◌else◌, ℕ, ◌+◌, String, str_append, Bool, true, false, not, ◌&&◌, ◌||◌,
  Option, none, some, [], str_eq,
}
use gofin.Api.{ok, api, err, Result, internal, Fields, Error, validation}
use gofin.Prelude.Int.{pos, ltb_ℤ, leb_ℤ, ℤ}
use gofin.Expense.Model.{CreateExpenseRequest, CorrectExpenseRequest}
use gofin.Currency.{is_supported, normalize_currency_code}
use gofin.Validator.{check, has_errors}
use Prim.Native.Char.{code}

abbrev is_digit : ℕ → Bool
is_digit c = leb b'0' c && leb c b'9'

-- A pattern of digits and dashes.
unfoldable matches_date : String → String → Bool
matches_date String.[] String.[] = true
matches_date (String.◌∷◌ p ps) (String.◌∷◌ c s) =
    let rest = matches_date ps s in
    if code p == b'-' then code c == b'-' && rest else is_digit (code c) && rest
matches_date p s = false

-- `isoDateRegex`.
unfoldable pub is_iso_date : String → Bool
unfolding matches_date
is_iso_date = matches_date "dddd-dd-dd"

abbrev utf8_width : ℕ → ℕ
utf8_width c = if ltb c 0x80 then 1 else if ltb c 0x800 then 2 else if ltb c 0x10000 then 3 else 4

-- Go's `len` of a string: its bytes.
unfoldable pub byte_length : String → ℕ
byte_length String.[] = 0
byte_length (String.◌∷◌ c s) = utf8_width (code c) + byte_length s

abbrev pub is_valid_expense_type : String → Bool
is_valid_expense_type t = str_eq t "essentials" || str_eq t "desires" || str_eq t "savings"

abbrev pub amount_field : String
amount_field = "amountInTransactionCurrencyMinorUnits"

-- The six checks that creations and corrections share.
unfoldable pub common_fields : String → ℤ → String → String → String → Fields
unfolding check is_iso_date
common_fields name amount expense_type tag_id expense_date_iso =
    check (is_iso_date expense_date_iso) "expenseDateIso"
      "expense_date must be in ISO format (YYYY-MM-DD)"
      (check (not (str_eq expense_date_iso "")) "expenseDateIso" "expense_date is required" (
        check (not (str_eq tag_id "")) "tagId" "tag_id is required" (
          check (is_valid_expense_type expense_type) "expenseType"
            "expense_type must be one of: essentials, desires, savings"
            (check (ltb_ℤ (pos 0) amount) amount_field "amount must be positive"
              (check (not (str_eq name "")) "name" "name is required" [])))))

abbrev pub of_fields : Fields → Option Error
unfolding has_errors validation
of_fields v = if has_errors v then some (validation "validation failed" v) else none

unfoldable pub validate_correct_expense_request : CorrectExpenseRequest → Option Error
unfolding common_fields of_fields
validate_correct_expense_request req =
    of_fields (common_fields req.name req.amount req.expense_type req.tag_id req.expense_date_iso)

unfoldable pub validate_create_expense_request : CreateExpenseRequest → Option Error
unfolding common_fields check of_fields
validate_create_expense_request req = of_fields (
    check (leb_ℤ (pos 1) req.period_month && leb_ℤ req.period_month (pos 12)) "periodMonth"
      "period_month must be between 1 and 12"
      (check (leb_ℤ (pos 1) req.period_year) "periodYear" "period_year must be positive"
        (common_fields req.name req.amount req.expense_type req.tag_id req.expense_date_iso)))

abbrev pub key_field : String
key_field = "clientGeneratedIdempotencyKey"

-- `is_uuid` is the test of `uuid.Parse`.
unfoldable pub validate_idempotency_key : (String → Bool) → String → Option Error
unfolding check byte_length of_fields
validate_idempotency_key is_uuid key = of_fields (
    check (is_uuid key) key_field "clientGeneratedIdempotencyKey must be a valid UUID" (
      check (leb (byte_length key) 36) key_field
        "clientGeneratedIdempotencyKey must be at most 36 characters"
        (check (not (str_eq key "")) key_field "clientGeneratedIdempotencyKey is required" [])))

unfoldable pub validate_reporting_currency : String → Option Error
unfolding normalize_currency_code is_supported internal
validate_reporting_currency reporting_currency =
    if is_supported (normalize_currency_code reporting_currency)
    then none
    else some (internal "reporting currency is not supported")

-- The message quotes the code without Go's escapes.
unfoldable pub validate_transaction_currency : String → Result String
unfolding check is_supported has_errors
validate_transaction_currency currency_code =
    let v = check (is_supported currency_code) "transactionCurrency" "unsupported currency" [] in
    if has_errors v
    then err (
        api (record {
          code = "UNSUPPORTED_CURRENCY";
          message = str_append "Unsupported currency \"" (str_append currency_code "\"");
          status = pos 400;
          fields = v;
        }))
    else ok currency_code
