-- ===== src/Expense/Model.antt =====
-- services/expense/internal/model, and what the service asks of the finance and fx services.
use gofin.Prelude.{String, Bool, Option}
use gofin.Finance.Model.{CapturedRateSnapshot}
use gofin.Api.{Error, Result}
use gofin.Prelude.Int.{ℤ}

pub record Expense : Type 0 where
  pub id : String
  pub user_id : String
  pub name : String
  pub transaction_currency_code : String
  pub expense_type : String
  pub tag_id : String
  pub expense_date_iso : String
  pub period_year : ℤ
  pub period_month : ℤ
  pub status : String
  pub corrects_id : String
  pub is_pro_rata : Bool
  pub pro_rata_group : String
  pub pro_rata_index : ℤ
  pub pro_rata_total : ℤ
  pub created_at : String
  pub original_transaction_amount : ℤ
  pub reporting_amount : ℤ
  pub reporting_currency_code : String
  pub exchange_rate : String
  pub exchange_rate_source : String
  pub exchange_rate_timestamp : String
  pub exchange_rate_cache_expires_at : String
  pub idempotency_key : String

pub record CreateExpenseRequest : Type 0 where
  pub name : String
  pub amount : ℤ
  pub transaction_currency_code : String
  pub expense_type : String
  pub tag_id : String
  pub expense_date_iso : String
  pub period_year : ℤ
  pub period_month : ℤ
  pub is_pro_rata : Bool
  pub pro_rata_group : String
  pub pro_rata_index : ℤ
  pub pro_rata_total : ℤ
  pub idempotency_key : String

pub record CorrectExpenseRequest : Type 0 where
  pub name : String
  pub amount : ℤ
  pub transaction_currency_code : String
  pub expense_type : String
  pub tag_id : String
  pub expense_date_iso : String

pub record FxConvertRequest : Type 0 where
  pub amount : ℤ
  pub source_currency : String
  pub target_currency : String
  pub requested_at : String

pub record FxConvertResponse : Type 0 where
  pub converted_amount : ℤ
  pub exchange_rate : String
  pub rate_timestamp : String
  pub source : String
  pub expires_at : String

-- The clock of a call: its UTC year and month, and its text.
pub record Clock : Type 0 where
  pub year : ℤ
  pub month : ℤ
  pub text : String

-- The reporting currency that the finance service gives for a period, the answer of the fx service,
-- and the failures of the database's statements by the name of the repository's method; a method of
-- two statements has a name for each.
pub record Peers : Type 0 where
  pub reporting_currency : String → ℤ → ℤ → Result String
  pub convert_amount : FxConvertRequest → Result FxConvertResponse
  pub convert_with_snapshot :
      FxConvertRequest → Option CapturedRateSnapshot → Result FxConvertResponse
  pub statement : String → Option Error
