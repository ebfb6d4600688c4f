-- ===== src/Finance/Model.antt =====
-- services/finance/internal/model and the expense contract of the finance service. Database
-- timestamps that no rule reads are left out.
use gofin.Prelude.{String, Option, List}
use gofin.Prelude.Int.{ℤ}

pub record BudgetPeriod : Type 0 where
  pub id : String
  pub user_id : String
  pub year : ℤ
  pub month : ℤ
  pub budget_amount : ℤ
  pub reporting_currency_code : String
  pub essentials_percent : ℤ
  pub desires_percent : ℤ
  pub savings_percent : ℤ

pub record DefaultSettings : Type 0 where
  pub user_id : String
  pub budget_amount : ℤ
  pub essentials_percent : ℤ
  pub desires_percent : ℤ
  pub savings_percent : ℤ
  pub currency : String

pub record CapturedRateSnapshot : Type 0 where
  pub snapshot_version : ℤ
  pub source : String
  pub base_currency : String
  pub rate_timestamp : String
  pub captured_at : String
  pub expires_at : String
  pub rates_by_currency : List (String × String)

-- The values of the source's status column.
pub data ScheduleStatus : Type 0 where
  pending : ScheduleStatus
  applied : ScheduleStatus
  failed : ScheduleStatus

pub record ProRataSchedule : Type 0 where
  pub id : String
  pub user_id : String
  pub pro_rata_group : String
  pub name : String
  pub installment_amount : ℤ
  pub currency : String
  pub expense_type : String
  pub tag_id : String
  pub target_year : ℤ
  pub target_month : ℤ
  pub installment_index : ℤ
  pub installment_total : ℤ
  pub status : ScheduleStatus
  pub original_transaction_amount : ℤ
  pub transaction_currency_code : String
  pub creation_reporting_currency : String
  pub captured_rate_snapshot : Option CapturedRateSnapshot
  pub failure_reason : String

pub record ExpenseData : Type 0 where
  pub id : String
  pub reporting_amount : ℤ
  pub reporting_currency_code : String
  pub expense_type : String
  pub tag_id : String
  pub expense_date : String
