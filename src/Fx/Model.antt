-- ===== src/Fx/Model.antt =====
-- services/fx/internal/model.
use gofin.Prelude.{String, List}
use gofin.Finance.Model.{CapturedRateSnapshot}
use gofin.Prelude.Int.{ℤ}

pub data ErrorCode : Type 0 where
  unsupported_currency : ErrorCode
  invalid_amount : ErrorCode
  conversion_unavailable : ErrorCode
  provider_auth_failed : ErrorCode
  provider_response_invalid : ErrorCode
  rate_missing : ErrorCode
  snapshot_integrity_failure : ErrorCode

-- The typed error, without the text that it wraps.
pub record FxError : Type 0 where
  pub error_code : ErrorCode
  pub field : String

pub data Answer (A : Type 0) : Type 0 where
  done : A → Answer A
  refused : FxError → Answer A

infixl 5 ◌>>=◌
abbrev pub ◌>>=◌ : {A B : Type 0} → Answer A → (A → Answer B) → Answer B
done a >>= f = f a
refused e >>= f = refused e

abbrev pub fx_error : {A : Type 0} → ErrorCode → String → Answer A
fx_error error_code field = refused (record { error_code = error_code; field = field })

-- Go's map from a currency code to a decimal text.
abbrev pub Rates : Type 0
Rates = List (String × String)

pub record ProviderSnapshot : Type 0 where
  pub source : String
  pub base_currency : String
  pub rate_timestamp : String
  pub captured_at : String
  pub expires_at : String
  pub rates : Rates

pub record SnapshotResult : Type 0 where
  pub snapshot : CapturedRateSnapshot
  pub cache_status : String

pub record ConvertRequest : Type 0 where
  pub amount : ℤ
  pub source_currency : String
  pub target_currency : String
  pub requested_at : String

pub record ConvertWithSnapshotRequest : Type 0 where
  pub amount : ℤ
  pub source_currency : String
  pub target_currency : String
  pub snapshot : CapturedRateSnapshot

pub record ConvertResponse : Type 0 where
  pub converted_amount : ℤ
  pub source_currency : String
  pub target_currency : String
  pub exchange_rate : String
  pub rate_timestamp : String
  pub source : String
  pub cache_status : String
  pub expires_at : String
