-- ===== src/Fx/Converter.antt =====
-- services/fx/internal/service/converter.go and services/fx/internal/cache/rates.go.
pub mod Coverage
pub mod Nearest
use gofin.Prelude.{
  if◌then◌else◌, is_empty, String, not, ◌||◌, Option, none, some, List, [], ◌∷◌, str_eq,
}
use gofin.Fx.Model.{
  refused, conversion_unavailable, unsupported_currency, rate_missing, invalid_amount,
  snapshot_integrity_failure, SnapshotResult, ConvertResponse, fx_error, done, FxError,
  ProviderSnapshot, Answer, Rates, ConvertRequest, ConvertWithSnapshotRequest, ◌>>=◌,
}
use gofin.Fx.Decimal.{
  rat_quo, rat_mul, major_to_rounded_minor, minor_to_major, parse_positive_rat, Rat, decimal_string,
}
use gofin.Prelude.Int.{◌-ℤ◌, ◌+ℤ◌, leb_ℤ, eqb_ℤ, pos, ℤ}
use gofin.Finance.Model.{CapturedRateSnapshot}
use gofin.Currency.{is_supported, supported_currencies, Definition, get}

-- The provider's answer to a fetch: an error that is not a typed one is `unexpected`.
pub data Fetched : Type 0 where
  fetched : ProviderSnapshot → Fetched
  typed : FxError → Fetched
  unexpected : Fetched

-- What the converter calls: the decimal and time parsers of Go's library, which the theorems leave
-- open, the clock's format, the provider, and the age from which a snapshot is stale. Times are in
-- nanoseconds.
pub record Services : Type 0 where
  pub set_string : String → Option Rat
  pub parse_time : String → Option ℤ
  pub format_time : ℤ → String
  pub fetch_latest : ℤ → Fetched
  pub max_age : ℤ

abbrev pub cache_hit : String
cache_hit = "hit"

abbrev pub cache_miss : String
cache_miss = "miss"

abbrev pub cache_provided : String
cache_provided = "provided_snapshot"

abbrev pub open_exchange_rates : String
open_exchange_rates = "open_exchange_rates"

-- `RateCache.GetFresh`; the copies of the source are the values themselves.
unfoldable pub get_fresh : Services → ℤ → Option ProviderSnapshot → Option ProviderSnapshot
get_fresh fx now none = none
get_fresh fx now (some s) = elim (fx.parse_time s.captured_at) [
  | none ↦ none
  | some captured ↦ if leb_ℤ fx.max_age (now -ℤ captured) then none else some s
]

unfoldable pub currency_definition : String → String → Answer Definition
unfolding get
currency_definition code field = elim (get code) [
  | none ↦ fx_error unsupported_currency field
  | some d ↦ done d
]

unfoldable pub validate_conversion : ℤ → String → String → Answer (Definition × Definition)
unfolding currency_definition
validate_conversion amount source_currency target_currency =
    let definitions = do
      source ← currency_definition source_currency "sourceCurrency"
      target ← currency_definition target_currency "targetCurrency"
      done (source, target)
    in if leb_ℤ amount (pos 0) then fx_error invalid_amount "amount" else definitions

unfoldable pub rate_text : String → Rates → String
rate_text currency [] = ""
rate_text currency ((c, r) ∷ rates) = if str_eq c currency then r else rate_text currency rates

unfoldable pub rate_for_currency : Services → Rates → String → Answer Rat
unfolding rate_text parse_positive_rat
rate_for_currency fx rates currency =
    let value = rate_text currency rates in
    if str_eq value ""
    then fx_error rate_missing currency
    else elim (parse_positive_rat fx.set_string value) [
      | none ↦ fx_error rate_missing currency
      | some r ↦ done r
    ]

-- The amount through both rates.
unfoldable pub converted : ℤ → Definition → Definition → Rat → Rat → ℤ
unfolding minor_to_major major_to_rounded_minor
converted amount source target source_rate target_rate =
    major_to_rounded_minor
      (rat_mul (minor_to_major amount source.minor_unit_digits) (rat_quo target_rate source_rate))
      target.minor_unit_digits

abbrev pub answer_with :
    ℤ → Definition → Definition → String → String → String → String → Rat → Rat → ConvertResponse
unfolding converted decimal_string
answer_with amount source target rate_timestamp expires_at cache_status snapshot_source source_rate
      target_rate =
    record {
      converted_amount = converted amount source target source_rate target_rate;
      source_currency = source.code;
      target_currency = target.code;
      exchange_rate = decimal_string (rat_quo target_rate source_rate);
      rate_timestamp = rate_timestamp;
      source = snapshot_source;
      cache_status = cache_status;
      expires_at = expires_at;
    }

unfoldable pub convert_from_rates :
    Services
    → ℤ
    → Definition
    → Definition
    → Rates
    → String
    → String
    → String
    → String
    → Answer ConvertResponse
unfolding rate_for_currency answer_with
convert_from_rates fx amount source target rates rate_timestamp expires_at cache_status
      snapshot_source =
    do
      source_rate ← rate_for_currency fx rates source.code
      target_rate ← rate_for_currency fx rates target.code
      done (
          answer_with amount source target rate_timestamp expires_at cache_status snapshot_source
            source_rate target_rate)

-- The cache's snapshot, before and after a call.
abbrev pub Cache : Type 0
Cache = Option ProviderSnapshot

-- `later` and `found` are the clock and the cache when a failed fetch returns: another call may have
-- stored a snapshot in the meantime.
unfoldable pub provider_snapshot :
    Services → ℤ → ℤ → Cache → Cache → Cache × Answer (ProviderSnapshot × String)
unfolding get_fresh
provider_snapshot fx now later cache found = elim (get_fresh fx now cache) [
  | some s ↦ (cache, done (s, cache_hit))
  | none ↦ elim (fx.fetch_latest (now +ℤ fx.max_age)) [
    | fetched s ↦ (some s, done (s, cache_miss))
    | typed e ↦ elim (get_fresh fx later found) [
      | some s ↦ (found, done (s, cache_hit))
      | none ↦ (found, refused e)
    ]
    | unexpected ↦ elim (get_fresh fx later found) [
      | some s ↦ (found, done (s, cache_hit))
      | none ↦ (found, fx_error conversion_unavailable "")
    ]
  ]
]

unfoldable pub supported_rates : Rates → Rates
unfolding is_supported
supported_rates [] = []
supported_rates ((c, r) ∷ rates) =
    if is_supported c then (c, r) ∷ supported_rates rates else supported_rates rates

unfoldable pub to_captured_snapshot : ProviderSnapshot → CapturedRateSnapshot
unfolding supported_rates
to_captured_snapshot s = record {
  snapshot_version = pos 1;
  source = s.source;
  base_currency = s.base_currency;
  rate_timestamp = s.rate_timestamp;
  captured_at = s.captured_at;
  expires_at = s.expires_at;
  rates_by_currency = supported_rates s.rates;
}

-- The loops of `requireFullSupportedRates` and of the checks on the required currencies.
unfoldable pub require_rates : Services → List Definition → Rates → Answer Unit
unfolding rate_for_currency
require_rates fx [] rates = done tt
require_rates fx (d ∷ ds) rates =
    rate_for_currency fx rates d.code >>= λ r. require_rates fx ds rates

unfoldable pub require_full_supported_rates : Services → Rates → Answer Unit
unfolding require_rates supported_currencies
require_full_supported_rates fx rates = require_rates fx supported_currencies rates

unfoldable pub require_currencies : List String → Answer Unit
unfolding currency_definition
require_currencies [] = done tt
require_currencies (c ∷ cs) =
    currency_definition c "requiredCurrencies" >>= λ d. require_currencies cs

abbrev captured_answer : Services → Answer (ProviderSnapshot × String) → Answer SnapshotResult
unfolding to_captured_snapshot require_full_supported_rates
captured_answer fx (refused e) = refused e
captured_answer fx (done (s, status)) =
    let captured = to_captured_snapshot s in
    require_full_supported_rates fx captured.rates_by_currency >>= λ u.
    done (record { snapshot = captured; cache_status = status })

unfoldable pub capture_snapshot :
    Services → ℤ → ℤ → Cache → Cache → List String → Cache × Answer SnapshotResult
unfolding require_currencies provider_snapshot captured_answer
capture_snapshot fx now later cache found required = elim (require_currencies required) [
  | refused e ↦ (cache, refused e)
  | done u ↦
      let (cache', answer) = provider_snapshot fx now later cache found in
      (cache', captured_answer fx answer)
]

unfoldable pub validate_snapshot : CapturedRateSnapshot → Answer Unit
validate_snapshot s =
    if not (eqb_ℤ s.snapshot_version (pos 1))
      || not (str_eq s.source open_exchange_rates)
      || not (str_eq s.base_currency "USD")
    then fx_error snapshot_integrity_failure "snapshot"
    else if str_eq s.rate_timestamp ""
        || str_eq s.captured_at ""
        || str_eq s.expires_at ""
        || is_empty s.rates_by_currency
    then fx_error snapshot_integrity_failure "snapshot"
    else done tt

unfoldable pub convert_with_snapshot :
    Services → ConvertWithSnapshotRequest → Answer ConvertResponse
unfolding validate_conversion validate_snapshot convert_from_rates
convert_with_snapshot fx request = do
  (source, target) ←
      validate_conversion request.amount request.source_currency request.target_currency
  u ← validate_snapshot request.snapshot
  convert_from_rates fx request.amount source target request.snapshot.rates_by_currency
      request.snapshot.rate_timestamp request.snapshot.expires_at cache_provided
      request.snapshot.source

abbrev fallback_timestamp : Services → String → ℤ → String
fallback_timestamp fx requested_at now =
    if str_eq requested_at "" then fx.format_time now else requested_at

abbrev identity_response : Services → ConvertRequest → ℤ → ConvertResponse
identity_response fx request now = record {
  converted_amount = request.amount;
  source_currency = request.source_currency;
  target_currency = request.target_currency;
  exchange_rate = "1";
  rate_timestamp = fallback_timestamp fx request.requested_at now;
  source = "identity";
  cache_status = cache_hit;
  expires_at = "";
}

abbrev converted_answer :
    Services
    → ConvertRequest
    → Definition
    → Definition
    → Answer (ProviderSnapshot × String)
    → Answer ConvertResponse
unfolding convert_from_rates
converted_answer fx request source target (refused e) = refused e
converted_answer fx request source target (done (s, status)) =
    convert_from_rates fx request.amount source target s.rates s.rate_timestamp s.expires_at status
      open_exchange_rates

unfoldable pub convert :
    Services → ℤ → ℤ → Cache → Cache → ConvertRequest → Cache × Answer ConvertResponse
unfolding validate_conversion provider_snapshot converted_answer
convert fx now later cache found request =
    elim (validate_conversion request.amount request.source_currency request.target_currency) [
      | refused e ↦ (cache, refused e)
      | done (source, target) ↦
          let (cache', answer) = provider_snapshot fx now later cache found in
          if str_eq request.source_currency request.target_currency
          then (cache, done (identity_response fx request now))
          else (cache', converted_answer fx request source target answer)
    ]
