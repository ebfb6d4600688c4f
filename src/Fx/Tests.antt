-- ===== src/Fx/Tests.antt =====
-- Runs of the fx service's model, and its theorems at concrete inputs.
use gofin.Prelude.{if◌then◌else◌, String, ◌≡◌, refl, Option, none, some, [], ◌∷◌, arith, str_eq}
use gofin.Prelude.Int.{◌*ℤ◌, ◌+ℤ◌, pos}
use gofin.Fx.Converter.Nearest.{convert_from_rates-IsNearest, IsNearest, converted-same}
use gofin.Fx.Converter.{
  rate_for_currency, fetched, convert_from_rates, to_captured_snapshot, capture_snapshot, converted,
  Services,
}
use gofin.Fx.Converter.Coverage.{capture_snapshot-Covers, OnlySupported, Covers}
use gofin.Fx.Model.{done, SnapshotResult, ConvertResponse, Rates, ProviderSnapshot}
use gofin.Currency.{supported_currencies, Definition}
use gofin.Fx.Decimal.{Rat}

abbrev usd : Definition
usd = record { code = "USD"; symbol = "$"; name = "US Dollar"; minor_unit_digits = 2 }

abbrev jpy : Definition
jpy = record { code = "JPY"; symbol = "¥"; name = "Japanese Yen"; minor_unit_digits = 0 }

-- A parser that reads the two rates of the tests, and 1 for any other text.
abbrev read_rate : String → Option Rat
read_rate s =
    if str_eq s "149.5"
    then some (record { num = pos 299; den = 2 })
    else some (record { num = pos 1; den = 1 })

abbrev provider_rates : Rates
provider_rates =
    ("USD", "1")
    ∷ ("EUR", "1")
    ∷ ("GBP", "1")
    ∷ ("JPY", "149.5")
    ∷ ("CAD", "1")
    ∷ ("AUD", "1")
    ∷ ("CHF", "1")
    ∷ ("CNY", "1")
    ∷ ("SGD", "1")
    ∷ ("HKD", "1")
    ∷ ("XAU", "1")
    ∷ []

abbrev latest : ProviderSnapshot
latest = record {
  source = "open_exchange_rates";
  base_currency = "USD";
  rate_timestamp = "2026-01-15T00:00:00Z";
  captured_at = "2026-01-15T10:00:00Z";
  expires_at = "2026-01-16T10:00:00Z";
  rates = provider_rates;
}

abbrev services : Services
services = record {
  set_string = read_rate;
  parse_time = λ s. some (pos 0);
  format_time = λ t. "2026-01-15T10:00:00Z";
  fetch_latest = λ t. fetched latest;
  max_age = pos 100;
}

-- 10.01 dollars at 149.5 are 1496.495 yen.
yen_run :
    converted
      (pos 1001)
      usd
      jpy
      (record { num = pos 1; den = 1 })
      (record { num = pos 299; den = 2 })
    ≡ pos 1496
unfolding converted ◌*ℤ◌
yen_run = refl

convert_from_rates-IsNearest_example :
    (response : ConvertResponse) × (convert_from_rates services
        (pos 1001)
        usd
        jpy
        provider_rates
        "t"
        "e"
        "hit"
        "open_exchange_rates"
      ≡ done response)
    × IsNearest 1001 usd jpy 1 1 299 2 response.converted_amount
convert_from_rates-IsNearest_example =
    convert_from_rates-IsNearest services 1001 usd jpy provider_rates "t" "e" "hit"
      "open_exchange_rates" 1 1 299 2 usd_rate jpy_rate (omega arith) (omega arith)
  where
    usd_rate :
        rate_for_currency services provider_rates "USD" ≡ done (record { num = pos 1; den = 1 })
    usd_rate = unfold rate_for_currency in refl

    jpy_rate :
        rate_for_currency services provider_rates "JPY" ≡ done (record { num = pos 299; den = 2 })
    jpy_rate = unfold rate_for_currency in refl

converted-same_example :
    converted
      (pos 1001)
      usd
      usd
      (record { num = pos 299; den = 2 })
      (record { num = pos 299; den = 2 })
    ≡ pos 1001
converted-same_example = converted-same 1001 usd 299 2 (omega arith) (omega arith) (omega arith)

abbrev captured : SnapshotResult
unfolding to_captured_snapshot
captured = record { snapshot = to_captured_snapshot latest; cache_status = "miss" }

captured_run :
    (capture_snapshot services (pos 50) (pos 60) none none ("GBP" ∷ [])).1 ≡ done captured
unfolding capture_snapshot to_captured_snapshot ◌+ℤ◌
captured_run = refl

capture_snapshot-Covers_example :
    Covers services captured.snapshot.rates_by_currency supported_currencies
    × OnlySupported captured.snapshot.rates_by_currency
capture_snapshot-Covers_example =
    capture_snapshot-Covers services (pos 50) (pos 60) none none ("GBP" ∷ []) captured captured_run
