-- ===== src/Currency.antt =====
-- services/shared/currency/catalog.go, and `normalizeCurrencyCode` of the finance and expense
-- services.
use gofin.Prelude.{
  if◌then◌else◌, is_some, ℕ, String, Bool, Option, none, some, List, [], ◌∷◌, str_eq,
}
use gofin.Prelude.Text.{trim_space, to_upper}

pub record Definition : Type 0 where
  pub code : String
  pub symbol : String
  pub name : String
  pub minor_unit_digits : ℕ

abbrev definition : String → String → String → ℕ → Definition
definition code symbol name digits = record {
  code = code;
  symbol = symbol;
  name = name;
  minor_unit_digits = digits;
}

unfoldable pub supported_currencies : List Definition
supported_currencies =
    definition "USD" "$" "US Dollar" 2
    ∷ definition "EUR" "€" "Euro" 2
    ∷ definition "GBP" "£" "British Pound" 2
    ∷ definition "JPY" "¥" "Japanese Yen" 0
    ∷ definition "CAD" "C$" "Canadian Dollar" 2
    ∷ definition "AUD" "A$" "Australian Dollar" 2
    ∷ definition "CHF" "CHF" "Swiss Franc" 2
    ∷ definition "CNY" "¥" "Chinese Yuan" 2
    ∷ definition "SGD" "S$" "Singapore Dollar" 2
    ∷ definition "HKD" "HK$" "Hong Kong Dollar" 2
    ∷ []

-- The loop of `Get`.
unfoldable pub get_in : List Definition → String → Option Definition
get_in [] code = none
get_in (d ∷ ds) code = if str_eq d.code code then some d else get_in ds code

unfoldable pub get : String → Option Definition
unfolding get_in supported_currencies
get = get_in supported_currencies

unfoldable pub is_supported : String → Bool
unfolding get
is_supported code = is_some (get code)

unfoldable pub normalize_currency_code : String → String
unfolding to_upper trim_space
normalize_currency_code currency_code = to_upper (trim_space currency_code)
