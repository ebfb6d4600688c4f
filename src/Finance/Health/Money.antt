-- ===== src/Finance/Health/Money.antt =====
-- services/finance/internal/service/healthscore_money.go.
use Prim.Native.String.{[], ◌∷◌}
use gofin.Prelude.{ltb, ◌==◌, if◌then◌else◌, ℕ, suc, ◌%◌, String, str_append, ◌&&◌, [], ◌∷◌, str_eq}
use gofin.Prelude.Int.{eqb_ℤ, ◌*ℤ◌, quot, ◌-ℤ◌, wrap64, pos, ltb_ℤ, ℤ}
use gofin.Prelude.Format.{show_ℤ}

-- A code without a glyph is written out.
unfoldable pub currency_symbol : String → String
currency_symbol code =
    if str_eq code "USD"
    then "$"
    else if str_eq code "EUR"
    then "€"
    else if str_eq code "GBP"
    then "£"
    else if str_eq code "JPY"
    then "¥"
    else str_append code " "

unfoldable pub two_digits : ℤ → String
unfolding show_ℤ
two_digits remainder =
    if ltb_ℤ remainder (pos 10) then str_append "0" (show_ℤ remainder) else show_ℤ remainder

abbrev pub count_chars : String → ℕ
count_chars [] = 0
count_chars (c ∷ s) = suc (count_chars s)

-- A comma goes behind a digit that has whole groups of three behind it.
unfoldable pub group_digits : String → String
group_digits [] = ""
group_digits (c ∷ s) =
    let rest = group_digits s in
    if ltb 0 (count_chars s) && ((count_chars s % 3) == 0)
    then c ∷ str_append "," rest
    else c ∷ rest

unfoldable pub with_thousands_separators : ℤ → String
unfolding group_digits show_ℤ
with_thousands_separators n = group_digits (show_ℤ n)

unfoldable pub format_money : ℤ → String → String
unfolding two_digits with_thousands_separators
format_money cents symbol =
    let negative = ltb_ℤ cents (pos 0) in
    let amount = if negative then wrap64 (pos 0 -ℤ cents) else cents in
    let dollars = quot amount 100 in
    let remainder = amount -ℤ (dollars *ℤ pos 100) in
    let whole_part = str_append symbol (with_thousands_separators dollars) in
    let formatted =
      if eqb_ℤ remainder (pos 0)
      then whole_part
      else str_append whole_part (str_append "." (two_digits remainder)) in
    if negative then str_append "-" formatted else formatted
