-- ===== src/Fx/Decimal.antt =====
-- services/fx/internal/service/decimal.go on fractions that are not reduced to lowest
-- terms, which changes no value.
pub mod Rounding
use gofin.Prelude.{
  leb, ◌==◌, if◌then◌else◌, ℕ, zero, suc, ◌+◌, ◌-◌, ◌*◌, ◌/◌, ◌%◌, ◌^◌, String, str_append, ◌||◌,
  Option, none, some, [], ◌∷◌, str_eq,
}
use gofin.Prelude.Int.{negsuc, ◌-ℤ◌, neg_part, pos, pos_part, ℤ, leb_ℤ, ◌*ℤ◌}
use gofin.Prelude.Format.{show_padded, show_ℕ}
use Prim.Native.Char.{code, Char}

-- `big.Rat`: the denominator is positive.
pub record Rat : Type 0 where
  pub num : ℤ
  pub den : ℕ

-- `parsePositiveRat`, where `set_string` is `Rat.SetString`.
unfoldable pub parse_positive_rat : (String → Option Rat) → String → Option Rat
parse_positive_rat set_string value = elim (set_string value) [
  | none ↦ none
  | some r ↦ if leb_ℤ r.num (pos 0) then none else some r
]

unfoldable pub scale_factor : ℕ → ℕ
scale_factor zero = 1
scale_factor (suc digits) = scale_factor digits * 10

unfoldable pub minor_to_major : ℤ → ℕ → Rat
unfolding scale_factor
minor_to_major amount digits = record { num = amount; den = scale_factor digits }

-- The quotient of two rationals whose divisor is positive, and the product.
abbrev pub rat_quo : Rat → Rat → Rat
rat_quo a b = record { num = a.num *ℤ pos b.den; den = a.den * pos_part b.num }

abbrev pub rat_mul : Rat → Rat → Rat
rat_mul a b = record { num = a.num *ℤ b.num; den = a.den * b.den }

-- The rounded quotient of magnitudes.
unfoldable pub round_half_up : ℕ → ℕ → ℕ
round_half_up n d = if leb d (2 * (n % d)) then n / d + 1 else n / d

abbrev pub max_int64 : ℕ
max_int64 = 2 ^ 63 - 1

unfoldable pub round_half_away_from_zero : Rat → ℤ
unfolding round_half_up
round_half_away_from_zero value =
    let rounded = round_half_up (pos_part value.num + neg_part value.num) value.den in
    if leb_ℤ (pos 0) value.num
    then if leb rounded max_int64 then pos rounded else pos max_int64
    else if leb rounded (2 ^ 63)
    then pos 0 -ℤ pos rounded
    else negsuc (2 ^ 63 - 1)

unfoldable pub major_to_rounded_minor : Rat → ℕ → ℤ
unfolding scale_factor round_half_away_from_zero
major_to_rounded_minor amount digits =
    round_half_away_from_zero (rat_mul amount (record { num = pos (scale_factor digits); den = 1 }))

-- `strings.TrimRight(s, c)` for one character: whether anything is left after it is known from the end.
abbrev push_trimmed : ℕ → Char → String → String
push_trimmed t c String.[] = if code c == t then "" else String.◌∷◌ c String.[]
push_trimmed t c s = String.◌∷◌ c s

unfoldable pub trim_right_char : ℕ → String → String
trim_right_char t String.[] = ""
trim_right_char t (String.◌∷◌ c s) = push_trimmed t c (trim_right_char t s)

-- `decimalString` of a positive rational: `FloatString(18)` rounds half away from zero.
unfoldable pub decimal_string : Rat → String
unfolding trim_right_char round_half_up show_ℕ show_padded
decimal_string value =
    let scaled = round_half_up (pos_part value.num * 10 ^ 18) value.den in
    let text =
      str_append (show_ℕ (scaled / 10 ^ 18))
        (str_append "." (show_padded 18 (pos (scaled % 10 ^ 18)))) in
    let out = trim_right_char b'.' (trim_right_char b'0' text) in
    if str_eq out "" || str_eq out "-" then "0" else out
