-- ===== src/Finance/Months.antt =====
-- Months as services/finance/internal/service/prorata.go and dashboard.go step through them.
pub mod Calendar
pub mod Missed
pub mod Window
use mathlib.Core.Option
use gofin.Prelude.{
  if◌then◌else◌, ℕ, zero, suc, ◌+◌, ◌*◌, Bool, ◌&&◌, ◌||◌, Option, none, some, List, [], ◌∷◌,
  reverse,
}
use gofin.Prelude.Int.{leb_ℤ, eqb_ℤ, pos, pos_part, ltb_ℤ, ◌+ℤ◌, ◌-ℤ◌, wrap32, ℤ}

pub record YearMonth : Type 0 where
  pub year : ℤ
  pub month : ℤ

unfoldable pub advance_month : ℤ → ℤ → YearMonth
advance_month year month =
    let next = wrap32 (month +ℤ pos 1) in
    if ltb_ℤ (pos 12) next
    then record { year = wrap32 (year +ℤ pos 1); month = pos 1 }
    else record { year = year; month = next }

-- The exit test of `computeMissedMonths`.
abbrev pub is_past : YearMonth → ℤ → ℤ → Bool
is_past ym target_year target_month =
    ltb_ℤ target_year ym.year || (eqb_ℤ ym.year target_year && leb_ℤ target_month ym.month)

-- The loop of `computeMissedMonths`, from the month before the next round; `none` is a loop that
-- has not ended when the fuel is spent.
unfoldable pub missed_from : ℕ → YearMonth → ℤ → ℤ → Option (List YearMonth)
missed_from zero ym target_year target_month = none
missed_from (suc fuel) ym target_year target_month =
    let next = advance_month ym.year ym.month in
    let rest = missed_from fuel next target_year target_month in
    if is_past next target_year target_month then some [] else Option.map (λ ms. next ∷ ms) rest

-- Twelve rounds for each year between the two, and two more years' worth.
abbrev pub rounds : ℤ → ℤ → ℕ
rounds last_year target_year = 12 * pos_part (target_year -ℤ last_year) + 24

unfoldable pub compute_missed_months : ℤ → ℤ → ℤ → ℤ → Option (List YearMonth)
unfolding missed_from
compute_missed_months last_year last_month target_year target_month =
    missed_from (rounds last_year target_year) (record { year = last_year; month = last_month })
      target_year target_month

-- The backwards step of `GetSpendingTrends`.
unfoldable pub retreat_month : YearMonth → YearMonth
retreat_month ym =
    let previous = wrap32 (ym.month -ℤ pos 1) in
    if eqb_ℤ previous (pos 0)
    then record { year = wrap32 (ym.year -ℤ pos 1); month = pos 12 }
    else record { year = ym.year; month = previous }

-- The loop that collects the window, from the anchor backwards, and its reversal.
unfoldable pub window_back : ℕ → YearMonth → List YearMonth
window_back zero ym = []
window_back (suc n) ym = ym ∷ window_back n (retreat_month ym)

unfoldable pub trend_window : YearMonth → ℕ → List YearMonth
unfolding window_back
trend_window anchor months = reverse (window_back months anchor)
