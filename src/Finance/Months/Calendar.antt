-- ===== src/Finance/Months/Calendar.antt =====
-- Months numbered one after the other, and the steps of services/finance/internal/service/prorata.go
-- on those numbers.
use gofin.Prelude.{
  ltb, if◌then◌else◌, ℕ, zero, suc, ◌+◌, ◌-◌, ◌*◌, ◌/◌, ◌%◌, ◌^◌, ◌≤◌, ◌<◌, ◌≡◌, List, [], ◌∷◌,
  arith,
}
use gofin.Prelude.Int.{wrap32_pos, add_pos, pos}
use gofin.Finance.Months.{pos, YearMonth, advance_month}

-- The month with number o; number 0 is January of year 0.
unfoldable pub month_at : ℕ → YearMonth
month_at o = record { year = pos (o / 12); month = pos (o % 12 + 1) }

-- The n months from number o on.
unfoldable pub months_from : ℕ → ℕ → List YearMonth
months_from o zero = []
months_from o (suc n) = month_at o ∷ months_from (o + 1) n

-- The largest number whose year is an int32.
abbrev pub last_ordinal : ℕ
last_ordinal = 12 * 2 ^ 31 - 1

advance_pos :
    (y m : ℕ)
    → y < 2 ^ 31 - 1
    → m ≤ 12
    → advance_month (pos y) (pos m) ≡ (
        if ltb 12 (m + 1)
        then record { year = pos (y + 1); month = pos 1 }
        else record { year = pos y; month = pos (m + 1) })
unfolding advance_month
advance_pos y m hy hm =
    rw
      (add_pos m 1, wrap32_pos (m + 1) (omega arith), add_pos y 1, wrap32_pos (y + 1) (omega arith))
      (ground arith)

-- One step of `AdvanceMonth` is the next number.
pub advance-month_at :
    (o : ℕ)
    → o + 12 < last_ordinal
    → advance_month (month_at o).year (month_at o).month ≡ month_at (o + 1)
unfolding month_at
advance-month_at o h =
    rw (advance_pos (o / 12) (o % 12 + 1) (omega arith) (omega arith)) (ground arith)
