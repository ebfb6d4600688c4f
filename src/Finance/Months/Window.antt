-- ===== src/Finance/Months/Window.antt =====
-- The window of `GetSpendingTrends` (services/finance/internal/service/dashboard.go).
use gofin.Prelude.{
  ◌==◌, if◌then◌else◌, ℕ, zero, suc, ◌+◌, ◌-◌, ◌/◌, ◌%◌, ◌^◌, ◌≤◌, ◌<◌, ◌≡◌, ap, ◌∙◌, [], ◌∷◌, ◌++◌,
  reverse, arith,
}
use mathlib.Core.List.{reverse-cons}
use gofin.Finance.Months.{window_back, pos, retreat_month, trend_window}
use gofin.Prelude.Int.{wrap32_pos, sub_pos, pos}
use gofin.Finance.Months.Calendar.{last_ordinal, months_from, month_at}

retreat_pos :
    (y m : ℕ)
    → y < 2 ^ 31
    → m ≤ 12
    → 1 ≤ m
    → 1 ≤ y
    → retreat_month (record { year = pos y; month = pos m }) ≡ (
        if m == 1
        then record { year = pos (y - 1); month = pos 12 }
        else record { year = pos y; month = pos (m - 1) })
unfolding retreat_month
retreat_pos y m hy hm lo some_year =
    rw
      (
        sub_pos m 1 lo,
        wrap32_pos (m - 1) (omega arith),
        sub_pos y 1 some_year,
        wrap32_pos (y - 1) (omega arith),
      )
      (ground arith)

-- One step back is the number before; the first year is left to January alone.
retreat-month_at :
    (o : ℕ) → 12 ≤ o → o < last_ordinal → retreat_month (month_at (o + 1)) ≡ month_at o
unfolding month_at
retreat-month_at o lo h =
    rw
      (retreat_pos ((o + 1) / 12) ((o + 1) % 12 + 1) (omega arith) (omega arith) (omega arith)
        (omega arith))
      (ground arith)

months_from-last : (o n : ℕ) → months_from o (suc n) ≡ months_from o n ++ month_at (o + n) ∷ []
unfolding months_from
months_from-last o zero = ground arith
months_from-last o (suc n) =
    let e : o + suc n ≡ o + 1 + n = omega arith in rw (months_from-last (o + 1) n, e)

window_back-step :
    (o n : ℕ)
    → 12 ≤ o
    → o < last_ordinal
    → window_back (suc n) (month_at (o + 1)) ≡ month_at (o + 1) ∷ window_back n (month_at o)
unfolding window_back
window_back-step o n lo h = rw (retreat-month_at o lo h)

reverse-window_back :
    (o n : ℕ)
    → 12 ≤ o
    → o + n < last_ordinal
    → reverse (window_back (suc n) (month_at (o + n))) ≡ months_from o (suc n)
reverse-window_back o zero lo h = unfold months_from window_back in ground arith
reverse-window_back o (suc n) lo h =
    let e : o + suc n ≡ o + n + 1 = omega arith in
    rw (e, window_back-step (o + n) (suc n) (omega arith) (omega arith))
      (reverse-cons (month_at (o + n + 1)) (window_back (suc n) (month_at (o + n)))
        ∙ ap (λ ms. ms ++ month_at (o + n + 1) ∷ []) (reverse-window_back o n lo (omega arith))
        ∙ rw (months_from-last o (suc n), e))

-- The window of months that ends at a month is, in order, that month and the ones before it, as many
-- as asked for: from month number o, of year 1 or later, to number o + n, before December of the last
-- int32 year, there are n + 1.
pub trend_window_lem :
    (o n : ℕ)
    → 12 ≤ o
    → o + n < last_ordinal
    → trend_window (month_at (o + n)) (suc n) ≡ months_from o (suc n)
trend_window_lem o n lo h = unfold trend_window in reverse-window_back o n lo h
