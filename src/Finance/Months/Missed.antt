-- ===== src/Finance/Months/Missed.antt =====
-- `computeMissedMonths` of services/finance/internal/service/prorata.go.
use gofin.Prelude.{
  leb, ℕ, zero, suc, ◌+◌, ◌-◌, ◌/◌, ◌%◌, ◌≤◌, ◌<◌, ◌≡◌, true, false, some, arith, dec_lt,
}
use gofin.Finance.Months.{rounds, ◌-ℤ◌, compute_missed_months, pos, is_past, missed_from}
use gofin.Prelude.Int.{◌-ℤ◌, pos}
use gofin.Finance.Months.Calendar.{advance-month_at, last_ordinal, months_from, month_at}

is_past-month_at : (a t : ℕ) → is_past (month_at a) (pos (t / 12)) (pos (t % 12 + 1)) ≡ leb t a
unfolding month_at
is_past-month_at a t = ground arith

missed_from_lem :
    (fuel o t : ℕ)
    → 0 < fuel
    → t ≤ fuel + o
    → o + 12 < last_ordinal
    → t + 12 < last_ordinal
    → missed_from fuel (month_at o) (pos (t / 12)) (pos (t % 12 + 1))
      ≡ some (months_from (o + 1) (t - (o + 1)))
unfolding missed_from months_from
missed_from_lem zero o t some_fuel enough small_o small_t = absurd (omega arith)
missed_from_lem (suc fuel) o t some_fuel enough small_o small_t = elim (dec_lt (o + 1) t) [
  | no done ↦
      let past : leb t (o + 1) ≡ true = ground arith in
      let none_left : t - (o + 1) ≡ 0 = omega arith in
      rw (advance-month_at o small_o, is_past-month_at (o + 1) t, past, none_left)
  | yes more ↦
      let ahead : leb t (o + 1) ≡ false = ground arith in
      let one_more : t - (o + 1) ≡ suc (t - (o + 1 + 1)) = omega arith in
      rw (advance-month_at o small_o, is_past-month_at (o + 1) t, ahead, one_more)
        (rw (missed_from_lem fuel (o + 1) t (omega arith) (omega arith) (omega arith) small_t))
]

-- For a last period and a target from year 0 on and before December of the year 2147483646, the loop
-- ends, and the months it lists are exactly those after the last period and before the target, each
-- once and in order; there are none when the target is the next month or earlier.
pub compute_missed_months_lem :
    (o t : ℕ)
    → o + 12 < last_ordinal
    → t + 12 < last_ordinal
    → compute_missed_months (pos (o / 12)) (pos (o % 12 + 1)) (pos (t / 12)) (pos (t % 12 + 1))
      ≡ some (months_from (o + 1) (t - (o + 1)))
unfolding compute_missed_months month_at ◌-ℤ◌
compute_missed_months_lem o t small_o small_t =
    missed_from_lem (rounds (pos (o / 12)) (pos (t / 12))) o t (omega arith) (ground arith) small_o
      small_t
