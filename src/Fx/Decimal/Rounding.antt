-- ===== src/Fx/Decimal/Rounding.antt =====
-- The rounding of services/fx/internal/service/decimal.go.
use gofin.Prelude.{
  leb, if◌then◌else◌, leb→le, Bool-cases, ℕ, ◌+◌, ◌-◌, ◌*◌, ◌/◌, ◌%◌, ◌≤◌, ◌<◌, ◌≡◌, inl, inr, true,
  arith, dec_lt,
}
use gofin.Prelude.Int.{leb_ℤ, pos, ℤ}
use gofin.Fx.Decimal.{leb_ℤ, max_int64, pos, round_half_away_from_zero, ℤ, round_half_up}
use native.Mathlib.Nat.{mod-lt, div-add-mod}

-- Half up is the largest number that is at most half a unit above the fraction n / d: with
-- 2 r d ≤ 2 n + d < 2 r d + 2 d.
pub round_half_up_lem :
    (n d : ℕ)
    → 1 ≤ d
    → let r = round_half_up n d in (2 * (r * d) ≤ 2 * n + d) × (2 * n + d < 2 * (r * d) + 2 * d)
unfolding round_half_up
round_half_up_lem n d h = elim (Bool-cases (leb d (2 * (n % d)))) [
  | inl e ↦ rw e (up (n / d) (n % d) (div-add-mod n d) (mod-lt n h) (leb→le d (2 * (n % d)) e))
  | inr e ↦ rw e (down (n / d) (n % d) (div-add-mod n d) (mod-lt n h) (ground arith))
]
  where
    up :
        (q m : ℕ)
        → d * q + m ≡ n
        → m < d
        → d ≤ 2 * m
        → (2 * ((q + 1) * d) ≤ 2 * n + d) × (2 * n + d < 2 * ((q + 1) * d) + 2 * d)
    up q m e lt le = grind arith

    down :
        (q m : ℕ)
        → d * q + m ≡ n
        → m < d
        → 2 * m < d
        → (2 * (q * d) ≤ 2 * n + d) × (2 * n + d < 2 * (q * d) + 2 * d)
    down q m e lt le = grind arith

-- A result that does not fit int64 is the largest that does.
abbrev pub saturated : ℕ → ℤ
saturated r = if leb r max_int64 then pos r else pos max_int64

pub round_pos :
    (n d : ℕ)
    → round_half_away_from_zero (record { num = pos n; den = d }) ≡ saturated (round_half_up n d)
unfolding round_half_away_from_zero
round_pos n d = rw (sign n, zero_right n)
  where
    sign : (k : ℕ) → leb_ℤ (pos 0) (pos k) ≡ true
    sign k = ground arith

    zero_right : (k : ℕ) → k + 0 ≡ k
    zero_right k = omega arith

-- The only number that is within the bounds of the rounding.
pub nearest_unique :
    (a r d : ℕ)
    → 1 ≤ d
    → 2 * (r * d) ≤ 2 * (a * d) + d
    → 2 * (a * d) + d < 2 * (r * d) + 2 * d
    → r ≡ a
nearest_unique a r d h low high = elim (dec_lt r a) [
  | yes lt ↦ absurd (below (a - r - 1) (omega arith) high)
  | no ge ↦ elim (dec_lt a r) [
    | yes gt ↦ absurd (above (r - a - 1) (omega arith) low)
    | no le ↦ omega arith
  ]
]
  where
    below : (k : ℕ) → a ≡ r + 1 + k → 2 * (a * d) + d < 2 * (r * d) + 2 * d → ⊥
    below k e hi = let q : a * d ≡ r * d + d + k * d = rw e (grind arith) in omega (arith, q)

    above : (k : ℕ) → r ≡ a + 1 + k → 2 * (r * d) ≤ 2 * (a * d) + d → ⊥
    above k e lo = let q : r * d ≡ a * d + d + k * d = rw e (grind arith) in omega (arith, q)

-- A whole number of units is not changed.
pub round_whole : (a d : ℕ) → 1 ≤ d → round_half_up (a * d) d ≡ a
round_whole a d h =
    let (low, high) = round_half_up_lem (a * d) d h in
    nearest_unique a (round_half_up (a * d) d) d h low high
