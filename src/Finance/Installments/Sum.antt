-- ===== src/Finance/Installments/Sum.antt =====
-- The installments of services/finance/internal/service/prorata.go add up to the amount.
use gofin.Prelude.{
  length, replicate, length-replicate, ℕ, zero, suc, ◌+◌, ◌-◌, ◌*◌, ◌/◌, ◌%◌, ◌^◌, ◌≤◌, ◌<◌, ◌≡◌,
  refl, ap, false, List, [], ◌∷◌, arith, dec_lt,
}
use gofin.Prelude.Int.{
  ◌*ℤ◌, ◌-ℤ◌, eqb_ℤ, leb_ℤ, wrap64, sub_pos, wrap64_pos, mul_pos, quot_pos, add_pos, ℤ, pos, ◌+ℤ◌,
}
use gofin.Finance.Installments.{eqb_ℤ, wrap64, leb_ℤ, calculate_installments}
use native.Mathlib.Nat.{mod-add-div'}

-- The exact sum, which no wrap-around can hide.
unfoldable pub sum_ℤ : List ℤ → ℤ
sum_ℤ [] = pos 0
sum_ℤ (a ∷ as_) = a +ℤ sum_ℤ as_

sum-replicate : (n b : ℕ) → sum_ℤ (replicate n (pos b)) ≡ pos (n * b)
unfolding sum_ℤ
sum-replicate zero b = ground arith
sum-replicate (suc n) b = rw (sum-replicate n b, add_pos) (ground arith)

split_total : (t n : ℕ) → 2 ≤ n → (t / n * n ≤ t) × (t - t / n * n ≡ t % n) × (t / n + t % n ≤ t)
split_total t n k = let e = mod-add-div' t n in (omega arith, omega arith, grind (arith, e))

remainder_lem :
    (t n : ℕ) → t < 2 ^ 63 → 2 ≤ n → wrap64 (pos t -ℤ wrap64 (pos (t / n) *ℤ pos n)) ≡ pos (t % n)
remainder_lem t n h k =
    let (le, rem, _) = split_total t n k in
    rw (mul_pos, wrap64_pos (t / n * n) (omega arith), sub_pos t (t / n * n) le, rem)
      (wrap64_pos (t % n) (omega arith))

first_lem :
    (t n : ℕ) → t < 2 ^ 63 → 2 ≤ n → wrap64 (pos (t / n) +ℤ pos (t % n)) ≡ pos (t / n + t % n)
first_lem t n h k =
    let (_, _, le) = split_total t n k in rw add_pos (wrap64_pos (t / n + t % n) (omega arith))

-- The schedule of an amount over two months or more: the first installment takes the remainder.
pub calculate_pos :
    (t n : ℕ)
    → t < 2 ^ 63
    → 2 ≤ n
    → calculate_installments (pos t) (pos n) ≡ pos (t / n + t % n) ∷ replicate (n - 1) (pos (t / n))
unfolding calculate_installments
calculate_pos t n h k =
    rw (quot_pos, many_not_none n k, many_not_one n k, remainder_lem t n h k, first_lem t n h k)
  where
    many_not_none : (m : ℕ) → 2 ≤ m → leb_ℤ (pos m) (pos 0) ≡ false
    many_not_none m le = ground arith

    many_not_one : (m : ℕ) → 2 ≤ m → eqb_ℤ (pos m) (pos 1) ≡ false
    many_not_one m le = ground arith

calculate_shape :
    (t n : ℕ)
    → t < 2 ^ 63
    → 1 ≤ n
    → calculate_installments (pos t) (pos n) ≡ pos (t / n + t % n) ∷ replicate (n - 1) (pos (t / n))
calculate_shape t n h k = elim (dec_lt 1 n) [
  | yes many ↦ calculate_pos t n h many
  | no few ↦ let e : n ≡ 1 = omega arith in rw e (one t)
]
  where
    one : (u : ℕ) → calculate_installments (pos u) (pos 1) ≡ pos (u / 1 + u % 1) ∷ []
    one u = unfold calculate_installments in ground arith

whole_lem : (t m : ℕ) → t / suc m + t % suc m + m * (t / suc m) ≡ t
whole_lem t m = let e = mod-add-div' t (suc m) in grind (arith, e)

-- For an int64 amount that is not negative and any number of months from one on, the installments
-- are as many as the months, add up to exactly the amount, and the first is the largest: every
-- later one is the rounded-down share.
pub installments_conserve :
    (t n : ℕ)
    → t < 2 ^ 63
    → 1 ≤ n
    → let all = calculate_installments (pos t) (pos n) in
      (length all ≡ n)
      × (sum_ℤ all ≡ pos t)
      × ((first : ℕ) × (t / n ≤ first) × (all ≡ pos first ∷ replicate (n - 1) (pos (t / n))))
unfolding sum_ℤ
installments_conserve t zero h k = absurd (omega arith)
installments_conserve t (suc m) h k = rw (calculate_shape t (suc m) h k) (
  omega (arith, length-replicate {0} (suc m - 1) (pos (t / suc m))),
  rw (sum-replicate, add_pos)
      (ap pos (let e : suc m - 1 ≡ m = omega arith in rw e (whole_lem t m))),
  (t / suc m + t % suc m, omega arith, refl),
)
