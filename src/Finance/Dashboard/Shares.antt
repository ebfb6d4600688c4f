-- ===== src/Finance/Dashboard/Shares.antt =====
-- `allocateCategories` of services/finance/internal/service/dashboard.go.
use gofin.Prelude.{
  if◌then◌else◌, Bool-cases, ℕ, ◌+◌, ◌-◌, ◌*◌, ◌/◌, ◌^◌, ◌≤◌, ◌<◌, ◌≡◌, refl, sym, ◌⊎◌, inl, inr,
  Bool, true, false, arith,
}
use gofin.Prelude.Int.{
  sub_pos, quot_pos, wrap64_pos, ltb_ℤ, mul_pos, add_pos, ◌+ℤ◌, ◌-ℤ◌, eqb_ℤ, ◌*ℤ◌, pos, ℤ, wrap64,
  quot,
}
use gofin.Finance.Dashboard.{ltb_ℤ, eqb_ℤ, pos, ℤ, add_remainder, Allocation, allocate_categories}

-- The three amounts add up to the budget, and each is its rounded-down share, or at most two minor
-- units more.
abbrev pub IsFair : ℕ → ℕ → ℕ → ℕ → Allocation → Type 0
IsFair b e d s a =
    (u : ℕ) × (v : ℕ) × (w : ℕ) × (a
      ≡ record { essentials = pos u; desires = pos v; savings = pos w })
    × (u + v + w ≡ b)
    × (b * e / 100 ≤ u)
    × (u ≤ b * e / 100 + 2)
    × (b * d / 100 ≤ v)
    × (v ≤ b * d / 100 + 2)
    × (b * s / 100 ≤ w)
    × (w ≤ b * s / 100 + 2)

times_le : (b p k : ℕ) → p + k ≡ 100 → b * p ≤ b * 100
times_le b p k h = let e : b * 100 ≡ b * p + b * k = rw (sym h) (grind arith) in omega (arith, e)

share_pos :
    (b p : ℕ) → p ≤ 100 → b * 100 < 2 ^ 63 → quot (wrap64 (pos b *ℤ pos p)) 100 ≡ pos (b * p / 100)
share_pos b p hp hb =
    let le = times_le b p (100 - p) (omega arith) in
    rw (mul_pos b p, wrap64_pos (b * p) (omega (arith, le))) (quot_pos (b * p) 100)

whole_budget : (b e d s : ℕ) → e + d + s ≡ 100 → b * e + b * d + b * s ≡ 100 * b
whole_budget b e d s h = let q : 100 * b ≡ (e + d + s) * b = rw h refl in grind (arith, q)

remainder_pos :
    (b x y z : ℕ)
    → b < 2 ^ 63
    → x + y + z ≤ b
    → wrap64 (pos b -ℤ wrap64 (wrap64 (pos x +ℤ pos y) +ℤ pos z)) ≡ pos (b - (x + y + z))
remainder_pos b x y z hb le =
    rw
      (
        add_pos x y,
        wrap64_pos (x + y) (omega arith),
        add_pos (x + y) z,
        wrap64_pos (x + y + z) (omega arith),
        sub_pos b (x + y + z) le,
      )
      (wrap64_pos (b - (x + y + z)) (omega arith))

-- The remainder lands on exactly one of the three.
Lands : ℕ → ℕ → ℕ → ℕ → Allocation → Type 0
Lands r x y z a =
    (a ≡ record { essentials = pos (x + r); desires = pos y; savings = pos z })
    ⊎ ((a ≡ record { essentials = pos x; desires = pos (y + r); savings = pos z })
        ⊎ (a ≡ record { essentials = pos x; desires = pos y; savings = pos (z + r) }))

grown : (x r : ℕ) → x + r < 2 ^ 63 → wrap64 (pos x +ℤ pos r) ≡ pos (x + r)
grown x r h = rw (add_pos x r) (wrap64_pos (x + r) h)

add_remainder-Lands :
    (r x y z : ℕ) (e d s : ℤ)
    → x + y + z + r < 2 ^ 63
    → Lands r x y z (
        add_remainder
          (pos r)
          e
          d
          s
          (record { essentials = pos x; desires = pos y; savings = pos z }))
unfolding add_remainder Lands
add_remainder-Lands r x y z e d s h = go (ltb_ℤ e d) (ltb_ℤ d s) (ltb_ℤ e s)
  where
    go :
        (p q t : Bool)
        → Lands r x y z (
            if p
            then if q
              then record { essentials = pos x; desires = pos y; savings = wrap64 (pos z +ℤ pos r) }
              else record { essentials = pos x; desires = wrap64 (pos y +ℤ pos r); savings = pos z }
            else if t
            then record { essentials = pos x; desires = pos y; savings = wrap64 (pos z +ℤ pos r) }
            else record { essentials = wrap64 (pos x +ℤ pos r); desires = pos y; savings = pos z })
    go true true t = inr (inr (rw (grown z r (omega arith)) refl))
    go true false t = inr (inl (rw (grown y r (omega arith)) refl))
    go false q true = inr (inr (rw (grown z r (omega arith)) refl))
    go false q false = inl (rw (grown x r (omega arith)) refl)

IsFair-of_Lands :
    (b e d s r : ℕ) (a : Allocation)
    → r ≤ 2
    → b * e / 100 + b * d / 100 + b * s / 100 + r ≡ b
    → Lands r (b * e / 100) (b * d / 100) (b * s / 100) a
    → IsFair b e d s a
unfolding Lands
IsFair-of_Lands b e d s r a small total (inl q) = (
  _,
  _,
  _,
  q,
  omega arith,
  omega arith,
  omega arith,
  omega arith,
  omega arith,
  omega arith,
  omega arith,
)
IsFair-of_Lands b e d s r a small total (inr (inl q)) = (
  _,
  _,
  _,
  q,
  omega arith,
  omega arith,
  omega arith,
  omega arith,
  omega arith,
  omega arith,
  omega arith,
)
IsFair-of_Lands b e d s r a small total (inr (inr q)) = (
  _,
  _,
  _,
  q,
  omega arith,
  omega arith,
  omega arith,
  omega arith,
  omega arith,
  omega arith,
  omega arith,
)

-- For a budget that is not negative and whose hundredfold is an int64, and percentages that add up
-- to 100, the three amounts add up to exactly the budget, and each is its rounded-down share or at
-- most two minor units more.
pub allocate_categories-IsFair :
    (b e d s : ℕ)
    → e + d + s ≡ 100
    → b * 100 < 2 ^ 63
    → IsFair b e d s (allocate_categories (pos b) (pos e) (pos d) (pos s))
unfolding allocate_categories
allocate_categories-IsFair b e d s hundred small =
    let total = whole_budget b e d s hundred in
    let x = b * e / 100 in
    let y = b * d / 100 in
    let z = b * s / 100 in
    let below : x + y + z ≤ b = omega (arith, total) in
    let near : b - (x + y + z) ≤ 2 = omega (arith, total) in
    rw
      (
        share_pos b e (omega arith) small,
        share_pos b d (omega arith) small,
        share_pos b s (omega arith) small,
        remainder_pos b x y z (omega arith) below,
      )
      (go (b - (x + y + z)) near (omega (arith, below)))
  where
    is_zero : (n : ℕ) → eqb_ℤ (pos n) (pos 0) ≡ true → n ≡ 0
    is_zero n h = ground arith

    floors : Allocation
    floors = record {
      essentials = pos (b * e / 100);
      desires = pos (b * d / 100);
      savings = pos (b * s / 100);
    }

    go :
        (r : ℕ)
        → r ≤ 2
        → b * e / 100 + b * d / 100 + b * s / 100 + r ≡ b
        → IsFair b e d s (
            if eqb_ℤ (pos b) (pos 0)
            then record { essentials = pos 0; desires = pos 0; savings = pos 0 }
            else if eqb_ℤ (pos r) (pos 0)
            then floors
            else add_remainder (pos r) (pos e) (pos d) (pos s) floors)
    go r le sum = elim (Bool-cases (eqb_ℤ (pos b) (pos 0))) [
      | inl none_at_all ↦
          let zero_budget = is_zero b none_at_all in
          rw none_at_all (
            0,
            0,
            0,
            refl,
            omega (arith, zero_budget),
            omega (arith, zero_budget),
            omega arith,
            omega (arith, zero_budget),
            omega arith,
            omega (arith, zero_budget),
            omega arith,
          )
      | inr some_budget ↦ elim (Bool-cases (eqb_ℤ (pos r) (pos 0))) [
        | inl none_left ↦
            let zero_rest = is_zero r none_left in
            rw (some_budget, none_left)
              (
                b * e / 100,
                b * d / 100,
                b * s / 100,
                refl,
                omega (arith, zero_rest),
                omega arith,
                omega arith,
                omega arith,
                omega arith,
                omega arith,
                omega arith,
              )
        | inr some_left ↦
            rw (some_budget, some_left)
              (IsFair-of_Lands b e d s r _ le sum (
                add_remainder-Lands r (b * e / 100) (b * d / 100) (b * s / 100) (pos e) (pos d)
                  (pos s) (omega arith)))
      ]
    ]
