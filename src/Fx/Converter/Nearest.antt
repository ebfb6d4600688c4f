-- ===== src/Fx/Converter/Nearest.antt =====
-- The converted amount of services/fx/internal/service/converter.go.
use gofin.Prelude.{ℕ, zero, suc, ◌+◌, ◌*◌, ◌^◌, ◌≤◌, ◌<◌, String, ◌≡◌, refl, ap, ◌∙◌, arith}
use gofin.Fx.Converter.{
  answer_with, ConvertResponse, done, rate_for_currency, Rates, Services, convert_from_rates,
  major_to_rounded_minor, pos, minor_to_major, converted,
}
use gofin.Fx.Decimal.Rounding.{round_half_up_lem, round_whole, round_pos, saturated}
use gofin.Fx.Model.{ConvertResponse, done, Rates}
use gofin.Prelude.Int.{mul_pos, pos, ℤ}
use gofin.Fx.Decimal.{round_half_up, major_to_rounded_minor, scale_factor, minor_to_major}
use gofin.Currency.{Definition}

-- The exact amount in minor units of the target, as a fraction: an amount a with the source's digits,
-- times the target's rate tn / td, by the source's rate sn / sd.
abbrev pub exact_num : ℕ → Definition → ℕ → ℕ → ℕ
exact_num a target tn sd = a * (tn * sd) * scale_factor target.minor_unit_digits

abbrev pub exact_den : Definition → ℕ → ℕ → ℕ
exact_den source td sn = scale_factor source.minor_unit_digits * (td * sn) * 1

converted_pos :
    (a : ℕ) (source target : Definition) (sn sd tn td : ℕ)
    → converted
        (pos a)
        source
        target
        (record { num = pos sn; den = sd })
        (record { num = pos tn; den = td })
      ≡ saturated (round_half_up (exact_num a target tn sd) (exact_den source td sn))
unfolding converted minor_to_major major_to_rounded_minor
converted_pos a source target sn sd tn td =
    rw
      (
        mul_pos tn sd,
        mul_pos a (tn * sd),
        mul_pos (a * (tn * sd)) (scale_factor target.minor_unit_digits),
      )
      (round_pos (exact_num a target tn sd) (exact_den source td sn))

scale_factor-positive : (n : ℕ) → 1 ≤ scale_factor n
unfolding scale_factor
scale_factor-positive zero = omega arith
scale_factor-positive (suc n) = omega (arith, scale_factor-positive n)

product_positive : (a b : ℕ) → 1 ≤ a → 1 ≤ b → 1 ≤ a * b
product_positive zero b h k = absurd (omega arith)
product_positive (suc a) zero h k = absurd (omega arith)
product_positive (suc a) (suc b) h k = grind arith

-- An answer of the conversion is the exact amount rounded to the nearest minor unit, half up.
abbrev pub IsNearest : ℕ → Definition → Definition → ℕ → ℕ → ℕ → ℕ → ℤ → Type 0
IsNearest a source target sn sd tn td z =
    (r : ℕ) × (z ≡ saturated r)
    × (2 * (r * exact_den source td sn) ≤ 2 * exact_num a target tn sd + exact_den source td sn)
    × (2 * exact_num a target tn sd + exact_den source td sn
        < 2 * (r * exact_den source td sn) + 2 * exact_den source td sn)

-- For rates sn / sd and tn / td that are positive, a conversion of an amount that is not negative
-- succeeds, and its amount is the exact one rounded to the nearest minor unit of the target, halves
-- up, or the largest int64 where that does not fit.
pub convert_from_rates-IsNearest :
    (fx : Services) (a : ℕ) (source target : Definition) (rates : Rates)
    (rate_timestamp expires_at cache_status snapshot_source : String) (sn sd tn td : ℕ)
    → rate_for_currency fx rates source.code ≡ done (record { num = pos sn; den = sd })
    → rate_for_currency fx rates target.code ≡ done (record { num = pos tn; den = td })
    → 1 ≤ sn
    → 1 ≤ td
    → (response : ConvertResponse) × (convert_from_rates fx
          (pos a)
          source
          target
          rates
          rate_timestamp
          expires_at
          cache_status
          snapshot_source
        ≡ done response)
      × IsNearest a source target sn sd tn td response.converted_amount
unfolding convert_from_rates
convert_from_rates-IsNearest fx a source target rates ts ex st so sn sd tn td es et hs ht =
    let positive : 1 ≤ exact_den source td sn =
      product_positive (scale_factor source.minor_unit_digits * (td * sn)) 1
        (product_positive (scale_factor source.minor_unit_digits) (td * sn)
          (scale_factor-positive source.minor_unit_digits) (product_positive td sn ht hs))
        (omega arith) in
    let bounds = round_half_up_lem (exact_num a target tn sd) (exact_den source td sn) positive in
    rw (es, et)
      (
        answer_with (pos a) source target ts ex st so (record { num = pos sn; den = sd })
            (record { num = pos tn; den = td }),
        refl,
        (
          round_half_up (exact_num a target tn sd) (exact_den source td sn),
          converted_pos a source target sn sd tn td,
          bounds.0,
          bounds.1,
        ),
      )

-- Converting into the same currency through one rate, whatever it is, gives the amount back.
pub converted-same :
    (a : ℕ) (d : Definition) (n m : ℕ)
    → a < 2 ^ 63
    → 1 ≤ n
    → 1 ≤ m
    → converted (pos a) d d (record { num = pos n; den = m }) (record { num = pos n; den = m })
      ≡ pos a
converted-same a d n m h hn hm =
    let s = scale_factor d.minor_unit_digits in
    let whole : exact_num a d n m ≡ a * exact_den d m n = grind arith in
    let positive : 1 ≤ exact_den d m n =
      product_positive (s * (m * n)) 1
        (product_positive s (m * n) (scale_factor-positive d.minor_unit_digits)
          (product_positive m n hm hn))
        (omega arith) in
    converted_pos a d d n m n m
    ∙ ap (λ k. saturated (round_half_up k (exact_den d m n))) whole
    ∙ ap saturated (round_whole a (exact_den d m n) positive)
    ∙ fits a h
  where
    fits : (k : ℕ) → k < 2 ^ 63 → saturated k ≡ pos k
    fits k le = ground arith
