-- ===== src/Fx/Converter/Coverage.antt =====
-- What a captured snapshot holds (services/fx/internal/service/converter.go).
use gofin.Prelude.{Bool-cases, All, String, ◌≡◌, refl, subst, ◌⊎◌, inl, inr, true, List, [], ◌∷◌}
use gofin.Fx.Converter.{
  require_currencies, provider_snapshot, capture_snapshot, captured_answer, refused, Cache,
  rate_for_currency, ProviderSnapshot, FxError, Rat, require_full_supported_rates, Definition,
  is_supported, SnapshotResult, ℤ, done, require_rates, supported_rates, to_captured_snapshot,
  Services,
}
use gofin.Fx.Model.{refused, FxError, ProviderSnapshot, done, SnapshotResult, Rates, Answer}
use gofin.Currency.{supported_currencies, is_supported, Definition}
use gofin.Fx.Decimal.{Rat}
use gofin.Prelude.Int.{ℤ}

-- The catalog's currencies each have a positive rate.
abbrev pub Covers : Services → Rates → List Definition → Type 0
Covers fx rates ds = All (λ d. (r : Rat) × (rate_for_currency fx rates d.code ≡ done r)) ds

-- Only codes of the catalog.
abbrev pub OnlySupported : Rates → Type 0
OnlySupported = All (λ e. is_supported e.0 ≡ true)

abbrev answer-cases :
    {A : Type 0} (x : Answer A) → ((a : A) × (x ≡ done a)) ⊎ ((e : FxError) × (x ≡ refused e))
answer-cases (done a) = inl (a, refl)
answer-cases (refused e) = inr (e, refl)

require_rates-Covers :
    (fx : Services) (ds : List Definition) (rates : Rates) (u : Unit)
    → require_rates fx ds rates ≡ done u
    → Covers fx rates ds
unfolding require_rates
require_rates-Covers fx [] rates u h = tt
require_rates-Covers fx (d ∷ ds) rates u h =
    elim (answer-cases (rate_for_currency fx rates d.code)) [
      | inl (r, e) ↦ ((r, e), require_rates-Covers fx ds rates u (rw e at h))
      | inr (x, e) ↦ let bad : refused x ≡ done u = rw e at h in cc
    ]

supported_rates-OnlySupported : (rates : Rates) → OnlySupported (supported_rates rates)
unfolding supported_rates
supported_rates-OnlySupported [] = tt
supported_rates-OnlySupported ((c, r) ∷ rates) = elim (Bool-cases (is_supported c)) [
  | inl e ↦ rw e (e, supported_rates-OnlySupported rates)
  | inr e ↦ rw e (supported_rates-OnlySupported rates)
]

abbrev CapturedWell : Services → Answer SnapshotResult → Type 0
CapturedWell fx (done r) =
    Covers fx r.snapshot.rates_by_currency supported_currencies
    × OnlySupported r.snapshot.rates_by_currency
CapturedWell fx (refused e) = Unit

captured_answer-Well :
    (fx : Services) (answer : Answer (ProviderSnapshot × String))
    → CapturedWell fx (captured_answer fx answer)
unfolding to_captured_snapshot require_full_supported_rates
captured_answer-Well fx (refused e) = tt
captured_answer-Well fx (done (s, status)) =
    elim (answer-cases (require_full_supported_rates fx (supported_rates s.rates))) [
      | inl (u, e) ↦ rw e (
        require_rates-Covers fx supported_currencies (supported_rates s.rates) u e,
        supported_rates-OnlySupported s.rates,
      )
      | inr (x, e) ↦ rw e tt
    ]

-- A captured snapshot has a rate that parses as a positive number for every currency of the catalog,
-- and no rate of any other code, whatever the cache and the provider held.
pub capture_snapshot-Covers :
    (fx : Services) (now later : ℤ) (cache found : Cache) (required : List String)
    (r : SnapshotResult)
    → (capture_snapshot fx now later cache found required).1 ≡ done r
    → Covers fx r.snapshot.rates_by_currency supported_currencies
      × OnlySupported r.snapshot.rates_by_currency
capture_snapshot-Covers fx now later cache found required r e =
    subst (CapturedWell fx) e (go (require_currencies required))
  where
    result : Answer Unit → Cache × Answer SnapshotResult
    result c = elim c [
      | refused e ↦ (cache, refused e)
      | done u ↦
          let (cache', answer) = provider_snapshot fx now later cache found in
          (cache', captured_answer fx answer)
    ]

    check : (c : Answer Unit) → CapturedWell fx (result c).1
    check (refused x) = tt
    check (done u) = captured_answer-Well fx (provider_snapshot fx now later cache found).1

    go : (c : Answer Unit) → CapturedWell fx (capture_snapshot fx now later cache found required).1
    go c = unfold capture_snapshot in check (require_currencies required)
