-- ===== src/Finance/Health/Frozen.antt =====
-- A closed month's score stays what it was: services/finance/internal/service/healthscore_service.go.
use gofin.Exec.{◌>>=◌, bind-read, pure, gets, attempt, lift}
use gofin.Prelude.{
  Bool-cases, String, ◌≡◌, refl, sym, ap, subst, inl, inr, true, false, Option, none, some, List,
  arith, eq_iff, str_eq,
}
use gofin.Finance.Health.Service.{
  stored_or_new, run, get_health_score_row, upsert_health_score, resolve_health_score, live_from,
  recompute, backfilled, build_desires_window, put_score, compute_live, currency_of, HealthPeers,
  StoredScore, find_score,
}
use gofin.Finance.Health.Score.{
  is_provisional, compute_health_score, formula_version_now, HealthScore,
}
use gofin.Api.{Error, err, Result, ok}
use gofin.Finance.Model.{ExpenseData, BudgetPeriod}
use gofin.Prelude.Int.{eqb_ℤ, ℤ}
use gofin.Finance.Health.{Float64}

-- The row of the month holds a score of this version that is answered as `r`.
abbrev pub IsStored : String → BudgetPeriod → ℤ → ℤ → List StoredScore → HealthScore → Type 0
IsStored u period year month s r =
    (stored : HealthScore) × (find_score u year month s ≡ some stored)
    × (eqb_ℤ stored.formula_version formula_version_now ≡ true)
    × (backfilled period stored ≡ r)

eqb_self : (z : ℤ) → eqb_ℤ z z ≡ true
eqb_self z = ground arith

find_score-put_score :
    (u : String) (score : HealthScore) (s : List StoredScore)
    → find_score u score.year score.month (put_score u score s) ≡ some score
unfolding find_score
find_score-put_score u score s =
    let e = (eq_iff u u).1 refl in rw (e, eqb_self score.year, eqb_self score.month) refl

currency_of_lem : (period : BudgetPeriod) → str_eq (currency_of period) "" ≡ false
currency_of_lem period = elim (Bool-cases (str_eq period.reporting_currency_code "")) [
  | inl e ↦ rw e refl
  | inr e ↦ rw (e, e) refl
]

-- A score computed now is one of the month, of this version, and with a currency.
IsNew : BudgetPeriod → ℤ → ℤ → HealthScore → Type 0
IsNew period year month r =
    (r.year ≡ year)
    × (r.month ≡ month)
    × (r.formula_version ≡ formula_version_now)
    × (r.reporting_currency_code ≡ currency_of period)

module _ (f : Float64) (peers : HealthPeers) (u : String) (period : BudgetPeriod)
    (year month : ℤ) where
  compute_live-IsNew :
      {r : HealthScore}
      → compute_live f peers u period year month ≡ ok r
      → IsNew period year month r
  unfolding compute_live live_from compute_health_score IsNew
  compute_live-IsNew {r} h =
      go (peers.active_expenses u year month) (build_desires_window f peers u year month) h
    where
      go :
          (a : Result (List ExpenseData)) (b : Result (List ℤ))
          → live_from f peers period year month a b ≡ ok r
          → IsNew period year month r
      go (err e) b h = cc
      go (ok es) (err e) h = cc
      go (ok es) (ok w) h =
          let p : compute_health_score f period es w year month peers.now (currency_of period) ≡ r =
            cc in
          (
            sym (ap (λ x. x.year) p),
            sym (ap (λ x. x.month) p),
            sym (ap (λ x. x.formula_version) p),
            sym (ap (λ x. x.reporting_currency_code) p),
          )

  -- A new score, stored, is found.
  put_score-IsStored :
      (s : List StoredScore) (r : HealthScore)
      → IsNew period year month r
      → IsStored u period year month (put_score u r s) r
  unfolding IsNew backfilled
  put_score-IsStored s r (a, b, c, d) = (
    r,
    subst (λ y. find_score u y month (put_score u r s) ≡ some r) a
        (subst (λ m. find_score u r.year m (put_score u r s) ≡ some r) b
          (find_score-put_score u r s)),
    rw c refl,
    rw (d, currency_of_lem period) refl,
  )

  recompute-ok :
      (s : List StoredScore) (r : HealthScore)
      → peers.statement "UpsertHealthScore" ≡ none
      → compute_live f peers u period year month ≡ ok r
      → recompute f peers u period year month s ≡ (put_score u r s, ok r)
  unfolding recompute upsert_health_score run attempt lift pure ◌>>=◌
  recompute-ok s r quiet p = rw (p, quiet) refl

  recompute-err :
      (s : List StoredScore) (e : Error)
      → compute_live f peers u period year month ≡ err e
      → recompute f peers u period year month s ≡ (s, err e)
  unfolding recompute lift ◌>>=◌
  recompute-err s e p = rw p refl

  -- What an answer, and the table beside it, is where the score stays.
  abbrev Answered : List StoredScore × Result HealthScore → Type 0
  Answered (t, err e) = Unit
  Answered (t, ok r) = IsStored u period year month t r

  recompute-Answered :
      (s : List StoredScore)
      → peers.statement "UpsertHealthScore" ≡ none
      → Answered (recompute f peers u period year month s)
  recompute-Answered s quiet = go (compute_live f peers u period year month) refl
    where
      go :
          (a : Result HealthScore)
          → compute_live f peers u period year month ≡ a
          → Answered (recompute f peers u period year month s)
      go (err e) p = rw (recompute-err s e p) tt
      go (ok r) p = rw (recompute-ok s r quiet p) (put_score-IsStored s r (compute_live-IsNew p))

  get_health_score_row-find_score :
      (s : List StoredScore)
      → ((get_health_score_row f peers u year month s).0 ≡ s)
        × ((o : Option HealthScore)
            → (get_health_score_row f peers u year month s).1 ≡ ok o
            → find_score u year month s ≡ o)
  unfolding get_health_score_row run gets ◌>>=◌
  get_health_score_row-find_score s = go (peers.statement "GetHealthScore") refl
    where
      go :
          (o : Option Error)
          → peers.statement "GetHealthScore" ≡ o
          → ((get_health_score_row f peers u year month s).0 ≡ s)
            × ((o : Option HealthScore)
                → (get_health_score_row f peers u year month s).1 ≡ ok o
                → find_score u year month s ≡ o)
      go (some e) p = rw p (refl, λ o h. cc)
      go none p = rw p (refl, λ o h. cc)

  stored_or_new-Answered :
      (s : List StoredScore) (o : Option HealthScore)
      → peers.statement "UpsertHealthScore" ≡ none
      → find_score u year month s ≡ o
      → Answered (stored_or_new f peers u period year month o s)
  unfolding pure
  stored_or_new-Answered s none quiet p = recompute-Answered s quiet
  stored_or_new-Answered s (some r) quiet p =
      elim (Bool-cases (eqb_ℤ r.formula_version formula_version_now)) [
        | inl e ↦ rw e (r, p, e, refl)
        | inr e ↦ rw e (recompute-Answered s quiet)
      ]

  resolve_health_score-Answered :
      (s : List StoredScore)
      → is_provisional year month peers.now ≡ false
      → peers.statement "UpsertHealthScore" ≡ none
      → Answered (resolve_health_score f peers u period year month s)
  unfolding resolve_health_score
  resolve_health_score-Answered s closed quiet =
      let (same, found) = get_health_score_row-find_score s in
      rw closed (
        bind-read Answered (get_health_score_row f peers u year month) _ s same (λ e h. tt)
          λ o h. stored_or_new-Answered s o quiet (found o h))

  -- A stored score is the answer, and nothing is written.
  IsStored-resolve_health_score :
      (t : List StoredScore) (r : HealthScore)
      → is_provisional year month peers.now ≡ false
      → peers.statement "GetHealthScore" ≡ none
      → IsStored u period year month t r
      → resolve_health_score f peers u period year month t ≡ (t, ok r)
  unfolding resolve_health_score get_health_score_row run gets pure ◌>>=◌
  IsStored-resolve_health_score t r closed quiet (stored, p, q, b) =
      rw (closed, quiet, p, q, b) refl

-- The score of a closed month, once answered and stored, does not change: whatever happens to the
-- expenses, the budget periods and the clock, and however the numbers are computed, a later request
-- for a month that is still closed has the same answer and writes nothing, where the statement that
-- stores the score and the one that reads it do not fail and no other request writes between.
pub resolve_health_score_frozen :
    (f g : Float64) (peers later : HealthPeers) (u : String) (period : BudgetPeriod)
    (year month : ℤ) (s : List StoredScore) {r : HealthScore}
    → is_provisional year month peers.now ≡ false
    → is_provisional year month later.now ≡ false
    → peers.statement "UpsertHealthScore" ≡ none
    → later.statement "GetHealthScore" ≡ none
    → (resolve_health_score f peers u period year month s).1 ≡ ok r
    → resolve_health_score g later u period year month
        (resolve_health_score f peers u period year month s).0
      ≡ ((resolve_health_score f peers u period year month s).0, ok r)
resolve_health_score_frozen f g peers later u period year month s {r} closed closed' quiet quiet'
      h =
    IsStored-resolve_health_score g later u period year month _ r closed' quiet' (
      go (resolve_health_score f peers u period year month s)
        (resolve_health_score-Answered f peers u period year month s closed quiet) h)
  where
    go :
        (a : List StoredScore × Result HealthScore)
        → Answered f peers u period year month a
        → a.1 ≡ ok r
        → IsStored u period year month a.0 r
    go (t, err e) k p = cc
    go (t, ok r') k p = let q : r' ≡ r = cc in subst (IsStored u period year month t) q k
