-- ===== src/Finance/CreatePeriod/Defaults.antt =====
-- Which settings the automatic periods have (`getPeriodCreationDefaults` of
-- services/finance/internal/service/finance.go).
use gofin.Prelude.{
  length, String, str_append, ◌≡◌, refl, subst, Option, none, some, List, [], ◌∷◌, ◌++◌, Memᴰ,
  eq_iff, str_eq,
}
use gofin.Finance.Split.{validate_supported_currency}
use gofin.Finance.CreatePeriod.{
  validate_supported_currency, auto_period, AutoCreated, Result, Environment,
  normalize_currency_code, Store, BudgetPeriod, get_period_creation_defaults, find_defaults,
}
use gofin.Api.{other, err, Error, ok, Result}
use gofin.Finance.CreatePeriod.Appended.{AutoIn, AreAuto}
use gofin.Currency.{normalize_currency_code}
use gofin.Prelude.Changes.{found-Memᴰ}
use gofin.Finance.ProRata.{Environment, Store}
use gofin.Finance.Model.{BudgetPeriod, DefaultSettings}
use gofin.Finance.Months.{YearMonth}

-- The period is the user's, of the month, with the budget, the percentages and the normalized currency
-- of a row of the table of default settings that is the user's.
abbrev pub IsDefaulted : String → List DefaultSettings → BudgetPeriod → YearMonth → Type 0
IsDefaulted user_id table p ym =
    (d : DefaultSettings) × Memᴰ d table
    × (d.user_id ≡ user_id)
    × (p ≡ (record {
      id = p.id;
      user_id = user_id;
      year = ym.year;
      month = ym.month;
      budget_amount = d.budget_amount;
      reporting_currency_code = normalize_currency_code d.currency;
      essentials_percent = d.essentials_percent;
      desires_percent = d.desires_percent;
      savings_percent = d.savings_percent;
    }))

-- One period for each month, in order.
abbrev pub AreDefaulted :
    String → List DefaultSettings → List BudgetPeriod → List YearMonth → Type 0
AreDefaulted user_id table [] [] = Unit
AreDefaulted user_id table (p ∷ ps) (ym ∷ yms) =
    IsDefaulted user_id table p ym × AreDefaulted user_id table ps yms
AreDefaulted user_id table ps yms = ⊥

abbrev pub DefaultedIn : String → List YearMonth → Store → Store × Result AutoCreated → Type 0
DefaultedIn user_id yms store (store', ok c) =
    (ps : List BudgetPeriod) × (store'.periods ≡ store.periods ++ ps)
    × AreDefaulted user_id store.defaults ps yms
    × (length c.months ≡ length yms)
DefaultedIn user_id yms store (store', err e) = Unit

-- The settings are a row of the user, but for the normalized currency.
abbrev pub IsSourced : String → List DefaultSettings → DefaultSettings → Type 0
IsSourced user_id table s =
    (d : DefaultSettings) × Memᴰ d table
    × (d.user_id ≡ user_id)
    × (s ≡ record d { currency = normalize_currency_code d.currency })

find_defaults_lem :
    (user_id : String) (ds : List DefaultSettings) (d : DefaultSettings)
    → find_defaults user_id ds ≡ some d
    → Memᴰ d ds × (d.user_id ≡ user_id)
unfolding find_defaults
find_defaults_lem user_id [] d h = cc
find_defaults_lem user_id (x ∷ xs) d h =
    found-Memᴰ (λ y. y.user_id ≡ user_id) (str_eq x.user_id user_id) x d xs
      (find_defaults user_id xs) (eq_iff x.user_id user_id).0 (find_defaults_lem user_id xs d) h

abbrev pub SourcedIn : String → List DefaultSettings → Result DefaultSettings → Type 0
SourcedIn user_id table (ok s) = IsSourced user_id table s
SourcedIn user_id table (err e) = Unit

pub get_period_creation_defaults-SourcedIn :
    (env : Environment) (store : Store) (user_id : String)
    → SourcedIn user_id store.defaults (get_period_creation_defaults env store user_id)
unfolding get_period_creation_defaults
get_period_creation_defaults-SourcedIn env store user_id = first (env.query "GetDefaults")
  where
    S : Result DefaultSettings → Type 0
    S r = SourcedIn user_id store.defaults r

    priced : DefaultSettings → Option Error → Result DefaultSettings
    priced d c = elim c [
      | some e ↦ err e
      | none ↦ ok (record d { currency = normalize_currency_code d.currency })
    ]

    third :
        (d : DefaultSettings) (c : Option Error)
        → find_defaults user_id store.defaults ≡ some d
        → S (priced d c)
    third d (some e) f = tt
    third d none f = let (m, u) = find_defaults_lem user_id store.defaults d f in (d, m, u, refl)

    found : Option DefaultSettings → Result DefaultSettings
    found o = elim o [
      | none ↦ err (
          other (
            str_append "defaults row missing for user "
              (str_append user_id " during period creation")))
      | some d ↦
          priced d (
            validate_supported_currency "reportingCurrencyCode"
              (normalize_currency_code d.currency))
    ]

    second : (o : Option DefaultSettings) → find_defaults user_id store.defaults ≡ o → S (found o)
    second none f = tt
    second (some d) f =
        third d
          (validate_supported_currency "reportingCurrencyCode" (normalize_currency_code d.currency))
          f

    first :
        (q : Option Error)
        → S (elim q [ some e ↦ err e | none ↦ found (find_defaults user_id store.defaults) ])
    first (some e) = tt
    first none = second (find_defaults user_id store.defaults) refl

AreAuto-AreDefaulted :
    (user_id : String) (table : List DefaultSettings) (s : DefaultSettings) (ps : List BudgetPeriod)
    (yms : List YearMonth)
    → IsSourced user_id table s
    → AreAuto user_id s ps yms
    → AreDefaulted user_id table ps yms
AreAuto-AreDefaulted user_id table s [] [] h a = tt
AreAuto-AreDefaulted user_id table s [] (ym ∷ yms) h a = a
AreAuto-AreDefaulted user_id table s (p ∷ ps) [] h a = a
AreAuto-AreDefaulted user_id table s (p ∷ ps) (ym ∷ yms) h (a, rest) =
    let (d, m, u, q) = h in
    (
      (d, m, u, subst (λ s'. p ≡ record (auto_period user_id s' ym) { id = p.id }) q a),
      AreAuto-AreDefaulted user_id table s ps yms h rest,
    )

pub AutoIn-DefaultedIn :
    (user_id : String) (s : DefaultSettings) (yms : List YearMonth) (store : Store)
    (result : Store × Result AutoCreated)
    → IsSourced user_id store.defaults s
    → AutoIn user_id s yms store result
    → DefaultedIn user_id yms store result
AutoIn-DefaultedIn user_id s yms store (store', err e) h a = tt
AutoIn-DefaultedIn user_id s yms store (store', ok c) h (ps, q, autos, n) =
    (ps, q, AreAuto-AreDefaulted user_id store.defaults s ps yms h autos, n)
