-- ===== src/Finance/CreatePeriod/Whole.antt =====
-- What `CreatePeriodWithProRata` of services/finance/internal/service/prorata.go has added to the
-- periods when it succeeds.
use mathlib.Core.Option
use gofin.Prelude.{
  if◌then◌else◌, length, ℕ, ◌+◌, ◌-◌, ◌<◌, String, ◌≡◌, refl, sym, ap, subst, ◌∙◌, Bool, true,
  false, Option, none, some, List, [], ◌∷◌, ◌++◌,
}
use gofin.Finance.CreatePeriod.Defaults.{
  get_period_creation_defaults-SourcedIn, AutoIn-DefaultedIn, SourcedIn, AreDefaulted, DefaultedIn,
}
use gofin.Finance.Split.{validate_eds_split, validate_supported_currency}
use gofin.Finance.CreatePeriod.{
  validate_eds_split, has_errors, validate_supported_currency, period_fields, rows_or_none,
  validation_failed, compute_missed_months, create_missed, apply_pending_pro_rata,
  get_period_creation_defaults, normalize_currency_code, amount_or_zero, requested_period,
  create_period_with_pro_rata, AutoCreated, latest_period, CreatePeriodResponse, Result, Store,
  create_period, BudgetPeriod, YearMonth, CreatePeriodRequest, create_requested,
  create_missed_periods,
}
use mathlib.Core.List.{append-nil}
use gofin.Validator.{has_errors}
use gofin.Finance.CreatePeriod.Appended.{create_missed-AutoIn, apply_pending-periods}
use gofin.Finance.Months.Missed.{compute_missed_months_lem}
use gofin.Finance.Periods.{validation_failed}
use gofin.Finance.Months.{compute_missed_months, YearMonth}
use gofin.Finance.ProRata.{apply_pending_pro_rata, Store, Environment}
use gofin.Api.{Error, err, ok, Result}
use gofin.Currency.{normalize_currency_code}
use gofin.Finance.Months.Calendar.{months_from, last_ordinal, month_at}
use gofin.Finance.Model.{BudgetPeriod, DefaultSettings}

-- Behind the periods of the table stand one automatic period for each missed month, in order, with
-- settings from the table of defaults, and then the requested one.
abbrev pub Grown :
    String → CreatePeriodRequest → List YearMonth → Store → Store → CreatePeriodResponse → Type 0
Grown user_id req yms store store' r =
    (ps : List BudgetPeriod) × (store'.periods ≡ (store.periods ++ ps) ++ (r.period ∷ []))
    × AreDefaulted user_id store.defaults ps yms
    × (r.auto_created_periods ≡ length yms)
    × (r.period ≡ (record {
      id = r.period.id;
      user_id = user_id;
      year = req.year;
      month = req.month;
      budget_amount = amount_or_zero req.budget_amount;
      reporting_currency_code = normalize_currency_code req.reporting_currency_code;
      essentials_percent = req.essentials_percent;
      desires_percent = req.desires_percent;
      savings_percent = req.savings_percent;
    }))

abbrev pub GrownIn :
    String
    → CreatePeriodRequest
    → List YearMonth
    → Store
    → Store × Result CreatePeriodResponse
    → Type 0
GrownIn user_id req yms store (store', ok r) = Grown user_id req yms store store' r
GrownIn user_id req yms store (store', err e) = Unit

create_requested-GrownIn :
    (env : Environment) (user_id : String) (req : CreatePeriodRequest) (yms : List YearMonth)
    (store : Store) (result : Store × Result AutoCreated)
    → DefaultedIn user_id yms store result
    → GrownIn user_id req yms store (
        create_requested env user_id
          (requested_period user_id req
            (amount_or_zero req.budget_amount)
            (normalize_currency_code req.reporting_currency_code))
          result)
unfolding create_requested create_period
create_requested-GrownIn env user_id req yms store (store1, err e) h = tt
create_requested-GrownIn env user_id req yms store (store1, ok auto) (ps, q, autos, n) =
    go (env.insert_period requested)
  where
    requested : BudgetPeriod
    requested =
        requested_period user_id req (amount_or_zero req.budget_amount)
          (normalize_currency_code req.reporting_currency_code)

    added : String → Store
    added id = record store1 { periods = store1.periods ++ ((record requested { id = id }) ∷ []) }

    next : Store × Result BudgetPeriod → Store × Result CreatePeriodResponse
    next (store2, created) = elim created [
      | err e ↦ (store2, err e)
      | ok period ↦
          let (store3, rows) = apply_pending_pro_rata env user_id period store2 in
          (
            store3,
            ok (record {
              period = period;
              applied_pro_rata = auto.applied ++ rows_or_none rows;
              auto_created_periods = length auto.months;
              auto_created_months = auto.months;
            }),
          )
    ]

    go :
        (answer : Result String)
        → GrownIn user_id req yms store (
            next (elim answer [
              | err e ↦ (store1, err e)
              | ok id ↦ (added id, ok (record requested { id = id }))
            ]))
    go (err e) = tt
    go (ok id) =
        let p = record requested { id = id } in
        (
          ps,
          apply_pending-periods env user_id p (added id) ∙ ap (λ l. l ++ (p ∷ [])) q,
          autos,
          n,
          refl,
        )

-- The missed months that follow a latest period with number o, before number t.
missed-DefaultedIn :
    (env : Environment) (user_id : String) (latest : BudgetPeriod) (o t : ℕ) (store : Store)
    → o + 12 < last_ordinal
    → t + 12 < last_ordinal
    → latest.year ≡ (month_at o).year
    → latest.month ≡ (month_at o).month
    → (result : Store × Result AutoCreated) × (create_missed_periods env user_id
          (some latest)
          (month_at t).year
          (month_at t).month
          store
        ≡ some result)
      × DefaultedIn user_id (months_from (o + 1) (t - (o + 1))) store result
unfolding create_missed_periods month_at
missed-DefaultedIn env user_id latest o t store ho ht ey em =
    subst
      (λ c.
        (result : Store × Result AutoCreated) × (next c ≡ some result)
        × DefaultedIn user_id (months_from (o + 1) (t - (o + 1))) store result)
      (sym found) (go (months_from (o + 1) (t - (o + 1))))
  where
    next : Option (List YearMonth) → Option (Store × Result AutoCreated)
    next c = elim c [
      | none ↦ none
      | some [] ↦ some (store, ok (record { months = []; applied = [] }))
      | some (ym ∷ yms) ↦ elim (get_period_creation_defaults env store user_id) [
        | err e ↦ some (store, err e)
        | ok defaults ↦ some (create_missed env user_id defaults (ym ∷ yms) store)
      ]
    ]

    found :
        compute_missed_months latest.year latest.month (month_at t).year (month_at t).month
        ≡ some (months_from (o + 1) (t - (o + 1)))
    found = rw (ey, em) (compute_missed_months_lem o t ho ht)

    after :
        (ym : YearMonth) (yms : List YearMonth) (d : Result DefaultSettings)
        → SourcedIn user_id store.defaults d
        → (result : Store × Result AutoCreated) × ((elim d
              as (λ x. Option (Store × Result AutoCreated)) [
                | err e ↦ some (store, err e)
                | ok defaults ↦ some (create_missed env user_id defaults (ym ∷ yms) store)
              ])
            ≡ some result)
          × DefaultedIn user_id (ym ∷ yms) store result
    after ym yms (err e) h = ((store, err e), refl, tt)
    after ym yms (ok d) h =
        let made = create_missed env user_id d (ym ∷ yms) store in
        (
          made,
          refl,
          AutoIn-DefaultedIn user_id d (ym ∷ yms) store made h
              (create_missed-AutoIn env user_id d (ym ∷ yms) store),
        )

    go :
        (yms : List YearMonth)
        → (result : Store × Result AutoCreated) × (next (some yms) ≡ some result)
          × DefaultedIn user_id yms store result
    go [] = (_, refl, ([], sym (append-nil store.periods), tt, refl))
    go (ym ∷ yms) =
        after ym yms (get_period_creation_defaults env store user_id)
          (get_period_creation_defaults-SourcedIn env store user_id)

-- For a user whose latest period has number o, a request for the month with number t, both from year 0
-- on and before December of the year 2147483646, ends, and if it succeeds then the table has grown by
-- exactly one period for each month between the two, in order, each with the budget, the percentages
-- and the normalized currency of a row of the default settings that is the user's, and behind them by
-- the requested period, with the request's fields.
pub create_period_with_pro_rata-Grown :
    (env : Environment) (user_id : String) (req : CreatePeriodRequest) (latest : BudgetPeriod)
    (o t : ℕ) (store : Store)
    → o + 12 < last_ordinal
    → t + 12 < last_ordinal
    → latest_period user_id store.periods ≡ some latest
    → latest.year ≡ (month_at o).year
    → latest.month ≡ (month_at o).month
    → req.year ≡ (month_at t).year
    → req.month ≡ (month_at t).month
    → (result : Store × Result CreatePeriodResponse) × (create_period_with_pro_rata env user_id req
          store
        ≡ some result)
      × GrownIn user_id req (months_from (o + 1) (t - (o + 1))) store result
create_period_with_pro_rata-Grown env user_id req latest o t store ho ht el ey em ry rm =
    unfold create_period_with_pro_rata in
    first (validate_eds_split req.essentials_percent req.desires_percent req.savings_percent)
  where
    yms : List YearMonth
    yms = months_from (o + 1) (t - (o + 1))

    currency : String
    currency = normalize_currency_code req.reporting_currency_code

    missed : Option (Store × Result AutoCreated)
    missed =
        create_missed_periods env user_id (latest_period user_id store.periods) req.year req.month
          store

    requested : BudgetPeriod
    requested = requested_period user_id req (amount_or_zero req.budget_amount) currency

    End : Option (Store × Result CreatePeriodResponse) → Type 0
    End o' =
        (result : Store × Result CreatePeriodResponse) × (o' ≡ some result)
        × GrownIn user_id req yms store result

    refused : (e : Error) → End (some (store, err e))
    refused e = ((store, err e), refl, tt)

    last : Option Error → Option (Store × Result CreatePeriodResponse)
    last q = elim q [
      | some e ↦ some (store, err e)
      | none ↦ Option.map (create_requested env user_id requested) missed
    ]

    third : (q : Option Error) → End (last q)
    third (some e) = refused e
    third none =
        let (result, eq, auto) = missed-DefaultedIn env user_id latest o t store ho ht ey em in
        let both : missed ≡ some result = rw (el, ry, rm) eq in
        rw both (_, refl, create_requested-GrownIn env user_id req yms store result auto)

    middle : Option Error → Option (Store × Result CreatePeriodResponse)
    middle c = elim c [ some e ↦ some (store, err e) | none ↦ last (env.query "GetLatestPeriod") ]

    second : (c : Option Error) → End (middle c)
    second (some e) = refused e
    second none = third (env.query "GetLatestPeriod")

    checked : Bool → Option (Store × Result CreatePeriodResponse)
    checked b =
        if b
        then some (store, err (validation_failed (period_fields req)))
        else middle (validate_supported_currency "reportingCurrencyCode" currency)

    checks : (b : Bool) → End (checked b)
    checks true = refused (validation_failed (period_fields req))
    checks false = second (validate_supported_currency "reportingCurrencyCode" currency)

    first :
        (c : Option Error)
        → End (elim c [
          | some e ↦ some (store, err e)
          | none ↦ checked (has_errors (period_fields req))
        ])
    first (some e) = refused e
    first none = checks (has_errors (period_fields req))
