-- ===== src/Finance/ProRata/Create/Rows.antt =====
-- The rows that a new schedule inserts (services/finance/internal/service/prorata.go).
use gofin.Prelude.{
  length, All, ℕ, ◌+◌, ◌<◌, String, ◌≡◌, refl, sym, ap, subst, ◌∙◌, List, [], ◌∷◌, ◌++◌, map, arith,
}
use gofin.Finance.Months.Calendar.{advance-month_at, month_at, last_ordinal, months_from}
use gofin.Prelude.Int.{pos, ◌+ℤ◌, wrap32, ℤ}
use gofin.Finance.ProRata.Create.{
  pos, wrap32, schedule_failed, prepend_row, add_schedule, CreateProRataRequest, new_schedule,
  Environment, ℤ, YearMonth, Group, insert_schedules,
}
use mathlib.Core.List.{append_assoc, append-nil}
use gofin.Api.{err, ok, Result}
use gofin.Finance.Model.{pending, ProRataSchedule}
use gofin.Finance.ProRata.{Result, Store, Environment}
use gofin.Finance.Months.{YearMonth}

abbrev pub target_of : ProRataSchedule → YearMonth
target_of s = record { year = s.target_year; month = s.target_month }

abbrev pub amounts_of : List ProRataSchedule → List ℤ
amounts_of = map (λ s. s.installment_amount)

-- The rows are inserted at the end, pending, carry the amounts in order, and fall in the months that
-- follow number o.
abbrev pub Inserted : Group → ℕ → List ℤ → Store → Store → List ProRataSchedule → Type 0
Inserted g o amounts store store' rows =
    (store'.schedules ≡ store.schedules ++ rows)
    × (amounts_of rows ≡ amounts)
    × (map target_of rows ≡ months_from (o + 1) (length amounts))
    × All (λ s. (s.status ≡ pending) × (s.pro_rata_group ≡ g.pro_rata_group)) rows

abbrev pub InsertedIn : Group → ℕ → List ℤ → Store → Store × Result (List ProRataSchedule) → Type 0
InsertedIn g o amounts store (store', ok rows) = Inserted g o amounts store store' rows
InsertedIn g o amounts store (store', err e) = Unit

prepend-InsertedIn :
    (g : Group) (req : CreateProRataRequest) (o : ℕ) (index amount : ℤ) (amounts : List ℤ)
    (id : String) (store : Store) (result : Store × Result (List ProRataSchedule))
    → let saved = record (new_schedule g req (month_at (o + 1)) index amount) { id = id } in
      InsertedIn g (o + 1) amounts (add_schedule saved store) result
      → InsertedIn g o (amount ∷ amounts) store (prepend_row saved result)
unfolding months_from new_schedule
prepend-InsertedIn g req o index amount amounts id store (store', err e) h = tt
prepend-InsertedIn g req o index amount amounts id store (store', ok rows) (a, b, c, d) = (
  a ∙ append_assoc store.schedules _ _,
  ap (λ l. amount ∷ l) b,
  ap (λ l. month_at (o + 1) ∷ l) c,
  ((refl, refl), d),
)

pub insert_schedules-InsertedIn :
    (env : Environment) (g : Group) (req : CreateProRataRequest) (o : ℕ) (index : ℤ)
    (amounts : List ℤ) (store : Store)
    → o + length amounts + 12 < last_ordinal
    → InsertedIn g o amounts store (insert_schedules env g req (month_at o) index amounts store)
unfolding insert_schedules months_from
insert_schedules-InsertedIn env g req o index [] store h =
    (sym (append-nil store.schedules), refl, refl, tt)
insert_schedules-InsertedIn env g req o index (amount ∷ amounts) store h =
    subst (λ t. InsertedIn g o (amount ∷ amounts) store (next t (env.insert_schedule (row t))))
      (sym (advance-month_at o (omega arith)))
      (go (λ i st. insert_schedules-InsertedIn env g req (o + 1) i amounts st (omega arith))
        (env.insert_schedule (row (month_at (o + 1)))))
  where
    row : YearMonth → ProRataSchedule
    row t = new_schedule g req t index amount

    next : YearMonth → Result String → Store × Result (List ProRataSchedule)
    next t answer = elim answer [
      | err e ↦ (store, err schedule_failed)
      | ok id ↦
          let saved = record (row t) { id = id } in
          prepend_row saved (
            insert_schedules env g req t (wrap32 (index +ℤ pos 1)) amounts
              (add_schedule saved store))
    ]

    go :
        ((i : ℤ) (st : Store)
          → InsertedIn g
              (o + 1)
              amounts
              st
              (insert_schedules env g req (month_at (o + 1)) i amounts st))
        → (answer : Result String)
        → InsertedIn g o (amount ∷ amounts) store (next (month_at (o + 1)) answer)
    go ih (err e) = tt
    go ih (ok id) =
        let saved = record (row (month_at (o + 1))) { id = id } in
        prepend-InsertedIn g req o index amount amounts id store _
          (ih (wrap32 (index +ℤ pos 1)) (add_schedule saved store))
