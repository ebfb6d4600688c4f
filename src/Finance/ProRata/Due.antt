-- ===== src/Finance/ProRata/Due.antt =====
-- `applyPendingProRata` of services/finance/internal/service/prorata.go, row by row.
use gofin.Prelude.{
  if◌then◌else◌, Bool-cases, keep, All, String, ◌≡◌, sym, ap, ◌∙◌, inl, inr, Bool, true, false,
  none, some, List, [], ◌∷◌, Memᴰ, arith,
}
use gofin.Prelude.Alls.{All_at, mem-keep, All-keep, mem-sort_by, All-sort_by}
use gofin.Finance.ProRata.Rows.{mem_of_row_of, due-IsKeyed, row_of_self, IsFresh, row_of, IsKeyed}
use gofin.Finance.ProRata.Settle.{apply_all-rows, fate, meet}
use gofin.Finance.ProRata.{
  trusted_context, normalize_currency_code, by_index, apply_all, Store, TrustedPeriodContext,
  is_due, get_pending_pro_rata, Environment, apply_pending_pro_rata,
}
use gofin.Currency.{normalize_currency_code}
use gofin.Finance.Model.{BudgetPeriod, ProRataSchedule}
use gofin.Prelude.Int.{ℤ}

keep-test :
    (p : ProRataSchedule → Bool) (rows : List ProRataSchedule) → All (λ d. p d ≡ true) (keep p rows)
keep-test p [] = tt
keep-test p (s ∷ rows) = elim (Bool-cases (p s)) [
  | inl e ↦ rw e (e, keep-test p rows)
  | inr e ↦ rw e (keep-test p rows)
]

-- The selected rows are rows of the table.
due-found :
    (user_id : String) (year month : ℤ) (rows : List ProRataSchedule)
    → IsKeyed rows
    → All (λ d. row_of d.id rows ≡ some d) (get_pending_pro_rata user_id year month rows)
unfolding get_pending_pro_rata
due-found user_id year month rows k =
    All-sort_by (λ d. row_of d.id rows ≡ some d) by_index (keep (is_due user_id year month) rows)
      (All-keep (λ d. row_of d.id rows ≡ some d) (is_due user_id year month) rows
        (row_of_self rows k))

due-test :
    (user_id : String) (year month : ℤ) (rows : List ProRataSchedule)
    → All (λ d. is_due user_id year month d ≡ true) (get_pending_pro_rata user_id year month rows)
unfolding get_pending_pro_rata
due-test user_id year month rows =
    All-sort_by (λ d. is_due user_id year month d ≡ true) by_index
      (keep (is_due user_id year month) rows) (keep-test (is_due user_id year month) rows)

due-mem :
    (user_id : String) (year month : ℤ) (rows : List ProRataSchedule) (d : ProRataSchedule)
    → is_due user_id year month d ≡ true
    → Memᴰ d rows
    → Memᴰ d (get_pending_pro_rata user_id year month rows)
unfolding get_pending_pro_rata
due-mem user_id year month rows d h m =
    mem-sort_by by_index d (keep (is_due user_id year month) rows)
      (mem-keep (is_due user_id year month) d rows h m)

-- A row that is not due has the id of none of the selected rows.
not_due-IsFresh :
    (user_id : String) (year month : ℤ) (rows ds : List ProRataSchedule) (d : ProRataSchedule)
    → is_due user_id year month d ≡ false
    → row_of d.id rows ≡ some d
    → All (λ x. row_of x.id rows ≡ some x) ds
    → All (λ x. is_due user_id year month x ≡ true) ds
    → IsFresh d.id ds
not_due-IsFresh user_id year month rows [] d h found fs ts = tt
not_due-IsFresh user_id year month rows (x ∷ ds) d h found (f, fs) (t, ts) =
    (λ q. other q, not_due-IsFresh user_id year month rows ds d h found fs ts)
  where
    same : x.id ≡ d.id → x ≡ d
    same q =
        let both : some x ≡ some d = sym f ∙ ap (λ i. row_of i rows) q ∙ found in
        grind (arith, both)

    other : x.id ≡ d.id → ⊥
    other q = let e : true ≡ false = sym t ∙ ap (is_due user_id year month) (same q) ∙ h in cc

settled_rows :
    (env : Environment) (user_id target : String) (ctx : TrustedPeriodContext) (year month : ℤ)
    (store : Store) (d : ProRataSchedule)
    → IsKeyed store.schedules
    → row_of d.id store.schedules ≡ some d
    → let due = get_pending_pro_rata user_id year month store.schedules in
      row_of d.id (apply_all env user_id target ctx due store).0.schedules
      ≡ some (if is_due user_id year month d then meet (fate env user_id target ctx d) d else d)
settled_rows env user_id target ctx year month store d k found =
    let due = get_pending_pro_rata user_id year month store.schedules in
    let fs = due-found user_id year month store.schedules k in
    let (done, frame) =
      apply_all-rows env user_id target ctx due store
        (due-IsKeyed user_id year month store.schedules k) fs in
    elim (Bool-cases (is_due user_id year month d)) [
      | inl e ↦
          let m =
            due-mem user_id year month store.schedules d e
              (mem_of_row_of d.id store.schedules d found).0 in
          rw e (
            All_at
              (λ x.
                row_of x.id (apply_all env user_id target ctx due store).0.schedules
                ≡ some (meet (fate env user_id target ctx x) x))
              d due done m)
      | inr e ↦
          let f =
            not_due-IsFresh user_id year month store.schedules due d e found fs
              (due-test user_id year month store.schedules) in
          rw e (frame d.id f ∙ found)
    ]

-- Where the due rows can be read, and ids are unique, a row of the table ends in the state of its own
-- fate if it is due in the period (the user's, of the period's month, pending), and is as it was if it
-- is not. The fate is that of the row alone: a failure of one row stops none of the others.
pub apply_pending_pro_rata_lem :
    (env : Environment) (user_id : String) (period : BudgetPeriod) (store : Store)
    (d : ProRataSchedule)
    → env.read_pending period.year period.month ≡ none
    → IsKeyed store.schedules
    → row_of d.id store.schedules ≡ some d
    → row_of d.id (apply_pending_pro_rata env user_id period store).0.schedules
      ≡ some (
          if is_due user_id period.year period.month d
          then meet
              (fate env user_id
                (normalize_currency_code period.reporting_currency_code)
                (trusted_context period)
                d)
              d
          else d)
unfolding apply_pending_pro_rata
apply_pending_pro_rata_lem env user_id period store d r k found =
    rw (r, apply_pending_pro_rata)
      (settled_rows env user_id (normalize_currency_code period.reporting_currency_code)
        (trusted_context period) period.year period.month store d k found)
