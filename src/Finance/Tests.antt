-- ===== src/Finance/Tests.antt =====
-- Runs of the finance service's model, and its theorems at concrete inputs.
use gofin.Prelude.{
  if◌then◌else◌, length, replicate, ℕ, ◌+◌, ◌-◌, ◌/◌, ◌%◌, ◌≤◌, String, ◌≡◌, refl, ◌↔◌, true, false,
  none, some, List, [], ◌∷◌, ◌++◌, map, arith, eq_iff, str_eq,
}
use gofin.Finance.Tags.{written, Tag, TagPeers, delete_tag}
use gofin.Finance.Tags.Unused.{delete_tag-TagDeleted, TagDeleted}
use gofin.Finance.Dashboard.Spending.{compute_period_summary_lem, spent_on, spent_in_all}
use gofin.Prelude.Int.{leb_ℤ, pos_part, ◌*ℤ◌, ◌-ℤ◌, ◌+ℤ◌, wrap64, wrap32, quot, ℤ, pos}
use gofin.Finance.Dashboard.Shares.{allocate_categories-IsFair, IsFair}
use gofin.Finance.Dashboard.{allocate_categories, Float, compute_period_summary}
use gofin.Finance.Model.{
  ExpenseData, pending, applied, CapturedRateSnapshot, BudgetPeriod, DefaultSettings,
  ProRataSchedule,
}
use gofin.Finance.CreatePeriod.{
  latest_period, create_period_with_pro_rata, CreatePeriodResponse, CreatePeriodRequest,
}
use gofin.Finance.CreatePeriod.Whole.{create_period_with_pro_rata-Grown, GrownIn}
use gofin.Finance.ProRata.Due.{apply_pending_pro_rata_lem}
use gofin.Finance.ProRata.Ledger.{apply_all-effects, applied_rows, accepted_inputs}
use gofin.Finance.Installments.Sum.{installments_conserve, sum_ℤ}
use gofin.Finance.Months.Missed.{compute_missed_months_lem}
use gofin.Finance.ProRata.Settle.{fate, meet}
use gofin.Finance.Periods.Locked.{update_period-Written, Written}
use gofin.Finance.Months.Window.{trend_window_lem}
use gofin.Finance.Split.{validate_eds_split_iff, IsSplit, validate_eds_split}
use gofin.Finance.Months.Calendar.{months_from, month_at}
use gofin.Finance.ProRata.Create.Whole.{create_pro_rata_expense-Split, Split}
use gofin.Finance.Periods.{update_period, UpdatePeriodRequest}
use gofin.Currency.{normalize_currency_code}
use gofin.Finance.ProRata.{
  trusted_context, is_due, apply_pending_pro_rata, Environment, Store, apply_all,
}
use gofin.Api.{ok, Result}
use gofin.Finance.ProRata.Create.{
  ProRataResponse, CreateProRataRequest, Group, new_schedule, created_expense,
  create_pro_rata_expense, first_input,
}
use gofin.Finance.ProRata.Rows.{row_of}
use gofin.Finance.Installments.{calculate_installments}
use gofin.Finance.Months.{trend_window, compute_missed_months}

abbrev rates : CapturedRateSnapshot
rates = record {
  snapshot_version = pos 1;
  source = "provider";
  base_currency = "USD";
  rate_timestamp = "2026-01-15T00:00:00Z";
  captured_at = "2026-01-15T10:00:00Z";
  expires_at = "2026-01-16T00:00:00Z";
  rates_by_currency = ("USD", "1") ∷ ("GBP", "0.8") ∷ [];
}

abbrev accepting : Environment
accepting = record {
  create_installment = λ i. ok (record { id = "exp-1"; created_at = "2026-01-15T10:00:00Z" });
  read_pending = λ y m. none;
  mark_applied = λ id. none;
  mark_failed = λ id reason. none;
  query = λ q. none;
  capture_rate_snapshot = some (λ currencies at. ok (some rates));
  insert_period = λ p. ok "period-new";
  insert_schedule = λ s. ok "schedule-new";
}

abbrev january : BudgetPeriod
january = record {
  id = "period-1";
  user_id = "user-1";
  year = pos 2026;
  month = pos 1;
  budget_amount = pos 200000;
  reporting_currency_code = "GBP";
  essentials_percent = pos 50;
  desires_percent = pos 30;
  savings_percent = pos 20;
}

abbrev settings : DefaultSettings
settings = record {
  user_id = "user-1";
  budget_amount = pos 180000;
  essentials_percent = pos 50;
  desires_percent = pos 30;
  savings_percent = pos 20;
  currency = "GBP";
}

abbrev tables : Store
tables = record { schedules = []; periods = january ∷ []; defaults = settings ∷ []; ledger = [] }

abbrev laptop : CreateProRataRequest
laptop = record {
  name = "Laptop";
  total_amount = pos 10000;
  transaction_currency_code = " gbp ";
  expense_type = "desires";
  tag_id = "tag-1";
  expense_date_iso = "2026-01-15";
  spread_over_months = pos 3;
  period_year = pos 2026;
  period_month = pos 1;
}

abbrev shared : Group
shared = record {
  user_id = "user-1";
  pro_rata_group = "group-1";
  transaction_currency = "GBP";
  reporting_currency = "GBP";
  snapshot = rates;
}

abbrev row : String → ℤ → ℤ → ℤ → ProRataSchedule
unfolding new_schedule
row id month index amount =
    record (new_schedule shared laptop (record { year = pos 2026; month = month }) index amount) {
      id = id;
    }

abbrev laptop_response : ProRataResponse
unfolding created_expense
laptop_response = record {
  expense =
      created_expense shared laptop (pos 3334)
        (record { id = "exp-1"; created_at = "2026-01-15T10:00:00Z" });
  schedules =
      row "schedule-new" (pos 2) (pos 2) (pos 3333)
      ∷ row "schedule-new" (pos 3) (pos 3) (pos 3333)
      ∷ [];
}

abbrev laptop_tables : Store
unfolding first_input normalize_currency_code
laptop_tables = record tables {
  schedules = laptop_response.schedules;
  ledger = first_input shared laptop january (pos 3334) ∷ [];
}

laptop_run :
    create_pro_rata_expense accepting tables "user-1" "group-1" "2026-01-15T10:00:00Z" laptop
    ≡ (laptop_tables, ok laptop_response)
unfolding create_pro_rata_expense first_input new_schedule created_expense quot wrap32 wrap64 ◌+ℤ◌
    ◌-ℤ◌ ◌*ℤ◌
laptop_run = refl

create_pro_rata_expense-Split_example : Split 10000 3 24312 tables laptop_tables laptop_response
create_pro_rata_expense-Split_example =
    create_pro_rata_expense-Split accepting tables laptop_tables "user-1" "group-1"
      "2026-01-15T10:00:00Z" laptop laptop_response 10000 3 24312 refl refl (omega arith)
      (omega arith) (omega arith) start_year start_month laptop_run
  where
    start_year : pos 2026 ≡ (month_at 24312).year
    start_year = unfold month_at in refl

    start_month : pos 1 ≡ (month_at 24312).month
    start_month = unfold month_at in refl

abbrev february : BudgetPeriod
february = record january { id = "period-2"; month = pos 2 }

abbrev due_row : ProRataSchedule
due_row = row "schedule-2" (pos 2) (pos 2) (pos 3333)

abbrev due_tables : Store
due_tables = record tables {
  schedules = due_row ∷ row "schedule-3" (pos 3) (pos 3) (pos 3333) ∷ [];
}

-- The row of February is applied and that of March waits.
february_run :
    map (λ s. s.status) (apply_pending_pro_rata accepting "user-1" february due_tables).0.schedules
    ≡ applied ∷ pending ∷ []
unfolding apply_pending_pro_rata row
february_run = refl

apply_pending_pro_rata_lem_example :
    row_of "schedule-2" (apply_pending_pro_rata accepting "user-1" february due_tables).0.schedules
    ≡ some (
        if is_due "user-1" (pos 2026) (pos 2) due_row
        then meet
            (fate accepting "user-1"
              (normalize_currency_code "GBP")
              (trusted_context february)
              due_row)
            due_row
        else due_row)
unfolding row
apply_pending_pro_rata_lem_example =
    apply_pending_pro_rata_lem accepting "user-1" february due_tables due_row refl
      (((λ e. str_differ e), tt), (tt, tt)) (unfold row_of in refl)
  where
    march : String
    march = "schedule-3"

    str_differ : march ≡ "schedule-2" → ⊥
    str_differ e = let h : str_eq march "schedule-2" ≡ true = (eq_iff march "schedule-2").1 e in cc

apply_all-effects_example :
    ((apply_all accepting "user-1" "GBP"
        (trusted_context february)
        (due_row ∷ [])
        due_tables).0.ledger
      ≡ [] ++ accepted_inputs accepting "user-1" "GBP" (trusted_context february) (due_row ∷ []))
    × ((apply_all accepting "user-1" "GBP" (trusted_context february) (due_row ∷ []) due_tables).1
        ≡ applied_rows accepting "user-1" "GBP" (trusted_context february) (due_row ∷ []))
apply_all-effects_example =
    apply_all-effects accepting "user-1" "GBP" (trusted_context february) (due_row ∷ []) due_tables

abbrev april_request : CreatePeriodRequest
april_request = record {
  year = pos 2026;
  month = pos 4;
  budget_amount = some (pos 200000);
  reporting_currency_code = "GBP";
  essentials_percent = pos 50;
  desires_percent = pos 30;
  savings_percent = pos 20;
}

create_period_with_pro_rata-Grown_example :
    (result : Store × Result CreatePeriodResponse) × (create_period_with_pro_rata accepting "user-1"
        april_request tables
      ≡ some result)
    × GrownIn "user-1" april_request (months_from 24313 2) tables result
create_period_with_pro_rata-Grown_example =
    create_period_with_pro_rata-Grown accepting "user-1" april_request january 24312 24315 tables
      (omega arith) (omega arith) (unfold latest_period in refl) (unfold month_at in refl)
      (unfold month_at in refl) (unfold month_at in refl) (unfold month_at in refl)

abbrev split_request : UpdatePeriodRequest
split_request = record {
  budget_amount = pos 210000;
  essentials_percent = pos 60;
  desires_percent = pos 30;
  savings_percent = pos 10;
}

update_period-Written_example :
    Written
      (record { year = pos 2026; month = pos 1 })
      tables
      "user-1"
      "period-1"
      split_request
      (update_period accepting
        (record { year = pos 2026; month = pos 1 })
        tables
        "user-1"
        "period-1"
        split_request)
update_period-Written_example =
    update_period-Written accepting (record { year = pos 2026; month = pos 1 }) tables "user-1"
      "period-1" split_request

installments_conserve_example :
    let all = calculate_installments (pos 10000) (pos 3) in
    (length all ≡ 3)
    × (sum_ℤ all ≡ pos 10000)
    × ((first : ℕ) × (10000 / 3 ≤ first) × (all ≡ pos first ∷ replicate (3 - 1) (pos (10000 / 3))))
installments_conserve_example = installments_conserve 10000 3 (omega arith) (omega arith)

compute_missed_months_lem_example :
    compute_missed_months
      (pos (24310 / 12))
      (pos (24310 % 12 + 1))
      (pos (24314 / 12))
      (pos (24314 % 12 + 1))
    ≡ some (months_from (24310 + 1) (24314 - (24310 + 1)))
compute_missed_months_lem_example =
    compute_missed_months_lem 24310 24314 (omega arith) (omega arith)

validate_eds_split_iff_example :
    (validate_eds_split (pos 50) (pos 30) (pos 20) ≡ none) ↔ IsSplit (pos 50) (pos 30) (pos 20)
validate_eds_split_iff_example = validate_eds_split_iff (pos 50) (pos 30) (pos 20)

trend_window_lem_example : trend_window (month_at (24308 + 5)) 6 ≡ months_from 24308 6
trend_window_lem_example = trend_window_lem 24308 5 (omega arith) (omega arith)

-- Floating-point operations that drop fractions.
abbrev whole_numbers : Float
whole_numbers = record {
  F = ℤ;
  of_int = λ z. z;
  to_int = λ z. z;
  times = λ a b. a *ℤ b;
  over = λ a b. quot a (pos_part b);
  plus = λ a b. a +ℤ b;
  round = λ z. z;
  at_most = λ a b. leb_ℤ a b;
}

abbrev spending : List ExpenseData
spending = rent ∷ cinema ∷ []
  where
    rent : ExpenseData
    rent = record {
      id = "e1";
      reporting_amount = pos 90000;
      reporting_currency_code = "GBP";
      expense_type = "essentials";
      tag_id = "tag-1";
      expense_date = "2026-01-02";
    }

    cinema : ExpenseData
    cinema = record rent { id = "e2"; reporting_amount = pos 1250; expense_type = "desires" }

compute_period_summary_lem_example :
    let r =
      compute_period_summary whole_numbers january spending
        (pos 2026)
        (pos 1)
        (record { year = pos 2026; month = pos 1; day = pos 10 }) in
    let parts = allocate_categories (pos 200000) (pos 50) (pos 30) (pos 20) in
    (r.total_spent ≡ wrap64 (spent_in_all spending))
    × (r.essentials.spent ≡ wrap64 (spent_on "essentials" spending))
    × (r.desires.spent ≡ wrap64 (spent_on "desires" spending))
    × (r.savings.spent ≡ wrap64 (spent_on "savings" spending))
    × (r.remaining ≡ wrap64 (pos 200000 -ℤ wrap64 (spent_in_all spending)))
    × (r.essentials.allocated ≡ parts.essentials)
    × (r.desires.allocated ≡ parts.desires)
    × (r.savings.allocated ≡ parts.savings)
compute_period_summary_lem_example =
    compute_period_summary_lem whole_numbers january spending (pos 2026) (pos 1)
      (record { year = pos 2026; month = pos 1; day = pos 10 })

allocate_categories-IsFair_example :
    IsFair 100001 33 33 34 (allocate_categories (pos 100001) (pos 33) (pos 33) (pos 34))
allocate_categories-IsFair_example = allocate_categories-IsFair 100001 33 33 34 refl (omega arith)

abbrev tag_peers : TagPeers
tag_peers = record {
  create_tag = λ user name. written "tag-2";
  update_tag = λ id name. written id;
  query = λ name. none;
  count_expenses_by_tag = λ user id. ok (pos 0);
}

abbrev hobby : Tag
hobby = record { id = "tag-9"; user_id = "user-1"; name = "Hobby"; is_default = false }

delete_tag-TagDeleted_example :
    TagDeleted tag_peers "user-1" "tag-9" []
      (hobby ∷ [])
      (delete_tag tag_peers "user-1" "tag-9" [] (hobby ∷ []))
delete_tag-TagDeleted_example = delete_tag-TagDeleted tag_peers "user-1" "tag-9" [] (hobby ∷ [])

hobby_run : delete_tag tag_peers "user-1" "tag-9" [] (hobby ∷ []) ≡ ([], none)
unfolding delete_tag
hobby_run = refl
