-- ===== src/Expense/Tests.antt =====
-- Runs of the expense service's model, and its theorems at concrete inputs.
use gofin.Prelude.{◌==◌, String, ◌≡◌, refl, Bool, false, none, some, [], ◌∷◌, map, arith}
use gofin.Prelude.Int.{◌+ℤ◌, wrap32, pos}
use gofin.Prelude.Order.{lt_str}
use gofin.Expense.Keyset.{
  next_cursor, page_of, earlier, get_expenses_by_user_after, page_sent, history, send_all,
  pages_from, stream_all_user_expenses,
}
use gofin.Expense.Keyset.Stream.{stream_all_user_expenses-send_all}
use gofin.Prelude.Ascending.{Ascending}
use gofin.Validator.{check}
use gofin.Expense.Installments.Accepted.{create_pro_rata_installment-Installed, Installed}
use gofin.Expense.Validation.{is_iso_date, byte_length}
use gofin.Expense.Installments.{create_pro_rata_installment}
use gofin.Finance.ProRata.{CreateProRataInstallmentInput}
use gofin.Api.{other, err, ok}
use gofin.Expense.Ledger.Replay.{create_expense-replay}
use gofin.Expense.Ledger.Immutable.{
  delete_expense-Deleted, correct_expense-Corrected, Corrected, Deleted,
}
use gofin.Expense.Model.{Expense, Peers, Clock, CreateExpenseRequest, CorrectExpenseRequest}
use gofin.Expense.Ledger.{
  build_identity_snapshot, delete_expense, create_expense, new_expense, correct_expense,
}

abbrev peers : Peers
peers = record {
  reporting_currency = λ user y m. ok "GBP";
  convert_amount = λ r. err (other "unreachable");
  convert_with_snapshot = λ r s. err (other "unreachable");
  statement = λ name. none;
}

abbrev clock : Clock
clock = record { year = pos 2026; month = pos 1; text = "2026-01-15T10:00:00Z" }

-- A test that only looks at the length.
abbrev looks_like_uuid : String → Bool
unfolding byte_length
looks_like_uuid s = byte_length s == 36

abbrev coffee : CreateExpenseRequest
coffee = record {
  name = "Coffee";
  amount = pos 350;
  transaction_currency_code = "";
  expense_type = "desires";
  tag_id = "tag-1";
  expense_date_iso = "2026-01-15";
  period_year = pos 2026;
  period_month = pos 1;
  is_pro_rata = false;
  pro_rata_group = "";
  pro_rata_index = pos 0;
  pro_rata_total = pos 0;
  idempotency_key = "6f1c2f0e-6d1b-4c57-9a55-0d7e4f6f0b11";
}

abbrev coffee_row : Expense
unfolding new_expense build_identity_snapshot
coffee_row =
    new_expense coffee "user-1" "exp-1" clock.text
      (build_identity_snapshot (pos 350) "GBP" "GBP" clock.text)

coffee_run :
    create_expense looks_like_uuid peers clock [] "user-1" "exp-1" coffee
    ≡ (coffee_row ∷ [], ok coffee_row)
unfolding create_expense coffee_row looks_like_uuid
coffee_run = refl

create_expense-replay_example :
    create_expense looks_like_uuid peers clock (coffee_row ∷ []) "user-1" "exp-2" coffee
    ≡ (coffee_row ∷ [], ok coffee_row)
create_expense-replay_example =
    create_expense-replay looks_like_uuid peers peers clock clock [] (coffee_row ∷ []) "user-1"
      "exp-1" "exp-2" coffee coffee_row coffee_run refl

delete_expense-Deleted_example :
    Deleted clock
      (coffee_row ∷ [])
      "user-1"
      "exp-1"
      (delete_expense peers clock (coffee_row ∷ []) "user-1" "exp-1")
delete_expense-Deleted_example =
    delete_expense-Deleted peers clock (coffee_row ∷ []) "user-1" "exp-1"

abbrev two_coffees : CorrectExpenseRequest
two_coffees = record {
  name = "Two coffees";
  amount = pos 700;
  transaction_currency_code = "GBP";
  expense_type = "desires";
  tag_id = "tag-1";
  expense_date_iso = "2026-01-15";
}

correct_expense-Corrected_example :
    Corrected clock
      (coffee_row ∷ [])
      "user-1"
      "exp-1"
      (correct_expense peers clock (coffee_row ∷ []) "user-1" "exp-1" "exp-2" two_coffees)
correct_expense-Corrected_example =
    correct_expense-Corrected peers clock (coffee_row ∷ []) "user-1" "exp-1" "exp-2" two_coffees

-- The correction runs through: the old row is corrected and the new one active.
two_coffees_run :
    map
      (λ e. e.status)
      (correct_expense peers clock (coffee_row ∷ []) "user-1" "exp-1" "exp-2" two_coffees).0
    ≡ "corrected" ∷ "active" ∷ []
unfolding correct_expense coffee_row
two_coffees_run = refl

abbrev second_of_three : CreateProRataInstallmentInput
second_of_three = record {
  user_id = "user-1";
  period_context = record {
    period_id = "period-2";
    user_id = "user-1";
    year = pos 2026;
    month = pos 2;
    reporting_currency_code = "GBP";
    source = "finance_service";
  };
  name = "Laptop";
  amount = pos 40000;
  currency = "USD";
  expense_type = "desires";
  tag_id = "tag-1";
  expense_date = "2026-02-01";
  pro_rata_group = "group-1";
  pro_rata_index = pos 2;
  pro_rata_total = pos 3;
  captured_rate_snapshot = some (record {
    snapshot_version = pos 1;
    source = "open_exchange_rates";
    base_currency = "USD";
    rate_timestamp = "2026-01-15T00:00:00Z";
    captured_at = "2026-01-15T10:00:00Z";
    expires_at = "2026-01-16T00:00:00Z";
    rates_by_currency = ("USD", "1") ∷ ("GBP", "0.75") ∷ [];
  });
}

-- The fx service answers with the rate of the snapshot.
abbrev peers_with_rates : Peers
peers_with_rates = record {
  reporting_currency = λ user y m. ok "GBP";
  convert_amount = λ r. err (other "unreachable");
  convert_with_snapshot = λ r s. ok (record {
    converted_amount = pos 30000;
    exchange_rate = "0.75";
    source = "open_exchange_rates";
    rate_timestamp = "2026-01-15T00:00:00Z";
    expires_at = "2026-01-16T00:00:00Z";
  });
  statement = λ name. none;
}

create_pro_rata_installment-Installed_example : Installed (coffee_row ∷ []) second_of_three (
    create_pro_rata_installment peers_with_rates "exp-2" clock.text
      (coffee_row ∷ [])
      second_of_three)
create_pro_rata_installment-Installed_example =
    create_pro_rata_installment-Installed peers_with_rates "exp-2" clock.text (coffee_row ∷ [])
      second_of_three

-- The installment is written, for the converted amount.
second_of_three_run :
    map
      (λ e. e.reporting_amount)
      (create_pro_rata_installment peers_with_rates "exp-2" clock.text
        (coffee_row ∷ [])
        second_of_three).0
    ≡ pos 350 ∷ pos 30000 ∷ []
unfolding create_pro_rata_installment coffee_row is_iso_date check
second_of_three_run = refl

abbrev later_row : Expense
later_row = record coffee_row { id = "e2"; created_at = "2099-02-01T00:00:00Z" }

-- Two rows in pages of one, stored the other way round.
two_pages_run :
    stream_all_user_expenses
      (λ rows. rows)
      (λ c. none)
      (λ e. none)
      "user-1"
      (later_row ∷ coffee_row ∷ [])
      (pos 1)
    ≡ ok (some (coffee_row ∷ later_row ∷ [], none))
unfolding stream_all_user_expenses pages_from page_sent send_all get_expenses_by_user_after page_of
    next_cursor lt_str coffee_row wrap32 ◌+ℤ◌
two_pages_run = refl

stream_all_user_expenses-send_all_example :
    (stream_all_user_expenses
        (λ rows. rows)
        (λ c. none)
        (λ e. none)
        "user-1"
        (later_row ∷ coffee_row ∷ [])
        (pos 1)
      ≡ ok (some (send_all (λ e. none) (history "user-1" (later_row ∷ coffee_row ∷ [])))))
    × Ascending earlier (history "user-1" (later_row ∷ coffee_row ∷ []))
unfolding coffee_row
stream_all_user_expenses-send_all_example =
    stream_all_user_expenses-send_all (λ rows. rows) (λ c. none) (λ e. none) "user-1"
      (later_row ∷ coffee_row ∷ []) (pos 1) (omega arith) refl (λ c. refl) ((refl, tt), (tt, tt))
      (refl, (refl, tt))
