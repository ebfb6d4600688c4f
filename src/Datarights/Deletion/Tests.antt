-- ===== src/Datarights/Deletion/Tests.antt =====
-- A run of the deletion engine's model, and its theorem at that run.
use gofin.Prelude.{ℕ, zero, suc, String, ◌≡◌, refl, Option, none, some, List, [], ◌∷◌}
use gofin.Api.{Error, other}
use gofin.Datarights.Deletion.{Providers, execute}
use gofin.Datarights.Deletion.Erasure.{Executed, execute-Executed}

data Service : Type 0 where
  finance : Service
  expense : Service

-- The rows that each service has of the user, and how often the expense service will still fail.
abbrev Rows : Type 0
Rows = List String × List String × ℕ

abbrev service_name : Service → String
service_name finance = "finance"
service_name expense = "expense"

abbrev delete_rows : Service → String → Rows → Rows × Option Error
delete_rows finance user_id (finance_rows, expense_rows, failures) =
    (([], expense_rows, failures), none)
delete_rows expense user_id (finance_rows, expense_rows, zero) = ((finance_rows, [], zero), none)
delete_rows expense user_id (finance_rows, expense_rows, suc n) =
    ((finance_rows, expense_rows, n), some (other "unavailable"))

abbrev providers : Providers Service Rows
providers = record { name = service_name; delete = delete_rows; wait = λ n s. (s, none) }

abbrev IsEmptyFor : Service → Rows → Type 0
IsEmptyFor finance (f, x, n) = f ≡ []
IsEmptyFor expense (f, x, n) = x ≡ []

rows-erased :
    (k : Service) (s : Rows)
    → (delete_rows k "user-1" s).1 ≡ none
    → IsEmptyFor k (delete_rows k "user-1" s).0
rows-erased finance (f, x, n) h = refl
rows-erased expense (f, x, zero) h = refl
rows-erased expense (f, x, suc n) h = cc

rows-kept : (k j : Service) (s : Rows) → IsEmptyFor k s → IsEmptyFor k (delete_rows j "user-1" s).0
rows-kept finance finance (f, x, n) h = refl
rows-kept finance expense (f, x, zero) h = h
rows-kept finance expense (f, x, suc n) h = h
rows-kept expense finance (f, x, n) h = h
rows-kept expense expense (f, x, zero) h = refl
rows-kept expense expense (f, x, suc n) h = h

rows-wait : (k : Service) (n : ℕ) (s : Rows) → IsEmptyFor k s → IsEmptyFor k s
rows-wait k n s h = h

abbrev two_rows : Rows
two_rows = ("period-1" ∷ [], "exp-1" ∷ [], 2)

execute-Executed_example :
    Executed providers IsEmptyFor
      (expense ∷ finance ∷ [])
      (execute providers (expense ∷ finance ∷ []) "user-1" two_rows)
execute-Executed_example =
    execute-Executed providers "user-1" IsEmptyFor rows-erased rows-kept rows-wait
      (expense ∷ finance ∷ []) two_rows

-- The third attempt of the expense provider succeeds.
execute_run : execute providers (expense ∷ finance ∷ []) "user-1" two_rows ≡ (([], [], 0), none)
unfolding execute
execute_run = refl
