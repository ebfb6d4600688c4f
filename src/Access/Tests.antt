-- ===== src/Access/Tests.antt =====
-- Runs of the access package's model, and its theorems at concrete inputs.
use gofin.Prelude.{
  All, ℕ, zero, suc, ◌≡◌, refl, sym, ◌↔◌, ◌⊎◌, inl, inr, true, false, Option, none, some, List, [],
  ◌∷◌, Memᴰ, arith, eq_iff,
}
use gofin.Access.Overlap.{registry-resolve, Instance}
use gofin.Prelude.Text.{has_prefix, split_slash}
use gofin.Access.Levels.{public, personal, deny, authenticated, Route}
use gofin.Access.Registered.{
  verify_registration_iff, NothingMissing, NothingExtra, agrees, registered_as, verify_registration,
}
use gofin.Access.Registry.{routes_for, registry}
use gofin.Access.Resolver.Best.{resolve_in-Chosen, Unbeaten}
use gofin.Access.Resolver.{fits, resolve_in, resolve}

abbrev login : Route
login = record {
  id = "auth.login";
  service = "auth";
  method = "POST";
  path = "/api/auth/login";
  access = public;
}

abbrev any_expense : Route
any_expense = record {
  id = "expense.get";
  service = "expense";
  method = "GET";
  path = "/api/expenses/:id";
  access = personal;
}

abbrev suggestions : Route
suggestions = record {
  id = "expense.suggestions";
  service = "expense";
  method = "GET";
  path = "/api/expenses/suggestions";
  access = authenticated;
}

resolve_in-Chosen_example :
    ((resolve_in (any_expense ∷ suggestions ∷ []) "GET" "/api/expenses/suggestions" ≡ deny)
      × All
          (λ r. fits "GET" "/api/expenses/suggestions" r ≡ false)
          (any_expense ∷ suggestions ∷ []))
    ⊎ ((b : Route) × (resolve_in (any_expense ∷ suggestions ∷ []) "GET" "/api/expenses/suggestions"
          ≡ b.access)
        × Memᴰ b (any_expense ∷ suggestions ∷ [])
        × (fits "GET" "/api/expenses/suggestions" b ≡ true)
        × All (Unbeaten "GET" "/api/expenses/suggestions" b) (any_expense ∷ suggestions ∷ []))
resolve_in-Chosen_example =
    resolve_in-Chosen (any_expense ∷ suggestions ∷ []) "GET" "/api/expenses/suggestions"

-- The literal route wins over the parameter.
suggestions_run :
    resolve_in (any_expense ∷ suggestions ∷ []) "GET" "/api/expenses/suggestions" ≡ authenticated
unfolding resolve_in
suggestions_run = refl

verify_registration_iff_example :
    (verify_registration "expense" (registered_as any_expense ∷ []) ≡ agrees) ↔ (
      NothingExtra (routes_for "expense") (registered_as any_expense ∷ [])
      × NothingMissing (routes_for "expense") (registered_as any_expense ∷ []))
verify_registration_iff_example = verify_registration_iff "expense" (registered_as any_expense ∷ [])

abbrev nth : ℕ → List Route → Option Route
nth n [] = none
nth zero (r ∷ rs) = some r
nth (suc n) (r ∷ rs) = nth n rs

listed_at : (n : ℕ) (rs : List Route) (r : Route) → nth n rs ≡ some r → Memᴰ r rs
listed_at n [] r h = cc
listed_at zero (x ∷ rs) r h = let e : x ≡ r = cc in Memᴰ.head (sym e)
listed_at (suc n) (x ∷ rs) r h = Memᴰ.tail (listed_at n rs r h)

registry-resolve_example : resolve "GET" "/api/expenses/e-17" ≡ personal
registry-resolve_example =
    registry-resolve any_expense "/api/expenses/e-17" any_expense_listed any_expense_answers
  where
    any_expense_listed : Memᴰ any_expense registry
    any_expense_listed = listed_at 36 registry any_expense (unfold registry in refl)

    any_expense_answers : Instance (split_slash any_expense.path) (split_slash "/api/expenses/e-17")
    any_expense_answers =
        unfold split_slash has_prefix in
        (
          inl refl,
          (inl refl, (inl refl, (inr (refl, λ e. ground (arith, (eq_iff "e-17" "").1 e)), tt))),
        )
