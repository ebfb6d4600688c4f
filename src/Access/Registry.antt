-- ===== src/Access/Registry.antt =====
-- services/access/registry.go: the routes that the services register, in its order.
use gofin.Prelude.{if◌then◌else◌, String, ◌&&◌, List, [], ◌∷◌, ◌++◌, str_eq}
use gofin.Access.Levels.{Level, public, authenticated, personal, admin, Route}

abbrev route : String → String → String → String → Level → Route
route id service method path access = record {
  id = id;
  service = service;
  method = method;
  path = path;
  access = access;
}

abbrev auth_routes : List Route
auth_routes =
    route "auth.register" "auth" "POST" "/api/auth/register" public
    ∷ route "auth.login" "auth" "POST" "/api/auth/login" public
    ∷ route "auth.refresh" "auth" "POST" "/api/auth/refresh" public
    ∷ route "auth.logout" "auth" "POST" "/api/auth/logout" authenticated
    ∷ route "auth.me.get" "auth" "GET" "/api/auth/me" authenticated
    ∷ route "auth.me.update" "auth" "PUT" "/api/auth/me" authenticated
    ∷ route "auth.me.password" "auth" "POST" "/api/auth/me/password" authenticated
    ∷ route "auth.onboarding_complete" "auth" "POST" "/api/auth/onboarding-complete" personal
    ∷ route "auth.assume" "auth" "POST" "/api/auth/assume" admin
    ∷ route "auth.restore" "auth" "POST" "/api/auth/restore" authenticated
    ∷ route "admin.users.list" "auth" "GET" "/api/admin/users" admin
    ∷ []

abbrev finance_routes : List Route
finance_routes =
    route "finance.onboarding" "finance" "POST" "/api/finance/onboarding" personal
    ∷ route "finance.defaults.get" "finance" "GET" "/api/finance/defaults" personal
    ∷ route "finance.currencies.list" "finance" "GET" "/api/finance/currencies" authenticated
    ∷ route "finance.defaults.update" "finance" "PUT" "/api/finance/defaults" personal
    ∷ route "finance.periods.current" "finance" "GET" "/api/finance/periods/current" personal
    ∷ route "finance.periods.list" "finance" "GET" "/api/finance/periods" personal
    ∷ route "finance.periods.create" "finance" "POST" "/api/finance/periods" personal
    ∷ route "finance.periods.update" "finance" "PUT" "/api/finance/periods/:id" personal
    ∷ route "finance.tags.list" "finance" "GET" "/api/finance/tags" personal
    ∷ route "finance.tags.create" "finance" "POST" "/api/finance/tags" personal
    ∷ route "finance.tags.update" "finance" "PUT" "/api/finance/tags/:id" personal
    ∷ route "finance.tags.delete" "finance" "DELETE" "/api/finance/tags/:id" personal
    ∷ route "finance.summary" "finance" "GET" "/api/finance/summary" personal
    ∷ route "finance.spending.by_tag" "finance" "GET" "/api/finance/spending/by-tag" personal
    ∷ route "finance.spending.cumulative" "finance" "GET" "/api/finance/spending/cumulative"
        personal
    ∷ route "finance.spending.comparison" "finance" "GET" "/api/finance/spending/comparison"
        personal
    ∷ route "finance.spending.trends" "finance" "GET" "/api/finance/spending/trends" personal
    ∷ route "finance.prorata.create" "finance" "POST" "/api/finance/prorata" personal
    ∷ route "finance.prorata.upcoming" "finance" "GET" "/api/finance/prorata/upcoming" personal
    ∷ route "finance.health_score" "finance" "GET" "/api/finance/health-score" personal
    ∷ route "finance.health_score.trend" "finance" "GET" "/api/finance/health-score/trend" personal
    ∷ []

abbrev expense_routes : List Route
expense_routes =
    route "expense.create" "expense" "POST" "/api/expenses" personal
    ∷ route "expense.list" "expense" "GET" "/api/expenses" personal
    ∷ route "expense.suggestions" "expense" "GET" "/api/expenses/suggestions" personal
    ∷ route "expense.prorata.group" "expense" "GET" "/api/expenses/prorata/:groupId" personal
    ∷ route "expense.get" "expense" "GET" "/api/expenses/:id" personal
    ∷ route "expense.correct" "expense" "POST" "/api/expenses/:id/correct" personal
    ∷ route "expense.delete" "expense" "DELETE" "/api/expenses/:id" personal
    ∷ route "expense.history" "expense" "GET" "/api/expenses/:id/history" personal
    ∷ []

abbrev datarights_routes : List Route
datarights_routes =
    route "datarights.exports.create" "datarights" "POST" "/api/datarights/exports" personal
    ∷ route "datarights.exports.list" "datarights" "GET" "/api/datarights/exports" personal
    ∷ route "datarights.exports.get" "datarights" "GET" "/api/datarights/exports/:id" personal
    ∷ route "datarights.deletions.create" "datarights" "POST" "/api/datarights/deletions" admin
    ∷ route "datarights.deletions.get" "datarights" "GET" "/api/datarights/deletions/:id" admin
    ∷ []

unfoldable pub registry : List Route
registry = auth_routes ++ (finance_routes ++ (expense_routes ++ (datarights_routes)))

-- `RoutesFor` over a list of routes.
unfoldable pub routes_for_in : List Route → String → List Route
routes_for_in [] service = []
routes_for_in (r ∷ rs) service =
    if str_eq r.service service then r ∷ routes_for_in rs service else routes_for_in rs service

unfoldable pub routes_for : String → List Route
unfolding registry routes_for_in
routes_for = routes_for_in registry

-- `RouteID` over a list of routes; "" where no route fits.
unfoldable pub route_id_in : List Route → String → String → String
route_id_in [] method pattern = ""
route_id_in (r ∷ rs) method pattern =
    if str_eq r.method method && str_eq r.path pattern then r.id else route_id_in rs method pattern

unfoldable pub route_id : String → String → String
unfolding registry route_id_in
route_id = route_id_in registry
