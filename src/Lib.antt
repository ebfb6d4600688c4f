-- ===== src/Lib.antt =====
-- gofin, a personal finance application: what its Go services decide, and the theorems that hold of
-- it.
--
-- The services are an API gateway, the finance, expense, auth, fx and datarights services, and
-- packages that they share. A request enters at the gateway (services/gateway), whose access
-- middleware resolves the route to an access level through the registry of services/access, asks
-- the auth service about the access cookie, and forwards the request with the identity headers of
-- the session. The finance service keeps budget periods, default settings and pro-rata schedules:
-- an amount spread over months, whose first installment the expense service writes at once and
-- whose later ones wait as rows until the budget period of their month is created.
--
-- Prelude holds what the modules share: tests and conditionals, list functions (Prelude/Lists,
-- Prelude/Alls, Prelude/Slices, Prelude/Ascending), what an UPDATE and a DELETE leave of a table
-- (Prelude/Changes), Go's signed integers with their wrap-around (Prelude/Int), the string
-- functions (Prelude/Text), the order of texts (Prelude/Order) and number formats (Prelude/Format).
-- Api is services/apierr, with errors as values and a result type; Validator is
-- services/shared/validator; Currency is services/shared/currency and the normalization of codes.
-- Access models services/access: the levels and the registry (Access/Levels, Access/Registry),
-- Resolve with its matching and priorities (Access/Resolver), and VerifyRegistration
-- (Access/Registered).
-- Gateway models services/gateway/internal/access: Gateway/Headers is the header map,
-- Gateway/Control is AccessControl as a function from a request to the next call or an abort.
-- Finance models services/finance/internal: Finance/Installments is CalculateInstallments,
-- Finance/Months is AdvanceMonth, computeMissedMonths and the month window of GetSpendingTrends,
-- Finance/Split is ValidateEDSSplit, Finance/Periods is GetCurrentPeriod, GetPeriodContext and
-- UpdatePeriod, Finance/ProRata is applyPendingProRata and what it calls, Finance/ProRata/Create is
-- CreateProRataExpense, Finance/CreatePeriod is CreatePeriodWithProRata and createMissedPeriods,
-- Finance/Tags is CreateTag, UpdateTag and DeleteTag, and Finance/Dashboard is ComputePeriodSummary
-- with allocateCategories; float64 is a parameter there. Finance/Health is the health score: its
-- components and weights, Finance/Health/Money and Finance/Health/Insight its texts,
-- Finance/Health/Score is ComputeHealthScore, Finance/Health/Service the stored scores and
-- Finance/Health/Trend their trend.
-- Fx models services/fx/internal: Fx/Decimal is the exact arithmetic and rounding of
-- service/decimal.go, Fx/Model the data, and Fx/Converter is service/converter.go with the cache of
-- cache/rates.go, whose entry is passed from call to call.
-- Expense models services/expense/internal: Expense/Validation is the request checks,
-- Expense/Ledger is CreateExpense, CorrectExpense and DeleteExpense on a list of rows,
-- Expense/Installments is CreateProRataInstallment on the same list, and Expense/Keyset is
-- GetExpensesByUserAfter and StreamAllUserExpenses on one too, with fuel for one page a row and one
-- more, which is enough since every page but the last has a row; Peers is what the other services
-- and the database answer.
-- Auth models services/auth/internal: Auth/Model has the records and the parameters,
-- Auth/Repository the two tables, Auth/Tokens is jwt.go and password.go, Auth/Service auth.go,
-- Auth/Grpc the calls of other services, and Auth/Calls all calls that reach the service and what a
-- series of them leaves; Exec is the monad of methods that write and fail.
--
-- Datarights models services/datarights/internal: Datarights/Pool is the bounded pool of jobrunner
-- as a step relation over the goroutines of its jobs, and Datarights/Deletion is executeProvider
-- and execute of the deletion engine; the loop over the attempts goes by the number of attempts
-- left, two after the first. Datarights/Jobs is the repositories of export and deletion jobs, and
-- Datarights/Requests the services that guard their creation, with the jobs handed to the engines
-- as lists. Rows with the same creation time are listed in the order of insertion, where the
-- database leaves the order open. Errkit is services/errkit/limiter.go.
--
-- State is passed explicitly: a Store holds the tables that the finance service reads and writes,
-- as lists of rows in the order of insertion, and the installments that the expense service has
-- accepted. What other services and the database answer is an Environment, a parameter of every
-- operation: a statement that fails is an error that the environment gives for it, and writes
-- nothing. Error texts that only wrap another error are left out, since errors are read through the
-- wrapping.
--
-- Go's int32 and int64 are integers with wrap32 and wrap64 written out where the source computes.
-- The loop of computeMissedMonths has no bound of its own in the source; the model gives it twelve
-- rounds for each year between the two months and twenty-four more, since a round is a month; a run
-- that has not ended by then is the value none. Text is Unicode scalar values; upper case is exact
-- on the characters whose upper case is an ASCII letter, which is all that a currency code can turn
-- on.
--
-- Not modelled: logging, metrics and error reports, the handlers that decode requests and encode
-- responses, the generated database and protobuf code, configuration and start-up, the front end.
-- Nor are the rest of the dashboard, the other reads of the expense service, and the export engine
-- and the emails of datarights.
pub mod Prelude
pub mod Api
pub mod Validator
pub mod Currency
pub mod Access
pub mod Gateway
pub mod Finance
pub mod Auth
pub mod Datarights
pub mod Errkit
pub mod Exec
pub mod Expense
pub mod Fx
