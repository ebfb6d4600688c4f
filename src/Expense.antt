-- ===== src/Expense.antt =====
-- services/expense: the ledger of expenses and the service that writes it.
pub mod Model
pub mod Validation
pub mod Keyset
pub mod Ledger
pub mod Installments
pub mod Tests
