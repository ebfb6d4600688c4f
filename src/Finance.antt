-- ===== src/Finance.antt =====
-- services/finance: budget periods, pro-rata schedules and the dashboard.
pub mod Installments
pub mod Months
pub mod Model
pub mod Split
pub mod Dashboard
pub mod Health
pub mod ProRata
pub mod Periods
pub mod CreatePeriod
pub mod Tags
pub mod Tests
