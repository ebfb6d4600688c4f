-- ===== src/Auth.antt =====
-- services/auth/internal: accounts, sessions and their tokens.
pub mod Model
pub mod Repository
pub mod Tokens
pub mod Service
pub mod Grpc
pub mod Calls
pub mod Tests
