-- ===== src/Fx.antt =====
-- services/fx: exact conversion through captured rates, and the cache of the provider's snapshot.
pub mod Decimal
pub mod Model
pub mod Converter
pub mod Tests
