-- ===== src/Gateway.antt =====
-- services/gateway: the access middleware that stands before every proxied route.
pub mod Headers
pub mod Control
pub mod Tests
