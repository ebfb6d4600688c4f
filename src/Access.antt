-- ===== src/Access.antt =====
-- services/access: access.go, resolver.go and registry.go, the route surface of the gateway and the
-- access level of each route.
mod Levels
mod Registry
pub mod Resolver
pub mod Registered
pub mod Overlap
pub mod Tests
unfoldable pub use Levels.*
unfoldable pub use Registry.*
