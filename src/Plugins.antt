-- ===== src/Plugins.antt =====
-- src/codegenie/plugins: scopes, the registry of plugins and the resolver.
pub mod Scope
pub mod Registry
pub mod Chain
pub mod Resolver
mod Samples
mod Tests
mod ResolverTests
