-- ===== src/Resolver.antt =====
-- src/package/resolver: the packages that a root requires, and the graph and the cache around them.
pub mod Collect
pub mod Graph
pub mod Cache
mod Examples
