-- ===== src/Solver.antt =====
-- src/package/solver.rs: what the program hands to the solver pubgrub, and what it makes of the
-- answer. The solver and its version ranges are parameters.
pub mod Names
pub mod Ranges
pub mod Best
pub mod Newest
pub mod Packages
mod Examples
