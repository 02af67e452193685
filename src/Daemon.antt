-- ===== src/Daemon.antt =====
-- src/daemon: the server that runs the requests of its clients.
pub mod Limiter
pub mod Deploy
pub mod Dispatch
pub mod Replace
pub mod Rollback
pub mod Overlap
mod Examples
