-- ===== src/Store.antt =====
-- src/store: the store of the shared libraries, its two indices and its garbage collection. The
-- files of the store are the names and hashes that have one; hashing and linking are not modelled.
pub mod Dedup
pub mod Gc
mod Examples
