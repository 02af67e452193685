-- ===== src/Lib.antt =====
-- A verification library for the Samad package manager (spm), the Rust program under src/.
--
-- The program is a package manager for Debian, RPM and its own packages. A daemon (src/daemon)
-- takes requests from its clients over a socket: `RateLimiter::handle_connection` limits them and
-- `handle_inner` dispatches them; the permission engine (src/daemon/permission.rs) decides who may
-- do what. An installation resolves the packages that a root requires (src/package/resolver, over
-- src/index and the solver interface src/package/solver.rs, which order versions by
-- src/types/version.rs), looks for file conflicts in the database (src/db), puts the packages into
-- the store and writes the database in one transaction: src/daemon/transaction.rs for a plan of the
-- daemon, src/package/transaction.rs for the commands of src/package/install. Removal and upgrades
-- (src/package/install) work on the same tables behind the locks of src/db/mod.rs; src/sync.rs takes
-- in the packages of the system, src/fsck.rs checks the tables. Shared libraries are stored once
-- (src/store).
--
-- Files and sources:
--   Common         booleans, texts, lists, sorting, maps and decimal numbers; no code of the program
--   Version        src/types/version.rs: `Version`, `rpmvercmp`, Display and parse
--   Package        src/types/package.rs: `PackageId`, formats, dependencies; `RepoConfig` of
--                  src/types/config.rs (Repo)
--   Index          src/index/mod.rs: `SonameIndex` in memory; `update_index` of src/index/deb.rs with
--                  `parse_dep_entry` of src/backend/mod.rs (Deb), of src/index/rpm.rs (Rpm) and
--                  of src/index/sam.rs (Sam)
--   Solver         src/package/solver.rs: dependency strings as ranges (Ranges), the choice of a
--                  version (Best), the packages of a solution and the fallback (Packages)
--   Resolver       src/package/resolver: `phase1_collect_packages` (Collect), `DependencyCache`,
--                  `resolve` (Cache), `ResolvedGraph` and the batch conflicts (Graph)
--   Permission     src/daemon/permission.rs: `check` and the file checks, `check_rate_limit` (Rate)
--   Db             src/types/db.rs, src/db: the tables and their statements, the detection, the log
--                  and the classification of file conflicts
--   Daemon         src/daemon/mod.rs: the limiter as a step relation (Limiter), `handle_inner`
--                  (Dispatch); src/daemon/transaction.rs: `phase_conflict_detection` (Replace),
--                  `phase_prepare_store` and `RollbackGuard` (Rollback), `phase_atomic_deploy`
--                  (Deploy); the database part of `upgrade_package` of
--                  src/package/transaction.rs (Deploy/Upgrade);
--                  src/daemon/conflict.rs (Overlap, with the owners of the rows in
--                  Overlap/Owners)
--   Store          src/store/deduplication.rs (Dedup) and src/store/gc.rs (Gc)
--   Engine         src/package/transaction.rs: `plan_install` and `plan_install_local`, the first
--                  phase of `execute_smart` (Collect), the store and the links of
--                  src/package/store.rs (Stage), the stored scripts of src/package/scripts.rs
--                  (Scripts), the commit (Commit), the cleanup (Cleanup), `execute_smart` and
--                  `install_local` (Smart), `upgrade_package` (Upgrade, Conffiles)
--   Locks          `get_connection`, `with_write_lock` and `with_read_lock` of src/db/mod.rs
--   Removal        src/package/install/remove.rs
--   Upgrades       src/package/install/upgrade.rs and `autoremove_packages` of
--                  src/package/install/mod.rs
--   Users          src/package/install/user.rs, src/db/users.rs and the shared packages of
--                  src/cache/mod.rs
--   Group          src/cli/group.rs: the entry of the group `spm` in the group file
--   Sync           src/sync.rs: the packages of dpkg or rpm in the tables
--   Fsck           src/fsck.rs: the check of the tables
-- A function has the name that it has in the source, a field the name of the field; where a name is
-- a word of the language, as `package` is, it is `package_name`. The body of a loop is a function of
-- its own.
--
-- Texts are lists of bytes, and a byte is a character: names, versions and paths are ASCII. Unsigned
-- integers are natural numbers; where a number is parsed, the bound of its type is a test. The
-- table of a database is the list of its rows, a hash map is an association list. The loop of
-- `rpmvercmp` has fuel for as many rounds as the two texts have bytes, and one more, since every
-- round but the last consumes one; the search of the resolver has one round for each requirement in
-- the index and one for the root, since a name joins the queue once for each requirement at most.
-- Both amounts are proved to be enough.
--
-- The search for a free group number has the length of its range as fuel, which it walks once.
--
-- Parameters: the user and group databases of the host, the clock, the handlers behind the actions,
-- the JSON reader, the solver pubgrub with its ranges, the cycles that `tarjan_scc` finds, what a
-- fetch brings, the files that are read, which calls on files and which scripts fail, what SQLite
-- says of its integrity, and which statements of SQLite fail. The meaning of BEGIN, COMMIT and
-- ROLLBACK is that of SQLite's documentation: a statement that fails leaves the transaction open, or
-- SQLite rolls it back by itself, as it may after some errors (`undoes` of `Fault`). A mutex that its
-- own thread has locked and a file lock that its own process holds through another opening are never
-- granted, as their documentation says; other threads and processes are not modelled with them, and neither are the errors of making
-- or locking the file and of opening the database. The calls of src/package/install/user.rs follow
-- one another: the source gives up its locks between the phases of a removal, and what another call
-- does in between is not modelled.
--
-- Not modelled: sockets, processes, downloads and signatures, the texts of most messages, the
-- reading of package archives and of the index file, hooks and triggers, the files inside
-- the directory of a sandbox, the sandbox itself, the
-- isolation of foreign package managers, the parser of the command line, the queries of the rpm
-- database, snapshots, the name mappings, and a failure to duplicate the handle of a socket.
pub mod Common
pub mod Version
pub mod Package
pub mod Index
pub mod Solver
pub mod Resolver
pub mod Permission
pub mod Daemon
pub mod Db
pub mod Store
pub mod Engine
pub mod Removal
pub mod Upgrades
pub mod Group
pub mod Locks
pub mod Users
pub mod Sync
pub mod Fsck
