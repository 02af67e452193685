-- ===== src/Locks/Nested.antt =====
-- Calls of src/db/mod.rs within each other: src/daemon/transaction.rs takes the connection in
-- phase_atomic_deploy, which execute_install calls under the write lock.
use samad_package_manager.Common.{ℕ, ◌≡◌, refl, inl, inr, Bool, true, List, Str, Bool-cases}
use samad_package_manager.Db.Conflict.{Conflicts}
use samad_package_manager.Daemon.Deploy.{
  Conn, Sql, FetchedPackage, InstallPlan, phase_atomic_deploy,
}
use samad_package_manager.Locks.{
  FileLock, free, shared, exclusive, Locks, unlocked, returned, stuck, Call, plain, get_connection,
  on_write, with_write_lock, on_read, with_read_lock,
}

module _ {A : Type 0} where
  -- The connection is taken once.
  pub get_connection-held :
      (body : Call A) (l : Locks) (c : Conn) → l.connection ≡ true → get_connection body l c ≡ stuck
  unfolding get_connection
  get_connection-held body l c h = rw h refl

  pub get_connection-stuck :
      (body : Call A) (l : Locks) (c : Conn)
      → body (record l { connection = true }) c ≡ stuck
      → get_connection body l c ≡ stuck
  unfolding get_connection
  get_connection-stuck body l c h = elim (Bool-cases l.connection) [
    | inl e ↦ rw e refl
    | inr e ↦ rw (e, h) refl
  ]

  on_write-stuck :
      (body : Call A) (l : Locks) (c : Conn) (f : FileLock)
      → body (record l { file = exclusive }) c ≡ stuck
      → on_write body l c f ≡ stuck
  on_write-stuck body l c free h = rw h refl
  on_write-stuck body l c (shared n) h = refl
  on_write-stuck body l c exclusive h = refl

  -- A body that waits forever once the write lock and the connection are held.
  pub with_write_lock-stuck :
      (body : Call A) (l : Locks) (c : Conn)
      → body (record { file = exclusive; connection = true }) c ≡ stuck
      → with_write_lock body l c ≡ stuck
  unfolding with_write_lock
  with_write_lock-stuck body l c h =
      on_write-stuck (get_connection body) l c l.file
        (get_connection-stuck body (record l { file = exclusive }) c h)

  -- Under the write lock the read lock is never got.
  pub with_read_lock-exclusive :
      (body : Call A) (b : Bool) (c : Conn)
      → with_read_lock body (record { file = exclusive; connection = b }) c ≡ stuck
  unfolding with_read_lock
  with_read_lock-exclusive body b c = refl

  -- A call that holds no lock gets the write lock, runs the body and gives both locks back.
  pub with_write_lock-plain :
      (m : Sql A) (c : Conn)
      → with_write_lock (plain m) unlocked c ≡ returned ((m c).0, (m c).1, unlocked)
  unfolding with_write_lock get_connection
  with_write_lock-plain m c = refl

  pub with_read_lock-plain :
      (m : Sql A) (c : Conn)
      → with_read_lock (plain m) unlocked c ≡ returned ((m c).0, (m c).1, unlocked)
  unfolding with_read_lock get_connection
  with_read_lock-plain m c = refl

-- Phase 5 of execute_install.
unfoldable pub deploy_locked :
    InstallPlan → Str → List FetchedPackage → List Str → Conflicts → Call ℕ
unfolding with_write_lock get_connection phase_atomic_deploy
deploy_locked plan now fetched removed conflicts =
    with_write_lock
      (get_connection (plain (phase_atomic_deploy plan now fetched removed conflicts)))

-- Phase 5 of an installation by the daemon never returns: it asks for the connection that the write
-- lock holds already, whatever the plan, the connection and the locks are.
pub deploy_locked-stuck :
    (plan : InstallPlan) (now : Str) (fetched : List FetchedPackage) (removed : List Str)
    (conflicts : Conflicts) (l : Locks) (c : Conn)
    → deploy_locked plan now fetched removed conflicts l c ≡ stuck
unfolding deploy_locked
deploy_locked-stuck plan now fetched removed conflicts l c =
    with_write_lock-stuck
      (get_connection (plain (phase_atomic_deploy plan now fetched removed conflicts))) l c
      (get_connection-held (plain (phase_atomic_deploy plan now fetched removed conflicts))
        (record { file = exclusive; connection = true }) c refl)

module _ {A : Type 0} where
  on_read-held :
      (body : Call A) (l : Locks) (c : Conn) (f : FileLock)
      → l.connection ≡ true
      → on_read (get_connection body) l c f ≡ stuck
  unfolding get_connection
  on_read-held body l c free h = rw h refl
  on_read-held body l c (shared n) h = rw h refl
  on_read-held body l c exclusive h = refl

  -- With the connection held the read lock is of no use.
  pub with_read_lock-held :
      (body : Call A) (l : Locks) (c : Conn) → l.connection ≡ true → with_read_lock body l c ≡ stuck
  unfolding with_read_lock
  with_read_lock-held body l c h = on_read-held body l c l.file h
