-- ===== src/Locks.antt =====
-- get_connection, with_write_lock and with_read_lock of src/db/mod.rs: one connection for the
-- process behind a mutex, and a lock on a file. The locks that are modelled are those that a thread
-- itself holds, since it waits forever for these alone. The documented behaviour of std::sync::Mutex
-- is that locking it again in the thread that holds it does not return; an advisory lock belongs to
-- the opening of the file, so that another opening waits for it in the same process too. The errors
-- on the way to a lock are left out: a lock file that cannot be made or locked, a mutex whose holder
-- panicked, a database that does not open.
pub mod Nested
mod Examples
use samad_package_manager.Common.{ℕ, zero, suc, Bool, true, false, none, if◌then◌else◌}
use samad_package_manager.Daemon.Deploy.{Conn, Outcome, Sql}

pub data FileLock : Type 0 where
  free : FileLock
  shared : ℕ → FileLock
  exclusive : FileLock

pub record Locks : Type 0 where
  pub file : FileLock
  pub connection : Bool

abbrev pub unlocked : Locks
unlocked = record { file = free; connection = false }

-- A call that returns, or waits forever.
pub data Run (A : Type 0) : Type 0 where
  returned : A → Run A
  stuck : Run A

-- A call on the process: its locks and its connection, with a result.
abbrev pub Call : Type 0 → Type 0
Call A = Locks → Conn → Run (Outcome A × Conn × Locks)

-- What does not touch the locks.
abbrev pub plain : {A : Type 0} → Sql A → Call A
plain m l c = let r = m c in returned (r.0, r.1, l)

-- The end of a guard's scope.
abbrev pub ending :
    {A : Type 0} → (Locks → Locks) → Run (Outcome A × Conn × Locks) → Run (Outcome A × Conn × Locks)
ending release stuck = stuck
ending release (returned (o, c, l)) = returned (o, c, release l)

-- The guard of get_connection is held to the end of the body.
unfoldable pub get_connection : {A : Type 0} → Call A → Call A
get_connection body l c =
    if l.connection
    then stuck
    else ending (λ m. record m { connection = false }) (body (record l { connection = true }) c)

abbrev pub on_write :
    {A : Type 0} → Call A → Locks → Conn → FileLock → Run (Outcome A × Conn × Locks)
on_write body l c free =
    ending (λ m. record m { file = free }) (body (record l { file = exclusive }) c)
on_write body l c (shared n) = stuck
on_write body l c exclusive = stuck

unfoldable pub with_write_lock : {A : Type 0} → Call A → Call A
unfolding get_connection
with_write_lock body l c = on_write (get_connection body) l c l.file

-- The last reader frees the lock.
abbrev pub fewer : FileLock → FileLock
fewer free = free
fewer (shared zero) = free
fewer (shared (suc zero)) = free
fewer (shared (suc (suc n))) = shared (suc n)
fewer exclusive = exclusive

abbrev pub on_read :
    {A : Type 0} → Call A → Locks → Conn → FileLock → Run (Outcome A × Conn × Locks)
on_read body l c free =
    ending (λ m. record m { file = fewer m.file }) (body (record l { file = shared 1 }) c)
on_read body l c (shared n) =
    ending (λ m. record m { file = fewer m.file }) (body (record l { file = shared (suc n) }) c)
on_read body l c exclusive = stuck

unfoldable pub with_read_lock : {A : Type 0} → Call A → Call A
unfolding get_connection
with_read_lock body l c = on_read (get_connection body) l c l.file

-- One call after the other, where the first has a result.
abbrev pub then_call :
    {A B : Type 0} → (A → Call B) → Run (Outcome A × Conn × Locks) → Run (Outcome B × Conn × Locks)
then_call k stuck = stuck
then_call k (returned (Outcome.ok a, c, l)) = k a l c
then_call k (returned (Outcome.err, c, l)) = returned (Outcome.err, c, l)

unfoldable pub sequence : {A B : Type 0} → Call A → (A → Call B) → Call B
sequence m k l c = then_call k (m l c)
