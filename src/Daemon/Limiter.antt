-- ===== src/Daemon/Limiter.antt =====
-- `RateLimiter` of src/daemon/mod.rs, and the connections that hold a slot of it. The two mutexes
-- are free of poison, since nothing panics while they are held.
use samad_package_manager.Common.{
  ℕ, ◌+◌, ◌-◌, ◌≤◌, ◌≡◌, ◌≢◌, refl, Option, none, some, List, [], ◌∷◌, ◌++◌, leb, ◌==◌, ==_iff,
  ==_refl, if◌then◌else◌, arith,
}
use samad_package_manager.Permission.Rate.{Rates, put, count_request, entry_or_insert}

abbrev pub max_concurrent_per_user : ℕ
max_concurrent_per_user = 3

pub record RateLimiter : Type 0 where
  pub windows : Rates
  pub concurrent : ℕ → Option ℕ

abbrev pub new : RateLimiter
new = record { windows = λ uid. none; concurrent = λ uid. none }

pub data Acquire : Type 0 where
  acquired rate_limit_exceeded too_many_concurrent : Acquire

-- conc.entry(uid).or_insert(0)
abbrev pub count_or_insert : Option ℕ → ℕ
count_or_insert none = 0
count_or_insert (some n) = n

-- The second half of `try_acquire`, behind the rate limit.
unfoldable pub acquire_slot : RateLimiter → ℕ → RateLimiter × Acquire
acquire_slot l uid =
    let count = count_or_insert (l.concurrent uid) in
    if leb max_concurrent_per_user count
    then (record l { concurrent = put l.concurrent uid count }, too_many_concurrent)
    else (record l { concurrent = put l.concurrent uid (count + 1) }, acquired)

unfoldable pub try_acquire : RateLimiter → ℕ → ℕ → RateLimiter × Acquire
unfolding acquire_slot count_request
try_acquire l uid now =
    let (entry, passes) = count_request (entry_or_insert (l.windows uid) now) now in
    let l' : RateLimiter = record l { windows = put l.windows uid entry } in
    if passes then acquire_slot l' uid else (l', rate_limit_exceeded)

abbrev pub remove : (ℕ → Option ℕ) → ℕ → ℕ → Option ℕ
remove m uid v = if uid == v then none else m v

-- saturating_sub is the subtraction of ℕ.
abbrev pub release_count : (ℕ → Option ℕ) → ℕ → Option ℕ → ℕ → Option ℕ
release_count m uid none = m
release_count m uid (some count) = if count - 1 == 0 then remove m uid else put m uid (count - 1)

unfoldable pub release : RateLimiter → ℕ → RateLimiter
release l uid = record l { concurrent = release_count l.concurrent uid (l.concurrent uid) }

-- The limiter, and the users of the connections that are being served.
pub record Server : Type 0 where
  pub limiter : RateLimiter
  pub serving : List ℕ

-- `handle_connection`: a connection acquires a slot or is refused, and releases its slot when its
-- request is done. Connections run side by side, so they may end in any order.
pub data Step (s : Server) : Server → Type 0 where
  accept :
      (uid now : ℕ) (l : RateLimiter)
      → try_acquire s.limiter uid now ≡ (l, acquired)
      → Step s (record { limiter = l; serving = uid ∷ s.serving })
  refuse :
      (uid now : ℕ) (l : RateLimiter) (r : Acquire)
      → try_acquire s.limiter uid now ≡ (l, r)
      → r ≢ acquired
      → Step s (record { limiter = l; serving = s.serving })
  finish :
      (uid : ℕ) (before after : List ℕ)
      → s.serving ≡ before ++ uid ∷ after
      → Step s (record { limiter = release s.limiter uid; serving = before ++ after })

pub data Reach : Server → Type 0 where
  start : Reach (record { limiter = new; serving = [] })
  next : {s t : Server} → Reach s → Step s t → Reach t

abbrev pub count : ℕ → List ℕ → ℕ
count uid [] = 0
count uid (v ∷ vs) = (if v == uid then 1 else 0) + count uid vs

count-append : (uid : ℕ) (xs ys : List ℕ) → count uid (xs ++ ys) ≡ count uid xs + count uid ys
count-append uid [] ys = omega arith
count-append uid (x ∷ xs) ys = omega (arith, count-append uid xs ys)

-- The limiter counts the connections of each user, and no user has more than three.
abbrev pub Counts : Server → Type 0
Counts s =
    (uid : ℕ)
    → (count_or_insert (s.limiter.concurrent uid) ≡ count uid s.serving)
      × (count uid s.serving ≤ max_concurrent_per_user)

accept-Counts :
    (s : Server) (uid now : ℕ) (l : RateLimiter)
    → Counts s
    → try_acquire s.limiter uid now ≡ (l, acquired)
    → Counts (record { limiter = l; serving = uid ∷ s.serving })
unfolding try_acquire
accept-Counts s uid now l c e v = ground (arith, c uid, c v, ==_iff uid v)

refuse-Counts :
    (s : Server) (uid now : ℕ) (l : RateLimiter) (r : Acquire)
    → Counts s
    → try_acquire s.limiter uid now ≡ (l, r)
    → r ≢ acquired
    → Counts (record { limiter = l; serving = s.serving })
unfolding try_acquire
refuse-Counts s uid now l r c e n v = ground (arith, c uid, c v, ==_iff uid v)

finish-Counts :
    (s : Server) (uid : ℕ) (before after : List ℕ)
    → Counts s
    → s.serving ≡ before ++ uid ∷ after
    → Counts (record { limiter = release s.limiter uid; serving = before ++ after })
unfolding release
finish-Counts s uid before after c e v = ground (
  arith,
  c uid,
  c v,
  ==_iff uid v,
  ==_refl uid,
  count-append v before (uid ∷ after),
  count-append v before after,
  count-append uid before (uid ∷ after),
  count-append uid before after,
)

Step-Counts : {s t : Server} → Step s t → Counts s → Counts t
Step-Counts {s} (accept uid now l e) c = accept-Counts s uid now l c e
Step-Counts {s} (refuse uid now l r e n) c = refuse-Counts s uid now l r c e n
Step-Counts {s} (finish uid before after e) c = finish-Counts s uid before after c e

-- Whatever connections come and go, and in whatever order they end, the limiter counts exactly
-- the connections that are being served for each user, and they are never more than three.
pub Reach-Counts : {s : Server} → Reach s → Counts s
Reach-Counts start = λ uid. (refl, omega arith)
Reach-Counts (next r st) = Step-Counts st (Reach-Counts r)
