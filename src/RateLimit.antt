-- ===== src/RateLimit.antt =====
-- backend/internal/ratelimit/ratelimit.go: the task slots, connection slots and pause flag of a
-- platform, and the registry of platforms. One call of a function below is one critical section
-- of `p.mu` (or `r.mu`). The bandwidth bucket and its wait samples are floating-point and belong
-- to golang.org/x/time/rate; they are not modelled.
pub mod Sizes
pub mod Slots
pub mod Conns
pub mod Pausing
use mirrorhub.Base.{
  ℕ, ◌+◌, ◌-◌, ◌/◌, Bool, true, false, not, ◌&&◌, ◌||◌, Option, none, some, List, [], ◌∷◌, ltb, leb,
  ◌==◌, if◌then◌else◌, ℤ, pos, positive_or,
}
use mirrorhub.Base.Text.{Text, codes, is_empty, ◌===◌}
use mirrorhub.Base.Assoc.{Assoc, lookup, put, map_values, keys}

-- config.RateLimitConfig, less the bandwidth and its windows. The fields are Go's `int`.
pub record RateLimitConfig : Type 0 where
  pub max_concurrent : ℤ
  pub max_connections : ℤ

-- `conn_cap` and `conn_held` are the capacity and the length of the channel `connSem`.
pub record PlatformLimiter : Type 0 where
  pub name : Text
  pub conn_cap : ℕ
  pub conn_held : ℕ
  pub conn_reserved : ℕ
  pub max_boost : ℕ
  pub cfg : RateLimitConfig
  pub active_tasks : ℕ
  pub active_boost : ℕ
  pub active_conns : ℕ
  pub prefetch_paused : Bool
  pub task_reserve : Bool

unfoldable pub boost_slots_for : ℕ → ℕ
boost_slots_for max_task =
    let slots = max_task / 5 in
    let slots = if ltb slots 2 then 2 else slots in if ltb max_task slots then max_task else slots

unfoldable pub conn_reserved_for : ℕ → ℕ
conn_reserved_for max_conn =
    let reserved = max_conn / 10 in
    let reserved = if ltb reserved 8 then 8 else reserved in
    let half = max_conn / 2 in
    if leb max_conn reserved then (if ltb half 1 then 1 else half) else reserved

unfoldable pub interactive_reserve_for : ℕ → ℕ
interactive_reserve_for max_task =
    let r = max_task / 10 in
    let r = if ltb r 2 then 2 else r in
    let half = max_task / 2 in if leb max_task r then (if ltb half 1 then 1 else half) else r

-- The capacity and the length of the channel that replaces `connSem`.
unfoldable pub resize_sem : ℕ → ℕ → ℕ × ℕ
resize_sem held capacity =
    let capacity = if ltb capacity 1 then 1 else capacity in
    (capacity, if ltb capacity held then capacity else held)

-- Both places that normalise a configuration.
abbrev pub normal_config : RateLimitConfig → RateLimitConfig
normal_config cfg = record {
  max_concurrent = pos (positive_or cfg.max_concurrent 20);
  max_connections = pos (positive_or cfg.max_connections 80);
}

unfoldable pub new_platform_limiter : Text → RateLimitConfig → PlatformLimiter
new_platform_limiter name cfg = record {
  name = name;
  conn_cap = positive_or cfg.max_connections 80;
  conn_held = 0;
  conn_reserved = conn_reserved_for (positive_or cfg.max_connections 80);
  max_boost = boost_slots_for (positive_or cfg.max_concurrent 20);
  cfg = normal_config cfg;
  active_tasks = 0;
  active_boost = 0;
  active_conns = 0;
  prefetch_paused = false;
  task_reserve = false;
}

unfoldable pub apply_config : RateLimitConfig → PlatformLimiter → PlatformLimiter
apply_config cfg p =
    let max_conn = positive_or cfg.max_connections 80 in
    let sem = resize_sem p.active_conns max_conn in
    record p {
      cfg = normal_config cfg;
      max_boost = boost_slots_for (positive_or cfg.max_concurrent 20);
      conn_reserved = conn_reserved_for max_conn;
      conn_cap = sem.0;
      conn_held = sem.1;
    }

-- The limit that a task outside the boost pool meets.
unfoldable pub task_limit : Bool → PlatformLimiter → ℕ
task_limit interactive p =
    let max_task = positive_or p.cfg.max_concurrent 20 in
    let limit = max_task - interactive_reserve_for max_task in
    if not interactive && p.task_reserve then (if ltb limit 1 then 1 else limit) else max_task

-- One round of the loop of AcquireTask: the limiter after it, and whether a slot was taken.
-- A refused round waits and tries again until the request's context ends.
unfoldable pub acquire_task : Bool → Bool → PlatformLimiter → PlatformLimiter × Bool
acquire_task boost interactive p =
    let max_task = positive_or p.cfg.max_concurrent 20 in
    let max_boost = if p.max_boost == 0 then boost_slots_for max_task else p.max_boost in
    let p = record p { max_boost = max_boost } in
    if boost
    then (if ltb p.active_boost max_boost
        then (
          record p { active_boost = p.active_boost + 1; active_tasks = p.active_tasks + 1 },
          true,
        )
        else (p, false))
    else if ltb (p.active_tasks - p.active_boost) (task_limit interactive p)
    then (record p { active_tasks = p.active_tasks + 1 }, true)
    else (p, false)

-- ReleaseTask. Both counters are decremented only above 0.
unfoldable pub release_task : Bool → PlatformLimiter → PlatformLimiter
release_task boost p =
    let p = record p { active_tasks = p.active_tasks - 1 } in
    if boost then record p { active_boost = p.active_boost - 1 } else p

-- The limit that AcquireConn compares the open connections with.
unfoldable pub conn_limit : Bool → PlatformLimiter → ℕ
conn_limit interactive p =
    let limit = p.conn_cap - p.conn_reserved in
    if interactive then p.conn_cap else if ltb limit 1 then 1 else limit

-- AcquireConn, its three steps: the test under the lock, the send, the count under the lock.
unfoldable pub conn_under : Bool → PlatformLimiter → Bool
conn_under interactive p = ltb p.active_conns (conn_limit interactive p)

unfoldable pub conn_send : PlatformLimiter → Option PlatformLimiter
conn_send p =
    if ltb p.conn_held p.conn_cap then some (record p { conn_held = p.conn_held + 1 }) else none

unfoldable pub conn_count : PlatformLimiter → PlatformLimiter
conn_count p = record p { active_conns = p.active_conns + 1 }

-- ReleaseConn, its two steps: the receive, which has a default branch, and the count under the
-- lock, which stops at 0.
unfoldable pub conn_receive : PlatformLimiter → PlatformLimiter
conn_receive p = record p { conn_held = p.conn_held - 1 }

unfoldable pub conn_uncount : PlatformLimiter → PlatformLimiter
conn_uncount p = record p { active_conns = p.active_conns - 1 }

abbrev same_bool : Bool → Bool → Bool
same_bool true b = b
same_bool false b = not b

unfoldable pub set_prefetch_paused : Bool → PlatformLimiter → PlatformLimiter × Bool
set_prefetch_paused paused p =
    if same_bool p.prefetch_paused paused
    then (p, false)
    else (record p { prefetch_paused = paused }, true)

pub record Registry : Type 0 where
  pub by_name : Assoc PlatformLimiter
  pub cfg : RateLimitConfig
  pub task_reserve : Bool

unfoldable pub normalize_platform_name : Text → Text
normalize_platform_name platform = if is_empty platform then codes "other" else platform

with_limiters : RateLimitConfig → List Text → Assoc PlatformLimiter
unfolding new_platform_limiter
with_limiters cfg [] = []
with_limiters cfg (n ∷ ns) = (n, new_platform_limiter n cfg) ∷ with_limiters cfg ns

-- NewRegistry makes the limiters of the six known platforms.
unfoldable pub new_registry : RateLimitConfig → Registry
unfolding with_limiters
new_registry cfg = record {
  by_name = with_limiters cfg (
      codes "pypi"
      ∷ codes "npm"
      ∷ codes "docker"
      ∷ codes "goproxy"
      ∷ codes "huggingface"
      ∷ codes "maven"
      ∷ []);
  cfg = cfg;
  task_reserve = false;
}

-- Get makes the limiter of a platform that has none.
unfoldable pub get : Text → Registry → Registry × PlatformLimiter
unfolding normalize_platform_name new_platform_limiter lookup put
get platform r =
    let name = normalize_platform_name platform in
    elim (lookup name r.by_name) [
      | some lim ↦ (r, lim)
      | none ↦
          let lim = record (new_platform_limiter name r.cfg) { task_reserve = r.task_reserve } in
          (record r { by_name = put name lim r.by_name }, lim)
    ]

unfoldable pub update : RateLimitConfig → Registry → Registry
unfolding apply_config map_values new_platform_limiter
update cfg r = elim r.by_name [
  | [] ↦ record r {
    cfg = cfg;
    by_name = (codes "other", new_platform_limiter (codes "other") cfg) ∷ [];
  }
  | _ ∷ _ ↦ record r { cfg = cfg; by_name = map_values (apply_config cfg) r.by_name }
]

unfoldable pub set_interactive_task_reserve : Bool → Registry → Registry
unfolding map_values
set_interactive_task_reserve enable r = record r {
  task_reserve = enable;
  by_name = map_values (λ l. record l { task_reserve = enable }) r.by_name;
}

-- The loops of the scheduler over the limiters of `Snapshots`: `SetPrefetchPaused(paused)` on
-- each. An entry's name is never empty, and `Get` of it finds the entry.
unfoldable pub set_all_paused : Bool → Registry → Registry
unfolding map_values set_prefetch_paused
set_all_paused paused r = record r {
  by_name = map_values (λ l. (set_prefetch_paused paused l).0) r.by_name;
}
