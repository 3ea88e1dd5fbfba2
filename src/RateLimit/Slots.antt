-- ===== src/RateLimit/Slots.antt =====
-- The task slots under any history of AcquireTask and ReleaseTask in which every release gives
-- back a slot that was taken.
use mirrorhub.Base.{
  ℕ, ◌+◌, ◌-◌, ◌≤◌, ◌<◌, ◌≡◌, refl, Bool, true, false, arith, positive_or, ℤ, pos, negsuc,
}
use mirrorhub.Base.Text.{Text}
use mirrorhub.RateLimit.{
  RateLimitConfig, PlatformLimiter, acquire_task, release_task, new_platform_limiter,
  boost_slots_for, interactive_reserve_for, task_limit,
}
use mirrorhub.RateLimit.Sizes.{reserve_bounds, limit_plus_reserve, task_limit_interactive}

-- The kind of a task: in the boost pool, or else interactive or prefetching.
pub data Kind : Type 0 where
  boosted interactive prefetching : Kind

abbrev pub in_boost : Kind → Bool
in_boost boosted = true
in_boost _ = false

abbrev pub is_interactive : Kind → Bool
is_interactive interactive = true
is_interactive _ = false

-- A limiter with the tasks that hold a slot of it.
pub record Crowd : Type 0 where
  pub lim : PlatformLimiter
  pub boost_out : ℕ
  pub interactive_out : ℕ
  pub prefetch_out : ℕ

abbrev pub entered : Kind → PlatformLimiter → Crowd → Crowd
entered boosted l c = record c { lim = l; boost_out = c.boost_out + 1 }
entered interactive l c = record c { lim = l; interactive_out = c.interactive_out + 1 }
entered prefetching l c = record c { lim = l; prefetch_out = c.prefetch_out + 1 }

abbrev pub left : Kind → PlatformLimiter → Crowd → Crowd
left boosted l c = record c { lim = l; boost_out = c.boost_out - 1 }
left interactive l c = record c { lim = l; interactive_out = c.interactive_out - 1 }
left prefetching l c = record c { lim = l; prefetch_out = c.prefetch_out - 1 }

abbrev pub holders : Kind → Crowd → ℕ
holders boosted c = c.boost_out
holders interactive c = c.interactive_out
holders prefetching c = c.prefetch_out

pub data Step : Crowd → Crowd → Type 0 where
  take :
      (c : Crowd) (k : Kind) (l : PlatformLimiter)
      → acquire_task (in_boost k) (is_interactive k) c.lim ≡ (l, true)
      → Step c (entered k l c)
  give :
      (c : Crowd) (k : Kind) → 0 < holders k c → Step c (left k (release_task (in_boost k) c.lim) c)

pub data Reach (c : Crowd) : Crowd → Type 0 where
  here : Reach c c
  next : {d e : Crowd} → Reach c d → Step d e → Reach c e

-- A new limiter in the mode that keeps slots for interactive tasks.
abbrev pub idle : Text → RateLimitConfig → Crowd
idle name cfg = record {
  lim = record (new_platform_limiter name cfg) { task_reserve = true };
  boost_out = 0;
  interactive_out = 0;
  prefetch_out = 0;
}

abbrev pub max_task : PlatformLimiter → ℕ
max_task l = positive_or l.cfg.max_concurrent 20

pub record IsWithin (m : ℕ) (c : Crowd) : Type 0 where
  pub size : max_task c.lim ≡ m
  pub reserving : c.lim.task_reserve ≡ true
  pub boosts : c.lim.active_boost ≡ c.boost_out
  pub tasks : c.lim.active_tasks ≡ c.boost_out + (c.interactive_out + c.prefetch_out)
  pub pool : c.lim.max_boost ≡ boost_slots_for m
  pub boost_cap : c.boost_out ≤ boost_slots_for m
  pub total_cap : c.interactive_out + c.prefetch_out ≤ m
  pub prefetch_cap : c.prefetch_out + interactive_reserve_for m ≤ m

module _ (m : ℕ) (two : 2 ≤ m) where
  take-IsWithin :
      (c : Crowd) (k : Kind) (l : PlatformLimiter)
      → acquire_task (in_boost k) (is_interactive k) c.lim ≡ (l, true)
      → IsWithin m c
      → IsWithin m (entered k l c)
  unfolding acquire_task
  take-IsWithin c boosted l e h = ground (arith, reserve_bounds m)
  take-IsWithin c interactive l e h = ground (arith, task_limit_interactive c.lim)
  take-IsWithin c prefetching l e h = ground (arith, limit_plus_reserve c.lim h.reserving)

  give-IsWithin :
      (c : Crowd) (k : Kind)
      → 0 < holders k c
      → IsWithin m c
      → IsWithin m (left k (release_task (in_boost k) c.lim) c)
  unfolding release_task
  give-IsWithin c boosted p h = ground arith
  give-IsWithin c interactive p h = ground arith
  give-IsWithin c prefetching p h = ground arith

  Step-IsWithin : {c d : Crowd} → Step c d → IsWithin m c → IsWithin m d
  Step-IsWithin (take c k l e) h = take-IsWithin c k l e h
  Step-IsWithin (give c k p) h = give-IsWithin c k p h

  Reach-IsWithin : {c d : Crowd} → IsWithin m c → Reach c d → IsWithin m d
  Reach-IsWithin h here = h
  Reach-IsWithin h (next r s) = Step-IsWithin s (Reach-IsWithin h r)

positive_or_self : (v : ℤ) → positive_or (pos (positive_or v 20)) 20 ≡ positive_or v 20
positive_or_self (pos n) = ground arith
positive_or_self (negsuc n) = refl

idle-IsWithin :
    (name : Text) (cfg : RateLimitConfig)
    → 2 ≤ positive_or cfg.max_concurrent 20
    → IsWithin (positive_or cfg.max_concurrent 20) (idle name cfg)
unfolding new_platform_limiter
idle-IsWithin name cfg two = record {
  size = positive_or_self cfg.max_concurrent;
  reserving = refl;
  boosts = refl;
  tasks = refl;
  pool = refl;
  boost_cap = omega arith;
  total_cap = omega arith;
  prefetch_cap = omega (arith, reserve_bounds (positive_or cfg.max_concurrent 20) two);
}

-- From a new limiter with at least two task slots, in the mode that reserves slots, and after any
-- history of acquired and released slots: the limiter's counters are exact; the boosted tasks
-- fit in the boost pool; all other tasks fit in the configured maximum; and the prefetch tasks
-- leave the interactive reserve free.
pub slots_within :
    (name : Text) (cfg : RateLimitConfig) {c : Crowd}
    → 2 ≤ positive_or cfg.max_concurrent 20
    → Reach (idle name cfg) c
    → let m = positive_or cfg.max_concurrent 20 in
      (c.lim.active_boost ≡ c.boost_out)
      × (c.lim.active_tasks ≡ c.boost_out + (c.interactive_out + c.prefetch_out))
      × (c.boost_out ≤ boost_slots_for m)
      × (c.interactive_out + c.prefetch_out ≤ m)
      × (c.prefetch_out + interactive_reserve_for m ≤ m)
slots_within name cfg two r =
    let h = Reach-IsWithin _ two (idle-IsWithin name cfg two) r in
    (h.boosts, h.tasks, h.boost_cap, h.total_cap, h.prefetch_cap)

acquire_interactive :
    (p : PlatformLimiter)
    → p.active_tasks - p.active_boost < max_task p
    → (acquire_task false true p).1 ≡ true
unfolding acquire_task task_limit
acquire_interactive p h = ground arith

-- From a new limiter with at least two task slots, in the mode that reserves slots, and after any
-- history of acquired and released slots, an interactive task outside the boost pool gets a slot
-- at its first attempt, as long as fewer interactive tasks hold one than are reserved.
pub interactive_admitted :
    (name : Text) (cfg : RateLimitConfig) {c : Crowd}
    → 2 ≤ positive_or cfg.max_concurrent 20
    → Reach (idle name cfg) c
    → c.interactive_out < interactive_reserve_for (positive_or cfg.max_concurrent 20)
    → (acquire_task false true c.lim).1 ≡ true
interactive_admitted name cfg {c} two r few =
    let h = Reach-IsWithin _ two (idle-IsWithin name cfg two) r in
    acquire_interactive c.lim (omega (arith, h.size, h.boosts, h.tasks, h.prefetch_cap))
