-- ===== src/RateLimit/Sizes.antt =====
-- The sizes that ratelimit.go derives from the configured maxima.
use mirrorhub.Base.{ℕ, ◌+◌, ◌≤◌, ◌<◌, ◌≡◌, refl, arith, positive_or, ℤ, pos, negsuc, true, false}
use mirrorhub.RateLimit.{
  PlatformLimiter, boost_slots_for, conn_reserved_for, interactive_reserve_for, task_limit,
}

pub positive_or_pos : (v : ℤ) (d : ℕ) → 1 ≤ d → 1 ≤ positive_or v d
positive_or_pos (pos n) d h = ground arith
positive_or_pos (negsuc n) d h = h

-- With at least two of each, the boost pool has at least one slot and no more than the task slots,
-- and the connections and the task slots set aside for interactive requests number at least one
-- and leave at least one to prefetching.
pub reserve_bounds :
    (m : ℕ)
    → 2 ≤ m
    → (1 ≤ boost_slots_for m)
      × (boost_slots_for m ≤ m)
      × (1 ≤ conn_reserved_for m)
      × (conn_reserved_for m < m)
      × (1 ≤ interactive_reserve_for m)
      × (interactive_reserve_for m < m)
unfolding boost_slots_for conn_reserved_for interactive_reserve_for
reserve_bounds m h =
    (ground arith, ground arith, ground arith, ground arith, ground arith, ground arith)

-- What a prefetch task may fill and the reserve make up all task slots.
pub limit_plus_reserve :
    (p : PlatformLimiter)
    → p.task_reserve ≡ true
    → let m = positive_or p.cfg.max_concurrent 20 in
      2 ≤ m → task_limit false p + interactive_reserve_for m ≡ m
unfolding task_limit
limit_plus_reserve p r two = ground (arith, reserve_bounds (positive_or p.cfg.max_concurrent 20))

pub task_limit_interactive :
    (p : PlatformLimiter) → task_limit true p ≡ positive_or p.cfg.max_concurrent 20
unfolding task_limit
task_limit_interactive p = refl
