-- ===== src/RateLimit/Conns.antt =====
-- The connection slots. AcquireConn tests the limit, sends on the channel and counts in three
-- critical sections, and ReleaseConn receives and counts in two; between them other requests run.
use mirrorhub.Base.{
  ℕ, ◌+◌, ◌-◌, ◌≤◌, ◌<◌, ◌≡◌, refl, true, false, some, none, Option, arith, positive_or,
}
use mirrorhub.Base.Text.{Text}
use mirrorhub.RateLimit.{
  RateLimitConfig, PlatformLimiter, new_platform_limiter, conn_reserved_for, conn_under, conn_limit,
  conn_send, conn_count, conn_receive, conn_uncount,
}
use mirrorhub.RateLimit.Sizes.{reserve_bounds}

-- A limiter with its requests, by where they stand: behind the test, behind the send, with a
-- counted connection, and between the receive and the count of the release.
pub record Users : Type 0 where
  pub lim : PlatformLimiter
  pub interactive_sent : ℕ
  pub interactive_out : ℕ
  pub interactive_leaving : ℕ
  pub prefetch_tested : ℕ
  pub prefetch_sent : ℕ
  pub prefetch_out : ℕ
  pub prefetch_leaving : ℕ

-- One critical section of a request, while the configuration stays. At most `width` prefetch
-- requests stand between the test and the count at a time. That an interactive request has tested
-- before it sends is not needed.
pub data Step (width : ℕ) : Users → Users → Type 0 where
  interactive_sends :
      (u : Users) (l : PlatformLimiter)
      → conn_send u.lim ≡ some l
      → Step width u (record u { lim = l; interactive_sent = u.interactive_sent + 1 })
  interactive_counts :
      (u : Users)
      → 0 < u.interactive_sent
      → Step width u (record u {
        lim = conn_count u.lim;
        interactive_sent = u.interactive_sent - 1;
        interactive_out = u.interactive_out + 1;
      })
  interactive_receives :
      (u : Users)
      → 0 < u.interactive_out
      → Step width u (record u {
        lim = conn_receive u.lim;
        interactive_out = u.interactive_out - 1;
        interactive_leaving = u.interactive_leaving + 1;
      })
  interactive_leaves :
      (u : Users)
      → 0 < u.interactive_leaving
      → Step width u
          (record u { lim = conn_uncount u.lim; interactive_leaving = u.interactive_leaving - 1 })
  prefetch_tests :
      (u : Users)
      → conn_under false u.lim ≡ true
      → u.prefetch_tested + u.prefetch_sent < width
      → Step width u (record u { prefetch_tested = u.prefetch_tested + 1 })
  prefetch_sends :
      (u : Users) (l : PlatformLimiter)
      → 0 < u.prefetch_tested
      → conn_send u.lim ≡ some l
      → Step width u (record u {
        lim = l;
        prefetch_tested = u.prefetch_tested - 1;
        prefetch_sent = u.prefetch_sent + 1;
      })
  -- The channel is full: the request starts again, or its context has ended.
  prefetch_retries :
      (u : Users)
      → 0 < u.prefetch_tested
      → Step width u (record u { prefetch_tested = u.prefetch_tested - 1 })
  prefetch_counts :
      (u : Users)
      → 0 < u.prefetch_sent
      → Step width u (record u {
        lim = conn_count u.lim;
        prefetch_sent = u.prefetch_sent - 1;
        prefetch_out = u.prefetch_out + 1;
      })
  prefetch_receives :
      (u : Users)
      → 0 < u.prefetch_out
      → Step width u (record u {
        lim = conn_receive u.lim;
        prefetch_out = u.prefetch_out - 1;
        prefetch_leaving = u.prefetch_leaving + 1;
      })
  prefetch_leaves :
      (u : Users)
      → 0 < u.prefetch_leaving
      → Step width u
          (record u { lim = conn_uncount u.lim; prefetch_leaving = u.prefetch_leaving - 1 })

pub data Reach (width : ℕ) (u : Users) : Users → Type 0 where
  here : Reach width u u
  next : {v w : Users} → Reach width u v → Step width v w → Reach width u w

abbrev pub unused : Text → RateLimitConfig → Users
unused name cfg = record {
  lim = new_platform_limiter name cfg;
  interactive_sent = 0;
  interactive_out = 0;
  interactive_leaving = 0;
  prefetch_tested = 0;
  prefetch_sent = 0;
  prefetch_out = 0;
  prefetch_leaving = 0;
}

-- Connections that requests use or have just sent for.
abbrev pub connected : Users → ℕ
connected u = u.interactive_sent + u.interactive_out + (u.prefetch_sent + u.prefetch_out)

-- Connections that the limiter counts.
abbrev pub counted : Users → ℕ
counted u = u.interactive_out + u.interactive_leaving + (u.prefetch_out + u.prefetch_leaving)

pub record IsBounded (width m : ℕ) (u : Users) : Type 0 where
  pub capacity : u.lim.conn_cap ≡ m
  pub reserved : u.lim.conn_reserved ≡ conn_reserved_for m
  pub held : u.lim.conn_held ≡ connected u
  pub active : u.lim.active_conns ≡ counted u
  pub fits : connected u ≤ m
  pub prefetches :
      u.prefetch_tested
        + u.prefetch_sent
        + (u.prefetch_out + u.prefetch_leaving)
        + conn_reserved_for m
      < m + width

module _ (width m : ℕ) (two : 2 ≤ m) where
  Step-IsBounded : {u v : Users} → Step width u v → IsBounded width m u → IsBounded width m v
  unfolding conn_under conn_limit conn_send conn_count conn_receive conn_uncount
  Step-IsBounded (interactive_sends u l e) h = ground arith
  Step-IsBounded (interactive_counts u p) h = ground arith
  Step-IsBounded (interactive_receives u p) h = ground arith
  Step-IsBounded (interactive_leaves u p) h = ground arith
  Step-IsBounded (prefetch_tests u e p) h = ground (arith, reserve_bounds m)
  Step-IsBounded (prefetch_sends u l p e) h = ground arith
  Step-IsBounded (prefetch_retries u p) h = ground arith
  Step-IsBounded (prefetch_counts u p) h = ground arith
  Step-IsBounded (prefetch_receives u p) h = ground arith
  Step-IsBounded (prefetch_leaves u p) h = ground arith

  Reach-IsBounded : {u v : Users} → IsBounded width m u → Reach width u v → IsBounded width m v
  Reach-IsBounded h here = h
  Reach-IsBounded h (next r s) = Step-IsBounded s (Reach-IsBounded h r)

unused-IsBounded :
    (width : ℕ) (name : Text) (cfg : RateLimitConfig)
    → 2 ≤ positive_or cfg.max_connections 80
    → IsBounded width (positive_or cfg.max_connections 80) (unused name cfg)
unfolding new_platform_limiter
unused-IsBounded width name cfg two = record {
  capacity = refl;
  reserved = refl;
  held = refl;
  active = refl;
  fits = omega arith;
  prefetches = omega (arith, reserve_bounds (positive_or cfg.max_connections 80) two);
}

-- From a new limiter with at least two connections whose configuration stays, however the
-- sections of acquiring and releasing requests interleave: the limiter counts exactly the
-- connections that are in use or not yet counted back; no more are in use than are configured;
-- and where at most `width` prefetch requests at a time stand between their test and their count,
-- the prefetch connections take fewer than `width` of those reserved for interactive requests, so
-- none where prefetch requests connect one at a time.
pub conns_within :
    (width : ℕ) (name : Text) (cfg : RateLimitConfig) {u : Users}
    → 2 ≤ positive_or cfg.max_connections 80
    → Reach width (unused name cfg) u
    → let m = positive_or cfg.max_connections 80 in
      (u.lim.active_conns ≡ counted u)
      × (connected u ≤ m)
      × (u.prefetch_sent + (u.prefetch_out + u.prefetch_leaving) + conn_reserved_for m < m + width)
conns_within width name cfg two r =
    let h = Reach-IsBounded width _ two (unused-IsBounded width name cfg two) r in
    (h.active, h.fits, omega (arith, h.prefetches))

-- Two requests that both pass the test before either of them sends and counts.
abbrev pub both_enter : PlatformLimiter → Option PlatformLimiter
both_enter p = elim (conn_send p) [
  | none ↦ none
  | some q ↦ elim (conn_send q) [ none ↦ none | some r ↦ some (conn_count (conn_count r)) ]
]

-- Where one prefetch connection is left below the limit that keeps the reserve, and the channel
-- has room for two, a prefetch request passes the test, and two that have both tested before
-- either of them counts both connect and go one past the limit.
pub prefetch_overshoots :
    (p : PlatformLimiter)
    → p.active_conns + 1 ≡ conn_limit false p
    → p.conn_held + 2 ≤ p.conn_cap
    → (conn_under false p ≡ true)
      × ((q : PlatformLimiter) × (both_enter p ≡ some q)
          × (q.active_conns ≡ conn_limit false q + 1))
unfolding conn_under conn_send conn_count conn_limit
prefetch_overshoots p last room = (
  ground arith,
  (
    record p { conn_held = p.conn_held + 1 + 1; active_conns = p.active_conns + 1 + 1 },
    ground arith,
    omega arith,
  ),
)
