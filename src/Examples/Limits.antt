-- ===== src/Examples/Limits.antt =====
-- Runs of ratelimit.go.
use mirrorhub.Base.{◌+◌, ◌≤◌, ◌<◌, ◌≡◌, refl, true, false, some, arith, pos}
use mirrorhub.Base.Text.{Text, codes, text_dec}
use mirrorhub.Base.Assoc.{lookup}
use mirrorhub.RateLimit.{
  RateLimitConfig, PlatformLimiter, new_platform_limiter, acquire_task, task_limit, boost_slots_for,
  conn_reserved_for, interactive_reserve_for, new_registry, get, set_all_paused, conn_limit,
  conn_under, conn_count, conn_send, normalize_platform_name,
}
use mirrorhub.RateLimit.Slots.{
  Crowd, Step, Reach, idle, entered, prefetching, slots_within, interactive_admitted,
}
use mirrorhub.RateLimit.Conns
use mirrorhub.RateLimit.Conns.{Users, unused, conns_within, prefetch_overshoots, both_enter}
use mirrorhub.RateLimit.Pausing.{AllPaused, get-breaks_pause}

abbrev small : RateLimitConfig
small = record { max_concurrent = pos 4; max_connections = pos 20 }

abbrev name : Text
name = codes "pypi"

abbrev one_prefetch : Crowd
one_prefetch =
    entered prefetching (acquire_task false false (idle name small).lim).0 (idle name small)

one_prefetch-Reach : Reach (idle name small) one_prefetch
unfolding acquire_task task_limit new_platform_limiter boost_slots_for interactive_reserve_for
one_prefetch-Reach = Reach.next Reach.here (Step.take (idle name small) prefetching _ refl)

slots_within_example :
    let c = one_prefetch in
    (c.lim.active_boost ≡ c.boost_out)
    × (c.lim.active_tasks ≡ c.boost_out + (c.interactive_out + c.prefetch_out))
    × (c.boost_out ≤ boost_slots_for 4)
    × (c.interactive_out + c.prefetch_out ≤ 4)
    × (c.prefetch_out + interactive_reserve_for 4 ≤ 4)
slots_within_example = slots_within name small (omega arith) one_prefetch-Reach

interactive_admitted_example : (acquire_task false true one_prefetch.lim).1 ≡ true
unfolding interactive_reserve_for
interactive_admitted_example =
    interactive_admitted name small (omega arith) one_prefetch-Reach (omega arith)

abbrev busy : PlatformLimiter
busy = record (new_platform_limiter name small) { active_conns = 11; conn_held = 11 }

abbrev new_users : Users
new_users = unused name small

abbrev waiting_users : Users
waiting_users = record new_users { prefetch_tested = 1 }

abbrev sent_users : Users
sent_users = record waiting_users {
  lim = record new_users.lim { conn_held = 1 };
  prefetch_tested = 0;
  prefetch_sent = 1;
}

-- A prefetch request connects.
abbrev users : Users
users = record sent_users { lim = conn_count sent_users.lim; prefetch_sent = 0; prefetch_out = 1 }

users-Reach : Conns.Reach 1 new_users users
unfolding new_platform_limiter conn_under conn_limit conn_reserved_for conn_send
users-Reach =
    Conns.Reach.next
      (Conns.Reach.next
        (Conns.Reach.next Conns.Reach.here (Conns.Step.prefetch_tests new_users refl (omega arith)))
        (Conns.Step.prefetch_sends waiting_users (record new_users.lim { conn_held = 1 })
          (omega arith) refl))
      (Conns.Step.prefetch_counts sent_users (omega arith))

conns_within_example :
    (users.lim.active_conns ≡ 1)
    × (Conns.connected users ≤ 20)
    × (0 + (1 + 0) + conn_reserved_for 20 < 20 + 1)
conns_within_example = conns_within 1 name small (omega arith) users-Reach

prefetch_overshoots_example :
    (conn_under false busy ≡ true)
    × ((q : PlatformLimiter) × (both_enter busy ≡ some q)
        × (q.active_conns ≡ conn_limit false q + 1))
unfolding new_platform_limiter conn_limit conn_reserved_for
prefetch_overshoots_example = prefetch_overshoots busy (omega arith) (omega arith)

get-breaks_pause_example :
    ¬ AllPaused true (get (codes "other") (set_all_paused true (new_registry small))).0
unfolding new_registry set_all_paused normalize_platform_name lookup text_dec
get-breaks_pause_example =
    get-breaks_pause (codes "other") (set_all_paused true (new_registry small)) refl
