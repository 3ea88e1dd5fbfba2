-- ===== src/Cache/Counters.antt =====
-- backend/internal/cache/hitstats.go, with HitPlatform of platform.go. Counters are bounded by the
-- requests of one deployment, so their 64 bits do not wrap.
use mirrorhub.Base.{ℕ, suc, ◌+◌, none, some, [], if◌then◌else◌}
use mirrorhub.Base.Text.{Text, codes, is_empty, trim_space}
use mirrorhub.Base.Assoc.{Assoc, lookup, put}

-- A nil map stands for an empty one.
pub record HitCounters : Type 0 where
  pub hits : ℕ
  pub misses : ℕ
  pub hits_by_platform : Assoc ℕ
  pub misses_by_platform : Assoc ℕ

abbrev pub no_hits : HitCounters
no_hits = record { hits = 0; misses = 0; hits_by_platform = []; misses_by_platform = [] }

unfoldable pub bump : Text → Assoc ℕ → Assoc ℕ
bump platform m =
    let p = trim_space platform in
    let p = if is_empty p then codes "other" else p in
    put p (suc (elim (lookup p m) [ none ↦ 0 | some n ↦ n ])) m

abbrev pub note_hit : Text → HitCounters → HitCounters
note_hit platform h = record h {
  hits = h.hits + 1;
  hits_by_platform = bump platform h.hits_by_platform;
}

abbrev pub note_miss : Text → HitCounters → HitCounters
note_miss platform h = record h {
  misses = h.misses + 1;
  misses_by_platform = bump platform h.misses_by_platform;
}
