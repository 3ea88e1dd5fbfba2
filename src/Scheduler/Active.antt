-- ===== src/Scheduler/Active.antt =====
-- scheduler.go: which tasks count as interactive downloads, pausing prefetch for them and resuming it.
use mirrorhub.Base.{ℕ, ◌+◌, ◌-◌, Bool, true, false, not, ◌&&◌, none, some, ltb, ◌==◌, if◌then◌else◌}
use mirrorhub.Base.Text.{Text, codes, ◌===◌}
use mirrorhub.Base.Assoc.{Assoc, lookup, put, without, map_values, tally}
use mirrorhub.RateLimit.{set_all_paused}
use mirrorhub.Scheduler.State.{
  TaskInfo, PrefetchConfig, Scheduler, p1, running, is_p1, is_p2, is_active, before_running,
  prefetch_resume_delay,
}
use mirrorhub.Scheduler.Tasks.{started_again}

-- `m[k]` of a map of counters.
abbrev pub count_of : Text → Assoc ℕ → ℕ
count_of k m = elim (lookup k m) [ none ↦ 0 | some n ↦ n ]

-- incP0Locked
unfoldable pub inc_p0 : Text → Scheduler → Scheduler
inc_p0 platform s = record s {
  p0_by_platform = put platform (count_of platform s.p0_by_platform + 1) s.p0_by_platform;
  p0_active = s.p0_active + 1;
}

abbrev pub less_one : Text → Assoc ℕ → Assoc ℕ
less_one platform m =
    let c = count_of platform m in if ltb 1 c then put platform (c - 1) m else without platform m

-- releaseActiveLocked, of the task that the table holds at `id`. The global counter is set back
-- to 0 should it fall below.
unfoldable pub release_active : Text → Scheduler → Scheduler
release_active id s = elim (lookup id s.tasks) [
  | none ↦ s
  | some t ↦
      if t.counts_active
      then record s {
        tasks = put id (record t { counts_active = false }) s.tasks;
        p0_by_platform = less_one t.platform s.p0_by_platform;
        p0_active = s.p0_active - 1;
      }
      else s
]

abbrev pub pauses : PrefetchConfig → Bool
pauses cfg = cfg.on_interactive === codes "pause"

unfoldable pub cancel_resume_timer : Scheduler → Scheduler
cancel_resume_timer s = record s { resume_timer = none }

-- An active P2 task becomes P1.
abbrev pub promote : ℕ → TaskInfo → TaskInfo
promote now t =
    if is_active t.status && is_p2 t.priority
    then record t { priority = p1; updated_at = now }
    else t

-- pausePrefetchLocked
unfoldable pub pause_prefetch : PrefetchConfig → ℕ → Scheduler → Scheduler
pause_prefetch cfg now s =
    if pauses cfg
    then record s {
      limiters = set_all_paused true s.limiters;
      tasks = map_values (promote now) s.tasks;
    }
    else s

-- The first part of MarkRunning: a task that is about to pause prefetch stops the resume timer.
unfoldable pub mark_running_peek : PrefetchConfig → Text → Scheduler → Scheduler
unfolding cancel_resume_timer
mark_running_peek cfg id s = elim (lookup id s.tasks) [
  | none ↦ s
  | some t ↦
      if t.want_p0 && (not t.counts_active && (before_running t.status && pauses cfg))
      then cancel_resume_timer s
      else s
]

abbrev pub runs : ℕ → TaskInfo → TaskInfo
runs now t = record (started_again now t) { status = running; updated_at = now }

-- Its second part, under the lock.
unfoldable pub mark_running : PrefetchConfig → Text → ℕ → Scheduler → Scheduler
mark_running cfg id now s = elim (lookup id s.tasks) [
  | none ↦ s
  | some t ↦
      if before_running t.status
      then (if t.want_p0 && not t.counts_active
          then pause_prefetch cfg now (
              inc_p0 t.platform (record s {
                tasks = put id (record (runs now t) { counts_active = true }) s.tasks;
              }))
          else record s { tasks = put id (runs now t) s.tasks })
      else s
]

abbrev pub resumes : TaskInfo → ℕ
resumes t = if is_p1 t.priority && is_active t.status then 1 else 0

abbrev pub resumes_on : Text → TaskInfo → ℕ
resumes_on platform t = if t.platform === platform then resumes t else 0

-- resumeCountLocked and resumeCountForPlatformLocked
unfoldable pub resume_count : Scheduler → ℕ
resume_count s = tally resumes s.tasks

unfoldable pub resume_count_for_platform : Text → Scheduler → ℕ
resume_count_for_platform platform s = tally (resumes_on platform) s.tasks

-- PrefetchMayRun
unfoldable pub prefetch_may_run : Text → Scheduler → Bool
unfolding resume_count_for_platform
prefetch_may_run id s = elim (lookup id s.tasks) [
  | none ↦ true
  | some t ↦ if is_p2 t.priority then resume_count_for_platform t.platform s == 0 else true
]

-- resumePrefetchIfIdle: the timer is set again, whether or not one runs.
unfoldable pub resume_prefetch_if_idle : PrefetchConfig → ℕ → Scheduler → Scheduler
resume_prefetch_if_idle cfg now s =
    if cfg.resume_on_idle then record s { resume_timer = some (now + prefetch_resume_delay) } else s

-- applyPrefetchResumeIdlePlatforms, which the timer calls.
unfoldable pub apply_prefetch_resume : PrefetchConfig → Scheduler → Scheduler
apply_prefetch_resume cfg s =
    if cfg.resume_on_idle && s.p0_active == 0
    then record s { limiters = set_all_paused false s.limiters }
    else s
