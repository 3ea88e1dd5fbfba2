-- ===== src/Scheduler/Cancelling.antt =====
-- scheduler.go: cancelling tasks and clearing finished ones, under the lock.
use mirrorhub.Base.{
  ℕ, suc, Bool, not, ◌&&◌, ◌||◌, none, some, List, [], ◌∷◌, ◌++◌, if◌then◌else◌, for_each, keep,
}
use mirrorhub.Base.Text.{Text, is_empty, ◌===◌}
use mirrorhub.Base.Assoc.{lookup, put}
use mirrorhub.Scheduler.State.{
  TaskInfo, Scheduler, cancelled, is_active, is_finished, is_prefetch_cancellable,
}
use mirrorhub.Scheduler.Active.{release_active}
use mirrorhub.Scheduler.Ending.{drop_task, prune_finished, is_held}

pub record Match : Type 0 where
  pub platform : Text
  pub prefetch_only : Bool

-- matchTask
unfoldable pub match_task : Match → TaskInfo → Bool
match_task m t =
    (is_empty m.platform || t.platform === m.platform)
    && (not m.prefetch_only || is_prefetch_cancellable t.priority)

abbrev pub cancelled_at : ℕ → TaskInfo → TaskInfo
cancelled_at now t = record t { status = cancelled; updated_at = now; error_msg = [] }

-- `mark` of cancelTask, and the body of the loop of cancelMatchingLocked.
unfoldable pub mark_cancelled : Text → ℕ → TaskInfo → Scheduler → Scheduler
mark_cancelled id now t s =
    release_active id (record s { tasks = put id (cancelled_at now t) s.tasks })

-- The scheduler, and the ids to abort in the order in which they were cancelled.
abbrev pub Cancelled : Type 0
Cancelled = Scheduler × List Text

unfoldable pub cancel_one : Match → ℕ → Text → Cancelled → Cancelled
unfolding mark_cancelled
cancel_one m now id (s, ids) = elim (lookup id s.tasks) [
  | none ↦ (s, ids)
  | some t ↦
      if is_active t.status && match_task m t
      then (mark_cancelled id now t s, ids ++ t.id ∷ [])
      else (s, ids)
]

-- cancelMatchingLocked; the number cancelled is the number of ids.
unfoldable pub cancel_matching_locked : Match → ℕ → Scheduler → Cancelled
cancel_matching_locked m now s = for_each (cancel_one m now) s.order (s, [])

-- The test of cancelTask on a task that it names by its URL.
abbrev pub allows : Bool → TaskInfo → Bool
allows prefetch_only t = not prefetch_only || is_prefetch_cancellable t.priority

unfoldable pub cancel_by_url : Text → Bool → ℕ → Text → Cancelled → Cancelled
unfolding mark_cancelled
cancel_by_url url prefetch_only now id (s, ids) = elim (lookup id s.tasks) [
  | none ↦ (s, ids)
  | some t ↦
      if t.url === url && (allows prefetch_only t && is_active t.status)
      then (mark_cancelled id now t s, ids ++ t.id ∷ [])
      else (s, ids)
]

-- The part of cancelTask under the lock. Something was cancelled if there are ids.
unfoldable pub cancel_task_locked : Text → Bool → ℕ → Scheduler → Cancelled
unfolding mark_cancelled
cancel_task_locked id_or_url prefetch_only now s = elim (lookup id_or_url s.tasks) [
  | some t ↦
      if is_active t.status && allows prefetch_only t
      then (mark_cancelled id_or_url now t s, t.id ∷ [])
      else (s, [])
  | none ↦ for_each (cancel_by_url id_or_url prefetch_only now) s.order (s, [])
]

abbrev pub clears : Text → TaskInfo → Bool
clears platform t = (is_empty platform || t.platform === platform) && is_finished t.status

-- The loop of clearFinishedMatchingLocked, with the number of tasks cleared.
unfoldable pub clear_one : Text → Text → Scheduler × ℕ → Scheduler × ℕ
clear_one platform id (s, n) = elim (lookup id s.tasks) [
  | none ↦ (s, n)
  | some t ↦ if clears platform t then (drop_task id s, suc n) else (s, n)
]

unfoldable pub clear_loop : Text → Scheduler → Scheduler × ℕ
clear_loop platform s =
    let (s, n) = for_each (clear_one platform) s.order (s, 0) in
    (record s { order = keep (is_held s) s.order }, n)

-- clearFinishedMatchingLocked, which is all of ClearFinishedMatching.
unfoldable pub clear_finished_matching : Text → ℕ → Scheduler → Scheduler × ℕ
clear_finished_matching platform now s =
    let (s, n) = clear_loop platform s in (prune_finished now s, n)

-- The part of purgeMatching under the lock: the scheduler, the ids to abort, the number cleared.
unfoldable pub purge_locked : Match → ℕ → Scheduler → Scheduler × List Text × ℕ
purge_locked m now s =
    let (s, ids) = cancel_matching_locked m now s in
    let (s, n) = clear_finished_matching m.platform now s in (s, ids, n)
