-- ===== src/Scheduler/Handlers.antt =====
-- scheduler.go: the functions that are composed of several critical sections, in order.
use mirrorhub.Base.{
  ℕ, ◌-◌, Bool, true, false, ◌&&◌, ◌||◌, Option, none, some, List, [], ◌∷◌, ltb, ◌==◌,
  if◌then◌else◌, for_each, length,
}
use mirrorhub.Base.Text.{Text}
use mirrorhub.Base.Assoc.{lookup}
use mirrorhub.Errors.{GoError}
use mirrorhub.Scheduler.State.{
  TaskInfo, Status, Scheduler, PrefetchConfig, queued, is_active, abort_bound, ms,
}
use mirrorhub.Scheduler.Active.{mark_running_peek, mark_running, resume_prefetch_if_idle}
use mirrorhub.Scheduler.Ending.{prune_finished, end_task}
use mirrorhub.Scheduler.Cancelling.{Match, cancel_matching_locked, cancel_task_locked, purge_locked}

abbrev pub is_nonempty {ℓ} : {A : Type ℓ} → List A → Bool
is_nonempty [] = false
is_nonempty (_ ∷ _) = true

-- MarkRunning
unfoldable pub mark_running_all : PrefetchConfig → Text → ℕ → Scheduler → Scheduler
mark_running_all cfg id now s = mark_running cfg id now (mark_running_peek cfg id s)

-- End
unfoldable pub end :
    (Text → Option ℕ) → PrefetchConfig → Text → Option GoError → ℕ → Scheduler → Scheduler
end parse_duration cfg id err now s =
    resume_prefetch_if_idle cfg now (end_task parse_duration id err now s)

unfoldable pub abort_all : List Text → Scheduler → Scheduler
abort_all ids s = for_each abort_bound ids s

-- cancelTask, with the URL that it returns if something was cancelled.
unfoldable pub cancel_task : PrefetchConfig → Text → Bool → ℕ → Scheduler → Scheduler × Option Text
unfolding abort_all
cancel_task cfg id_or_url prefetch_only now s =
    let (s', ids) = cancel_task_locked id_or_url prefetch_only now s in
    let url : Text = elim (lookup id_or_url s.tasks) [ none ↦ id_or_url | some t ↦ t.url ] in
    if is_nonempty ids
    then (resume_prefetch_if_idle cfg now (abort_all ids s'), some url)
    else (s', none)

-- CancelMatching, with the number cancelled.
unfoldable pub cancel_matching : PrefetchConfig → Match → Bool → ℕ → Scheduler → Scheduler × ℕ
unfolding abort_all
cancel_matching cfg m resume now s =
    let (s', ids) = cancel_matching_locked m now s in
    let s'' = abort_all ids s' in
    (if is_nonempty ids && resume then resume_prefetch_if_idle cfg now s'' else s'', length ids)

-- purgeMatching, with the numbers cancelled and cleared.
unfoldable pub purge_matching : PrefetchConfig → Match → ℕ → Scheduler → Scheduler × ℕ × ℕ
unfolding abort_all
purge_matching cfg m now s =
    let (s', ids, cleared) = purge_locked m now s in
    let s'' = abort_all ids s' in
    (
      if is_nonempty ids || ltb 0 cleared then resume_prefetch_if_idle cfg now s'' else s'',
      length ids,
      cleared,
    )

abbrev elapsed : ℕ → TaskInfo → ℕ
elapsed now t =
    if is_active t.status
    then now - t.started_at
    else if t.updated_at == 0 || ltb t.updated_at t.started_at
    then now - t.started_at
    else t.updated_at - t.started_at

abbrev is_waiting_in_queue : Status → Bool
is_waiting_in_queue queued = true
is_waiting_in_queue _ = false

-- What List shows of a task: the task with its waiting time, and how long it has run.
unfoldable pub shown : ℕ → TaskInfo → TaskInfo × ℕ
shown now t =
    if is_waiting_in_queue t.status
    then (record t { wait_ms = ms (now - t.queued_at) }, 0)
    else if t.started_at == 0
    then (t, 0)
    else (
      record t { wait_ms = if t.wait_ms == 0 then ms (t.started_at - t.queued_at) else t.wait_ms },
      ms (elapsed now t),
    )

collect : ℕ → Scheduler → Text → List (TaskInfo × ℕ) → List (TaskInfo × ℕ)
unfolding shown
collect now s id out = elim (lookup id s.tasks) [ none ↦ out | some t ↦ shown now t ∷ out ]

-- List: it prunes first, and shows the tasks from the end of `order`.
unfoldable pub list : ℕ → Scheduler → Scheduler × List (TaskInfo × ℕ)
unfolding collect
list now s = let s = prune_finished now s in (s, for_each (collect now s) s.order [])
