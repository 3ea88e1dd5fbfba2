-- ===== src/Scheduler/Steps.antt =====
-- The critical sections of all requests as a step relation, and what every reachable state has.
use mirrorhub.Base.{
  ℕ, ◌+◌, ◌%◌, ◌<◌, ◌≡◌, ◌≢◌, ◌∙◌, refl, Bool, true, false, Option, none, some, arith, u64_mod, ℤ,
}
use mirrorhub.Base.Text.{Text}
use mirrorhub.Base.Assoc.{lookup, tally, lookup-put}
use mirrorhub.Errors.{GoError}
use mirrorhub.RateLimit.{Registry}
use mirrorhub.Scheduler.State.{
  TaskInfo, Scheduler, running, Priority, PrefetchConfig, new, bind_cancel, unbind_cancel,
  abort_bound,
}
use mirrorhub.Scheduler.Tasks.{
  begin, task_id, new_task, mark_preparing, mark_hit, mark_waiting, update_progress,
}
use mirrorhub.Scheduler.Active.{
  mark_running_peek, mark_running, resume_prefetch_if_idle, apply_prefetch_resume, count_of,
}
use mirrorhub.Scheduler.Ending.{prune_finished, end_task, has}
use mirrorhub.Scheduler.Cancelling.{
  Match, cancel_matching_locked, cancel_task_locked, clear_finished_matching, purge_locked,
}
use mirrorhub.Scheduler.Invariant.{Inv, counts, counts_on, rest-Inv}
use mirrorhub.Scheduler.Invariant.Tasks.{
  next_id_unused, begin-Inv, mark_preparing-Inv, mark_hit-Inv, mark_waiting-Inv,
  update_progress-Inv,
}
use mirrorhub.Scheduler.Invariant.Running.{
  mark_running-Inv, mark_running_peek-Inv, resume_prefetch_if_idle-Inv, apply_prefetch_resume-Inv,
  if-Inv,
}
use mirrorhub.Scheduler.Invariant.Endings.{prune_finished-Inv, end_task-Inv}
use mirrorhub.Scheduler.Invariant.Cancels.{
  cancel_matching-Inv, cancel_task-Inv, clear_finished-Inv, purge-Inv, abort_bound-Inv,
}

-- One critical section, of any request at any time, under any configuration that `Ok` holds of;
-- other components change the limiters, in ways that `Lim` allows; the timer's function may run at
-- any moment. Begin is a step while the 64-bit id counter has not wrapped.
pub data Step (pd : Text → Option ℕ) (Ok : PrefetchConfig → Type 0)
    (Lim : Registry → Registry → Type 0) : Scheduler → Scheduler → Type 0 where
  begins :
      (s : Scheduler) (platform url : Text) (prio : Priority) (boost hold : Bool) (now : ℕ)
      → s.next_id + 1 < u64_mod
      → Step pd Ok Lim s (begin platform url prio boost hold now s).0
  prepares : (s : Scheduler) (k : Text) (now : ℕ) → Step pd Ok Lim s (mark_preparing k now s)
  hits : (s : Scheduler) (k : Text) (now : ℕ) → Step pd Ok Lim s (mark_hit k now s)
  waits : (s : Scheduler) (k : Text) (now : ℕ) → Step pd Ok Lim s (mark_waiting k now s)
  progresses :
      (s : Scheduler) (k : Text) (got total : ℤ) (now : ℕ)
      → Step pd Ok Lim s (update_progress k got total now s)
  peeks :
      (s : Scheduler) (cfg : PrefetchConfig) (k : Text)
      → Ok cfg
      → Step pd Ok Lim s (mark_running_peek cfg k s)
  runs :
      (s : Scheduler) (cfg : PrefetchConfig) (k : Text) (now : ℕ)
      → Ok cfg
      → Step pd Ok Lim s (mark_running cfg k now s)
  ends :
      (s : Scheduler) (k : Text) (err : Option GoError) (now : ℕ)
      → Step pd Ok Lim s (end_task pd k err now s)
  cancels_task :
      (s : Scheduler) (k : Text) (only : Bool) (now : ℕ)
      → Step pd Ok Lim s (cancel_task_locked k only now s).0
  cancels_matching :
      (s : Scheduler) (m : Match) (now : ℕ) → Step pd Ok Lim s (cancel_matching_locked m now s).0
  clears :
      (s : Scheduler) (p : Text) (now : ℕ) → Step pd Ok Lim s (clear_finished_matching p now s).0
  purges : (s : Scheduler) (m : Match) (now : ℕ) → Step pd Ok Lim s (purge_locked m now s).0
  lists : (s : Scheduler) (now : ℕ) → Step pd Ok Lim s (prune_finished now s)
  arms :
      (s : Scheduler) (cfg : PrefetchConfig) (now : ℕ)
      → Ok cfg
      → Step pd Ok Lim s (resume_prefetch_if_idle cfg now s)
  timer_fires :
      (s : Scheduler) (cfg : PrefetchConfig)
      → Ok cfg
      → Step pd Ok Lim s (apply_prefetch_resume cfg s)
  binds : (s : Scheduler) (k : Text) (f : ℕ) → Step pd Ok Lim s (bind_cancel k f s)
  unbinds : (s : Scheduler) (k : Text) → Step pd Ok Lim s (unbind_cancel k s)
  aborts : (s : Scheduler) (k : Text) → Step pd Ok Lim s (abort_bound k s)
  limits :
      (s : Scheduler) (l : Registry)
      → Lim s.limiters l
      → Step pd Ok Lim s (record s { limiters = l })

pub data Reach (pd : Text → Option ℕ) (Ok : PrefetchConfig → Type 0)
    (Lim : Registry → Registry → Type 0) (s : Scheduler) : Scheduler → Type 0 where
  here : Reach pd Ok Lim s s
  next : {t u : Scheduler} → Reach pd Ok Lim s t → Step pd Ok Lim t u → Reach pd Ok Lim s u

module _ (pd : Text → Option ℕ) (Ok : PrefetchConfig → Type 0)
    (Lim : Registry → Registry → Type 0) where
  pub Step-Inv : {s t : Scheduler} → Step pd Ok Lim s t → Inv s → Inv t
  unfolding bind_cancel unbind_cancel
  Step-Inv (begins s platform url prio boost hold now room) h =
      begin-Inv platform url prio boost hold now s h room
  Step-Inv (prepares s k now) h = mark_preparing-Inv k now s h
  Step-Inv (hits s k now) h = mark_hit-Inv k now s h
  Step-Inv (waits s k now) h = mark_waiting-Inv k now s h
  Step-Inv (progresses s k got total now) h = update_progress-Inv k got total now s h
  Step-Inv (peeks s cfg k _) h = mark_running_peek-Inv cfg k s h
  Step-Inv (runs s cfg k now _) h = mark_running-Inv cfg k now s h
  Step-Inv (ends s k err now) h = end_task-Inv pd k err now s h
  Step-Inv (cancels_task s k only now) h = cancel_task-Inv k only now s h
  Step-Inv (cancels_matching s m now) h = cancel_matching-Inv m now s h
  Step-Inv (clears s p now) h = clear_finished-Inv p now s h
  Step-Inv (purges s m now) h = purge-Inv m now s h
  Step-Inv (lists s now) h = prune_finished-Inv now s h
  Step-Inv (arms s cfg now _) h = resume_prefetch_if_idle-Inv cfg now s h
  Step-Inv (timer_fires s cfg _) h = apply_prefetch_resume-Inv cfg s h
  Step-Inv (binds s k f) h = if-Inv _ h (rest-Inv s _ _ _ _ h)
  Step-Inv (unbinds s k) h = if-Inv _ h (rest-Inv s _ _ _ _ h)
  Step-Inv (aborts s k) h = abort_bound-Inv k s h
  Step-Inv (limits s l _) h = rest-Inv s l _ _ _ h

  pub Reach-Inv : {s t : Scheduler} → Inv s → Reach pd Ok Lim s t → Inv t
  Reach-Inv h here = h
  Reach-Inv h (next r st) = Step-Inv st (Reach-Inv h r)

pub new-Inv : (l : Registry) → Inv (new l)
unfolding new tally lookup
new-Inv l = record {
  counted = record {
    distinct = tt;
    total = refl;
    by_platform = λ p. refl;
    ids = λ k t e. cc;
    fresh = λ k t e. cc;
    listed = λ k t e. cc;
  };
  only_running = λ k t e c. cc;
}

module _ (pd : Text → Option ℕ) (Ok : PrefetchConfig → Type 0) (Lim : Registry → Registry → Type 0)
    (l : Registry) {s : Scheduler} (r : Reach pd Ok Lim (new l) s) where
  -- However the requests' critical sections interleave, and whatever the configuration does between
  -- them, in every state that a new scheduler reaches the count of interactive downloads is the
  -- number of tasks that are marked as counting, and the count of each platform is the number of
  -- those of that platform.
  pub counters_exact :
      (p : Text)
      → (s.p0_active ≡ tally counts s.tasks)
        × (count_of p s.p0_by_platform ≡ tally (counts_on p) s.tasks)
  counters_exact p =
      let h = Reach-Inv pd Ok Lim (new-Inv l) r in (h.counted.total, h.counted.by_platform p)

  -- In every state that a new scheduler reaches, a task is stored under its own id, and that id is listed in the order.
  pub tasks_listed :
      (k : Text) (t : TaskInfo) → lookup k s.tasks ≡ some t → (t.id ≡ k) × (has k s.order ≡ true)
  tasks_listed k t e =
      let h = Reach-Inv pd Ok Lim (new-Inv l) r in (h.counted.ids k t e, h.counted.listed k t e)

  -- In every state that a new scheduler reaches, a task that is not running does not count as an
  -- interactive download, be it queued, cancelled or finished.
  pub only_running_counts :
      (k : Text) (t : TaskInfo)
      → lookup k s.tasks ≡ some t
      → t.status ≢ running
      → t.counts_active ≡ false
  only_running_counts k t e idle =
      let h = Reach-Inv pd Ok Lim (new-Inv l) r in ground (arith, h.only_running k t e)

  -- In every state that a new scheduler reaches, as long as the 64-bit id counter does not wrap,
  -- the id that Begin gives to a task was not in use, and the new task is stored under it.
  pub begin_fresh :
      (platform url : Text) (prio : Priority) (boost hold : Bool) (now : ℕ)
      → s.next_id + 1 < u64_mod
      → let id = (begin platform url prio boost hold now s).1 in
        (lookup id s.tasks ≡ none)
        × (lookup id (begin platform url prio boost hold now s).0.tasks
            ≡ some (new_task platform url prio boost hold now id))
  unfolding begin
  begin_fresh platform url prio boost hold now room =
      let h = Reach-Inv pd Ok Lim (new-Inv l) r in
      let e : (s.next_id + 1) % u64_mod ≡ s.next_id + 1 = omega arith in
      let id = task_id url (s.next_id + 1) in
      rw e (
        next_id_unused url s h room,
        lookup-put id id (new_task platform url prio boost hold now id) s.tasks ∙ ground arith,
      )
