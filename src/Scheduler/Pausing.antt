-- ===== src/Scheduler/Pausing.antt =====
-- Prefetch stays paused as long as an interactive download runs.
use mirrorhub.Base.{
  ℕ, ◌<◌, ◌≡◌, refl, sym, subst, Bool, true, false, ◌&&◌, not, Option, some, arith, ◌==◌,
  if◌then◌else◌, inl, inr, Option-cases,
}
use mirrorhub.Base.Text.{Text}
use mirrorhub.Base.Assoc.{lookup, lookup-map_values}
use mirrorhub.RateLimit.{Registry}
use mirrorhub.RateLimit.Pausing.{AllPaused, set_all_paused-AllPaused}
use mirrorhub.Scheduler.State.{
  TaskInfo, Scheduler, PrefetchConfig, new, bind_cancel, unbind_cancel, abort_bound, is_active,
  is_p2, before_running,
}
use mirrorhub.Scheduler.Tasks.{begin, mark_preparing, mark_hit, mark_waiting, update_progress}
use mirrorhub.Scheduler.Active.{
  pauses, promote, pause_prefetch, mark_running_peek, mark_running, resume_prefetch_if_idle,
  apply_prefetch_resume,
}
use mirrorhub.Scheduler.Quiet.{
  IsQuiet, IsQuiet-refl, IsQuiet-prune, IsQuiet-matching, IsQuiet-clears, IsQuiet-task, IsQuiet-end,
  IsQuiet-modify, IsQuiet-purge,
}
use mirrorhub.Scheduler.Steps.{Step, Reach}

-- While anything counts as an interactive download, every limiter is paused.
abbrev pub PausedWhileActive : Scheduler → Type 0
PausedWhileActive s = 0 < s.p0_active → AllPaused true s.limiters

quiet-Paused : (s t : Scheduler) → IsQuiet s t → PausedWhileActive s → PausedWhileActive t
quiet-Paused s t q h p = subst (AllPaused true) (sym q.limiters) (h (omega (arith, q.p0_active)))

if-Paused :
    (b : Bool) (t u : Scheduler)
    → (b ≡ true → PausedWhileActive t)
    → PausedWhileActive u
    → PausedWhileActive (if b then t else u)
if-Paused true t u h g = h refl
if-Paused false t u h g = g

paused-Paused :
    (cfg : PrefetchConfig) (now : ℕ) (s : Scheduler)
    → pauses cfg ≡ true
    → AllPaused true (pause_prefetch cfg now s).limiters
unfolding pause_prefetch
paused-Paused cfg now s c = rw (c, pause_prefetch) (set_all_paused-AllPaused true s.limiters)

runs-Paused :
    (cfg : PrefetchConfig) (k : Text) (now : ℕ) (s : Scheduler)
    → pauses cfg ≡ true
    → PausedWhileActive s
    → PausedWhileActive (mark_running cfg k now s)
unfolding mark_running
runs-Paused cfg k now s c h = elim (Option-cases (lookup k s.tasks)) [
  | inl e ↦ rw (e, mark_running) h
  | inr (t, e) ↦
      rw (e, mark_running)
        (if-Paused (before_running t.status) _ _
          (λ _.
            if-Paused (t.want_p0 && not t.counts_active) _ _ (λ _ p. paused-Paused cfg now _ c) h)
          h)
]

timer-Paused :
    (cfg : PrefetchConfig) (s : Scheduler)
    → PausedWhileActive s
    → PausedWhileActive (apply_prefetch_resume cfg s)
unfolding apply_prefetch_resume
timer-Paused cfg s h =
    if-Paused (cfg.resume_on_idle && s.p0_active == 0) _ _ (λ c p. absurd (ground arith)) h

module _ (pd : Text → Option ℕ) where
  abbrev pub PausingStep : Scheduler → Scheduler → Type 0
  PausingStep = Step pd (λ cfg. pauses cfg ≡ true) (λ r r'. AllPaused true r → AllPaused true r')

  Step-Paused : {s t : Scheduler} → PausingStep s t → PausedWhileActive s → PausedWhileActive t
  unfolding begin mark_preparing mark_hit mark_waiting update_progress mark_running_peek
      resume_prefetch_if_idle bind_cancel unbind_cancel abort_bound
  Step-Paused (Step.begins s platform url prio boost hold now room) h = h
  Step-Paused (Step.prepares s k now) h = quiet-Paused s _ (IsQuiet-modify s k _) h
  Step-Paused (Step.hits s k now) h = quiet-Paused s _ (IsQuiet-modify s k _) h
  Step-Paused (Step.waits s k now) h = quiet-Paused s _ (IsQuiet-modify s k _) h
  Step-Paused (Step.progresses s k got total now) h = quiet-Paused s _ (IsQuiet-modify s k _) h
  Step-Paused (Step.peeks s cfg k c) h = quiet-Paused s (mark_running_peek cfg k s) (ground arith) h
  Step-Paused (Step.runs s cfg k now c) h = runs-Paused cfg k now s c h
  Step-Paused (Step.ends s k err now) h = quiet-Paused s _ (IsQuiet-end s pd k err now) h
  Step-Paused (Step.cancels_task s k only now) h = quiet-Paused s _ (IsQuiet-task s k only now) h
  Step-Paused (Step.cancels_matching s m now) h = quiet-Paused s _ (IsQuiet-matching s m now) h
  Step-Paused (Step.clears s p now) h =
      quiet-Paused s _ (IsQuiet-clears s p now s (IsQuiet-refl s)) h
  Step-Paused (Step.purges s m now) h = quiet-Paused s _ (IsQuiet-purge s m now) h
  Step-Paused (Step.lists s now) h = quiet-Paused s _ (IsQuiet-prune s now s (IsQuiet-refl s)) h
  Step-Paused (Step.arms s cfg now c) h =
      quiet-Paused s (resume_prefetch_if_idle cfg now s) (ground arith) h
  Step-Paused (Step.timer_fires s cfg c) h = timer-Paused cfg s h
  Step-Paused (Step.binds s k f) h = quiet-Paused s (bind_cancel k f s) (ground arith) h
  Step-Paused (Step.unbinds s k) h = quiet-Paused s (unbind_cancel k s) (ground arith) h
  Step-Paused (Step.aborts s k) h = quiet-Paused s (abort_bound k s) (ground arith) h
  Step-Paused (Step.limits s l c) h = λ p. c (h p)

  -- Under configurations that pause prefetch for interactive downloads, and while other components
  -- that change the limiters leave all of them paused where all were paused, every interleaving of
  -- the requests' critical sections from a new scheduler keeps every limiter paused as long as
  -- anything counts as an interactive download; the resume timer may fire at any moment.
  pub paused_while_active :
      (l : Registry) {s : Scheduler}
      → Reach pd (λ cfg. pauses cfg ≡ true) (λ r r'. AllPaused true r → AllPaused true r') (new l) s
      → 0 < s.p0_active
      → AllPaused true s.limiters
  unfolding new
  paused_while_active l Reach.here = λ p. absurd (omega arith)
  paused_while_active l (Reach.next r st) = Step-Paused st (paused_while_active l r)

-- Under a configuration that pauses prefetch, pausing leaves no active task in the class P2.
pub pause_promotes :
    (cfg : PrefetchConfig) (now : ℕ) (s : Scheduler) (k : Text) (t : TaskInfo)
    → pauses cfg ≡ true
    → lookup k (pause_prefetch cfg now s).tasks ≡ some t
    → (is_active t.status && is_p2 t.priority) ≡ false
unfolding pause_prefetch
pause_promotes cfg now s k t c e = ground (arith, lookup-map_values (promote now) k s.tasks)
