-- ===== src/Scheduler/Purging.antt =====
-- What cancelling does to each task.
use mirrorhub.Base.{
  ℕ, ◌≡◌, refl, ◌∙◌, true, false, ◌&&◌, Option, none, some, List, [], ◌∷◌, arith, if◌then◌else◌,
  inl, inr, Option-cases, for_each,
}
use mirrorhub.Base.Text.{Text, ◌===◌}
use mirrorhub.Base.Assoc.{lookup, put, lookup-put}
use mirrorhub.Scheduler.State.{TaskInfo, Scheduler, is_active, is_prefetch_cancellable}
use mirrorhub.Scheduler.Ending.{has}
use mirrorhub.Scheduler.Cancelling.{
  Match, Cancelled, match_task, cancelled_at, mark_cancelled, cancel_one, cancel_matching_locked,
}
use mirrorhub.Scheduler.Invariant.{Inv, lookup-release}

-- What cancelling by `m` makes of a table's entry.
abbrev pub settled : Match → ℕ → Option TaskInfo → Option TaskInfo
settled m now none = none
settled m now (some t) =
    if is_active t.status && match_task m t
    then some (record (cancelled_at now t) { counts_active = false })
    else some t

lookup-mark_cancelled :
    (k j : Text) (now : ℕ) (t : TaskInfo) (s : Scheduler)
    → lookup j (mark_cancelled k now t s).tasks ≡ (
        if k === j
        then some (record (cancelled_at now t) { counts_active = false })
        else lookup j s.tasks)
unfolding mark_cancelled
lookup-mark_cancelled k j now t s = ground (
  arith,
  lookup-release k j (record s { tasks = put k (cancelled_at now t) s.tasks }),
  lookup-put k j (cancelled_at now t) s.tasks,
  lookup-put k k (cancelled_at now t) s.tasks,
)

lookup-cancel_one :
    (m : Match) (now : ℕ) (k j : Text) (c : Cancelled)
    → lookup j (cancel_one m now k c).0.tasks
      ≡ (if k === j then settled m now (lookup j c.0.tasks) else lookup j c.0.tasks)
unfolding cancel_one
lookup-cancel_one m now k j (s, ids) = elim (Option-cases (lookup k s.tasks)) [
  | inl e ↦ rw (e, cancel_one) (ground (arith, e))
  | inr (t, e) ↦ rw (e, cancel_one) (ground (arith, e, lookup-mark_cancelled k j now t s))
]

settled_twice :
    (m : Match) (now : ℕ) (o : Option TaskInfo) → settled m now (settled m now o) ≡ settled m now o
settled_twice m now none = refl
settled_twice m now (some t) = ground arith

lookup-cancel_loop :
    (m : Match) (now : ℕ) (j : Text) (xs : List Text) (c : Cancelled)
    → lookup j (for_each (cancel_one m now) xs c).0.tasks
      ≡ (if has j xs then settled m now (lookup j c.0.tasks) else lookup j c.0.tasks)
unfolding for_each
lookup-cancel_loop m now j [] c = refl
lookup-cancel_loop m now j (x ∷ xs) c = ground (
  arith,
  lookup-cancel_loop m now j xs (cancel_one m now x c),
  lookup-cancel_one m now x j c,
  settled_twice m now (lookup j c.0.tasks),
)

-- In a state that keeps the scheduler's invariant, cancelling by a match changes the table entry
-- by entry: every active task that matches is left cancelled, without its error and outside the
-- count of interactive downloads, and every other task is left exactly as it was.
pub cancel_matching_exact :
    (m : Match) (now : ℕ) (s : Scheduler) (k : Text)
    → Inv s
    → lookup k (cancel_matching_locked m now s).0.tasks ≡ settled m now (lookup k s.tasks)
unfolding cancel_matching_locked
cancel_matching_exact m now s k h = elim (Option-cases (lookup k s.tasks)) [
  | inl e ↦ ground (arith, e, lookup-cancel_loop m now k s.order (s, []))
  | inr (t, e) ↦
      ground (arith, e, h.counted.listed k t e, lookup-cancel_loop m now k s.order (s, []))
]

-- In a state that keeps the scheduler's invariant, cancelling by a match that is for prefetch only
-- does not change a task whose priority is not one of prefetch.
pub prefetch_cancel_spares_interactive :
    (m : Match) (now : ℕ) (s : Scheduler) (k : Text) (t : TaskInfo)
    → Inv s
    → m.prefetch_only ≡ true
    → lookup k s.tasks ≡ some t
    → is_prefetch_cancellable t.priority ≡ false
    → lookup k (cancel_matching_locked m now s).0.tasks ≡ some t
unfolding match_task
prefetch_cancel_spares_interactive m now s k t h only e p =
    cancel_matching_exact m now s k h ∙ ground arith
