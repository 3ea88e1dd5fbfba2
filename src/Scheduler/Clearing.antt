-- ===== src/Scheduler/Clearing.antt =====
-- What clearing the finished tasks does to each task, with the pruning that follows.
use mirrorhub.Base.{
  ℕ, ◌≤◌, ◌<◌, ◌≡◌, ◌⊎◌, ◌∙◌, refl, ap, Bool, true, false, ◌&&◌, ◌||◌, Option, none, some, List, [],
  ◌∷◌, arith, if◌then◌else◌, inl, inr, Bool-cases, Option-cases, for_each,
}
use mirrorhub.Base.Text.{Text, ◌===◌}
use mirrorhub.Base.Assoc.{lookup}
use mirrorhub.Scheduler.State.{TaskInfo, Scheduler, error_task_max_n}
use mirrorhub.Scheduler.Ending.{
  has, is_expired, is_error, prune_one, prune_expired, prune_finished, surplus_errors,
}
use mirrorhub.Scheduler.Cancelling.{clears, clear_one, clear_loop, clear_finished_matching}
use mirrorhub.Scheduler.Invariant.{Inv, lookup-drop}
use mirrorhub.Scheduler.Surplus.{
  failed_listed, lookup-prune_surplus, surplus-failed, prune_surplus-le,
}
use mirrorhub.Scheduler.Invariant.Cancels.{clear_loop-Inv}

-- What clearing a platform makes of a table's entry.
abbrev pub cleared : Text → Option TaskInfo → Option TaskInfo
cleared p none = none
cleared p (some t) = if clears p t then none else some t

lookup-clear_one :
    (p k j : Text) (c : Scheduler × ℕ)
    → lookup j (clear_one p k c).0.tasks
      ≡ (if k === j then cleared p (lookup j c.0.tasks) else lookup j c.0.tasks)
unfolding clear_one
lookup-clear_one p k j (s, n) = elim (Option-cases (lookup k s.tasks)) [
  | inl e ↦ rw (e, clear_one) (ground (arith, e))
  | inr (t, e) ↦ rw (e, clear_one) (ground (arith, e, lookup-drop k j s))
]

lookup-clear_loop :
    (p j : Text) (xs : List Text) (c : Scheduler × ℕ)
    → lookup j (for_each (clear_one p) xs c).0.tasks
      ≡ (if has j xs then cleared p (lookup j c.0.tasks) else lookup j c.0.tasks)
unfolding for_each
lookup-clear_loop p j [] c = refl
lookup-clear_loop p j (x ∷ xs) c =
    ground (arith, lookup-clear_loop p j xs (clear_one p x c), lookup-clear_one p x j c)

lookup-clear :
    (p : Text) (s : Scheduler) (k : Text)
    → Inv s
    → lookup k (clear_loop p s).0.tasks ≡ cleared p (lookup k s.tasks)
unfolding clear_loop
lookup-clear p s k h = elim (Option-cases (lookup k s.tasks)) [
  | inl e ↦ ground (arith, e, lookup-clear_loop p k s.order (s, 0))
  | inr (t, e) ↦ ground (arith, e, h.counted.listed k t e, lookup-clear_loop p k s.order (s, 0))
]

abbrev unexpired : ℕ → Option TaskInfo → Option TaskInfo
unexpired now none = none
unexpired now (some t) = if is_expired now t then none else some t

lookup-prune_one :
    (now : ℕ) (k j : Text) (s : Scheduler)
    → lookup j (prune_one now k s).tasks
      ≡ (if k === j then unexpired now (lookup j s.tasks) else lookup j s.tasks)
unfolding prune_one
lookup-prune_one now k j s = elim (Option-cases (lookup k s.tasks)) [
  | inl e ↦ rw (e, prune_one) (ground (arith, e))
  | inr (t, e) ↦ rw (e, prune_one) (ground (arith, e, lookup-drop k j s))
]

unexpired_twice :
    (now : ℕ) (o : Option TaskInfo) → unexpired now (unexpired now o) ≡ unexpired now o
unexpired_twice now none = refl
unexpired_twice now (some t) = ground arith

lookup-prune_loop :
    (now : ℕ) (j : Text) (xs : List Text) (s : Scheduler)
    → lookup j (for_each (prune_one now) xs s).tasks
      ≡ (if has j xs then unexpired now (lookup j s.tasks) else lookup j s.tasks)
unfolding for_each
lookup-prune_loop now j [] s = refl
lookup-prune_loop now j (x ∷ xs) s = ground (
  arith,
  lookup-prune_loop now j xs (prune_one now x s),
  lookup-prune_one now x j s,
  unexpired_twice now (lookup j s.tasks),
)

lookup-prune_expired :
    (now : ℕ) (s : Scheduler) (k : Text)
    → Inv s
    → lookup k (prune_expired now s).tasks ≡ unexpired now (lookup k s.tasks)
unfolding prune_expired
lookup-prune_expired now s k h = elim (Option-cases (lookup k s.tasks)) [
  | inl e ↦ ground (arith, e, lookup-prune_loop now k s.order s)
  | inr (t, e) ↦ ground (arith, e, h.counted.listed k t e, lookup-prune_loop now k s.order s)
]

-- What is left of an entry: a task that is cleared or has expired is gone, and any other is as it
-- was, but for a failed one where `failed` of them, more than are kept, were left.
abbrev pub Clearance : Text → ℕ → ℕ → Option TaskInfo → Option TaskInfo → Type 0
Clearance p now failed none after = after ≡ none
Clearance p now failed (some t) after =
    (((clears p t || is_expired now t) ≡ true) × (after ≡ none))
    ⊎ (((clears p t || is_expired now t) ≡ false)
        × ((after ≡ some t)
            ⊎ ((after ≡ none) × (is_error t.status ≡ true) × (error_task_max_n < failed))))

-- Where the entry stands before the surplus goes, and whether it does.
settle-Clearance :
    (p : Text) (now failed : ℕ) (o : Option TaskInfo) (surplus : Bool)
    → ((t : TaskInfo)
        → unexpired now (cleared p o) ≡ some t
        → surplus ≡ true
        → (is_error t.status ≡ true) × (error_task_max_n < failed))
    → Clearance p now failed o (if surplus then none else unexpired now (cleared p o))
settle-Clearance p now failed none true h = refl
settle-Clearance p now failed none false h = refl
settle-Clearance p now failed (some t) surplus h =
    elim (Bool-cases (clears p t || is_expired now t)) [
      | inl gone ↦ inl (gone, ground arith)
      | inr left ↦
          let kept : unexpired now (cleared p (some t)) ≡ some t = ground arith in
          elim (Bool-cases surplus) [
            | inl e ↦ inr (left, (let f = h t kept e in inr (rw e refl, f.0, f.1)))
            | inr e ↦ inr (left, inl (rw e kept))
          ]
    ]

-- In a state that keeps the scheduler's invariant, clearing a platform, or all of them where none is
-- named, decides on every task: its finished tasks and the expired tasks of any platform are gone,
-- and every other task is left as it was, except that failed tasks may go where more of them are
-- left than are kept; and no more of them are then left than are kept.
pub clear_finished_exact :
    (p : Text) (now : ℕ) (s : Scheduler) (k : Text)
    → Inv s
    → Clearance p now
        (failed_listed (prune_expired now (clear_loop p s).0))
        (lookup k s.tasks)
        (lookup k (clear_finished_matching p now s).0.tasks)
      × (failed_listed (clear_finished_matching p now s).0 ≤ error_task_max_n)
unfolding clear_finished_matching prune_finished
clear_finished_exact p now s k h =
    let s1 = (clear_loop p s).0 in
    let s2 = prune_expired now s1 in
    let before : lookup k s2.tasks ≡ unexpired now (cleared p (lookup k s.tasks)) =
      lookup-prune_expired now s1 k (clear_loop-Inv p s h)
      ∙ ap (unexpired now) (lookup-clear p s k h) in
    let surplus = has k s2.order && has k (surplus_errors s2) in
    let after = lookup-prune_surplus k s2 in
    (
      rw after (
          rw before (
            settle-Clearance p now (failed_listed s2) (lookup k s.tasks) surplus
              (λ t e b. ground (arith, surplus-failed s2 k, before, e, b)))),
      prune_surplus-le s2,
    )
