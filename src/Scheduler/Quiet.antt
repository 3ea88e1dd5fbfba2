-- ===== src/Scheduler/Quiet.antt =====
-- The critical sections that pause and resume nothing, and start no interactive download.
use mirrorhub.Base.{
  ℕ, ◌≤◌, ◌≡◌, Bool, true, false, Option, List, [], arith, if◌then◌else◌, inl, inr, Option-cases,
  for_each_inv,
}
use mirrorhub.Base.Text.{Text}
use mirrorhub.Base.Assoc.{lookup}
use mirrorhub.Errors.{GoError}
use mirrorhub.Scheduler.State.{TaskInfo, Scheduler, modify}
use mirrorhub.Scheduler.Active.{release_active}
use mirrorhub.Scheduler.Ending.{
  drop_task, prune_one, drop_listed, prune_expired, prune_surplus, prune_finished, end_task,
}
use mirrorhub.Scheduler.Cancelling.{
  Match, Cancelled, mark_cancelled, cancel_one, cancel_by_url, cancel_matching_locked,
  cancel_task_locked, clear_one, clear_loop, clear_finished_matching, purge_locked,
}

-- A section that pauses and resumes nothing, and starts no interactive download.
pub record IsQuiet (s t : Scheduler) : Type 0 where
  pub limiters : t.limiters ≡ s.limiters
  pub p0_active : t.p0_active ≤ s.p0_active

pub IsQuiet-refl : (s : Scheduler) → IsQuiet s s
IsQuiet-refl s = ground arith

IsQuiet-if :
    (b : Bool) (s : Scheduler) {t u : Scheduler}
    → IsQuiet s t
    → IsQuiet s u
    → IsQuiet s (if b then t else u)
IsQuiet-if true s h g = h
IsQuiet-if false s h g = g

IsQuiet-if_fst {ℓ} :
    {A : Type ℓ} (b : Bool) (s : Scheduler) (c d : Scheduler × A)
    → IsQuiet s c.0
    → IsQuiet s d.0
    → IsQuiet s (if b then c else d).0
IsQuiet-if_fst true s c d h g = h
IsQuiet-if_fst false s c d h g = g

module _ (s : Scheduler) where
  IsQuiet-release : (k : Text) (t : Scheduler) → IsQuiet s t → IsQuiet s (release_active k t)
  unfolding release_active
  IsQuiet-release k t h = elim (Option-cases (lookup k t.tasks)) [
    | inl e ↦ rw (e, release_active) h
    | inr (u, e) ↦ rw (e, release_active) (ground arith)
  ]

  IsQuiet-drop : (k : Text) (t : Scheduler) → IsQuiet s t → IsQuiet s (drop_task k t)
  unfolding drop_task
  IsQuiet-drop k t h =
      let q = IsQuiet-release k t h in record { limiters = q.limiters; p0_active = q.p0_active }

  IsQuiet-prune_one :
      (now : ℕ) (k : Text) (t : Scheduler) → IsQuiet s t → IsQuiet s (prune_one now k t)
  unfolding prune_one
  IsQuiet-prune_one now k t h = elim (Option-cases (lookup k t.tasks)) [
    | inl e ↦ rw (e, prune_one) h
    | inr (u, e) ↦ rw (e, prune_one) (IsQuiet-if _ s (IsQuiet-drop k t h) h)
  ]

  IsQuiet-drop_listed :
      (ids : List Text) (k : Text) (t : Scheduler) → IsQuiet s t → IsQuiet s (drop_listed ids k t)
  unfolding drop_listed
  IsQuiet-drop_listed ids k t h = IsQuiet-if _ s (IsQuiet-drop k t h) h

  pub IsQuiet-prune : (now : ℕ) (t : Scheduler) → IsQuiet s t → IsQuiet s (prune_finished now t)
  unfolding prune_finished prune_expired prune_surplus
  IsQuiet-prune now t h =
      let a = for_each_inv (IsQuiet s) (prune_one now) (IsQuiet-prune_one now) t.order t h in
      let b =
        for_each_inv (IsQuiet s) (drop_listed _) (IsQuiet-drop_listed _) _ _
          (record { limiters = a.limiters; p0_active = a.p0_active }) in
      record { limiters = b.limiters; p0_active = b.p0_active }

  IsQuiet-mark :
      (k : Text) (now : ℕ) (u : TaskInfo) (t : Scheduler)
      → IsQuiet s t
      → IsQuiet s (mark_cancelled k now u t)
  unfolding mark_cancelled
  IsQuiet-mark k now u t h =
      IsQuiet-release k _ (record { limiters = h.limiters; p0_active = h.p0_active })

  IsQuiet-cancel_one :
      (m : Match) (now : ℕ) (k : Text) (c : Cancelled)
      → IsQuiet s c.0
      → IsQuiet s (cancel_one m now k c).0
  unfolding cancel_one
  IsQuiet-cancel_one m now k (t, ids) h = elim (Option-cases (lookup k t.tasks)) [
    | inl e ↦ rw (e, cancel_one) h
    | inr (u, e) ↦ rw (e, cancel_one) (IsQuiet-if_fst _ s _ _ (IsQuiet-mark k now u t h) h)
  ]

  IsQuiet-by_url :
      (url : Text) (only : Bool) (now : ℕ) (k : Text) (c : Cancelled)
      → IsQuiet s c.0
      → IsQuiet s (cancel_by_url url only now k c).0
  unfolding cancel_by_url
  IsQuiet-by_url url only now k (t, ids) h = elim (Option-cases (lookup k t.tasks)) [
    | inl e ↦ rw (e, cancel_by_url) h
    | inr (u, e) ↦ rw (e, cancel_by_url) (IsQuiet-if_fst _ s _ _ (IsQuiet-mark k now u t h) h)
  ]

  IsQuiet-clear_one :
      (p k : Text) (c : Scheduler × ℕ) → IsQuiet s c.0 → IsQuiet s (clear_one p k c).0
  unfolding clear_one
  IsQuiet-clear_one p k (t, n) h = elim (Option-cases (lookup k t.tasks)) [
    | inl e ↦ rw (e, clear_one) h
    | inr (u, e) ↦ rw (e, clear_one) (IsQuiet-if_fst _ s _ _ (IsQuiet-drop k t h) h)
  ]

  pub IsQuiet-matching : (m : Match) (now : ℕ) → IsQuiet s (cancel_matching_locked m now s).0
  unfolding cancel_matching_locked
  IsQuiet-matching m now =
      for_each_inv (λ (c : Cancelled). IsQuiet s c.0) (cancel_one m now) (IsQuiet-cancel_one m now)
        s.order (s, []) (IsQuiet-refl s)

  pub IsQuiet-clears :
      (p : Text) (now : ℕ) (t : Scheduler)
      → IsQuiet s t
      → IsQuiet s (clear_finished_matching p now t).0
  unfolding clear_finished_matching clear_loop
  IsQuiet-clears p now t h =
      let a =
        for_each_inv (λ (c : Scheduler × ℕ). IsQuiet s c.0) (clear_one p) (IsQuiet-clear_one p)
          t.order (t, 0) h in
      IsQuiet-prune now _ (record { limiters = a.limiters; p0_active = a.p0_active })

  pub IsQuiet-task :
      (k : Text) (only : Bool) (now : ℕ) → IsQuiet s (cancel_task_locked k only now s).0
  unfolding cancel_task_locked
  IsQuiet-task k only now = elim (Option-cases (lookup k s.tasks)) [
    | inl e ↦
        rw (e, cancel_task_locked)
          (for_each_inv (λ (c : Cancelled). IsQuiet s c.0) (cancel_by_url k only now)
            (IsQuiet-by_url k only now) s.order (s, []) (IsQuiet-refl s))
    | inr (u, e) ↦
        rw (e, cancel_task_locked)
          (IsQuiet-if_fst _ s _ _ (IsQuiet-mark k now u s (IsQuiet-refl s)) (IsQuiet-refl s))
  ]

  pub IsQuiet-end :
      (pd : Text → Option ℕ) (k : Text) (err : Option GoError) (now : ℕ)
      → IsQuiet s (end_task pd k err now s)
  unfolding end_task
  IsQuiet-end pd k err now = elim (Option-cases (lookup k s.tasks)) [
    | inl e ↦ rw (e, end_task) (IsQuiet-prune now s (IsQuiet-refl s))
    | inr (u, e) ↦
        rw (e, end_task)
          (IsQuiet-if _ s (IsQuiet-prune now _ (IsQuiet-release k s (IsQuiet-refl s)))
            (IsQuiet-prune now _ (IsQuiet-release k _ (ground arith))))
  ]

  pub IsQuiet-modify : (k : Text) (f : TaskInfo → TaskInfo) → IsQuiet s (modify k f s)
  unfolding modify
  IsQuiet-modify k f = ground arith

  pub IsQuiet-purge : (m : Match) (now : ℕ) → IsQuiet s (purge_locked m now s).0
  unfolding purge_locked
  IsQuiet-purge m now = IsQuiet-clears m.platform now _ (IsQuiet-matching m now)
