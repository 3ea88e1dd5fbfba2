-- ===== src/Scheduler/Invariant/Cancels.antt =====
-- Cancelling and clearing tasks keep the invariant.
use mirrorhub.Base.{
  ℕ, ◌≡◌, refl, Bool, true, false, some, [], if◌then◌else◌, inl, inr, Option-cases, for_each_inv,
}
use mirrorhub.Base.Text.{Text}
use mirrorhub.Base.Assoc.{lookup}
use mirrorhub.Scheduler.State.{TaskInfo, Scheduler, abort_bound}
use mirrorhub.Scheduler.Cancelling.{
  Match, Cancelled, cancelled_at, mark_cancelled, cancel_one, cancel_matching_locked, cancel_by_url,
  cancel_task_locked, clear_one, clear_loop, clear_finished_matching, purge_locked,
}
use mirrorhub.Scheduler.Invariant.{Inv, drop-Inv, settle-Inv, rest-Inv}
use mirrorhub.Scheduler.Invariant.Endings.{prune_finished-Inv, reorder-Inv}

mark_cancelled-Inv :
    (k : Text) (now : ℕ) (t : TaskInfo) (s : Scheduler)
    → Inv s
    → lookup k s.tasks ≡ some t
    → Inv (mark_cancelled k now t s)
unfolding mark_cancelled
mark_cancelled-Inv k now t s h e = settle-Inv s k t (cancelled_at now t) h e (refl, refl, refl)

abbrev FstInv {ℓ} : {A : Type ℓ} → Scheduler × A → Type 0
FstInv c = Inv c.0

if-FstInv {ℓ} :
    {A : Type ℓ} (b : Bool) (c d : Scheduler × A)
    → FstInv c
    → FstInv d
    → FstInv (if b then c else d)
if-FstInv true c d h g = h
if-FstInv false c d h g = g

cancel_one-Inv :
    (m : Match) (now : ℕ) (k : Text) (c : Cancelled) → FstInv c → FstInv (cancel_one m now k c)
unfolding cancel_one
cancel_one-Inv m now k (s, ids) h = elim (Option-cases (lookup k s.tasks)) [
  | inl e ↦ rw (e, cancel_one) h
  | inr (t, e) ↦ rw (e, cancel_one) (if-FstInv _ _ _ (mark_cancelled-Inv k now t s h e) h)
]

cancel_by_url-Inv :
    (url : Text) (only : Bool) (now : ℕ) (k : Text) (c : Cancelled)
    → FstInv c
    → FstInv (cancel_by_url url only now k c)
unfolding cancel_by_url
cancel_by_url-Inv url only now k (s, ids) h = elim (Option-cases (lookup k s.tasks)) [
  | inl e ↦ rw (e, cancel_by_url) h
  | inr (t, e) ↦ rw (e, cancel_by_url) (if-FstInv _ _ _ (mark_cancelled-Inv k now t s h e) h)
]

pub cancel_matching-Inv :
    (m : Match) (now : ℕ) (s : Scheduler) → Inv s → Inv (cancel_matching_locked m now s).0
unfolding cancel_matching_locked
cancel_matching-Inv m now s h =
    for_each_inv FstInv (cancel_one m now) (cancel_one-Inv m now) s.order (s, []) h

pub cancel_task-Inv :
    (k : Text) (only : Bool) (now : ℕ) (s : Scheduler)
    → Inv s
    → Inv (cancel_task_locked k only now s).0
unfolding cancel_task_locked
cancel_task-Inv k only now s h = elim (Option-cases (lookup k s.tasks)) [
  | inl e ↦
      rw (e, cancel_task_locked)
        (for_each_inv FstInv (cancel_by_url k only now) (cancel_by_url-Inv k only now) s.order
          (s, []) h)
  | inr (t, e) ↦ rw (e, cancel_task_locked) (if-FstInv _ _ _ (mark_cancelled-Inv k now t s h e) h)
]

clear_one-Inv : (p k : Text) (c : Scheduler × ℕ) → FstInv c → FstInv (clear_one p k c)
unfolding clear_one
clear_one-Inv p k (s, n) h = elim (Option-cases (lookup k s.tasks)) [
  | inl e ↦ rw (e, clear_one) h
  | inr (t, e) ↦ rw (e, clear_one) (if-FstInv _ _ _ (drop-Inv k s h) h)
]

pub clear_loop-Inv : (p : Text) (s : Scheduler) → Inv s → Inv (clear_loop p s).0
unfolding clear_loop
clear_loop-Inv p s h =
    reorder-Inv _ (for_each_inv FstInv (clear_one p) (clear_one-Inv p) s.order (s, 0) h)

pub clear_finished-Inv :
    (p : Text) (now : ℕ) (s : Scheduler) → Inv s → Inv (clear_finished_matching p now s).0
unfolding clear_finished_matching
clear_finished-Inv p now s h = prune_finished-Inv now _ (clear_loop-Inv p s h)

pub purge-Inv : (m : Match) (now : ℕ) (s : Scheduler) → Inv s → Inv (purge_locked m now s).0
unfolding purge_locked
purge-Inv m now s h = clear_finished-Inv m.platform now _ (cancel_matching-Inv m now s h)

pub abort_bound-Inv : (k : Text) (s : Scheduler) → Inv s → Inv (abort_bound k s)
unfolding abort_bound
abort_bound-Inv k s h = elim (Option-cases (lookup k s.cancels)) [
  | inl e ↦ rw (e, abort_bound) h
  | inr (t, e) ↦ rw (e, abort_bound) (rest-Inv s _ _ _ _ h)
]
