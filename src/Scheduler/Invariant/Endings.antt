-- ===== src/Scheduler/Invariant/Endings.antt =====
-- Ending tasks and dropping old ones keep the invariant.
use mirrorhub.Base.{
  ℕ, ◌≡◌, refl, sym, subst, Bool, true, Option, none, some, List, [], ◌∷◌, arith, inl, inr,
  Option-cases, keep, for_each_inv,
}
use mirrorhub.Base.Text.{Text, text_dec}
use mirrorhub.Base.Assoc.{lookup}
use mirrorhub.Errors.{GoError}
use mirrorhub.Scheduler.State.{TaskInfo, Scheduler}
use mirrorhub.Scheduler.Ending.{
  has, prune_one, prune_expired, prune_surplus, prune_finished, drop_listed, is_held, ended,
  end_task,
}
use mirrorhub.Scheduler.Invariant.{Inv, SameCount, drop-Inv, release-Inv, settle-Inv}
use mirrorhub.Scheduler.Invariant.Running.{if-Inv}

has-keep :
    (p : Text → Bool) (k : Text) (xs : List Text)
    → p k ≡ true
    → has k xs ≡ true
    → has k (keep p xs) ≡ true
unfolding keep
has-keep p k [] q h = h
has-keep p k (x ∷ xs) q h = elim (text_dec x k) [
  | yes e ↦ ground (arith, e, subst (λ z. p z ≡ true) (sym e) q)
  | no n ↦ ground (arith, has-keep p k xs q)
]

-- Ids that are no longer held may leave the order.
pub reorder-Inv : (s : Scheduler) → Inv s → Inv (record s { order = keep (is_held s) s.order })
reorder-Inv s h = record {
  counted = record {
    distinct = h.counted.distinct;
    total = h.counted.total;
    by_platform = h.counted.by_platform;
    ids = h.counted.ids;
    fresh = h.counted.fresh;
    listed = λ k t e. has-keep (is_held s) k s.order (rw (e, is_held)) (h.counted.listed k t e);
  };
  only_running = h.only_running;
}

prune_one-Inv : (now : ℕ) (k : Text) (s : Scheduler) → Inv s → Inv (prune_one now k s)
unfolding prune_one
prune_one-Inv now k s h = elim (Option-cases (lookup k s.tasks)) [
  | inl e ↦ rw (e, prune_one) h
  | inr (t, e) ↦ rw (e, prune_one) (if-Inv _ (drop-Inv k s h) h)
]

drop_listed-Inv : (ids : List Text) (k : Text) (s : Scheduler) → Inv s → Inv (drop_listed ids k s)
unfolding drop_listed
drop_listed-Inv ids k s h = if-Inv _ (drop-Inv k s h) h

pub prune_finished-Inv : (now : ℕ) (s : Scheduler) → Inv s → Inv (prune_finished now s)
unfolding prune_finished prune_expired prune_surplus
prune_finished-Inv now s h =
    let one = reorder-Inv _ (for_each_inv Inv (prune_one now) (prune_one-Inv now) s.order s h) in
    reorder-Inv _ (for_each_inv Inv (drop_listed _) (drop_listed-Inv _) _ _ one)

module _ (pd : Text → Option ℕ) where
  ended-SameCount :
      (err : Option GoError) (now : ℕ) (t : TaskInfo) → SameCount t (ended pd err now t)
  unfolding ended
  ended-SameCount none now t = (refl, refl, refl)
  ended-SameCount (some e) now t = ground arith

  pub end_task-Inv :
      (k : Text) (err : Option GoError) (now : ℕ) (s : Scheduler)
      → Inv s
      → Inv (end_task pd k err now s)
  unfolding end_task
  end_task-Inv k err now s h = elim (Option-cases (lookup k s.tasks)) [
    | inl e ↦ rw (e, end_task) (prune_finished-Inv now s h)
    | inr (t, e) ↦
        rw (e, end_task)
          (if-Inv _ (prune_finished-Inv now _ (release-Inv k s h)) (
            prune_finished-Inv now _
              (settle-Inv s k t (ended pd err now t) h e (ended-SameCount err now t))))
  ]
