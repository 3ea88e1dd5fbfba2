-- ===== src/Scheduler/Invariant/Tasks.antt =====
-- Registering a task and moving it forward keep the invariant.
use mirrorhub.Base.{
  ℕ, ◌+◌, ◌%◌, ◌<◌, ◌≡◌, Bool, true, none, List, [], ◌∷◌, ◌++◌, arith, if◌then◌else◌, inl, inr,
  Option-cases, u64_mod, ℤ,
}
use mirrorhub.Base.Text.{Text, ◌===◌, seq_of-format}
use mirrorhub.Base.Assoc.{lookup, put, lookup-put, put-Distinct, tally-put_new}
use mirrorhub.Scheduler.State.{TaskInfo, Scheduler, Priority, running, modify}
use mirrorhub.Scheduler.Tasks.{
  begin, goes_first, new_task, task_id, mark_preparing, mark_hit, mark_waiting, update_progress,
}
use mirrorhub.Scheduler.Ending.{has}
use mirrorhub.Scheduler.Invariant.{counts, counts_on, IsCounted, Inv, SameCount, put-Inv}

-- A task that another leaves behind counts only while it runs, if the other did.
abbrev pub KeepsCount : (TaskInfo → TaskInfo) → Type 0
KeepsCount f =
    (t : TaskInfo)
    → (t.counts_active ≡ true → t.status ≡ running)
    → SameCount t (f t) × ((f t).counts_active ≡ true → (f t).status ≡ running)

pub modify-Inv :
    (k : Text) (f : TaskInfo → TaskInfo) (s : Scheduler) → KeepsCount f → Inv s → Inv (modify k f s)
unfolding modify
modify-Inv k f s keeps h = elim (Option-cases (lookup k s.tasks)) [
  | inl e ↦ rw (e, modify) h
  | inr (t, e) ↦
      rw (e, modify)
        (put-Inv s k t (f t) h e (keeps t (h.only_running k t e)).0
          (keeps t (h.only_running k t e)).1)
]

pub mark_preparing-Inv : (k : Text) (now : ℕ) (s : Scheduler) → Inv s → Inv (mark_preparing k now s)
unfolding mark_preparing
mark_preparing-Inv k now s = modify-Inv k _ s (λ t run. ground arith)

pub mark_hit-Inv : (k : Text) (now : ℕ) (s : Scheduler) → Inv s → Inv (mark_hit k now s)
unfolding mark_hit
mark_hit-Inv k now s = modify-Inv k _ s (λ t run. ground arith)

pub mark_waiting-Inv : (k : Text) (now : ℕ) (s : Scheduler) → Inv s → Inv (mark_waiting k now s)
unfolding mark_waiting
mark_waiting-Inv k now s = modify-Inv k _ s (λ t run. ground arith)

pub update_progress-Inv :
    (k : Text) (got total : ℤ) (now : ℕ) (s : Scheduler)
    → Inv s
    → Inv (update_progress k got total now s)
unfolding update_progress
update_progress-Inv k got total now s = modify-Inv k _ s (λ t run. ground arith)

-- The next id is not in use, as long as the 64-bit counter does not wrap.
pub next_id_unused :
    (url : Text) (s : Scheduler)
    → Inv s
    → s.next_id + 1 < u64_mod
    → lookup (task_id url (s.next_id + 1)) s.tasks ≡ none
next_id_unused url s h b = elim (Option-cases (lookup (task_id url (s.next_id + 1)) s.tasks)) [
  | inl e ↦ e
  | inr (t, e) ↦ absurd (omega (arith, h.counted.fresh _ t e, seq_of-format url (s.next_id + 1) b))
]

has-append :
    (k j : Text) (xs : List Text) → has k (xs ++ j ∷ []) ≡ (if has k xs then true else j === k)
has-append k j [] = ground arith
has-append k j (x ∷ xs) = ground (arith, has-append k j xs)

module _ (platform url : Text) (prio : Priority) (boost hold : Bool) (now : ℕ) (s : Scheduler)
    (h : Inv s) (room : s.next_id + 1 < u64_mod) where
  abbrev id : Text
  id = task_id url (s.next_id + 1)

  abbrev u : TaskInfo
  u = new_task platform url prio boost hold now id

  abbrev order' : List Text
  order' = if goes_first boost prio then id ∷ s.order else s.order ++ id ∷ []

  has-order' : (k : Text) → has k order' ≡ (if has k s.order then true else id === k)
  has-order' k = ground (arith, has-append k id s.order)

  begun-IsCounted :
      IsCounted (record s { next_id = s.next_id + 1; tasks = put id u s.tasks; order = order' })
  begun-IsCounted =
      let new = next_id_unused url s h room in
      record {
        distinct = put-Distinct id u s.tasks h.counted.distinct;
        total = ground (arith, h.counted.total, tally-put_new counts id u s.tasks new);
        by_platform = λ p.
            ground (arith, h.counted.by_platform p, tally-put_new (counts_on p) id u s.tasks new);
        ids = λ j v f. ground (arith, h.counted.ids j v, lookup-put id j u s.tasks);
        fresh = λ j v f. ground (
          arith,
          h.counted.fresh j v,
          lookup-put id j u s.tasks,
          seq_of-format url (s.next_id + 1) room,
        );
        listed =
            λ j v f. ground (arith, h.counted.listed j v, lookup-put id j u s.tasks, has-order' j);
      }

  begun-Inv : Inv (record s { next_id = s.next_id + 1; tasks = put id u s.tasks; order = order' })
  begun-Inv = record {
    counted = begun-IsCounted;
    only_running = λ j v f c. ground (arith, h.only_running j v, lookup-put id j u s.tasks);
  }

  pub begin-Inv : Inv (begin platform url prio boost hold now s).0
  unfolding begin
  begin-Inv = let e : (s.next_id + 1) % u64_mod ≡ s.next_id + 1 = omega arith in rw e begun-Inv
