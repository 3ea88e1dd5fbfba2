-- ===== src/Scheduler/Ending.antt =====
-- scheduler.go: ending a task, and dropping old tasks from the table.
use mirrorhub.Base.{
  ℕ, ◌-◌, Bool, true, false, not, ◌&&◌, ◌||◌, Option, none, some, List, [], ◌∷◌, leb, ◌==◌,
  if◌then◌else◌, length, take, keep, for_each,
}
use mirrorhub.Base.Text.{Text, codes, contains, ◌===◌}
use mirrorhub.Base.Assoc.{lookup, put, without}
use mirrorhub.Errors.{
  GoError, Class-discrete, cancel, canceled, no_code, is, class_of, error_text, error_code,
}
use mirrorhub.Scheduler.State.{
  Status, TaskInfo, Scheduler, done, cancelled, error, finished_task_ttl, error_task_ttl,
  error_task_max_n,
}
use mirrorhub.Scheduler.Active.{release_active}

abbrev pub is_cancelled : Status → Bool
is_cancelled cancelled = true
is_cancelled _ = false

abbrev pub is_error : Status → Bool
is_error error = true
is_error _ = false

-- Whether a finished task is past its time.
abbrev pub is_expired : ℕ → TaskInfo → Bool
is_expired now t = not (t.updated_at == 0) && elim t.status [
  | done ↦ leb finished_task_ttl (now - t.updated_at)
  | cancelled ↦ leb finished_task_ttl (now - t.updated_at)
  | error ↦ leb error_task_ttl (now - t.updated_at)
  | _ ↦ false
]

-- `s.releaseActiveLocked(t); delete(s.tasks, id)`
unfoldable pub drop_task : Text → Scheduler → Scheduler
drop_task id s = let s = release_active id s in record s { tasks = without id s.tasks }

unfoldable pub prune_one : ℕ → Text → Scheduler → Scheduler
prune_one now id s = elim (lookup id s.tasks) [
  | none ↦ s
  | some t ↦ if is_expired now t then drop_task id s else s
]

abbrev pub is_held : Scheduler → Text → Bool
is_held s id = elim (lookup id s.tasks) [ none ↦ false | some _ ↦ true ]

abbrev pub is_error_id : Scheduler → Text → Bool
is_error_id s id = elim (lookup id s.tasks) [ none ↦ false | some t ↦ is_error t.status ]

abbrev pub updated : Scheduler → Text → ℕ
updated s id = elim (lookup id s.tasks) [ none ↦ 0 | some t ↦ t.updated_at ]

-- sort.Slice by a number; the theorems do not depend on the order of equal ones.
unfoldable pub insert_by : (Text → ℕ) → Text → List Text → List Text
insert_by key x [] = x ∷ []
insert_by key x (y ∷ ys) =
    let rest = insert_by key x ys in if leb (key x) (key y) then x ∷ y ∷ ys else y ∷ rest

unfoldable pub sort_by : (Text → ℕ) → List Text → List Text
unfolding insert_by
sort_by key [] = []
sort_by key (x ∷ xs) = insert_by key x (sort_by key xs)

abbrev pub has : Text → List Text → Bool
has id [] = false
has id (x ∷ xs) = x === id || has id xs

-- The oldest errors beyond the number that is kept.
unfoldable pub surplus_errors : Scheduler → List Text
surplus_errors s =
    let error_ids = keep (is_error_id s) s.order in
    if leb (length error_ids) error_task_max_n
    then []
    else take (length error_ids - error_task_max_n) (sort_by (updated s) error_ids)

unfoldable pub drop_listed : List Text → Text → Scheduler → Scheduler
drop_listed ids id s = if has id ids then drop_task id s else s

-- pruneFinishedLocked. In both loops the ids that stay in `order` are those whose task is still in
-- the table when the loop ends.
unfoldable pub prune_expired : ℕ → Scheduler → Scheduler
prune_expired now s =
    let s = for_each (prune_one now) s.order s in record s { order = keep (is_held s) s.order }

unfoldable pub prune_surplus : Scheduler → Scheduler
prune_surplus s =
    let surplus = surplus_errors s in
    let s = for_each (drop_listed surplus) s.order s in
    record s { order = keep (is_held s) s.order }

unfoldable pub prune_finished : ℕ → Scheduler → Scheduler
prune_finished now s = prune_surplus (prune_expired now s)

module _ (parse_duration : Text → Option ℕ) where
  -- isCancelErr, of an error that is not nil.
  unfoldable pub is_cancel_err : GoError → Bool
  is_cancel_err e =
      is canceled e
      || (elim (Class-discrete (class_of parse_duration (some e)) cancel) [
        | yes _ ↦ true
        | no _ ↦ false
      ]
          || (contains (error_text e) (codes "context canceled")
              || contains (error_text e) (codes "context cancelled")))

  -- The fields that End writes.
  unfoldable pub ended : Option GoError → ℕ → TaskInfo → TaskInfo
  ended none now t = record t { updated_at = now; status = done; code = no_code }
  ended (some e) now t =
      if is_cancel_err e
      then record t { updated_at = now; status = cancelled; error_msg = []; code = no_code }
      else record t {
        updated_at = now;
        status = error;
        error_msg = error_text e;
        code = error_code (some e);
      }

  -- The part of End under the lock.
  unfoldable pub end_task : Text → Option GoError → ℕ → Scheduler → Scheduler
  end_task id err now s = elim (lookup id s.tasks) [
    | none ↦ prune_finished now s
    | some t ↦
        if is_cancelled t.status
        then prune_finished now (release_active id s)
        else prune_finished now
            (release_active id (record s { tasks = put id (ended err now t) s.tasks }))
  ]
