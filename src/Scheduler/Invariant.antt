-- ===== src/Scheduler/Invariant.antt =====
-- What holds of the scheduler between two critical sections, and the steps that every operation
-- is made of.
pub mod Tasks
pub mod Running
pub mod Endings
pub mod Cancels
use mirrorhub.Base.{
  ℕ, ◌+◌, ◌-◌, ◌≤◌, ◌≡◌, refl, ◌∙◌, Bool, true, false, ◌&&◌, Option, none, some, List, [], ◌∷◌,
  arith, if◌then◌else◌, ltb, inl, inr, Option-cases, Bool-cases,
}
use mirrorhub.Base.Text.{Text, text_dec, ◌===◌, seq_of}
use mirrorhub.Base.Assoc.{
  Assoc, lookup, put, without, tally, Distinct, lookup-put, lookup-without, put-Distinct,
  without-Distinct, tally-put, tally-without, without_absent,
}
use mirrorhub.RateLimit.{Registry}
use mirrorhub.Scheduler.State.{TaskInfo, Scheduler, Status, running}
use mirrorhub.Scheduler.Active.{count_of, less_one, release_active}
use mirrorhub.Scheduler.Ending.{has, drop_task}

abbrev pub counts : TaskInfo → ℕ
counts t = if t.counts_active then 1 else 0

abbrev pub counts_on : Text → TaskInfo → ℕ
counts_on p t = if t.counts_active && t.platform === p then 1 else 0

-- The counters of interactive downloads are exact, the table is a map whose keys are the tasks'
-- ids and are all listed in `order`, and no id is ahead of the id counter.
pub record IsCounted (s : Scheduler) : Type 0 where
  pub distinct : Distinct s.tasks
  pub total : s.p0_active ≡ tally counts s.tasks
  pub by_platform : (p : Text) → count_of p s.p0_by_platform ≡ tally (counts_on p) s.tasks
  pub ids : (k : Text) (t : TaskInfo) → lookup k s.tasks ≡ some t → t.id ≡ k
  pub fresh : (k : Text) (t : TaskInfo) → lookup k s.tasks ≡ some t → seq_of k ≤ s.next_id
  pub listed : (k : Text) (t : TaskInfo) → lookup k s.tasks ≡ some t → has k s.order ≡ true

-- Only running tasks count as interactive downloads.
abbrev pub OnlyRunning : Scheduler → Type 0
OnlyRunning s =
    (k : Text) (t : TaskInfo)
    → lookup k s.tasks ≡ some t
    → t.counts_active ≡ true
    → t.status ≡ running

pub record Inv (s : Scheduler) : Type 0 where
  pub counted : IsCounted s
  pub only_running : OnlyRunning s

-- The same task to the counters.
abbrev pub SameCount : TaskInfo → TaskInfo → Type 0
SameCount t u = (u.id ≡ t.id) × (u.platform ≡ t.platform) × (u.counts_active ≡ t.counts_active)

module _ (s : Scheduler) (k : Text) (t u : TaskInfo) (h : IsCounted s)
    (e : lookup k s.tasks ≡ some t) where
  pub put-IsCounted : SameCount t u → IsCounted (record s { tasks = put k u s.tasks })
  put-IsCounted same = record {
    distinct = put-Distinct k u s.tasks h.distinct;
    total = ground (arith, h.total, tally-put counts k t u s.tasks e);
    by_platform = λ p. ground (arith, h.by_platform p, tally-put (counts_on p) k t u s.tasks e);
    ids = λ j v f. ground (arith, h.ids j v, h.ids k t e, lookup-put k j u s.tasks);
    fresh = λ j v f. ground (arith, h.fresh j v, h.fresh k t e, lookup-put k j u s.tasks);
    listed = λ j v f. ground (arith, h.listed j v, h.listed k t e, lookup-put k j u s.tasks);
  }

count_of-less_one :
    (plat p : Text) (m : Assoc ℕ)
    → count_of p (less_one plat m) ≡ (if plat === p then count_of p m - 1 else count_of p m)
count_of-less_one plat p m =
    ground (arith, lookup-put plat p (count_of plat m - 1) m, lookup-without plat p m)

module _ (s : Scheduler) (k : Text) (t : TaskInfo) (h : IsCounted s)
    (e : lookup k s.tasks ≡ some t) where
  abbrev u : TaskInfo
  u = record t { counts_active = false }

  -- Taking a counting task out of the counters, in the table and in both counts at once.
  released-IsCounted :
      t.counts_active ≡ true
      → IsCounted (record s {
        tasks = put k u s.tasks;
        p0_by_platform = less_one t.platform s.p0_by_platform;
        p0_active = s.p0_active - 1;
      })
  released-IsCounted c = record {
    distinct = put-Distinct k u s.tasks h.distinct;
    total = ground (arith, h.total, tally-put counts k t u s.tasks e);
    by_platform = λ p. ground (
      arith,
      h.by_platform p,
      tally-put (counts_on p) k t u s.tasks e,
      count_of-less_one t.platform p s.p0_by_platform,
    );
    ids = λ j v f. ground (arith, h.ids j v, h.ids k t e, lookup-put k j u s.tasks);
    fresh = λ j v f. ground (arith, h.fresh j v, h.fresh k t e, lookup-put k j u s.tasks);
    listed = λ j v f. ground (arith, h.listed j v, h.listed k t e, lookup-put k j u s.tasks);
  }

  without-IsCounted : t.counts_active ≡ false → IsCounted (record s { tasks = without k s.tasks })
  without-IsCounted c = record {
    distinct = without-Distinct k s.tasks h.distinct;
    total = ground (arith, h.total, tally-without counts k t s.tasks h.distinct e);
    by_platform =
        λ p. ground (arith, h.by_platform p, tally-without (counts_on p) k t s.tasks h.distinct e);
    ids = λ j v f. ground (arith, h.ids j v, lookup-without k j s.tasks);
    fresh = λ j v f. ground (arith, h.fresh j v, lookup-without k j s.tasks);
    listed = λ j v f. ground (arith, h.listed j v, lookup-without k j s.tasks);
  }

pub release-IsCounted : (k : Text) (s : Scheduler) → IsCounted s → IsCounted (release_active k s)
unfolding release_active
release-IsCounted k s h = elim (Option-cases (lookup k s.tasks)) [
  | inl e ↦ rw (e, release_active) h
  | inr (t, e) ↦ elim (Bool-cases t.counts_active) [
    | inl c ↦ rw (e, release_active) (rw c (released-IsCounted s k t h e c))
    | inr c ↦ rw (e, release_active) (rw c h)
  ]
]

abbrev pub uncounted : Option TaskInfo → Option TaskInfo
uncounted none = none
uncounted (some t) = some (record t { counts_active = false })

-- After the release the task at `k` does not count, and no other task has changed.
pub lookup-release :
    (k j : Text) (s : Scheduler)
    → lookup j (release_active k s).tasks
      ≡ (if k === j then uncounted (lookup k s.tasks) else lookup j s.tasks)
unfolding release_active
lookup-release k j s = elim (Option-cases (lookup k s.tasks)) [
  | inl e ↦ rw (e, release_active) (ground arith)
  | inr (t, e) ↦
      rw (e, release_active)
        (ground (arith, lookup-put k j (record t { counts_active = false }) s.tasks))
]

pub lookup-drop :
    (k j : Text) (s : Scheduler)
    → lookup j (drop_task k s).tasks ≡ (if k === j then none else lookup j s.tasks)
unfolding drop_task
lookup-drop k j s =
    ground (arith, lookup-without k j (release_active k s).tasks, lookup-release k j s)

pub drop-IsCounted : (k : Text) (s : Scheduler) → IsCounted s → IsCounted (drop_task k s)
unfolding drop_task release_active
drop-IsCounted k s h = elim (Option-cases (lookup k s.tasks)) [
  | inl e ↦ rw (e, release_active) (rw (without_absent k s.tasks e) h)
  | inr (t, e) ↦
      without-IsCounted (release_active k s) k (record t { counts_active = false })
        (release-IsCounted k s h) (lookup-release k k s ∙ ground (arith, e)) refl
]

pub drop-Inv : (k : Text) (s : Scheduler) → Inv s → Inv (drop_task k s)
drop-Inv k s h = record {
  counted = drop-IsCounted k s h.counted;
  only_running = λ j v f c. h.only_running j v (ground (arith, lookup-drop k j s)) c;
}

pub release-Inv : (k : Text) (s : Scheduler) → Inv s → Inv (release_active k s)
release-Inv k s h = record {
  counted = release-IsCounted k s h.counted;
  only_running = λ j v f c. h.only_running j v (ground (arith, lookup-release k j s)) c;
}

module _ (s : Scheduler) (k : Text) (t u : TaskInfo) (h : Inv s)
    (e : lookup k s.tasks ≡ some t) where
  -- A task is written back, and keeps its part in the counters.
  pub put-Inv :
      SameCount t u
      → (u.counts_active ≡ true → u.status ≡ running)
      → Inv (record s { tasks = put k u s.tasks })
  put-Inv same run = record {
    counted = put-IsCounted s k t u h.counted e same;
    only_running = λ j v f c. ground (arith, h.only_running j v, lookup-put k j u s.tasks);
  }

  -- A task is written back in any state, and released at once.
  pub settle-Inv : SameCount t u → Inv (release_active k (record s { tasks = put k u s.tasks }))
  settle-Inv same =
      let s' : Scheduler = record s { tasks = put k u s.tasks } in
      record {
        counted = release-IsCounted k s' (put-IsCounted s k t u h.counted e same);
        only_running = λ j v f c. ground (
          arith,
          h.only_running j v,
          lookup-put k j u s.tasks,
          lookup-put k k u s.tasks,
          lookup-release k j s',
        );
      }

-- What the invariant does not read may change.
pub rest-Inv :
    (s : Scheduler) (l : Registry) (r : Option ℕ) (c : Assoc ℕ) (f : List ℕ)
    → Inv s
    → Inv (record s { limiters = l; resume_timer = r; cancels = c; fired = f })
rest-Inv s l r c f h = record {
  counted = record {
    distinct = h.counted.distinct;
    total = h.counted.total;
    by_platform = h.counted.by_platform;
    ids = h.counted.ids;
    fresh = h.counted.fresh;
    listed = h.counted.listed;
  };
  only_running = h.only_running;
}
