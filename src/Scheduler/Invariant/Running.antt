-- ===== src/Scheduler/Invariant/Running.antt =====
-- Starting an interactive download, pausing prefetch for it and resuming it keep the invariant.
use mirrorhub.Base.{
  ℕ, ◌+◌, ◌≡◌, refl, sym, ◌∙◌, Bool, true, false, ◌&&◌, not, none, some, arith, if◌then◌else◌, inl,
  inr, Option-cases, Bool-cases,
}
use mirrorhub.Base.Text.{Text}
use mirrorhub.Base.Assoc.{
  lookup, put, map_values, lookup-put, put-Distinct, lookup-map_values, map_values-Distinct,
  tally-put, tally-map_values,
}
use mirrorhub.Scheduler.State.{TaskInfo, Scheduler, PrefetchConfig, running}
use mirrorhub.Scheduler.Active.{
  count_of, inc_p0, pause_prefetch, promote, mark_running, mark_running_peek, runs, pauses,
  resume_prefetch_if_idle, apply_prefetch_resume,
}
use mirrorhub.Scheduler.Invariant.{counts, counts_on, Inv, SameCount, put-Inv, rest-Inv}

pub if-Inv : (b : Bool) {s u : Scheduler} → Inv s → Inv u → Inv (if b then s else u)
if-Inv true h g = h
if-Inv false h g = g

if_cases-Inv : (b : Bool) {s u : Scheduler} → (b ≡ true → Inv s) → Inv u → Inv (if b then s else u)
if_cases-Inv true h g = h refl
if_cases-Inv false h g = g

counts-promote : (now : ℕ) (t : TaskInfo) → counts (promote now t) ≡ counts t
counts-promote now t = ground arith

counts_on-promote :
    (now : ℕ) (p : Text) (t : TaskInfo) → counts_on p (promote now t) ≡ counts_on p t
counts_on-promote now p t = ground arith

module _ (cfg : PrefetchConfig) (now : ℕ) (s : Scheduler) (h : Inv s) where
  promoted :
      (k : Text) (t : TaskInfo)
      → lookup k (map_values (promote now) s.tasks) ≡ some t
      → (u : TaskInfo) × (lookup k s.tasks ≡ some u) × (t ≡ promote now u)
  promoted k t e = ground (arith, lookup-map_values (promote now) k s.tasks)

  pub pause_prefetch-Inv : Inv (pause_prefetch cfg now s)
  unfolding pause_prefetch
  pause_prefetch-Inv = elim (Bool-cases (pauses cfg)) [
    | inr no_pause ↦ rw (no_pause, pause_prefetch) h
    | inl pause ↦
        rw (pause, pause_prefetch)
          (record {
            counted = record {
              distinct = map_values-Distinct (promote now) s.tasks h.counted.distinct;
              total =
                  h.counted.total
                  ∙ sym (tally-map_values counts (promote now) (counts-promote now) s.tasks);
              by_platform = λ p.
                  h.counted.by_platform p
                  ∙ sym (
                      tally-map_values (counts_on p) (promote now) (counts_on-promote now p)
                        s.tasks);
              ids = λ k t e. let (u, f, g) = promoted k t e in ground (arith, h.counted.ids k u f);
              fresh = λ k t e. let (u, f, g) = promoted k t e in h.counted.fresh k u f;
              listed = λ k t e. let (u, f, g) = promoted k t e in h.counted.listed k u f;
            };
            only_running =
                λ k t e c. let (u, f, g) = promoted k t e in ground (arith, h.only_running k u f);
          })
  ]

module _ (s : Scheduler) (k : Text) (t u : TaskInfo) (h : Inv s) (e : lookup k s.tasks ≡ some t)
    (same_id : u.id ≡ t.id) (same_platform : u.platform ≡ t.platform)
    (out : t.counts_active ≡ false) (in_now : u.counts_active ≡ true)
    (runs_now : u.status ≡ running) where
  -- A running task enters the counters, in the table and in both counts at once.
  entered-Inv : Inv (inc_p0 t.platform (record s { tasks = put k u s.tasks }))
  unfolding inc_p0
  entered-Inv = record {
    counted = record {
      distinct = put-Distinct k u s.tasks h.counted.distinct;
      total = ground (arith, h.counted.total, tally-put counts k t u s.tasks e);
      by_platform = λ p. ground (
        arith,
        h.counted.by_platform p,
        h.counted.by_platform t.platform,
        tally-put (counts_on p) k t u s.tasks e,
        lookup-put t.platform p (count_of t.platform s.p0_by_platform + 1) s.p0_by_platform,
      );
      ids =
          λ j v f. ground (arith, h.counted.ids j v, h.counted.ids k t e, lookup-put k j u s.tasks);
      fresh = λ j v f.
          ground (arith, h.counted.fresh j v, h.counted.fresh k t e, lookup-put k j u s.tasks);
      listed = λ j v f.
          ground (arith, h.counted.listed j v, h.counted.listed k t e, lookup-put k j u s.tasks);
    };
    only_running = λ j v f c. ground (arith, h.only_running j v, lookup-put k j u s.tasks);
  }

runs-same : (now : ℕ) (t : TaskInfo) → SameCount t (runs now t)
runs-same now t = ground arith

module _ (cfg : PrefetchConfig) (k : Text) (now : ℕ) (s : Scheduler) (h : Inv s) (t : TaskInfo)
    (e : lookup k s.tasks ≡ some t) where
  just_runs-Inv : Inv (record s { tasks = put k (runs now t) s.tasks })
  just_runs-Inv = put-Inv s k t (runs now t) h e (runs-same now t) (λ c. refl)

  enters-Inv :
      t.counts_active ≡ false
      → Inv (
          pause_prefetch cfg now (
            inc_p0 t.platform
              (record s { tasks = put k (record (runs now t) { counts_active = true }) s.tasks })))
  enters-Inv out = pause_prefetch-Inv cfg now _ (
      entered-Inv s k t (record (runs now t) { counts_active = true }) h e (ground arith)
        (ground arith) out refl refl)

  found-Inv : Inv (mark_running cfg k now s)
  unfolding mark_running
  found-Inv =
      rw (e, mark_running)
        (if-Inv _
          (if_cases-Inv (t.want_p0 && not t.counts_active) (λ c. enters-Inv (ground arith))
            just_runs-Inv)
          h)

pub mark_running-Inv :
    (cfg : PrefetchConfig) (k : Text) (now : ℕ) (s : Scheduler)
    → Inv s
    → Inv (mark_running cfg k now s)
unfolding mark_running
mark_running-Inv cfg k now s h = elim (Option-cases (lookup k s.tasks)) [
  | inl e ↦ rw (e, mark_running) h
  | inr (t, e) ↦ found-Inv cfg k now s h t e
]

pub mark_running_peek-Inv :
    (cfg : PrefetchConfig) (k : Text) (s : Scheduler) → Inv s → Inv (mark_running_peek cfg k s)
unfolding mark_running_peek
mark_running_peek-Inv cfg k s h = elim (Option-cases (lookup k s.tasks)) [
  | inl e ↦ rw (e, mark_running_peek) h
  | inr (t, e) ↦ rw (e, mark_running_peek) (if-Inv _ (rest-Inv s _ none _ _ h) h)
]

pub resume_prefetch_if_idle-Inv :
    (cfg : PrefetchConfig) (now : ℕ) (s : Scheduler)
    → Inv s
    → Inv (resume_prefetch_if_idle cfg now s)
unfolding resume_prefetch_if_idle
resume_prefetch_if_idle-Inv cfg now s h = if-Inv _ (rest-Inv s _ _ _ _ h) h

pub apply_prefetch_resume-Inv :
    (cfg : PrefetchConfig) (s : Scheduler) → Inv s → Inv (apply_prefetch_resume cfg s)
unfolding apply_prefetch_resume
apply_prefetch_resume-Inv cfg s h = if-Inv _ (rest-Inv s _ _ _ _ h) h
