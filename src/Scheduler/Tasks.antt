-- ===== src/Scheduler/Tasks.antt =====
-- scheduler.go: registering a task and moving it forward. Each function is one critical section.
use mirrorhub.Base.{
  ℕ, ◌+◌, ◌-◌, ◌*◌, ◌%◌, Bool, true, false, not, ◌&&◌, ◌||◌, [], ◌∷◌, ◌++◌, ltb, leb, ◌==◌,
  if◌then◌else◌, ℤ, pos_part, u64_mod,
}
use mirrorhub.Base.Text.{Text, format_uint}
use mirrorhub.Base.Assoc.{put}
use mirrorhub.Errors.{no_code}
use mirrorhub.Scheduler.State.{
  Priority, Label, Status, TaskInfo, Scheduler, interactive, resume, prefetch, p0_boosted, queued,
  preparing, waiting, running, label_of, is_active, before_running, modify, ms,
}

abbrev pub goes_first : Bool → Priority → Bool
goes_first boost interactive = true
goes_first boost resume = true
goes_first boost prefetch = boost

abbrev pub begin_label : Bool → Priority → Label
begin_label true interactive = p0_boosted
begin_label _ prio = label_of prio

abbrev pub wants_p0 : Bool → Priority → Bool
wants_p0 hold interactive = hold
wants_p0 hold _ = false

abbrev pub task_id : Text → ℕ → Text
task_id url seq = url ++ b'#' ∷ format_uint seq

abbrev pub new_task : Text → Text → Priority → Bool → Bool → ℕ → Text → TaskInfo
new_task platform url prio boost hold now id = record {
  id = id;
  platform = platform;
  url = url;
  priority = begin_label boost prio;
  boosted = boost;
  status = queued;
  created_at = now;
  queued_at = now;
  started_at = 0;
  updated_at = now;
  wait_ms = 0;
  bytes_done = 0;
  bytes_total = 0;
  error_msg = [];
  code = no_code;
  want_p0 = wants_p0 hold prio;
  counts_active = false;
  last_prog_at = 0;
}

-- Begin, with the new task's id.
unfoldable pub begin : Text → Text → Priority → Bool → Bool → ℕ → Scheduler → Scheduler × Text
begin platform url prio boost hold now s =
    let seq = (s.next_id + 1) % u64_mod in
    let id = task_id url seq in
    (
      record s {
        next_id = seq;
        tasks = put id (new_task platform url prio boost hold now id) s.tasks;
        order = if goes_first boost prio then id ∷ s.order else s.order ++ id ∷ [];
      },
      id,
    )

abbrev pub started : ℕ → TaskInfo → TaskInfo
started now t =
    if t.started_at == 0 then record t { started_at = now; wait_ms = ms (now - t.queued_at) } else t

-- The start of a task that may already have begun: MarkRunning and MarkHit.
abbrev pub started_again : ℕ → TaskInfo → TaskInfo
started_again now t =
    if t.started_at == 0
    then record t { started_at = now; wait_ms = ms (now - t.queued_at) }
    else if t.wait_ms == 0
    then record t { wait_ms = ms (now - t.queued_at) }
    else t

abbrev pub is_queued : Status → Bool
is_queued queued = true
is_queued _ = false

abbrev pub is_queued_or_preparing : Status → Bool
is_queued_or_preparing queued = true
is_queued_or_preparing preparing = true
is_queued_or_preparing _ = false

unfoldable pub mark_preparing : Text → ℕ → Scheduler → Scheduler
unfolding modify
mark_preparing id now = modify id λ t.
    if is_queued t.status
    then record (started now t) { status = preparing; updated_at = now }
    else t

unfoldable pub mark_hit : Text → ℕ → Scheduler → Scheduler
unfolding modify
mark_hit id now = modify id λ t.
    if before_running t.status
    then record (started_again now t) { status = running; updated_at = now }
    else t

unfoldable pub mark_waiting : Text → ℕ → Scheduler → Scheduler
unfolding modify
mark_waiting id now = modify id λ t.
    if is_queued_or_preparing t.status
    then record (started now t) { status = waiting; updated_at = now }
    else t

-- Whether UpdateProgress may drop a report.
abbrev pub is_throttled : ℕ → ℕ → ℕ → TaskInfo → Bool
is_throttled got total now t =
    let force =
      not (total == t.bytes_total) || ((leb total got && ltb 0 total) || ltb got t.bytes_done) in
    not force
    && (not (t.last_prog_at == 0)
        && (ltb (now - t.last_prog_at) (200 * 1000000)
            && (leb t.bytes_done got && ltb (got - t.bytes_done) (256 * 1024))))

unfoldable pub update_progress : Text → ℤ → ℤ → ℕ → Scheduler → Scheduler
unfolding modify
update_progress id got total now =
    let got = pos_part got in
    let total = pos_part total in
    modify id λ t.
      if is_active t.status && not (is_throttled got total now t)
      then record t { bytes_done = got; bytes_total = total; updated_at = now; last_prog_at = now }
      else t
