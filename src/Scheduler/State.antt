-- ===== src/Scheduler/State.antt =====
-- scheduler.go: the task table, its constants, and the cancel functions that requests register.
-- Times are nanoseconds since Go's zero time. Prometheus gauges and log lines are not modelled,
-- and the display strings Label and Detail are left out: nothing in the scheduler reads them.
use mirrorhub.Base.{
  ℕ, ◌*◌, ◌/◌, Bool, true, false, ◌||◌, Option, none, some, List, [], ◌∷◌, if◌then◌else◌,
}
use mirrorhub.Base.Text.{Text, is_empty}
use mirrorhub.Base.Assoc.{Assoc, lookup, put, without}
use mirrorhub.Errors.{Code}
use mirrorhub.RateLimit.{Registry}

pub data Priority : Type 0 where
  interactive resume prefetch : Priority

-- What TaskInfo.Priority shows: "P0", "P0+", "P1", "P2".
pub data Label : Type 0 where
  p0 p0_boosted p1 p2 : Label

pub data Status : Type 0 where
  queued preparing waiting running done error cancelled : Status

pub record TaskInfo : Type 0 where
  pub id : Text
  pub platform : Text
  pub url : Text
  pub priority : Label
  pub boosted : Bool
  pub status : Status
  pub created_at : ℕ
  pub queued_at : ℕ
  pub started_at : ℕ
  pub updated_at : ℕ
  pub wait_ms : ℕ
  pub bytes_done : ℕ
  pub bytes_total : ℕ
  pub error_msg : Text
  pub code : Code
  pub want_p0 : Bool
  pub counts_active : Bool
  pub last_prog_at : ℕ

-- config.PrefetchConfig, as far as the scheduler reads it.
pub record PrefetchConfig : Type 0 where
  pub on_interactive : Text
  pub resume_on_idle : Bool

-- `resume_timer` is when the timer fires, none if there is no timer. `cancels` has a number for
-- each registered cancel function, and `fired` those that were called, latest first.
pub record Scheduler : Type 0 where
  pub tasks : Assoc TaskInfo
  pub order : List Text
  pub limiters : Registry
  pub p0_active : ℕ
  pub p0_by_platform : Assoc ℕ
  pub next_id : ℕ
  pub resume_timer : Option ℕ
  pub cancels : Assoc ℕ
  pub fired : List ℕ

abbrev pub ms : ℕ → ℕ
ms t = t / 1000000

abbrev pub second : ℕ
second = 1000000000

abbrev pub prefetch_resume_delay : ℕ
prefetch_resume_delay = 3 * second

abbrev pub finished_task_ttl : ℕ
finished_task_ttl = 600 * second

abbrev pub error_task_ttl : ℕ
error_task_ttl = 86400 * second

abbrev pub error_task_max_n : ℕ
error_task_max_n = 200

unfoldable pub new : Registry → Scheduler
new lim = record {
  tasks = [];
  order = [];
  limiters = lim;
  p0_active = 0;
  p0_by_platform = [];
  next_id = 0;
  resume_timer = none;
  cancels = [];
  fired = [];
}

-- Priority.String
abbrev pub label_of : Priority → Label
label_of interactive = p0
label_of resume = p1
label_of prefetch = p2

abbrev pub is_p1 : Label → Bool
is_p1 p1 = true
is_p1 _ = false

abbrev pub is_p2 : Label → Bool
is_p2 p2 = true
is_p2 _ = false

-- isPrefetchCancellable
abbrev pub is_prefetch_cancellable : Label → Bool
is_prefetch_cancellable p = is_p2 p || is_p1 p

-- isActiveCancellableStatus
abbrev pub is_active : Status → Bool
is_active running = true
is_active preparing = true
is_active queued = true
is_active waiting = true
is_active _ = false

abbrev pub is_finished : Status → Bool
is_finished done = true
is_finished cancelled = true
is_finished error = true
is_finished _ = false

abbrev pub before_running : Status → Bool
before_running queued = true
before_running preparing = true
before_running waiting = true
before_running _ = false

-- `s.tasks[id].field = …` through the pointer in the table; nothing if there is no such task.
unfoldable pub modify : Text → (TaskInfo → TaskInfo) → Scheduler → Scheduler
modify id f s = elim (lookup id s.tasks) [
  | none ↦ s
  | some t ↦ record s { tasks = put id (f t) s.tasks }
]

-- BindCancel and UnbindCancel
unfoldable pub bind_cancel : Text → ℕ → Scheduler → Scheduler
bind_cancel id f s = if is_empty id then s else record s { cancels = put id f s.cancels }

unfoldable pub unbind_cancel : Text → Scheduler → Scheduler
unbind_cancel id s = if is_empty id then s else record s { cancels = without id s.cancels }

unfoldable pub abort_bound : Text → Scheduler → Scheduler
abort_bound id s = elim (lookup id s.cancels) [
  | none ↦ s
  | some f ↦ record s { cancels = without id s.cancels; fired = f ∷ s.fired }
]
