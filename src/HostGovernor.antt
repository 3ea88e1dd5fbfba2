-- ===== src/HostGovernor.antt =====
-- backend/internal/downloader/hostgov.go: how many chunks of a file and how many prefetched files
-- the downloader fetches from one upstream host at a time. A method is one critical section of
-- `g.mu`; `now` is what time.Now returns in it, in nanoseconds since Go's zero time. Methods on a
-- nil governor, which only switch it off, are not modelled.
pub mod Bounds
pub mod Pressure
use mirrorhub.Base.{
  ℕ, ◌+◌, ◌-◌, ◌*◌, ◌/◌, Bool, true, false, not, ◌&&◌, ◌||◌, Option, none, some, List, [], ◌∷◌,
  ◌++◌, ltb, leb, ◌==◌, if◌then◌else◌, length, keep, max, ℤ, positive_or,
}
use mirrorhub.Base.Text.{Text, codes, is_empty}
use mirrorhub.Base.Assoc.{Assoc, lookup, put}

abbrev pub gov_climb_interval : ℕ
gov_climb_interval = 30 * 1000000000

abbrev pub gov_climb_success : ℕ
gov_climb_success = 8

abbrev pub gov_file_climb_interval : ℕ
gov_file_climb_interval = 45 * 1000000000

abbrev pub gov_file_climb_success : ℕ
gov_file_climb_success = 12

abbrev pub gov_file_initial : ℕ
gov_file_initial = 2

abbrev pub gov_file_ceiling : ℕ
gov_file_ceiling = 4

abbrev pub gov_pressure_window : ℕ
gov_pressure_window = 60 * 1000000000

abbrev pub gov_stall_window : ℕ
gov_stall_window = 30 * 1000000000

abbrev pub gov_stall_dense : ℕ
gov_stall_dense = 2

pub record HostState : Type 0 where
  pub effective : ℕ
  pub ceiling : ℕ
  pub success_streak : ℕ
  pub last_climb : ℕ
  pub file_effective : ℕ
  pub file_ceiling : ℕ
  pub file_success_streak : ℕ
  pub last_file_climb : ℕ
  pub last_pressure : ℕ
  pub stall_times : List ℕ
  pub inflight_prefetch : ℕ

abbrev pub HostGovernor : Type 0
HostGovernor = Assoc HostState

abbrev pub new_state : ℕ → HostState
new_state now = record {
  effective = 1;
  ceiling = 0;
  success_streak = 0;
  last_climb = now;
  file_effective = gov_file_initial;
  file_ceiling = gov_file_ceiling;
  file_success_streak = 0;
  last_file_climb = now;
  last_pressure = 0;
  stall_times = [];
  inflight_prefetch = 0;
}

abbrev pub host_name : Text → Text
host_name host = if is_empty host then codes "_" else host

-- The state of a host, made where there is none.
unfoldable pub state : Text → ℕ → HostGovernor → HostState
state host now g = elim (lookup (host_name host) g) [ none ↦ new_state now | some st ↦ st ]

-- normalizeFileSlots
unfoldable pub normalize_file_slots : HostState → HostState
normalize_file_slots st =
    let ceiling = if ltb st.file_ceiling 1 then gov_file_ceiling else st.file_ceiling in
    let slots = if ltb st.file_effective 1 then 1 else st.file_effective in
    record st {
      file_ceiling = ceiling;
      file_effective = if ltb ceiling slots then ceiling else slots;
    }

-- Limit, on the host's state: the new state has the answer in `effective`.
unfoldable pub limit : ℤ → HostState → HostState
limit ceiling st =
    let ceiling = positive_or ceiling 8 in
    let e = if ltb st.effective 1 then 1 else st.effective in
    record st { ceiling = ceiling; effective = if ltb ceiling e then ceiling else e }

unfoldable pub under_pressure : ℕ → HostState → Bool
under_pressure now st =
    not (st.last_pressure == 0) && ltb (now - st.last_pressure) gov_pressure_window

climb : ℕ → HostState → HostState
climb now st =
    let streak = st.success_streak + 1 in
    if (leb gov_climb_interval (now - st.last_climb) || leb gov_climb_success streak)
      && ltb st.effective st.ceiling
    then record st { effective = st.effective + 1; success_streak = 0; last_climb = now }
    else record st { success_streak = streak }

climb_files : ℕ → HostState → HostState
climb_files now st =
    let streak = st.file_success_streak + 1 in
    if (leb gov_file_climb_interval (now - st.last_file_climb) || leb gov_file_climb_success streak)
      && ltb st.file_effective st.file_ceiling
    then record st {
      file_effective = st.file_effective + 1;
      file_success_streak = 0;
      last_file_climb = now;
    }
    else record st { file_success_streak = streak }

-- ObserveSuccess
unfoldable pub observe_success : ℕ → HostState → HostState
unfolding climb climb_files normalize_file_slots under_pressure
observe_success now st =
    let st =
      normalize_file_slots (record st { ceiling = if st.ceiling == 0 then 8 else st.ceiling }) in
    if under_pressure now st
    then record st { success_streak = 0; file_success_streak = 0 }
    else climb_files now (climb now st)

back_off : ℕ → HostState → HostState
back_off now st = record st {
  effective = max 1 (st.effective / 2);
  file_effective = max 1 (st.file_effective / 2);
  success_streak = 0;
  file_success_streak = 0;
  last_pressure = now;
  last_climb = now;
  last_file_climb = now;
}

-- ObserveRateLimit
unfoldable pub observe_rate_limit : ℕ → HostState → HostState
unfolding back_off normalize_file_slots
observe_rate_limit now st = back_off now (normalize_file_slots st)

-- ObserveStall
unfoldable pub observe_stall : ℕ → HostState → HostState
unfolding back_off normalize_file_slots
observe_stall now st =
    let st = normalize_file_slots st in
    let stalls = keep (λ t. leb (now - t) gov_stall_window) st.stall_times ++ now ∷ [] in
    if leb gov_stall_dense (length stalls)
    then record (back_off now st) { stall_times = [] }
    else record st { stall_times = stalls }

-- TryBeginPrefetch
unfoldable pub try_begin_prefetch : HostState → HostState × Bool
unfolding normalize_file_slots
try_begin_prefetch st =
    let st = normalize_file_slots st in
    if leb st.file_effective st.inflight_prefetch
    then (st, false)
    else (record st { inflight_prefetch = st.inflight_prefetch + 1 }, true)

-- EndPrefetch
unfoldable pub end_prefetch : HostState → HostState
end_prefetch st = record st { inflight_prefetch = st.inflight_prefetch - 1 }

-- A method's change of the state of one host.
unfoldable pub on_host : Text → ℕ → (HostState → HostState) → HostGovernor → HostGovernor
unfolding state
on_host host now f g = put (host_name host) (f (state host now g)) g
