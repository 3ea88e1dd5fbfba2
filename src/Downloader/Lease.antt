-- ===== src/Downloader/Lease.antt =====
-- backend/internal/downloader/lease.go: the task slot of a prefetching download, which its workers
-- give back while prefetch is paused. A function is one critical section of the lease or of the
-- limiter. Any number of workers of one download share the lease; `trying` of them are inside
-- acquireTaskSlot without a slot, `taken` of them with a slot that the lease does not count yet.
use mirrorhub.Base.{ℕ, ◌+◌, ◌-◌, ◌≤◌, ◌<◌, ◌≡◌, Bool, true, false, not, ◌&&◌, if◌then◌else◌, arith}
use mirrorhub.RateLimit.{PlatformLimiter, acquire_task, release_task}

-- The lease with its limiter, and the slots that other tasks hold.
pub record Slots : Type 0 where
  pub lim : PlatformLimiter
  pub held : Bool
  pub acquiring : Bool
  pub trying : ℕ
  pub taken : ℕ
  pub others : ℕ
  pub others_boost : ℕ

-- What the first section of ensureHeld decides.
pub data Entrance : Type 0 where
  returns waits acquires : Entrance

-- What prefetching waits for; `allow` is the answer of the scheduler's gate.
unfoldable pub may_run : Bool → PlatformLimiter → Bool
may_run allow p = not p.prefetch_paused && allow

module _ (boost : Bool) where
  -- release, and close
  unfoldable pub release : Slots → Slots
  release s = if s.held then record s { lim = release_task boost s.lim; held = false } else s

  -- A round of acquireTaskSlot up to AcquireTask, and the test behind it.
  unfoldable pub try_slot : Bool → Slots → Slots
  try_slot allow s =
      if may_run allow s.lim
      then (let (l, ok) = acquire_task boost false s.lim in
          if ok
          then record s { lim = l; trying = s.trying - 1; taken = s.taken + 1 }
          else record s { lim = l })
      else s

  unfoldable pub check_slot : Bool → Slots → Slots × Bool
  check_slot allow s = if may_run allow s.lim then (s, true) else (
    record s { lim = release_task boost s.lim; trying = s.trying + 1; taken = s.taken - 1 },
    false,
  )

-- ensureHeld, its first and its last section.
unfoldable pub enter : Slots → Slots × Entrance
enter s =
    if s.held
    then (s, returns)
    else if s.acquiring
    then (s, waits)
    else (record s { acquiring = true }, acquires)

-- A worker that ensureHeld lets through goes on to acquireTaskSlot; one that waits or has
-- returned is not inside it.
unfoldable pub ensure_start : Slots → Slots
unfolding enter
ensure_start s =
    let (s, e) = enter s in
    elim e [ acquires ↦ record s { trying = s.trying + 1 } | returns ↦ s | waits ↦ s ]

unfoldable pub leave : Bool → Slots → Slots
leave ok s =
    if ok
    then record s { acquiring = false; held = true; taken = s.taken - 1 }
    else record s { acquiring = false; trying = s.trying - 1 }

abbrev pub one_if : Bool → ℕ
one_if true = 1
one_if false = 0

-- One section of a worker of the download, or of another task of the platform. What else changes
-- the limiter leaves its counters of tasks alone.
pub data Step (boost : Bool) : Slots → Slots → Type 0 where
  releases : (s : Slots) → Step boost s (release boost s)
  enters : (s : Slots) → Step boost s (ensure_start s)
  tries : (s : Slots) (allow : Bool) → 0 < s.trying → Step boost s (try_slot boost allow s)
  checks : (s : Slots) (allow : Bool) → 0 < s.taken → Step boost s (check_slot boost allow s).0
  succeeds : (s : Slots) → 0 < s.taken → Step boost s (leave true s)
  fails : (s : Slots) → 0 < s.trying → Step boost s (leave false s)
  others_take :
      (s : Slots) (interactive : Bool) (l : PlatformLimiter)
      → acquire_task false interactive s.lim ≡ (l, true)
      → Step boost s (record s { lim = l; others = s.others + 1 })
  others_boost_take :
      (s : Slots) (interactive : Bool) (l : PlatformLimiter)
      → acquire_task true interactive s.lim ≡ (l, true)
      → Step boost s (record s { lim = l; others_boost = s.others_boost + 1 })
  others_give :
      (s : Slots)
      → 0 < s.others
      → Step boost s (record s { lim = release_task false s.lim; others = s.others - 1 })
  others_boost_give :
      (s : Slots)
      → 0 < s.others_boost
      → Step boost s (record s { lim = release_task true s.lim; others_boost = s.others_boost - 1 })
  changes :
      (s : Slots) (l : PlatformLimiter)
      → l.active_tasks ≡ s.lim.active_tasks
      → l.active_boost ≡ s.lim.active_boost
      → Step boost s (record s { lim = l })

pub data Reach (boost : Bool) (s : Slots) : Slots → Type 0 where
  here : Reach boost s s
  next : {t u : Slots} → Reach boost s t → Step boost t u → Reach boost s u

-- Slots that the download holds.
abbrev pub mine : Slots → ℕ
mine s = one_if s.held + s.taken

pub record IsExact (boost : Bool) (s : Slots) : Type 0 where
  pub tasks : s.lim.active_tasks ≡ s.others + s.others_boost + mine s
  pub boosts : s.lim.active_boost ≡ s.others_boost + (if boost then mine s else 0)
  pub single : s.trying + s.taken ≡ one_if s.acquiring
  pub idle : one_if s.held + one_if s.acquiring ≤ 1

module _ (boost : Bool) where
  Step-IsExact : {s t : Slots} → Step boost s t → IsExact boost s → IsExact boost t
  unfolding release ensure_start try_slot check_slot leave acquire_task release_task may_run
  Step-IsExact (releases s) h = ground arith
  Step-IsExact (enters s) h = ground arith
  Step-IsExact (tries s allow a) h = ground arith
  Step-IsExact (checks s allow a) h = ground arith
  Step-IsExact (succeeds s a) h = ground arith
  Step-IsExact (fails s a) h = ground arith
  Step-IsExact (others_take s i l e) h = ground arith
  Step-IsExact (others_boost_take s i l e) h = ground arith
  Step-IsExact (others_give s p) h = ground arith
  Step-IsExact (others_boost_give s p) h = ground arith
  Step-IsExact (changes s l a b) h = ground arith

  Reach-IsExact : {s t : Slots} → IsExact boost s → Reach boost s t → IsExact boost t
  Reach-IsExact h here = h
  Reach-IsExact h (next r st) = Step-IsExact st (Reach-IsExact h r)

-- Where a download starts with one slot that the limiter counts, and no worker acquires, then
-- however its workers, of which any number release and regain the slot while prefetch is paused
-- and resumed, and other tasks interleave: at most one worker at a time is let through to
-- acquire a slot; the limiter counts exactly the others' slots and those of the download, which
-- never has two, and none once the lease is closed while no worker acquires.
pub lease_exact :
    (boost : Bool) (start : Slots) {s : Slots}
    → start.held ≡ true
    → start.acquiring ≡ false
    → start.trying ≡ 0
    → start.taken ≡ 0
    → start.lim.active_tasks ≡ start.others + start.others_boost + 1
    → start.lim.active_boost ≡ start.others_boost + one_if boost
    → Reach boost start s
    → (s.trying + s.taken ≤ 1)
      × (s.lim.active_tasks ≡ s.others + s.others_boost + mine s)
      × (mine s ≤ 1)
      × (s.acquiring ≡ false → (release boost s).lim.active_tasks ≡ s.others + s.others_boost)
unfolding release release_task
lease_exact boost start {s} held free untried untaken tasks boosts r =
    let first : IsExact boost start = ground arith in
    let h = Reach-IsExact boost first r in (ground arith, h.tasks, ground arith, ground arith)
