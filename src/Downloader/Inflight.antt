-- ===== src/Downloader/Inflight.antt =====
-- backend/internal/downloader/downloader.go and serve.go: requests for one cache key share a
-- download. The map `inflight` holds the number of the download for a key; LoadOrStore, a call of
-- cancel, Delete and close are one section each. What a download results in, and what the cache
-- answers, are arguments.
pub mod Single
pub mod Following
use mirrorhub.Base.{
  ℕ, zero, suc, ◌+◌, ◌≡◌, Bool, true, false, not, ◌&&◌, ◌==◌, if◌then◌else◌, ◌⊎◌, inl, inr, Option,
  none, some, List, [], ◌∷◌,
}
use mirrorhub.Base.Text.{Text, codes, is_empty, trim_space}
use mirrorhub.Base.Assoc.{Assoc, lookup, put, without}
use mirrorhub.Cache.State.{Entry}
use mirrorhub.Errors.{GoError, other, sentinel, cancelled}

-- inflightMode
pub data Mode : Type 0 where
  fetch stream : Mode

-- What a download leaves for those that wait.
pub record Result : Type 0 where
  pub err : Option GoError
  pub entry : Option Entry

-- A download runs; then its result is written, then the key is deleted, then `done` is closed.
pub data WaitPhase : Type 0 where
  runs : WaitPhase
  ended deleted closed : Result → WaitPhase

-- inflightWait; `stopped` says whether a request has called its `cancel`.
pub record Wait : Type 0 where
  pub key : Text
  pub mode : Mode
  pub phase : WaitPhase
  pub stopped : Bool

pub record Engine : Type 0 where
  pub inflight : Assoc ℕ
  pub waits : ℕ → Option Wait
  pub next : ℕ

abbrev pub no_downloads : Engine
no_downloads = record { inflight = []; waits = λ i. none; next = 0 }

abbrev pub set_wait : ℕ → Wait → Engine → Engine
set_wait i w s = record s { waits = λ j. if j == i then some w else s.waits j }

-- What LoadOrStore says: the request leads, or waits for the download of a number.
pub data Place : Type 0 where
  leads waits_for : ℕ → Place

-- `if sw.mode == inflightModeFetch && sw.cancel != nil { sw.cancel() }`, for a request that streams.
abbrev pub stops : Mode → Mode → Bool
stops stream fetch = true
stops _ _ = false

abbrev pub join_wait : Mode → ℕ → Option Wait → Engine → Engine
join_wait mode i none s = s
join_wait mode i (some w) s =
    if stops mode w.mode then set_wait i (record w { stopped = true }) s else s

abbrev pub start_wait : Text → Mode → Engine → Engine
start_wait key mode s =
    let w : Wait = record { key = key; mode = mode; phase = runs; stopped = false } in
    record (set_wait s.next w s) { inflight = put key s.next s.inflight; next = suc s.next }

abbrev pub arrive_at : Text → Mode → Engine → Option ℕ → Engine × Place
arrive_at key mode s none = (start_wait key mode s, leads s.next)
arrive_at key mode s (some i) = (join_wait mode i (s.waits i) s, waits_for i)

-- The first section of getOrDownload behind the cache (`fetch`), and of servePackageOnce (`stream`).
unfoldable pub arrive : Text → Mode → Engine → Engine × Place
arrive key mode s = arrive_at key mode s (lookup key s.inflight)

-- The leader's end: what it writes, and the deferred calls.
unfoldable pub finish : ℕ → Wait → Result → Engine → Engine
finish i w r s = set_wait i (record w { phase = ended r }) s

unfoldable pub delete_key : ℕ → Wait → Result → Engine → Engine
delete_key i w r s = record (set_wait i (record w { phase = deleted r }) s) {
  inflight = without w.key s.inflight;
}

unfoldable pub close_done : ℕ → Wait → Result → Engine → Engine
close_done i w r s = set_wait i (record w { phase = closed r }) s

pub data Step : Engine → Engine → Type 0 where
  arrives : (s : Engine) (key : Text) (mode : Mode) → Step s (arrive key mode s).0
  finishes :
      (s : Engine) (i : ℕ) (w : Wait) (r : Result)
      → s.waits i ≡ some w
      → w.phase ≡ runs
      → Step s (finish i w r s)
  deletes :
      (s : Engine) (i : ℕ) (w : Wait) (r : Result)
      → s.waits i ≡ some w
      → w.phase ≡ ended r
      → Step s (delete_key i w r s)
  closes :
      (s : Engine) (i : ℕ) (w : Wait) (r : Result)
      → s.waits i ≡ some w
      → w.phase ≡ deleted r
      → Step s (close_done i w r s)

pub data Reach : Engine → Type 0 where
  here : Reach no_downloads
  next_step : {s t : Engine} → Reach s → Step s t → Reach t

-- The download still has its key.
abbrev pub keeps_key : WaitPhase → Bool
keeps_key runs = true
keeps_key (ended r) = true
keeps_key (deleted r) = false
keeps_key (closed r) = false
