-- ===== src/Traffic.antt =====
-- backend/internal/traffic/traffic.go: the bytes fetched and served, and the latest requests.
-- A method is one critical section; `now` is the time in nanoseconds since Go's zero time. What
-- the store answers and receives is an argument or a result, and rates are left as a number of
-- bytes and the time that they took, before the division in floating point.
pub mod Recent
pub mod Pages
use mirrorhub.Base.{
  ℕ, zero, suc, ◌+◌, ◌-◌, ◌*◌, ◌/◌, ◌%◌, Bool, true, false, ◌&&◌, ◌||◌, not, Option, none, some,
  List, [], ◌∷◌, ◌++◌, ltb, leb, ◌==◌, if◌then◌else◌, length, take, drop, keep, for_each, last_of,
  ℤ, pos, negsuc, u64_mod, reverse,
}
use mirrorhub.Base.Text.{Text, codes, is_empty, trim_space, to_lower, ◌===◌}
use mirrorhub.Base.Split.{split_byte, equal_fold, text_leb}
use mirrorhub.Base.Assoc.{Assoc, lookup, put}

abbrev pub max_access : ℕ
max_access = 200

abbrev pub max_samples : ℕ
max_samples = 30

abbrev pub rate_window : ℕ
rate_window = 5 * 1000000000

pub record Access : Type 0 where
  pub at : ℕ
  pub ip : Text
  pub method : Text
  pub path : Text
  pub platform : Text
  pub bytes : ℤ
  pub cache : Text
  pub status : Text

pub record Sample : Type 0 where
  pub at : ℕ
  pub down : ℕ
  pub up : ℕ

pub record Persisted : Type 0 where
  pub download_total : ℕ
  pub upload_total : ℕ
  pub recent : List Access

-- Both totals are uint64 counters.
pub record Recorder : Type 0 where
  pub down : ℕ
  pub up : ℕ
  pub samples : List Sample
  pub recent : List Access
  pub dirty : Bool

-- load, of what the store holds, if it holds anything.
unfoldable pub load : Option Persisted → Recorder → Recorder
load none r = r
load (some p) r = record r {
  down = p.download_total;
  up = p.upload_total;
  recent = if ltb 0 (length p.recent) then last_of max_access p.recent else r.recent;
}

unfoldable pub new : Option Persisted → Recorder
unfolding load
new stored = load stored (record { down = 0; up = 0; samples = []; recent = []; dirty = false })

-- save, with what it writes to the store. The totals are read after the lock is released; here
-- nothing comes between.
unfoldable pub save : Recorder → Recorder × Option Persisted
save r =
    if r.dirty
    then (
      record r { dirty = false },
      some (record { download_total = r.down; upload_total = r.up; recent = r.recent }),
    )
    else (r, none)

-- The case of the sampling tick in loop.
unfoldable pub take_sample : ℕ → Recorder → Recorder
take_sample now r =
    let s : Sample = record { at = now; down = r.down; up = r.up } in
    record r { samples = last_of max_samples (r.samples ++ s ∷ []) }

abbrev pub add_bytes : ℤ → ℕ → ℕ
add_bytes (pos n) total = (total + n) % u64_mod
add_bytes (negsuc n) total = total

abbrev pub is_positive : ℤ → Bool
is_positive (pos n) = ltb 0 n
is_positive (negsuc n) = false

unfoldable pub add_download : ℤ → Recorder → Recorder
add_download n r = if is_positive n then record r { down = add_bytes n r.down; dirty = true } else r

unfoldable pub add_upload : ℤ → Recorder → Recorder
add_upload n r = if is_positive n then record r { up = add_bytes n r.up; dirty = true } else r

abbrev pub stamped : ℕ → Access → Access
stamped now a = if a.at == 0 then record a { at = now } else a

-- Record
unfoldable pub record_access : ℕ → Access → Recorder → Recorder
record_access now a r = record r {
  recent = last_of max_access (r.recent ++ stamped now a ∷ []);
  dirty = true;
}

-- `!s.at.Before(now.Add(-rateWindow))`, with the window added on the other side.
abbrev pub in_window : ℕ → Sample → Bool
in_window now s = leb now (s.at + rate_window)

abbrev pub first_recent : ℕ → Sample → List Sample → Sample
first_recent now base [] = base
first_recent now base (s ∷ ss) =
    let rest = first_recent now base ss in if in_window now s then s else rest

-- The bytes down and up since the sample that ratesLocked compares with, and the time since then;
-- none where it reports no rate.
pub record Rates : Type 0 where
  pub down_bytes : ℕ
  pub up_bytes : ℕ
  pub elapsed : ℕ

abbrev since : ℕ → ℕ → ℕ
since later earlier = (later + u64_mod - earlier) % u64_mod

unfoldable pub rates : ℕ → Recorder → Option Rates
rates now r = elim r.samples [
  | [] ↦ none
  | s ∷ ss ↦
      let base = first_recent now s (s ∷ ss) in
      if ltb 200000000 (now - base.at)
      then some (record {
        down_bytes = since r.down base.down;
        up_bytes = since r.up base.up;
        elapsed = now - base.at;
      })
      else none
]

-- Snapshot: the rates, both totals, and the recent requests from the latest on.
unfoldable pub snapshot : ℕ → Recorder → Option Rates × ℕ × ℕ × List Access
snapshot now r = (rates now r, r.down, r.up, reverse r.recent)

abbrev pub at_least_one : ℤ → ℕ → ℕ
at_least_one (pos n) d = if ltb n 1 then d else n
at_least_one (negsuc n) d = d

abbrev pub shows : Text → Access → Bool
shows platform a = is_empty platform || equal_fold (trim_space a.platform) platform

-- The requests that ListAccess counts, from the latest on.
unfoldable pub matched : Text → Recorder → List Access
matched platform r = keep (shows (trim_space platform)) (reverse r.recent)

-- `matched[start:end]`, or nothing where `start` is past the end.
unfoldable pub page_from : ℕ → ℕ → List Access → List Access
page_from start size all =
    let total = length all in
    if leb total start
    then []
    else let end = if ltb total (start + size) then total else start + size in
      take (end - start) (drop start all)

-- ListAccess
unfoldable pub list_access : ℤ → ℤ → Text → Recorder → List Access × ℕ
list_access page page_size platform r =
    let size = at_least_one page_size 20 in
    let all = matched platform r in
    (page_from ((at_least_one page 1 - 1) * size) size all, length all)

abbrev pub platform_key : Access → Text
platform_key a = let p = trim_space a.platform in if is_empty p then codes "other" else p

abbrev pub bump : Text → Assoc ℕ → Assoc ℕ
bump k m = put k (suc (elim (lookup k m) [ none ↦ 0 | some n ↦ n ])) m

abbrev pub cache_is : Text → Access → Bool
cache_is word a = to_lower (trim_space a.cache) === word

abbrev note_access : Access → Assoc ℕ × Assoc ℕ → Assoc ℕ × Assoc ℕ
note_access a (hits, misses) =
    if cache_is (codes "hit") a
    then (bump (platform_key a) hits, misses)
    else if cache_is (codes "miss") a
    then (hits, bump (platform_key a) misses)
    else (hits, misses)

-- HitMissByPlatform; an empty map stands for nil too.
unfoldable pub hit_miss_by_platform : Recorder → Assoc ℕ × Assoc ℕ
hit_miss_by_platform r = for_each note_access r.recent ([], [])

-- A sorted list without repeats stands for the set whose elements AccessPlatforms sorts.
abbrev insert_text : Text → List Text → List Text
insert_text t [] = t ∷ []
insert_text t (u ∷ us) =
    let rest = insert_text t us in
    if t === u then u ∷ us else if text_leb t u then t ∷ u ∷ us else u ∷ rest

abbrev note_platform : Access → List Text → List Text
note_platform a seen =
    let p = trim_space a.platform in if is_empty p then seen else insert_text p seen

unfoldable pub access_platforms : Recorder → List Text
access_platforms r = for_each note_platform r.recent []

-- ClientIP. `header` is http.Header.Get of the request, and `split_host` is net.SplitHostPort.
module _ (header : Text → Text) (split_host : Text → Option Text) where
  abbrev first_part : List Text → Text
  first_part [] = []
  first_part (p ∷ _) = trim_space p

  unfoldable pub client_ip : Text → Text
  client_ip remote =
      let forwarded = first_part (split_byte b',' (header (codes "X-Forwarded-For"))) in
      let real = trim_space (header (codes "X-Real-IP")) in
      if not (is_empty forwarded)
      then forwarded
      else if not (is_empty real)
      then real
      else elim (split_host remote) [ none ↦ remote | some host ↦ host ]

-- CountWriter.Write, of which `n` bytes were written: the writer's count and the recorder.
unfoldable pub count_write : ℤ → ℕ → Recorder → ℕ × Recorder
unfolding add_upload
count_write n written r =
    if is_positive n
    then ((elim n [ pos m ↦ written + m | negsuc _ ↦ written ]), add_upload n r)
    else (written, r)
