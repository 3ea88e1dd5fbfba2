-- ===== src/Examples/Downloads.antt =====
-- Runs of the downloader: a file of ten bytes in chunks of four, a worker, and a lease.
use mirrorhub.Base.{
  ℕ, ◌+◌, ◌≤◌, ◌≡◌, refl, ap, true, false, Option, none, List, [], ◌∷◌, arith, pos, count, keep,
  for_each,
}
use mirrorhub.Base.Text.{Text, codes, text_dec, contains, to_lower, format_uint}
use mirrorhub.Base.Assoc.{put}
use mirrorhub.Cache.State.{Manager, Env}
use mirrorhub.Cache.Counters.{no_hits}
use mirrorhub.Cache.Chunks.{chunk_key, mark_chunks, get_chunks}
use mirrorhub.Errors.{
  sentinel, unexpected_eof, wrap_classified, class_of, is, is_transient_net_err, classify_error,
  classify_upstream_auth, as_fail, error_text, Class-discrete, Sentinel-discrete,
}
use mirrorhub.RateLimit.{new_platform_limiter, release_task}
use mirrorhub.Downloader.Plan.{plan, jobs, is_done, covers, jobs_partition}
use mirrorhub.Downloader.Resume.{IsApart, mark_chunks-IsKeyed, get_chunks-mark_chunks}
use mirrorhub.Downloader.Worker.{
  Read, goes_on, at_end, broken, passes, Answer, replied, Attempt, Chunk, run_chunk, gave_up,
  fetch_chunk, check_reply, read_loop, take_in,
}
use mirrorhub.Downloader.Worker.Losing.{written_chunk_fails}
use mirrorhub.Downloader.Lease.{Slots, release, mine, lease_exact}
use mirrorhub.Downloader.Lease

jobs_partition_example :
    count (covers 5) (jobs ((0, 3) ∷ []) (plan (pos 4) 10))
      + count (covers 5) (keep (is_done ((0, 3) ∷ [])) (plan (pos 4) 10))
    ≡ 1
jobs_partition_example = jobs_partition (pos 4) 10 ((0, 3) ∷ []) 5

abbrev no_duration : Text → Option ℕ
no_duration t = none

abbrev read : ℕ → Read
read n = record { n = n; gate = passes; limited = none; written = none; end = goes_on }

abbrev reply : List Read → Answer
reply reads =
    replied (record { status = 206; header = []; etag = []; length = 4; total = 10; reads = reads })

abbrev chunk : Chunk
chunk = record { prefetch = false; start = 4; end = 7; known_size = 10; identity = [] }

abbrev attempt : List Read → Attempt
attempt reads = record {
  halted = false;
  gate = none;
  conn = none;
  can_auth = false;
  answer = reply reads;
  refresh = none;
}

-- Two reads, and the end.
abbrev good : ℕ → Attempt
good k = attempt (read 3 ∷ record (read 1) { end = at_end } ∷ [])

-- All four bytes, and then an error in place of the end.
abbrev bad : ℕ → Attempt
bad k = attempt (read 4 ∷ record (read 0) { end = broken (sentinel unexpected_eof) } ∷ [])

written_chunk_fails_example :
    (run_chunk no_duration chunk none none bad).1
    ≡ gave_up (
        wrap_classified no_duration
          (wrap_classified no_duration (sentinel unexpected_eof) false)
          false)
unfolding fetch_chunk check_reply read_loop take_in class_of wrap_classified is is_transient_net_err
    classify_error classify_upstream_auth as_fail Class-discrete Sentinel-discrete text_dec contains
    to_lower error_text
written_chunk_fails_example =
    written_chunk_fails no_duration chunk bad ((4, 4) ∷ [])
      (wrap_classified no_duration (sentinel unexpected_eof) false) (omega arith) refl refl refl
      refl

-- A hash that shows the text.
abbrev keyed : Env
keyed = record {
  platform_of = λ key src kind. codes "pypi";
  safe_key = λ key. key;
  sha256_hex = λ content. content;
  sha256_base64 = λ content. content;
  sha512_base64 = λ content. content;
  weak_etag = λ size now. codes "W";
  staging_suffix = λ now. codes ".put";
  eviction_target = λ total limit. limit;
}

abbrev empty_cache : Manager
empty_cache = record {
  dir = codes "/c";
  max_size = 100;
  entries = [];
  chunks = [];
  files = [];
  hit = no_hits;
  dirty = false;
  clearing = false;
  writers = 0;
}

-- The first chunk is marked; the second follows.
abbrev marked : Manager
marked = mark_chunks keyed (codes "u") 10 ((0, 3) ∷ []) 4 empty_cache

abbrev third : Text → ℕ
third (a ∷ b ∷ c ∷ s) = c
third _ = 0

marked-IsApart : IsApart keyed (codes "u") (4, 7) marked.chunks
unfolding mark_chunks put chunk_key format_uint for_each
marked-IsApart = (λ e. absurd (omega (arith, ap third e)), tt)

get_chunks-mark_chunks_example :
    is_done
      (get_chunks (codes "u") 10 48 9 (mark_chunks keyed (codes "u") 10 ((4, 7) ∷ []) 5 marked))
      (4, 7)
    ≡ true
unfolding text_dec
get_chunks-mark_chunks_example =
    get_chunks-mark_chunks keyed (codes "u") (codes "u") 10 5 10 48 9 (4, 7) (4, 7) marked
      (mark_chunks-IsKeyed keyed (codes "u") 10 4 (0, 3) empty_cache (tt, tt)) marked-IsApart

abbrev lone : Slots
lone = record {
  lim =
      record (new_platform_limiter (codes "pypi")
        (record { max_concurrent = pos 20; max_connections = pos 80 })) { active_tasks = 3 };
  held = true;
  acquiring = false;
  trying = 0;
  taken = 0;
  others = 2;
  others_boost = 0;
}

-- Paused: one worker has given the slot back, and two ask for it again.
lease_exact_example :
    let s = Lease.ensure_start (Lease.ensure_start (release false lone)) in
    (s.trying + s.taken ≤ 1)
    × (s.lim.active_tasks ≡ 2 + 0 + mine s)
    × (mine s ≤ 1)
    × (s.acquiring ≡ false → (release false s).lim.active_tasks ≡ 2)
unfolding release new_platform_limiter release_task Lease.ensure_start
lease_exact_example = lease_exact false lone refl refl refl refl refl refl (
    Lease.Reach.next
      (Lease.Reach.next (Lease.Reach.next Lease.Reach.here (Lease.Step.releases lone))
        (Lease.Step.enters (release false lone)))
      (Lease.Step.enters (Lease.ensure_start (release false lone))))
