-- ===== src/Downloader/Plan.antt =====
-- download.go: the chunks of downloadOnce. A chunk is a pair of its first and its last byte, as the
-- cache keeps it. The loop does not wrap around where
-- the size of the file and of a chunk together are below 2 to the power 63.
use mirrorhub.Base.{
  ℕ, zero, suc, ◌+◌, ◌-◌, ◌*◌, ◌≤◌, ◌<◌, ◌≡◌, Bool, false, not, ◌&&◌, ◌||◌, List, [], ◌∷◌, arith,
  ltb, leb, ◌==◌, if◌then◌else◌, ℤ, positive_or, keep, count, count-keep_split,
}

-- `if chunkSize <= 0 { chunkSize = 5 MiB }`
abbrev pub chunk_size_or : ℤ → ℕ
chunk_size_or configured = positive_or configured (5 * 1024 * 1024)

-- The loop that cuts the file, on fuel.
unfoldable pub plan_from : ℕ → ℕ → ℕ → ℕ → List (ℕ × ℕ)
plan_from zero chunk_size size start = []
plan_from (suc fuel) chunk_size size start =
    let rest = plan_from fuel chunk_size size (start + chunk_size) in
    let end = start + chunk_size - 1 in
    if ltb start size then (start, if leb size end then size - 1 else end) ∷ rest else []

-- Every round advances by a byte at least.
unfoldable pub plan : ℤ → ℕ → List (ℕ × ℕ)
plan configured size = plan_from size (chunk_size_or configured) size 0

abbrev pub same_range : ℕ × ℕ → ℕ × ℕ → Bool
same_range (a, b) (c, d) = a == c && b == d

-- `doneSet[[2]int64{ch.start, ch.end}]`
unfoldable pub is_done : List (ℕ × ℕ) → ℕ × ℕ → Bool
is_done [] r = false
is_done (d ∷ done) r = same_range d r || is_done done r

-- The chunks that are left to download.
unfoldable pub jobs : List (ℕ × ℕ) → List (ℕ × ℕ) → List (ℕ × ℕ)
jobs done chunks = keep (λ r. not (is_done done r)) chunks

-- The bytes that a resumed download reports as already there.
unfoldable pub already : List (ℕ × ℕ) → ℕ
already [] = 0
already (r ∷ done) = (r.1 + 1 - r.0) + already done

abbrev pub covers : ℕ → ℕ × ℕ → Bool
covers b (s, e) = leb s b && leb b e

abbrev pub in_range : ℕ → ℕ → ℕ → Bool
in_range start size b = leb start b && ltb b size

plan_from-covers :
    (fuel chunk_size size start b : ℕ)
    → 0 < chunk_size
    → size ≤ start + fuel
    → count (covers b) (plan_from fuel chunk_size size start)
      ≡ (if in_range start size b then 1 else 0)
unfolding plan_from count
plan_from-covers zero chunk_size size start b h enough = ground arith
plan_from-covers (suc fuel) chunk_size size start b h enough =
    ground (arith, plan_from-covers fuel chunk_size size (start + chunk_size) b)

chunk_size_pos : (configured : ℤ) → 0 < chunk_size_or configured
chunk_size_pos (ℤ.pos n) = ground arith
chunk_size_pos (ℤ.negsuc n) = omega arith

-- Whatever is marked as done, each byte of the file is covered once by the chunks that are left and
-- the planned ones that are done, taken together, and no byte behind the file by any.
pub jobs_partition :
    (configured : ℤ) (size : ℕ) (done : List (ℕ × ℕ)) (b : ℕ)
    → count (covers b) (jobs done (plan configured size))
        + count (covers b) (keep (is_done done) (plan configured size))
      ≡ (if ltb b size then 1 else 0)
unfolding jobs plan
jobs_partition configured size done b =
    let all = plan_from size (chunk_size_or configured) size 0 in
    ground (
      arith,
      count-keep_split (covers b) (is_done done) all,
      plan_from-covers size (chunk_size_or configured) size 0 b (chunk_size_pos configured),
    )
