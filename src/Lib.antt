-- ===== src/Lib.antt =====
-- MirrorHub, a caching proxy for package registries: the parts of its Go backend that decide who
-- may download what and when.
--
-- The parts, and the files that model them. Paths are from the repository's root.
--
-- * backend/internal/scheduler/scheduler.go, the table of download tasks: Scheduler. State holds
--   the records and constants; Tasks begins tasks and moves them until they run (Begin,
--   MarkPreparing, MarkHit, MarkWaiting, UpdateProgress); Active counts interactive downloads,
--   pauses and resumes prefetch (incP0Locked, releaseActiveLocked, pausePrefetchLocked,
--   MarkRunning, resumePrefetchIfIdle, applyPrefetchResumeIdlePlatforms, PrefetchMayRun); Ending
--   ends and prunes tasks (the locked part of End, pruneFinishedLocked); Cancelling cancels,
--   clears and purges (cancelTask, cancelMatchingLocked, clearFinishedMatchingLocked); Handlers
--   composes the whole functions of several critical sections. Invariant and its children, Quiet,
--   Steps, Pausing, Purging, Surplus and Clearing hold proofs.
-- * backend/internal/ratelimit/ratelimit.go, the limiter of each platform and their registry:
--   RateLimit. The scheduler sets the limiters' pause flag, and keeps the registry in its state.
-- * backend/internal/downloader/errors.go, with isTransientNetErr of httputil.go: Errors (Values,
--   and Status for what is read off messages, and the classification in Errors itself), the error
--   values, and the class by which the downloader and the prefetch service decide on a retry and
--   the scheduler tells a cancellation from a failure.
-- * backend/internal/downloader/hostgov.go, the limits of each upstream host: HostGovernor.
-- * backend/internal/prefetch/delayed.go, with the queue state of prefetch.go and the owner lookup
--   of backend/internal/platform/registry.go: Prefetch, the downloads that are put off, after a
--   failure or because the host governor gave no file slot.
-- * backend/internal/traffic/traffic.go, what was fetched and served: Traffic, the recorder with
--   its totals, the latest requests, the samples for rates, pages, and what the store keeps.
--   Recent and Pages hold proofs.
-- * backend/internal/cache/cache.go, with hitstats.go and platform.go beside it: Cache. State
--   holds the entries, the manager and what every method does to one entry (filePath,
--   putMetaLocked, deleteLocked, HitPlatform); Counters the hits and misses; Reading has Get,
--   Open, GetStale, OpenStale, RenewTTL and SetRepoCommit; Evicting has evictLocked, SetMaxSizeGB,
--   PurgeIncomplete and List; Writing has HoldWrite, ReleaseWrite, Put, Clear and PurgeTempFiles;
--   Chunks has the marks of downloaded chunks. Their child modules hold proofs.
-- * backend/internal/config/config.go, the settings: Config. Windows has the time windows of the
--   bandwidth limit (NormalizeHM, InHMWindow, EffectiveBandwidthMbps), Targets the platforms that
--   prefetching is for, Platforms the defaults of a platform (NormalizePlatform), and Defaults the
--   platforms that applyDefaults fills in.
-- * backend/internal/downloader/download.go, chunk.go and lease.go: Downloader. Plan cuts a file
--   into chunks and leaves out those that the cache has marked (Resume has the composition with
--   Cache.Chunks); Worker fetches one chunk (runChunk, fetchChunk) and sorts errors by
--   Errors.class_of; Lease is the task slot that a paused prefetch gives back to its limiter in
--   RateLimit.
-- * backend/internal/downloader/serve.go, with head.go and the Range headers of chunk.go and
--   serial.go: Downloader.Range. parse_single_range is parseSingleRange, serve_cached_file is
--   serveCachedFile with its headers and body; Bounds, RoundTrip and Served hold proofs.
-- * backend/internal/downloader/downloader.go, the map inflight of getOrDownload and of
--   servePackageOnce in serve.go: Downloader.Inflight, the steps of the downloads that requests
--   share. Single has proofs; Following has what a request makes of a download that it waited for
--   (getOrDownload, servePackageOnce, ServePackage), and the loop of download in download.go.
-- * backend/internal/downloader/digest.go, the digests of URLs: Downloader.Digest.
-- * backend/internal/handlers/goproxy/path.go, npm/path.go and huggingface/path.go, which registry
--   takes a path, and the URLs of Go modules: Handlers (Goproxy, Npm, HuggingFace; Routing and
--   Escaping hold proofs).
-- * backend/internal/handlers/pypi/markers.go, dependencies of Python packages: Pypi. Versions
--   compares version numbers, Markers splits and evaluates the environment markers of a dependency,
--   for the platforms of Config.Targets; a slice out of its bounds is none.
-- * Examples runs the code on concrete inputs; Base has what the parts share.
--
-- How state is modelled. A function that holds a mutex from its start to its end is a function from
-- state to state. One that unlocks in between is one function for each critical section, and the
-- relations Scheduler.Steps.Step, RateLimit.Slots.Step, RateLimit.Conns.Step,
-- HostGovernor.Bounds.Step, Prefetch.Deferred.Step, Cache.Writing.Clearing.Step,
-- Downloader.Lease.Step and Downloader.Inflight.Step let the sections of all requests follow each
-- other in any order; of Clear, one call runs at a time, and in RateLimit.Conns the configuration
-- stays and the number of prefetch requests that are between their test and their count is bounded.
-- A map is an association list, and the pointer to a task in a map is the entry of its id. Cancel
-- functions are numbers, and `fired` lists those that were called. The current time is an argument,
-- in nanoseconds since Go's zero time, and any argument is allowed: nothing assumes that clocks
-- advance unless a theorem says so.
--
-- Numbers. Counters of slots and tasks are natural numbers: the code decrements them only where
-- they are positive, and they are bounded by the tasks in memory, so their 64 bits never wrap. The
-- id counter keeps its wrap-around, modulo 2 to the power 64. Settings that an operator may set to
-- a negative number are integers. A TTL is taken to fit a time.Duration, which is 292 years. The
-- loops are structural, over the lists that the code ranges over, but for two on fuel: the plan of
-- chunks, which takes the size of the file, and the splitting of a marker, which takes one more
-- than its length. Each round of these passes one byte or more. The plan adds a chunk to an offset
-- in the file without wrap-around, which is what the code's int64 does where the size of the file
-- and of a chunk together are below 2 to the power 63.
--
-- The cache's files are a map from paths to contents, and the index is a map from keys to entries,
-- in the order in which they were stored; writing to either succeeds, so that a missing file is
-- the only failure of the operating system. Put is modelled in the steps between which it leaves
-- the lock. Where eviction sorts entries of the same time of access, they keep their order.
--
-- Parameters. Cache.State.Env holds what the cache takes from elsewhere: the hashes, platid.Of, the
-- eviction target, which the code computes in floating point, and the names of staging files; only
-- what a theorem states of them is assumed. strings.ToLower on all of Unicode is an argument of the
-- definitions that split and evaluate markers; time.ParseDuration is an argument of those that use
-- it, and so is the list of platforms that register themselves. The digests of URLs take url.Parse,
-- and the check of a file takes its hashes, as arguments. How other components change the limiters
-- between two steps of the scheduler is a relation that Step takes.
--
-- Not modelled: Prometheus metrics and log lines; the display strings of a task; the token bucket
-- of golang.org/x/time/rate and the floating-point share of idle bandwidth; waiting itself, that is
-- AcquireTask and AcquireConn are one attempt each; strings.TrimSpace and, but for markers,
-- strings.ToLower outside ASCII; the division of bytes by seconds; the migration of the cache's old
-- layout, its statistics and the water mark of the disk; the bodies of the serial and of the
-- streaming download, which are loops around network calls, and the transfers themselves;
-- startOneAttempt, which calls the clients of the registries; the parsers of lock files, POMs and
-- requirements, which rest on regular expressions, XML and JSON; the HTTP interface with its
-- sessions, the self- update and the store, which are calls of the operating system and of
-- libraries; the user interface.
--

pub mod Base
pub mod RateLimit
pub mod Errors
pub mod Scheduler
pub mod HostGovernor
pub mod Prefetch
pub mod Pypi
pub mod Traffic
pub mod Cache
pub mod Config
pub mod Downloader
pub mod Handlers
mod Examples
