-- ===== src/Errors/Values.antt =====
-- errors.go: the classes, the codes, and Go's error values with what errors.Is, errors.As and
-- Error() make of them.
use mirrorhub.Base.{ℕ, Bool, true, false, Option, none, some, List, [], ◌++◌, if◌then◌else◌}
use mirrorhub.Base.Text.{Text, codes, is_empty}

pub data Class : Type 0 where
  ok transient rate_limit auth_retry auth_permanent content_changed hard cancel : Class

-- The reason codes; `no_code` is the empty string.
pub data Code : Type 0 where
  no_code transient_exhausted rate_limited stalled auth_required auth_failed forbidden : Code
  content_changed digest_mismatch not_found bad_content cancelled : Code

-- The error values that the code compares with errors.Is.
pub data Sentinel : Type 0 where
  canceled deadline_exceeded unexpected_eof conn_reset broken_pipe conn_refused : Sentinel
  rate_limited auth content_changed digest_mismatch stall reconnect : Sentinel

unfoldable pub Class-discrete : Discrete Class
Class-discrete = hlevel

unfoldable pub Sentinel-discrete : Discrete Sentinel
Sentinel-discrete = hlevel

abbrev pub Header : Type 0
Header = List (Text × List Text)

-- FailError, less its cause. Durations are nanoseconds.
pub record FailError : Type 0 where
  pub code : Code
  pub msg : Text
  pub class : Class
  pub retry : ℕ
  pub status : ℕ
  pub challenge : Option Header

-- A Go error: one of the named values, another error, an error that wraps another, or a FailError
-- with or without a cause. Where another error or a wrapper is a net.Error, as *url.Error is, it
-- has what its Timeout() says.
pub data GoError : Type 0 where
  sentinel : Sentinel → GoError
  other : Text → Option Bool → GoError
  wrapped : Text → Option Bool → GoError → GoError
  failed : FailError → GoError → GoError
  failed_bare : FailError → GoError

unfoldable pub code_text : Code → Text
code_text no_code = []
code_text transient_exhausted = codes "transient_exhausted"
code_text Code.rate_limited = codes "rate_limited"
code_text stalled = codes "stalled"
code_text auth_required = codes "auth_required"
code_text auth_failed = codes "auth_failed"
code_text forbidden = codes "forbidden"
code_text Code.content_changed = codes "content_changed"
code_text Code.digest_mismatch = codes "digest_mismatch"
code_text not_found = codes "not_found"
code_text bad_content = codes "upstream_bad_content"
code_text cancelled = codes "cancelled"

unfoldable pub sentinel_text : Sentinel → Text
sentinel_text canceled = codes "context canceled"
sentinel_text deadline_exceeded = codes "context deadline exceeded"
sentinel_text unexpected_eof = codes "unexpected EOF"
sentinel_text conn_reset = codes "connection reset by peer"
sentinel_text broken_pipe = codes "broken pipe"
sentinel_text conn_refused = codes "connection refused"
sentinel_text Sentinel.rate_limited = codes "upstream rate limited"
sentinel_text auth = codes "upstream auth failed"
sentinel_text Sentinel.content_changed = codes "upstream content changed"
sentinel_text Sentinel.digest_mismatch = codes "digest mismatch"
sentinel_text stall = codes "upstream read stalled"
sentinel_text reconnect = codes "prefetch reconnect after pause"

-- FailError.Error; `cause` is the message of the cause, empty if there is none.
fail_text : FailError → Text → Text
unfolding code_text
fail_text e cause =
    let code = code_text e.code in
    if is_empty code
    then (if is_empty e.msg
        then (if is_empty cause then codes "download failed" else cause)
        else e.msg)
    else if is_empty e.msg
    then code
    else code ++ (codes ": " ++ e.msg)

-- err.Error()
unfoldable pub error_text : GoError → Text
unfolding sentinel_text fail_text
error_text (sentinel s) = sentinel_text s
error_text (other msg net) = msg
error_text (wrapped msg net e) = msg
error_text (failed f e) = fail_text f (error_text e)
error_text (failed_bare f) = fail_text f []

-- errors.Is(err, target), for a named target.
unfoldable pub is : Sentinel → GoError → Bool
unfolding Sentinel-discrete
is s (sentinel t) = elim (Sentinel-discrete s t) [ yes _ ↦ true | no _ ↦ false ]
is s (other msg net) = false
is s (wrapped msg net e) = is s e
is s (failed f e) = is s e
is s (failed_bare f) = false

-- errors.As(err, &fe): the first FailError of the chain.
unfoldable pub as_fail : GoError → Option FailError
as_fail (sentinel s) = none
as_fail (other msg net) = none
as_fail (wrapped msg net e) = as_fail e
as_fail (failed f e) = some f
as_fail (failed_bare f) = some f

-- errors.As(err, &ne) && ne.Timeout(): the first net.Error of the chain.
-- context.DeadlineExceeded is one that times out; the syscall errors are ones that do not.
unfoldable pub times_out : GoError → Bool
times_out (sentinel deadline_exceeded) = true
times_out (sentinel _) = false
times_out (other msg (some b)) = b
times_out (other msg none) = false
times_out (wrapped msg (some b) e) = b
times_out (wrapped msg none e) = times_out e
times_out (failed f e) = times_out e
times_out (failed_bare f) = false
