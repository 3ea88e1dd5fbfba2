-- ===== src/Errors/Http.antt =====
-- How errors.go sorts HTTP statuses.
use mirrorhub.Base.{ℕ, ◌≤◌, ◌≡◌, ◌≢◌, Bool, not, Option, arith}
use mirrorhub.Base.Text.{Text}
use mirrorhub.Errors.{
  ok, content_changed, cancel, Header, classify_http, is_recoverable, should_abandon_immediately,
}

module _ (parse_duration : Text → Option ℕ) where
  -- A status of 400 or more is sorted into a class that is either recoverable or to be abandoned
  -- at once, never both and never neither, and that is not success, changed content or
  -- cancellation.
  pub http_failure_decided :
      (status : ℕ) (auth_can_retry : Bool) (hdr : Option Header)
      → 400 ≤ status
      → let c = (classify_http parse_duration status auth_can_retry hdr).class in
        (is_recoverable c ≡ not (should_abandon_immediately c))
        × (c ≢ ok)
        × (c ≢ content_changed)
        × (c ≢ cancel)
  unfolding classify_http is_recoverable should_abandon_immediately
  http_failure_decided status auth_can_retry hdr h = ground arith
