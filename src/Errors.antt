-- ===== src/Errors.antt =====
-- backend/internal/downloader/errors.go: how the downloader sorts errors and HTTP statuses into
-- classes. Values and Status have the error values and what is read off their messages.
pub mod Values
pub mod Status
pub mod Http
pub mod Wrapping
use mirrorhub.Base.{
  ℕ, zero, suc, ◌+◌, ◌-◌, ◌*◌, Bool, true, false, ◌&&◌, ◌||◌, Option, none, some, List, [], ◌∷◌,
  ◌++◌, ltb, leb, ◌==◌, if◌then◌else◌, length, drop,
}
use mirrorhub.Base.Text.{
  Text, codes, is_empty, contains, has_prefix, to_lower, trim_space, format_uint,
}
use mirrorhub.Base.Assoc.{lookup}
pub use Values.*
unfoldable pub use Values.{
  Class-discrete, Sentinel-discrete, code_text, sentinel_text, error_text, is, as_fail, times_out,
}
pub use Status.*
unfoldable pub use Status.{is_transient_net_err, parse_status_from_err}

pub record Classified : Type 0 where
  pub class : Class
  pub code : Code
  pub retry_after : ℕ
  pub status : ℕ

abbrev pub classified : Class → Code → Classified
classified class code = record { class = class; code = code; retry_after = 0; status = 0 }

-- hdr.Get(key)
header_get : Text → Header → Text
unfolding lookup
header_get key hdr = elim (lookup key hdr) [ some (v ∷ vs) ↦ v | _ ↦ [] ]

status_text : ℕ → Text
status_text status = codes "upstream status " ++ format_uint status

-- The switch of statusError.
status_fail : ℕ → Option Header → Classified → GoError
unfolding status_text
status_fail status hdr c =
    let bare : FailError = record {
      code = c.code;
      msg = status_text status;
      class = c.class;
      retry = 0;
      status = status;
      challenge = none;
    } in
    elim c.class [
      | Class.rate_limit ↦
          failed (record bare { retry = c.retry_after }) (sentinel Sentinel.rate_limited)
      | auth_retry ↦ failed (record bare { challenge = hdr }) (sentinel auth)
      | auth_permanent ↦ failed (record bare { challenge = hdr }) (sentinel auth)
      | hard ↦ failed_bare bare
      | transient ↦ failed_bare bare
      | _ ↦ other (status_text status) none
    ]

-- `parse_duration` is time.ParseDuration: nanoseconds, or none for an error.
module _ (parse_duration : Text → Option ℕ) where
  parse_retry_after : Text → ℕ
  parse_retry_after v =
      let v = trim_space v in
      if is_empty v then 0 else elim (parse_duration (v ++ codes "s")) [ none ↦ 0 | some d ↦ d ]

  unfoldable pub classify_http : ℕ → Bool → Option Header → Classified
  unfolding header_get parse_retry_after
  classify_http status auth_can_retry hdr =
      if status == 429 || status == 503
      then record {
        class = Class.rate_limit;
        code = Code.rate_limited;
        retry_after = elim hdr [
          | none ↦ 0
          | some h ↦ parse_retry_after (header_get (codes "Retry-After") h)
        ];
        status = status;
      }
      else if status == 401 || status == 403
      then (if auth_can_retry
          then record (classified auth_retry auth_failed) { status = status }
          else if status == 401
          then record (classified auth_permanent auth_required) { status = status }
          else record (classified auth_permanent forbidden) { status = status })
      else if status == 404 || status == 410
      then record (classified hard not_found) { status = status }
      else if leb 500 status
      then record (classified transient transient_exhausted) { status = status }
      else if leb 400 status
      then record (classified hard bad_content) { status = status }
      else record (classified ok no_code) { status = status }

  -- The end of classifyUpstreamAuth, for a status or an error that no test names.
  classify_status : ℕ → Bool → Classified
  classify_status status auth_can_retry =
      if ltb 0 status then classify_http status auth_can_retry none else classified hard bad_content

  is_digest_mismatch : GoError → Bool
  is_digest_mismatch e =
      let low = to_lower (error_text e) in
      is Sentinel.digest_mismatch e
      || (contains low (codes "mismatch")
          && (contains low (codes "sha256")
              || (contains low (codes "sha512") || contains low (codes "digest"))))

  -- The tests of classifyUpstreamAuth on an error, in order.
  unfoldable pub classify_error : GoError → ℕ → Bool → Classified
  unfolding classify_status is_digest_mismatch
  classify_error e status auth_can_retry =
      if is canceled e
      then classified cancel cancelled
      else if is deadline_exceeded e
      then (if is_transient_net_err e
          then classified transient transient_exhausted
          else classified cancel cancelled)
      else if is stall e
      then classified transient stalled
      else if is reconnect e
      then classified transient no_code
      else if is Sentinel.rate_limited e
      then classified Class.rate_limit Code.rate_limited
      else if is Sentinel.content_changed e
      then classified Class.content_changed Code.content_changed
      else if is_digest_mismatch e
      then classified Class.content_changed Code.digest_mismatch
      else if is auth e
      then (if auth_can_retry
          then classified auth_retry auth_failed
          else classified auth_permanent auth_failed)
      else if is_transient_net_err e
      then classified transient transient_exhausted
      else (let st = parse_status_from_err e in
          classify_status (if ltb 0 st then st else status) auth_can_retry)

  -- classifyUpstreamAuth; `none` is a nil error.
  unfoldable pub classify_upstream_auth : Option GoError → ℕ → Bool → Classified
  unfolding classify_status
  classify_upstream_auth none status auth_can_retry =
      if status == 0 then classified ok no_code else classify_status status auth_can_retry
  classify_upstream_auth (some e) status auth_can_retry = classify_error e status auth_can_retry

  abbrev own_class : Option FailError → Option Class
  own_class none = none
  own_class (some f) = elim (Class-discrete f.class ok) [ yes _ ↦ none | no _ ↦ some f.class ]

  -- ClassOf
  unfoldable pub class_of : Option GoError → Class
  class_of none = ok
  class_of (some e) = elim (own_class (as_fail e)) [
    | some c ↦ c
    | none ↦ (classify_upstream_auth (some e) 0 false).class
  ]

  -- wrapClassified of an error that is not nil.
  unfoldable pub wrap_classified : GoError → Bool → GoError
  wrap_classified e auth_can_retry = elim (as_fail e) [
    | some f ↦ e
    | none ↦
        let c = classify_upstream_auth (some e) 0 auth_can_retry in
        elim (Class-discrete c.class ok) [
          | yes _ ↦ e
          | no _ ↦
              failed
                (record {
                  code = c.code;
                  msg = error_text e;
                  class = c.class;
                  retry = c.retry_after;
                  status = c.status;
                  challenge = none;
                })
                e
        ]
  ]

  -- statusError
  unfoldable pub status_error : ℕ → Option Header → Bool → GoError
  unfolding status_fail
  status_error status hdr auth_can_retry =
      status_fail status hdr (classify_http status auth_can_retry hdr)

-- ErrorCode
unfoldable pub error_code : Option GoError → Code
error_code none = no_code
error_code (some e) = elim (as_fail e) [ none ↦ no_code | some f ↦ f.code ]

-- isRecoverable
unfoldable pub is_recoverable : Class → Bool
is_recoverable transient = true
is_recoverable Class.rate_limit = true
is_recoverable auth_retry = true
is_recoverable _ = false

-- shouldAbandonImmediately
unfoldable pub should_abandon_immediately : Class → Bool
should_abandon_immediately hard = true
should_abandon_immediately auth_permanent = true
should_abandon_immediately cancel = true
should_abandon_immediately _ = false
