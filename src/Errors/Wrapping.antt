-- ===== src/Errors/Wrapping.antt =====
-- The class that a FailError carries is the class that its cause would be given.
use mirrorhub.Base.{ℕ, ◌≤◌, ◌≡◌, Bool, true, false, Option, none, some, arith, ◌∙◌}
use mirrorhub.Base.Text.{Text}
use mirrorhub.Errors.{
  transient, cancel, GoError, sentinel, other, wrapped, failed, failed_bare, deadline_exceeded,
  canceled, is, as_fail, times_out, is_transient_net_err, class_of, classify_upstream_auth,
  classify_error, wrap_classified, Header, status_error, classify_http, error_code,
}
use mirrorhub.Errors.Http.{http_failure_decided}

-- Each wrapper of the chain that is a net.Error says that it timed out.
abbrev pub IsTimely : GoError → Type 0
IsTimely (sentinel s) = Unit
IsTimely (other msg net) = Unit
IsTimely (wrapped msg none e) = IsTimely e
IsTimely (wrapped msg (some b) e) = (b ≡ true) × IsTimely e
IsTimely (failed f e) = IsTimely e
IsTimely (failed_bare f) = Unit

is_deadline-times_out :
    (e : GoError) → IsTimely e → is deadline_exceeded e ≡ true → times_out e ≡ true
unfolding is times_out
is_deadline-times_out (sentinel s) y h = ground arith
is_deadline-times_out (other msg net) y h = cc
is_deadline-times_out (wrapped msg none e) y h = is_deadline-times_out e y h
is_deadline-times_out (wrapped msg (some b) e) y h = y.0
is_deadline-times_out (failed f e) y h = is_deadline-times_out e y h
is_deadline-times_out (failed_bare f) y h = cc

deadline-transient_net :
    (e : GoError) → IsTimely e → is deadline_exceeded e ≡ true → is_transient_net_err e ≡ true
unfolding is_transient_net_err
deadline-transient_net e y h = ground (arith, is_deadline-times_out e y h)

module _ (parse_duration : Text → Option ℕ) where
  class_of_unclassed :
      (e : GoError)
      → as_fail e ≡ none
      → class_of parse_duration (some e) ≡ (classify_error parse_duration e 0 false).class
  unfolding class_of classify_upstream_auth
  class_of_unclassed e n = ground arith

  -- An error that carries no FailError and has an exceeded deadline in its chain, but no
  -- cancellation, is transient, if each wrapper of the chain that is a net.Error says that it timed
  -- out.
  pub deadline_is_transient :
      (e : GoError)
      → as_fail e ≡ none
      → is canceled e ≡ false
      → is deadline_exceeded e ≡ true
      → IsTimely e
      → class_of parse_duration (some e) ≡ transient
  unfolding classify_error
  deadline_is_transient e n c d y =
      class_of_unclassed e n
      ∙ rw (c, classify_error) (rw (d, classify_error) (rw (deadline-transient_net e y d)))

  -- An error that carries no FailError and has a cancellation in its chain is cancelled,
  -- whatever else the chain or the messages say.
  pub canceled_is_cancel :
      (e : GoError)
      → as_fail e ≡ none
      → is canceled e ≡ true
      → class_of parse_duration (some e) ≡ cancel
  unfolding classify_error
  canceled_is_cancel e n c = class_of_unclassed e n ∙ rw (c, classify_error)

  -- Wrapping an error while a new token cannot help never changes the class that ClassOf finds.
  pub class_of-wrap_classified :
      (e : GoError)
      → class_of parse_duration (some (wrap_classified parse_duration e false))
        ≡ class_of parse_duration (some e)
  unfolding wrap_classified class_of classify_upstream_auth as_fail
  class_of-wrap_classified e = ground arith

  -- The error made of a response with a status of 400 or more has the class and the code that
  -- classifyHTTP gives to that status and its headers.
  pub status_error-class :
      (status : ℕ) (hdr : Option Header) (auth_can_retry : Bool)
      → 400 ≤ status
      → let e = some (status_error parse_duration status hdr auth_can_retry) in
        let c = classify_http parse_duration status auth_can_retry hdr in
        (class_of parse_duration e ≡ c.class) × (error_code e ≡ c.code)
  unfolding status_error class_of error_code as_fail
  status_error-class status hdr auth_can_retry h =
      ground (arith, http_failure_decided parse_duration status auth_can_retry hdr)
