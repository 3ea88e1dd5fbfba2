-- ===== src/Examples/Failures.antt =====
-- Runs of errors.go.
use mirrorhub.Base.{ℕ, ◌≡◌, refl, true, false, Option, some, none}
use mirrorhub.Base.Text.{Text, codes}
use mirrorhub.Errors.{
  transient, GoError, sentinel, wrapped, deadline_exceeded, canceled, is, as_fail, class_of,
  wrap_classified, Sentinel-discrete,
}
use mirrorhub.Errors.Wrapping.{deadline_is_transient, class_of-wrap_classified}

-- A time.ParseDuration that reads nothing.
abbrev no_duration : Text → Option ℕ
no_duration s = none

abbrev late : GoError
late =
    wrapped (codes "Get index: context deadline exceeded") (some true) (sentinel deadline_exceeded)

abbrev stopped : GoError
stopped = wrapped (codes "Get index: 503") none (sentinel canceled)

class_of-wrap_classified_example :
    class_of no_duration (some (wrap_classified no_duration late false))
    ≡ class_of no_duration (some late)
class_of-wrap_classified_example = class_of-wrap_classified no_duration late

deadline_is_transient_example : class_of no_duration (some late) ≡ transient
unfolding as_fail is Sentinel-discrete
deadline_is_transient_example = deadline_is_transient no_duration late refl refl refl (refl, tt)
