-- ===== src/Examples/Queues.antt =====
-- Runs of delayed.go: a package that is put off after a failure and then finds no file slot.
use mirrorhub.Base.{◌≤◌, Bool, true, [], arith, count}
use mirrorhub.Base.Text.{Text, codes}
use mirrorhub.Scheduler.State.{second}
use mirrorhub.Prefetch.{Service, DelayedItem, enqueue_delayed, enqueue_waiting}
use mirrorhub.Prefetch.Deferred
use mirrorhub.Prefetch.Deferred.{deferred, deferred_once, drain_delayed_splits}

abbrev wheel : Text
wheel = codes "https://example.org/a.whl"

abbrev empty : Service
empty = record { manual = []; delayed = []; waiting = [] }

abbrev put_off : Service
put_off =
    enqueue_waiting wheel (codes "pypi") 1 (enqueue_delayed wheel (codes "pypi") 1 second empty)

abbrev first_try : DelayedItem → Bool
first_try d = true

deferred_once_example : deferred wheel put_off ≤ 1
unfolding count
deferred_once_example = deferred_once {platforms = []} {s = empty} wheel (omega arith) (
    Deferred.Reach.next
      (Deferred.Reach.next Deferred.Reach.here
        (Deferred.Step.delays empty wheel (codes "pypi") 1 second))
      (Deferred.Step.waits _ wheel (codes "pypi") 1))
