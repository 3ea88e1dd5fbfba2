-- ===== src/Examples/Tasks.antt =====
-- Runs of scheduler.go: a prefetch and an interactive download of one platform.
use mirrorhub.Base.{ℕ, ◌≤◌, ◌≡◌, refl, true, false, Option, some, none, [], arith, pos}
use mirrorhub.Base.Text.{Text, codes, text_dec, format_uint}
use mirrorhub.Base.Assoc.{lookup, put, tally}
use mirrorhub.RateLimit.{Registry, new_registry}
use mirrorhub.RateLimit.Pausing.{AllPaused}
use mirrorhub.Scheduler.State.{TaskInfo, Scheduler, PrefetchConfig, interactive, prefetch, new}
use mirrorhub.Scheduler.Tasks.{begin, new_task}
use mirrorhub.Scheduler.Active.{count_of, pauses, mark_running, inc_p0, pause_prefetch}
use mirrorhub.Scheduler.Ending.{has, prune_expired}
use mirrorhub.Scheduler.Cancelling.{
  Match, cancel_matching_locked, clear_loop, clear_finished_matching,
}
use mirrorhub.Scheduler.Invariant.{Inv, counts, counts_on}
use mirrorhub.Scheduler.Steps.{
  Step, Reach, Reach-Inv, new-Inv, counters_exact, tasks_listed, only_running_counts,
}
use mirrorhub.Scheduler.Pausing.{paused_while_active}
use mirrorhub.Scheduler.Purging.{settled, cancel_matching_exact, prefetch_cancel_spares_interactive}
use mirrorhub.Scheduler.Clearing.{Clearance, clear_finished_exact}
use mirrorhub.Scheduler.Surplus.{failed_listed}

abbrev no_duration : Text → Option ℕ
no_duration s = none

abbrev registry : Registry
registry = new_registry (record { max_concurrent = pos 20; max_connections = pos 80 })

abbrev pausing : PrefetchConfig
pausing = record { on_interactive = codes "pause"; resume_on_idle = true }

abbrev pypi : Text
pypi = codes "pypi"

-- A prefetch task is registered, then an interactive one, which starts to run.
abbrev one : Scheduler × Text
one = begin pypi (codes "a") prefetch false false 1000 (new registry)

abbrev two : Scheduler × Text
two = begin pypi (codes "b") interactive false true 2000 one.0

abbrev busy : Scheduler
busy = mark_running pausing (codes "b#2") 3000 two.0

abbrev Quietly : Registry → Registry → Type 0
Quietly r r' = AllPaused true r → AllPaused true r'

abbrev Pauses : PrefetchConfig → Type 0
Pauses cfg = pauses cfg ≡ true

two-Reach : Reach no_duration Pauses Quietly (new registry) two.0
unfolding new begin
two-Reach =
    Reach.next
      (Reach.next Reach.here
        (Step.begins (new registry) pypi (codes "a") prefetch false false 1000 (omega arith)))
      (Step.begins one.0 pypi (codes "b") interactive false true 2000 (omega arith))

busy-Reach : Reach no_duration Pauses Quietly (new registry) busy
unfolding text_dec
busy-Reach = Reach.next two-Reach (Step.runs two.0 pausing (codes "b#2") 3000 refl)

busy-Inv : Inv busy
busy-Inv = Reach-Inv no_duration Pauses Quietly (new-Inv registry) busy-Reach

busy_active : busy.p0_active ≡ 1
unfolding mark_running begin new lookup put text_dec format_uint inc_p0 pause_prefetch
busy_active = refl

counters_exact_example :
    (busy.p0_active ≡ tally counts busy.tasks)
    × (count_of pypi busy.p0_by_platform ≡ tally (counts_on pypi) busy.tasks)
counters_exact_example = counters_exact no_duration Pauses Quietly registry busy-Reach pypi

abbrev waiting_task : TaskInfo
waiting_task = new_task pypi (codes "a") prefetch false false 1000 (codes "a#1")

two-lookup : lookup (codes "a#1") two.0.tasks ≡ some waiting_task
unfolding begin new lookup put text_dec format_uint
two-lookup = refl

tasks_listed_example : (waiting_task.id ≡ codes "a#1") × (has (codes "a#1") two.0.order ≡ true)
tasks_listed_example =
    tasks_listed no_duration Pauses Quietly registry two-Reach (codes "a#1") waiting_task two-lookup

only_running_counts_example : waiting_task.counts_active ≡ false
only_running_counts_example =
    only_running_counts no_duration Pauses Quietly registry two-Reach (codes "a#1") waiting_task
      two-lookup (λ e. cc)

paused_while_active_example : AllPaused true busy.limiters
paused_while_active_example =
    paused_while_active no_duration registry busy-Reach (omega (arith, busy_active))

abbrev all_prefetch : Match
all_prefetch = record { platform = []; prefetch_only = true }

cancel_matching_exact_example :
    lookup (codes "a#1") (cancel_matching_locked all_prefetch 5000 busy).0.tasks
    ≡ settled all_prefetch 5000 (lookup (codes "a#1") busy.tasks)
cancel_matching_exact_example = cancel_matching_exact all_prefetch 5000 busy (codes "a#1") busy-Inv

abbrev interactive_task : TaskInfo
interactive_task = new_task pypi (codes "b") interactive false true 2000 (codes "b#2")

two-Inv : Inv two.0
two-Inv = Reach-Inv no_duration Pauses Quietly (new-Inv registry) two-Reach

interactive-lookup : lookup (codes "b#2") two.0.tasks ≡ some interactive_task
unfolding begin new lookup put text_dec format_uint
interactive-lookup = refl

prefetch_cancel_spares_interactive_example :
    lookup (codes "b#2") (cancel_matching_locked all_prefetch 5000 two.0).0.tasks
    ≡ some interactive_task
prefetch_cancel_spares_interactive_example =
    prefetch_cancel_spares_interactive all_prefetch 5000 two.0 (codes "b#2") interactive_task
      two-Inv refl interactive-lookup refl

clear_finished_exact_example :
    Clearance pypi 5000
      (failed_listed (prune_expired 5000 (clear_loop pypi busy).0))
      (lookup (codes "a#1") busy.tasks)
      (lookup (codes "a#1") (clear_finished_matching pypi 5000 busy).0.tasks)
    × (failed_listed (clear_finished_matching pypi 5000 busy).0 ≤ 200)
clear_finished_exact_example = clear_finished_exact pypi 5000 busy (codes "a#1") busy-Inv
