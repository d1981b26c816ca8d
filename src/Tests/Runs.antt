-- ===== src/Tests/Runs.antt =====
-- Runs of the reconciler of polls over the store in memory.
use poll_operator.Base.{ℕ, ◌*◌, ◌≡◌, refl, arith, string_eq, int_eq, ℕ_discrete}
use poll_operator.Api.{Time, NamespacedName, poll_phase_open}
use poll_operator.Kube.{World, finished}
use poll_operator.Kube.Lawful.{key}
use poll_operator.Base.{inc32, index_by}
use poll_operator.PollController.Phase.{compute_phase}
use poll_operator.PollController.Aggregate.{aggregate_results}
use poll_operator.PollController.Ready.{ready_condition}
use poll_operator.PollController.Reconcile.{reconcile, desired_status}
use poll_operator.PollController.Reconcile.Again.{reconcile_again}
use poll_operator.PollController.Reconcile.Errors.{reconcile-Ends, Ends}
use poll_operator.PollController.Reconcile.Timing.{reconcile_requeues, reconcile_missed, AsksAgain}
use poll_operator.PollController.StatusEqual.{
  status_equal, time_ptr_equal, all_same_results, conditions_equal_ignoring_transition,
}
use poll_operator.Tests.Data.{paint, votes}
use poll_operator.Tests.Memory.{Memory, memory, memory-IsLawful}
use poll_operator.Tests.Votes.{paint-HasUniqueKeys}

-- The clock moves on by a second with each reading.
abbrev pub clock : ℕ → Time
clock n = n * 1000000000

abbrev pub world : Memory → ℕ → World Memory
world m n = record { store = m; clock = clock; ticks = n }

abbrev pub fresh : Memory
fresh = record { poll = paint; responses = votes }

abbrev pub paint_key : NamespacedName
paint_key = key paint

reconcile_again_example :
    let s = (reconcile memory paint_key (world fresh 1)).1.store in
    (reconcile memory paint_key (world s 6)).1.store ≡ s
unfolding reconcile string_eq status_equal desired_status compute_phase
reconcile_again_example =
    reconcile_again memory memory-IsLawful paint_key paint votes (world fresh 1) refl refl
      paint-HasUniqueKeys tt (refl, refl) clock 6 refl

reconcile_requeues_example :
    AsksAgain (reconcile memory paint_key (world fresh 1)).0 10000000000 4000000000
unfolding reconcile string_eq status_equal desired_status compute_phase
reconcile_requeues_example =
    reconcile_requeues memory memory-IsLawful paint_key paint votes (world fresh 1) 10000000000 refl
      refl refl (omega arith) (omega arith) (refl, refl)

-- The Poll as a run leaves it: Open, with its results.
abbrev settled : Memory
settled = (reconcile memory paint_key (world fresh 1)).1.store

-- It closes during the run: the first reading is before ten seconds, the fourth is not.
reconcile_missed_example :
    ((reconcile memory paint_key (world settled 9)).0 ≡ finished)
    × ((reconcile memory paint_key (world settled 9)).1.store ≡ settled)
    × (settled.poll.status.phase ≡ poll_phase_open)
unfolding reconcile string_eq status_equal int_eq ℕ_discrete desired_status compute_phase
    aggregate_results inc32 time_ptr_equal all_same_results index_by
    conditions_equal_ignoring_transition ready_condition
reconcile_missed_example =
    reconcile_missed memory paint_key settled.poll votes (world settled 9) 10000000000 refl refl
      refl (omega arith) (omega arith) refl

reconcile-Ends_example :
    Ends memory paint_key (world fresh 1) (reconcile memory paint_key (world fresh 1))
reconcile-Ends_example = reconcile-Ends memory paint_key (world fresh 1)
