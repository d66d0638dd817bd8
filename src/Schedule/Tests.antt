-- ===== src/Schedule/Tests.antt =====
-- Examples for src/enclave/schedule/Schedule.cpp and src/enclave/utils/SafeLock.cpp.
use crust_sworker.Prelude.{◌≡◌, ◌↔◌, refl, true, false, [], ◌∷◌, some}
use crust_sworker.Prelude.Int.{pos}
use crust_sworker.Schedule.{
  Process, sched_confirm_file, sched_validate_file, block_procs, sched_add, release_lock,
}
use crust_sworker.Schedule.Running.{
  Sched, idle, enter, Reachable, start, next, member, release_lock-Reachable,
}
use crust_sworker.Schedule.SafeLock.{to_lock, to_unlock, live, replay, replay-live}

-- The validation of the files runs, then a confirmation begins.
abbrev one : Sched
one = record {
  counts = sched_add sched_validate_file idle.counts;
  running = sched_validate_file ∷ [];
}

abbrev two : Sched
two = record {
  counts = sched_add sched_confirm_file one.counts;
  running = sched_confirm_file ∷ sched_validate_file ∷ [];
}

two-Reachable : Reachable two
two-Reachable =
    next (next start (enter sched_validate_file idle.counts []))
      (enter sched_confirm_file one.counts one.running)

two-released : release_lock sched_validate_file two.counts ≡ true
unfolding release_lock sched_add crust_sworker.Prelude.Int.◌+ℤ◌
two-released = refl

release_lock-Reachable_example : (release_lock sched_validate_file two.counts ≡ true) ↔ (
    (p : Process) × (member p (block_procs sched_validate_file) ≡ true)
    × (member p two.running ≡ true))
release_lock-Reachable_example = release_lock-Reachable two sched_validate_file two-Reachable

replay-live_example :
    replay false (live (to_lock ∷ to_lock ∷ to_unlock ∷ to_lock ∷ []) 0) ≡ some false
replay-live_example = replay-live (to_lock ∷ to_lock ∷ to_unlock ∷ to_lock ∷ [])
