-- ===== src/Tests/Tasks.antt =====
-- Two tasks for one slot.
use proton_utils.Base.{◌≡◌, ◌≤◌, ◌++◌, refl, false, List, [], ◌∷◌, arith}
use proton_utils.Semaphore.{
  TaskPhase, waiting, holding, Semaphore, new_semaphore, submit, advance, submits, advances,
  Reaches, begins, and_then,
}
use proton_utils.Semaphore.Bounded.{active-le-limit}
use proton_utils.Semaphore.Progress.{CanAdvance, advance-submitted}

program : Unit {0}
unfolding new_semaphore submit advance
program = tt

-- the first task has the slot
abbrev busy : Semaphore
busy = record {
  counters = record { limit = 1; used = 1; active = 0; submitted = 2; completed = 0 };
  tasks = holding ∷ waiting ∷ [];
}

to_busy : Reaches (new_semaphore 1) busy
unfolding program
to_busy =
    and_then (and_then (and_then begins submits) submits)
      (advances false [] (waiting ∷ []) waiting holding busy.counters refl refl)

active-le-limit_example :
    (busy.counters.active ≤ busy.counters.used)
    × (busy.counters.used ≤ 1)
    × (busy.counters.completed ≤ busy.counters.submitted)
active-le-limit_example = active-le-limit 1 busy to_busy

advance-submitted_example :
    (before : List TaskPhase) × (after : List TaskPhase) × (p : TaskPhase) × (busy.tasks
      ≡ before ++ p ∷ after)
    × CanAdvance p busy.counters
advance-submitted_example = advance-submitted 1 busy (omega arith) to_busy (omega arith)
