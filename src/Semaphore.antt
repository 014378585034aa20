-- ===== src/Semaphore.antt =====
-- Bounded concurrency, api/semaphore.go. A task is at one of the points between which other
-- goroutines may run; the slots of the channel are counted.
pub mod Bounded
pub mod Progress
use proton_utils.Base.{
  ℕ, ◌+◌, ◌-◌, ◌≡◌, Bool, ltb, Option, none, some, List, [], ◌∷◌, ◌++◌, if◌then◌else◌,
}

-- Where a task stands: before its slot, with it, in its body, with its body behind it, without
-- its slot, and counted as completed.
pub data TaskPhase : Type 0 where
  waiting holding running leaving released ended : TaskPhase

-- The channel's length and capacity, and `semaphoreStats`.
pub record Counters : Type 0 where
  pub limit : ℕ
  pub used : ℕ
  pub active : ℕ
  pub submitted : ℕ
  pub completed : ℕ

pub record Semaphore : Type 0 where
  pub counters : Counters
  pub tasks : List TaskPhase

-- `NewSemaphore`
unfoldable pub new_semaphore : ℕ → Semaphore
new_semaphore n = record {
  counters = record { limit = n; used = 0; active = 0; submitted = 0; completed = 0 };
  tasks = [];
}

-- `Go` up to the channel
unfoldable pub submit : Semaphore → Semaphore
submit s = record {
  counters = record s.counters { submitted = s.counters.submitted + 1 };
  tasks = s.tasks ++ waiting ∷ [];
}

-- A task's next step, if it can take one; the flag says that the throttle's wait is cancelled.
unfoldable pub advance : Bool → TaskPhase → Counters → Option (TaskPhase × Counters)
advance cancelled waiting c =
    if ltb c.used c.limit then some (holding, record c { used = c.used + 1 }) else none
advance cancelled holding c =
    if cancelled then some (leaving, c) else some (running, record c { active = c.active + 1 })
advance cancelled running c = some (leaving, record c { active = c.active - 1 })
advance cancelled leaving c = some (released, record c { used = c.used - 1 })
advance cancelled released c = some (ended, record c { completed = c.completed + 1 })
advance cancelled ended c = none

-- A task is submitted, or one of the tasks takes its next step.
pub data Moves (s : Semaphore) : Semaphore → Type 0 where
  submits : Moves s (submit s)
  advances :
      (cancelled : Bool) (before after : List TaskPhase) (p q : TaskPhase) (c : Counters)
      → s.tasks ≡ before ++ p ∷ after
      → advance cancelled p s.counters ≡ some (q, c)
      → Moves s (record { counters = c; tasks = before ++ q ∷ after })

pub data Reaches (s : Semaphore) : Semaphore → Type 0 where
  begins : Reaches s s
  and_then : {t u : Semaphore} → Reaches s t → Moves t u → Reaches s u
