-- ===== src/Semaphore/Progress.antt =====
-- The tasks go on as long as one is not completed.
use proton_utils.Base.{
  ℕ, ◌+◌, ◌≡◌, ◌≤◌, ◌<◌, refl, ap, true, false, ltb, some, List, [], ◌∷◌, ◌++◌, inl, inr,
  Bool-cases, arith,
}
use proton_utils.Semaphore.{
  TaskPhase, waiting, holding, running, leaving, released, ended, Counters, Semaphore,
  new_semaphore, advance, Reaches,
}
use proton_utils.Semaphore.Bounded.{
  holds_slot, is_completed, total, Reaches-IsCounted, new-IsCounted, total-le,
}

-- Whether a task can go on by itself, and whether it waits for a slot.
abbrev is_busy : TaskPhase → ℕ
is_busy waiting = 0
is_busy ended = 0
is_busy _ = 1

abbrev is_waiting : TaskPhase → ℕ
is_waiting waiting = 1
is_waiting _ = 0

-- A task of the list that has what some task of it has.
find :
    (w : TaskPhase → ℕ) (ps : List TaskPhase)
    → 0 < total w ps
    → (before : List TaskPhase) × (after : List TaskPhase) × (p : TaskPhase) × (ps
        ≡ before ++ p ∷ after)
      × (0 < w p)
find w [] h = absurd (omega arith)
find w (p ∷ ps) h = elim (Bool-cases (ltb 0 (w p))) [
  | inl here ↦ ([], ps, p, refl, ground arith)
  | inr later ↦
      let (before, after, q, e, g) = find w ps (ground arith) in
      (p ∷ before, after, q, ap (λ l. p ∷ l) e, g)
]

-- The task can take its next step.
abbrev pub CanAdvance : TaskPhase → Counters → Type 0
CanAdvance p c = (q : TaskPhase) × (d : Counters) × (advance false p c ≡ some (q, d))

busy-advances : (p : TaskPhase) (c : Counters) → 0 < is_busy p → CanAdvance p c
unfolding advance
busy-advances waiting c h = absurd (omega arith)
busy-advances holding c h = (_, _, refl)
busy-advances running c h = (_, _, refl)
busy-advances leaving c h = (_, _, refl)
busy-advances released c h = (_, _, refl)
busy-advances ended c h = absurd (omega arith)

waiting-advances :
    (p : TaskPhase) (c : Counters) → 0 < is_waiting p → c.used < c.limit → CanAdvance p c
unfolding advance
waiting-advances waiting c h r =
    let room : ltb c.used c.limit ≡ true = ground arith in
    (holding, record c { used = c.used + 1 }, rw room refl)
waiting-advances holding c h r = absurd (omega arith)
waiting-advances running c h r = absurd (omega arith)
waiting-advances leaving c h r = absurd (omega arith)
waiting-advances released c h r = absurd (omega arith)
waiting-advances ended c h r = absurd (omega arith)

holds_slot-le-is_busy : (p : TaskPhase) → holds_slot p ≤ is_busy p
holds_slot-le-is_busy p = ground arith

total-phases :
    (ps : List TaskPhase)
    → total is_busy ps + total is_waiting ps + total is_completed ps ≡ total (λ _. 1) ps
total-phases [] = refl
total-phases (p ∷ ps) =
    let one : is_busy p + is_waiting p + is_completed p ≡ 1 = ground arith in
    omega (arith, one, total-phases ps)

-- As long as not all tasks that were submitted are completed, one of them can take its next step,
-- if there is a slot at all.
pub advance-submitted :
    (n : ℕ) (s : Semaphore)
    → 0 < n
    → Reaches (new_semaphore n) s
    → s.counters.completed < s.counters.submitted
    → (before : List TaskPhase) × (after : List TaskPhase) × (p : TaskPhase) × (s.tasks
        ≡ before ++ p ∷ after)
      × CanAdvance p s.counters
unfolding new_semaphore
advance-submitted n s positive r more =
    let (h, e) = Reaches-IsCounted r (new-IsCounted n) in
    elim (Bool-cases (ltb 0 (total is_busy s.tasks))) [
      | inl some_busy ↦
          let (before, after, p, f, b) = find is_busy s.tasks (ground arith) in
          (before, after, p, f, busy-advances p s.counters b)
      | inr none_busy ↦
          let idle : total is_busy s.tasks ≡ 0 = ground arith in
          let some_wait : 0 < total is_waiting s.tasks =
            omega (arith, idle, more, h.completed, h.submitted, total-phases s.tasks) in
          let room : s.counters.used < s.counters.limit = omega (
            arith,
            idle,
            h.used,
            e,
            positive,
            total-le holds_slot is_busy s.tasks holds_slot-le-is_busy,
          ) in
          let (before, after, p, f, w) = find is_waiting s.tasks some_wait in
          (before, after, p, f, waiting-advances p s.counters w room)
    ]
