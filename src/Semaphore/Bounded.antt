-- ===== src/Semaphore/Bounded.antt =====
-- The counters count the tasks, and the tasks keep within the limit.
use proton_utils.Base.{ℕ, ◌+◌, ◌≡◌, ◌≤◌, refl, ap, ◌∙◌, Bool, some, List, [], ◌∷◌, ◌++◌, arith}
use proton_utils.Semaphore.{
  TaskPhase, waiting, holding, running, leaving, released, ended, Counters, Semaphore,
  new_semaphore, submit, advance, Moves, submits, advances, Reaches, begins, and_then,
}

-- Whether a task holds a slot, runs, and is completed.
abbrev pub holds_slot : TaskPhase → ℕ
holds_slot holding = 1
holds_slot running = 1
holds_slot leaving = 1
holds_slot _ = 0

abbrev pub runs : TaskPhase → ℕ
runs running = 1
runs _ = 0

abbrev pub is_completed : TaskPhase → ℕ
is_completed ended = 1
is_completed _ = 0

abbrev pub total : (TaskPhase → ℕ) → List TaskPhase → ℕ
total w [] = 0
total w (p ∷ ps) = w p + total w ps

total-append :
    (w : TaskPhase → ℕ) (ps qs : List TaskPhase) → total w (ps ++ qs) ≡ total w ps + total w qs
total-append w [] qs = omega arith
total-append w (p ∷ ps) qs = omega (arith, total-append w ps qs)

-- The counters are what they count, and the slots keep within the limit.
pub record IsCounted (c : Counters) (tasks : List TaskPhase) : Type 0 where
  pub used : c.used ≡ total holds_slot tasks
  pub active : c.active ≡ total runs tasks
  pub submitted : c.submitted ≡ total (λ _. 1) tasks
  pub completed : c.completed ≡ total is_completed tasks
  pub within : c.used ≤ c.limit

-- what a step of one task does to the counters
record IsShifted (c d : Counters) (p q : TaskPhase) : Type 0 where
  used : d.used + holds_slot p ≡ c.used + holds_slot q
  active : d.active + runs p ≡ c.active + runs q
  submitted : d.submitted ≡ c.submitted
  completed : d.completed + is_completed p ≡ c.completed + is_completed q
  within : d.used ≤ d.limit
  limit : d.limit ≡ c.limit

advance-IsShifted :
    (cancelled : Bool) (p q : TaskPhase) (c d : Counters)
    → c.used ≤ c.limit
    → holds_slot p ≤ c.used
    → runs p ≤ c.active
    → advance cancelled p c ≡ some (q, d)
    → IsShifted c d p q
unfolding advance
advance-IsShifted cancelled waiting q c d w h r e = ground arith
advance-IsShifted cancelled holding q c d w h r e = ground arith
advance-IsShifted cancelled running q c d w h r e = ground arith
advance-IsShifted cancelled leaving q c d w h r e = ground arith
advance-IsShifted cancelled released q c d w h r e = ground arith
advance-IsShifted cancelled ended q c d w h r e = absurd (cc e)

total-middle :
    (w : TaskPhase → ℕ) (before after : List TaskPhase) (p : TaskPhase)
    → total w (before ++ p ∷ after) ≡ w p + total w (before ++ after)
total-middle w before after p =
    omega (arith, total-append w before (p ∷ after), total-append w before after)

Moves-IsCounted :
    {s t : Semaphore}
    → Moves s t
    → IsCounted s.counters s.tasks
    → IsCounted t.counters t.tasks × (t.counters.limit ≡ s.counters.limit)
unfolding submit
Moves-IsCounted {s} submits h =
    let added = λ (w : TaskPhase → ℕ). total-append w s.tasks (waiting ∷ []) in
    (
      record {
        used = omega (arith, h.used, added holds_slot);
        active = omega (arith, h.active, added runs);
        submitted = omega (arith, h.submitted, added (λ _. 1));
        completed = omega (arith, h.completed, added is_completed);
        within = h.within;
      },
      refl,
    )
Moves-IsCounted {s} (advances cancelled before after p q c e a) h =
    let old = λ (w : TaskPhase → ℕ). ap (total w) e ∙ total-middle w before after p in
    let new = λ (w : TaskPhase → ℕ). total-middle w before after q in
    let d =
      advance-IsShifted cancelled p q s.counters c h.within (omega (arith, h.used, old holds_slot))
        (omega (arith, h.active, old runs)) a in
    (
      record {
        used = omega (arith, h.used, d.used, old holds_slot, new holds_slot);
        active = omega (arith, h.active, d.active, old runs, new runs);
        submitted = omega (arith, h.submitted, d.submitted, old (λ _. 1), new (λ _. 1));
        completed = omega (arith, h.completed, d.completed, old is_completed, new is_completed);
        within = d.within;
      },
      d.limit,
    )

pub Reaches-IsCounted :
    {s t : Semaphore}
    → Reaches s t
    → IsCounted s.counters s.tasks
    → IsCounted t.counters t.tasks × (t.counters.limit ≡ s.counters.limit)
Reaches-IsCounted begins h = (h, refl)
Reaches-IsCounted (and_then earlier m) h =
    let (i, e) = Reaches-IsCounted earlier h in let (j, f) = Moves-IsCounted m i in (j, f ∙ e)

pub new-IsCounted : (n : ℕ) → IsCounted (new_semaphore n).counters (new_semaphore n).tasks
unfolding new_semaphore
new-IsCounted n = record {
  used = refl;
  active = refl;
  submitted = refl;
  completed = refl;
  within = omega arith;
}

pub total-le :
    (v w : TaskPhase → ℕ) (ps : List TaskPhase)
    → ((p : TaskPhase) → v p ≤ w p)
    → total v ps ≤ total w ps
total-le v w [] h = omega arith
total-le v w (p ∷ ps) h = omega (arith, h p, total-le v w ps h)

runs-le-holds_slot : (p : TaskPhase) → runs p ≤ holds_slot p
runs-le-holds_slot p = ground arith

is_completed-le-one : (p : TaskPhase) → is_completed p ≤ 1
is_completed-le-one p = ground arith

-- What every reachable state keeps: no more tasks run, or hold a slot, than the limit allows, the
-- counter of active tasks does not exceed the slots taken, and no more tasks are completed than
-- were submitted.
pub active-le-limit :
    (n : ℕ) (s : Semaphore)
    → Reaches (new_semaphore n) s
    → (s.counters.active ≤ s.counters.used)
      × (s.counters.used ≤ n)
      × (s.counters.completed ≤ s.counters.submitted)
unfolding new_semaphore
active-le-limit n s r =
    let (h, e) = Reaches-IsCounted r (new-IsCounted n) in
    (
      omega (arith, h.active, h.used, total-le runs holds_slot s.tasks runs-le-holds_slot),
      omega (arith, h.within, e),
      omega (
        arith,
        h.completed,
        h.submitted,
        total-le is_completed (λ _. 1) s.tasks is_completed-le-one,
      ),
    )
