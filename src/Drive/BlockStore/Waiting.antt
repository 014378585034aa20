-- ===== src/Drive/BlockStore/Waiting.antt =====
-- Where no fetch fails: the calls' turns as operations of the cache, and the calls that wait.
use proton_utils.Base.{
  ℕ, ◌==◌, ◌≡◌, refl, sym, Bool, true, false, none, some, Bytes, lookup, Result, ok, Bool-cases,
  Option-cases, inl, inr, nat_eq, list_eq, subst, ==_iff,
}
use proton_utils.Drive.BufferCache.{
  Key, key_eq, SlotState, slot_empty, slot_fetching, slot_clean, Slot, Cache, Outcome, returned,
  blocked, new_buffer_cache, get_slot, get, get_woken, reserve,
}
use proton_utils.Drive.BufferCache.Consistent.{IsConsistent}
use proton_utils.Drive.BufferCache.Runs.{
  Step, gets, wakes, puts, reserves, invalidates, Steps, stays, and_then, cache_stays-IsConsistent,
}
use proton_utils.Drive.BufferCache.Readers.{IsServed, no_reader_is_lost}
use proton_utils.Drive.BlockStore.{
  Phase, get_first, reserving, get_second, owning, alone, prefetching, dropped, wait_first,
  wait_second, finished, after_get, got, reserved, deliver, turn, Calls, take_turn, Happens, turns,
  History, begins, first_phase, new_calls,
}

module _ {E : Type 0} where
  one : {c d : Cache E} → Step c d → Steps c d
  one s = and_then stays s

  Steps-trans : {c d e : Cache E} → Steps c d → Steps d e → Steps c e
  Steps-trans p stays = p
  Steps-trans p (and_then q s) = and_then (Steps-trans p q) s

  pub got-cache :
      (wait : ℕ → Phase E) (miss : Phase E) (x : Cache E × Outcome E) → (got wait miss x).0 ≡ x.0
  unfolding got
  got-cache wait miss (c, o) = refl

  pub reserved-cache : (otherwise : Phase E) (x : Cache E × Bool) → (reserved otherwise x).0 ≡ x.0
  unfolding reserved
  reserved-cache otherwise (c, true) = refl
  reserved-cache otherwise (c, false) = refl

  -- A phase that waits, waits on a channel that is served.
  abbrev pub Awaits : Key → Phase E → Cache E → Type 0
  Awaits k (wait_first r) c = IsServed k r c
  Awaits k (wait_second r) c = IsServed k r c
  Awaits k _ c = Unit

  Awaits-Steps :
      (k : Key) (p : Phase E) {c d : Cache E}
      → Steps c d
      → IsConsistent c
      → Awaits k p c
      → Awaits k p d
  Awaits-Steps k (wait_first r) s h w = no_reader_is_lost k r s h w
  Awaits-Steps k (wait_second r) s h w = no_reader_is_lost k r s h w
  Awaits-Steps k get_first s h w = tt
  Awaits-Steps k reserving s h w = tt
  Awaits-Steps k get_second s h w = tt
  Awaits-Steps k owning s h w = tt
  Awaits-Steps k alone s h w = tt
  Awaits-Steps k prefetching s h w = tt
  Awaits-Steps k dropped s h w = tt
  Awaits-Steps k (finished x) s h w = tt

  -- If `Get` blocks, it blocks on a channel that is served.
  abbrev Answers : Key → Outcome E → Cache E → Type 0
  Answers k (returned b e) c = Unit
  Answers k (blocked r) c = IsServed k r c

  get_slot-Answers :
      (k : Key) (state : SlotState) (s : Slot E) (c : Cache E)
      → lookup k c.slots ≡ some s
      → (state ≡ slot_fetching → s.elem ≡ none)
      → Answers k (get_slot state s c).1 (get_slot state s c).0
  unfolding get_slot
  get_slot-Answers k slot_clean s c e f = tt
  get_slot-Answers k slot_fetching s c e f = inr (s, e, f refl, refl)
  get_slot-Answers k slot_empty s c e f = tt

  get-Answers : (k : Key) (c : Cache E) → IsConsistent c → Answers k (get k c).1 (get k c).0
  unfolding get
  get-Answers k c h = elim (Option-cases (lookup k c.slots)) [
    | inl absent ↦ rw (get, absent) tt
    | inr (s, there) ↦
        rw (get, there)
          (get_slot-Answers k s.state s c there (λ e. elim (Option-cases s.elem) [
            | inl n ↦ n
            | inr (id, l) ↦ absurd (cc (e, (h.clean k s id there l).0))
          ]))
  ]

  get_woken-Answers : (k : Key) (c : Cache E) → Answers k (get_woken k c).1 (get_woken k c).0
  unfolding get_woken
  get_woken-Answers k c = elim (Option-cases (lookup k c.slots)) [
    | inl absent ↦ rw (get_woken, absent) tt
    | inr (s, there) ↦ rw (get_woken, there) tt
  ]

  after_get-Awaits :
      (k : Key) (wait : ℕ → Phase E) (miss : Phase E) (c : Cache E) (o : Outcome E)
      → ((r : ℕ) → IsServed k r c → Awaits k (wait r) c)
      → Awaits k miss c
      → Answers k o c
      → Awaits k (after_get wait miss o) c
  unfolding after_get
  after_get-Awaits k wait miss c (returned b (some e)) w m a = tt
  after_get-Awaits k wait miss c (returned (some b) none) w m a = tt
  after_get-Awaits k wait miss c (returned none none) w m a = m
  after_get-Awaits k wait miss c (blocked r) w m a = w r a

  got-Awaits :
      (k : Key) (wait : ℕ → Phase E) (miss : Phase E) (x : Cache E × Outcome E)
      → ((r : ℕ) → IsServed k r x.0 → Awaits k (wait r) x.0)
      → Awaits k miss x.0
      → Answers k x.1 x.0
      → Awaits k (got wait miss x).1 (got wait miss x).0
  unfolding got
  got-Awaits k wait miss (c, o) w m a = after_get-Awaits k wait miss c o w m a

  reserved-Awaits :
      (k : Key) (otherwise : Phase E) (x : Cache E × Bool)
      → Awaits k otherwise x.0
      → Awaits k (reserved otherwise x).1 (reserved otherwise x).0
  unfolding reserved
  reserved-Awaits k otherwise (c, true) w = tt
  reserved-Awaits k otherwise (c, false) w = w

module _ {E : Type 0} (fetch : Key → Result E Bytes)
    (good : (k : Key) → (b : Bytes) × (fetch k ≡ ok b)) where
  turn-Steps : (k : Key) (p : Phase E) (c : Cache E) → Steps c (turn fetch k p c).0
  unfolding turn deliver
  turn-Steps k get_first c =
      subst (Steps c) (sym (got-cache wait_first reserving (get k c))) (one (gets k))
  turn-Steps k (wait_first r) c = elim (Bool-cases (c.is_closed r)) [
    | inl shut ↦
        rw (turn, shut)
          (subst (Steps c) (sym (got-cache wait_first reserving (get_woken k c))) (one (wakes k)))
    | inr waits ↦ rw (turn, waits) stays
  ]
  turn-Steps k reserving c =
      subst (Steps c) (sym (reserved-cache get_second (reserve k c))) (one (reserves k))
  turn-Steps k get_second c =
      subst (Steps c) (sym (got-cache wait_second alone (get k c))) (one (gets k))
  turn-Steps k (wait_second r) c = elim (Bool-cases (c.is_closed r)) [
    | inl shut ↦
        rw (turn, shut)
          (subst (Steps c) (sym (got-cache wait_second alone (get_woken k c))) (one (wakes k)))
    | inr waits ↦ rw (turn, waits) stays
  ]
  turn-Steps k owning c =
      let (b, e) = good k in subst (λ x. Steps c (deliver k x c).0) (sym e) (one (puts k b))
  turn-Steps k alone c = stays
  turn-Steps k prefetching c =
      subst (Steps c) (sym (reserved-cache dropped (reserve k c))) (one (reserves k))
  turn-Steps k dropped c = stays
  turn-Steps k (finished x) c = stays

  turn-Awaits :
      (k : Key) (p : Phase E) (c : Cache E)
      → IsConsistent c
      → Awaits k p c
      → Awaits k (turn fetch k p c).1 (turn fetch k p c).0
  unfolding turn deliver
  turn-Awaits k get_first c h w =
      got-Awaits k wait_first reserving (get k c) (λ r a. a) tt (get-Answers k c h)
  turn-Awaits k (wait_first r) c h w = elim (Bool-cases (c.is_closed r)) [
    | inl shut ↦
        rw (turn, shut)
          (got-Awaits k wait_first reserving (get_woken k c) (λ i a. a) tt (get_woken-Answers k c))
    | inr waits ↦ rw (turn, waits) w
  ]
  turn-Awaits k reserving c h w = reserved-Awaits k get_second (reserve k c) tt
  turn-Awaits k get_second c h w =
      got-Awaits k wait_second alone (get k c) (λ r a. a) tt (get-Answers k c h)
  turn-Awaits k (wait_second r) c h w = elim (Bool-cases (c.is_closed r)) [
    | inl shut ↦
        rw (turn, shut)
          (got-Awaits k wait_second alone (get_woken k c) (λ i a. a) tt (get_woken-Answers k c))
    | inr waits ↦ rw (turn, waits) w
  ]
  turn-Awaits k owning c h w =
      let (b, e) = good k in subst (λ x. Awaits k (deliver k x c).1 (deliver k x c).0) (sym e) tt
  turn-Awaits k alone c h w = tt
  turn-Awaits k prefetching c h w = reserved-Awaits k dropped (reserve k c) tt
  turn-Awaits k dropped c h w = tt
  turn-Awaits k (finished x) c h w = tt

  -- The cache comes from a new one by its operations, and what calls wait on is served.
  pub record IsServedAll (capacity : ℕ) (s : Calls E) : Type 0 where
    pub steps : Steps (new_buffer_cache E capacity) s.cache
    pub awaits : (i : ℕ) → Awaits (s.key i) (s.phase i) s.cache

  Happens-IsServedAll :
      (capacity : ℕ) {s t : Calls E}
      → Happens fetch s t
      → IsServedAll capacity s
      → IsServedAll capacity t
  unfolding take_turn
  Happens-IsServedAll capacity {s} (turns i) h =
      let step = turn-Steps (s.key i) (s.phase i) s.cache in
      let consistent = cache_stays-IsConsistent capacity s.cache h.steps in
      let mine = turn-Awaits (s.key i) (s.phase i) s.cache consistent (h.awaits i) in
      let next = turn fetch (s.key i) (s.phase i) s.cache in
      record {
        steps = Steps-trans h.steps step;
        awaits = λ j. elim (Bool-cases (i == j)) [
          | inl its ↦ rw its (subst (λ k. Awaits (s.key k) next.1 next.0) ((==_iff i j).0 its) mine)
          | inr other ↦ rw other (Awaits-Steps (s.key j) (s.phase j) step consistent (h.awaits j))
        ];
      }
  Happens-IsServedAll capacity {s} (Happens.invalidates link) h =
      let step = one (invalidates link) in
      let consistent = cache_stays-IsConsistent capacity s.cache h.steps in
      record {
        steps = Steps-trans h.steps step;
        awaits = λ j. Awaits-Steps (s.key j) (s.phase j) step consistent (h.awaits j);
      }

  start-Awaits : (k : Key) (is_prefetch : Bool) (c : Cache E) → Awaits k (first_phase is_prefetch) c
  start-Awaits k true c = tt
  start-Awaits k false c = tt

  pub History-IsServedAll :
      (capacity : ℕ) (key : ℕ → Key) (is_prefetch : ℕ → Bool) {s : Calls E}
      → History fetch (new_calls capacity key is_prefetch) s
      → IsServedAll capacity s
  unfolding new_calls
  History-IsServedAll capacity key is_prefetch begins = record {
    steps = stays;
    awaits = λ i. start-Awaits (key i) (is_prefetch i) (new_buffer_cache E capacity);
  }
  History-IsServedAll capacity key is_prefetch (History.and_then earlier step) =
      Happens-IsServedAll capacity step (History-IsServedAll capacity key is_prefetch earlier)
