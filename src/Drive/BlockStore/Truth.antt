-- ===== src/Drive/BlockStore/Truth.antt =====
-- What the calls return.
use proton_utils.Base.{
  ℕ, ◌==◌, ◌≡◌, refl, sym, Bool, true, false, Option, none, some, Bytes, Map, lookup, Result, ok,
  err, Bool-cases, Option-cases, inl, inr, nat_eq, list_eq, ==_iff, subst,
}
use proton_utils.Drive.BufferCache.{
  Key, key_eq, SlotState, slot_empty, slot_fetching, slot_clean, Slot, Cache, Outcome, returned,
  blocked, new_buffer_cache, get_slot, get, get_woken, reserve, invalidate,
}
use proton_utils.Drive.BlockStore.Slots.{
  AllSlots, put-AllSlots, put_error-AllSlots, reserve-AllSlots, invalidate_each-AllSlots,
  get_slot-slots, touch_clean-slots,
}
use proton_utils.Drive.BlockStore.{
  Phase, get_first, reserving, get_second, owning, alone, prefetching, dropped, wait_first,
  wait_second, finished, after_get, got, reserved, deliver, turn, Calls, take_turn, Happens, turns,
  invalidates, History, begins, and_then, first_phase, new_calls,
}

module _ {E : Type 0} (fetch : Key → Result E Bytes) where
  -- The block that a slot holds is what a fetch returns.
  abbrev IsBlock : Key → Option Bytes → Type 0
  IsBlock k none = Unit
  IsBlock k (some b) = fetch k ≡ ok b

  -- A slot holds no error, and no block but the one that a fetch returns.
  abbrev IsTrueSlot : Key → Slot E → Type 0
  IsTrueSlot k s = (s.error ≡ none) × IsBlock k s.block

  abbrev IsTrue : Map Key (Slot E) → Type 0
  IsTrue = AllSlots IsTrueSlot

  -- A call that has finished returns what the fetch returns.
  abbrev IsRight : Key → Phase E → Type 0
  IsRight k (finished r) = r ≡ fetch k
  IsRight k _ = Unit

  -- What `Get` returns is right, whatever the call does on a miss or a wait.
  abbrev IsGot : Key → Outcome E → Type 0
  IsGot k (returned (some b) none) = fetch k ≡ ok b
  IsGot k (returned none none) = Unit
  IsGot k (returned b (some e)) = ⊥
  IsGot k (blocked r) = Unit

  returned-IsGot :
      (k : Key) (b : Option Bytes) (e : Option E) → e ≡ none → IsBlock k b → IsGot k (returned b e)
  returned-IsGot k b (some e) h t = absurd (cc h)
  returned-IsGot k none none h t = tt
  returned-IsGot k (some b) none h t = t

  get_slot-IsGot :
      (k : Key) (state : SlotState) (s : Slot E) (c : Cache E)
      → s.error ≡ none
      → IsBlock k s.block
      → IsGot k (get_slot state s c).1
  unfolding get_slot
  get_slot-IsGot k slot_clean s c n b = returned-IsGot k s.block s.error n b
  get_slot-IsGot k slot_fetching s c n b = tt
  get_slot-IsGot k slot_empty s c n b = tt

  get-IsGot :
      (k : Key) (c : Cache E) → IsTrue c.slots → ((get k c).0.slots ≡ c.slots) × IsGot k (get k c).1
  unfolding get
  get-IsGot k c h = elim (Option-cases (lookup k c.slots)) [
    | inl absent ↦ rw (get, absent) (refl, tt)
    | inr (s, there) ↦
        let (n, b) = h k s there in
        rw (get, there) (get_slot-slots s.state s c, get_slot-IsGot k s.state s c n b)
  ]

  get_woken-IsGot :
      (k : Key) (c : Cache E)
      → IsTrue c.slots
      → ((get_woken k c).0.slots ≡ c.slots) × IsGot k (get_woken k c).1
  unfolding get_woken
  get_woken-IsGot k c h = elim (Option-cases (lookup k c.slots)) [
    | inl absent ↦ rw (get_woken, absent) (refl, tt)
    | inr (s, there) ↦
        let (n, b) = h k s there in
        rw (get_woken, there) (touch_clean-slots s.state s c, returned-IsGot k s.block s.error n b)
  ]

  -- The cache stays true, and the call's phase is right.
  abbrev IsGood : Key → Cache E × Phase E → Type 0
  IsGood k x = IsTrue x.0.slots × IsRight k x.1

  after_get-IsRight :
      (k : Key) (wait : ℕ → Phase E) (miss : Phase E) (o : Outcome E)
      → ((r : ℕ) → IsRight k (wait r))
      → IsRight k miss
      → IsGot k o
      → IsRight k (after_get wait miss o)
  unfolding after_get
  after_get-IsRight k wait miss (returned b (some e)) w m g = absurd g
  after_get-IsRight k wait miss (returned (some b) none) w m g = sym g
  after_get-IsRight k wait miss (returned none none) w m g = m
  after_get-IsRight k wait miss (blocked r) w m g = w r

  got-IsGood :
      (k : Key) (wait : ℕ → Phase E) (miss : Phase E) (c : Cache E) (x : Cache E × Outcome E)
      → IsTrue c.slots
      → (x.0.slots ≡ c.slots) × IsGot k x.1
      → ((r : ℕ) → IsRight k (wait r))
      → IsRight k miss
      → IsGood k (got wait miss x)
  unfolding got
  got-IsGood k wait miss c (d, o) h (same, g) w m =
      (subst IsTrue (sym same) h, after_get-IsRight k wait miss o w m g)

  reserved-IsGood :
      (k : Key) (otherwise : Phase E) (x : Cache E × Bool)
      → IsTrue x.0.slots
      → IsRight k otherwise
      → IsGood k (reserved otherwise x)
  unfolding reserved
  reserved-IsGood k otherwise (c, true) h r = (h, tt)
  reserved-IsGood k otherwise (c, false) h r = (h, r)

  deliver-IsGood :
      (k : Key) (r : Result E Bytes) (c : Cache E)
      → r ≡ fetch k
      → IsTrue c.slots
      → IsGood k (deliver k r c)
  unfolding deliver
  deliver-IsGood k (ok b) c f h = (put-AllSlots IsTrueSlot k b c (λ _ _. (refl, sym f)) h, f)
  deliver-IsGood k (err e) c f h = (put_error-AllSlots IsTrueSlot k c h, f)

  turn-IsGood :
      (k : Key) (p : Phase E) (c : Cache E)
      → IsTrue c.slots
      → IsRight k p
      → IsGood k (turn fetch k p c)
  unfolding turn
  turn-IsGood k get_first c h r =
      got-IsGood k wait_first reserving c (get k c) h (get-IsGot k c h) (λ _. tt) tt
  turn-IsGood k (wait_first i) c h r = elim (Bool-cases (c.is_closed i)) [
    | inl shut ↦
        rw (turn, shut)
          (got-IsGood k wait_first reserving c (get_woken k c) h (get_woken-IsGot k c h) (λ _. tt)
            tt)
    | inr waits ↦ rw (turn, waits) (h, tt)
  ]
  turn-IsGood k reserving c h r =
      reserved-IsGood k get_second (reserve k c)
        (reserve-AllSlots IsTrueSlot k c (λ _ _. (refl, tt)) h) tt
  turn-IsGood k get_second c h r =
      got-IsGood k wait_second alone c (get k c) h (get-IsGot k c h) (λ _. tt) tt
  turn-IsGood k (wait_second i) c h r = elim (Bool-cases (c.is_closed i)) [
    | inl shut ↦
        rw (turn, shut)
          (got-IsGood k wait_second alone c (get_woken k c) h (get_woken-IsGot k c h) (λ _. tt) tt)
    | inr waits ↦ rw (turn, waits) (h, tt)
  ]
  turn-IsGood k owning c h r = deliver-IsGood k (fetch k) c refl h
  turn-IsGood k alone c h r = (h, refl)
  turn-IsGood k prefetching c h r =
      reserved-IsGood k dropped (reserve k c)
        (reserve-AllSlots IsTrueSlot k c (λ _ _. (refl, tt)) h) tt
  turn-IsGood k dropped c h r = (h, tt)
  turn-IsGood k (finished x) c h r = (h, r)

  -- The cache is true, and the phase of every call is right.
  record IsRightAll (s : Calls E) : Type 0 where
    true_slots : IsTrue s.cache.slots
    right : (i : ℕ) → IsRight (s.key i) (s.phase i)

  Happens-IsRightAll : {s t : Calls E} → Happens fetch s t → IsRightAll s → IsRightAll t
  unfolding take_turn invalidate
  Happens-IsRightAll {s} (turns i) h =
      let (true_after, right_after) =
        turn-IsGood (s.key i) (s.phase i) s.cache h.true_slots (h.right i) in
      record {
        true_slots = true_after;
        right = λ j. elim (Bool-cases (i == j)) [
          | inl its ↦ rw its (
              subst (λ k. IsRight (s.key k) (turn fetch (s.key i) (s.phase i) s.cache).1)
                ((==_iff i j).0 its) right_after)
          | inr other ↦ rw other (h.right j)
        ];
      }
  Happens-IsRightAll {s} (invalidates link) h = record {
    true_slots = invalidate_each-AllSlots IsTrueSlot link s.cache.slots s.cache h.true_slots;
    right = h.right;
  }

  History-IsRightAll : {s t : Calls E} → History fetch s t → IsRightAll s → IsRightAll t
  History-IsRightAll begins h = h
  History-IsRightAll (and_then earlier step) h =
      Happens-IsRightAll step (History-IsRightAll earlier h)

  start-IsRight : (k : Key) (is_prefetch : Bool) → IsRight k (first_phase is_prefetch)
  start-IsRight k true = tt
  start-IsRight k false = tt

  -- However the turns of the calls and the invalidations interleave, from a new cache on: a call
  -- that has finished has returned what the fetch of its block returns, the block or the error.
  pub finished-fetch :
      (capacity : ℕ) (key : ℕ → Key) (is_prefetch : ℕ → Bool) (s : Calls E) (i : ℕ)
      (r : Result E Bytes)
      → History fetch (new_calls capacity key is_prefetch) s
      → s.phase i ≡ finished r
      → r ≡ fetch (s.key i)
  unfolding new_calls new_buffer_cache lookup
  finished-fetch capacity key is_prefetch s i r history e =
      let start : IsRightAll (new_calls capacity key is_prefetch) = record {
        true_slots = λ k slot found. absurd (cc found);
        right = λ j. start-IsRight (key j) (is_prefetch j);
      } in
      subst (IsRight (s.key i)) e ((History-IsRightAll history start).right i)
