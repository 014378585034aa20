-- ===== src/Drive/BlockStore/Progress.antt =====
-- Where no fetch fails: a call that waits does not wait for nothing.
use proton_utils.Base.{
  ℕ, ◌≡◌, refl, sym, ap, ◌∙◌, ◌⊎◌, Bool, true, some, Bytes, lookup, Result, ok, inl, inr, nat_eq,
  list_eq, subst,
}
use proton_utils.Drive.BufferCache.{Key, key_eq, Slot, new_buffer_cache, invalidate}
use proton_utils.Drive.BufferCache.Readers.{IsServed}
use proton_utils.Drive.BlockStore.Slots.{AllSlots, invalidate_each-AllSlots}
use proton_utils.Drive.BlockStore.Waiting.{Awaits, IsServedAll, History-IsServedAll}
use proton_utils.Drive.BlockStore.Owners.{OwnedAt, IsOwned, turn-IsOwned, put-closes}
use proton_utils.Drive.BlockStore.{
  owning, wait_first, wait_second, deliver, turn, Calls, take_turn, Happens, turns, invalidates,
  History, begins, and_then, new_calls,
}

module _ {E : Type 0} (fetch : Key → Result E Bytes)
    (good : (k : Key) → (b : Bytes) × (fetch k ≡ ok b)) where
  abbrev IsOwnedAll : Calls E → Type 0
  IsOwnedAll s = AllSlots (IsOwned s.key s.phase) s.cache.slots

  Happens-IsOwnedAll : {s t : Calls E} → Happens fetch s t → IsOwnedAll s → IsOwnedAll t
  unfolding take_turn invalidate
  Happens-IsOwnedAll {s} (turns i) h =
      turn-IsOwned s.key fetch good s.phase i s.cache (s.phase i) refl h
  Happens-IsOwnedAll {s} (invalidates link) h =
      invalidate_each-AllSlots (IsOwned s.key s.phase) link s.cache.slots s.cache h

  History-IsOwnedAll :
      (capacity : ℕ) (key : ℕ → Key) (is_prefetch : ℕ → Bool) {s : Calls E}
      → History fetch (new_calls capacity key is_prefetch) s
      → IsOwnedAll s
  unfolding new_calls new_buffer_cache lookup
  History-IsOwnedAll capacity key is_prefetch begins = λ k slot found. absurd (cc found)
  History-IsOwnedAll capacity key is_prefetch (and_then earlier step) =
      Happens-IsOwnedAll step (History-IsOwnedAll capacity key is_prefetch earlier)

  owner_closes :
      (s : Calls E) (j : ℕ) (slot : Slot E)
      → s.phase j ≡ owning
      → lookup (s.key j) s.cache.slots ≡ some slot
      → (take_turn fetch j s).cache.is_closed slot.ready ≡ true
  unfolding take_turn turn deliver
  owner_closes s j slot o e =
      let (b, f) = good (s.key j) in
      ap (λ p. (turn fetch (s.key j) p s.cache).0.is_closed slot.ready) o
      ∙ ap (λ x. (deliver (s.key j) x s.cache).0.is_closed slot.ready) f
      ∙ put-closes (s.key j) b s.cache slot e

  waiting-IsServed :
      (capacity : ℕ) (s : Calls E) (i r : ℕ)
      → IsServedAll fetch good capacity s
      → (s.phase i ≡ wait_first r) ⊎ (s.phase i ≡ wait_second r)
      → IsServed (s.key i) r s.cache
  waiting-IsServed capacity s i r h (inl e) = subst (λ p. Awaits (s.key i) p s.cache) e (h.awaits i)
  waiting-IsServed capacity s i r h (inr e) = subst (λ p. Awaits (s.key i) p s.cache) e (h.awaits i)

  -- If no fetch fails, then however the turns of the calls and the invalidations interleave, from
  -- a new cache on, a call that waits can go on, since its channel is closed, or it is waiting for
  -- a call that owns its block's slot and whose next turn closes that channel.
  pub waiting_goes_on :
      (capacity : ℕ) (key : ℕ → Key) (is_prefetch : ℕ → Bool) (s : Calls E) (i r : ℕ)
      → History fetch (new_calls capacity key is_prefetch) s
      → (s.phase i ≡ wait_first r) ⊎ (s.phase i ≡ wait_second r)
      → (s.cache.is_closed r ≡ true)
        ⊎ ((j : ℕ) × (s.key j ≡ s.key i)
            × (s.phase j ≡ owning)
            × ((take_turn fetch j s).cache.is_closed r ≡ true))
  unfolding take_turn
  waiting_goes_on capacity key is_prefetch s i r history w =
      let served = History-IsServedAll fetch good capacity key is_prefetch history in
      elim (waiting-IsServed capacity s i r served w) [
        | inl closed ↦ inl closed
        | inr (slot, there, no_element, its) ↦
            let (j, same, o) =
              subst (OwnedAt s.key s.phase (s.key i)) no_element
                (History-IsOwnedAll capacity key is_prefetch history (s.key i) slot there) in
            let found : lookup (s.key j) s.cache.slots ≡ some slot =
              ap (λ k. lookup k s.cache.slots) same ∙ there in
            inr (
              j,
              same,
              o,
              ap (take_turn fetch j s).cache.is_closed (sym its) ∙ owner_closes s j slot o found,
            )
      ]
