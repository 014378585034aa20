-- ===== src/Drive/BufferCache/Stale.antt =====
-- `PutError`: what readers see of it, and what becomes of the list where the slot is a clean one.
use proton_utils.Base.{
  ℕ, suc, ◌≡◌, refl, ap, ◌∙◌, Bool, true, false, none, some, leb, lookup, insert, delete, size, has,
  lookup-insert, lookup-delete, ◌=?◌, nat_eq, subst, Option-cases, inl, inr, arith,
}
use proton_utils.Drive.BufferCache.{
  Key, key_eq, Slot, Cache, fetching_slot, back, evict_locked, get, get_woken, make_room, put_error,
  reserve, reserve_new, returned,
}
use proton_utils.Drive.BufferCache.Consistent.{IsConsistent}
use proton_utils.Drive.BufferCache.Readers.{IsServed}

module _ {E : Type 0} where
  put_error-absent : (k : Key) (c : Cache E) → lookup k (put_error k c).slots ≡ none
  unfolding put_error
  put_error-absent k c = elim (Option-cases (lookup k c.slots)) [
    | inl e ↦ rw (put_error, e) e
    | inr (s, e) ↦ rw (put_error, e) (ground (arith, lookup-delete k k c.slots, key_eq.beq_iff k k))
  ]

  -- After `PutError` a reader gets a miss and no error, whether it calls `Get` then or is woken up
  -- from one.
  pub get-put_error :
      (k : Key) (c : Cache E)
      → ((get k (put_error k c)).1 ≡ returned none none)
        × ((get_woken k (put_error k c)).1 ≡ returned none none)
  unfolding get get_woken
  get-put_error k c = let e = put_error-absent k c in (rw (get, e) refl, rw (get_woken, e) refl)

  -- On a slot that has an element of the list, `PutError` leaves the element behind: the list and
  -- the map no longer agree.
  pub put_error-not-IsConsistent :
      (k : Key) (c : Cache E) (s : Slot E) (id : ℕ)
      → IsConsistent c
      → lookup k c.slots ≡ some s
      → s.elem ≡ some id
      → ¬ IsConsistent (put_error k c)
  unfolding put_error
  put_error-not-IsConsistent k c s id h e f bad =
      let listed = (h.clean k s id e f).1 in
      let same : (put_error k c).lru ≡ c.lru = rw (put_error, e) refl in
      let (t, there, _) = bad.listed id k (ap (lookup id) same ∙ listed) in
      cc (there, put_error-absent k c)

  evict_locked-back :
      (c : Cache E) (id : ℕ) (k : Key)
      → back c.lru ≡ some (id, k)
      → evict_locked c ≡ (record c { lru = delete id c.lru; slots = delete k c.slots }, true)
  unfolding evict_locked
  evict_locked-back c id k e = rw (evict_locked, e) refl

  abbrev evicted_for : Key → Key → ℕ → Cache E → Cache E
  evicted_for j k id c = record c {
    lru = delete id c.lru;
    slots = insert j (fetching_slot c.next) (delete k c.slots);
    next = suc c.next;
  }

  reserve-evicts :
      (j : Key) (c : Cache E) (id : ℕ) (k : Key)
      → has j c.slots ≡ false
      → leb c.cap (size c.slots) ≡ true
      → back c.lru ≡ some (id, k)
      → reserve j c ≡ (evicted_for j k id c, true)
  unfolding reserve make_room reserve_new
  reserve-evicts j c id k a full e = rw (a, full) (ap (reserve_new j) (evict_locked-back c id k e))

  absent-not-IsServed :
      (k : Key) (r : ℕ) (c : Cache E)
      → lookup k c.slots ≡ none
      → c.is_closed r ≡ false
      → ¬ IsServed k r c
  absent-not-IsServed k r c e o (inl closed) = cc
  absent-not-IsServed k r c e o (inr (s, there, _, _)) = cc

  -- Such an element at the end of the list is evicted by its key: if the block is by then being
  -- fetched again, the `Reserve` of another block in a full cache removes its slot, and a reader
  -- that waits on its channel is served by nobody.
  pub reserve_loses_reader :
      (j k : Key) (c : Cache E) (id r : ℕ)
      → has j c.slots ≡ false
      → (j =? k) ≡ false
      → leb c.cap (size c.slots) ≡ true
      → back c.lru ≡ some (id, k)
      → lookup k c.slots ≡ some (fetching_slot r)
      → c.is_closed r ≡ false
      → IsServed k r c × ((reserve j c).1 ≡ true) × (¬ IsServed k r (reserve j c).0)
  reserve_loses_reader j k c id r a n full e f o =
      let done = reserve-evicts j c id k a full e in
      (
        inr (fetching_slot r, f, refl, refl),
        ap (λ (x : Cache E × Bool). x.1) done,
        λ w.
            absent-not-IsServed k r (evicted_for j k id c)
              (lookup-insert j k (fetching_slot c.next) (delete k c.slots)
                ∙ rw n (lookup-delete k k c.slots ∙ rw ((key_eq.beq_iff k k).1 refl) refl))
              o (subst (λ (x : Cache E × Bool). IsServed k r x.0) done w),
      )
