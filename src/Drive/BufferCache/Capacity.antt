-- ===== src/Drive/BufferCache/Capacity.antt =====
-- What the cache returns, and how many slots it may hold.
use proton_utils.Base.{
  ℕ, suc, ◌≤◌, ◌<◌, ◌≡◌, ◌⊎◌, refl, sym, ◌∙◌, Bool, true, false, Option, none, some, [], ◌∷◌, leb,
  Bytes, Map, lookup, size, has, lookup-insert, size-insert, size-delete, nat_eq, list_eq,
  Bool-cases, Option-cases, inl, inr, arith,
}
use proton_utils.Drive.BufferCache.{
  Key, key_eq, Slot, Cache, clean_slot, fetching_slot, evict_locked, back, get_slot, get, get_woken,
  put_over, put_new, make_room, put, reserve, reserve_new, returned, blocked,
}
use proton_utils.Drive.BufferCache.Consistent.{IsConsistent, lookup-back}
use proton_utils.Drive.BufferCache.Putting.{make_room-absent}

back-none : (lru : Map ℕ Key) → back lru ≡ none → lru ≡ []
unfolding back
back-none [] h = refl
back-none (e ∷ []) h = cc
back-none (e ∷ f ∷ l) h = ground (arith, back-none (f ∷ l) h)

module _ {E : Type 0} where
  put_over-slot :
      (k : Key) (b : Bytes) (s : Slot E) (o : Option ℕ) (c : Cache E)
      → (id : ℕ) × (lookup k (put_over k b s o c).slots ≡ some (clean_slot b s.ready id))
  unfolding put_over
  put_over-slot k b s none c = (
    c.next,
    ground (arith, lookup-insert k k (clean_slot b s.ready c.next) c.slots, key_eq.beq_iff k k),
  )
  put_over-slot k b s (some id) c =
      (id, ground (arith, lookup-insert k k (clean_slot b s.ready id) c.slots, key_eq.beq_iff k k))

  pub put-slot :
      (k : Key) (b : Bytes) (c : Cache E)
      → (r : ℕ) × (id : ℕ) × (lookup k (put k b c).slots ≡ some (clean_slot b r id))
  unfolding put put_new
  put-slot k b c = elim (Option-cases (lookup k c.slots)) [
    | inl e ↦
        let m = (make_room c).0 in
        (
          m.next,
          m.next,
          rw (put, e)
              (ground (
                arith,
                lookup-insert k k (clean_slot b m.next m.next) m.slots,
                key_eq.beq_iff k k,
              )),
        )
    | inr (s, e) ↦ let (id, p) = put_over-slot k b s s.elem c in (s.ready, id, rw (put, e) p)
  ]

  -- After `Put`, both a `Get` and a `Get` that the `Put` wakes up return the block and no error.
  pub get-put :
      (k : Key) (b : Bytes) (c : Cache E)
      → ((get k (put k b c)).1 ≡ returned (some b) none)
        × ((get_woken k (put k b c)).1 ≡ returned (some b) none)
  unfolding get get_woken get_slot
  get-put k b c = let (r, id, e) = put-slot k b c in (rw (get, e) refl, rw (get_woken, e) refl)

  reserve_new-slot :
      (k : Key) (c : Cache E) (room : Bool)
      → (reserve_new k (c, room)).1 ≡ true
      → lookup k (reserve_new k (c, room)).0.slots ≡ some (fetching_slot c.next)
  unfolding reserve_new
  reserve_new-slot k c false h = cc
  reserve_new-slot k c true h =
      ground (arith, lookup-insert k k (fetching_slot c.next) c.slots, key_eq.beq_iff k k)

  reserve-slot :
      (k : Key) (c : Cache E)
      → (reserve k c).1 ≡ true
      → lookup k (reserve k c).0.slots ≡ some (fetching_slot (make_room c).0.next)
  unfolding reserve
  reserve-slot k c h = elim (Bool-cases (has k c.slots)) [
    | inl there ↦ ground (arith, there)
    | inr absent ↦
        rw (reserve, absent)
          (reserve_new-slot k (make_room c).0 (make_room c).1 (sym (rw (reserve, absent) refl) ∙ h))
  ]

  reserve-there :
      (k : Key) (c : Cache E) (s : Slot E) → lookup k c.slots ≡ some s → (reserve k c).1 ≡ false
  unfolding reserve
  reserve-there k c s e = rw (reserve, has, e) refl

  -- A block that one caller reserved is not reserved again, and a reader waits for it on the
  -- channel that the reservation made.
  pub reserve-excludes :
      (k : Key) (c : Cache E)
      → (reserve k c).1 ≡ true
      → ((reserve k (reserve k c).0).1 ≡ false)
        × ((get k (reserve k c).0).1 ≡ blocked (make_room c).0.next)
  unfolding get get_slot
  reserve-excludes k c h =
      let e = reserve-slot k c h in
      (reserve-there k (reserve k c).0 (fetching_slot (make_room c).0.next) e, rw (get, e) refl)

  -- `evictLocked` takes one slot away, or there is no clean slot.
  evict_locked-size :
      (c : Cache E)
      → IsConsistent c
      → ((evict_locked c).1 ≡ true) × (size c.slots ≡ suc (size (evict_locked c).0.slots))
        ⊎ ((evict_locked c ≡ (c, false)) × (c.lru ≡ []))
  unfolding evict_locked
  evict_locked-size c h = elim (Option-cases (back c.lru)) [
    | inl e ↦ inr (rw (evict_locked, e) refl, back-none c.lru e)
    | inr ((id, k), e) ↦
        let (s, a, b) = h.listed id k (lookup-back c.lru id k h.nodup_lru e) in
        inl (rw (evict_locked, e) (refl, ground (arith, size-delete k c.slots h.nodup_slots)))
  ]

  make_room-size :
      (c : Cache E)
      → IsConsistent c
      → 1 ≤ c.cap
      → size c.slots ≤ c.cap
      → (size (make_room c).0.slots < c.cap)
        ⊎ (((make_room c).1 ≡ false) × (c.lru ≡ []) × (size (make_room c).0.slots ≤ c.cap))
  unfolding make_room
  make_room-size c h p q = elim (Bool-cases (leb c.cap (size c.slots))) [
    | inl full ↦ elim (evict_locked-size c h) [
      | inl (r, e) ↦ rw full (inl (omega arith))
      | inr (r, e) ↦ rw full (rw r (inr (refl, e, q)))
    ]
    | inr room ↦ rw room (inl (ground arith))
  ]

  put_over-size :
      (k : Key) (b : Bytes) (s : Slot E) (o : Option ℕ) (c : Cache E)
      → lookup k c.slots ≡ some s
      → size (put_over k b s o c).slots ≡ size c.slots
  unfolding put_over
  put_over-size k b s none c e = ground (arith, size-insert k (clean_slot b s.ready c.next) c.slots)
  put_over-size k b s (some id) c e =
      ground (arith, size-insert k (clean_slot b s.ready id) c.slots)

  put-size :
      (k : Key) (b : Bytes) (c : Cache E)
      → IsConsistent c
      → 1 ≤ c.cap
      → size c.slots ≤ c.cap
      → (size (put k b c).slots ≤ c.cap) ⊎ ((c.lru ≡ []) × (size (put k b c).slots ≤ suc c.cap))
  unfolding put put_new
  put-size k b c h p q = elim (Option-cases (lookup k c.slots)) [
    | inl e ↦
        let m = (make_room c).0 in
        let grown = size-insert k (clean_slot b m.next m.next) m.slots in
        let absent = make_room-absent k c e in
        rw (put, e)
          (elim (make_room-size c h p q) [
            | inl room ↦ inl (ground (arith, grown, absent))
            | inr (_, empty, bound) ↦ inr (empty, ground (arith, grown, absent))
          ])
    | inr (s, e) ↦ rw (put, e) (inl (ground (arith, put_over-size k b s s.elem c e)))
  ]

  reserve_new-size :
      (k : Key) (c : Cache E) (room : Bool) (cap : ℕ)
      → lookup k c.slots ≡ none
      → (size c.slots < cap) ⊎ ((room ≡ false) × (size c.slots ≤ cap))
      → size (reserve_new k (c, room)).0.slots ≤ cap
  unfolding reserve_new
  reserve_new-size k c true cap e p = ground (arith, size-insert k (fetching_slot c.next) c.slots)
  reserve_new-size k c false cap e p = ground arith

  reserve-size :
      (k : Key) (c : Cache E)
      → IsConsistent c
      → 1 ≤ c.cap
      → size c.slots ≤ c.cap
      → size (reserve k c).0.slots ≤ c.cap
  unfolding reserve
  reserve-size k c h p q = elim (Option-cases (lookup k c.slots)) [
    | inl e ↦
        rw (reserve, has, e)
          (reserve_new-size k (make_room c).0 (make_room c).1 c.cap (make_room-absent k c e)
            (elim (make_room-size c h p q) [
              | inl room ↦ inl room
              | inr (r, _, bound) ↦ inr (r, bound)
            ]))
    | inr (s, e) ↦ rw (reserve, has, e) q
  ]

  -- On a consistent cache that is not over its capacity, `Reserve` stays within it, and `Put` does
  -- unless no slot is clean, when it may hold one more.
  pub capacity_kept :
      (k : Key) (b : Bytes) (c : Cache E)
      → IsConsistent c
      → 1 ≤ c.cap
      → size c.slots ≤ c.cap
      → (size (reserve k c).0.slots ≤ c.cap)
        × ((size (put k b c).slots ≤ c.cap) ⊎ ((c.lru ≡ []) × (size (put k b c).slots ≤ suc c.cap)))
  capacity_kept k b c h p q = (reserve-size k c h p q, put-size k b c h p q)
