-- ===== src/Drive/BufferCache/Readers.antt =====
-- The readers that wait for a block, over any sequence of the operations.
use proton_utils.Base.{
  ℕ, suc, ◌≡◌, ◌⊎◌, refl, ◌∙◌, Bool, true, false, Option, none, some, [], ◌∷◌, leb, Bytes, Map,
  lookup, insert, delete, size, has, IsNodup, lookup-insert, lookup-delete, nat_eq, list_eq, ◌=?◌,
  Bool-cases, Option-cases, inl, inr, arith,
}
use proton_utils.Drive.BufferCache.{
  Key, key_eq, SlotState, slot_empty, slot_fetching, slot_clean, Slot, Cache, clean_slot,
  fetching_slot, close, evict_locked, back, touch, get_slot, touch_clean, get, get_woken, put_over,
  put_new, make_room, put, put_error, reserve, reserve_new, invalidate, invalidate_each, drop_elem,
}
use proton_utils.Drive.BufferCache.Consistent.{IsConsistent, lookup-back}
use proton_utils.Drive.BufferCache.Putting.{make_room-absent}
use proton_utils.Drive.BufferCache.Runs.{
  Step, Steps, Steps-IsConsistent, gets, wakes, puts, fails, reserves, invalidates, stays, and_then,
}

module _ {E : Type 0} where
  -- A reader that waits on channel `r` for `k` is served: the channel is closed, or the slot is
  -- still being fetched and whoever completes it closes that channel.
  abbrev pub IsServed : Key → ℕ → Cache E → Type 0
  IsServed k r c =
      (c.is_closed r ≡ true)
      ⊎ ((s : Slot E) × (lookup k c.slots ≡ some s) × (s.elem ≡ none) × (s.ready ≡ r))

  evict_locked-IsServed :
      (k : Key) (r : ℕ) (c : Cache E)
      → IsConsistent c
      → IsServed k r c
      → IsServed k r (evict_locked c).0
  unfolding evict_locked
  evict_locked-IsServed k r c h (inl closed) = inl (ground arith)
  evict_locked-IsServed k r c h (inr (s, e, f, g)) = elim (Option-cases (back c.lru)) [
    | inl b ↦ rw (evict_locked, b) (inr (s, e, f, g))
    | inr ((id, j), b) ↦
        let (t, p, q) = h.listed id j (lookup-back c.lru id j h.nodup_lru b) in
        rw (evict_locked, b)
          (inr (s, ground (arith, lookup-delete j k c.slots, key_eq.beq_iff j k), f, g))
  ]

  make_room-IsServed :
      (k : Key) (r : ℕ) (c : Cache E)
      → IsConsistent c
      → IsServed k r c
      → IsServed k r (make_room c).0
  unfolding make_room
  make_room-IsServed k r c h w = elim (Bool-cases (leb c.cap (size c.slots))) [
    | inl full ↦ rw full (evict_locked-IsServed k r c h w)
    | inr room ↦ rw room w
  ]

  -- What closes channels, or leaves them, and keeps the other keys' slots, keeps the readers served.
  replaced-IsServed :
      (k j : Key) (r : ℕ) (c d : Cache E)
      → ((i : ℕ) → c.is_closed i ≡ true → d.is_closed i ≡ true)
      → (((j =? k) ≡ false) → lookup k d.slots ≡ lookup k c.slots)
      → ((s : Slot E) → lookup j c.slots ≡ some s → d.is_closed s.ready ≡ true)
      → IsServed k r c
      → IsServed k r d
  replaced-IsServed k j r c d grows others closes (inl closed) = inl (grows r closed)
  replaced-IsServed k j r c d grows others closes (inr (s, e, f, g)) = elim (Bool-cases (j =? k)) [
    | inl same ↦ inl (ground (arith, closes s, key_eq.beq_iff j k))
    | inr apart ↦ inr (s, others apart ∙ e, f, g)
  ]

  put_over-IsServed :
      (k j : Key) (b : Bytes) (s : Slot E) (o : Option ℕ) (r : ℕ) (c : Cache E)
      → lookup j c.slots ≡ some s
      → IsServed k r c
      → IsServed k r (put_over j b s o c)
  unfolding put_over
  put_over-IsServed k j b s none r c e w =
      replaced-IsServed k j r c (put_over j b s none c) (λ i p. ground arith)
        (λ n. ground (arith, lookup-insert j k (clean_slot b s.ready c.next) c.slots))
        (λ t p. ground arith) w
  put_over-IsServed k j b s (some id) r c e w =
      replaced-IsServed k j r c (put_over j b s (some id) c) (λ i p. ground arith)
        (λ n. ground (arith, lookup-insert j k (clean_slot b s.ready id) c.slots))
        (λ t p. ground arith) w

  put-IsServed :
      (k j : Key) (b : Bytes) (r : ℕ) (c : Cache E)
      → IsConsistent c
      → IsServed k r c
      → IsServed k r (put j b c)
  unfolding put_new put
  put-IsServed k j b r c h w = elim (Option-cases (lookup j c.slots)) [
    | inl e ↦
        let m = (make_room c).0 in
        rw (put, e)
          (replaced-IsServed k j r m (put_new j b m) (λ i p. ground arith)
            (λ n. ground (arith, lookup-insert j k (clean_slot b m.next m.next) m.slots))
            (λ t p. ground (arith, make_room-absent j c e)) (make_room-IsServed k r c h w))
    | inr (s, e) ↦ rw (put, e) (put_over-IsServed k j b s s.elem r c e w)
  ]

  put_error-IsServed :
      (k j : Key) (r : ℕ) (c : Cache E) → IsServed k r c → IsServed k r (put_error j c)
  unfolding put_error
  put_error-IsServed k j r c w = elim (Option-cases (lookup j c.slots)) [
    | inl e ↦ rw (put_error, e) w
    | inr (s, e) ↦
        rw (put_error, e)
          (replaced-IsServed k j r c
            (record c { slots = delete j c.slots; is_closed = close s.ready c.is_closed })
            (λ i p. ground arith) (λ n. ground (arith, lookup-delete j k c.slots))
            (λ t p. ground arith) w)
  ]

  reserve_new-IsServed :
      (k j : Key) (r : ℕ) (c : Cache E) (room : Bool)
      → lookup j c.slots ≡ none
      → IsServed k r c
      → IsServed k r (reserve_new j (c, room)).0
  unfolding reserve_new
  reserve_new-IsServed k j r c false e w = w
  reserve_new-IsServed k j r c true e w =
      replaced-IsServed k j r c
        (record c { slots = insert j (fetching_slot c.next) c.slots; next = suc c.next }) (λ i p. p)
        (λ n. ground (arith, lookup-insert j k (fetching_slot c.next) c.slots))
        (λ t p. ground arith) w

  reserve-IsServed :
      (k j : Key) (r : ℕ) (c : Cache E)
      → IsConsistent c
      → IsServed k r c
      → IsServed k r (reserve j c).0
  unfolding reserve
  reserve-IsServed k j r c h w = elim (Option-cases (lookup j c.slots)) [
    | inl e ↦
        rw (reserve, has, e)
          (reserve_new-IsServed k j r (make_room c).0 (make_room c).1 (make_room-absent j c e)
            (make_room-IsServed k r c h w))
    | inr (s, e) ↦ rw (reserve, has, e) w
  ]

  abbrev dropped : Key → Slot E → Cache E → Cache E
  dropped j s c = record c {
    slots = delete j c.slots;
    lru = drop_elem s.elem c.lru;
    is_closed = close s.ready c.is_closed;
  }

  invalidate_each-IsServed :
      (k : Key) (r : ℕ) (link : Bytes) (rest : Map Key (Slot E)) (c : Cache E)
      → IsNodup rest
      → ((j : Key) (s : Slot E) → lookup j rest ≡ some s → lookup j c.slots ≡ some s)
      → IsServed k r c
      → IsServed k r (invalidate_each link rest c)
  unfolding invalidate_each lookup
  invalidate_each-IsServed k r link [] c n m w = w
  invalidate_each-IsServed k r link ((j, s) ∷ rest) c n m w =
      let there = m j s (ground (arith, key_eq.beq_iff j j)) in
      elim (Bool-cases (j.0 =? link)) [
        | inl gone ↦
            rw (invalidate_each, gone)
              (invalidate_each-IsServed k r link rest (dropped j s c) n.1
                (λ i t p. ground (arith, lookup-delete j i c.slots, m i t, n.0, key_eq.beq_iff j i))
                (replaced-IsServed k j r c (dropped j s c) (λ i p. ground arith)
                  (λ n. ground (arith, lookup-delete j k c.slots)) (λ t p. ground arith) w))
        | inr kept ↦
            rw (invalidate_each, kept)
              (invalidate_each-IsServed k r link rest c n.1
                (λ i t p. m i t (ground (arith, key_eq.beq_iff j i))) w)
      ]

  touch_keeps :
      (o : Option ℕ) (c : Cache E)
      → ((touch o c).slots ≡ c.slots) × ((touch o c).is_closed ≡ c.is_closed)
  unfolding touch
  touch_keeps none c = (refl, refl)
  touch_keeps (some id) c = (refl, refl)

  get-slot_keeps :
      (st : SlotState) (s : Slot E) (c : Cache E)
      → ((get_slot st s c).0.slots ≡ c.slots) × ((get_slot st s c).0.is_closed ≡ c.is_closed)
  unfolding get_slot
  get-slot_keeps slot_clean s c = touch_keeps s.elem c
  get-slot_keeps slot_fetching s c = (refl, refl)
  get-slot_keeps slot_empty s c = (refl, refl)

  get_keeps :
      (k : Key) (c : Cache E)
      → ((get k c).0.slots ≡ c.slots) × ((get k c).0.is_closed ≡ c.is_closed)
  unfolding get
  get_keeps k c = elim (Option-cases (lookup k c.slots)) [
    | inl e ↦ rw (get, e) (refl, refl)
    | inr (s, e) ↦ rw (get, e) (get-slot_keeps s.state s c)
  ]

  touch_clean_keeps :
      (st : SlotState) (s : Slot E) (c : Cache E)
      → ((touch_clean st s c).slots ≡ c.slots) × ((touch_clean st s c).is_closed ≡ c.is_closed)
  unfolding touch_clean
  touch_clean_keeps slot_clean s c = touch_keeps s.elem c
  touch_clean_keeps slot_fetching s c = (refl, refl)
  touch_clean_keeps slot_empty s c = (refl, refl)

  get_woken_keeps :
      (k : Key) (c : Cache E)
      → ((get_woken k c).0.slots ≡ c.slots) × ((get_woken k c).0.is_closed ≡ c.is_closed)
  unfolding get_woken
  get_woken_keeps k c = elim (Option-cases (lookup k c.slots)) [
    | inl e ↦ rw (get_woken, e) (refl, refl)
    | inr (s, e) ↦ rw (get_woken, e) (touch_clean_keeps s.state s c)
  ]

  kept-IsServed :
      (k : Key) (r : ℕ) (c d : Cache E)
      → (d.slots ≡ c.slots) × (d.is_closed ≡ c.is_closed)
      → IsServed k r c
      → IsServed k r d
  kept-IsServed k r c d (p, q) w = rw (p, q) w

  Step-IsServed :
      (k : Key) (r : ℕ) {c d : Cache E}
      → Step c d
      → IsConsistent c
      → IsServed k r c
      → IsServed k r d
  Step-IsServed k r {c = c} (gets j) h w = kept-IsServed k r c (get j c).0 (get_keeps j c) w
  Step-IsServed k r {c = c} (wakes j) h w =
      kept-IsServed k r c (get_woken j c).0 (get_woken_keeps j c) w
  Step-IsServed k r {c = c} (puts j b) h w = put-IsServed k j b r c h w
  Step-IsServed k r {c = c} (fails j f) h w = put_error-IsServed k j r c w
  Step-IsServed k r {c = c} (reserves j) h w = reserve-IsServed k j r c h w
  Step-IsServed k r {c = c} (invalidates link) h w =
      unfold invalidate in invalidate_each-IsServed k r link c.slots c h.nodup_slots (λ j s e. e) w

  -- Whatever operations follow on a consistent cache, a reader that waits on `k` is not forgotten:
  -- its channel is closed, or the slot is still being fetched under the same channel.
  pub no_reader_is_lost :
      (k : Key) (r : ℕ) {c d : Cache E}
      → Steps c d
      → IsConsistent c
      → IsServed k r c
      → IsServed k r d
  no_reader_is_lost k r stays h w = w
  no_reader_is_lost k r (and_then steps s) h w =
      Step-IsServed k r s (Steps-IsConsistent steps h) (no_reader_is_lost k r steps h w)
