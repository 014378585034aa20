-- ===== src/Drive/BufferCache/Removing.antt =====
-- The map, the list and the channels under `Reserve` and `Invalidate`.
use proton_utils.Base.{
  ℕ, suc, ◌≡◌, refl, Bool, true, false, Option, none, some, [], ◌∷◌, Bytes, Map, lookup, insert,
  delete, has, IsNodup, lookup-insert, lookup-delete, insert-IsNodup, delete-IsNodup, nat_eq,
  list_eq, ◌=?◌, Bool-cases, Option-cases, inl, inr, arith,
}
use proton_utils.Drive.BufferCache.{
  Key, key_eq, Slot, Cache, fetching_slot, close, make_room, reserve, reserve_new, invalidate_each,
  drop_elem,
}
use proton_utils.Drive.BufferCache.Consistent.{
  IsConsistent, remove-IsConsistent, make_room-IsConsistent,
}
use proton_utils.Drive.BufferCache.Putting.{make_room-absent}

module _ {E : Type 0} where
  add_fetching-IsConsistent :
      (k : Key) (c : Cache E)
      → IsConsistent c
      → lookup k c.slots ≡ none
      → IsConsistent
          (record c { slots = insert k (fetching_slot c.next) c.slots; next = suc c.next })
  add_fetching-IsConsistent k c h absent = record {
    fetching =
        λ j t p q. ground (arith, lookup-insert k j (fetching_slot c.next) c.slots, h.fetching j t);
    clean = λ j t i p q.
        ground (arith, lookup-insert k j (fetching_slot c.next) c.slots, h.clean j t i);
    listed = λ i j p.
        let (s, a, e) = h.listed i j p in
        (
          s,
          ground (arith, lookup-insert k j (fetching_slot c.next) c.slots, key_eq.beq_iff k j),
          e,
        );
    fresh = λ i j p. ground (arith, h.fresh i j);
    nodup_slots = insert-IsNodup k (fetching_slot c.next) c.slots h.nodup_slots;
    nodup_lru = h.nodup_lru;
  }

  reserve_new-IsConsistent :
      (k : Key) (c : Cache E) (room : Bool)
      → IsConsistent c
      → lookup k c.slots ≡ none
      → IsConsistent (reserve_new k (c, room)).0
  unfolding reserve_new
  reserve_new-IsConsistent k c true h e = add_fetching-IsConsistent k c h e
  reserve_new-IsConsistent k c false h e = h

  pub reserve-IsConsistent : (k : Key) (c : Cache E) → IsConsistent c → IsConsistent (reserve k c).0
  unfolding reserve
  reserve-IsConsistent k c h = elim (Option-cases (lookup k c.slots)) [
    | inl e ↦
        rw (reserve, has, e)
          (reserve_new-IsConsistent k (make_room c).0 (make_room c).1 (make_room-IsConsistent c h)
            (make_room-absent k c e))
    | inr (s, e) ↦ rw (reserve, has, e) h
  ]

  pub close-IsConsistent :
      (r : ℕ) (c : Cache E)
      → IsConsistent c
      → IsConsistent (record c { is_closed = close r c.is_closed })
  close-IsConsistent r c h = record {
    fetching = h.fetching;
    clean = λ k s i e f. ground (arith, h.clean k s i);
    listed = h.listed;
    fresh = h.fresh;
    nodup_slots = h.nodup_slots;
    nodup_lru = h.nodup_lru;
  }

  pub remove_fetching-IsConsistent :
      (c : Cache E) (k : Key) (s : Slot E)
      → IsConsistent c
      → lookup k c.slots ≡ some s
      → s.elem ≡ none
      → IsConsistent (record c { slots = delete k c.slots })
  remove_fetching-IsConsistent c k s h e f = record {
    fetching = λ j t p q. ground (arith, lookup-delete k j c.slots, h.fetching j t);
    clean = λ j t i p q. ground (arith, lookup-delete k j c.slots, h.clean j t i);
    listed = λ i j p.
        let (t, a, b) = h.listed i j p in
        (t, ground (arith, lookup-delete k j c.slots, key_eq.beq_iff k j), b);
    fresh = h.fresh;
    nodup_slots = delete-IsNodup k c.slots h.nodup_slots;
    nodup_lru = h.nodup_lru;
  }

  drop_slot-IsConsistent :
      (c : Cache E) (k : Key) (s : Slot E) (o : Option ℕ)
      → IsConsistent c
      → lookup k c.slots ≡ some s
      → s.elem ≡ o
      → IsConsistent (record c { lru = drop_elem o c.lru; slots = delete k c.slots })
  unfolding drop_elem
  drop_slot-IsConsistent c k s none h e f = remove_fetching-IsConsistent c k s h e f
  drop_slot-IsConsistent c k s (some id) h e f = remove-IsConsistent c id k s h e f

  pub invalidate_each-IsConsistent :
      (link : Bytes) (rest : Map Key (Slot E)) (c : Cache E)
      → IsConsistent c
      → IsNodup rest
      → ((k : Key) (s : Slot E) → lookup k rest ≡ some s → lookup k c.slots ≡ some s)
      → IsConsistent (invalidate_each link rest c)
  unfolding invalidate_each lookup
  invalidate_each-IsConsistent link [] c h n m = h
  invalidate_each-IsConsistent link ((k, s) ∷ rest) c h n m =
      let there = m k s (ground (arith, key_eq.beq_iff k k)) in
      elim (Bool-cases (k.0 =? link)) [
        | inl gone ↦ rw gone (
            invalidate_each-IsConsistent link rest _
              (close-IsConsistent s.ready _ (drop_slot-IsConsistent c k s s.elem h there refl)) n.1
              (λ j t p. ground (arith, lookup-delete k j c.slots, m j t, n.0, key_eq.beq_iff k j)))
        | inr kept ↦ rw kept (
            invalidate_each-IsConsistent link rest c h n.1
              (λ j t p. m j t (ground (arith, key_eq.beq_iff k j))))
      ]
