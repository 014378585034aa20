-- ===== src/Drive/BufferCache/Putting.antt =====
-- The map, the list and the channels under `Put`.
use proton_utils.Base.{
  ℕ, suc, ◌≡◌, refl, sym, ◌∙◌, Option, none, some, ◌∷◌, ◌==◌, Bytes, lookup, insert, has,
  lookup-insert, lookup-delete, insert-IsNodup, nat_eq, list_eq, ◌=?◌, Bool-cases, Option-cases,
  inl, inr, arith,
}
use proton_utils.Drive.BufferCache.{
  Key, key_eq, Slot, Cache, clean_slot, close, back, evict_locked, put_over, put_new, make_room,
  put,
}
use proton_utils.Drive.BufferCache.Consistent.{
  IsConsistent, lookup-move_to_front, move_to_front-IsNodup, lookup_cons, make_room-IsConsistent,
}

module _ {E : Type 0} where
  -- A slot with no element, or none at all, gives way to a clean one with a new element.
  add_clean-IsConsistent :
      (k : Key) (b : Bytes) (r : ℕ) (c : Cache E)
      → IsConsistent c
      → ((s : Slot E) → lookup k c.slots ≡ some s → s.elem ≡ none)
      → IsConsistent (record c {
        slots = insert k (clean_slot b r c.next) c.slots;
        lru = (c.next, k) ∷ c.lru;
        is_closed = close r c.is_closed;
        next = suc c.next;
      })
  add_clean-IsConsistent k b r c h none_there = record {
    fetching = λ j t p q.
        ground (arith, lookup-insert k j (clean_slot b r c.next) c.slots, h.fetching j t);
    clean = λ j t i p q. ground (
      arith,
      lookup-insert k j (clean_slot b r c.next) c.slots,
      h.clean j t i,
      h.fresh i j,
      lookup_cons c.next i k c.lru,
      key_eq.beq_iff k j,
    );
    listed = λ i j p. elim (Bool-cases (c.next == i)) [
      | inl new ↦ (
        clean_slot b r c.next,
        ground (
          arith,
          lookup_cons c.next i k c.lru,
          lookup-insert k j (clean_slot b r c.next) c.slots,
          key_eq.beq_iff k j,
        ),
        ground arith,
      )
      | inr old ↦
          let (s, a, e) = h.listed i j (ground (arith, lookup_cons c.next i k c.lru)) in
          (
            s,
            ground (
              arith,
              lookup-insert k j (clean_slot b r c.next) c.slots,
              none_there s,
              key_eq.beq_iff k j,
            ),
            e,
          )
    ];
    fresh = λ i j p. ground (arith, h.fresh i j, lookup_cons c.next i k c.lru);
    nodup_slots = insert-IsNodup k (clean_slot b r c.next) c.slots h.nodup_slots;
    nodup_lru = (
      elim (Option-cases (lookup c.next c.lru)) [
        | inl e ↦ rw (has, e) refl
        | inr (j, e) ↦ ground (arith, h.fresh c.next j)
      ],
      h.nodup_lru,
    );
  }

  pub put_over-IsConsistent :
      (k : Key) (b : Bytes) (s : Slot E) (o : Option ℕ) (c : Cache E)
      → IsConsistent c
      → lookup k c.slots ≡ some s
      → s.elem ≡ o
      → IsConsistent (put_over k b s o c)
  unfolding put_over
  put_over-IsConsistent k b s none c h e f = add_clean-IsConsistent k b s.ready c h (λ t p. cc)
  put_over-IsConsistent k b s (some id) c h e f =
      let new = clean_slot b s.ready id in
      record {
        fetching = λ j t p q. ground (arith, lookup-insert k j new c.slots, h.fetching j t);
        clean = λ j t i p q. ground (
          arith,
          lookup-insert k j new c.slots,
          h.clean j t i,
          h.clean k s id e f,
          lookup-move_to_front id i c.lru,
          key_eq.beq_iff k j,
        );
        listed = λ i j p.
            let (t, a, q) = h.listed i j (sym (lookup-move_to_front id i c.lru) ∙ p) in
            elim (Bool-cases (k =? j)) [
              | inl same ↦ (
                new,
                ground (arith, lookup-insert k j new c.slots, key_eq.beq_iff k j),
                ground (arith, h.clean k s id e f, key_eq.beq_iff k j),
              )
              | inr apart ↦ (t, ground (arith, lookup-insert k j new c.slots), q)
            ];
        fresh = λ i j p. ground (arith, lookup-move_to_front id i c.lru, h.fresh i j);
        nodup_slots = insert-IsNodup k new c.slots h.nodup_slots;
        nodup_lru = move_to_front-IsNodup id c.lru h.nodup_lru;
      }

  evict_locked-absent :
      (k : Key) (c : Cache E) → lookup k c.slots ≡ none → lookup k (evict_locked c).0.slots ≡ none
  unfolding evict_locked
  evict_locked-absent k c h = elim (Option-cases (back c.lru)) [
    | inl e ↦ rw (evict_locked, e) h
    | inr ((id, j), e) ↦ rw (evict_locked, e) (ground (arith, lookup-delete j k c.slots))
  ]

  pub make_room-absent :
      (k : Key) (c : Cache E) → lookup k c.slots ≡ none → lookup k (make_room c).0.slots ≡ none
  unfolding make_room
  make_room-absent k c h = ground (arith, evict_locked-absent k c h)

  pub put-IsConsistent :
      (k : Key) (b : Bytes) (c : Cache E) → IsConsistent c → IsConsistent (put k b c)
  unfolding put put_new
  put-IsConsistent k b c h = elim (Option-cases (lookup k c.slots)) [
    | inl e ↦
        let m = (make_room c).0 in
        rw (put, e)
          (add_clean-IsConsistent k b m.next m (make_room-IsConsistent c h)
            (λ s p. ground (arith, make_room-absent k c e)))
    | inr (s, e) ↦ rw (put, e) (put_over-IsConsistent k b s s.elem c h e refl)
  ]
