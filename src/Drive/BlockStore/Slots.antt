-- ===== src/Drive/BlockStore/Slots.antt =====
-- What holds of every slot of the cache, and how the cache's operations keep it.
use proton_utils.Base.{
  ℕ, ◌≡◌, refl, sym, ◌∙◌, Bool, true, false, Option, none, some, [], ◌∷◌, Bytes, Map, lookup,
  insert, delete, size, leb, has, if◌then◌else◌, ◌=?◌, lookup-insert, lookup-delete, Bool-cases,
  Option-cases, inl, inr, nat_eq, list_eq, subst,
}
use proton_utils.Drive.BufferCache.{
  Key, key_eq, SlotState, slot_empty, slot_fetching, slot_clean, Slot, Cache, clean_slot,
  fetching_slot, evict_locked, back, touch, get_slot, touch_clean, put, put_over, put_new,
  make_room, put_error, reserve, reserve_new, invalidate_each,
}

module _ {E : Type 0} (Q : Key → Slot E → Type 0) where
  abbrev pub AllSlots : Map Key (Slot E) → Type 0
  AllSlots slots = (k : Key) (s : Slot E) → lookup k slots ≡ some s → Q k s

  delete-AllSlots :
      (k : Key) (slots : Map Key (Slot E)) → AllSlots slots → AllSlots (delete k slots)
  delete-AllSlots k slots h j s e =
      let found : lookup j (delete k slots) ≡ (if k =? j then none else lookup j slots) =
        lookup-delete k j slots in
      elim (Bool-cases (k =? j)) [
        | inl same ↦ absurd (cc (rw same at found, e))
        | inr apart ↦ h j s (sym (rw apart at found) ∙ e)
      ]

  insert-AllSlots :
      (k : Key) (s : Slot E) (slots : Map Key (Slot E))
      → Q k s
      → AllSlots slots
      → AllSlots (insert k s slots)
  insert-AllSlots k s slots q h j t e =
      let found : lookup j (insert k s slots) ≡ (if k =? j then some s else lookup j slots) =
        lookup-insert k j s slots in
      elim (Bool-cases (k =? j)) [
        | inr apart ↦ h j t (sym (rw apart at found) ∙ e)
        | inl same ↦
            let here : k ≡ j = (key_eq.beq_iff k j).0 same in
            let stored : s ≡ t = cc (rw same at found, e) in
            subst (λ (x : Key × Slot E). Q x.0 x.1) (λ i. (here i, stored i)) q
      ]

  evict_locked-AllSlots : (c : Cache E) → AllSlots c.slots → AllSlots (evict_locked c).0.slots
  unfolding evict_locked
  evict_locked-AllSlots c h = elim (Option-cases (back c.lru)) [
    | inl e ↦ rw (evict_locked, e) h
    | inr ((id, k), e) ↦ rw (evict_locked, e) (delete-AllSlots k c.slots h)
  ]

  make_room-AllSlots : (c : Cache E) → AllSlots c.slots → AllSlots (make_room c).0.slots
  unfolding make_room
  make_room-AllSlots c h = elim (Bool-cases (leb c.cap (size c.slots))) [
    | inl full ↦ rw full (evict_locked-AllSlots c h)
    | inr room ↦ rw room h
  ]

  put_over-AllSlots :
      (k : Key) (b : Bytes) (s : Slot E) (o : Option ℕ) (c : Cache E)
      → ((r id : ℕ) → Q k (clean_slot b r id))
      → AllSlots c.slots
      → AllSlots (put_over k b s o c).slots
  unfolding put_over
  put_over-AllSlots k b s none c f h =
      insert-AllSlots k (clean_slot b s.ready c.next) c.slots (f s.ready c.next) h
  put_over-AllSlots k b s (some id) c f h =
      insert-AllSlots k (clean_slot b s.ready id) c.slots (f s.ready id) h

  pub put-AllSlots :
      (k : Key) (b : Bytes) (c : Cache E)
      → ((r id : ℕ) → Q k (clean_slot b r id))
      → AllSlots c.slots
      → AllSlots (put k b c).slots
  unfolding put put_new
  put-AllSlots k b c f h = elim (Option-cases (lookup k c.slots)) [
    | inl absent ↦
        let d = (make_room c).0 in
        rw (put, absent)
          (insert-AllSlots k (clean_slot b d.next d.next) d.slots (f d.next d.next)
            (make_room-AllSlots c h))
    | inr (s, there) ↦ rw (put, there) (put_over-AllSlots k b s s.elem c f h)
  ]

  pub put_error-AllSlots :
      (k : Key) (c : Cache E) → AllSlots c.slots → AllSlots (put_error k c).slots
  unfolding put_error
  put_error-AllSlots k c h = elim (Option-cases (lookup k c.slots)) [
    | inl absent ↦ rw (put_error, absent) h
    | inr (s, there) ↦ rw (put_error, there) (delete-AllSlots k c.slots h)
  ]

  reserve_new-AllSlots :
      (k : Key) (x : Cache E × Bool)
      → ((r : ℕ) → (reserve_new k x).1 ≡ true → Q k (fetching_slot r))
      → AllSlots x.0.slots
      → AllSlots (reserve_new k x).0.slots
  unfolding reserve_new
  reserve_new-AllSlots k (c, false) f h = h
  reserve_new-AllSlots k (c, true) f h =
      insert-AllSlots k (fetching_slot c.next) c.slots (f c.next refl) h

  pub reserve-AllSlots :
      (k : Key) (c : Cache E)
      → ((r : ℕ) → (reserve k c).1 ≡ true → Q k (fetching_slot r))
      → AllSlots c.slots
      → AllSlots (reserve k c).0.slots
  unfolding reserve
  reserve-AllSlots k c f h = elim (Bool-cases (has k c.slots)) [
    | inl there ↦ rw (reserve, there) h
    | inr absent ↦
        rw (reserve, absent)
          (reserve_new-AllSlots k (make_room c) (λ r e. f r (rw (reserve, absent) e))
            (make_room-AllSlots c h))
  ]

  pub invalidate_each-AllSlots :
      (link : Bytes) (l : Map Key (Slot E)) (c : Cache E)
      → AllSlots c.slots
      → AllSlots (invalidate_each link l c).slots
  unfolding invalidate_each
  invalidate_each-AllSlots link [] c h = h
  invalidate_each-AllSlots link ((k, s) ∷ rest) c h = elim (Bool-cases (k.0 =? link)) [
    | inl its ↦
        rw (invalidate_each, its)
          (invalidate_each-AllSlots link rest _ (delete-AllSlots k c.slots h))
    | inr not_its ↦ rw (invalidate_each, not_its) (invalidate_each-AllSlots link rest c h)
  ]

module _ {E : Type 0} where
  touch-slots : (o : Option ℕ) (c : Cache E) → (touch o c).slots ≡ c.slots
  unfolding touch
  touch-slots none c = refl
  touch-slots (some id) c = refl

  pub get_slot-slots :
      (state : SlotState) (s : Slot E) (c : Cache E) → (get_slot state s c).0.slots ≡ c.slots
  unfolding get_slot
  get_slot-slots slot_clean s c = touch-slots s.elem c
  get_slot-slots slot_fetching s c = refl
  get_slot-slots slot_empty s c = refl

  pub touch_clean-slots :
      (state : SlotState) (s : Slot E) (c : Cache E) → (touch_clean state s c).slots ≡ c.slots
  unfolding touch_clean
  touch_clean-slots slot_clean s c = touch-slots s.elem c
  touch_clean-slots slot_fetching s c = refl
  touch_clean-slots slot_empty s c = refl
