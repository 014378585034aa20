-- ===== src/Drive/BufferCache/Consistent.antt =====
-- The map, the list and the channels agree, and reading and evicting keep it so.
use proton_utils.Base.{
  ℕ, ◌<◌, ◌≡◌, refl, sym, ◌∙◌, true, false, Option, none, some, [], ◌∷◌, leb, ◌==◌, if◌then◌else◌,
  Map, lookup, delete, size, IsNodup, lookup-delete, delete-IsNodup, nat_eq, list_eq, Bool-cases,
  Option-cases, inl, inr, arith,
}
use proton_utils.Drive.BufferCache.{
  Key, key_eq, SlotState, slot_empty, slot_fetching, slot_clean, Slot, Cache, move_to_front, back,
  evict_locked, touch, get_slot, touch_clean, get, get_woken, make_room,
}

module _ {E : Type 0} where
  -- A slot with no element is being fetched; one with an element is clean,
  -- stands in the list, and its channel is closed. The list holds nothing else.
  pub record IsConsistent (c : Cache E) : Type 0 where
    pub fetching :
        (k : Key) (s : Slot E) → lookup k c.slots ≡ some s → s.elem ≡ none → s.state ≡ slot_fetching
    pub clean :
        (k : Key) (s : Slot E) (id : ℕ)
        → lookup k c.slots ≡ some s
        → s.elem ≡ some id
        → (s.state ≡ slot_clean) × (lookup id c.lru ≡ some k) × (c.is_closed s.ready ≡ true)
    pub listed :
        (id : ℕ) (k : Key)
        → lookup id c.lru ≡ some k
        → (s : Slot E) × (lookup k c.slots ≡ some s) × (s.elem ≡ some id)
    pub fresh : (id : ℕ) (k : Key) → lookup id c.lru ≡ some k → id < c.next
    pub nodup_slots : IsNodup c.slots
    pub nodup_lru : IsNodup c.lru

pub lookup-move_to_front :
    (id j : ℕ) (lru : Map ℕ Key) → lookup j (move_to_front id lru) ≡ lookup j lru
unfolding move_to_front lookup
lookup-move_to_front id j lru = ground (arith, lookup-delete id j lru)

pub move_to_front-IsNodup :
    (id : ℕ) (lru : Map ℕ Key) → IsNodup lru → IsNodup (move_to_front id lru)
unfolding move_to_front
move_to_front-IsNodup id lru h = ground (arith, delete-IsNodup id lru h, lookup-delete id id lru)

pub lookup-back :
    (lru : Map ℕ Key) (id : ℕ) (k : Key)
    → IsNodup lru
    → back lru ≡ some (id, k)
    → lookup id lru ≡ some k
unfolding back lookup
lookup-back [] id k n h = cc
lookup-back (e ∷ []) id k n h = ground arith
lookup-back (e ∷ f ∷ l) id k n h = ground (arith, lookup-back (f ∷ l) id k n.1 h)

pub lookup_cons :
    (i j : ℕ) (k : Key) (l : Map ℕ Key)
    → lookup j ((i, k) ∷ l) ≡ (if i == j then some k else lookup j l)
unfolding lookup
lookup_cons i j k l = refl

module _ {E : Type 0} where
  touch-IsConsistent : (o : Option ℕ) (c : Cache E) → IsConsistent c → IsConsistent (touch o c)
  unfolding touch
  touch-IsConsistent none c h = h
  touch-IsConsistent (some id) c h = record {
    fetching = h.fetching;
    clean = λ k s i e f.
        let (a, b, d) = h.clean k s i e f in (a, lookup-move_to_front id i c.lru ∙ b, d);
    listed = λ i k e. h.listed i k (sym (lookup-move_to_front id i c.lru) ∙ e);
    fresh = λ i k e. h.fresh i k (sym (lookup-move_to_front id i c.lru) ∙ e);
    nodup_slots = h.nodup_slots;
    nodup_lru = move_to_front-IsNodup id c.lru h.nodup_lru;
  }

  -- Taking an element and its slot away together.
  pub remove-IsConsistent :
      (c : Cache E) (id : ℕ) (k : Key) (s : Slot E)
      → IsConsistent c
      → lookup k c.slots ≡ some s
      → s.elem ≡ some id
      → IsConsistent (record c { lru = delete id c.lru; slots = delete k c.slots })
  remove-IsConsistent c id k s h e f = record {
    fetching = λ j t p q. ground (arith, lookup-delete k j c.slots, h.fetching j t);
    clean = λ j t i p q. ground (
      arith,
      lookup-delete k j c.slots,
      h.clean j t i,
      lookup-delete id i c.lru,
      h.clean k s id e f,
      key_eq.beq_iff k j,
    );
    listed = λ i j p.
        kept i j (ground (arith, lookup-delete id i c.lru))
          (ground (arith, lookup-delete id i c.lru));
    fresh = λ i j p. ground (arith, lookup-delete id i c.lru, h.fresh i j);
    nodup_slots = delete-IsNodup k c.slots h.nodup_slots;
    nodup_lru = delete-IsNodup id c.lru h.nodup_lru;
  }
    where
      kept :
          (i : ℕ) (j : Key)
          → lookup i c.lru ≡ some j
          → (id == i) ≡ false
          → (t : Slot E) × (lookup j (delete k c.slots) ≡ some t) × (t.elem ≡ some i)
      kept i j p apart =
          let (t, a, b) = h.listed i j p in
          (t, ground (arith, lookup-delete k j c.slots, key_eq.beq_iff k j), b)

  pub evict_locked-IsConsistent : (c : Cache E) → IsConsistent c → IsConsistent (evict_locked c).0
  unfolding evict_locked
  evict_locked-IsConsistent c h = elim (Option-cases (back c.lru)) [
    | inl e ↦ rw (evict_locked, e) h
    | inr ((id, k), e) ↦
        let (s, a, b) = h.listed id k (lookup-back c.lru id k h.nodup_lru e) in
        rw (evict_locked, e) (remove-IsConsistent c id k s h a b)
  ]

  pub make_room-IsConsistent : (c : Cache E) → IsConsistent c → IsConsistent (make_room c).0
  unfolding make_room
  make_room-IsConsistent c h = elim (Bool-cases (leb c.cap (size c.slots))) [
    | inl full ↦ rw full (evict_locked-IsConsistent c h)
    | inr room ↦ rw room h
  ]

  pub get-IsConsistent : (k : Key) (c : Cache E) → IsConsistent c → IsConsistent (get k c).0
  unfolding get
  get-IsConsistent k c h = elim (Option-cases (lookup k c.slots)) [
    | inl e ↦ rw (get, e) h
    | inr (s, e) ↦ rw (get, e) (at_state s.state s)
  ]
    where
      at_state : (st : SlotState) (s : Slot E) → IsConsistent (get_slot st s c).0
      at_state slot_clean s = touch-IsConsistent s.elem c h
      at_state slot_fetching s = h
      at_state slot_empty s = h

  touch_clean-IsConsistent :
      (st : SlotState) (s : Slot E) (c : Cache E)
      → IsConsistent c
      → IsConsistent (touch_clean st s c)
  unfolding touch_clean
  touch_clean-IsConsistent slot_clean s c h = touch-IsConsistent s.elem c h
  touch_clean-IsConsistent slot_fetching s c h = h
  touch_clean-IsConsistent slot_empty s c h = h

  pub get_woken-IsConsistent :
      (k : Key) (c : Cache E) → IsConsistent c → IsConsistent (get_woken k c).0
  unfolding get_woken
  get_woken-IsConsistent k c h = elim (Option-cases (lookup k c.slots)) [
    | inl e ↦ rw (get_woken, e) h
    | inr (s, e) ↦ rw (get_woken, e) (touch_clean-IsConsistent s.state s c h)
  ]
