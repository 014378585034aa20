-- ===== src/Drive/BlockStore/Owners.antt =====
-- Where no fetch fails: a slot that is being fetched has its owner among the calls.
use proton_utils.Base.{
  ℕ, ◌==◌, ◌≡◌, ◌≢◌, refl, sym, ap, ◌∙◌, ◌⊎◌, Bool, true, false, Option, none, some, Bytes, Map,
  lookup, Result, ok, if◌then◌else◌, Bool-cases, Option-cases, inl, inr, nat_eq, list_eq, subst,
  ==_iff,
}
use proton_utils.Drive.BufferCache.{
  Key, key_eq, Slot, Cache, clean_slot, get, get_woken, put, put_over, reserve,
}
use proton_utils.Drive.BufferCache.Capacity.{put-slot}
use proton_utils.Drive.BlockStore.Slots.{
  AllSlots, put-AllSlots, reserve-AllSlots, get_slot-slots, touch_clean-slots,
}
use proton_utils.Drive.BlockStore.Waiting.{got-cache, reserved-cache}
use proton_utils.Drive.BlockStore.{
  Phase, get_first, reserving, get_second, owning, alone, prefetching, dropped, wait_first,
  wait_second, finished, got, reserved, deliver, turn,
}

module _ {E : Type 0} where
  get-slots : (k : Key) (c : Cache E) → (get k c).0.slots ≡ c.slots
  unfolding get
  get-slots k c = elim (Option-cases (lookup k c.slots)) [
    | inl absent ↦ rw (get, absent) refl
    | inr (s, there) ↦ rw (get, there) (get_slot-slots s.state s c)
  ]

  get_woken-slots : (k : Key) (c : Cache E) → (get_woken k c).0.slots ≡ c.slots
  unfolding get_woken
  get_woken-slots k c = elim (Option-cases (lookup k c.slots)) [
    | inl absent ↦ rw (get_woken, absent) refl
    | inr (s, there) ↦ rw (get_woken, there) (touch_clean-slots s.state s c)
  ]

module _ {E : Type 0} (key : ℕ → Key) where
  -- Some call owns the block's slot.
  abbrev pub Owner : (ℕ → Phase E) → Key → Type 0
  Owner phase k = (j : ℕ) × (key j ≡ k) × (phase j ≡ owning)

  abbrev pub OwnedAt : (ℕ → Phase E) → Key → Option ℕ → Type 0
  OwnedAt phase k none = Owner phase k
  OwnedAt phase k (some id) = Unit

  -- A slot without an element of the list has an owner.
  abbrev pub IsOwned : (ℕ → Phase E) → Key → Slot E → Type 0
  IsOwned phase k s = OwnedAt phase k s.elem

  abbrev pub update : ℕ → Phase E → (ℕ → Phase E) → ℕ → Phase E
  update i p phase j = if i == j then p else phase j

  Owner-update :
      (phase : ℕ → Phase E) (i : ℕ) (p : Phase E) (k : Key)
      → phase i ≢ owning
      → Owner phase k
      → Owner (update i p phase) k
  Owner-update phase i p k n (j, e, o) = elim (Bool-cases (i == j)) [
    | inl its ↦ absurd (n (ap phase ((==_iff i j).0 its) ∙ o))
    | inr other ↦ (j, e, rw other o)
  ]

  IsOwned-update :
      (phase : ℕ → Phase E) (i : ℕ) (p : Phase E) (slots : Map Key (Slot E))
      → phase i ≢ owning
      → AllSlots (IsOwned phase) slots
      → AllSlots (IsOwned (update i p phase)) slots
  IsOwned-update phase i p slots n h k s e = OwnedAt-update s.elem (h k s e)
    where
      OwnedAt-update : (o : Option ℕ) → OwnedAt phase k o → OwnedAt (update i p phase) k o
      OwnedAt-update none w = Owner-update phase i p k n w
      OwnedAt-update (some id) w = tt

  -- a turn that leaves the slots, of a call that owns none
  same-IsOwned :
      (phase : ℕ → Phase E) (i : ℕ) (c : Cache E) (x : Cache E × Phase E)
      → phase i ≢ owning
      → x.0.slots ≡ c.slots
      → AllSlots (IsOwned phase) c.slots
      → AllSlots (IsOwned (update i x.1 phase)) x.0.slots
  same-IsOwned phase i c x n e h =
      subst (AllSlots (IsOwned (update i x.1 phase))) (sym e)
        (IsOwned-update phase i x.1 c.slots n h)

  reserved-phase :
      (otherwise : Phase E) (x : Cache E × Bool) → x.1 ≡ true → (reserved otherwise x).1 ≡ owning
  unfolding reserved
  reserved-phase otherwise (c, true) e = refl
  reserved-phase otherwise (c, false) e = absurd (cc e)

  reserve-IsOwned :
      (phase : ℕ → Phase E) (i : ℕ) (c : Cache E) (otherwise : Phase E)
      → phase i ≢ owning
      → AllSlots (IsOwned phase) c.slots
      → AllSlots
          (IsOwned (update i (reserved otherwise (reserve (key i) c)).1 phase))
          (reserved otherwise (reserve (key i) c)).0.slots
  reserve-IsOwned phase i c otherwise n h =
      let p = (reserved otherwise (reserve (key i) c)).1 in
      subst (λ (d : Cache E). AllSlots (IsOwned (update i p phase)) d.slots)
        (sym (reserved-cache otherwise (reserve (key i) c)))
        (reserve-AllSlots (IsOwned (update i p phase)) (key i) c
          (λ r e.
            (i, refl, rw ((==_iff i i).1 refl) (reserved-phase otherwise (reserve (key i) c) e)))
          (IsOwned-update phase i p c.slots n h))

  -- the owner's turn gives its block's slot an element
  owning-IsOwned :
      (phase : ℕ → Phase E) (i : ℕ) (b : Bytes) (c : Cache E) (p : Phase E)
      → AllSlots (IsOwned phase) c.slots
      → AllSlots (IsOwned (update i p phase)) (put (key i) b c).slots
  owning-IsOwned phase i b c p h k s e =
      kept (put-AllSlots Mine (key i) b c (λ r id. inr tt) (λ j t f. lost j t.elem (h j t f)) k s e)
    where
      Mine : Key → Slot E → Type 0
      Mine j t = (j ≡ key i) ⊎ IsOwned (update i p phase) j t

      lost :
          (j : Key) (o : Option ℕ)
          → OwnedAt phase j o
          → (j ≡ key i) ⊎ OwnedAt (update i p phase) j o
      lost j (some id) w = inr tt
      lost j none (n, f, o) = elim (Bool-cases (i == n)) [
        | inl its ↦ inl (sym f ∙ ap key (sym ((==_iff i n).0 its)))
        | inr other ↦ inr (n, f, rw other o)
      ]

      kept : (k ≡ key i) ⊎ IsOwned (update i p phase) k s → IsOwned (update i p phase) k s
      kept (inr w) = w
      kept (inl here) =
          let (r, id, there) = put-slot (key i) b c in
          let same : s ≡ clean_slot b r id =
            cc (sym e ∙ ap (λ j. lookup j (put (key i) b c).slots) here, there) in
          subst (λ (t : Slot E). OwnedAt (update i p phase) k t.elem) (sym same) tt

  module _ (fetch : Key → Result E Bytes) (good : (k : Key) → (b : Bytes) × (fetch k ≡ ok b)) where
    pub turn-IsOwned :
        (phase : ℕ → Phase E) (i : ℕ) (c : Cache E) (p : Phase E)
        → phase i ≡ p
        → AllSlots (IsOwned phase) c.slots
        → AllSlots
            (IsOwned (update i (turn fetch (key i) p c).1 phase))
            (turn fetch (key i) p c).0.slots
    unfolding turn deliver
    turn-IsOwned phase i c get_first e h =
        same-IsOwned phase i c (got wait_first reserving (get (key i) c)) (λ o. cc (e, o))
          (ap (λ (d : Cache E). d.slots) (got-cache wait_first reserving (get (key i) c))
            ∙ get-slots (key i) c)
          h
    turn-IsOwned phase i c (wait_first r) e h = elim (Bool-cases (c.is_closed r)) [
      | inl shut ↦
          rw (turn, shut)
            (same-IsOwned phase i c (got wait_first reserving (get_woken (key i) c))
              (λ o. cc (e, o))
              (ap (λ (d : Cache E). d.slots) (got-cache wait_first reserving (get_woken (key i) c))
                ∙ get_woken-slots (key i) c)
              h)
      | inr waits ↦
          rw (turn, waits) (same-IsOwned phase i c (c, wait_first r) (λ o. cc (e, o)) refl h)
    ]
    turn-IsOwned phase i c reserving e h = reserve-IsOwned phase i c get_second (λ o. cc (e, o)) h
    turn-IsOwned phase i c get_second e h =
        same-IsOwned phase i c (got wait_second alone (get (key i) c)) (λ o. cc (e, o))
          (ap (λ (d : Cache E). d.slots) (got-cache wait_second alone (get (key i) c))
            ∙ get-slots (key i) c)
          h
    turn-IsOwned phase i c (wait_second r) e h = elim (Bool-cases (c.is_closed r)) [
      | inl shut ↦
          rw (turn, shut)
            (same-IsOwned phase i c (got wait_second alone (get_woken (key i) c)) (λ o. cc (e, o))
              (ap (λ (d : Cache E). d.slots) (got-cache wait_second alone (get_woken (key i) c))
                ∙ get_woken-slots (key i) c)
              h)
      | inr waits ↦
          rw (turn, waits) (same-IsOwned phase i c (c, wait_second r) (λ o. cc (e, o)) refl h)
    ]
    turn-IsOwned phase i c owning e h =
        let (b, f) = good (key i) in
        subst
          (λ x.
            AllSlots (IsOwned (update i (deliver (key i) x c).1 phase))
              (deliver (key i) x c).0.slots)
          (sym f) (owning-IsOwned phase i b c (finished (ok b)) h)
    turn-IsOwned phase i c alone e h =
        same-IsOwned phase i c (c, finished (fetch (key i))) (λ o. cc (e, o)) refl h
    turn-IsOwned phase i c prefetching e h = reserve-IsOwned phase i c dropped (λ o. cc (e, o)) h
    turn-IsOwned phase i c dropped e h = same-IsOwned phase i c (c, dropped) (λ o. cc (e, o)) refl h
    turn-IsOwned phase i c (finished x) e h =
        same-IsOwned phase i c (c, finished x) (λ o. cc (e, o)) refl h

-- the channel that a slot had is closed once the block is put
pub put-closes :
    {E : Type 0} (k : Key) (b : Bytes) (c : Cache E) (s : Slot E)
    → lookup k c.slots ≡ some s
    → (put k b c).is_closed s.ready ≡ true
unfolding put put_over
put-closes k b c s e = rw (put, e) (over s.elem)
  where
    over : (o : Option ℕ) → (put_over k b s o c).is_closed s.ready ≡ true
    over none = rw ((==_iff s.ready s.ready).1 refl) refl
    over (some id) = rw ((==_iff s.ready s.ready).1 refl) refl
