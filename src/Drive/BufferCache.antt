-- ===== src/Drive/BufferCache.antt =====
-- The in-memory cache of blocks, api/drive/buffercache.go. Each function is one critical section
-- under `bc.mu`; `Get` on a block in flight is two, with the wait on the channel between them.
pub mod Consistent
pub mod Putting
pub mod Removing
pub mod Runs
pub mod Readers
pub mod Capacity
pub mod Stale
use proton_utils.Base.{
  ℕ, suc, Bool, true, false, Option, none, some, List, [], ◌∷◌, leb, ◌==◌, if◌then◌else◌, not,
  Bytes, Map, lookup, insert, delete, size, has, Eq, nat_eq, list_eq, pair_eq, ◌=?◌,
}

pub data SlotState : Type 0 where
  slot_empty slot_fetching slot_clean : SlotState

-- `cacheKey`: the link and the block's index
abbrev pub Key : Type 0
Key = Bytes × ℕ

instance unfoldable pub key_eq : Eq Key
key_eq = pair_eq ⦃e = list_eq⦄ ⦃f = nat_eq⦄

module _ (E : Type 0) where
  -- `ready` names the channel, and `elem` the element of the list.
  pub record Slot : Type 0 where
    pub block : Option Bytes
    pub ready : ℕ
    pub error : Option E
    pub elem : Option ℕ
    pub state : SlotState

  -- `slots`, and `lru` from the most recent on: an element is its name and its slot's key.
  -- `is_closed` tells which channels are closed, and `next` is a name not yet given.
  pub record Cache : Type 0 where
    pub slots : Map Key Slot
    pub lru : Map ℕ Key
    pub cap : ℕ
    pub is_closed : ℕ → Bool
    pub next : ℕ

  unfoldable pub new_buffer_cache : ℕ → Cache
  new_buffer_cache capacity = record {
    slots = [];
    lru = [];
    cap = capacity;
    is_closed = λ _. false;
    next = 0;
  }

-- `close`, where closing twice is guarded against
abbrev pub close : ℕ → (ℕ → Bool) → ℕ → Bool
close r is_closed i = if i == r then true else is_closed i

-- `MoveToFront`, which leaves the list when the element is no longer in it
unfoldable pub move_to_front : ℕ → Map ℕ Key → Map ℕ Key
move_to_front id lru = elim (lookup id lru) [ none ↦ lru | some k ↦ (id, k) ∷ delete id lru ]

-- `Back`
unfoldable pub back : Map ℕ Key → Option (ℕ × Key)
back [] = none
back (e ∷ []) = some e
back (e ∷ f ∷ l) = back (f ∷ l)

unfoldable pub drop_elem : Option ℕ → Map ℕ Key → Map ℕ Key
drop_elem none lru = lru
drop_elem (some id) lru = delete id lru

-- What `Get` returns, or the channel that it waits on.
pub data Outcome (E : Type 0) : Type 0 where
  returned : Option Bytes → Option E → Outcome E
  blocked : ℕ → Outcome E

module _ {E : Type 0} where
  -- `evictLocked`
  unfoldable pub evict_locked : Cache E → Cache E × Bool
  evict_locked c = elim (back c.lru) [
    | none ↦ (c, false)
    | some (id, k) ↦ (record c { lru = delete id c.lru; slots = delete k c.slots }, true)
  ]

  unfoldable pub touch : Option ℕ → Cache E → Cache E
  unfolding move_to_front
  touch none c = c
  touch (some id) c = record c { lru = move_to_front id c.lru }

  unfoldable pub get_slot : SlotState → Slot E → Cache E → Cache E × Outcome E
  get_slot slot_clean s c = (touch s.elem c, returned s.block s.error)
  get_slot slot_fetching s c = (c, blocked s.ready)
  get_slot slot_empty s c = (c, returned none none)

  -- `Get` up to its return or its wait; a miss is `nil, nil`
  unfoldable pub get : Key → Cache E → Cache E × Outcome E
  unfolding get_slot touch
  get k c = elim (lookup k c.slots) [
    | none ↦ (c, returned none none)
    | some s ↦ get_slot s.state s c
  ]

  unfoldable pub touch_clean : SlotState → Slot E → Cache E → Cache E
  touch_clean slot_clean s c = touch s.elem c
  touch_clean _ s c = c

  -- `Get` from its wake-up on
  unfoldable pub get_woken : Key → Cache E → Cache E × Outcome E
  unfolding touch_clean touch
  get_woken k c = elim (lookup k c.slots) [
    | none ↦ (c, returned none none)
    | some s ↦ (touch_clean s.state s c, returned s.block s.error)
  ]

  abbrev pub clean_slot : Bytes → ℕ → ℕ → Slot E
  clean_slot block ready elem = record {
    block = some block;
    ready = ready;
    error = none;
    elem = some elem;
    state = slot_clean;
  }

  -- `Put` on a slot that is there
  unfoldable pub put_over : Key → Bytes → Slot E → Option ℕ → Cache E → Cache E
  unfolding move_to_front
  put_over k block s none c = record c {
    slots = insert k (clean_slot block s.ready c.next) c.slots;
    lru = (c.next, k) ∷ c.lru;
    is_closed = close s.ready c.is_closed;
    next = suc c.next;
  }
  put_over k block s (some id) c = record c {
    slots = insert k (clean_slot block s.ready id) c.slots;
    lru = move_to_front id c.lru;
    is_closed = close s.ready c.is_closed;
  }

  unfoldable pub make_room : Cache E → Cache E × Bool
  unfolding evict_locked
  make_room c = if leb c.cap (size c.slots) then evict_locked c else (c, true)

  -- `Put` of a new slot; whether room was made is not asked
  unfoldable pub put_new : Key → Bytes → Cache E → Cache E
  put_new k block c = record c {
    slots = insert k (clean_slot block c.next c.next) c.slots;
    lru = (c.next, k) ∷ c.lru;
    is_closed = close c.next c.is_closed;
    next = suc c.next;
  }

  unfoldable pub put : Key → Bytes → Cache E → Cache E
  unfolding put_over put_new make_room
  put k block c = elim (lookup k c.slots) [
    | some s ↦ put_over k block s s.elem c
    | none ↦ put_new k block (make_room c).0
  ]

  -- `PutError`; the error is written to a slot that the map no longer has
  unfoldable pub put_error : Key → Cache E → Cache E
  put_error k c = elim (lookup k c.slots) [
    | none ↦ c
    | some s ↦ record c { slots = delete k c.slots; is_closed = close s.ready c.is_closed }
  ]

  abbrev pub fetching_slot : ℕ → Slot E
  fetching_slot ready = record {
    block = none;
    ready = ready;
    error = none;
    elem = none;
    state = slot_fetching;
  }

  unfoldable pub reserve_new : Key → Cache E × Bool → Cache E × Bool
  reserve_new k (c, false) = (c, false)
  reserve_new k (c, true) =
      (record c { slots = insert k (fetching_slot c.next) c.slots; next = suc c.next }, true)

  unfoldable pub reserve : Key → Cache E → Cache E × Bool
  unfolding reserve_new make_room
  reserve k c = if has k c.slots then (c, false) else reserve_new k (make_room c)

  -- the loop of `Invalidate`, over the entries that the map had
  unfoldable pub invalidate_each : Bytes → Map Key (Slot E) → Cache E → Cache E
  unfolding drop_elem
  invalidate_each link [] c = c
  invalidate_each link ((k, s) ∷ rest) c = invalidate_each link rest (
      if k.0 =? link
      then record c {
        slots = delete k c.slots;
        lru = drop_elem s.elem c.lru;
        is_closed = close s.ready c.is_closed;
      }
      else c)

  unfoldable pub invalidate : Bytes → Cache E → Cache E
  unfolding invalidate_each
  invalidate link c = invalidate_each link c.slots c
