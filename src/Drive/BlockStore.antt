-- ===== src/Drive/BlockStore.antt =====
-- Reading a block through the cache: `GetBlock` of api/drive/blockstore.go, and
-- `getDecryptedBlock` and `prefetch` of api/drive/fd.go, which go the same way with a fetch that
-- also decrypts. Any number of them run at once; a turn is one of their critical sections.
pub mod Slots
pub mod Truth
pub mod Waiting
pub mod Owners
pub mod Progress
use proton_utils.Base.{
  ℕ, ◌==◌, Bool, true, false, Option, none, some, Bytes, Result, ok, err, if◌then◌else◌,
}
use proton_utils.Drive.BufferCache.{
  Key, Cache, Outcome, new_buffer_cache, returned, blocked, get, get_woken, put, put_error, reserve,
  invalidate,
}

-- Where a call stands. `owning` has reserved the slot, `alone` fetches without one, and `dropped`
-- is the end of a prefetch whose slot was there already.
pub data Phase (E : Type 0) : Type 0 where
  get_first reserving get_second owning alone prefetching dropped : Phase E
  wait_first wait_second : ℕ → Phase E
  finished : Result E Bytes → Phase E

-- The cache and the calls that run, by number.
pub record Calls (E : Type 0) : Type 0 where
  pub cache : Cache E
  pub key : ℕ → Key
  pub phase : ℕ → Phase E

module _ {E : Type 0} where
  -- Behind `Get`: the call returns what there is, waits, or goes on from a miss.
  unfoldable pub after_get : (ℕ → Phase E) → Phase E → Outcome E → Phase E
  after_get wait miss (returned b (some e)) = finished (err e)
  after_get wait miss (returned (some b) none) = finished (ok b)
  after_get wait miss (returned none none) = miss
  after_get wait miss (blocked r) = wait r

  unfoldable pub got : (ℕ → Phase E) → Phase E → Cache E × Outcome E → Cache E × Phase E
  unfolding after_get
  got wait miss (c, o) = (c, after_get wait miss o)

  unfoldable pub reserved : Phase E → Cache E × Bool → Cache E × Phase E
  reserved otherwise (c, true) = (c, owning)
  reserved otherwise (c, false) = (c, otherwise)

  -- the slot's owner puts the block, or the error
  unfoldable pub deliver : Key → Result E Bytes → Cache E → Cache E × Phase E
  deliver k (ok b) c = (put k b c, finished (ok b))
  deliver k (err e) c = (put_error k c, finished (err e))

  -- One turn of a call for the block `k`; a wait goes on once its channel is closed.
  unfoldable pub turn : (Key → Result E Bytes) → Key → Phase E → Cache E → Cache E × Phase E
  unfolding got reserved deliver
  turn fetch k get_first c = got wait_first reserving (get k c)
  turn fetch k (wait_first r) c =
      if c.is_closed r then got wait_first reserving (get_woken k c) else (c, wait_first r)
  turn fetch k reserving c = reserved get_second (reserve k c)
  turn fetch k get_second c = got wait_second alone (get k c)
  turn fetch k (wait_second r) c =
      if c.is_closed r then got wait_second alone (get_woken k c) else (c, wait_second r)
  turn fetch k owning c = deliver k (fetch k) c
  turn fetch k alone c = (c, finished (fetch k))
  turn fetch k prefetching c = reserved dropped (reserve k c)
  turn fetch k dropped c = (c, dropped)
  turn fetch k (finished r) c = (c, finished r)

  unfoldable pub take_turn : (Key → Result E Bytes) → ℕ → Calls E → Calls E
  unfolding turn
  take_turn fetch i s =
      let next = turn fetch (s.key i) (s.phase i) s.cache in
      record s { cache = next.0; phase = λ j. if i == j then next.1 else s.phase j }

  abbrev pub first_phase : Bool → Phase E
  first_phase true = prefetching
  first_phase false = get_first

  -- Calls for the given blocks that have not begun, some of them prefetches, with a new cache
  unfoldable pub new_calls : ℕ → (ℕ → Key) → (ℕ → Bool) → Calls E
  new_calls capacity key is_prefetch = record {
    cache = new_buffer_cache E capacity;
    key = key;
    phase = λ i. first_phase (is_prefetch i);
  }

  -- Any call takes its next turn, or somebody invalidates a link's blocks.
  pub data Happens (fetch : Key → Result E Bytes) (s : Calls E) : Calls E → Type 0 where
    turns : (i : ℕ) → Happens fetch s (take_turn fetch i s)
    invalidates : (link : Bytes) → Happens fetch s (record s { cache = invalidate link s.cache })

  pub data History (fetch : Key → Result E Bytes) (s : Calls E) : Calls E → Type 0 where
    begins : History fetch s s
    and_then : {t u : Calls E} → History fetch s t → Happens fetch t u → History fetch s u
