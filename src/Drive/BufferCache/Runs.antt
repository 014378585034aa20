-- ===== src/Drive/BufferCache/Runs.antt =====
-- The cache over any sequence of its operations.
use proton_utils.Base.{ℕ, ◌≡◌, none, some, Bytes, lookup, nat_eq, list_eq, arith}
use proton_utils.Drive.BufferCache.{
  Key, key_eq, Slot, Cache, new_buffer_cache, get, get_woken, put, put_error, reserve, invalidate,
}
use proton_utils.Drive.BufferCache.Consistent.{
  IsConsistent, get-IsConsistent, get_woken-IsConsistent,
}
use proton_utils.Drive.BufferCache.Putting.{put-IsConsistent}
use proton_utils.Drive.BufferCache.Removing.{
  reserve-IsConsistent, close-IsConsistent, remove_fetching-IsConsistent,
  invalidate_each-IsConsistent,
}

module _ {E : Type 0} where
  -- A worker reports an error on a block that is still being fetched: the slot has no element.
  abbrev pub IsFetching : Key → Cache E → Type 0
  IsFetching k c = (s : Slot E) × (lookup k c.slots ≡ some s) × (s.elem ≡ none)

  pub data Step (c : Cache E) : Cache E → Type 0 where
    gets : (k : Key) → Step c (get k c).0
    wakes : (k : Key) → Step c (get_woken k c).0
    puts : (k : Key) (b : Bytes) → Step c (put k b c)
    fails : (k : Key) → IsFetching k c → Step c (put_error k c)
    reserves : (k : Key) → Step c (reserve k c).0
    invalidates : (link : Bytes) → Step c (invalidate link c)

  pub data Steps (c : Cache E) : Cache E → Type 0 where
    stays : Steps c c
    and_then : {d e : Cache E} → Steps c d → Step d e → Steps c e

  put_error-IsConsistent :
      (k : Key) (c : Cache E) → IsConsistent c → IsFetching k c → IsConsistent (put_error k c)
  unfolding put_error
  put_error-IsConsistent k c h (s, e, f) =
      rw (put_error, e) (close-IsConsistent s.ready _ (remove_fetching-IsConsistent c k s h e f))

  Step-IsConsistent : {c d : Cache E} → Step c d → IsConsistent c → IsConsistent d
  unfolding invalidate
  Step-IsConsistent {c = c} (gets k) h = get-IsConsistent k c h
  Step-IsConsistent {c = c} (wakes k) h = get_woken-IsConsistent k c h
  Step-IsConsistent {c = c} (puts k b) h = put-IsConsistent k b c h
  Step-IsConsistent {c = c} (fails k f) h = put_error-IsConsistent k c h f
  Step-IsConsistent {c = c} (reserves k) h = reserve-IsConsistent k c h
  Step-IsConsistent {c = c} (invalidates link) h =
      invalidate_each-IsConsistent link c.slots c h h.nodup_slots (λ k s e. e)

  pub Steps-IsConsistent : {c d : Cache E} → Steps c d → IsConsistent c → IsConsistent d
  Steps-IsConsistent stays h = h
  Steps-IsConsistent (and_then r s) h = Step-IsConsistent s (Steps-IsConsistent r h)

  new_buffer_cache-IsConsistent : (capacity : ℕ) → IsConsistent (new_buffer_cache E capacity)
  unfolding new_buffer_cache lookup
  new_buffer_cache-IsConsistent capacity = record {
    fetching = λ k s p q. cc;
    clean = λ k s i p q. cc;
    listed = λ i k p. ground (arith, p);
    fresh = λ i k p. ground (arith, p);
    nodup_slots = tt;
    nodup_lru = tt;
  }

  -- After any operations on a new cache, in any order, with `PutError` only on slots that are being
  -- fetched, the map, the list and the channels agree.
  pub cache_stays-IsConsistent :
      (capacity : ℕ) (c : Cache E) → Steps (new_buffer_cache E capacity) c → IsConsistent c
  cache_stays-IsConsistent capacity c r =
      Steps-IsConsistent r (new_buffer_cache-IsConsistent capacity)
