-- ===== src/Tests/Cache.antt =====
-- The cache, with errors that are numbers.
use proton_utils.Base.{
  list_beq, ℕ, ◌≡◌, refl, true, [], ◌∷◌, inr, insert, lookup, size, nat_eq, delete, list_eq,
}
use proton_utils.Drive.BufferCache.{
  Key, key_eq, Cache, fetching_slot, new_buffer_cache, get, get_woken, get_slot, touch, put,
  put_new, put_over, put_error, reserve, reserve_new, make_room, evict_locked, back,
}
use proton_utils.Drive.BufferCache.Consistent.{IsConsistent}
use proton_utils.Drive.BufferCache.Runs.{
  Steps, stays, and_then, reserves, puts, cache_stays-IsConsistent,
}
use proton_utils.Drive.BufferCache.Readers.{IsServed, no_reader_is_lost}
use proton_utils.Drive.BufferCache.Stale.{reserve_loses_reader}

program : Unit {0}
unfolding list_beq new_buffer_cache get get_woken get_slot touch put put_new put_over put_error
    reserve reserve_new make_room evict_locked back insert lookup size delete key_eq
program = tt

abbrev empty : Cache ℕ
unfolding program
empty = new_buffer_cache ℕ 1

abbrev first : Key
first = (1 ∷ [], 0)

abbrev second : Key
second = (1 ∷ [], 1)

-- the first block reserved, and then there
abbrev awaited : Cache ℕ
awaited = (reserve first empty).0

abbrev filled : Cache ℕ
filled = put first (7 ∷ []) awaited

to_awaited : Steps empty awaited
to_awaited = and_then stays (reserves first)

to_filled : Steps empty filled
to_filled = and_then to_awaited (puts first (7 ∷ []))

cache_stays-IsConsistent_example : IsConsistent filled
unfolding program
cache_stays-IsConsistent_example = cache_stays-IsConsistent 1 filled to_filled

awaited-IsServed : IsServed first 0 awaited
unfolding program
awaited-IsServed = inr (fetching_slot 0, refl, refl, refl)

-- the block comes, and then makes room for the second one
abbrev replaced : Cache ℕ
replaced = (reserve second filled).0

no_reader_is_lost_example : IsServed first 0 replaced
unfolding program
no_reader_is_lost_example =
    no_reader_is_lost first 0 {c = awaited} {d = replaced}
      (and_then (and_then stays (puts first (7 ∷ []))) (reserves second))
      (cache_stays-IsConsistent 1 awaited to_awaited) awaited-IsServed

-- the first block failed once it was there, and is being fetched again
abbrev stale : Cache ℕ
stale = (reserve first (put_error first filled)).0

reserve_loses_reader_example :
    IsServed first 2 stale
    × ((reserve second stale).1 ≡ true)
    × (¬ IsServed first 2 (reserve second stale).0)
unfolding program
reserve_loses_reader_example =
    reserve_loses_reader second first stale 1 2 refl refl refl refl refl refl
