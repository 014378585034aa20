-- ===== src/Tests/Calls.antt =====
-- Two calls for the same block.
use proton_utils.Base.{
  ℕ, ◌≡◌, ◌⊎◌, refl, true, false, [], ◌∷◌, Bytes, Result, ok, inl, list_beq, lookup, insert, size,
  delete,
}
use proton_utils.Drive.BufferCache.{
  get_woken, Key, key_eq, new_buffer_cache, get, get_slot, touch, put, put_over, reserve,
  reserve_new, make_room,
}
use proton_utils.Drive.BlockStore.{
  owning, turn, got, after_get, reserved, deliver, Calls, take_turn, History, turns, begins,
  and_then, new_calls,
}
use proton_utils.Drive.BlockStore.Truth.{finished-fetch}
use proton_utils.Drive.BlockStore.Progress.{waiting_goes_on}

program : Unit {0}
unfolding get_woken list_beq key_eq lookup insert size delete new_buffer_cache get get_slot touch
    put put_over reserve reserve_new make_room turn got after_get reserved deliver take_turn
    new_calls
program = tt

abbrev block : Key
block = (1 ∷ [], 0)

abbrev content : Key → Result ℕ Bytes
content k = ok (7 ∷ k.0)

abbrev start : Calls ℕ
unfolding program
start = new_calls 1 (λ i. block) (λ i. false)

-- Call 0 misses and reserves, then call 1 finds the block in flight.
abbrev one_waits : Calls ℕ
unfolding program
one_waits = take_turn content 1 (take_turn content 0 (take_turn content 0 start))

to_one_waits : History content start one_waits
unfolding program
to_one_waits = and_then (and_then (and_then begins (turns 0)) (turns 0)) (turns 1)

waiting_goes_on_example :
    (one_waits.cache.is_closed 0 ≡ true)
    ⊎ ((j : ℕ) × (one_waits.key j ≡ block)
        × (one_waits.phase j ≡ owning)
        × ((take_turn content j one_waits).cache.is_closed 0 ≡ true))
unfolding program
waiting_goes_on_example =
    waiting_goes_on content (λ k. (7 ∷ k.0, refl)) 1 (λ i. block) (λ i. false) one_waits 1 0
      to_one_waits (inl refl)

-- Call 0 puts the block, and call 1 goes on.
abbrev both_done : Calls ℕ
unfolding program
both_done = take_turn content 1 (take_turn content 0 one_waits)

to_both_done : History content start both_done
unfolding program
to_both_done = and_then (and_then to_one_waits (turns 0)) (turns 1)

finished-fetch_example : ◌≡◌ {A = Result ℕ Bytes} (ok (7 ∷ 1 ∷ [])) (content (both_done.key 1))
unfolding program
finished-fetch_example =
    finished-fetch content 1 (λ i. block) (λ i. false) both_done 1 (ok (7 ∷ 1 ∷ [])) to_both_done
      refl
