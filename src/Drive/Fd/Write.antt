-- ===== src/Drive/Fd/Write.antt =====
-- `Write`, `WriteAt`, `flushBlock` and `Truncate` of api/drive/fd.go, for any block size.
use proton_utils.Base.{
  ℕ, zero, suc, ◌+◌, ◌-◌, ◌/◌, ◌%◌, Option, none, some, [], ◌∷◌, ◌++◌, length, take, drop,
  replicate, ltb, leb, not, ◌==◌, if◌then◌else◌, Bytes, Result, ok, err,
}
use proton_utils.Drive.Fd.State.{Fd, FdError, err_closed, ebadf, is_write}

-- the copy is handed to a goroutine
unfoldable pub flush_block : ℕ → Bytes → Fd → Fd
flush_block index block fd = record fd { inflight = fd.inflight ++ (index, block) ∷ [] }

unfoldable pub chunk_size : ℕ → ℕ → ℕ
chunk_size space n = if ltb space n then space else n

-- `copy(cur[blockOff:end], p[:chunk])`, then the append of what does not fit
unfoldable pub overlay : Bytes → ℕ → Bytes → Bytes
overlay cur block_off chunk =
    let end = block_off + length chunk in
    if leb end (length cur)
    then take block_off cur ++ (chunk ++ drop end cur)
    else if ltb block_off (length cur)
    then take block_off cur
      ++ (take (length cur - block_off) chunk ++ drop (length cur - block_off) chunk)
    else cur ++ drop (length cur - block_off) chunk

abbrev written : Option (Fd × ℕ) → Option (Fd × Result FdError ℕ)
written none = none
written (some (fd, n)) = some (fd, ok n)

module _ (size : ℕ) where
  -- A full block is handed over and a new one begun.
  unfoldable pub roll : Fd → Fd
  unfolding flush_block
  roll fd =
      if length fd.cur_block == size
      then record (flush_block fd.cur_idx fd.cur_block fd) {
        cur_block = [];
        cur_idx = fd.cur_idx + 1;
      }
      else fd

  -- one round of the loop of `Write`, for the chunk that it takes
  unfoldable pub put_chunk : Bytes → Fd → Fd
  unfolding roll
  put_chunk chunk fd =
      roll
        (record fd { cur_block = fd.cur_block ++ chunk; file_size = fd.file_size + length chunk })

  unfoldable pub write_loop : ℕ → Bytes → Fd → ℕ → Option (Fd × ℕ)
  unfolding chunk_size
  write_loop fuel [] fd total = some (fd, total)
  write_loop zero (_ ∷ _) fd total = none
  write_loop (suc fuel) (b ∷ p) fd total =
      let chunk = chunk_size (size - length fd.cur_block) (suc (length p)) in
      write_loop fuel (drop chunk (b ∷ p)) (put_chunk (take chunk (b ∷ p)) fd) (total + chunk)

  -- `Write`; the outer `none` is a loop that does not end within one round for each byte
  unfoldable pub write : Bytes → Fd → Option (Fd × Result FdError ℕ)
  write [] fd = some (fd, ok 0)
  write (b ∷ p) fd =
      if fd.closed
      then some (fd, err err_closed)
      else if not (is_write fd.mode)
      then some (fd, err ebadf)
      else written (write_loop (suc (length p)) (b ∷ p) fd 0)

  -- `WriteAt`: the current block is handed over when the offset lies in another one
  unfoldable pub retarget : ℕ → Fd → Fd
  unfolding flush_block
  retarget target fd =
      if target == fd.cur_idx
      then fd
      else record (if length fd.cur_block == 0
          then fd
          else flush_block fd.cur_idx fd.cur_block fd) { cur_block = []; cur_idx = target }

  -- the block is extended with zeros up to the offset
  unfoldable pub extend : ℕ → Fd → Fd
  extend block_off fd =
      if ltb (length fd.cur_block) block_off
      then record fd { cur_block = fd.cur_block ++ replicate (block_off - length fd.cur_block) 0 }
      else fd

  -- one round of the loop of `WriteAt`, for the chunk that it takes at offset `off`
  unfoldable pub put_chunk_at : Bytes → ℕ → Fd → Fd
  unfolding roll retarget extend overlay
  put_chunk_at chunk off fd =
      let fd' = extend (off % size) (retarget (off / size) fd) in
      let end = off + length chunk in
      roll (record fd' {
        cur_block = overlay fd'.cur_block (off % size) chunk;
        file_size = if ltb fd'.file_size end then end else fd'.file_size;
      })

  unfoldable pub write_at_loop : ℕ → Bytes → ℕ → Fd → ℕ → Option (Fd × ℕ)
  unfolding chunk_size
  write_at_loop fuel [] off fd total = some (fd, total)
  write_at_loop zero (_ ∷ _) off fd total = none
  write_at_loop (suc fuel) (b ∷ p) off fd total =
      let chunk = chunk_size (size - off % size) (suc (length p)) in
      write_at_loop fuel (drop chunk (b ∷ p)) (off + chunk)
        (put_chunk_at (take chunk (b ∷ p)) off fd) (total + chunk)

  unfoldable pub write_at : Bytes → ℕ → Fd → Option (Fd × Result FdError ℕ)
  write_at [] off fd = some (fd, ok 0)
  write_at (b ∷ p) off fd =
      if fd.closed
      then some (fd, err err_closed)
      else if not (is_write fd.mode)
      then some (fd, err ebadf)
      else written (write_at_loop (suc (length p)) (b ∷ p) off fd 0)

-- `Truncate`, which only sets the size
unfoldable pub truncate : ℕ → Fd → Fd × Result FdError (Unit {0})
truncate size fd =
    if fd.closed
    then (fd, err err_closed)
    else if not (is_write fd.mode)
    then (fd, err ebadf)
    else (record fd { file_size = size }, ok tt)
