-- ===== src/Drive/Fd/Read.antt =====
-- `Read`, `ReadAt`, `readBlock` and `Seek` of api/drive/fd.go, for any block size.
use proton_utils.Base.{
  ℕ, zero, suc, ◌+◌, ◌-◌, ◌/◌, ◌%◌, Option, none, some, [], ◌∷◌, ◌++◌, length, take, drop, leb, ltb,
  ◌==◌, if◌then◌else◌, Bytes, Result, ok, err, ℤ, pos, negsuc, offset_by,
}
use proton_utils.Drive.Fd.State.{Fd, FdError, err_closed, err_invalid, eof, out_of_range}

-- The blocks of the revision: their number, and a read strategy's `readBlock` for one in range.
pub record Blocks : Type 0 where
  pub count : ℕ
  pub strategy : ℕ → Result FdError Bytes

-- `readBlock`
unfoldable pub read_block : Blocks → ℕ → Result FdError Bytes
read_block bs i = if leb bs.count i then err (out_of_range i) else bs.strategy i

-- What the loop of `Read` ends with: the bytes copied so far and the offset, or an error.
abbrev pub Progress : Type 0
Progress = Result FdError (Bytes × ℕ)

-- one round: the block's bytes from the offset on, or the way the loop ends
pub data Round : Type 0 where
  copied : Bytes → Round
  exhausted : Round
  failed : FdError → Round

-- nothing read is the end of the file, and leaves the offset
abbrev pub finish_read : Fd → Option Progress → Option (Fd × Result FdError Bytes)
finish_read fd none = none
finish_read fd (some (err e)) = some (fd, err e)
finish_read fd (some (ok ([], off))) = some (fd, err eof)
finish_read fd (some (ok (b ∷ l, off))) = some (record fd { offset = off }, ok (b ∷ l))

-- `io.EOF` when fewer bytes were read than asked for
abbrev pub finish_read_at : ℕ → Option (Bytes × Option FdError) → Option (Bytes × Option FdError)
finish_read_at n none = none
finish_read_at n (some (l, some e)) = some (l, some e)
finish_read_at n (some (l, none)) = some (l, if ltb (length l) n then some eof else none)

module _ (size : ℕ) (bs : Blocks) where
  unfoldable pub round : ℕ → ℕ → Round
  round n off = elim (read_block bs (off / size)) [
    | err e ↦ failed e
    | ok plain ↦
        if leb (length plain) (off % size)
        then exhausted
        else copied (take n (drop (off % size) plain))
  ]

  -- The loop of `Read` for `n` more bytes; the outer `none` is a loop that does not end within
  -- one round for each byte.
  unfoldable pub read_loop : ℕ → ℕ → ℕ → ℕ → Bytes → Option Progress
  read_loop fuel zero off file_size acc = some (ok (acc, off))
  read_loop zero (suc n) off file_size acc = none
  read_loop (suc fuel) (suc n) off file_size acc =
      if leb file_size off then some (ok (acc, off)) else elim (round (suc n) off) [
        | failed e ↦ some (if length acc == 0 then err e else ok (acc, off))
        | exhausted ↦ some (ok (acc, off))
        | copied l ↦ read_loop fuel (suc n - length l) (off + length l) file_size (acc ++ l)
      ]

  unfoldable pub read : ℕ → Fd → Option (Fd × Result FdError Bytes)
  read zero fd = some (fd, ok [])
  read (suc n) fd =
      if fd.closed
      then some (fd, err err_closed)
      else if leb fd.file_size fd.offset
      then some (fd, err eof)
      else finish_read fd (read_loop (suc n) (suc n) fd.offset fd.file_size [])

  -- The loop of `ReadAt`: an error comes with the bytes read before it, and the loop ends at the
  -- last block.
  unfoldable pub read_at_loop : ℕ → ℕ → ℕ → ℕ → Bytes → Option (Bytes × Option FdError)
  read_at_loop fuel zero off file_size acc = some (acc, none)
  read_at_loop zero (suc n) off file_size acc = none
  read_at_loop (suc fuel) (suc n) off file_size acc =
      if leb file_size off
      then some (acc, none)
      else if leb bs.count (off / size)
      then some (acc, none)
      else elim (round (suc n) off) [
        | failed e ↦ some (acc, some e)
        | exhausted ↦ some (acc, none)
        | copied l ↦ read_at_loop fuel (suc n - length l) (off + length l) file_size (acc ++ l)
      ]

  unfoldable pub read_at : ℕ → ℕ → Fd → Option (Bytes × Option FdError)
  read_at zero off fd = some ([], none)
  read_at (suc n) off fd =
      if fd.closed
      then some ([], some err_closed)
      else if leb fd.file_size off
      then some ([], some eof)
      else finish_read_at (suc n) (read_at_loop (suc n) (suc n) off fd.file_size [])

-- `io.SeekStart`, `io.SeekCurrent`, `io.SeekEnd`, and any other number
pub data Whence : Type 0 where
  seek_start seek_current seek_end seek_other : Whence

unfoldable pub seek_target : Fd → ℤ → Whence → Option ℤ
seek_target fd offset seek_start = some offset
seek_target fd offset seek_current = some (offset_by fd.offset offset)
seek_target fd offset seek_end = some (offset_by fd.file_size offset)
seek_target fd offset seek_other = none

unfoldable pub seek_to : Fd → Option ℤ → Fd × Result FdError ℕ
seek_to fd none = (fd, err err_invalid)
seek_to fd (some (negsuc n)) = (fd, err err_invalid)
seek_to fd (some (pos n)) =
    if ltb fd.file_size n then (fd, err err_invalid) else (record fd { offset = n }, ok n)

unfoldable pub seek : ℤ → Whence → Fd → Fd × Result FdError ℕ
unfolding seek_target seek_to
seek offset whence fd =
    if fd.closed then (fd, err err_closed) else seek_to fd (seek_target fd offset whence)
