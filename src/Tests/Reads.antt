-- ===== src/Tests/Reads.antt =====
-- Reading a file of three blocks.
use proton_utils.Base.{
  ℕ, ◌*◌, ◌≡◌, refl, false, none, some, [], ◌∷◌, Bytes, Result, ok, arith, take, drop,
}
use proton_utils.Drive.Fd.State.{Fd, FdError, fd_read, new_write_fd, eof}
use proton_utils.Drive.Fd.Read.{Blocks, read, read_at}
use proton_utils.Drive.Fd.Reading.{Serves, read-content, read_at-content}

abbrev file : Bytes
file = 10 ∷ 11 ∷ 12 ∷ 13 ∷ 14 ∷ []

abbrev stored : ℕ → Result FdError Bytes
stored i = ok (take 2 (drop (i * 2) file))

abbrev blocks : Blocks
blocks = record { count = 3; strategy = stored }

blocks-Serves : Serves 2 blocks file
blocks-Serves = record { in_range = λ i h. omega arith; content = λ i h. refl }

abbrev opened : Fd
unfolding new_write_fd
opened = record (new_write_fd false [] [] none) { mode = fd_read; file_size = 5; offset = 1 }

read-content_example :
    read 2 blocks 3 opened ≡ some (record opened { offset = 4 }, ok (11 ∷ 12 ∷ 13 ∷ []))
unfolding new_write_fd
read-content_example =
    read-content 2 (omega arith) blocks file blocks-Serves 3 opened refl refl (omega arith)
      (omega arith)

read_at-content_example : read_at 2 blocks 4 3 opened ≡ some (13 ∷ 14 ∷ [], some eof)
unfolding new_write_fd
read_at-content_example =
    read_at-content 2 (omega arith) blocks file blocks-Serves 4 3 opened refl refl
