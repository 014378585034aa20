-- ===== src/Drive/Fd/Appending.antt =====
-- `WriteAt` at the end of what has been written sequentially.
use proton_utils.Base.{
  ℕ, zero, suc, ◌+◌, ◌-◌, ◌*◌, ◌/◌, ◌%◌, ◌<◌, ◌≡◌, refl, sym, ap, ◌∙◌, true, false, List, [], ◌∷◌,
  ◌++◌, length, take, drop, length-append, length-take, take_of_length-le, drop_of_length-le, leb,
  ltb, ◌==◌, Bytes, arith, if◌then◌else◌,
}
use native.Mathlib.Nat.{mul-add-div_right, mul-add-mod_self_right, div-eq_of_lt, mod-eq_of_lt}
use proton_utils.Drive.Fd.State.{Fd, Upload}
use proton_utils.Drive.Fd.Write.{
  chunk_size, roll, retarget, extend, overlay, put_chunk, put_chunk_at, write_loop, write_at_loop,
  write, write_at,
}
use proton_utils.Drive.Fd.Stream.{contents, IsFull, Stream, put_chunk-Advanced, chunk_size_bounds}

overlay-end : (cur chunk : Bytes) → overlay cur (length cur) chunk ≡ cur ++ chunk
unfolding overlay
overlay-end cur [] =
    let covered : leb (length cur + 0) (length cur) ≡ true = ground arith in
    rw (covered, take_of_length-le (length cur) cur (omega arith))
      (ap (λ l. cur ++ l) (drop_of_length-le (length cur + 0) cur (omega arith)))
overlay-end cur (b ∷ chunk) =
    let beyond : leb (length cur + suc (length chunk)) (length cur) ≡ false = ground arith in
    let at_end : ltb (length cur) (length cur) ≡ false = ground arith in
    let none_left : length cur - length cur ≡ 0 = omega arith in
    rw (beyond, at_end) (ap (λ k. cur ++ drop k (b ∷ chunk)) none_left)

IsFull-length :
    (size i : ℕ) (us : List Upload) → IsFull size i us → length (contents us) ≡ length us * size
IsFull-length size i [] h = omega arith
IsFull-length size i (u ∷ us) h =
    length-append u.1 (contents us) ∙ omega (arith, h.1, IsFull-length size (suc i) us h.2)

module _ (size : ℕ) (positive : 0 < size) where
  Stream-length :
      (fd : Fd) {before : Bytes}
      → Stream size fd before
      → length before ≡ fd.cur_idx * size + length fd.cur_block
  Stream-length fd s =
      ap length (sym s.joined)
      ∙ length-append (contents fd.inflight) fd.cur_block
      ∙ omega (arith, ap (λ k. k * size) s.idx, IsFull-length size 0 fd.inflight s.full)

  target : (q n : ℕ) → n < size → (q * size + n) / size ≡ q
  target q n h = mul-add-div_right positive q n ∙ omega (arith, div-eq_of_lt h)

  within : (q n : ℕ) → n < size → (q * size + n) % size ≡ n
  within q n h = mul-add-mod_self_right q size n ∙ mod-eq_of_lt h

  retarget-same : (target' : ℕ) (fd : Fd) → target' ≡ fd.cur_idx → retarget size target' fd ≡ fd
  unfolding retarget
  retarget-same target' fd e =
      let here : (target' == fd.cur_idx) ≡ true = ground arith in rw here refl

  extend-same :
      (block_off : ℕ) (fd : Fd) → block_off ≡ length fd.cur_block → extend size block_off fd ≡ fd
  unfolding extend
  extend-same block_off fd e =
      let reached : ltb (length fd.cur_block) block_off ≡ false = ground arith in rw reached refl

  put_chunk_at-end :
      (chunk : Bytes) (fd : Fd) (off : ℕ)
      → length fd.cur_block < size
      → off ≡ fd.cur_idx * size + length fd.cur_block
      → fd.file_size ≡ off
      → put_chunk_at size chunk off fd ≡ put_chunk size chunk fd
  unfolding put_chunk_at put_chunk
  put_chunk_at-end chunk fd off h e f =
      let n = length fd.cur_block in
      let idx : off / size ≡ fd.cur_idx = ap (λ o. o / size) e ∙ target fd.cur_idx n h in
      let pos : off % size ≡ n = ap (λ o. o % size) e ∙ within fd.cur_idx n h in
      let stays : extend size (off % size) (retarget size (off / size) fd) ≡ fd =
        ap (extend size (off % size)) (retarget-same (off / size) fd idx)
        ∙ extend-same (off % size) fd pos in
      let placed : overlay fd.cur_block (off % size) chunk ≡ fd.cur_block ++ chunk =
        ap (λ o. overlay fd.cur_block o chunk) pos ∙ overlay-end fd.cur_block chunk in
      let grown : (if ltb fd.file_size (off + length chunk)
            then off + length chunk
            else fd.file_size)
          ≡ fd.file_size + length chunk =
        ground arith in
      ap
        (λ (g : Fd). roll size (record g {
          cur_block = overlay g.cur_block (off % size) chunk;
          file_size =
              if ltb g.file_size (off + length chunk) then off + length chunk else g.file_size;
        }))
        stays
      ∙ (λ i. roll size (record fd { cur_block = placed i; file_size = grown i }))

  write_at_loop-end :
      (fuel : ℕ) (p : Bytes) (fd : Fd) (off total : ℕ) {before : Bytes}
      → Stream size fd before
      → off ≡ length before
      → fd.file_size ≡ off
      → write_at_loop size fuel p off fd total ≡ write_loop size fuel p fd total
  unfolding write_at_loop write_loop
  write_at_loop-end zero [] fd off total s e f = refl
  write_at_loop-end zero (b ∷ p) fd off total s e f = refl
  write_at_loop-end (suc fuel) [] fd off total s e f = refl
  write_at_loop-end (suc fuel) (b ∷ p) fd off total {before} s e f =
      let at = e ∙ Stream-length fd s in
      let n = length fd.cur_block in
      let pos : off % size ≡ n = ap (λ o. o % size) at ∙ within fd.cur_idx n s.short in
      let k = chunk_size (size - n) (suc (length p)) in
      let bounds = chunk_size_bounds (size - n) (length p) (omega (arith, s.short)) in
      let head = take k (b ∷ p) in
      let taken : length head ≡ k = length-take k (b ∷ p) ∙ omega (arith, bounds) in
      let step =
        put_chunk-Advanced size positive head fd s (omega (arith, taken, bounds, s.short)) in
      ap
        (λ o.
          let c = chunk_size (size - o) (suc (length p)) in
          write_at_loop size fuel (drop c (b ∷ p)) (off + c)
            (put_chunk_at size (take c (b ∷ p)) off fd) (total + c))
        pos
      ∙ ap (λ (g : Fd). write_at_loop size fuel (drop k (b ∷ p)) (off + k) g (total + k))
          (put_chunk_at-end head fd off s.short at f)
      ∙ write_at_loop-end fuel (drop k (b ∷ p)) (put_chunk size head fd) (off + k) (total + k)
          step.stream (ap (λ o. o + k) e ∙ omega (arith, taken, length-append before head))
          (ap (λ (g : Fd). g.file_size) step.same ∙ omega (arith, f, taken))

  -- Where the bytes written so far are `before`, in order from the start, `WriteAt` at their end
  -- does just what `Write` does: the same blocks, the same size and the same errors.
  pub write_at-write :
      (p : Bytes) (fd : Fd) {before : Bytes}
      → Stream size fd before
      → fd.file_size ≡ length before
      → write_at size p (length before) fd ≡ write size p fd
  unfolding write_at write
  write_at-write [] fd s f = refl
  write_at-write (b ∷ p) fd {before} s f =
      rw (write_at_loop-end (suc (length p)) (b ∷ p) fd (length before) 0 s refl f) refl
