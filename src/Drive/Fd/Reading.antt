-- ===== src/Drive/Fd/Reading.antt =====
-- What `Read` and `ReadAt` return from a file whose blocks hold its data.
use Prim.Native.Nat.{min}
use proton_utils.Base.{
  ℕ, zero, suc, ◌+◌, ◌-◌, ◌*◌, ◌/◌, ◌%◌, ◌≤◌, ◌<◌, ◌≡◌, refl, sym, ap, ◌∙◌, true, false, Option,
  none, some, [], ◌∷◌, ◌++◌, append-nil, append_assoc, length, take, drop, length-take, length-drop,
  take-take, drop-drop, drop-take, take-rest, drop_count, drop_of_length-le, Bool-cases, inl, inr,
  leb, ltb, leb→le, leb→lt, if◌then◌else◌, div-add-mod, mod-lt, Bytes, ok, arith,
}
use proton_utils.Drive.Fd.State.{Fd, eof}
use proton_utils.Drive.Fd.Read.{
  Blocks, Progress, read_block, copied, round, read_loop, finish_read, read, read_at_loop, read_at,
}

-- The blocks hold the data: each that begins within it is in range and decrypts to its part.
pub record Serves (size : ℕ) (bs : Blocks) (file : Bytes) : Type 0 where
  pub in_range : (i : ℕ) → i * size < length file → i < bs.count
  pub content :
      (i : ℕ) → i * size < length file → bs.strategy i ≡ ok (take size (drop (i * size) file))

leb-false : (a b : ℕ) → b < a → leb a b ≡ false
leb-false a b h = ground arith

leb-true : (a b : ℕ) → a ≤ b → leb a b ≡ true
leb-true a b h = ground arith

finish_read-ok :
    (fd : Fd) (l : Bytes) (off : ℕ)
    → 0 < length l
    → finish_read fd (some (ok (l, off))) ≡ some (record fd { offset = off }, ok l)
finish_read-ok fd [] off h = absurd (omega arith)
finish_read-ok fd (b ∷ l) off h = refl

progress_path :
    (a a' : Bytes) (o o' : ℕ)
    → a ≡ a'
    → o ≡ o'
    → ◌≡◌ {A = Option Progress} (some (ok (a, o))) (some (ok (a', o')))
progress_path a a' o o' p q = λ i. some (ok (p i, q i))

module _ (size : ℕ) (positive : 0 < size) (bs : Blocks) (file : Bytes)
    (serves : Serves size bs file) where
  block_start : (off : ℕ) → off / size * size + off % size ≡ off
  block_start off = omega (arith, div-add-mod off size)

  read_block-content :
      (off : ℕ)
      → off < length file
      → read_block bs (off / size) ≡ ok (take size (drop (off / size * size) file))
  unfolding read_block
  read_block-content off h =
      let below : off / size * size < length file = omega (arith, block_start off) in
      rw (leb-false bs.count (off / size) (serves.in_range (off / size) below))
        (serves.content (off / size) below)

  round-copied :
      (n off : ℕ)
      → off < length file
      → round size bs n off ≡ copied (take (min n (size - off % size)) (drop off file))
  unfolding round
  round-copied n off h =
      let plain = take size (drop (off / size * size) file) in
      let more : off % size < length plain = omega (
        arith,
        block_start off,
        mod-lt off positive,
        length-take size (drop (off / size * size) file),
        length-drop (off / size * size) file,
      ) in
      rw (read_block-content off h, round, leb-false (length plain) (off % size) more)
        (ap (λ l. copied (take n l))
            (drop-take (off % size) size (drop (off / size * size) file)
              ∙ ap (take (size - off % size)) (
                  drop-drop (off % size) (off / size * size) file
                  ∙ drop_count file (off / size * size + off % size) off (block_start off)))
          ∙ ap copied (take-take n (size - off % size) (drop off file)))

  -- The loop ends within one round for each byte asked for, with the file's bytes from the
  -- offset on, as many as were asked for or as there are.
  read_loop-eq :
      (fuel n off : ℕ) (acc : Bytes)
      → n ≤ fuel
      → read_loop size bs fuel n off (length file) acc
        ≡ some (ok (acc ++ take n (drop off file), off + length (take n (drop off file))))
  unfolding read_loop
  read_loop-eq fuel zero off acc h =
      progress_path acc (acc ++ []) off (off + 0) (sym (append-nil acc)) (omega arith)
  read_loop-eq zero (suc n) off acc h = absurd (omega arith)
  read_loop-eq (suc fuel) (suc n) off acc h = elim (Bool-cases (leb (length file) off)) [
    | inl over ↦
        rw (over, drop_of_length-le off file (leb→le (length file) off over))
          (progress_path acc (acc ++ []) off (off + 0) (sym (append-nil acc)) (omega arith))
    | inr within ↦
        let below = leb→lt (length file) off within in
        let rest = drop off file in
        let j = min (suc n) (size - off % size) in
        let l = take j rest in
        let count : length l ≡ min j (length file - off) =
          omega (arith, length-take j rest, length-drop off file) in
        let rest' = drop (off + length l) file in
        rw (within, round-copied (suc n) off below)
          (read_loop-eq fuel (suc n - length l) (off + length l) (acc ++ l)
              (omega (arith, mod-lt off positive))
            ∙ progress_path _ _ _ _
                (append_assoc acc l (take (suc n - length l) rest')
                  ∙ ap (λ t. acc ++ t)
                      (ap (λ t. l ++ take (suc n - length l) t)
                          (sym (drop-drop (length l) off file))
                        ∙ sym (take-rest (suc n) j rest (omega arith))))
                (omega (
                  arith,
                  count,
                  length-take (suc n - length l) rest',
                  length-drop (off + length l) file,
                  length-take (suc n) rest,
                  length-drop off file,
                )))
  ]

  read-loop :
      (n : ℕ) (fd : Fd)
      → fd.closed ≡ false
      → leb fd.file_size fd.offset ≡ false
      → 0 < n
      → read size bs n fd ≡ finish_read fd (read_loop size bs n n fd.offset fd.file_size [])
  unfolding read
  read-loop zero fd c w p = absurd (omega arith)
  read-loop (suc n) fd c w p = simp (c, w)

  -- `Read` before the end returns the file's bytes from the offset on, as many as were asked for or
  -- as there are, and moves the offset by their number.
  pub read-content :
      (n : ℕ) (fd : Fd)
      → fd.closed ≡ false
      → fd.file_size ≡ length file
      → fd.offset < length file
      → 0 < n
      → read size bs n fd
        ≡ some (
          record fd { offset = fd.offset + length (take n (drop fd.offset file)) },
          ok (take n (drop fd.offset file)),
        )
  unfolding read
  read-content zero fd c s h p = absurd (omega arith)
  read-content (suc n) fd c s h p =
      let l = take (suc n) (drop fd.offset file) in
      read-loop (suc n) fd c (leb-false fd.file_size fd.offset (omega arith)) p
      ∙ ap (λ k. finish_read fd (read_loop size bs (suc n) (suc n) fd.offset k [])) s
      ∙ ap (finish_read fd) (read_loop-eq (suc n) (suc n) fd.offset [] (omega arith))
      ∙ finish_read-ok fd l (fd.offset + length l)
          (omega (arith, length-take (suc n) (drop fd.offset file), length-drop fd.offset file))

  -- The loop of `ReadAt` copies the same bytes.
  read_at_loop-eq :
      (fuel n off : ℕ) (acc : Bytes)
      → n ≤ fuel
      → read_at_loop size bs fuel n off (length file) acc
        ≡ some (acc ++ take n (drop off file), none)
  unfolding read_at_loop
  read_at_loop-eq fuel zero off acc h = ap (λ l. some (l, none)) (sym (append-nil acc))
  read_at_loop-eq zero (suc n) off acc h = absurd (omega arith)
  read_at_loop-eq (suc fuel) (suc n) off acc h = elim (Bool-cases (leb (length file) off)) [
    | inl over ↦
        rw (over, drop_of_length-le off file (leb→le (length file) off over))
          (ap (λ l. some (l, none)) (sym (append-nil acc)))
    | inr within ↦
        let below = leb→lt (length file) off within in
        let rest = drop off file in
        let j = min (suc n) (size - off % size) in
        let l = take j rest in
        let block_there =
          leb-false bs.count (off / size)
            (serves.in_range (off / size) (omega (arith, below, block_start off))) in
        rw (within, block_there, round-copied (suc n) off below)
          (read_at_loop-eq fuel (suc n - length l) (off + length l) (acc ++ l)
              (omega (arith, mod-lt off positive, length-take j rest, length-drop off file))
            ∙ ap (λ t. some (t, none))
                (append_assoc acc l (take (suc n - length l) (drop (off + length l) file))
                  ∙ ap (λ t. acc ++ t)
                      (ap (λ t. l ++ take (suc n - length l) t)
                          (sym (drop-drop (length l) off file))
                        ∙ sym (take-rest (suc n) j rest (omega arith)))))
  ]

  -- `ReadAt` returns the file's bytes from any offset on, and `io.EOF` exactly when they are fewer
  -- than were asked for.
  pub read_at-content :
      (n off : ℕ) (fd : Fd)
      → fd.closed ≡ false
      → fd.file_size ≡ length file
      → read_at size bs n off fd
        ≡ some (
          take n (drop off file),
          if ltb (length (take n (drop off file))) n then some eof else none,
        )
  unfolding read_at
  read_at-content zero off fd c s = refl
  read_at-content (suc n) off fd c s = elim (Bool-cases (leb (length file) off)) [
    | inl over ↦
        simp (c, s, over, drop_of_length-le off file (leb→le (length file) off over)) (ground arith)
    | inr within ↦ simp (c, s, within, read_at_loop-eq (suc n) (suc n) off [] (omega arith))
  ]
