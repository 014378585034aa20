-- ===== src/Drive/Fd/Stream.antt =====
-- Sequential writing: what the blocks handed over and the current block hold together.
use proton_utils.Base.{
  ℕ, zero, suc, ◌+◌, ◌-◌, ◌≤◌, ◌<◌, ◌≡◌, refl, sym, ap, ◌∙◌, true, false, some, List, [], ◌∷◌, ◌++◌,
  append-nil, append_assoc, length, take, drop, length-append, length-take, length-drop,
  take-append-drop, ◌==◌, Bool-cases, inl, inr, ==_iff, Bytes, ok, arith, subst,
}
use proton_utils.Drive.Fd.State.{Fd, is_write, Upload}
use proton_utils.Drive.Fd.Write.{chunk_size, put_chunk, write_loop, write}

-- The data of the blocks, in order.
abbrev pub contents : List Upload → Bytes
contents [] = []
contents (u ∷ us) = u.1 ++ contents us

-- The blocks are numbered from `i` on and each holds `size` bytes.
abbrev pub IsFull : ℕ → ℕ → List Upload → Type 0
IsFull size i [] = Unit
IsFull size i (u ∷ us) = (u.0 ≡ i) × (length u.1 ≡ size) × IsFull size (suc i) us

pub contents-append : (us vs : List Upload) → contents (us ++ vs) ≡ contents us ++ contents vs
contents-append [] vs = refl
contents-append (u ∷ us) vs =
    ap (λ rest. u.1 ++ rest) (contents-append us vs)
    ∙ sym (append_assoc u.1 (contents us) (contents vs))

pub contents-concat :
    (us : List Upload) (i : ℕ) (block : Bytes)
    → contents (us ++ (i, block) ∷ []) ≡ contents us ++ block
contents-concat us i block =
    contents-append us ((i, block) ∷ []) ∙ ap (λ rest. contents us ++ rest) (append-nil block)

pub IsFull-concat :
    (size i : ℕ) (us : List Upload) (j : ℕ) (block : Bytes)
    → IsFull size i us
    → j ≡ i + length us
    → length block ≡ size
    → IsFull size i (us ++ (j, block) ∷ [])
IsFull-concat size i [] j block h e l = (omega arith, l, tt)
IsFull-concat size i (u ∷ us) j block h e l =
    (h.0, h.1, IsFull-concat size (suc i) us j block h.2 (omega arith) l)

-- What has been written since the revision began: the blocks handed over are full and numbered
-- from 0, and with the current block, which has room, they are the data.
pub record Stream (size : ℕ) (fd : Fd) (data_written : Bytes) : Type 0 where
  pub joined : contents fd.inflight ++ fd.cur_block ≡ data_written
  pub full : IsFull size 0 fd.inflight
  pub idx : fd.cur_idx ≡ length fd.inflight
  pub short : length fd.cur_block < size

abbrev pub advance : Fd → List Upload → ℕ → Bytes → ℕ → Fd
advance fd us i cur n = record fd { inflight = us; cur_idx = i; cur_block = cur; file_size = n }

-- `fd'` is `fd` after `n` more bytes, in all that writing may change.
pub record Advanced (size : ℕ) (fd fd' : Fd) (n : ℕ) (data_written : Bytes) : Type 0 where
  pub same : fd' ≡ advance fd fd'.inflight fd'.cur_idx fd'.cur_block (fd.file_size + n)
  pub stream : Stream size fd' data_written

pub chunk_size_bounds :
    (space n : ℕ)
    → 0 < space
    → (0 < chunk_size space (suc n))
      × (chunk_size space (suc n) ≤ space)
      × (chunk_size space (suc n) ≤ suc n)
unfolding chunk_size
chunk_size_bounds space n h = ground arith

module _ (size : ℕ) (positive : 0 < size) where
  pub put_chunk-Advanced :
      (chunk : Bytes) (fd : Fd) {before : Bytes}
      → Stream size fd before
      → length fd.cur_block + length chunk ≤ size
      → Advanced size fd (put_chunk size chunk fd) (length chunk) (before ++ chunk)
  unfolding put_chunk
  put_chunk-Advanced chunk fd {before} s fits =
      elim (Bool-cases (length (fd.cur_block ++ chunk) == size)) [
        | inl whole ↦ rw whole (record {
          same = refl;
          stream = record {
            joined =
                append-nil _
                ∙ contents-concat fd.inflight fd.cur_idx (fd.cur_block ++ chunk)
                ∙ sym (append_assoc (contents fd.inflight) fd.cur_block chunk)
                ∙ ap (λ l. l ++ chunk) s.joined;
            full =
                IsFull-concat size 0 fd.inflight fd.cur_idx (fd.cur_block ++ chunk) s.full
                  (omega (arith, s.idx)) ((==_iff _ size).0 whole);
            idx = omega (
              arith,
              s.idx,
              length-append fd.inflight ((fd.cur_idx, fd.cur_block ++ chunk) ∷ []),
            );
            short = positive;
          };
        })
        | inr part ↦ rw part (record {
          same = refl;
          stream = record {
            joined =
                sym (append_assoc (contents fd.inflight) fd.cur_block chunk)
                ∙ ap (λ l. l ++ chunk) s.joined;
            full = s.full;
            idx = s.idx;
            short = room part;
          };
        })
      ]
    where
      room :
          (length (fd.cur_block ++ chunk) == size) ≡ false → length (fd.cur_block ++ chunk) < size
      room part = ground (arith, length-append fd.cur_block chunk)

  pub Advanced-trans :
      (a b c : Fd) (m n : ℕ) {mid last : Bytes}
      → Advanced size a b m mid
      → Advanced size b c n last
      → Advanced size a c (m + n) last
  Advanced-trans a b c m n p q = record {
    same =
        q.same
        ∙ ap (λ f. advance f c.inflight c.cur_idx c.cur_block (f.file_size + n)) p.same
        ∙ ap (λ k. advance a c.inflight c.cur_idx c.cur_block k) (omega arith);
    stream = q.stream;
  }

  pub Advanced-cast :
      (a b : Fd) {m n : ℕ} {d e : Bytes}
      → m ≡ n
      → d ≡ e
      → Advanced size a b m d
      → Advanced size a b n e
  Advanced-cast a b p q h = record {
    same = h.same ∙ ap (λ k. advance a b.inflight b.cur_idx b.cur_block (a.file_size + k)) p;
    stream = subst (Stream size b) q h.stream;
  }

  pub Advanced-refl : (fd : Fd) {d : Bytes} → Stream size fd d → Advanced size fd fd 0 d
  Advanced-refl fd s = record {
    same = ap (advance fd fd.inflight fd.cur_idx fd.cur_block) (omega arith);
    stream = s;
  }

  -- The loop ends within one round for each byte, and has then taken all the bytes.
  write_loop-Advanced :
      (fuel : ℕ) (p : Bytes) (fd : Fd) (total : ℕ) {before : Bytes}
      → Stream size fd before
      → length p ≤ fuel
      → (fd' : Fd) × (write_loop size fuel p fd total ≡ some (fd', total + length p))
        × Advanced size fd fd' (length p) (before ++ p)
  unfolding write_loop
  write_loop-Advanced fuel [] fd total s h = (
    fd,
    ap (λ k. some (fd, k)) (omega arith),
    Advanced-cast fd fd refl (sym (append-nil _)) (Advanced-refl fd s),
  )
  write_loop-Advanced zero (b ∷ p) fd total s h = absurd (omega arith)
  write_loop-Advanced (suc fuel) (b ∷ p) fd total {before} s h =
      let n = chunk_size (size - length fd.cur_block) (suc (length p)) in
      let bound =
        chunk_size_bounds (size - length fd.cur_block) (length p) (omega (arith, s.short)) in
      let head = take n (b ∷ p) in
      let rest = drop n (b ∷ p) in
      let head_length : length head ≡ n = omega (arith, length-take n (b ∷ p)) in
      let rest_length : length rest ≡ suc (length p) - n = length-drop n (b ∷ p) in
      let step = put_chunk-Advanced head fd s (omega (arith, s.short)) in
      let (fd', run, later) =
        write_loop-Advanced fuel rest (put_chunk size head fd) (total + n) step.stream
          (omega arith) in
      (
        fd',
        run ∙ ap (λ k. some (fd', k)) (omega arith),
        Advanced-cast fd fd' (omega arith)
            (append_assoc before head rest ∙ ap (λ l. before ++ l) (take-append-drop n (b ∷ p)))
            (Advanced-trans fd (put_chunk size head fd) fd' (length head) (length rest) step later),
      )

  -- `Write` on an open write descriptor takes all its bytes: the blocks and the current block then
  -- hold what was written before, followed by them, and the size has grown by their number.
  pub write-Advanced :
      (p : Bytes) (fd : Fd) {before : Bytes}
      → fd.closed ≡ false
      → is_write fd.mode ≡ true
      → Stream size fd before
      → (fd' : Fd) × (write size p fd ≡ some (fd', ok (length p)))
        × Advanced size fd fd' (length p) (before ++ p)
  unfolding write
  write-Advanced [] fd c m s =
      (fd, refl, Advanced-cast fd fd refl (sym (append-nil _)) (Advanced-refl fd s))
  write-Advanced (b ∷ p) fd c m s =
      let (fd', run, a) = write_loop-Advanced (suc (length p)) (b ∷ p) fd 0 s (omega arith) in
      (fd', simp (c, m, run) (ap (λ k. some (fd', ok k)) (omega arith)), a)
