-- ===== src/Drive/Fd/Rewrite.antt =====
-- Writing on after a `Flush` that committed full blocks: the block index goes on, and the commit
-- counts from 0.
use proton_utils.Drive.XAttr.{RevisionXAttr}
use proton_utils.Drive.Fd.Stream.{contents}
use proton_utils.Drive.Fd.Completion.{Completes}
use proton_utils.Drive.Fd.Waits.{outcome}
use proton_utils.Drive.Fd.Manifests.{upload_each, manifest_of}
use proton_utils.Drive.Fd.Session.{write_all, concat_all, written}
use proton_utils.Base.{
  sym, List, Bool, Option, ◌++◌, append-nil, inl, ℕ, suc, ◌+◌, ◌-◌, ◌<◌, ◌≡◌, refl, ap, ◌∙◌, true,
  false, not, ◌&&◌, none, some, [], ◌∷◌, length, take, drop, take_of_length-le, drop_of_length-le,
  ◌==◌, if◌then◌else◌, Bytes, lookup, insert, size, nat_eq, Result, ok, err, ◌>>=◌, arith,
}
use proton_utils.Drive.Fd.State.{
  Upload, UpdateRevisionReq, new_write_fd, Fd, FdError, missing_block, is_write, UploadedBlock,
  Remote,
}
use proton_utils.Drive.Fd.Write.{chunk_size, put_chunk, write_loop, write}
use proton_utils.Drive.Fd.Flush.{flush-is_write, flush_commits}
use proton_utils.Drive.Fd.Failures.{IsClean}
use proton_utils.Drive.Fd.Commit.{
  no_blocks, gather, send_manifest, submit_partial, encrypt_and_upload_block, record_result,
  complete, complete_all, wait, accept, commit_revision_from_tokens, decide_commit, after_commit,
  flush,
}

module _ (size' : ℕ) where
  put_chunk-short :
      (q : Bytes) (fd : Fd)
      → fd.cur_block ≡ []
      → length q < size'
      → put_chunk size' q fd ≡ record fd { cur_block = q; file_size = fd.file_size + length q }
  unfolding put_chunk
  put_chunk-short q fd e h = ground arith

  chunk_size-short : (n : ℕ) (c : Bytes) → c ≡ [] → n < size' → chunk_size (size' - length c) n ≡ n
  unfolding chunk_size
  chunk_size-short n c e h = ground arith

  write_loop-short :
      (b : ℕ) (p : Bytes) (fd : Fd)
      → fd.cur_block ≡ []
      → suc (length p) < size'
      → write_loop size' (suc (length p)) (b ∷ p) fd 0
        ≡ some (
          record fd { cur_block = b ∷ p; file_size = fd.file_size + suc (length p) },
          suc (length p),
        )
  unfolding write_loop
  write_loop-short b p fd e h =
      let q = b ∷ p in
      let n = suc (length p) in
      let placed =
        ap (λ l. put_chunk size' l fd) (take_of_length-le n q (omega arith))
        ∙ put_chunk-short q fd e h in
      let counted : 0 + n ≡ n = omega arith in
      ap (λ k. write_loop size' (length p) (drop k q) (put_chunk size' (take k q) fd) (0 + k))
        (chunk_size-short n fd.cur_block e h)
      ∙ ap (λ l. write_loop size' (length p) l (put_chunk size' (take n q) fd) (0 + n))
          (drop_of_length-le n q (omega arith))
      ∙ (λ i. some (placed i, counted i))

  write-short :
      (q : Bytes) (fd : Fd)
      → fd.closed ≡ false
      → is_write fd.mode ≡ true
      → fd.cur_block ≡ []
      → 0 < length q
      → length q < size'
      → write size' q fd
        ≡ some (record fd { cur_block = q; file_size = fd.file_size + length q }, ok (length q))
  unfolding write
  write-short [] fd c m e p h = absurd (omega arith)
  write-short (b ∷ q) fd c m e p h = simp (c, m, write_loop-short b q fd e h)

-- the wait for a single upload that succeeds
wait_one :
    (r : Remote) (fd : Fd) (i : ℕ) (q : Bytes) (ub : UploadedBlock)
    → encrypt_and_upload_block r fd (i + 1) q ≡ ok ub
    → fd.tokens ≡ []
    → wait r ((i, q) ∷ []) fd ≡ record fd { inflight = []; tokens = (i, ub) ∷ [] }
unfolding wait complete_all complete encrypt_and_upload_block record_result insert
wait_one r fd i q ub u t =
    ap (λ x. record_result r i x (record fd { inflight = [] })) u
    ∙ (λ j. record fd { inflight = []; tokens = insert i ub (t j) })

submit_partial-gap :
    (fd : Fd) (q : Bytes) (i : ℕ)
    → 0 < length q
    → fd.inflight ≡ []
    → fd.cur_idx ≡ i
    → submit_partial (record fd { cur_block = q })
      ≡ record fd { inflight = (i, q) ∷ []; cur_block = [] }
unfolding submit_partial
submit_partial-gap fd q i p n x = ground arith

gather_gap :
    (i : ℕ) (ub : UploadedBlock)
    → 0 < i
    → gather 1 0 ((i, ub) ∷ []) no_blocks ≡ err (missing_block 0)
unfolding gather lookup
gather_gap i ub p = ground arith

commit_gap :
    (r : Remote) (fd : Fd) (i : ℕ) (ub : UploadedBlock)
    → 0 < i
    → fd.tokens ≡ (i, ub) ∷ []
    → commit_revision_from_tokens r true fd ≡ (fd, err (missing_block 0))
unfolding commit_revision_from_tokens accept size
commit_gap r fd i ub p t =
    ap
      (λ k.
        if size k == 0 && false
        then (fd, ok tt)
        else accept r fd (gather (size k) 0 k no_blocks >>= send_manifest r fd))
      t
    ∙ ap (λ g. accept r fd (g >>= send_manifest r fd)) (gather_gap i ub p)

decide_commit_gap :
    (r : Remote) (fd : Fd) (i : ℕ) (ub : UploadedBlock)
    → 0 < i
    → fd.tokens ≡ (i, ub) ∷ []
    → decide_commit r true fd none ≡ (fd, err (missing_block 0))
unfolding decide_commit after_commit
decide_commit_gap r fd i ub p t =
    let due : (size fd.tokens == 0 && false && not (fd.is_new && not fd.committed)) ≡ false =
      ground arith in
    rw due (rw (commit_gap r fd i ub p t) refl)

-- With nothing buffered, in flight or uploaded and an index that is not 0, a short `Write` and a
-- `Flush` leave the server as it was.
flush-write_clean :
    (r : Remote) (size' : ℕ) (fd : Fd) (q : Bytes) (i : ℕ) (ub : UploadedBlock)
    → IsClean fd
    → fd.closed ≡ false
    → is_write fd.mode ≡ true
    → fd.cur_idx ≡ i
    → 0 < i
    → 0 < length q
    → length q < size'
    → encrypt_and_upload_block r fd (i + 1) q ≡ ok ub
    → (fd' : Fd) × (write size' q fd ≡ some (fd', ok (length q)))
      × ((flush r ((i, q) ∷ []) fd').1 ≡ err (missing_block 0))
      × ((flush r ((i, q) ∷ []) fd').0.accepted ≡ fd.accepted)
unfolding encrypt_and_upload_block
flush-write_clean r size' fd q i ub clean c m x o p h u =
    let fd' : Fd = record fd { cur_block = q; file_size = fd.file_size + length q } in
    let sent : Fd = record fd {
      inflight = (i, q) ∷ [];
      cur_block = [];
      file_size = fd.file_size + length q;
    } in
    let submits : submit_partial fd' ≡ sent = submit_partial-gap fd' q i p clean.no_inflight x in
    let after : Fd = record sent { inflight = []; tokens = (i, ub) ∷ [] } in
    let waits : wait r ((i, q) ∷ []) (submit_partial fd') ≡ after =
      ap (wait r ((i, q) ∷ [])) submits ∙ wait_one r sent (i) q ub u clean.no_tokens in
    let has_cur : not (length q == 0) ≡ true = ground arith in
    let ends : flush r ((i, q) ∷ []) fd' ≡ (after, err (missing_block 0)) =
      flush-is_write r ((i, q) ∷ []) fd' m
      ∙ ap (λ (f : Fd). decide_commit r (not (length q == 0)) f f.first_err) waits
      ∙ ap (decide_commit r (not (length q == 0)) after) clean.no_error
      ∙ ap (λ b. decide_commit r b after none) has_cur
      ∙ decide_commit_gap r after i ub o refl in
    (
      fd',
      write-short size' q fd c m clean.no_partial p h,
      ap (λ (y : Fd × Result FdError (Unit {0})). y.1) ends,
      ap (λ (y : Fd × Result FdError (Unit {0})). y.0.accepted) ends,
    )

contents-pos : (us : List Upload) → 0 < length (contents us) → 0 < length us
contents-pos [] h = absurd (omega arith)
contents-pos (u ∷ us) h = omega arith

-- Any writes to a new descriptor that fill whole blocks, at least one, are flushed: the uploads, in
-- any order, and the request succeed. Then a `Write` of less than a block succeeds, and the `Flush`
-- after it, though its upload succeeds, fails with a missing block 0; the server has accepted the
-- first request only.
pub flush-write_gap :
    (r : Remote) (size' : ℕ) (is_new : Bool) (revision code : Bytes) (prior : Option RevisionXAttr)
    (ps : List Bytes) (fd : Fd) (order : List Upload) (ubs : List UploadedBlock)
    (req : UpdateRevisionReq) (q : Bytes) (ub : UploadedBlock)
    → write_all size' ps (new_write_fd is_new revision code prior) ≡ some fd
    → fd.cur_block ≡ []
    → 0 < length (concat_all ps)
    → Completes (submit_partial fd).inflight order
    → upload_each (outcome r fd) (submit_partial fd).inflight ≡ ok ubs
    → send_manifest r fd (manifest_of ubs) ≡ ok req
    → 0 < length q
    → length q < size'
    → encrypt_and_upload_block r fd (fd.cur_idx + 1) q ≡ ok ub
    → (fd₁ fd₂ : Fd) × (flush r order fd ≡ (fd₁, ok tt))
      × (write size' q fd₁ ≡ some (fd₂, ok (length q)))
      × ((flush r ((fd.cur_idx, q) ∷ []) fd₂).1 ≡ err (missing_block 0))
      × ((flush r ((fd.cur_idx, q) ∷ []) fd₂).0.accepted ≡ req ∷ [])
unfolding new_write_fd encrypt_and_upload_block
flush-write_gap r size' is_new revision code prior ps fd order ubs req q ub h e some_data c u s p
      short v =
    let positive : 0 < size' = omega arith in
    let a = written size' positive is_new revision code prior ps fd h in
    let done =
      flush_commits r size' fd order positive a.stream (ap (λ (f : Fd). is_write f.mode) a.same)
        (ap (λ (f : Fd). f.tokens) a.same) (ap (λ (f : Fd). f.first_err) a.same) c u s
        (inl some_data) in
    let fd₁ : Fd = record fd {
      inflight = [];
      cur_block = [];
      tokens = [];
      first_err = none;
      committed = true;
      accepted = fd.accepted ++ req ∷ [];
      invalidations = fd.invalidations + 1;
    } in
    let clean : IsClean fd₁ = record {
      no_partial = refl;
      no_inflight = refl;
      no_tokens = refl;
      no_error = refl;
      settled = ground arith;
    } in
    let whole : contents fd.inflight ≡ concat_all ps =
      sym (append-nil (contents fd.inflight))
      ∙ (ap (λ x. contents fd.inflight ++ x) (sym e) ∙ a.stream.joined) in
    let some_blocks : 0 < length fd.inflight =
      contents-pos fd.inflight (omega (arith, ap length whole)) in
    let (fd₂, writes, fails, kept) =
      flush-write_clean r size' fd₁ q fd.cur_idx ub clean (ap (λ (f : Fd). f.closed) a.same)
        (ap (λ (f : Fd). is_write f.mode) a.same) refl (omega (arith, a.stream.idx)) p short v in
    (fd₁, fd₂, done, writes, fails, kept ∙ ap (λ (f : Fd). f.accepted ++ req ∷ []) a.same)
