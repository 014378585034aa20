-- ===== src/Drive/Fd/Commit.antt =====
-- `encryptAndUploadBlock` and `commitRevisionFromTokens` of api/drive/upload_helpers.go,
-- `computeVerificationToken` of api/drive/proton_endpoint.go, and `Flush`, `Close` and `Sync` of
-- api/drive/fd.go.
use proton_utils.Base.{
  ℕ, zero, suc, ◌+◌, Bool, true, false, not, ◌&&◌, Option, none, some, List, [], ◌∷◌, ◌++◌, length,
  ◌==◌, if◌then◌else◌, Bytes, Map, lookup, insert, size, nat_eq, Result, ok, err, ◌>>=◌,
}
use proton_utils.Drive.XAttr.{build_revision_xattr}
use proton_utils.Drive.Fd.State.{
  Fd, is_write, FdError, err_closed, ebadf, no_upload_link, missing_block, Upload, UploadedBlock,
  UploadLink, UpdateRevisionReq, Remote,
}
use proton_utils.Drive.Fd.Write.{flush_block}

-- the bytes of the code past the end of the data stand as they are
unfoldable pub compute_verification_token : (ℕ → ℕ → ℕ) → Bytes → Bytes → Bytes
compute_verification_token xor [] enc = []
compute_verification_token xor (v ∷ code) [] = v ∷ code
compute_verification_token xor (v ∷ code) (b ∷ enc) =
    xor v b ∷ compute_verification_token xor code enc

abbrev pub first_link : ℕ → List UploadLink → Result FdError UploadLink
first_link i [] = err (no_upload_link i)
first_link i (l ∷ _) = ok l

-- what `commitRevisionFromTokens` builds in its loop
pub record Manifest : Type 0 where
  pub block_tokens : List (ℕ × Bytes)
  pub block_sizes : List ℕ
  pub manifest_data : Bytes
  pub total_size : ℕ

abbrev pub no_blocks : Manifest
no_blocks = record { block_tokens = []; block_sizes = []; manifest_data = []; total_size = 0 }

unfoldable pub add_block : ℕ → UploadedBlock → Manifest → Manifest
add_block i ub m = record {
  block_tokens = m.block_tokens ++ (i + 1, ub.token) ∷ [];
  block_sizes = m.block_sizes ++ ub.raw_size ∷ [];
  manifest_data = m.manifest_data ++ ub.enc_hash;
  total_size = m.total_size + ub.raw_size;
}

unfoldable pub gather : ℕ → ℕ → Map ℕ UploadedBlock → Manifest → Result FdError Manifest
gather zero i tokens m = ok m
gather (suc n) i tokens m = elim (lookup i tokens) [
  | none ↦ err (missing_block i)
  | some ub ↦ gather n (suc i) tokens (add_block i ub m)
]

-- the partial block, if there is one, is handed over; the index stays
unfoldable pub submit_partial : Fd → Fd
unfolding flush_block
submit_partial fd =
    if length fd.cur_block == 0
    then fd
    else record (flush_block fd.cur_idx fd.cur_block fd) { cur_block = [] }

module _ (r : Remote) where
  unfoldable pub encrypt_and_upload_block : Fd → ℕ → Bytes → Result FdError UploadedBlock
  encrypt_and_upload_block fd api_index block = do
    enc ← r.encrypt block
    sig ← r.sign_detached_encrypted block
    links ← r.request_upload (record {
      revision_id = fd.revision_id;
      index = api_index;
      enc_signature = sig;
      verify_token = compute_verification_token r.xor fd.verify_code enc;
    })
    link ← first_link api_index links
    _ ← r.upload_block api_index link enc
    ok (record { token = link.token; enc_hash = r.sha256 enc; raw_size = length block })

  -- `setFirstErr`, or the entry in `tokens`
  unfoldable pub record_result : ℕ → Result FdError UploadedBlock → Fd → Fd
  record_result i (ok ub) fd = record fd { tokens = insert i ub fd.tokens }
  record_result i (err e) fd = record fd {
    first_err = elim fd.first_err [ none ↦ some e | some e' ↦ some e' ];
  }

  -- the goroutine of `flushBlock`
  unfoldable pub complete : Upload → Fd → Fd
  unfolding record_result
  complete (i, block) fd = record_result i (encrypt_and_upload_block fd (i + 1) block) fd

  unfoldable pub complete_all : List Upload → Fd → Fd
  complete_all [] fd = fd
  complete_all (u ∷ order) fd = complete_all order (complete u fd)

  -- `inflight.Wait()`, where the uploads complete in the given order
  unfoldable pub wait : List Upload → Fd → Fd
  wait order fd = complete_all order (record fd { inflight = [] })

  -- from the manifest on: signature, extended attributes, `UpdateRevision`
  unfoldable pub send_manifest : Fd → Manifest → Result FdError UpdateRevisionReq
  send_manifest fd m = do
    sig ← r.sign_detached m.manifest_data
    let x =
        build_revision_xattr r.json fd.prior_xattr r.now m.total_size m.block_sizes fd.unix_mode
          false
    _ ← r.encrypt_xattr x
    let req : UpdateRevisionReq = record {
      revision_id = fd.revision_id;
      block_list = m.block_tokens;
      manifest_signature = sig;
      xattr = x;
    }
    _ ← r.update_revision req
    ok req

  unfoldable pub accept : Fd → Result FdError UpdateRevisionReq → Fd × Result FdError (Unit {0})
  accept fd (ok req) = (record fd { accepted = fd.accepted ++ req ∷ [] }, ok tt)
  accept fd (err e) = (fd, err e)

  unfoldable pub commit_revision_from_tokens : Bool → Fd → Fd × Result FdError (Unit {0})
  unfolding accept send_manifest gather
  commit_revision_from_tokens allow_empty fd =
      if size fd.tokens == 0 && not allow_empty
      then (fd, ok tt)
      else accept fd (gather (size fd.tokens) 0 fd.tokens no_blocks >>= send_manifest fd)

  -- what `Flush` does once the commit has returned
  unfoldable pub after_commit : Fd × Result FdError (Unit {0}) → Fd × Result FdError (Unit {0})
  after_commit (fd, err e) = (fd, err e)
  after_commit (fd, ok _) =
      (record fd { committed = true; tokens = []; invalidations = fd.invalidations + 1 }, ok tt)

  -- `Flush` from its decision whether to commit; the flag is `hasCurBlock`
  unfoldable pub decide_commit : Bool → Fd → Option FdError → Fd × Result FdError (Unit {0})
  unfolding after_commit
  decide_commit has_cur fd (some e) = (fd, err e)
  decide_commit has_cur fd none =
      if size fd.tokens == 0 && not has_cur && not (fd.is_new && not fd.committed)
      then (fd, ok tt)
      else after_commit (commit_revision_from_tokens true fd)

  -- `Flush`, with the order in which the uploads complete
  unfoldable pub flush : List Upload → Fd → Fd × Result FdError (Unit {0})
  unfolding decide_commit wait
  flush order fd =
      let fd' = submit_partial fd in
      if not (is_write fd.mode)
      then (fd', ok tt)
      else let fd'' = wait order fd' in
        decide_commit (not (length fd.cur_block == 0)) fd'' fd''.first_err

  unfoldable pub close : List Upload → Fd → Fd × Result FdError (Unit {0})
  close order fd = if fd.closed then (fd, ok tt) else flush order (record fd { closed = true })

  -- `Sync` once the commit has returned: a new revision, written from its first block
  unfoldable pub next_revision :
      Fd × Result FdError (Unit {0})
      → Result FdError (Bytes × Bytes)
      → Fd × Result FdError (Unit {0})
  next_revision (fd, err e) _ = (fd, err e)
  next_revision (fd, ok _) (err e) = (fd, err e)
  next_revision (fd, ok _) (ok (revision, code)) = (
    record fd {
      revision_id = revision;
      verify_code = code;
      cur_idx = 0;
      cur_block = [];
      tokens = [];
      first_err = none;
    },
    ok tt,
  )

  unfoldable pub sync_waited : Fd → Option FdError → Fd × Result FdError (Unit {0})
  unfolding next_revision
  sync_waited fd (some e) = (fd, err e)
  sync_waited fd none =
      if size fd.tokens == 0
      then (fd, ok tt)
      else next_revision (commit_revision_from_tokens true fd) (r.create_revision fd.revision_id)

  unfoldable pub sync : List Upload → Fd → Fd × Result FdError (Unit {0})
  unfolding sync_waited wait
  sync order fd =
      if fd.closed
      then (fd, err err_closed)
      else if not (is_write fd.mode)
      then (fd, err ebadf)
      else let fd' = wait order (submit_partial fd) in sync_waited fd' fd'.first_err
