-- ===== src/Drive/Fd/Recommit.antt =====
-- The commit that follows a `Sync` with nothing written between.
use proton_utils.Base.{
  ◌+◌, ◌<◌, ◌≡◌, ap, ◌∙◌, true, false, not, ◌&&◌, List, [], ◌∷◌, ◌++◌, length, ◌==◌, size, ok,
  arith,
}
use proton_utils.Drive.XAttr.{build_revision_xattr}
use proton_utils.Drive.Fd.State.{Fd, is_write, Upload, UpdateRevisionReq, Remote}
use proton_utils.Drive.Fd.Flush.{flush-is_write, decide_commit-commits}
use proton_utils.Drive.Fd.Commit.{
  no_blocks, gather, submit_partial, complete_all, wait, send_manifest, decide_commit, flush, sync,
}
use proton_utils.Drive.Fd.Resync.{Begins, sync-Begins}

empty_manifest :
    (r : Remote) (fd : Fd) (req : UpdateRevisionReq)
    → send_manifest r fd no_blocks ≡ ok req
    → (req.block_list ≡ []) × (req.xattr.common.size ≡ 0) × (req.revision_id ≡ fd.revision_id)
unfolding send_manifest build_revision_xattr
empty_manifest r fd req e = ground arith

abbrev emptied : Fd → UpdateRevisionReq → Fd
emptied fd req = record fd {
  committed = true;
  tokens = [];
  accepted = fd.accepted ++ req ∷ [];
  invalidations = fd.invalidations + 1;
}

idle-wait :
    (r : Remote) (fd : Fd)
    → fd.cur_block ≡ []
    → fd.inflight ≡ []
    → wait r [] (submit_partial fd) ≡ fd
unfolding wait submit_partial complete_all
idle-wait r fd c i = ground arith

flush_begun :
    (r : Remote) (fd fd' : Fd) (req : UpdateRevisionReq)
    → Begins fd fd'
    → is_write fd.mode ≡ true
    → (fd.is_new && not fd.committed) ≡ true
    → send_manifest r fd' no_blocks ≡ ok req
    → flush r [] fd' ≡ (emptied fd' req, ok tt)
unfolding size gather send_manifest
flush_begun r fd fd' req b m n e =
    let idle = idle-wait r fd' b.no_partial b.no_inflight in
    let new : (fd'.is_new && not fd'.committed) ≡ true = ground arith in
    flush-is_write r [] fd' (ap is_write b.same_mode ∙ m)
    ∙ ap (λ (f : Fd). decide_commit r (not (length fd'.cur_block == 0)) f f.first_err) idle
    ∙ ap (decide_commit r (not (length fd'.cur_block == 0)) fd') b.no_error
    ∙ decide_commit-commits r (not (length fd'.cur_block == 0)) fd' (ground arith)
        (ap (λ t. gather (size t) 0 t no_blocks) b.no_tokens) e

-- `Sync` on a new file commits the blocks and starts a revision, but does not mark the descriptor
-- as committed. So if nothing is written after a `Sync` that commits, on a new file that has not
-- been committed before, the next `Flush` commits the new revision as it
-- is: with no blocks and of size 0, if the server takes it.
pub flush-sync_empty :
    (r : Remote) (order : List Upload) (fd fd' : Fd) (req : UpdateRevisionReq)
    → fd.closed ≡ false
    → is_write fd.mode ≡ true
    → (fd.is_new && not fd.committed) ≡ true
    → 0 < size (wait r order (submit_partial fd)).tokens
    → sync r order fd ≡ (fd', ok tt)
    → send_manifest r fd' no_blocks ≡ ok req
    → (flush r [] fd' ≡ (emptied fd' req, ok tt))
      × (req.revision_id ≡ fd'.revision_id)
      × (req.block_list ≡ [])
      × (req.xattr.common.size ≡ 0)
flush-sync_empty r order fd fd' req c m n p h e =
    let b = sync-Begins r order fd fd' c m p h in
    let (blocks, bytes, revision) = empty_manifest r fd' req e in
    (flush_begun r fd fd' req b m n e, revision, blocks, bytes)
