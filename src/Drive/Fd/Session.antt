-- ===== src/Drive/Fd/Session.antt =====
-- A whole writing session: a new descriptor, any number of `Write` calls, then `Flush`.
use proton_utils.Base.{
  ℕ, ◌<◌, ◌≡◌, ◌⊎◌, refl, sym, ap, ◌∙◌, subst, Bool, true, false, not, ◌&&◌, Option, none, some,
  List, [], ◌∷◌, ◌++◌, append-nil, append_assoc, length, length-append, Bytes, Result, ok, inl, inr,
  arith,
}
use proton_utils.Drive.XAttr.{RevisionXAttr, build_revision_xattr}
use proton_utils.Drive.Fd.State.{
  Fd, FdError, is_write, new_write_fd, Upload, UploadedBlock, UpdateRevisionReq, Remote,
}
use proton_utils.Drive.Fd.Write.{write}
use proton_utils.Drive.Fd.Commit.{submit_partial, send_manifest, flush}
use proton_utils.Drive.Fd.Stream.{
  contents, Stream, Advanced, Advanced-trans, Advanced-refl, Advanced-cast, write-Advanced,
}
use proton_utils.Drive.Fd.Completion.{Completes}
use proton_utils.Drive.Fd.Waits.{outcome}
use proton_utils.Drive.Fd.Manifests.{
  upload_each, manifest_of, sum, raw_sizes, sum-raw_sizes, numbered_tokens,
}
use proton_utils.Drive.Fd.Flush.{Blocks, submit_partial-Blocks, flush_commits}

-- `Write` for each of the byte strings; `none` when a loop does not end or a call fails
unfoldable pub write_all : ℕ → List Bytes → Fd → Option Fd
write_all size [] fd = some fd
write_all size (p ∷ ps) fd = elim (write size p fd) [
  | some (fd', ok _) ↦ write_all size ps fd'
  | _ ↦ none
]

abbrev pub concat_all : List Bytes → Bytes
concat_all [] = []
concat_all (p ∷ ps) = p ++ concat_all ps

module _ (size : ℕ) (positive : 0 < size) where
  pub write_all-Advanced :
      (ps : List Bytes) (fd : Fd) {before : Bytes}
      → fd.closed ≡ false
      → is_write fd.mode ≡ true
      → Stream size fd before
      → (fd' : Fd) × (write_all size ps fd ≡ some fd')
        × Advanced size fd fd' (length (concat_all ps)) (before ++ concat_all ps)
  unfolding write_all
  write_all-Advanced [] fd c m s = (
    fd,
    refl,
    Advanced-cast size positive fd fd refl (sym (append-nil _)) (Advanced-refl size positive fd s),
  )
  write_all-Advanced (p ∷ ps) fd {before} c m s =
      let (mid, run, a) = write-Advanced size positive p fd c m s in
      let (last, runs, b) =
        write_all-Advanced ps mid (ap (λ (f : Fd). f.closed) a.same ∙ c)
          (ap (λ (f : Fd). is_write f.mode) a.same ∙ m) a.stream in
      (
        last,
        rw (run, write_all) runs,
        Advanced-cast size positive fd last (sym (length-append p (concat_all ps)))
            (append_assoc before p (concat_all ps))
            (Advanced-trans size positive fd mid last (length p) (length (concat_all ps)) a b),
      )

-- what `send_manifest` puts into its request
send_manifest-fields :
    (r : Remote) (fd : Fd) (ubs : List UploadedBlock) (req : UpdateRevisionReq)
    → send_manifest r fd (manifest_of ubs) ≡ ok req
    → (req.revision_id ≡ fd.revision_id)
      × (req.block_list ≡ numbered_tokens 0 ubs)
      × (req.xattr.common.size ≡ sum (raw_sizes ubs))
unfolding send_manifest build_revision_xattr
send_manifest-fields r fd ubs req e = ground arith

module _ (size : ℕ) (positive : 0 < size) (is_new : Bool) (revision code : Bytes)
    (prior : Option RevisionXAttr) (ps : List Bytes) where
  abbrev start : Fd
  start = new_write_fd is_new revision code prior

  start-Stream : Stream size start []
  unfolding new_write_fd
  start-Stream = record { joined = refl; full = tt; idx = refl; short = positive }

  session :
      (fd : Fd) × (write_all size ps start ≡ some fd)
      × Advanced size start fd (length (concat_all ps)) (concat_all ps)
  unfolding new_write_fd
  session = write_all-Advanced size positive ps start refl refl start-Stream

  -- Writing any byte strings to a new descriptor succeeds. The file size is then their total
  -- length, and the uploads, with the partial block, are their concatenation cut into blocks
  -- that are numbered from 0 and full but for the last.
  pub write_all-Blocks :
      (fd : Fd) × (write_all size ps start ≡ some fd)
      × (fd.file_size ≡ length (concat_all ps))
      × Blocks size (submit_partial fd).inflight (concat_all ps)
  unfolding new_write_fd
  write_all-Blocks =
      let (fd, run, a) = session in
      (
        fd,
        run,
        ap (λ (f : Fd). f.file_size) a.same ∙ omega arith,
        submit_partial-Blocks size fd positive a.stream,
      )

  pub written :
      (fd : Fd)
      → write_all size ps start ≡ some fd
      → Advanced size start fd (length (concat_all ps)) (concat_all ps)
  written fd h =
      let (fd', run, a) = session in
      let e : fd' ≡ fd = cc (sym run ∙ h) in
      subst (λ f. Advanced size start f (length (concat_all ps)) (concat_all ps)) e a

  due_by :
      (fd : Fd)
      → Advanced size start fd (length (concat_all ps)) (concat_all ps)
      → (0 < length (concat_all ps)) ⊎ (is_new ≡ true)
      → (0 < length (concat_all ps)) ⊎ ((fd.is_new && not fd.committed) ≡ true)
  unfolding new_write_fd
  due_by fd a (inl p) = inl p
  due_by fd a (inr n) = inr (ap (λ (f : Fd). f.is_new && not f.committed) a.same ∙ rw n)

  -- Writing any byte strings to a new descriptor and flushing it: if the uploads, completing in
  -- any order, and the commit's requests succeed, and the file is new or some byte was written,
  -- then `Flush` succeeds and the server has accepted one request. It names the revision, lists
  -- the tokens of the blocks in the order of the file, the blocks' data joined is what was
  -- written, and the size it records is the number of bytes written.
  pub write_all-flush :
      (r : Remote) (fd : Fd) (order : List Upload) (ubs : List UploadedBlock)
      (req : UpdateRevisionReq)
      → write_all size ps start ≡ some fd
      → Completes (submit_partial fd).inflight order
      → upload_each (outcome r fd) (submit_partial fd).inflight ≡ ok ubs
      → send_manifest r fd (manifest_of ubs) ≡ ok req
      → (0 < length (concat_all ps)) ⊎ (is_new ≡ true)
      → ((flush r order fd).1 ≡ ok tt)
        × ((flush r order fd).0.accepted ≡ req ∷ [])
        × (req.revision_id ≡ revision)
        × (req.block_list ≡ numbered_tokens 0 ubs)
        × (contents (submit_partial fd).inflight ≡ concat_all ps)
        × (req.xattr.common.size ≡ length (concat_all ps))
  unfolding new_write_fd
  write_all-flush r fd order ubs req h c u s due =
      let a = written fd h in
      let done =
        flush_commits r size fd order positive a.stream (ap (λ (f : Fd). is_write f.mode) a.same)
          (ap (λ (f : Fd). f.tokens) a.same) (ap (λ (f : Fd). f.first_err) a.same) c u s
          (due_by fd a due) in
      let fields = send_manifest-fields r fd ubs req s in
      let blocks = submit_partial-Blocks size fd positive a.stream in
      (
        ap (λ (x : Fd × Result FdError (Unit {0})). x.1) done,
        ap (λ (x : Fd × Result FdError (Unit {0})). x.0.accepted) done
            ∙ ap (λ (f : Fd). f.accepted ++ req ∷ []) a.same,
        fields.0 ∙ ap (λ (f : Fd). f.revision_id) a.same,
        fields.1,
        blocks.joined,
        fields.2 ∙ sum-raw_sizes r fd (submit_partial fd).inflight u ∙ ap length blocks.joined,
      )
