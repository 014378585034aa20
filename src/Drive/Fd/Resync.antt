-- ===== src/Drive/Fd/Resync.antt =====
-- What a `Sync` that commits leaves.
use proton_utils.Base.{
  ℕ, ◌<◌, ◌≡◌, refl, sym, ◌∙◌, true, false, Option, none, some, List, [], ◌∷◌, ◌==◌, Bytes, size,
  Result, ok, err, Bool-cases, inl, inr, arith,
}
use proton_utils.Drive.Fd.State.{
  Fd, FdError, is_write, Upload, UploadedBlock, UpdateRevisionReq, Remote,
}
use proton_utils.Drive.Fd.Commit.{
  submit_partial, record_result, complete, complete_all, wait, accept, commit_revision_from_tokens,
  next_revision, sync_waited, sync,
}

-- `fd'` begins its revision: nothing is buffered, in flight or uploaded.
pub record Begins (fd fd' : Fd) : Type 0 where
  pub no_partial : fd'.cur_block ≡ []
  pub no_inflight : fd'.inflight ≡ []
  pub no_tokens : fd'.tokens ≡ []
  pub no_error : fd'.first_err ≡ none
  pub same_mode : fd'.mode ≡ fd.mode
  pub same_new : fd'.is_new ≡ fd.is_new
  pub same_committed : fd'.committed ≡ fd.committed

-- What stays while uploads complete and a commit is sent.
record Keeps (fd fd' : Fd) : Type 0 where
  inflight : fd'.inflight ≡ fd.inflight
  mode : fd'.mode ≡ fd.mode
  is_new : fd'.is_new ≡ fd.is_new
  committed : fd'.committed ≡ fd.committed

record_result-Keeps :
    (r : Remote) (i : ℕ) (x : Result FdError UploadedBlock) (fd : Fd)
    → Keeps fd (record_result r i x fd)
unfolding record_result
record_result-Keeps r i (ok ub) fd = record {
  inflight = refl;
  mode = refl;
  is_new = refl;
  committed = refl;
}
record_result-Keeps r i (err e) fd = record {
  inflight = refl;
  mode = refl;
  is_new = refl;
  committed = refl;
}

Keeps-trans : (a b c : Fd) → Keeps a b → Keeps b c → Keeps a c
Keeps-trans a b c p q = record {
  inflight = q.inflight ∙ p.inflight;
  mode = q.mode ∙ p.mode;
  is_new = q.is_new ∙ p.is_new;
  committed = q.committed ∙ p.committed;
}

complete_all-Keeps :
    (r : Remote) (order : List Upload) (fd : Fd) → Keeps fd (complete_all r order fd)
unfolding complete_all complete
complete_all-Keeps r [] fd = record {
  inflight = refl;
  mode = refl;
  is_new = refl;
  committed = refl;
}
complete_all-Keeps r ((i, block) ∷ order) fd =
    Keeps-trans fd (complete r (i, block) fd) (complete_all r order (complete r (i, block) fd))
      (record_result-Keeps r i _ fd) (complete_all-Keeps r order (complete r (i, block) fd))

submit_partial-clean :
    (fd : Fd)
    → ((submit_partial fd).mode ≡ fd.mode)
      × ((submit_partial fd).is_new ≡ fd.is_new)
      × ((submit_partial fd).committed ≡ fd.committed)
unfolding submit_partial
submit_partial-clean fd = ground arith

-- Once the uploads are waited for, none is in flight.
waited :
    (r : Remote) (order : List Upload) (fd : Fd)
    → Keeps (record fd { inflight = [] }) (wait r order (submit_partial fd))
unfolding wait
waited r order fd =
    let k = complete_all-Keeps r order (record (submit_partial fd) { inflight = [] }) in
    let s = submit_partial-clean fd in
    record {
      inflight = k.inflight;
      mode = k.mode ∙ s.0;
      is_new = k.is_new ∙ s.1;
      committed = k.committed ∙ s.2;
    }

accept-Keeps :
    (r : Remote) (fd : Fd) (x : Result FdError UpdateRevisionReq) → Keeps fd (accept r fd x).0
unfolding accept
accept-Keeps r fd (ok req) = record {
  inflight = refl;
  mode = refl;
  is_new = refl;
  committed = refl;
}
accept-Keeps r fd (err e) = record { inflight = refl; mode = refl; is_new = refl; committed = refl }

commit-Keeps : (r : Remote) (fd : Fd) → Keeps fd (commit_revision_from_tokens r true fd).0
unfolding commit_revision_from_tokens
commit-Keeps r fd = elim (Bool-cases (size fd.tokens == 0)) [
  | inl e ↦ rw e (accept-Keeps r fd _)
  | inr e ↦ rw e (accept-Keeps r fd _)
]

next_revision-Begins :
    (r : Remote) (c : Fd × Result FdError (Unit {0})) (rev : Result FdError (Bytes × Bytes))
    (fd' : Fd)
    → c.0.inflight ≡ []
    → next_revision r c rev ≡ (fd', ok tt)
    → Begins c.0 fd'
unfolding next_revision
next_revision-Begins r (fd, err e) rev fd' n h = absurd (ground arith)
next_revision-Begins r (fd, ok u) (err e) fd' n h = absurd (ground arith)
next_revision-Begins r (fd, ok u) (ok (revision, code)) fd' n h = ground arith

sync_waited-commits :
    (r : Remote) (fd : Fd)
    → 0 < size fd.tokens
    → sync_waited r fd none
      ≡ next_revision r (commit_revision_from_tokens r true fd) (r.create_revision fd.revision_id)
unfolding sync_waited
sync_waited-commits r fd p =
    let some_tokens : (size fd.tokens == 0) ≡ false = ground arith in rw some_tokens refl

sync_waited-Begins :
    (r : Remote) (fd : Fd) (e : Option FdError) (fd' : Fd)
    → fd.inflight ≡ []
    → 0 < size fd.tokens
    → sync_waited r fd e ≡ (fd', ok tt)
    → Begins fd fd'
unfolding sync_waited
sync_waited-Begins r fd (some e) fd' n p h = absurd (ground arith)
sync_waited-Begins r fd none fd' n p h =
    let k = commit-Keeps r fd in
    let b =
      next_revision-Begins r (commit_revision_from_tokens r true fd)
        (r.create_revision fd.revision_id) fd' (k.inflight ∙ n)
        (sym (sync_waited-commits r fd p) ∙ h) in
    record {
      no_partial = b.no_partial;
      no_inflight = b.no_inflight;
      no_tokens = b.no_tokens;
      no_error = b.no_error;
      same_mode = b.same_mode ∙ k.mode;
      same_new = b.same_new ∙ k.is_new;
      same_committed = b.same_committed ∙ k.committed;
    }

sync-waits :
    (r : Remote) (order : List Upload) (fd : Fd)
    → fd.closed ≡ false
    → is_write fd.mode ≡ true
    → sync r order fd
      ≡ sync_waited r
          (wait r order (submit_partial fd))
          (wait r order (submit_partial fd)).first_err
unfolding sync
sync-waits r order fd c m = simp (c, m)

-- A `Sync` that commits and succeeds leaves a descriptor that begins its new revision; whether
-- the descriptor counts as having committed stays as it was.
pub sync-Begins :
    (r : Remote) (order : List Upload) (fd fd' : Fd)
    → fd.closed ≡ false
    → is_write fd.mode ≡ true
    → 0 < size (wait r order (submit_partial fd)).tokens
    → sync r order fd ≡ (fd', ok tt)
    → Begins fd fd'
sync-Begins r order fd fd' c m p h =
    let k = waited r order fd in
    let b =
      sync_waited-Begins r (wait r order (submit_partial fd))
        (wait r order (submit_partial fd)).first_err fd' k.inflight p
        (sym (sync-waits r order fd c m) ∙ h) in
    record {
      no_partial = b.no_partial;
      no_inflight = b.no_inflight;
      no_tokens = b.no_tokens;
      no_error = b.no_error;
      same_mode = b.same_mode ∙ k.mode;
      same_new = b.same_new ∙ k.is_new;
      same_committed = b.same_committed ∙ k.committed;
    }
