-- ===== src/Drive/Fd/Failures.antt =====
-- `Flush` when an upload fails, when there is nothing to commit, and after a commit.
use proton_utils.Base.{
  ℕ, ◌<◌, ◌≡◌, refl, ap, ◌∙◌, Bool, true, false, not, ◌&&◌, Bool-cases, none, some, List, [],
  length, ◌==◌, Bytes, size, Result, ok, err, inl, inr, arith,
}
use proton_utils.Drive.Fd.State.{Fd, FdError, is_write, Upload, Remote}
use proton_utils.Drive.Fd.Commit.{
  submit_partial, wait, complete_all, decide_commit, flush, close, encrypt_and_upload_block,
}
use proton_utils.Drive.Fd.Stream.{Stream}
use proton_utils.Drive.Fd.Completion.{Completes, Fails}
use proton_utils.Drive.Fd.Waits.{outcome, wait-Waited}
use proton_utils.Drive.Fd.Manifests.{IsNumbered-IsNodup}
use proton_utils.Drive.Fd.Flush.{submit_partial-Blocks, submit_partial-same, flush-is_write}

decide_commit_error :
    (r : Remote) (has_cur : Bool) (fd : Fd) (x : FdError)
    → decide_commit r has_cur fd (some x) ≡ (fd, err x)
unfolding decide_commit
decide_commit_error r has_cur fd x = refl

-- If the upload of some block fails, `Flush` returns an error and the server has accepted nothing.
pub flush-Fails :
    (r : Remote) (size' : ℕ) (fd : Fd) (order : List Upload) (e : FdError) {before : Bytes}
    → 0 < size'
    → Stream size' fd before
    → is_write fd.mode ≡ true
    → fd.tokens ≡ []
    → fd.first_err ≡ none
    → Completes (submit_partial fd).inflight order
    → Fails (outcome r fd) (submit_partial fd).inflight e
    → (x : FdError) × ((flush r order fd).1 ≡ err x)
      × ((flush r order fd).0.accepted ≡ fd.accepted)
      × ((flush r order fd).0.first_err ≡ some x)
unfolding encrypt_and_upload_block
flush-Fails r size' fd order e p s m t f c (j, block, here, bad) =
    let same = submit_partial-same fd in
    let w =
      wait-Waited r order (submit_partial fd) c
        (IsNumbered-IsNodup 0 (submit_partial fd).inflight
          (submit_partial-Blocks size' fd p s).numbered)
        (ap (λ (g : Fd). g.tokens) same ∙ t) (ap (λ (g : Fd). g.first_err) same ∙ f) in
    let (x, failed) =
      w.some_error e (j, block, here, ap (λ g. outcome r g (j, block)) same ∙ bad) in
    let end = wait r order (submit_partial fd) in
    let ends : flush r order fd ≡ (end, err x) =
      flush-is_write r order fd m
      ∙ ap (decide_commit r (not (length fd.cur_block == 0)) end) failed
      ∙ decide_commit_error r (not (length fd.cur_block == 0)) end x in
    (
      x,
      ap (λ (y : Fd × Result FdError (Unit {0})). y.1) ends,
      ap (λ (y : Fd × Result FdError (Unit {0})). y.0.accepted) ends
          ∙ ap (λ (g : Fd). g.accepted) w.same
          ∙ ap (λ (g : Fd). g.accepted) same,
      ap (λ (y : Fd × Result FdError (Unit {0})). y.0.first_err) ends ∙ failed,
    )

-- A descriptor with nothing buffered, in flight or uncommitted.
pub record IsClean (fd : Fd) : Type 0 where
  pub no_partial : fd.cur_block ≡ []
  pub no_inflight : fd.inflight ≡ []
  pub no_tokens : fd.tokens ≡ []
  pub no_error : fd.first_err ≡ none
  pub settled : (fd.is_new && not fd.committed) ≡ false

-- `Flush` of a clean descriptor changes nothing and sends nothing.
pub flush-IsClean : (r : Remote) (fd : Fd) → IsClean fd → flush r [] fd ≡ (fd, ok tt)
unfolding flush submit_partial complete_all size
flush-IsClean r fd h = ground arith

-- `Close` after that only marks the descriptor as closed.
pub close-IsClean :
    (r : Remote) (fd : Fd) → IsClean fd → close r [] fd ≡ (record fd { closed = true }, ok tt)
unfolding close
close-IsClean r fd h = elim (Bool-cases fd.closed) [
  | inl shut ↦ simp shut (λ i. (record fd { closed = shut i }, ok tt))
  | inr open_still ↦ simp open_still (
      flush-IsClean r (record fd { closed = true })
        (record {
          no_partial = h.no_partial;
          no_inflight = h.no_inflight;
          no_tokens = h.no_tokens;
          no_error = h.no_error;
          settled = h.settled;
        }))
]
