-- ===== src/Drive/Fd/Waits.antt =====
-- What `tokens` and `firstErr` hold once the uploads in flight are waited for.
use proton_utils.Base.{
  ℕ, ◌+◌, ◌≡◌, refl, sym, ap, ◌∙◌, Option, none, some, List, [], ◌∷◌, length, Bytes, Map, lookup,
  size, IsNodup, nat_eq, Result, ok, err, arith,
}
use proton_utils.Drive.Fd.State.{Fd, FdError, Upload, UploadedBlock, Remote}
use proton_utils.Drive.Fd.Commit.{
  record_result, complete, complete_all, wait, encrypt_and_upload_block,
}
use proton_utils.Drive.Fd.Completion.{
  Completes, SameUploads, Completes-SameUploads, token_of, error_of, fold_tokens, fold_err, AllOk,
  lookup-fold_tokens_found, size-fold_tokens, fold_err-AllOk, Fails, fold_err-Fails,
}

-- The outcome of each upload, with the revision and the verification code of `fd`.
abbrev pub outcome : Remote → Fd → Upload → Result FdError UploadedBlock
outcome r fd u = encrypt_and_upload_block r fd (u.0 + 1) u.1

record_result-eq :
    (r : Remote) (fd : Fd) (u : Upload) (x : Result FdError UploadedBlock) (m : Map ℕ UploadedBlock)
    (e : Option FdError)
    → record_result r u.0 x (record fd { tokens = m; first_err = e })
      ≡ record fd { tokens = token_of u x m; first_err = error_of x e }
unfolding record_result token_of error_of
record_result-eq r fd u (ok ub) m e = refl
record_result-eq r fd u (err x) m e = refl

-- All that completing uploads changes is `tokens` and `firstErr`.
complete_all-eq :
    (r : Remote) (order : List Upload) (fd : Fd) (m : Map ℕ UploadedBlock) (e : Option FdError)
    → complete_all r order (record fd { tokens = m; first_err = e }) ≡ record fd {
      tokens = fold_tokens (outcome r fd) order m;
      first_err = fold_err (outcome r fd) order e;
    }
unfolding complete_all complete fold_tokens fold_err encrypt_and_upload_block
complete_all-eq r [] fd m e = refl
complete_all-eq r (u ∷ order) fd m e =
    ap (complete_all r order) (record_result-eq r fd u (outcome r fd u) m e)
    ∙ complete_all-eq r order fd (token_of u (outcome r fd u) m) (error_of (outcome r fd u) e)

-- After the wait: no upload is in flight, and if all succeed each has its entry and `firstErr`
-- stands; whatever the order.
pub record Waited (r : Remote) (fd fd' : Fd) : Type 0 where
  pub same : fd' ≡ record fd { inflight = []; tokens = fd'.tokens; first_err = fd'.first_err }
  pub all_found :
      AllOk (outcome r fd) fd.inflight
      → (j : ℕ) (block : Bytes) (ub : UploadedBlock) → lookup j fd.inflight ≡ some block
      → outcome r fd (j, block) ≡ ok ub
      → lookup j fd'.tokens ≡ some ub
  pub all_counted : AllOk (outcome r fd) fd.inflight → size fd'.tokens ≡ length fd.inflight
  pub no_error : AllOk (outcome r fd) fd.inflight → fd'.first_err ≡ none
  pub some_error :
      (e : FdError) → Fails (outcome r fd) fd.inflight e → (x : FdError) × (fd'.first_err ≡ some x)

pub wait-Waited :
    (r : Remote) (order : List Upload) (fd : Fd)
    → Completes fd.inflight order
    → IsNodup fd.inflight
    → fd.tokens ≡ []
    → fd.first_err ≡ none
    → Waited r fd (wait r order fd)
unfolding wait encrypt_and_upload_block lookup size
wait-Waited r order fd c n t f = rw after (record {
  same = refl;
  all_found = λ h j block ub e good.
      lookup-fold_tokens_found out order [] j block ub s.nodup (AllOk-order h) (s.found j ∙ e) good;
  all_counted = λ h.
      size-fold_tokens out order [] s.nodup (AllOk-order h) (λ j block e. refl)
      ∙ omega (arith, s.count);
  no_error = λ h. fold_err-AllOk out order none s.nodup (AllOk-order h);
  some_error =
      λ e (j, block, here, bad). fold_err-Fails out order (j, block, s.found j ∙ here, bad);
})
  where
    out : Upload → Result FdError UploadedBlock
    out = outcome r fd

    s : SameUploads fd.inflight order
    s = Completes-SameUploads c n

    after : wait r order fd ≡ record fd {
      inflight = [];
      tokens = fold_tokens (outcome r fd) order [];
      first_err = fold_err (outcome r fd) order none;
    }
    after = complete_all-eq r order (record fd { inflight = [] }) fd.tokens fd.first_err ∙ λ i.
        record fd {
          inflight = [];
          tokens = fold_tokens (outcome r fd) order (t i);
          first_err = fold_err (outcome r fd) order (f i);
        }

    AllOk-order : AllOk (outcome r fd) fd.inflight → AllOk (outcome r fd) order
    AllOk-order h j block e = h j block (sym (s.found j) ∙ e)
