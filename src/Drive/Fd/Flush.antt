-- ===== src/Drive/Fd/Flush.antt =====
-- What `Flush` commits after sequential writing.
use proton_utils.Base.{
  ℕ, suc, ◌+◌, ◌≤◌, ◌<◌, ◌≡◌, ◌⊎◌, sym, ap, ◌∙◌, Bool, true, false, not, ◌&&◌, none, List, [], ◌∷◌,
  ◌++◌, append-nil, length, length-eq-zero, Bool-cases, inl, inr, ==_iff, ◌==◌, Bytes, size, nat_eq,
  ok, arith,
}
use proton_utils.Drive.Fd.State.{Fd, is_write, Upload, UploadedBlock, UpdateRevisionReq, Remote}
use proton_utils.Drive.Fd.Commit.{Manifest, encrypt_and_upload_block}
use proton_utils.Drive.Fd.Commit.{
  gather, no_blocks, submit_partial, wait, send_manifest, commit_revision_from_tokens,
  decide_commit, flush,
}
use proton_utils.Drive.Fd.Stream.{contents, contents-concat, IsFull, Stream}
use proton_utils.Drive.Fd.Completion.{Completes}
use proton_utils.Drive.Fd.Waits.{outcome, Waited, wait-Waited}
use proton_utils.Drive.Fd.Manifests.{
  IsNumbered, IsNumbered-IsNodup, upload_each, upload_each-AllOk, manifest_of, gather-upload_each,
}

-- Blocks of `size` bytes, of which only the last may be shorter, and none is empty.
abbrev pub IsCut : ℕ → List Upload → Type 0
IsCut size [] = Unit
IsCut size (u ∷ []) = (0 < length u.1) × (length u.1 ≤ size)
IsCut size (u ∷ v ∷ us) = (length u.1 ≡ size) × IsCut size (v ∷ us)

-- The uploads cut the data into blocks numbered from 0.
pub record Blocks (size : ℕ) (us : List Upload) (data_written : Bytes) : Type 0 where
  pub joined : contents us ≡ data_written
  pub numbered : IsNumbered 0 us
  pub cut : IsCut size us

IsFull-IsNumbered : (size i : ℕ) (us : List Upload) → IsFull size i us → IsNumbered i us
IsFull-IsNumbered size i [] h = tt
IsFull-IsNumbered size i (u ∷ us) h = (h.0, IsFull-IsNumbered size (suc i) us h.2)

IsNumbered-concat :
    (i : ℕ) (us : List Upload) (j : ℕ) (block : Bytes)
    → IsNumbered i us
    → j ≡ i + length us
    → IsNumbered i (us ++ (j, block) ∷ [])
IsNumbered-concat i [] j block h e = (omega arith, tt)
IsNumbered-concat i (u ∷ us) j block h e =
    (h.0, IsNumbered-concat (suc i) us j block h.1 (omega arith))

IsFull-IsCut : (size i : ℕ) (us : List Upload) → 0 < size → IsFull size i us → IsCut size us
IsFull-IsCut size i [] p h = tt
IsFull-IsCut size i (u ∷ []) p h = omega arith
IsFull-IsCut size i (u ∷ v ∷ us) p h = (h.1, IsFull-IsCut size (suc i) (v ∷ us) p h.2)

IsCut-concat :
    (size i : ℕ) (us : List Upload) (j : ℕ) (block : Bytes)
    → IsFull size i us
    → 0 < length block
    → length block ≤ size
    → IsCut size (us ++ (j, block) ∷ [])
IsCut-concat size i [] j block h p q = (p, q)
IsCut-concat size i (u ∷ []) j block h p q = (h.1, (p, q))
IsCut-concat size i (u ∷ v ∷ us) j block h p q =
    (h.1, IsCut-concat size (suc i) (v ∷ us) j block h.2 p q)

-- Handing over the partial block leaves the data cut into blocks.
pub submit_partial-Blocks :
    (size : ℕ) (fd : Fd) {data_written : Bytes}
    → 0 < size
    → Stream size fd data_written
    → Blocks size (submit_partial fd).inflight data_written
unfolding submit_partial
submit_partial-Blocks size fd p s = elim (Bool-cases (length fd.cur_block == 0)) [
  | inl empty ↦ rw empty (record {
    joined =
        sym (append-nil _)
        ∙ ap (λ l. contents fd.inflight ++ l)
            (sym (length-eq-zero fd.cur_block ((==_iff _ 0).0 empty)))
        ∙ s.joined;
    numbered = IsFull-IsNumbered size 0 fd.inflight s.full;
    cut = IsFull-IsCut size 0 fd.inflight p s.full;
  })
  | inr partial ↦ rw partial (record {
    joined = contents-concat fd.inflight fd.cur_idx fd.cur_block ∙ s.joined;
    numbered =
        IsNumbered-concat 0 fd.inflight fd.cur_idx fd.cur_block
          (IsFull-IsNumbered size 0 fd.inflight s.full) (omega (arith, s.idx));
    cut =
        IsCut-concat size 0 fd.inflight fd.cur_idx fd.cur_block s.full (some_bytes partial)
          (omega (arith, s.short));
  })
]
  where
    some_bytes : (length fd.cur_block == 0) ≡ false → 0 < length fd.cur_block
    some_bytes h = ground arith

pub submit_partial-same :
    (fd : Fd)
    → submit_partial fd ≡ record fd { inflight = (submit_partial fd).inflight; cur_block = [] }
unfolding submit_partial
submit_partial-same fd = elim (Bool-cases (length fd.cur_block == 0)) [
  | inl empty ↦
      rw empty (λ i. record fd { cur_block = length-eq-zero fd.cur_block ((==_iff _ 0).0 empty) i })
  | inr partial ↦ rw partial
]

commit_revision-accepted :
    (r : Remote) (fd : Fd) {m : Manifest} {req : UpdateRevisionReq}
    → gather (size fd.tokens) 0 fd.tokens no_blocks ≡ ok m
    → send_manifest r fd m ≡ ok req
    → commit_revision_from_tokens r true fd
      ≡ (record fd { accepted = fd.accepted ++ req ∷ [] }, ok tt)
unfolding commit_revision_from_tokens
commit_revision-accepted r fd g s = elim (Bool-cases (size fd.tokens == 0)) [
  | inl e ↦ simp (e, g, s)
  | inr e ↦ simp (e, g, s)
]

-- The decision and the commit, for a descriptor whose tokens gather to a manifest.
pub decide_commit-commits :
    (r : Remote) (has_cur : Bool) (fd : Fd) {m : Manifest} {req : UpdateRevisionReq}
    → (size fd.tokens == 0 && not has_cur && not (fd.is_new && not fd.committed)) ≡ false
    → gather (size fd.tokens) 0 fd.tokens no_blocks ≡ ok m
    → send_manifest r fd m ≡ ok req
    → decide_commit r has_cur fd none ≡ (
      record fd {
        tokens = [];
        committed = true;
        accepted = fd.accepted ++ req ∷ [];
        invalidations = fd.invalidations + 1;
      },
      ok tt,
    )
unfolding decide_commit
decide_commit-commits r has_cur fd d g s = simp (d, commit_revision-accepted r fd g s)

pub flush-is_write :
    (r : Remote) (order : List Upload) (fd : Fd)
    → is_write fd.mode ≡ true
    → flush r order fd
      ≡ decide_commit r
          (not (length fd.cur_block == 0))
          (wait r order (submit_partial fd))
          (wait r order (submit_partial fd)).first_err
unfolding flush
flush-is_write r order fd h = simp h

blocks-pos :
    (us : List Upload) {data_written : Bytes}
    → contents us ≡ data_written
    → 0 < length data_written
    → 0 < length us
blocks-pos [] e p = absurd (omega (arith, ap length e))
blocks-pos (u ∷ us) e p = omega arith

no_tests : (n : ℕ) (a b : Bool) → 0 < n → (n == 0 && a && b) ≡ false
no_tests n a b p = ground arith

fresh_tests : (a b c : Bool) → c ≡ true → (a && b && not c) ≡ false
fresh_tests a b c p = ground arith

module _ (r : Remote) (size' : ℕ) (fd : Fd) (order : List Upload) {data_written : Bytes}
    {ubs : List UploadedBlock} {req : UpdateRevisionReq} (positive : 0 < size')
    (stream : Stream size' fd data_written) (writes : is_write fd.mode ≡ true)
    (no_tokens : fd.tokens ≡ []) (no_error : fd.first_err ≡ none)
    (completes : Completes (submit_partial fd).inflight order)
    (uploads : upload_each (outcome r fd) (submit_partial fd).inflight ≡ ok ubs)
    (sends : send_manifest r fd (manifest_of ubs) ≡ ok req) where
  outcome-submit_partial : outcome r (submit_partial fd) ≡ outcome r fd
  unfolding encrypt_and_upload_block
  outcome-submit_partial = ap (outcome r) (submit_partial-same fd)

  blocks : Blocks size' (submit_partial fd).inflight data_written
  blocks = submit_partial-Blocks size' fd positive stream

  waited : Waited r (submit_partial fd) (wait r order (submit_partial fd))
  waited =
      wait-Waited r order (submit_partial fd) completes
        (IsNumbered-IsNodup 0 (submit_partial fd).inflight blocks.numbered)
        (ap (λ (f : Fd). f.tokens) (submit_partial-same fd) ∙ no_tokens)
        (ap (λ (f : Fd). f.first_err) (submit_partial-same fd) ∙ no_error)

  uploads' : upload_each (outcome r (submit_partial fd)) (submit_partial fd).inflight ≡ ok ubs
  uploads' = rw outcome-submit_partial uploads

  abbrev end : Fd
  end = wait r order (submit_partial fd)

  end-same :
      end ≡ record fd { inflight = []; cur_block = []; tokens = end.tokens; first_err = none }
  end-same = waited.same ∙ λ i. record (submit_partial-same fd i) {
    inflight = [];
    tokens = end.tokens;
    first_err = waited.no_error (upload_each-AllOk _ _ uploads') i;
  }

  gathered : gather (size end.tokens) 0 end.tokens no_blocks ≡ ok (manifest_of ubs)
  gathered =
      let all_ok =
        upload_each-AllOk (outcome r (submit_partial fd)) (submit_partial fd).inflight uploads' in
      ap (λ k. gather k 0 end.tokens no_blocks) (waited.all_counted all_ok)
      ∙ gather-upload_each (outcome r (submit_partial fd)) end.tokens (submit_partial fd).inflight
          blocks.numbered (waited.all_found all_ok) uploads'

  due_now :
      (0 < length data_written) ⊎ ((fd.is_new && not fd.committed) ≡ true)
      → (size end.tokens == 0
          && not (not (length fd.cur_block == 0))
          && not (end.is_new && not end.committed))
        ≡ false
  due_now (inl some_data) =
      let some_blocks = blocks-pos (submit_partial fd).inflight blocks.joined some_data in
      no_tests _ _ _ (
        let counted : 0 < size end.tokens =
          omega (arith, waited.all_counted (upload_each-AllOk _ _ uploads'), some_blocks) in
        counted)
  due_now (inr fresh) =
      fresh_tests (size end.tokens == 0) (not (not (length fd.cur_block == 0)))
        (end.is_new && not end.committed)
        (ap (λ (f : Fd). f.is_new && not f.committed) end-same ∙ fresh)

  -- `Flush` of a descriptor for writing that was written sequentially, with no upload recorded or failed
  -- before, if some byte is pending or the file is new and not committed: when all the uploads, in any
  -- order of completion, and the commit's requests succeed, it sends one request, for the blocks in
  -- order, and then holds nothing, is committed and has invalidated the cache once.
  pub flush_commits :
      (0 < length data_written) ⊎ ((fd.is_new && not fd.committed) ≡ true)
      → flush r order fd ≡ (
        record fd {
          inflight = [];
          cur_block = [];
          tokens = [];
          first_err = none;
          committed = true;
          accepted = fd.accepted ++ req ∷ [];
          invalidations = fd.invalidations + 1;
        },
        ok tt,
      )
  unfolding send_manifest
  flush_commits due =
      flush-is_write r order fd writes
      ∙ ap (decide_commit r (not (length fd.cur_block == 0)) end)
          (waited.no_error (upload_each-AllOk _ _ uploads'))
      ∙ decide_commit-commits r (not (length fd.cur_block == 0)) end (due_now due) gathered
          (ap (λ f. send_manifest r f (manifest_of ubs)) end-same ∙ sends)
      ∙ λ i. (
        record (end-same i) {
          tokens = [];
          committed = true;
          accepted = (end-same i).accepted ++ req ∷ [];
          invalidations = (end-same i).invalidations + 1;
        },
        ok tt,
      )
