-- ===== src/Tests/Commits.antt =====
-- Commits of descriptors that were committed or synced before.
use proton_utils.Base.{
  ◌≡◌, refl, true, none, some, List, [], ◌∷◌, ok, err, arith, insert, lookup, size, nat_eq,
}
use proton_utils.Drive.XAttr.{build_revision_xattr}
use proton_utils.Drive.Fd.State.{Fd, Upload, UpdateRevisionReq, new_write_fd, missing_block}
use proton_utils.Drive.Fd.Write.{write, write_loop, put_chunk}
use proton_utils.Drive.Fd.Session.{write_all}
use proton_utils.Drive.Fd.Manifests.{upload_each}
use proton_utils.Drive.Fd.Commit.{
  encrypt_and_upload_block, flush, close, send_manifest, submit_partial, complete_all, complete,
  record_result, wait, commit_revision_from_tokens, gather, add_block, decide_commit, next_revision,
  sync_waited, sync, accept,
}
use proton_utils.Drive.Fd.Completion.{next, done}
use proton_utils.Drive.Fd.State.{UploadedBlock}
use proton_utils.Drive.Fd.Recommit.{flush-sync_empty}
use proton_utils.Drive.Fd.Rewrite.{flush-write_gap}
use proton_utils.Tests.Setup.{willing}

program : Unit {0}
unfolding write_all write_loop put_chunk upload_each new_write_fd write submit_partial flush close
    send_manifest encrypt_and_upload_block build_revision_xattr insert lookup size complete_all
    complete record_result wait commit_revision_from_tokens gather add_block decide_commit
    next_revision sync_waited sync accept
program = tt

abbrev start : Fd
unfolding new_write_fd
start = new_write_fd true (1 ∷ []) (5 ∷ []) none

-- a short file, in its only block
abbrev short_file : Fd
short_file = record start { file_size = 1; cur_block = 8 ∷ [] }

abbrev its_upload : List Upload
its_upload = (0, 8 ∷ []) ∷ []

abbrev its_request : UpdateRevisionReq
its_request = record {
  revision_id = 1 ∷ [];
  block_list = (1, 1 ∷ []) ∷ [];
  manifest_signature = 9 ∷ 9 ∷ [];
  xattr = record {
    common = record { modification_time = 7 ∷ []; size = 1; block_sizes = 1 ∷ [] };
    extra = [];
  };
}

abbrev after_sync : Fd
after_sync = record start { revision_id = 0 ∷ 1 ∷ []; file_size = 1; accepted = its_request ∷ [] }

abbrev empty_request : UpdateRevisionReq
empty_request = record {
  revision_id = 0 ∷ 1 ∷ [];
  block_list = [];
  manifest_signature = 9 ∷ [];
  xattr = record {
    common = record { modification_time = 7 ∷ []; size = 0; block_sizes = [] };
    extra = [];
  };
}

syncs : sync willing its_upload short_file ≡ (after_sync, ok tt)
unfolding program
syncs = refl

flush-sync_empty_example :
    (flush willing [] after_sync ≡ (
      record after_sync {
        committed = true;
        accepted = its_request ∷ empty_request ∷ [];
        invalidations = 1;
      },
      ok tt,
    ))
    × (empty_request.revision_id ≡ 0 ∷ 1 ∷ [])
    × (empty_request.block_list ≡ [])
    × (empty_request.xattr.common.size ≡ 0)
unfolding program
flush-sync_empty_example =
    flush-sync_empty willing its_upload short_file after_sync empty_request refl refl refl
      (omega arith) syncs refl

-- a file of one full block, which is written and flushed
abbrev one_block : Fd
one_block = record start { file_size = 2; cur_idx = 1; inflight = (0, 8 ∷ 9 ∷ []) ∷ [] }

abbrev first_block : UploadedBlock
first_block = record { token = 1 ∷ []; enc_hash = 9 ∷ 10 ∷ []; raw_size = 2 }

abbrev first_request : UpdateRevisionReq
first_request = record {
  revision_id = 1 ∷ [];
  block_list = (1, 1 ∷ []) ∷ [];
  manifest_signature = 9 ∷ 9 ∷ 10 ∷ [];
  xattr = record {
    common = record { modification_time = 7 ∷ []; size = 2; block_sizes = 2 ∷ [] };
    extra = [];
  };
}

flush-write_gap_example :
    (fd₁ fd₂ : Fd) × (flush willing one_block.inflight one_block ≡ (fd₁, ok tt))
    × (write 2 (8 ∷ []) fd₁ ≡ some (fd₂, ok 1))
    × ((flush willing ((1, 8 ∷ []) ∷ []) fd₂).1 ≡ err (missing_block 0))
    × ((flush willing ((1, 8 ∷ []) ∷ []) fd₂).0.accepted ≡ first_request ∷ [])
unfolding program
flush-write_gap_example =
    flush-write_gap willing 2 true (1 ∷ []) (5 ∷ []) none ((8 ∷ 9 ∷ []) ∷ []) one_block
      one_block.inflight (first_block ∷ []) first_request (8 ∷ [])
      (record { token = 2 ∷ []; enc_hash = 9 ∷ []; raw_size = 1 }) refl refl (omega arith)
      (next [] [] (0, 8 ∷ 9 ∷ []) refl done) refl refl (omega arith) (omega arith) refl
