-- ===== src/Tests/Descriptor.antt =====
-- Writing sessions.
use proton_utils.Base.{
  ◌≡◌, refl, true, none, some, List, [], ◌∷◌, Bytes, ok, err, arith, inr, insert, lookup, size,
  nat_eq,
}
use proton_utils.Drive.XAttr.{build_revision_xattr}
use proton_utils.Drive.Fd.State.{
  Fd, FdError, Upload, UploadedBlock, UpdateRevisionReq, new_write_fd, remote,
}
use proton_utils.Drive.Fd.Write.{write_at, write, write_loop, put_chunk}
use proton_utils.Drive.Fd.Commit.{encrypt_and_upload_block, flush, send_manifest, submit_partial}
use proton_utils.Drive.Fd.Stream.{Stream, contents}
use proton_utils.Drive.Fd.Completion.{Completes, done, next}
use proton_utils.Drive.Fd.Waits.{outcome}
use proton_utils.Drive.Fd.Manifests.{upload_each, manifest_of, numbered_tokens}
use proton_utils.Drive.Fd.Flush.{Blocks, flush_commits}
use proton_utils.Drive.Fd.Failures.{flush-Fails}
use proton_utils.Drive.Fd.Appending.{write_at-write}
use proton_utils.Drive.Fd.Session.{write_all, write_all-Blocks, write_all-flush}
use proton_utils.Tests.Setup.{willing, failing}

program : Unit {0}
unfolding new_write_fd write write_loop put_chunk write_all submit_partial flush send_manifest
    encrypt_and_upload_block upload_each build_revision_xattr insert lookup size
program = tt

abbrev start : Fd
unfolding new_write_fd
start = new_write_fd true (1 ∷ []) (5 ∷ []) none

abbrev texts : List Bytes
texts = (1 ∷ 2 ∷ 3 ∷ []) ∷ (4 ∷ 5 ∷ []) ∷ []

-- blocks of two bytes
abbrev after_texts : Fd
after_texts = record start {
  file_size = 5;
  cur_block = 5 ∷ [];
  cur_idx = 2;
  inflight = (0, 1 ∷ 2 ∷ []) ∷ (1, 3 ∷ 4 ∷ []) ∷ [];
}

abbrev blocks : List Upload
blocks = (0, 1 ∷ 2 ∷ []) ∷ (1, 3 ∷ 4 ∷ []) ∷ (2, 5 ∷ []) ∷ []

-- the last block first
abbrev order : List Upload
order = (2, 5 ∷ []) ∷ (0, 1 ∷ 2 ∷ []) ∷ (1, 3 ∷ 4 ∷ []) ∷ []

order-Completes : Completes blocks order
order-Completes =
    next ((0, 1 ∷ 2 ∷ []) ∷ (1, 3 ∷ 4 ∷ []) ∷ []) [] (2, 5 ∷ []) refl
      (next [] ((1, 3 ∷ 4 ∷ []) ∷ []) (0, 1 ∷ 2 ∷ []) refl (next [] [] (1, 3 ∷ 4 ∷ []) refl done))

abbrev uploaded : List UploadedBlock
uploaded =
    record { token = 1 ∷ []; enc_hash = 2 ∷ 3 ∷ []; raw_size = 2 }
    ∷ record { token = 2 ∷ []; enc_hash = 4 ∷ 5 ∷ []; raw_size = 2 }
    ∷ record { token = 3 ∷ []; enc_hash = 6 ∷ []; raw_size = 1 }
    ∷ []

abbrev request : UpdateRevisionReq
request = record {
  revision_id = 1 ∷ [];
  block_list = (1, 1 ∷ []) ∷ (2, 2 ∷ []) ∷ (3, 3 ∷ []) ∷ [];
  manifest_signature = 9 ∷ 2 ∷ 3 ∷ 4 ∷ 5 ∷ 6 ∷ [];
  xattr = record {
    common = record { modification_time = 7 ∷ []; size = 5; block_sizes = 2 ∷ 2 ∷ 1 ∷ [] };
    extra = [];
  };
}

writes : write_all 2 texts start ≡ some after_texts
unfolding program
writes = refl

submits : (submit_partial after_texts).inflight ≡ blocks
unfolding program
submits = refl

uploads : upload_each (outcome willing after_texts) blocks ≡ ok uploaded
unfolding program
uploads = refl

sends : send_manifest willing after_texts (manifest_of uploaded) ≡ ok request
unfolding program
sends = refl

after_texts-Stream : Stream 2 after_texts (1 ∷ 2 ∷ 3 ∷ 4 ∷ 5 ∷ [])
after_texts-Stream = record {
  joined = refl;
  full = (refl, refl, (refl, refl, tt));
  idx = refl;
  short = omega arith;
}

write_all-flush_example :
    ((flush willing order after_texts).1 ≡ ok tt)
    × ((flush willing order after_texts).0.accepted ≡ request ∷ [])
    × (request.revision_id ≡ 1 ∷ [])
    × (request.block_list ≡ numbered_tokens 0 uploaded)
    × (contents (submit_partial after_texts).inflight ≡ 1 ∷ 2 ∷ 3 ∷ 4 ∷ 5 ∷ [])
    × (request.xattr.common.size ≡ 5)
unfolding program
write_all-flush_example =
    write_all-flush 2 (omega arith) true (1 ∷ []) (5 ∷ []) none texts willing after_texts order
      uploaded request writes order-Completes uploads sends (inr refl)

write_all-Blocks_example :
    (fd : Fd) × (write_all 2 texts start ≡ some fd)
    × (fd.file_size ≡ 5)
    × Blocks 2 (submit_partial fd).inflight (1 ∷ 2 ∷ 3 ∷ 4 ∷ 5 ∷ [])
unfolding program
write_all-Blocks_example = write_all-Blocks 2 (omega arith) true (1 ∷ []) (5 ∷ []) none texts

flush_commits_example : flush willing order after_texts ≡ (
  record after_texts {
    inflight = [];
    cur_block = [];
    tokens = [];
    committed = true;
    accepted = request ∷ [];
    invalidations = 1;
  },
  ok tt,
)
unfolding program
flush_commits_example =
    flush_commits willing 2 after_texts order (omega arith) after_texts-Stream refl refl refl
      order-Completes uploads sends (inr refl)

flush-Fails_example :
    (x : FdError) × ((flush failing order after_texts).1 ≡ err x)
    × ((flush failing order after_texts).0.accepted ≡ [])
    × ((flush failing order after_texts).0.first_err ≡ some x)
unfolding program
flush-Fails_example =
    flush-Fails failing 2 after_texts order (remote 3) (omega arith) after_texts-Stream refl refl
      refl order-Completes (2, 5 ∷ [], refl, refl)

write_at-write_example :
    write_at 2 (6 ∷ 7 ∷ 8 ∷ []) 5 after_texts ≡ write 2 (6 ∷ 7 ∷ 8 ∷ []) after_texts
unfolding program
write_at-write_example =
    write_at-write 2 (omega arith) (6 ∷ 7 ∷ 8 ∷ []) after_texts after_texts-Stream refl
