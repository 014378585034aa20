-- ===== src/Drive/Fd/State.antt =====
-- The state of a `FileDescriptor`, and what it reaches outside the process.
use proton_utils.Base.{ℕ, ◌*◌, Bool, false, true, Option, none, List, [], Bytes, Map, Result}
use proton_utils.Drive.XAttr.{Json, RevisionXAttr}

-- `BlockSize` of api/drive/block.go
abbrev pub block_size : ℕ
block_size = 4 * 1024 * 1024

pub data FdMode : Type 0 where
  fd_read fd_write : FdMode

abbrev pub is_write : FdMode → Bool
is_write fd_read = false
is_write fd_write = true

-- `os.ErrClosed`, `syscall.EBADF`, `os.ErrInvalid`, `io.EOF`; the rest carries what it wraps.
pub data FdError : Type 0 where
  err_closed ebadf err_invalid eof : FdError
  no_upload_link missing_block out_of_range : ℕ → FdError
  remote : ℕ → FdError

-- One call of `flushBlock`: the 0-based index and its copy of the data.
abbrev pub Upload : Type 0
Upload = ℕ × Bytes

-- `uploadedBlock`
pub record UploadedBlock : Type 0 where
  pub token : Bytes
  pub enc_hash : Bytes
  pub raw_size : ℕ

-- `proton.BlockUploadLink`
pub record UploadLink : Type 0 where
  pub bare_url : Bytes
  pub token : Bytes

-- `proton.BlockUploadReq` for one block
pub record BlockUploadReq : Type 0 where
  pub revision_id : Bytes
  pub index : ℕ
  pub enc_signature : Bytes
  pub verify_token : Bytes

-- `proton.UpdateRevisionReq`; a block of the list is its 1-based index and its token.
pub record UpdateRevisionReq : Type 0 where
  pub revision_id : Bytes
  pub block_list : List (ℕ × Bytes)
  pub manifest_signature : Bytes
  pub xattr : RevisionXAttr

-- gopenpgp, crypto/sha256, the clock, the `blockStore` and the API client.
pub record Remote : Type 0 where
  pub json : Json
  pub encrypt : Bytes → Result FdError Bytes
  pub sign_detached_encrypted : Bytes → Result FdError Bytes
  pub sign_detached : Bytes → Result FdError Bytes
  pub sha256 : Bytes → Bytes
  pub xor : ℕ → ℕ → ℕ
  pub now : Bytes
  pub request_upload : BlockUploadReq → Result FdError (List UploadLink)
  pub upload_block : ℕ → UploadLink → Bytes → Result FdError (Unit {0})
  pub encrypt_xattr : RevisionXAttr → Result FdError (Unit {0})
  pub update_revision : UpdateRevisionReq → Result FdError (Unit {0})
  -- `CreateRevision` and `GetVerificationData`: the new revision and its verification code
  pub create_revision : Bytes → Result FdError (Bytes × Bytes)

-- `FileDescriptor`, its write side. `inflight` holds the uploads that have not completed, and the
-- two last fields stand for the effects of a commit: the requests that the server accepted, and
-- how often the link and the parent's children were invalidated.
pub record Fd : Type 0 where
  pub revision_id : Bytes
  pub verify_code : Bytes
  pub offset : ℕ
  pub file_size : ℕ
  pub closed : Bool
  pub mode : FdMode
  pub cur_block : Bytes
  pub cur_idx : ℕ
  pub inflight : List Upload
  pub tokens : Map ℕ UploadedBlock
  pub first_err : Option FdError
  pub unix_mode : ℕ
  pub prior_xattr : Option RevisionXAttr
  pub is_new : Bool
  pub committed : Bool
  pub accepted : List UpdateRevisionReq
  pub invalidations : ℕ

-- `newWriteFD`, with `isNew` as `CreateFD` (true) and `OverwriteFD` (false) set it
unfoldable pub new_write_fd : Bool → Bytes → Bytes → Option RevisionXAttr → Fd
new_write_fd is_new revision_id verify_code prior = record {
  revision_id = revision_id;
  verify_code = verify_code;
  offset = 0;
  file_size = 0;
  closed = false;
  mode = fd_write;
  cur_block = [];
  cur_idx = 0;
  inflight = [];
  tokens = [];
  first_err = none;
  unix_mode = 0;
  prior_xattr = prior;
  is_new = is_new;
  committed = false;
  accepted = [];
  invalidations = 0;
}
