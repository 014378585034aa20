-- ===== src/Tests/Setup.antt =====
-- A server and a cryptography that accept everything, for the descriptors of the tests.
use proton_utils.Base.{
  ℕ, ◌+◌, ◌==◌, ◌≡◌, refl, true, false, Option, none, some, [], ◌∷◌, map, Bytes, ok, err, nat_eq,
  Bool, if◌then◌else◌,
}
use proton_utils.Drive.XAttr.{Json, PosixXAttr}
use proton_utils.Drive.Fd.State.{Remote, remote}

abbrev pub flag : Bool → ℕ
flag true = 1
flag false = 0

abbrev pub read_posix : Bytes → Option PosixXAttr
read_posix (m ∷ b ∷ []) = some (record { mode = m; symlink = b == 1 })
read_posix _ = none

pub read_posix-flag :
    (m : ℕ) (b : Bool) → read_posix (m ∷ flag b ∷ []) ≡ some (record { mode = m; symlink = b })
read_posix-flag m true = refl
read_posix-flag m false = refl

abbrev pub two_numbers : Json
two_numbers = record {
  marshal = λ p. p.mode ∷ flag p.symlink ∷ [];
  unmarshal = read_posix;
  unmarshal-marshal = λ p. read_posix-flag p.mode p.symlink;
}

-- Encryption adds one to each byte.
abbrev pub willing : Remote
willing = record {
  json = two_numbers;
  encrypt = λ b. ok (map (λ x. x + 1) b);
  sign_detached_encrypted = λ b. ok (0 ∷ b);
  sign_detached = λ b. ok (9 ∷ b);
  sha256 = λ b. b;
  xor = λ a b. a + b;
  now = 7 ∷ [];
  request_upload = λ req. ok (record { bare_url = []; token = req.index ∷ [] } ∷ []);
  upload_block = λ i link enc. ok tt;
  encrypt_xattr = λ x. ok tt;
  update_revision = λ req. ok tt;
  create_revision = λ rev. ok (0 ∷ rev, 5 ∷ []);
}

-- It takes no block but the first.
abbrev pub failing : Remote
failing = record willing { upload_block = λ i link enc. if i == 1 then ok tt else err (remote i) }
