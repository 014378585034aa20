-- ===== src/Drive/XAttr.antt =====
-- api/drive/xattr_posix.go and `buildRevisionXAttr` of api/drive/upload_helpers.go.
use proton_utils.Base.{
  ℕ, ◌%◌, Bool, not, ◌&&◌, ◌≡◌, List, [], Option, none, some, ◌==◌, Bytes, codes, Map, lookup,
  insert, if◌then◌else◌, nat_eq, list_eq,
}

-- `posixXAttrKey`
abbrev pub posix_xattr_key : Bytes
posix_xattr_key = codes "POSIX"

pub record PosixXAttr : Type 0 where
  pub mode : ℕ
  pub symlink : Bool

pub record Common : Type 0 where
  pub modification_time : Bytes
  pub size : ℕ
  pub block_sizes : List ℕ

-- `proton.RevisionXAttr`; a nil `Extra` is an empty map.
pub record RevisionXAttr : Type 0 where
  pub common : Common
  pub extra : Map Bytes Bytes

-- encoding/json at `PosixXAttr`, whose fields are omitted when they are zero.
pub record Json : Type 0 where
  pub marshal : PosixXAttr → Bytes
  pub unmarshal : Bytes → Option PosixXAttr
  pub unmarshal-marshal : (p : PosixXAttr) → unmarshal (marshal p) ≡ some p

module _ (json : Json) where
  open json use {marshal, unmarshal}

  -- `posixFromXAttr`
  unfoldable pub posix_from_xattr : Option RevisionXAttr → Option PosixXAttr
  posix_from_xattr none = none
  posix_from_xattr (some x) = elim (lookup posix_xattr_key x.extra) [
    | none ↦ none
    | some raw ↦ unmarshal raw
  ]

  -- `setPosixXAttr`; the marshalled text is `{}` exactly when both fields are zero
  unfoldable pub set_posix_xattr : RevisionXAttr → PosixXAttr → RevisionXAttr
  set_posix_xattr x p =
      if p.mode == 0 && not p.symlink
      then x
      else record x { extra = insert posix_xattr_key (marshal p) x.extra }

  abbrev inherited : Option RevisionXAttr → Map Bytes Bytes
  inherited none = []
  inherited (some x) = x.extra

  -- `buildRevisionXAttr`
  unfoldable pub build_revision_xattr :
      Option RevisionXAttr → Bytes → ℕ → List ℕ → ℕ → Bool → RevisionXAttr
  unfolding set_posix_xattr
  build_revision_xattr prior mod_time size block_sizes unix_mode symlink =
      set_posix_xattr
        (record {
          common = record { modification_time = mod_time; size = size; block_sizes = block_sizes };
          extra = inherited prior;
        })
        (record { mode = unix_mode % 4096; symlink = symlink })
