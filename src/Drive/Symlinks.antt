-- ===== src/Drive/Symlinks.antt =====
-- Path resolution with symlinks, api/drive/resolve_symlink.go. `left` is how many symlinks a chain
-- may still follow, which is `maxSymlinkDepth - depth`.
pub mod Components
pub mod Splitting
pub mod Walks
pub mod Bounds
use proton_utils.Base.{
  ℕ, zero, suc, ◌==◌, Bool, true, false, not, ◌&&◌, ◌||◌, Option, none, some, List, [], ◌∷◌, Bytes,
  codes, ◌=?◌, list_eq, nat_eq, Result, ok, err, ◌>>=◌, if◌then◌else◌,
}

-- `maxSymlinkDepth`
abbrev pub max_symlink_depth : ℕ
max_symlink_depth = 40

pub data PathError : Type 0 where
  not_a_folder file_not_found symlink_loop : PathError
  failed : ℕ → PathError

-- The tree of links: a call of `Link` or of the client that asks the server may fail.
pub record Tree : Type 1 where
  pub Link : Type 0
  pub is_folder : Link → Bool
  pub is_symlink : Link → Bool
  pub parent : Link → Link
  pub lookup : Link → Bytes → Result PathError (Option Link)
  pub read_symlink_target : Link → Result PathError Bytes
  -- the root of the share, if there is one
  pub share_root : Option Link

-- `strings.Split(path, "/")`
unfoldable pub split_slash : Bytes → List Bytes
split_slash [] = [] ∷ []
split_slash (c ∷ cs) = elim (split_slash cs) [
  | [] ↦ (c ∷ []) ∷ []
  | part ∷ parts ↦ if c == b'/' then [] ∷ part ∷ parts else (c ∷ part) ∷ parts
]

-- `strings.Trim(path, "/")`
unfoldable pub trim_left : Bytes → Bytes
trim_left [] = []
trim_left (c ∷ cs) = let rest = trim_left cs in if c == b'/' then rest else c ∷ cs

unfoldable pub trim_right : Bytes → Bytes
trim_right [] = []
trim_right (c ∷ cs) = elim (trim_right cs) [
  | [] ↦ if c == b'/' then [] else c ∷ []
  | d ∷ ds ↦ c ∷ d ∷ ds
]

-- `pathComponents`
unfoldable pub path_components : Bytes → List Bytes
unfolding split_slash trim_left trim_right
path_components path = elim (trim_right (trim_left path)) [
  | [] ↦ []
  | c ∷ cs ↦ split_slash (c ∷ cs)
]

unfoldable pub is_absolute : Bytes → Bool
is_absolute [] = false
is_absolute (c ∷ _) = c == b'/'

-- What a component is: nothing, the parent, or a name.
pub data Component : Type 0 where
  stay up named : Component

unfoldable pub component : Bytes → Component
component part =
    if part =? [] || part =? codes "." then stay else if part =? codes ".." then up else named

unfoldable pub is_last : List Bytes → Bool
is_last [] = true
is_last (_ ∷ _) = false

module _ (t : Tree) where
  -- A child that was looked up: a symlink is followed unless it is the last one and is not to be.
  unfoldable pub enter :
      (t.Link → t.Link → Result PathError t.Link)
      → Bool
      → t.Link
      → Option t.Link
      → Result PathError t.Link
  enter follow deref current none = err file_not_found
  enter follow deref current (some child) =
      if t.is_symlink child && deref then follow current child else ok child

  -- The body of the loop of `walkParts`; `deref` is `!isFinal || followFinal`.
  unfoldable pub walk_part :
      (t.Link → t.Link → Result PathError t.Link) → Bool → t.Link → Bytes → Result PathError t.Link
  unfolding component enter
  walk_part follow deref current part = elim (component part) [
    | stay ↦ ok current
    | up ↦ ok (t.parent current)
    | named ↦
        if t.is_folder current
        then t.lookup current part >>= enter follow deref current
        else err not_a_folder
  ]

  -- `walkParts`, over how a symlink is followed
  unfoldable pub walk_parts :
      (t.Link → t.Link → Result PathError t.Link)
      → Bool
      → t.Link
      → List Bytes
      → Result PathError t.Link
  walk_parts follow follow_final current [] = ok current
  walk_parts follow follow_final current (part ∷ parts) =
      walk_part follow (not (is_last parts) || follow_final) current part >>= λ next.
      walk_parts follow follow_final next parts

  -- what a target is resolved against
  unfoldable pub base_of : t.Link → Bytes → Result PathError t.Link
  unfolding is_absolute
  base_of parent target =
      if is_absolute target
      then elim t.share_root [ none ↦ err file_not_found | some root ↦ ok root ]
      else ok parent

  -- `followSymlink`
  unfoldable pub follow_symlink : ℕ → t.Link → t.Link → Result PathError t.Link
  unfolding walk_parts base_of path_components
  follow_symlink zero parent symlink = err symlink_loop
  follow_symlink (suc left) parent symlink = t.read_symlink_target symlink >>= λ target.
      base_of parent target >>= λ base.
      walk_parts (follow_symlink left) true base (path_components target)

  -- `ResolveFollow`
  unfoldable pub resolve_follow : t.Link → Bytes → Bool → Result PathError t.Link
  unfolding follow_symlink walk_parts path_components
  resolve_follow root path no_follow =
      walk_parts (follow_symlink max_symlink_depth) (not no_follow) root (path_components path)
