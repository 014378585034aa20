-- ===== src/Fuse/Directories/Nodes.antt =====
-- The operations of `ShareDirNode` and `LinkDirNode`, nodes.go, which differ in an errno of `Mkdir`.
use proton_utils.Base.{
  ℕ, ◌+◌, Bool, true, false, ◌||◌, Option, none, some, List, [], ◌∷◌, ◌++◌, Bytes, codes, Map,
  lookup, insert, ◌=?◌, list_eq, nat_eq, Result, ok, err, if◌then◌else◌,
}
use proton_utils.Fuse.Dispatch.{eio, enoent, enotdir, einval, s_ifdir, s_ifreg, s_iflnk}
use proton_utils.Fuse.Directories.{
  Link, ClientError, cancelled, file_name_exist, folder_name_exist, not_a_folder, not_empty,
  invalid, StreamItem, broken, item, Client, DirNode, Mount, Iteration, new_dir_node, set_children,
}

abbrev pub eintr : ℕ
eintr = 4

abbrev pub eexist : ℕ
eexist = 17

abbrev pub exdev : ℕ
exdev = 18

abbrev pub eisdir : ℕ
eisdir = 21

abbrev pub enotempty : ℕ
enotempty = 39

-- `fusemount.DirEntry`, and a node that is handed out: a `FileNode` or a directory's address
pub record Entry : Type 0 where
  pub name : Bytes
  pub mode : ℕ
  pub link : Link

pub data Handed : Type 0 where
  file : Link → Handed
  dir : ℕ → Handed

-- `apiErrno`, `renameErrno`, and the errnos of `Create`, `Mkdir`, `Symlink` and `Remove`
unfoldable pub api_errno : ClientError → ℕ
api_errno cancelled = eintr
api_errno _ = eio

unfoldable pub rename_errno : ClientError → ℕ
rename_errno file_name_exist = eexist
rename_errno folder_name_exist = eexist
rename_errno not_a_folder = enotdir
rename_errno _ = eio

unfoldable pub create_errno : ClientError → ℕ
create_errno file_name_exist = eexist
create_errno _ = eio

unfoldable pub mkdir_errno : Bool → ClientError → ℕ
mkdir_errno is_share folder_name_exist = eexist
mkdir_errno is_share not_a_folder = if is_share then eio else enotdir
mkdir_errno is_share _ = eio

unfoldable pub symlink_errno : ClientError → ℕ
symlink_errno file_name_exist = eexist
symlink_errno invalid = einval
symlink_errno _ = eio

unfoldable pub remove_errno : ClientError → ℕ
remove_errno not_empty = enotempty
remove_errno _ = eio

-- `linkMode`
unfoldable pub link_mode : Link → ℕ
link_mode l =
    if l.is_folder
    then s_ifdir + 0o700
    else if l.is_symlink
    then s_iflnk + 0o777
    else s_ifreg + 0o600

-- the dots, and links that are trashed or drafts, are not listed
unfoldable pub is_hidden : Bytes → Link → Bool
is_hidden name l = ((name =? codes ".") || (name =? codes "..")) || (l.is_trashed || l.is_draft)

-- The loop of `Readdir`: the entries, and the children map.
unfoldable pub collect :
    List StreamItem → List Entry → Map Bytes Link → Result ClientError (List Entry × Map Bytes Link)
unfolding is_hidden
collect [] entries children = ok (entries, children)
collect (broken e ∷ stream) entries children = err e
collect (item l none ∷ stream) entries children = collect stream entries children
collect (item l (some name) ∷ stream) entries children = elim (is_hidden name l) [
  | true ↦ collect stream entries children
  | false ↦
      collect stream (entries ++ record { name = name; mode = link_mode l; link = l } ∷ [])
        (insert name l children)
]

-- `childByName`
unfoldable pub child_by_name : DirNode → Bytes → Option Link
child_by_name d name = elim d.children [ none ↦ none | some children ↦ lookup name children ]

module _ (it : Iteration) where
  -- `linkNode`
  unfoldable pub link_node : {S : Type 0} → Link → Mount S → Mount S × Handed
  unfolding new_dir_node
  link_node l m =
      if l.is_folder then (let (m', n) = new_dir_node it false l m in (m', dir n)) else (m, file l)

module _ (c : Client) (it : Iteration) where
  abbrev pub M : Type 0
  M = Mount c.State

  abbrev with_client : M → c.State → M
  with_client m s = record m { client = s }

  -- `Readdir` of the node `d` at the address `n`
  unfoldable pub readdir : ℕ → DirNode → M → M × Result ℕ (List Entry)
  unfolding collect set_children api_errno
  readdir n d m =
      let (s, stream) = c.readdir m.client d.link in
      elim (collect stream [] []) [
        | err e ↦ (with_client m s, err (api_errno e))
        | ok (entries, children) ↦ (set_children n (some children) (with_client m s), ok entries)
      ]

  -- the client's answer to a name that is not kept
  unfoldable pub looked_up : M → c.State × Result ClientError (Option Link) → M × Result ℕ Handed
  unfolding link_node api_errno
  looked_up m (s, err e) = (with_client m s, err (api_errno e))
  looked_up m (s, ok none) = (with_client m s, err enoent)
  looked_up m (s, ok (some l)) = let (m', n) = link_node it l (with_client m s) in (m', ok n)

  -- `Lookup`
  unfoldable pub lookup_child : DirNode → Bytes → M → M × Result ℕ Handed
  unfolding child_by_name link_node looked_up
  lookup_child d name m = elim (child_by_name d name) [
    | some l ↦ let (m', n) = link_node it l m in (m', ok n)
    | none ↦ looked_up m (c.lookup m.client d.link name)
  ]

  unfoldable pub resolved : M → c.State × Result ClientError (Option Link) → M × Result ℕ Link
  resolved m (s, err e) = (with_client m s, err eio)
  resolved m (s, ok none) = (with_client m s, err enoent)
  resolved m (s, ok (some l)) = (with_client m s, ok l)

  -- `resolveChild` and `resolveShareChild`
  unfoldable pub resolve_child : DirNode → Bytes → M → M × Result ℕ Link
  unfolding child_by_name resolved
  resolve_child d name m = elim (child_by_name d name) [
    | some l ↦ (m, ok l)
    | none ↦ resolved m (c.lookup m.client d.link name)
  ]

  -- A call of the client that changes the directory at `n`: its children are dropped when it
  -- succeeds.
  unfoldable pub settle :
      {A : Type 0} → ℕ → (ClientError → ℕ) → M → c.State × Result ClientError A → M × Result ℕ A
  unfolding set_children
  settle n errno m (s, err e) = (with_client m s, err (errno e))
  settle n errno m (s, ok a) = (set_children n none (with_client m s), ok a)

  -- `Create`, whose node is a `FileNode`
  unfoldable pub create : ℕ → DirNode → Bytes → M → M × Result ℕ Link
  create n d name m = settle n create_errno m (c.create_fd m.client d.link.share d.link name)

  unfoldable pub symlink : ℕ → DirNode → Bytes → Bytes → M → M × Result ℕ Link
  symlink n d aim name m =
      settle n symlink_errno m (c.create_symlink m.client d.link.share d.link name aim)

  -- the node of a folder that was made
  unfoldable pub made_folder : M × Result ℕ Link → M × Result ℕ ℕ
  unfolding new_dir_node
  made_folder (m, err e) = (m, err e)
  made_folder (m, ok l) = let (m', made) = new_dir_node it false l m in (m', ok made)

  unfoldable pub mkdir : ℕ → DirNode → Bytes → M → M × Result ℕ ℕ
  mkdir n d name m =
      made_folder (settle n (mkdir_errno d.is_share) m (c.mk_dir m.client d.link.share d.link name))

  -- `Unlink` and `Rmdir` once the child is found
  unfoldable pub remove_child : ℕ → DirNode → Link → M → M × Result ℕ (Unit {0})
  remove_child n d l m = settle n remove_errno m (c.remove m.client d.link.share l)

  -- what follows a child that is found
  unfoldable pub with_child :
      {A : Type 0} → M × Result ℕ Link → (Link → M → M × Result ℕ A) → M × Result ℕ A
  with_child (m, err e) next = (m, err e)
  with_child (m, ok l) next = next l m

  unfoldable pub unlink : ℕ → DirNode → Bytes → M → M × Result ℕ (Unit {0})
  unlink n d name m =
      with_child (resolve_child d name m)
        λ l m'. if l.is_folder then (m', err eisdir) else remove_child n d l m'

  unfoldable pub rmdir : ℕ → DirNode → Bytes → M → M × Result ℕ (Unit {0})
  rmdir n d name m =
      with_child (resolve_child d name m)
        λ l m'. if l.is_folder then remove_child n d l m' else (m', err enotdir)

  -- A new parent: a directory node, at its address, or another node or none.
  pub data Parent : Type 0 where
    directory : ℕ → DirNode → Parent
    unknown : Parent

  -- `extractParentLink`
  unfoldable pub parent_link : DirNode → Parent → Link
  parent_link d (directory _ p) = p.link
  parent_link d unknown = d.link

  unfoldable pub invalidate_parent : Parent → M → M
  unfolding set_children
  invalidate_parent (directory p _) m = set_children p none m
  invalidate_parent unknown m = m

  -- the caches that `Rename` drops beside its own
  unfoldable pub renamed : Parent → M × Result ℕ (Unit {0}) → M × Result ℕ (Unit {0})
  unfolding invalidate_parent
  renamed p (m, err e) = (m, err e)
  renamed p (m, ok u) = (invalidate_parent p m, ok u)

  -- `Rename` once the child is found: within the directory, or to another one of the same share
  unfoldable pub rename_child : ℕ → DirNode → Link → Parent → Bytes → M → M × Result ℕ (Unit {0})
  rename_child n d l p new_name m =
      let to = parent_link d p in
      if to.share =? d.link.share
      then renamed p (
          settle n rename_errno m (
            if to.link_id =? d.link.link_id
            then c.rename m.client d.link.share l new_name
            else c.move m.client d.link.share l to new_name))
      else (m, err exdev)

  unfoldable pub rename : ℕ → DirNode → Bytes → Parent → Bytes → M → M × Result ℕ (Unit {0})
  rename n d name p new_name m =
      with_child (resolve_child d name m) λ l m'. rename_child n d l p new_name m'
