-- ===== src/Fuse/Directories.antt =====
-- The drive's directory nodes and the registry of live ones, internal/fusemount/drive/nodes.go and
-- handler.go: the state, the registry, and the Drive client that the nodes call.
pub mod Nodes
pub mod Registry
pub mod Steps
pub mod Listed
pub mod Dropped
pub mod Overtaken
use proton_utils.Base.{
  ℕ, ◌+◌, ◌≡◌, ◌≢◌, leb, Bool, true, false, not, ◌&&◌, Option, none, some, List, [], ◌∷◌, Bytes,
  codes, Map, lookup, insert, delete, size, has, ◌=?◌, list_eq, nat_eq, Result, if◌then◌else◌,
}

-- A link as the nodes see it; `share` is the ID of its share.
pub record Link : Type 0 where
  pub link_id : Bytes
  pub share : Bytes
  pub is_folder : Bool
  pub is_symlink : Bool
  pub is_trashed : Bool
  pub is_draft : Bool

-- The errors that are told apart.
pub data ClientError : Type 0 where
  cancelled file_name_exist folder_name_exist not_a_folder not_empty invalid : ClientError
  other : ℕ → ClientError

-- One item of the stream of `Link.Readdir`: a failure, or a link and its name if it decrypts.
pub data StreamItem : Type 0 where
  broken : ClientError → StreamItem
  item : Link → Option Bytes → StreamItem

-- `drive.Client`, over the state of the server and the client's own tables.
pub record Client : Type 1 where
  pub State : Type 0
  pub readdir : State → Link → State × List StreamItem
  pub lookup : State → Link → Bytes → State × Result ClientError (Option Link)
  pub create_fd : State → Bytes → Link → Bytes → State × Result ClientError Link
  pub mk_dir : State → Bytes → Link → Bytes → State × Result ClientError Link
  pub create_symlink : State → Bytes → Link → Bytes → Bytes → State × Result ClientError Link
  pub remove : State → Bytes → Link → State × Result ClientError (Unit {0})
  pub rename : State → Bytes → Link → Bytes → State × Result ClientError (Unit {0})
  pub move : State → Bytes → Link → Link → Bytes → State × Result ClientError (Unit {0})

-- `ShareDirNode` or `LinkDirNode`: its link, which for a share is the root link, and the children
-- kept from the last listing.
pub record DirNode : Type 0 where
  pub link : Link
  pub is_share : Bool
  pub children : Option (Map Bytes Link)

-- The nodes by address, and `dirNodes`, the registry of live ones by link ID.
pub record Mount (State : Type 0) : Type 0 where
  pub client : State
  pub nodes : Map ℕ DirNode
  pub next : ℕ
  pub registry : Map Bytes ℕ

-- a mount as `NewDriveHandler` starts it
unfoldable pub new_mount : {S : Type 0} → S → Mount S
new_mount s = record { client = s; nodes = []; next = 0; registry = [] }

-- `maxDirNodes`
abbrev pub max_dir_nodes : ℕ
max_dir_nodes = 4096

-- What a Go map gives first when it is iterated: any of its keys.
pub record Iteration : Type 0 where
  pub first : Map Bytes ℕ → Bytes
  pub first-has : (m : Map Bytes ℕ) → m ≢ [] → has (first m) m ≡ true

module _ (it : Iteration) where
  -- a registry that is full, and does not have the link, gives up an entry
  unfoldable pub room_for : Bytes → Map Bytes ℕ → Map Bytes ℕ
  room_for id registry =
      if not (has id registry) && leb max_dir_nodes (size registry)
      then delete (it.first registry) registry
      else registry

  -- `registerDir`
  unfoldable pub register_dir : {S : Type 0} → Bytes → ℕ → Mount S → Mount S
  unfolding room_for
  register_dir id n m = record m { registry = insert id n (room_for id m.registry) }

  -- `newLinkDirNode` and `newShareDirNode`: a new node, which is registered
  unfoldable pub new_dir_node : {S : Type 0} → Bool → Link → Mount S → Mount S × ℕ
  unfolding register_dir
  new_dir_node is_share l m =
      let made = record m {
        nodes = insert m.next (record { link = l; is_share = is_share; children = none }) m.nodes;
        next = m.next + 1;
      } in
      (register_dir l.link_id m.next made, m.next)

unfoldable pub with_children : ℕ → Option (Map Bytes Link) → Map ℕ DirNode → Map ℕ DirNode
with_children n children nodes = elim (lookup n nodes) [
  | none ↦ nodes
  | some d ↦ insert n (record d { children = children }) nodes
]

-- `setChildren` and `invalidateChildren` of the node at an address
unfoldable pub set_children : {S : Type 0} → ℕ → Option (Map Bytes Link) → Mount S → Mount S
unfolding with_children
set_children n children m = record m { nodes = with_children n children m.nodes }

-- `unregisterDir`, which `Forget` calls with the node's link ID
unfoldable pub unregister_dir : {S : Type 0} → Bytes → Mount S → Mount S
unregister_dir id m = record m { registry = delete id m.registry }

unfoldable pub forget : {S : Type 0} → ℕ → Mount S → Mount S
unfolding unregister_dir
forget n m = elim (lookup n m.nodes) [ none ↦ m | some d ↦ unregister_dir d.link.link_id m ]

-- `OnInvalidateParent`
unfoldable pub on_invalidate_parent : {S : Type 0} → Bytes → Mount S → Mount S
unfolding set_children
on_invalidate_parent id m = elim (lookup id m.registry) [
  | none ↦ m
  | some n ↦ set_children n none m
]

-- the registered nodes of `InvalidateAll`
unfoldable pub invalidate_nodes : {S : Type 0} → Map Bytes ℕ → Mount S → Mount S
unfolding set_children
invalidate_nodes [] m = m
invalidate_nodes ((_, n) ∷ registry) m = invalidate_nodes registry (set_children n none m)

unfoldable pub invalidate_all : {S : Type 0} → Mount S → Mount S
unfolding invalidate_nodes
invalidate_all m = invalidate_nodes m.registry m
