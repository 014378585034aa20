-- ===== src/Tests/Directories.antt =====
-- A share with one folder, listed, looked up and changed through the mount.
use proton_utils.Base.{
  ℕ, ◌≡◌, ◌≢◌, refl, true, false, none, some, [], ◌∷◌, Bytes, codes, Map, lookup, insert, delete,
  has, size, list_eq, nat_eq, list_beq, ok, err, All, arith, if◌then◌else◌, list_beq_iff,
}
use proton_utils.Fuse.Directories.{
  Link, ClientError, item, Client, DirNode, Mount, Iteration, new_mount, new_dir_node, register_dir,
  room_for, set_children, with_children, on_invalidate_parent,
}
use proton_utils.Fuse.Directories.Nodes
use proton_utils.Fuse.Directories.Nodes.{Entry, link_node, unknown}
use proton_utils.Fuse.Directories.Registry.{IsLive}
use proton_utils.Fuse.Directories.Steps.{
  opens_share, readdir, Reaches, starts, then_step, registry_stays-IsLive,
}
use proton_utils.Fuse.Directories.Listed.{last_named, IsShown, readdir-lookup_child}
use proton_utils.Fuse.Directories.Dropped.{create, change, concerns, lookup-change}
use proton_utils.Fuse.Directories.Overtaken.{overtaken-on_invalidate_parent}

program : Unit {0}
unfolding new_mount new_dir_node register_dir room_for set_children with_children lookup insert
    delete size list_beq link_node last_named Nodes.readdir Nodes.collect Nodes.is_hidden
    Nodes.link_mode Nodes.create Nodes.settle change concerns
program = tt

pub first_key : Map Bytes ℕ → Bytes
first_key [] = []
first_key ((k, _) ∷ _) = k

pub first_key-has : (m : Map Bytes ℕ) → m ≢ [] → has (first_key m) m ≡ true
unfolding first_key lookup
first_key-has [] h = absurd (h refl)
first_key-has ((k, v) ∷ m) h = ground (arith, list_beq_iff k k)

abbrev pub iteration : Iteration
unfolding first_key
iteration = record { first = first_key; first-has = first_key-has }

abbrev share_link : Link
share_link = record {
  link_id = codes "R==";
  share = codes "S";
  is_folder = true;
  is_symlink = false;
  is_trashed = false;
  is_draft = false;
}

abbrev docs : Link
docs = record share_link { link_id = codes "D==" }

abbrev bin : Link
bin = record docs { link_id = codes "B=="; is_trashed = true }

abbrev client : Client
client = record {
  State = ℕ;
  readdir = λ s l. (s, item docs (some (codes "docs")) ∷ item bin (some (codes "old")) ∷ []);
  lookup = λ s l name. (s, ok none);
  create_fd = λ s share l name. (s, ok (record docs { link_id = codes "F=="; is_folder = false }));
  mk_dir = λ s share l name. (s, err (ClientError.other 0));
  create_symlink = λ s share l name aim. (s, err (ClientError.other 0));
  remove = λ s share l. (s, ok tt);
  rename = λ s share l name. (s, ok tt);
  move = λ s share l to name. (s, ok tt);
}

abbrev root : DirNode
root = record { link = share_link; is_share = true; children = none }

abbrev mounted : Mount ℕ
mounted = record { client = 0; nodes = (0, root) ∷ []; next = 1; registry = (codes "R==", 0) ∷ [] }

abbrev kept_root : DirNode
kept_root = record root { children = some ((codes "docs", docs) ∷ []) }

abbrev listed : Mount ℕ
listed = record mounted { nodes = (0, kept_root) ∷ [] }

Reaches-listed : Reaches client iteration (new_mount 0) listed
unfolding program
Reaches-listed = then_step (then_step starts (opens_share share_link)) (readdir 0 root)

listed-IsLive : IsLive listed
listed-IsLive = registry_stays-IsLive client iteration 0 Reaches-listed

registry_stays-IsLive_example : IsLive listed
registry_stays-IsLive_example = registry_stays-IsLive client iteration 0 Reaches-listed

readdir-lookup_child_example :
    All IsShown (record { name = codes "docs"; mode = 0x41c0; link = docs } ∷ [])
    × ((d : DirNode) × (lookup 0 listed.nodes ≡ some d)
        × (Nodes.lookup_child client iteration d (codes "docs") listed
            ≡ ((link_node iteration docs listed).0, ok (link_node iteration docs listed).1)))
unfolding program
readdir-lookup_child_example =
    readdir-lookup_child client iteration 0 root mounted (codes "docs") docs refl refl refl

-- The listing is dropped when a file is created.
lookup-change_example :
    lookup 0 (change client iteration 0 kept_root (create (codes "new")) listed).0.nodes
    ≡ some (
        if concerns client iteration 0 unknown 0
        then record kept_root { children = none }
        else kept_root)
unfolding program
lookup-change_example =
    lookup-change client iteration 0 0 kept_root kept_root (create (codes "new")) listed refl refl

-- The share's root is looked up a second time.
overtaken-on_invalidate_parent_example :
    lookup 0
      (on_invalidate_parent (codes "R==") (new_dir_node iteration true share_link listed).0).nodes
    ≡ some kept_root
unfolding program
overtaken-on_invalidate_parent_example =
    overtaken-on_invalidate_parent iteration share_link 0 kept_root true listed listed-IsLive refl
