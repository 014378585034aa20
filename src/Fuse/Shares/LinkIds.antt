-- ===== src/Fuse/Shares/LinkIds.antt =====
-- The virtual directory `.linkid`, `LinkIDDir` of internal/fusemount/drive/nodes.go. `table` is the
-- client's link table, and a list of shares what a `range` over their map yields.
use proton_utils.Base.{
  ℕ, ◌≡◌, refl, Bool, true, false, ◌||◌, Bool-cases, inl, inr, Option, none, some, Option-cases,
  List, [], ◌∷◌, Bytes, Map, ◌=?◌, list_eq, nat_eq, Result, ok, err, if◌then◌else◌, arith,
}
use proton_utils.Base
use proton_utils.Drive.LinkCache.{sanitize_link_id}
use proton_utils.Fuse.Dispatch.{s_ifdir, enoent}
use proton_utils.Fuse.Directories.{Link, Mount, Iteration, new_dir_node}
use proton_utils.Fuse.Directories.Nodes.{Handed, dir, link_node}
use proton_utils.Fuse.Shares.{Share, first_of}

-- `LinkIDDir.Readdir`
unfoldable pub readdir_ids : List Share → List (Bytes × ℕ)
readdir_ids [] = []
readdir_ids (s ∷ shares) = (sanitize_link_id s.root.link_id, s_ifdir) ∷ readdir_ids shares

unfoldable pub has_root : Bytes → Share → Bool
has_root name s = sanitize_link_id s.root.link_id =? name

-- `LinkIDDir.Lookup`
unfoldable pub lookup_id :
    {S : Type 0}
    → Iteration
    → Map Bytes Link
    → List Share
    → Bytes
    → Mount S
    → Mount S × Result ℕ Handed
unfolding has_root first_of link_node
lookup_id it table shares name m = elim (Base.lookup name table) [
  | some l ↦ let (m', n) = link_node it l m in (m', ok n)
  | none ↦ elim (first_of (has_root name) shares) [
    | none ↦ (m, err enoent)
    | some s ↦ let (m', n) = new_dir_node it true s.root m in (m', ok (dir n))
  ]
]

pub is_listed_id : Bytes → List (Bytes × ℕ) → Bool
is_listed_id name [] = false
is_listed_id name (e ∷ entries) = e.0 =? name || is_listed_id name entries

first_of-listed :
    (name : Bytes) (shares : List Share)
    → elim (first_of (has_root name) shares) [ none ↦ false | some _ ↦ true ]
      ≡ is_listed_id name (readdir_ids shares)
unfolding first_of has_root readdir_ids is_listed_id
first_of-listed name [] = refl
first_of-listed name (s ∷ shares) = ground (arith, first_of-listed name shares)

-- Each name that `Readdir` lists is found.
pub lookup_id-readdir_ids :
    {S : Type 0} (it : Iteration) (table : Map Bytes Link) (shares : List Share) (name : Bytes)
    (m : Mount S)
    → is_listed_id name (readdir_ids shares) ≡ true
    → elim (lookup_id it table shares name m).1 [ ok _ ↦ true | err _ ↦ false ] ≡ true
unfolding lookup_id
lookup_id-readdir_ids it table shares name m h = ground (arith, first_of-listed name shares)
