-- ===== src/Fuse/Directories/Dropped.antt =====
-- A directory that is changed through the mount drops the children that it keeps.
use proton_utils.Base.{
  ℕ, ◌==◌, ◌≡◌, refl, ap, ◌∙◌, Bool, true, false, inl, inr, Option, none, some, Option-cases, Bytes,
  Map, lookup, ◌=?◌, list_eq, nat_eq, Result, ok, err, if◌then◌else◌, arith, subst, ◌||◌,
}
use proton_utils.Fuse.Dispatch.{enotdir}
use proton_utils.Fuse.Directories.{
  Link, ClientError, Client, DirNode, Mount, Iteration, set_children, with_children,
}
use proton_utils.Fuse.Directories.Nodes
use proton_utils.Fuse.Directories.Nodes.{Parent, directory, unknown}
use proton_utils.Fuse.Directories.Registry.{lookup-with_children}

by_cases {ℓ} :
    {A : Type 0} (P : A → Type ℓ) (b : Bool) {x y : A} → P x → P y → P (if b then x else y)
by_cases P true h k = h
by_cases P false h k = k

module _ (c : Client) (it : Iteration) where
  -- The requests that change a directory without making a directory node.
  pub data Change : Type 0 where
    create : Bytes → Change
    symlink : Bytes → Bytes → Change
    unlink : Bytes → Change
    rmdir : Bytes → Change
    rename : Bytes → Parent c it → Bytes → Change

  abbrev pub errno_only : {A : Type 0} → Result ℕ A → Result ℕ (Unit {0})
  errno_only (ok _) = ok tt
  errno_only (err e) = err e

  abbrev pub parent_of : Change → Parent c it
  parent_of (rename _ p _) = p
  parent_of _ = unknown

  unfoldable pub change : ℕ → DirNode → Change → Mount c.State → Mount c.State × Result ℕ (Unit {0})
  change n d (create name) m = let (m', r) = Nodes.create c it n d name m in (m', errno_only r)
  change n d (symlink aim name) m =
      let (m', r) = Nodes.symlink c it n d aim name m in (m', errno_only r)
  change n d (unlink name) m = Nodes.unlink c it n d name m
  change n d (rmdir name) m = Nodes.rmdir c it n d name m
  change n d (rename name p new_name) m = Nodes.rename c it n d name p new_name m

  -- Whether a change at `n` is one of the directory at `j`: itself, or the new parent.
  unfoldable pub concerns : ℕ → Parent c it → ℕ → Bool
  concerns n unknown j = n == j
  concerns n (directory p _) j = n == j || p == j

  dropped : ℕ → Parent c it → Map ℕ DirNode → Map ℕ DirNode
  dropped n unknown nodes = with_children n none nodes
  dropped n (directory p _) nodes = with_children p none (with_children n none nodes)

  -- A request that fails leaves the nodes, and one that succeeds drops children.
  abbrev Drops :
      {A : Type 0} → ℕ → Parent c it → Map ℕ DirNode → Mount c.State × Result ℕ A → Type 0
  Drops n p nodes (m, err e) = m.nodes ≡ nodes
  Drops n p nodes (m, ok _) = m.nodes ≡ dropped n p nodes

  settle-Drops :
      {A : Type 0} (n : ℕ) (errno : ClientError → ℕ) (m : Mount c.State)
      (r : c.State × Result ClientError A) (nodes : Map ℕ DirNode)
      → m.nodes ≡ nodes
      → Drops n unknown nodes (Nodes.settle c it n errno m r)
  unfolding Nodes.settle set_children dropped
  settle-Drops n errno m (s, err e) nodes same = same
  settle-Drops n errno m (s, ok a) nodes same = ap (with_children n none) same

  errno_only-Drops :
      {A : Type 0} (n : ℕ) (nodes : Map ℕ DirNode) (r : Mount c.State × Result ℕ A)
      → Drops n unknown nodes r
      → Drops n unknown nodes (r.0, errno_only r.1)
  errno_only-Drops n nodes (m, err e) h = h
  errno_only-Drops n nodes (m, ok a) h = h

  renamed-Drops :
      (n : ℕ) (p : Parent c it) (nodes : Map ℕ DirNode) (r : Mount c.State × Result ℕ (Unit {0}))
      → Drops n unknown nodes r
      → Drops n p nodes (Nodes.renamed c it p r)
  unfolding Nodes.renamed Nodes.invalidate_parent set_children dropped
  renamed-Drops n p nodes (m, err e) h = h
  renamed-Drops n unknown nodes (m, ok u) h = h
  renamed-Drops n (directory k x) nodes (m, ok u) h = ap (with_children k none) h

  nodes-resolved :
      (m : Mount c.State) (r : c.State × Result ClientError (Option Link))
      → (Nodes.resolved c it m r).0.nodes ≡ m.nodes
  unfolding Nodes.resolved
  nodes-resolved m (s, err e) = refl
  nodes-resolved m (s, ok none) = refl
  nodes-resolved m (s, ok (some l)) = refl

  nodes-resolve_child :
      (d : DirNode) (name : Bytes) (m : Mount c.State)
      → (Nodes.resolve_child c it d name m).0.nodes ≡ m.nodes
  unfolding Nodes.resolve_child
  nodes-resolve_child d name m = elim (Option-cases (Nodes.child_by_name d name)) [
    | inr (l, e) ↦ rw (e, Nodes.resolve_child) refl
    | inl e ↦ rw (e, Nodes.resolve_child) (nodes-resolved m (c.lookup m.client d.link name))
  ]

  with_child-Drops :
      {A : Type 0} (n : ℕ) (p : Parent c it) (nodes : Map ℕ DirNode)
      (r : Mount c.State × Result ℕ Link) (next : Link → Mount c.State → Mount c.State × Result ℕ A)
      → r.0.nodes ≡ nodes
      → ((l : Link) (m : Mount c.State) → m.nodes ≡ nodes → Drops n p nodes (next l m))
      → Drops n p nodes (Nodes.with_child c it r next)
  unfolding Nodes.with_child
  with_child-Drops n p nodes (m, err e) next same step = same
  with_child-Drops n p nodes (m, ok l) next same step = step l m same

  remove_child-Drops :
      (n : ℕ) (d : DirNode) (l : Link) (m : Mount c.State) (nodes : Map ℕ DirNode)
      → m.nodes ≡ nodes
      → Drops n unknown nodes (Nodes.remove_child c it n d l m)
  unfolding Nodes.remove_child
  remove_child-Drops n d l m nodes same = settle-Drops n _ m _ nodes same

  rename_child-Drops :
      (n : ℕ) (d : DirNode) (l : Link) (p : Parent c it) (new_name : Bytes) (m : Mount c.State)
      (nodes : Map ℕ DirNode)
      → m.nodes ≡ nodes
      → Drops n p nodes (Nodes.rename_child c it n d l p new_name m)
  unfolding Nodes.rename_child
  rename_child-Drops n d l p new_name m nodes same =
      let to = Nodes.parent_link c it d p in
      let answer : c.State × Result ClientError (Unit {0}) =
        if to.link_id =? d.link.link_id
        then c.rename m.client d.link.share l new_name
        else c.move m.client d.link.share l to new_name in
      let settled = Nodes.settle c it n Nodes.rename_errno m answer in
      by_cases (λ (r : Mount c.State × Result ℕ (Unit {0})). Drops n p nodes r)
        (to.share =? d.link.share) {x = Nodes.renamed c it p settled} {y = (m, err Nodes.exdev)}
        (renamed-Drops n p nodes settled (settle-Drops n _ m answer nodes same)) same

  change-Drops :
      (n : ℕ) (d : DirNode) (op : Change) (m : Mount c.State)
      → Drops n (parent_of op) m.nodes (change n d op m)
  unfolding change Nodes.create Nodes.symlink Nodes.unlink Nodes.rmdir Nodes.rename
  change-Drops n d (create name) m =
      errno_only-Drops n m.nodes (Nodes.create c it n d name m) (settle-Drops n _ m _ m.nodes refl)
  change-Drops n d (symlink aim name) m =
      errno_only-Drops n m.nodes (Nodes.symlink c it n d aim name m)
        (settle-Drops n _ m _ m.nodes refl)
  change-Drops n d (unlink name) m =
      with_child-Drops n unknown m.nodes _ _ (nodes-resolve_child d name m) λ l m' same.
        by_cases (λ (r : Mount c.State × Result ℕ (Unit {0})). Drops n unknown m.nodes r)
          l.is_folder {x = (m', err Nodes.eisdir)} {y = Nodes.remove_child c it n d l m'} same
          (remove_child-Drops n d l m' m.nodes same)
  change-Drops n d (rmdir name) m =
      with_child-Drops n unknown m.nodes _ _ (nodes-resolve_child d name m) λ l m' same.
        by_cases (λ (r : Mount c.State × Result ℕ (Unit {0})). Drops n unknown m.nodes r)
          l.is_folder {x = Nodes.remove_child c it n d l m'} {y = (m', err enotdir)}
          (remove_child-Drops n d l m' m.nodes same) same
  change-Drops n d (rename name p new_name) m =
      with_child-Drops n p m.nodes _ _ (nodes-resolve_child d name m)
        λ l m' same. rename_child-Drops n d l p new_name m' m.nodes same

  lookup-dropped :
      (n j : ℕ) (p : Parent c it) (nodes : Map ℕ DirNode) (x : DirNode)
      → lookup j nodes ≡ some x
      → lookup j (dropped n p nodes)
        ≡ some (if concerns n p j then record x { children = none } else x)
  unfolding dropped concerns
  lookup-dropped n j unknown nodes x there = lookup-with_children n j none nodes x there
  lookup-dropped n j (directory p _) nodes x there =
      let first = lookup-with_children n j none nodes x there in
      lookup-with_children p j none (with_children n none nodes) _ first ∙ ground arith

  -- A `Create`, `Symlink`, `Unlink`, `Rmdir` or `Rename` that succeeds leaves its directory without
  -- kept children, and so the new parent of a `Rename`; the other directories stay as they are.
  pub lookup-change :
      (n j : ℕ) (d x : DirNode) (op : Change) (m : Mount c.State) {m' : Mount c.State}
      → lookup j m.nodes ≡ some x
      → change n d op m ≡ (m', ok tt)
      → lookup j m'.nodes
        ≡ some (if concerns n (parent_of op) j then record x { children = none } else x)
  lookup-change n j d x op m there e =
      ap (lookup j) (subst (Drops n (parent_of op) m.nodes) e (change-Drops n d op m))
      ∙ lookup-dropped n j (parent_of op) m.nodes x there

  -- One that fails leaves all of them.
  pub nodes-change :
      (n : ℕ) (d : DirNode) (op : Change) (m : Mount c.State) {m' : Mount c.State} {e : ℕ}
      → change n d op m ≡ (m', err e)
      → m'.nodes ≡ m.nodes
  nodes-change n d op m e = subst (Drops n (parent_of op) m.nodes) e (change-Drops n d op m)
