-- ===== src/Fuse/Gate.antt =====
-- Who is let in: the access check before every request, at a node and at those below it.
use proton_utils.Base.{ℕ, ◌≡◌, ◌≢◌, refl, ◌∙◌, false, Option, some, Bool-cases, inl, inr, arith}
use proton_utils.Fuse.Outside.{returned, Interfaces, DispatchNode, Inodes}
use proton_utils.Fuse.Dispatch.{eperm, check_access, guarded}
use proton_utils.Fuse.Children.{Node, child_node}
use proton_utils.Fuse.Requests.{
  Request, getattr, setattr, readdir, opendir, lookup, create, mkdir, symlink, open_node, release,
  fsync, flush, read, write, unlink, rmdir, rename, readlink, forget, lookup_entry, serve, blank,
}
use proton_utils.Fuse.Operations

check_access-ne :
    {H N : Type 0} (d : DispatchNode H N) (uid : ℕ)
    → uid ≢ d.uid
    → check_access d (some uid) ≡ eperm
unfolding check_access
check_access-ne d uid h = ground arith

module _ (o : Interfaces) (g : Inodes o) where
  -- The requests that the check stands before: not the attributes of a namespace's root, nor what
  -- releases a handle or a node, nor the entries of a directory's handle, which the check stood before
  -- when it was opened.
  abbrev pub IsGated : Node o → Request o g → Type 0
  IsGated d getattr = d.is_root ≡ false
  IsGated d (release _) = ⊥
  IsGated d forget = ⊥
  IsGated d (lookup_entry _ _) = ⊥
  IsGated d _ = Unit

  pub serve-foreign :
      (d : Node o) (uid : ℕ) (r : Request o g) (w : o.World)
      → uid ≢ d.uid
      → IsGated d r
      → serve o g d (some uid) r w ≡ (w, returned (blank o g r) eperm)
  unfolding serve blank guarded Operations.getattr Operations.setattr Operations.readdir
      Operations.opendir_handle Operations.lookup Operations.create Operations.mkdir
      Operations.symlink Operations.open_node Operations.fsync Operations.flush Operations.read
      Operations.write Operations.unlink Operations.rmdir Operations.rename Operations.readlink
  serve-foreign d uid getattr w h k = simp k (rw (check_access-ne d uid h))
  serve-foreign d uid (setattr f sent) w h k = elim (Bool-cases d.is_root) [
    | inl e ↦ rw e
    | inr e ↦ rw e (rw (check_access-ne d uid h))
  ]
  serve-foreign d uid readdir w h k = rw (check_access-ne d uid h)
  serve-foreign d uid (opendir n) w h k = rw (check_access-ne d uid h)
  serve-foreign d uid (lookup name) w h k = rw (check_access-ne d uid h)
  serve-foreign d uid (create name flags mode) w h k = rw (check_access-ne d uid h)
  serve-foreign d uid (mkdir name mode) w h k = rw (check_access-ne d uid h)
  serve-foreign d uid (symlink to name) w h k = rw (check_access-ne d uid h)
  serve-foreign d uid (open_node flags) w h k = rw (check_access-ne d uid h)
  serve-foreign d uid (release f) w h k = absurd k
  serve-foreign d uid (fsync f flags) w h k = rw (check_access-ne d uid h)
  serve-foreign d uid (flush f) w h k = rw (check_access-ne d uid h)
  serve-foreign d uid (read f size off) w h k = rw (check_access-ne d uid h)
  serve-foreign d uid (write f bytes off) w h k = rw (check_access-ne d uid h)
  serve-foreign d uid (unlink name) w h k = rw (check_access-ne d uid h)
  serve-foreign d uid (rmdir name) w h k = rw (check_access-ne d uid h)
  serve-foreign d uid (rename name to new) w h k = rw (check_access-ne d uid h)
  serve-foreign d uid readlink w h k = rw (check_access-ne d uid h)
  serve-foreign d uid forget w h k = absurd k
  serve-foreign d uid (lookup_entry f name) w h k = absurd k

  -- A namespace's root and the nodes that are minted below it.
  pub data Below (root : Node o) : Node o → Type 0 where
    itself : Below root root
    child : {d : Node o} (n : Option o.Node) → Below root d → Below root (child_node o d n)

  Below-uid : {root d : Node o} → Below root d → d.uid ≡ root.uid
  unfolding child_node
  Below-uid itself = refl
  Below-uid (child n b) = Below-uid b

  -- A user other than the owner of a namespace's root is refused by every node below it: the answer
  -- is `EPERM` with nothing beside it, and no handler or node has run, whatever the request, but for
  -- the attributes of the root, the release of a handle, the forgetting of a node and the entries of a
  -- directory's handle that has been opened.
  pub serve-foreign-Below :
      {root d : Node o}
      → Below root d
      → (uid : ℕ) (r : Request o g) (w : o.World) → uid ≢ root.uid
      → IsGated d r
      → serve o g d (some uid) r w ≡ (w, returned (blank o g r) eperm)
  serve-foreign-Below b uid r w h k = serve-foreign _ uid r w (λ e. h (e ∙ Below-uid b)) k
