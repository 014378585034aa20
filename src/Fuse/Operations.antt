-- ===== src/Fuse/Operations.antt =====
-- The requests that a `DispatchNode` takes, dispatch.go, under the source's names. The caller is
-- the user that the request's context has; what stands beside an errno is `none` where the source
-- returns nil.
use proton_utils.Base.{
  ℕ, ◌==◌, leb, Option, none, some, List, [], length, take, Bytes, if◌then◌else◌,
}
use proton_utils.Fuse.Outside.{
  Answer, returned, panicked, FuseSetAttrIn, Interfaces, Inodes, FuseHandle, dispatch_handle,
  Filled,
}
use proton_utils.Fuse.Dispatch.{
  unless_panicked, eperm, ebadf, enotdir, einval, s_ifdir, s_ifreg, s_iflnk, recovered, on_success,
  check_access, guarded, inner_handle, is_set, translate, has_none, with_dots,
}
use proton_utils.Fuse.Children.{
  Node, target, asserted, attr_of, dir_of, child_stable_attr, child_node, filled, filled_from,
  ReaddirHandle, build_readdir_handle, prefetch_file_attrs, wrap_child,
}

abbrev pub done : {W : Type 0} → ℕ → W → W × Answer (Unit {0})
done e w = (w, returned tt e)

module _ (o : Interfaces) where
  abbrev answered : {A : Type 0} → A → ℕ → o.World → o.World × Answer A
  answered a e w = (w, returned a e)

  -- `d.isRoot || d.node == nil`, in which case there is no node to go to
  unfoldable pub file_node : Node o → Option o.Node
  file_node d = if d.is_root then none else d.node

  -- a method of the node, or what is returned where it is missing
  abbrev pub or_else :
      {M A : Type 0}
      → Option M
      → (o.World → o.World × Answer A)
      → (M → o.World → o.World × Answer A)
      → o.World
      → o.World × Answer A
  or_else none missing use_it w = missing w
  or_else (some m) missing use_it w = use_it m w

  unfoldable pub getattr : Node o → Option ℕ → o.World → o.World × Answer (Option Filled)
  unfolding attr_of
  getattr d caller w =
      if d.is_root
      then recovered none (
          on_success (o.handler_getattr d.handler w) none
            (λ a w'. (w', returned (some (filled o d a)) 0)))
      else guarded d caller none
          (λ w'.
            on_success (attr_of o d.node w') none (λ a w''. (w'', returned (filled_from o d a) 0)))
          w

  -- `Setattr` recovers no panic.
  unfoldable pub setattr_node :
      o.Node → FuseHandle o.Handle → FuseSetAttrIn → o.World → o.World × Answer (Unit {0})
  unfolding translate has_none
  setattr_node n f sent w = elim (o.setattrer n) [
    | none ↦ done 0 w
    | some setter ↦
        if has_none (translate sent) then done 0 w else setter (inner_handle f) (translate sent) w
  ]

  unfoldable pub setattr :
      Node o
      → Option ℕ
      → FuseHandle o.Handle
      → FuseSetAttrIn
      → o.World
      → o.World × Answer (Unit {0})
  unfolding setattr_node check_access
  setattr d caller f sent w =
      if d.is_root
      then done eperm w
      else if check_access d caller == 0
      then (if is_set sent.uid
          then done eperm w
          else if is_set sent.gid
          then done eperm w
          else elim d.node [ none ↦ done 0 w | some n ↦ setattr_node n f sent w ])
      else done (check_access d caller) w

  unfoldable pub readdir : Node o → Option ℕ → o.World → o.World × Answer (List (Bytes × ℕ))
  unfolding dir_of with_dots
  readdir d caller w =
      guarded d caller []
        (or_else (dir_of o d) (answered [] enotdir)
          (λ dir w'. on_success (dir.readdir w') [] (λ es w''. (w'', returned (with_dots es) 0))))
        w

  -- The prefetches for a new handle. They stand behind the deferred recovery of `OpendirHandle`, since
  -- a panic of their goroutines passes it by, and nothing else comes after them.
  unfoldable pub prefetched :
      ℕ → o.World × Answer (Option (ReaddirHandle o)) → o.World × Answer (Option (ReaddirHandle o))
  unfolding prefetch_file_attrs unless_panicked
  prefetched reached (w, panicked) = (w, panicked)
  prefetched reached (w, returned none e) = (w, returned none e)
  prefetched reached (w, returned (some h) e) =
      unless_panicked (prefetch_file_attrs o reached h w) (λ w'. (w', returned (some h) e))

  -- `OpendirHandle`, where `reached` prefetches are dispatched
  unfoldable pub opendir_handle :
      ℕ → Node o → Option ℕ → o.World → o.World × Answer (Option (ReaddirHandle o))
  unfolding dir_of build_readdir_handle prefetched
  opendir_handle reached d caller w = prefetched reached (
      guarded d caller none
        (or_else (dir_of o d) (answered none enotdir) (λ dir w'.
          on_success (dir.readdir w') none (λ es w''.
            on_success (build_readdir_handle o d es w'') none (λ h w₃. (w₃, returned (some h) 0)))))
        w)

  unfoldable pub open_node :
      Node o → Option ℕ → ℕ → o.World → o.World × Answer (Option (FuseHandle o.Handle))
  unfolding file_node
  open_node d caller flags w =
      guarded d caller none
        (or_else (file_node d) (answered none eperm) (λ n.
          or_else (o.opener n)
            (or_else (o.reader n)
              (or_else (o.writer n) (answered none eperm)
                (λ _. answered (some (dispatch_handle none)) 0))
              (λ _. answered (some (dispatch_handle none)) 0))
            (λ open_it w'.
              on_success (open_it flags w') none
                (λ h w''. (w'', returned (some (dispatch_handle h)) 0)))))
        w

  -- `Release` makes no access check.
  unfoldable pub release : Node o → FuseHandle o.Handle → o.World → o.World × Answer (Unit {0})
  unfolding file_node
  release d f w = recovered tt (
      or_else (file_node d) (done 0)
        (λ n. or_else (o.releaser n) (done 0) (λ close w'. close (inner_handle f) w')) w)

  unfoldable pub fsync :
      Node o → Option ℕ → FuseHandle o.Handle → ℕ → o.World → o.World × Answer (Unit {0})
  unfolding file_node
  fsync d caller f flags w =
      guarded d caller tt
        (or_else (file_node d) (done 0)
          (λ n. or_else (o.fsyncer n) (done 0) (λ sync w'. sync (inner_handle f) flags w')))
        w

  unfoldable pub flush :
      Node o → Option ℕ → FuseHandle o.Handle → o.World → o.World × Answer (Unit {0})
  unfolding file_node
  flush d caller f w =
      guarded d caller tt
        (or_else (file_node d) (done 0)
          (λ n. or_else (o.flusher n) (done 0) (λ flush_it w'. flush_it (inner_handle f) w')))
        w

  -- `dest[:n]` panics beyond the buffer.
  unfoldable pub sliced : Bytes × ℕ → o.World → o.World × Answer (Option Bytes)
  sliced (dest, n) w =
      if leb n (length dest) then (w, returned (some (take n dest)) 0) else (w, panicked)

  unfoldable pub read :
      Node o → Option ℕ → FuseHandle o.Handle → ℕ → ℕ → o.World → o.World × Answer (Option Bytes)
  unfolding file_node sliced
  read d caller f size off w =
      guarded d caller none
        (or_else (file_node d) (answered none eperm) (λ n.
          or_else (o.reader n) (answered none ebadf)
            (λ fill w'. on_success (fill (inner_handle f) size off w') none sliced)))
        w

  unfoldable pub write :
      Node o → Option ℕ → FuseHandle o.Handle → Bytes → ℕ → o.World → o.World × Answer ℕ
  unfolding file_node
  write d caller f payload off w =
      guarded d caller 0
        (or_else (file_node d) (answered 0 eperm) (λ n.
          or_else (o.writer n) (answered 0 ebadf) (λ put w'. put (inner_handle f) payload off w')))
        w

  unfoldable pub unlink : Node o → Option ℕ → Bytes → o.World → o.World × Answer (Unit {0})
  unfolding target
  unlink d caller name w =
      guarded d caller tt
        (or_else (asserted o o.remover (target o d)) (done eperm) (λ r. r.unlink name)) w

  unfoldable pub rmdir : Node o → Option ℕ → Bytes → o.World → o.World × Answer (Unit {0})
  unfolding target
  rmdir d caller name w =
      guarded d caller tt
        (or_else (asserted o o.remover (target o d)) (done eperm) (λ r. r.rmdir name)) w

  -- `Rename`; `none` is a new parent of another type
  unfoldable pub rename :
      Node o → Option ℕ → Bytes → Option (Node o) → Bytes → o.World → o.World × Answer (Unit {0})
  unfolding target
  rename d caller name parent new_name w =
      guarded d caller tt
        (or_else (asserted o o.renamer (target o d)) (done eperm)
          (λ move. move name (asserted o (λ p. p.node) parent) new_name))
        w

  -- What is read is returned beside the node's errno.
  unfoldable pub readlink : Node o → Option ℕ → o.World → o.World × Answer Bytes
  unfolding file_node
  readlink d caller w =
      guarded d caller []
        (or_else (file_node d) (answered [] einval)
          (λ n. or_else (o.readlinker n) (answered [] einval) (λ read_it. read_it)))
        w

  unfoldable pub on_forget : Node o → o.World → o.World × Answer (Unit {0})
  on_forget d w = or_else (asserted o o.forgetter d.node) (done 0) (λ forget. forget) w

  module _ (g : Inodes o) where
    abbrev pub Minted : Type 0
    Minted = Option (g.Inode × Option Filled)

    -- A new node's inode, of a type that is known.
    unfoldable pub mint :
        Node o → Option o.Node → ℕ → Option Filled → o.World → o.World × Answer Minted
    unfolding child_stable_attr child_node
    mint d n mode out w =
        let (w', inode) = g.new_inode d (child_node o d n) (child_stable_attr o n mode w) w in
        (w', returned (some (inode, out)) 0)

    unfoldable pub lookup : Node o → Option ℕ → Bytes → o.World → o.World × Answer Minted
    unfolding dir_of wrap_child
    lookup d caller name w =
        guarded d caller none
          (or_else (dir_of o d) (answered none enotdir)
            (λ dir w'. on_success (dir.lookup name w') none (wrap_child o g d)))
          w

    unfoldable pub create :
        Node o
        → Option ℕ
        → Bytes
        → ℕ
        → ℕ
        → o.World
        → o.World × Answer (Option (g.Inode × FuseHandle o.Handle))
    unfolding target mint
    create d caller name flags mode w =
        guarded d caller none
          (or_else (asserted o o.creator (target o d)) (answered none eperm) (λ make w'.
            on_success (make name flags mode w') none (λ made w''.
              on_success (mint d made.0 s_ifreg none w'') none (λ minted w₃. (
                w₃,
                returned (elim minted [ none ↦ none | some i ↦ some (i.0, dispatch_handle made.1) ])
                    0,
              )))))
          w

    unfoldable pub mkdir : Node o → Option ℕ → Bytes → ℕ → o.World → o.World × Answer Minted
    unfolding target mint
    mkdir d caller name mode w =
        guarded d caller none
          (or_else (asserted o o.mkdirer (target o d)) (answered none eperm)
            (λ make w'. on_success (make name mode w') none (λ n. mint d n s_ifdir none)))
          w

    -- `Getattr` of the new link, whose failure leaves the attributes unset
    unfoldable pub mint_symlink : Node o → Option o.Node → o.World → o.World × Answer Minted
    unfolding attr_of mint
    mint_symlink d n w =
        let (w', a) = attr_of o n w in
        elim a [
          | panicked ↦ (w', panicked)
          | returned attr _ ↦ mint d n s_iflnk (filled_from o d attr) w'
        ]

    unfoldable pub symlink : Node o → Option ℕ → Bytes → Bytes → o.World → o.World × Answer Minted
    unfolding target mint_symlink
    symlink d caller aim name w =
        guarded d caller none
          (or_else (asserted o o.symlinker (target o d)) (answered none eperm)
            (λ make w'. on_success (make aim name w') none (mint_symlink d)))
          w
