-- ===== src/Fuse/Children.antt =====
-- The nodes and the listings that the dispatch layer hands out: `wrapChild` of dispatch.go, and
-- `readdirHandle` of readdir_handle.go.
use proton_utils.Base.{
  Bool, ◌||◌, codes, ◌=?◌, ℕ, ◌+◌, ◌==◌, false, Option, none, some, List, [], ◌∷◌, get_elem?, take,
  Bytes, Map, insert, lookup, list_eq, nat_eq, if◌then◌else◌,
}
use proton_utils.Fuse.Outside.{
  Attr, DirEntry, Answer, returned, panicked, Target, of_handler, of_node, DirMethods, Interfaces,
  DispatchNode, StableAttr, Inodes, Filled,
}
use proton_utils.Fuse.Dispatch.{
  unless_panicked, s_ifdir, enoent, s_ifreg, file_type, on_success, with_dots,
}

module _ (o : Interfaces) where
  abbrev pub Node : Type 0
  Node = DispatchNode o.Handler o.Node

  -- the handler at a namespace's root, and the node below it
  unfoldable pub target : Node → Option (Target o.Handler o.Node)
  target d =
      if d.is_root
      then some (of_handler d.handler)
      else elim d.node [ none ↦ none | some n ↦ some (of_node n) ]

  -- A method of an optional interface, if there is a value and it has it.
  abbrev pub asserted : {A B : Type 0} → (A → Option B) → Option A → Option B
  asserted method none = none
  asserted method (some a) = method a

  -- The directory methods of the handler or of a node that has them.
  unfoldable pub dir_of : Node → Option (DirMethods o.World o.Node o.Link)
  dir_of d = if d.is_root then some (o.handler_dir d.handler) else asserted o.dir_node d.node

  -- A method of a nil node panics.
  unfoldable pub attr_of : Option o.Node → o.World → o.World × Answer (Option Attr)
  unfolding on_success
  attr_of none w = (w, panicked)
  attr_of (some n) w = on_success (o.node_getattr n w) none (λ a w'. (w', returned (some a) 0))

  -- `childStableAttr`
  unfoldable pub child_stable_attr : Option o.Node → ℕ → o.World → StableAttr
  child_stable_attr n mode w = record {
    mode = mode;
    ino = elim (asserted o.stable_inoder n) [ none ↦ 0 | some number ↦ number w ];
  }

  -- The `DispatchNode` of a child: the parent's handler and owner.
  unfoldable pub child_node : Node → Option o.Node → Node
  child_node d n = record d { node = n; is_root = false }

  abbrev pub filled : Node → Attr → Filled
  filled d a = record { attr = a; uid = d.uid; gid = d.gid }

  abbrev pub filled_from : Node → Option Attr → Option Filled
  filled_from d none = none
  filled_from d (some a) = some (filled d a)

  abbrev pub type_from : Option Attr → ℕ
  type_from none = s_ifreg
  type_from (some a) = file_type a.mode

  -- `readdirHandle`, and its `childEntry`
  pub record ChildEntry : Type 0 where
    pub node : Option o.Node
    pub link : o.Link
    pub mode : ℕ

  pub record ReaddirHandle : Type 0 where
    pub dispatch : Node
    pub entries : List (Bytes × ℕ)
    pub pos : ℕ
    pub children : Map Bytes ChildEntry

  -- The node under a name; a lookup that fails, or that there is not, gives none.
  unfoldable pub resolve : Node → Bytes → o.World → o.World × Answer (Option o.Node)
  unfolding dir_of
  resolve d name w = elim (dir_of d) [
    | none ↦ (w, returned none 0)
    | some dir ↦
        let (w', a) = dir.lookup name w in
        elim a [
          | panicked ↦ (w', panicked)
          | returned n e ↦ (w', returned (if e == 0 then n else none) 0)
        ]
  ]

  -- the loop of `buildReaddirHandle` over the children map
  unfoldable pub resolve_children :
      Node
      → List (DirEntry o.Link)
      → Map Bytes ChildEntry
      → o.World
      → o.World × Answer (Map Bytes ChildEntry)
  unfolding resolve
  resolve_children d [] acc w = (w, returned acc 0)
  resolve_children d (e ∷ es) acc w = elim e.link [
    | none ↦ resolve_children d es acc w
    | some l ↦
        let (w', a) = resolve d e.name w in
        elim a [
          | panicked ↦ (w', panicked)
          | returned n _ ↦
              resolve_children d es
                (insert e.name (record { node = n; link = l; mode = e.mode }) acc) w'
        ]
  ]

  -- `buildReaddirHandle`
  unfoldable pub build_readdir_handle :
      Node → List (DirEntry o.Link) → o.World → o.World × Answer ReaddirHandle
  unfolding resolve_children with_dots
  build_readdir_handle d entries w =
      let (w', a) = resolve_children d entries [] w in
      elim a [
        | panicked ↦ (w', panicked)
        | returned children e ↦ (
          w',
          returned
              (record { dispatch = d; entries = with_dots entries; pos = 0; children = children })
              0,
        )
      ]

  -- `Readdirent`; at the end there is none.
  unfoldable pub readdirent : ReaddirHandle → ReaddirHandle × Option (Bytes × ℕ)
  readdirent h = elim (get_elem? h.entries h.pos) [
    | none ↦ (h, none)
    | some e ↦ (record h { pos = h.pos + 1 }, some e)
  ]

  -- `Releasedir`
  unfoldable pub releasedir : ReaddirHandle → ReaddirHandle
  releasedir h = record h { entries = []; children = [] }

  -- The links of `prefetchFileAttrs` that are fetched for: of regular files.
  unfoldable pub prefetch_targets :
      Map Bytes ChildEntry → List (o.World → o.World × Answer (Unit {0}))
  prefetch_targets [] = []
  prefetch_targets ((_, c) ∷ children) =
      let rest = prefetch_targets children in
      if file_type c.mode == s_ifreg
      then elim (o.xattr_prefetcher c.link) [ none ↦ rest | some fetch ↦ fetch ∷ rest ]
      else rest

  -- The workers, which are goroutines that recover nothing: with the first panic the process ends.
  unfoldable pub run_all :
      List (o.World → o.World × Answer (Unit {0})) → o.World → o.World × Answer (Unit {0})
  unfolding unless_panicked
  run_all [] w = (w, returned tt 0)
  run_all (f ∷ fs) w = unless_panicked (f w) (run_all fs)

  -- `prefetchFileAttrs`, where `reached` targets are dispatched before the request is cancelled
  unfoldable pub prefetch_file_attrs : ℕ → ReaddirHandle → o.World → o.World × Answer (Unit {0})
  unfolding prefetch_targets run_all file_type
  prefetch_file_attrs reached h w = run_all (take reached (prefetch_targets h.children)) w

  abbrev pub is_dot : Bytes → Bool
  is_dot name = name =? codes "." || name =? codes ".."

  abbrev dir_attr : Attr
  dir_attr = record { mode = s_ifdir + 0o700; size = 0; nlink = 2; mtime = 0; ctime = 0; atime = 0 }

  abbrev zero_attr : Attr
  zero_attr = record { mode = 0; size = 0; nlink = 0; mtime = 0; ctime = 0; atime = 0 }

  unfoldable pub filled_dot : Node → o.World × Answer Attr → o.World × Answer Filled
  filled_dot d (w, panicked) = (w, panicked)
  filled_dot d (w, returned a e) = (w, returned (filled d (if e == 0 then a else dir_attr)) 0)

  -- `lookupDotEntry`, which gives no inode
  unfoldable pub lookup_dot_entry : ReaddirHandle → Bytes → o.World → o.World × Answer Filled
  unfolding filled_dot
  lookup_dot_entry h name w =
      let d = h.dispatch in
      if name =? codes "."
      then (if d.is_root then filled_dot d (o.handler_getattr d.handler w) else elim d.node [
        | none ↦ (w, returned (filled d zero_attr) 0)
        | some n ↦ filled_dot d (o.node_getattr n w)
      ])
      else (w, returned (filled d dir_attr) 0)

  module _ (g : Inodes o) where
    -- `wrapChild`
    unfoldable pub wrap_child :
        Node → Option o.Node → o.World → o.World × Answer (Option (g.Inode × Option Filled))
    unfolding attr_of child_stable_attr child_node file_type on_success
    wrap_child d n w =
        let (w', a) = attr_of n w in
        elim a [
          | panicked ↦ (w', panicked)
          | returned attr _ ↦
              let (w'', inode) =
                g.new_inode d (child_node d n) (child_stable_attr n (type_from attr) w') w' in
              (w'', returned (some (inode, filled_from d attr)) 0)
        ]

    -- `Lookup` of the handle for a name other than the dots
    unfoldable pub lookup_entry :
        ReaddirHandle → Bytes → o.World → o.World × Answer (Option (g.Inode × Option Filled))
    unfolding wrap_child
    lookup_entry h name w = elim (lookup name h.children) [
      | none ↦ (w, returned none enoent)
      | some c ↦ elim c.node [
        | none ↦ (w, returned none enoent)
        | some n ↦ wrap_child h.dispatch (some n) w
      ]
    ]
