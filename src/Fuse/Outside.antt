-- ===== src/Fuse/Outside.antt =====
-- What the dispatch layer meets, internal/fusemount/namespace.go: the interfaces of handlers and
-- nodes, and the values that go-fuse passes in and out.
use proton_utils.Base.{ℕ, ℤ, Bool, Option, List, Bytes}

pub record Attr : Type 0 where
  pub mode : ℕ
  pub size : ℕ
  pub nlink : ℕ
  pub mtime : ℕ
  pub ctime : ℕ
  pub atime : ℕ

-- `DirEntry`; `Link` is what the drive attaches to an entry.
pub record DirEntry (Link : Type 0) : Type 0 where
  pub name : Bytes
  pub mode : ℕ
  pub link : Option Link

-- A method returns its value beside an errno, 0 for success, or it panics.
pub data Answer (A : Type 0) : Type 0 where
  returned : A → ℕ → Answer A
  panicked : Answer A

-- `SetattrIn`: a field whose bit in `Valid` is not set is `none`.
pub record SetattrIn : Type 0 where
  pub mode : Option ℕ
  pub size : Option ℕ
  pub mtime : Option ℕ

-- go-fuse's `SetAttrIn`, likewise, with what `GetMTime` gives in seconds
pub record FuseSetAttrIn : Type 0 where
  pub uid : Option ℕ
  pub gid : Option ℕ
  pub mode : Option ℕ
  pub size : Option ℕ
  pub mtime : Option ℤ

-- What a type assertion is made on: a namespace's handler or a node.
pub data Target (Handler Node : Type 0) : Type 0 where
  of_handler : Handler → Target Handler Node
  of_node : Node → Target Handler Node

pub record DirMethods (World Node Link : Type 0) : Type 0 where
  pub lookup : Bytes → World → World × Answer (Option Node)
  pub readdir : World → World × Answer (List (DirEntry Link))

pub record Remover (World : Type 0) : Type 0 where
  pub unlink : Bytes → World → World × Answer (Unit {0})
  pub rmdir : Bytes → World → World × Answer (Unit {0})

-- The methods of handlers and nodes over the state they share; an optional interface is `none`
-- where a value does not implement it. A node or a handle that may be nil is an `Option`.
pub record Interfaces : Type 1 where
  pub World : Type 0
  pub Handler : Type 0
  pub Node : Type 0
  pub Handle : Type 0
  pub Link : Type 0
  pub handler_getattr : Handler → World → World × Answer Attr
  pub handler_dir : Handler → DirMethods World Node Link
  pub node_getattr : Node → World → World × Answer Attr
  pub dir_node : Node → Option (DirMethods World Node Link)
  pub creator :
      Target Handler Node
      → Option (Bytes → ℕ → ℕ → World → World × Answer (Option Node × Option Handle))
  pub mkdirer : Target Handler Node → Option (Bytes → ℕ → World → World × Answer (Option Node))
  pub symlinker :
      Target Handler Node → Option (Bytes → Bytes → World → World × Answer (Option Node))
  pub remover : Target Handler Node → Option (Remover World)
  pub renamer :
      Target Handler Node → Option (Bytes → Option Node → Bytes → World → World × Answer (Unit {0}))
  pub opener : Node → Option (ℕ → World → World × Answer (Option Handle))
  -- the buffer that `Read` fills, and how much of it
  pub reader : Node → Option (Option Handle → ℕ → ℕ → World → World × Answer (Bytes × ℕ))
  pub writer : Node → Option (Option Handle → Bytes → ℕ → World → World × Answer ℕ)
  pub releaser : Node → Option (Option Handle → World → World × Answer (Unit {0}))
  pub fsyncer : Node → Option (Option Handle → ℕ → World → World × Answer (Unit {0}))
  pub flusher : Node → Option (Option Handle → World → World × Answer (Unit {0}))
  pub setattrer : Node → Option (Option Handle → SetattrIn → World → World × Answer (Unit {0}))
  pub readlinker : Node → Option (World → World × Answer Bytes)
  pub forgetter : Node → Option (World → World × Answer (Unit {0}))
  -- `InodeNumber`, and `EnsureXAttrPrefetch` of the link attached to an entry
  pub stable_inoder : Node → Option (World → ℕ)
  pub xattr_prefetcher : Link → Option (World → World × Answer (Unit {0}))

-- `DispatchNode`
pub record DispatchNode (Handler Node : Type 0) : Type 0 where
  pub handler : Handler
  pub node : Option Node
  pub is_root : Bool
  pub uid : ℕ
  pub gid : ℕ

-- go-fuse's `StableAttr`
pub record StableAttr : Type 0 where
  pub mode : ℕ
  pub ino : ℕ

-- go-fuse: the inodes of the mount, and `NewInode` under a parent.
pub record Inodes (o : Interfaces) : Type 1 where
  pub Inode : Type 0
  pub new_inode :
      DispatchNode o.Handler o.Node
      → DispatchNode o.Handler o.Node
      → StableAttr
      → o.World
      → o.World × Inode

-- A file handle as go-fuse holds it: the dispatch layer's own, or another.
pub data FuseHandle (Handle : Type 0) : Type 0 where
  dispatch_handle : Option Handle → FuseHandle Handle
  other_handle : FuseHandle Handle

-- What is filled in of `AttrOut` or `EntryOut`.
pub record Filled : Type 0 where
  pub attr : Attr
  pub uid : ℕ
  pub gid : ℕ
