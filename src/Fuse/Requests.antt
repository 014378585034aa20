-- ===== src/Fuse/Requests.antt =====
-- The requests of the kernel as one type, and how a `DispatchNode`, or a directory's handle, serves each.
use proton_utils.Base.{if◌then◌else◌, some, ℕ, Option, none, List, [], Bytes}
use proton_utils.Fuse.Outside.{
  Answer, returned, panicked, FuseSetAttrIn, Interfaces, Inodes, FuseHandle, Filled,
}
use proton_utils.Fuse.Children
use proton_utils.Fuse.Children.{Node, ReaddirHandle, is_dot}
use proton_utils.Fuse.Operations

module _ (o : Interfaces) (g : Inodes o) where
  pub data Request : Type 0 where
    getattr : Request
    setattr : FuseHandle o.Handle → FuseSetAttrIn → Request
    readdir : Request
    opendir : ℕ → Request
    lookup : Bytes → Request
    create : Bytes → ℕ → ℕ → Request
    mkdir : Bytes → ℕ → Request
    symlink : Bytes → Bytes → Request
    open_node : ℕ → Request
    release : FuseHandle o.Handle → Request
    fsync : FuseHandle o.Handle → ℕ → Request
    flush : FuseHandle o.Handle → Request
    read : FuseHandle o.Handle → ℕ → ℕ → Request
    write : FuseHandle o.Handle → Bytes → ℕ → Request
    unlink : Bytes → Request
    rmdir : Bytes → Request
    rename : Bytes → Option (Node o) → Bytes → Request
    readlink : Request
    forget : Request
    lookup_entry : ReaddirHandle o → Bytes → Request

  pub data Reply : Type 0 where
    attributes : Option Filled → Reply
    listing : List (Bytes × ℕ) → Reply
    directory : Option (ReaddirHandle o) → Reply
    child : Option (g.Inode × Option Filled) → Reply
    created : Option (g.Inode × FuseHandle o.Handle) → Reply
    opened : Option (FuseHandle o.Handle) → Reply
    content : Option Bytes → Reply
    written : ℕ → Reply
    aim : Bytes → Reply
    nothing : Reply

  abbrev pub as_reply : {A : Type 0} → (A → Reply) → o.World × Answer A → o.World × Answer Reply
  as_reply wrap (w, returned a e) = (w, returned (wrap a) e)
  as_reply wrap (w, panicked) = (w, panicked)

  unfoldable pub serve : Node o → Option ℕ → Request → o.World → o.World × Answer Reply
  serve d who getattr w = as_reply attributes (Operations.getattr o d who w)
  serve d who (setattr f sent) w = as_reply (λ _. nothing) (Operations.setattr o d who f sent w)
  serve d who readdir w = as_reply listing (Operations.readdir o d who w)
  serve d who (opendir n) w = as_reply directory (Operations.opendir_handle o n d who w)
  serve d who (lookup name) w = as_reply child (Operations.lookup o g d who name w)
  serve d who (create name flags mode) w =
      as_reply created (Operations.create o g d who name flags mode w)
  serve d who (mkdir name mode) w = as_reply child (Operations.mkdir o g d who name mode w)
  serve d who (symlink to name) w = as_reply child (Operations.symlink o g d who to name w)
  serve d who (open_node flags) w = as_reply opened (Operations.open_node o d who flags w)
  serve d who (release f) w = as_reply (λ _. nothing) (Operations.release o d f w)
  serve d who (fsync f flags) w = as_reply (λ _. nothing) (Operations.fsync o d who f flags w)
  serve d who (flush f) w = as_reply (λ _. nothing) (Operations.flush o d who f w)
  serve d who (read f size off) w = as_reply content (Operations.read o d who f size off w)
  serve d who (write f bytes off) w = as_reply written (Operations.write o d who f bytes off w)
  serve d who (unlink name) w = as_reply (λ _. nothing) (Operations.unlink o d who name w)
  serve d who (rmdir name) w = as_reply (λ _. nothing) (Operations.rmdir o d who name w)
  serve d who (rename name to new) w =
      as_reply (λ _. nothing) (Operations.rename o d who name to new w)
  serve d who readlink w = as_reply aim (Operations.readlink o d who w)
  serve d who forget w = as_reply (λ _. nothing) (Operations.on_forget o d w)
  -- An entry that READDIRPLUS reads is looked up in the handle.
  serve d who (lookup_entry h name) w =
      if is_dot o name
      then as_reply (λ f. attributes (some f)) (Children.lookup_dot_entry o h name w)
      else as_reply child (Children.lookup_entry o g h name w)

  -- What stands beside an errno where nothing was done.
  unfoldable pub blank : Request → Reply
  blank getattr = attributes none
  blank readdir = listing []
  blank (opendir _) = directory none
  blank (lookup _) = child none
  blank (create _ _ _) = created none
  blank (mkdir _ _) = child none
  blank (symlink _ _) = child none
  blank (open_node _) = opened none
  blank (read _ _ _) = content none
  blank (write _ _ _) = written 0
  blank readlink = aim []
  blank _ = nothing
