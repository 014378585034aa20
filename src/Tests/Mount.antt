-- ===== src/Tests/Mount.antt =====
-- A namespace of one file, for the requests of the dispatch layer.
use proton_utils.Base.{
  ℕ, ◌+◌, ◌≡◌, ◌≢◌, refl, true, false, none, some, [], ◌∷◌, codes, nat_eq, list_eq, list_beq,
  insert, lookup, arith,
}
use proton_utils.Fuse.Outside.{
  Attr, returned, panicked, FuseSetAttrIn, DirMethods, Interfaces, Inodes, dispatch_handle,
}
use proton_utils.Fuse.Dispatch.{
  eperm, file_type, recovered, on_success, check_access, guarded, translate, has_none, with_dots,
}
use proton_utils.Fuse.Children.{
  Node, ReaddirHandle, target, dir_of, child_node, resolve, resolve_children, build_readdir_handle,
  prefetch_targets, run_all, prefetch_file_attrs,
}
use proton_utils.Fuse.Operations.{file_node, readdir, opendir_handle}
use proton_utils.Fuse.Requests.{write, serve, blank}
use proton_utils.Fuse.Gate.{Below, itself, child, serve-foreign-Below}
use proton_utils.Fuse.Recovery.{serve-ne-panicked}
use proton_utils.Fuse.Listings.{read_out, read_out-opendir_handle}

program : Unit {0}
unfolding guarded check_access recovered on_success with_dots file_type readdir opendir_handle
    build_readdir_handle prefetch_file_attrs prefetch_targets run_all resolve_children resolve
    dir_of target file_node insert lookup list_beq has_none translate
program = tt

abbrev plain : Attr
plain = record { mode = 0x8180; size = 5; nlink = 1; mtime = 0; ctime = 0; atime = 0 }

abbrev one_file : DirMethods ℕ ℕ ℕ
one_file = record {
  lookup = λ name w. (w + 1, returned (some 7) 0);
  readdir =
      λ w. (w + 1, returned (record { name = codes "a"; mode = 0x8180; link = some 3 } ∷ []) 0);
}

-- The world counts the calls; `Setattr` of a node panics.
abbrev toy : Interfaces
toy = record {
  World = ℕ;
  Handler = Unit {0};
  Node = ℕ;
  Handle = ℕ;
  Link = ℕ;
  handler_getattr = λ h w. (w + 1, returned plain 0);
  handler_dir = λ h. one_file;
  node_getattr = λ n w. (w + 1, returned plain 0);
  dir_node = λ n. none;
  creator = λ x. none;
  mkdirer = λ x. none;
  symlinker = λ x. none;
  remover = λ x. none;
  renamer = λ x. none;
  opener = λ n. none;
  reader = λ n. none;
  writer = λ n. some (λ h bytes off w. (w + 1, panicked));
  releaser = λ n. none;
  fsyncer = λ n. none;
  flusher = λ n. none;
  setattrer = λ n. some (λ h sent w. (w + 1, panicked));
  readlinker = λ n. none;
  forgetter = λ n. none;
  stable_inoder = λ n. some (λ w. 40 + n);
  xattr_prefetcher = λ l. some (λ w. (w + 100, returned tt 0));
}

abbrev inodes : Inodes toy
inodes = record { Inode = ℕ; new_inode = λ parent made attr w. (w + 1, attr.ino) }

abbrev root : Node toy
root = record { handler = tt; node = none; is_root = true; uid = 1000; gid = 1000 }

abbrev a_file : Node toy
a_file = record root { node = some 7; is_root = false }

below : Below toy inodes root a_file
unfolding child_node
below = child (some 7) itself

-- Another user's write to the file.
serve-foreign-Below_example :
    serve toy inodes a_file (some 0) (write (dispatch_handle none) (1 ∷ []) 0) 0
    ≡ (0, returned (blank toy inodes (write (dispatch_handle none) (1 ∷ []) 0)) eperm)
serve-foreign-Below_example =
    serve-foreign-Below toy inodes below 0 (write (dispatch_handle none) (1 ∷ []) 0) 0 (omega arith)
      tt

-- The owner's, in which the node panics.
serve-ne-panicked_example :
    (serve toy inodes a_file (some 1000) (write (dispatch_handle none) (1 ∷ []) 0) 0).1 ≢ panicked
serve-ne-panicked_example =
    serve-ne-panicked toy inodes a_file (some 1000) (write (dispatch_handle none) (1 ∷ []) 0) 0 tt

abbrev chmod : FuseSetAttrIn
chmod = record { uid = none; gid = none; mode = some 0x180; size = none; mtime = none }

abbrev opened : ReaddirHandle toy
opened = record {
  dispatch = root;
  entries = (codes ".", 0x4000) ∷ (codes "..", 0x4000) ∷ (codes "a", 0x8180) ∷ [];
  pos = 0;
  children = (codes "a", record { node = some 7; link = 3; mode = 0x8180 }) ∷ [];
}

-- The owner lists the namespace, through `Readdir` and through a handle.
read_out-opendir_handle_example :
    read_out toy 4 opened ≡ (codes ".", 0x4000) ∷ (codes "..", 0x4000) ∷ (codes "a", 0x8180) ∷ []
unfolding program
read_out-opendir_handle_example =
    read_out-opendir_handle toy 1 root (some 1000) 0 1 102 opened.entries opened refl refl
