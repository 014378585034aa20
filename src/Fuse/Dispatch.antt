-- ===== src/Fuse/Dispatch.antt =====
-- `DispatchNode`, internal/fusemount/dispatch.go: the access check and the routing of the
-- kernel's requests to handlers and nodes.
use proton_utils.Base.{
  ℕ, ◌*◌, ◌/◌, ◌%◌, ◌==◌, pos, negsuc, ℤ, Bool, true, false, not, ◌||◌, Option, none, some, List,
  ◌∷◌, map, Bytes, codes, if◌then◌else◌,
}
use proton_utils.Fuse.Outside.{
  DirEntry, Answer, returned, panicked, SetattrIn, FuseSetAttrIn, DispatchNode, FuseHandle,
  dispatch_handle, other_handle,
}

abbrev pub eperm : ℕ
eperm = 1

abbrev pub enoent : ℕ
enoent = 2

abbrev pub eio : ℕ
eio = 5

abbrev pub ebadf : ℕ
ebadf = 9

abbrev pub enotdir : ℕ
enotdir = 20

abbrev pub einval : ℕ
einval = 22

abbrev pub s_ifdir : ℕ
s_ifdir = 0x4000

abbrev pub s_ifreg : ℕ
s_ifreg = 0x8000

abbrev pub s_iflnk : ℕ
s_iflnk = 0xa000

-- `mode & S_IFMT`
unfoldable pub file_type : ℕ → ℕ
file_type mode = mode / 4096 % 16 * 4096

-- `defer recover()`: a panic becomes `EIO`, with nothing beside it.
unfoldable pub recovered : {W A : Type 0} → A → W × Answer A → W × Answer A
recovered nil (w, returned a e) = (w, returned a e)
recovered nil (w, panicked) = (w, returned nil eio)

-- What follows a call that succeeds; a call that fails is the end of it.
unfoldable pub on_success :
    {W A B : Type 0} → W × Answer A → B → (A → W → W × Answer B) → W × Answer B
on_success (w, panicked) nil next = (w, panicked)
on_success (w, returned a e) nil next = if e == 0 then next a w else (w, returned nil e)

-- what is done next unless a panic ends the process
unfoldable pub unless_panicked : {W A B : Type 0} → W × Answer A → (W → W × Answer B) → W × Answer B
unless_panicked (w, panicked) next = (w, panicked)
unless_panicked (w, returned _ _) next = next w

-- `checkAccess`; `none` is a call without a caller in its context
unfoldable pub check_access : {H N : Type 0} → DispatchNode H N → Option ℕ → ℕ
check_access d none = 0
check_access d (some uid) = if uid == d.uid then 0 else eperm

-- The opening of a request: the access check, and then the deferred recovery.
unfoldable pub guarded :
    {H N W A : Type 0} → DispatchNode H N → Option ℕ → A → (W → W × Answer A) → W → W × Answer A
unfolding check_access recovered
guarded d caller nil body w =
    let e = check_access d caller in if e == 0 then recovered nil (body w) else (w, returned nil e)

-- What a file handle holds for the node.
abbrev pub inner_handle : {Handle : Type 0} → FuseHandle Handle → Option Handle
inner_handle (dispatch_handle h) = h
inner_handle other_handle = none

-- seconds below 0 become 0
abbrev pub unix_seconds : ℤ → ℕ
unix_seconds (pos n) = n
unix_seconds (negsuc n) = 0

abbrev pub is_set : {A : Type 0} → Option A → Bool
is_set none = false
is_set (some _) = true

-- the fields of a request that a node may handle
unfoldable pub translate : FuseSetAttrIn → SetattrIn
translate sent = record {
  mode = sent.mode;
  size = sent.size;
  mtime = elim sent.mtime [ none ↦ none | some t ↦ some (unix_seconds t) ];
}

unfoldable pub has_none : SetattrIn → Bool
has_none sin = not (is_set sin.mode || is_set sin.size || is_set sin.mtime)

-- `.` and `..` first
unfoldable pub with_dots : {Link : Type 0} → List (DirEntry Link) → List (Bytes × ℕ)
with_dots entries =
    (codes ".", s_ifdir) ∷ (codes "..", s_ifdir) ∷ map (λ e. (e.name, e.mode)) entries
