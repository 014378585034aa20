-- ===== src/Fuse/Recovery.antt =====
-- Panics of handlers and nodes: where they are recovered, and where they are not.
use proton_utils.Base.{
  zero, suc, List, ◌∷◌, take, All, Map, Bytes, Option-cases, ℕ, ◌==◌, ◌≡◌, ◌≢◌, refl, false,
  Bool-cases, inl, inr, Option, none, some, [],
}
use proton_utils.Fuse.Outside.{
  Answer, returned, panicked, SetattrIn, FuseSetAttrIn, Interfaces, DispatchNode, Inodes,
  FuseHandle,
}
use proton_utils.Fuse.Dispatch.{
  unless_panicked, file_type, s_ifreg, check_access, guarded, recovered, inner_handle, translate,
  has_none,
}
use proton_utils.Fuse.Children.{
  Node, ChildEntry, ReaddirHandle, prefetch_targets, run_all, prefetch_file_attrs,
}
use proton_utils.Fuse.Requests.{
  Request, getattr, setattr, readdir, opendir, lookup, create, mkdir, symlink, open_node, release,
  fsync, flush, read, write, unlink, rmdir, rename, readlink, forget, lookup_entry, Reply, serve,
  as_reply,
}
use proton_utils.Fuse.Operations

recovered-ne-panicked : {W A : Type 0} (nil : A) (r : W × Answer A) → (recovered nil r).1 ≢ panicked
unfolding recovered
recovered-ne-panicked nil (w, returned a e) = cc
recovered-ne-panicked nil (w, panicked) = cc

guarded-ne-panicked :
    {H N W A : Type 0} (d : DispatchNode H N) (who : Option ℕ) (nil : A) (body : W → W × Answer A)
    (w : W)
    → (guarded d who nil body w).1 ≢ panicked
unfolding guarded
guarded-ne-panicked d who nil body w = elim (Bool-cases (check_access d who == 0)) [
  | inl e ↦ rw e (recovered-ne-panicked nil (body w))
  | inr e ↦ rw e (cc)
]

unless_panicked-ne-panicked :
    {W A B : Type 0} (r : W × Answer A) (next : W → W × Answer B)
    → r.1 ≢ panicked
    → ((w : W) → (next w).1 ≢ panicked)
    → (unless_panicked r next).1 ≢ panicked
unfolding unless_panicked
unless_panicked-ne-panicked (w, panicked) next h k = absurd (h refl)
unless_panicked-ne-panicked (w, returned a e) next h k = k w

module _ (o : Interfaces) (g : Inodes o) where
  as_reply-ne-panicked :
      {A : Type 0} (wrap : A → Reply o g) (r : o.World × Answer A)
      → r.1 ≢ panicked
      → (as_reply o g wrap r).1 ≢ panicked
  as_reply-ne-panicked wrap (w, returned a e) h = cc
  as_reply-ne-panicked wrap (w, panicked) h = absurd (h refl)

  -- The prefetches of a listing's links do not panic.
  abbrev pub PrefetchIsTotal : Type 0
  PrefetchIsTotal =
      (l : o.Link) (fetch : o.World → o.World × Answer (Unit {0}))
      → o.xattr_prefetcher l ≡ some fetch
      → (w : o.World) → (fetch w).1 ≢ panicked

  abbrev IsTotal : (o.World → o.World × Answer (Unit {0})) → Type 0
  IsTotal fetch = (w : o.World) → (fetch w).1 ≢ panicked

  prefetch_targets-IsTotal :
      (children : Map Bytes (ChildEntry o))
      → PrefetchIsTotal
      → All IsTotal (prefetch_targets o children)
  unfolding prefetch_targets
  prefetch_targets-IsTotal [] h = tt
  prefetch_targets-IsTotal ((_, c) ∷ children) h = elim (Bool-cases (file_type c.mode == s_ifreg)) [
    | inl e ↦ elim (Option-cases (o.xattr_prefetcher c.link)) [
      | inl q ↦ rw e (rw q (prefetch_targets-IsTotal children h))
      | inr (fetch, q) ↦ rw e (rw q (h c.link fetch q, prefetch_targets-IsTotal children h))
    ]
    | inr e ↦ rw e (prefetch_targets-IsTotal children h)
  ]

  run_all-ne-panicked :
      (n : ℕ) (fetches : List (o.World → o.World × Answer (Unit {0}))) (w : o.World)
      → All IsTotal fetches
      → (run_all o (take n fetches) w).1 ≢ panicked
  unfolding run_all
  run_all-ne-panicked zero fetches w h = cc
  run_all-ne-panicked (suc n) [] w h = cc
  run_all-ne-panicked (suc n) (fetch ∷ fetches) w (h, k) =
      unless_panicked-ne-panicked (fetch w) (run_all o (take n fetches)) (h w)
        (λ w'. run_all-ne-panicked n fetches w' k)

  prefetched-ne-panicked :
      (n : ℕ) (r : o.World × Answer (Option (ReaddirHandle o)))
      → PrefetchIsTotal
      → r.1 ≢ panicked
      → (Operations.prefetched o n r).1 ≢ panicked
  unfolding Operations.prefetched prefetch_file_attrs
  prefetched-ne-panicked n (w, panicked) t h = h
  prefetched-ne-panicked n (w, returned none e) t h = cc
  prefetched-ne-panicked n (w, returned (some d) e) t h =
      unless_panicked-ne-panicked (run_all o (take n (prefetch_targets o d.children)) w)
        (λ w'. (w', returned (some d) e))
        (run_all-ne-panicked n (prefetch_targets o d.children) w
          (prefetch_targets-IsTotal d.children t))
        (λ w'. cc)

  abbrev pub IsRecovered : Request o g → Type 0
  IsRecovered (setattr _ _) = ⊥
  IsRecovered forget = ⊥
  IsRecovered (lookup_entry _ _) = ⊥
  IsRecovered (opendir _) = PrefetchIsTotal
  IsRecovered _ = Unit

  -- Whatever a handler or a node does, a panic included, every request but `Setattr`, `OnForget` and
  -- the lookup of an entry in a directory's handle is answered: the panic does not reach the process.
  -- For `OpendirHandle` the prefetches of the links' attributes must not panic, which run in
  -- goroutines of their own.
  pub serve-ne-panicked :
      (d : Node o) (who : Option ℕ) (r : Request o g) (w : o.World)
      → IsRecovered r
      → (serve o g d who r w).1 ≢ panicked
  unfolding serve Operations.getattr Operations.readdir Operations.opendir_handle Operations.lookup
      Operations.create Operations.mkdir Operations.symlink Operations.open_node Operations.release
      Operations.fsync Operations.flush Operations.read Operations.write Operations.unlink
      Operations.rmdir Operations.rename Operations.readlink
  serve-ne-panicked d who getattr w k = as_reply-ne-panicked _ _ (elim (Bool-cases d.is_root) [
    | inl e ↦ rw e (recovered-ne-panicked none _)
    | inr e ↦ simp e (guarded-ne-panicked d who none _ w)
  ])
  serve-ne-panicked d who readdir w k = as_reply-ne-panicked _ _ (guarded-ne-panicked d who [] _ w)
  serve-ne-panicked d who (opendir n) w k =
      as_reply-ne-panicked _ _ (prefetched-ne-panicked n _ k (guarded-ne-panicked d who none _ w))
  serve-ne-panicked d who (lookup name) w k =
      as_reply-ne-panicked _ _ (guarded-ne-panicked d who none _ w)
  serve-ne-panicked d who (create name flags mode) w k =
      as_reply-ne-panicked _ _ (guarded-ne-panicked d who none _ w)
  serve-ne-panicked d who (mkdir name mode) w k =
      as_reply-ne-panicked _ _ (guarded-ne-panicked d who none _ w)
  serve-ne-panicked d who (symlink to name) w k =
      as_reply-ne-panicked _ _ (guarded-ne-panicked d who none _ w)
  serve-ne-panicked d who (open_node flags) w k =
      as_reply-ne-panicked _ _ (guarded-ne-panicked d who none _ w)
  serve-ne-panicked d who (release f) w k = as_reply-ne-panicked _ _ (recovered-ne-panicked tt _)
  serve-ne-panicked d who (fsync f flags) w k =
      as_reply-ne-panicked _ _ (guarded-ne-panicked d who tt _ w)
  serve-ne-panicked d who (flush f) w k =
      as_reply-ne-panicked _ _ (guarded-ne-panicked d who tt _ w)
  serve-ne-panicked d who (read f size off) w k =
      as_reply-ne-panicked _ _ (guarded-ne-panicked d who none _ w)
  serve-ne-panicked d who (write f bytes off) w k =
      as_reply-ne-panicked _ _ (guarded-ne-panicked d who 0 _ w)
  serve-ne-panicked d who (unlink name) w k =
      as_reply-ne-panicked _ _ (guarded-ne-panicked d who tt _ w)
  serve-ne-panicked d who (rmdir name) w k =
      as_reply-ne-panicked _ _ (guarded-ne-panicked d who tt _ w)
  serve-ne-panicked d who (rename name to new) w k =
      as_reply-ne-panicked _ _ (guarded-ne-panicked d who tt _ w)
  serve-ne-panicked d who readlink w k = as_reply-ne-panicked _ _ (guarded-ne-panicked d who [] _ w)
  serve-ne-panicked d who (setattr f sent) w k = absurd k
  serve-ne-panicked d who forget w k = absurd k
  serve-ne-panicked d who (lookup_entry f name) w k = absurd k

  setattr_node-panicked :
      (f : FuseHandle o.Handle) (sent : FuseSetAttrIn) (n : o.Node)
      (setter : Option o.Handle → SetattrIn → o.World → o.World × Answer (Unit {0}))
      (w w' : o.World)
      → has_none (translate sent) ≡ false
      → o.setattrer n ≡ some setter
      → setter (inner_handle f) (translate sent) w ≡ (w', panicked)
      → Operations.setattr_node o n f sent w ≡ (w', panicked)
  unfolding Operations.setattr_node
  setattr_node-panicked f sent n setter w w' e₁ e₂ e₃ = rw (e₂, Operations.setattr_node) (rw e₁ e₃)

  -- `Setattr` is not: if the caller has access, no owner is to be set, something else is, and the
  -- node's `Setattr` panics, then the panic goes on to the process.
  pub serve-setattr-panicked :
      (d : Node o) (who : Option ℕ) (f : FuseHandle o.Handle) (sent : FuseSetAttrIn) (n : o.Node)
      (setter : Option o.Handle → SetattrIn → o.World → o.World × Answer (Unit {0}))
      (w w' : o.World)
      → d.is_root ≡ false
      → check_access d who ≡ 0
      → sent.uid ≡ none
      → sent.gid ≡ none
      → has_none (translate sent) ≡ false
      → d.node ≡ some n
      → o.setattrer n ≡ some setter
      → setter (inner_handle f) (translate sent) w ≡ (w', panicked)
      → serve o g d who (setattr f sent) w ≡ (w', panicked)
  unfolding serve Operations.setattr
  serve-setattr-panicked d who f sent n setter w w' e₁ e₂ e₃ e₄ e₅ e₆ e₇ e₈ =
      simp (e₁, e₂, e₃, e₄, e₆) (simp (setattr_node-panicked f sent n setter w w' e₅ e₇ e₈))
