-- ===== src/Fuse/Directories/Steps.antt =====
-- What a mount goes through, and what every mount that is reached keeps of the registry.
use proton_utils.Base.{
  ℕ, refl, Bool, true, false, inl, inr, Option, none, some, [], Bytes, lookup, size, list_eq,
  nat_eq, Result, ok, err, Result-cases, Option-cases, if◌then◌else◌, arith,
}
use proton_utils.Fuse.Directories.{
  Link, ClientError, Client, DirNode, Mount, Iteration, new_dir_node, forget, on_invalidate_parent,
  invalidate_all, new_mount,
}
use proton_utils.Fuse.Directories.Nodes
use proton_utils.Fuse.Directories.Registry.{
  IsLive, with_client-IsLive, set_children-IsLive, new_dir_node-IsLive, forget-IsLive,
  on_invalidate_parent-IsLive, invalidate_nodes-IsLive,
}

by_cases {ℓ} :
    {A : Type 0} (P : A → Type ℓ) (b : Bool) {x y : A} → P x → P y → P (if b then x else y)
by_cases P true h k = h
by_cases P false h k = k

module _ (c : Client) (it : Iteration) where
  -- One request or event, at a node `d` that is at the address `n`.
  pub data Step (m : Mount c.State) : Mount c.State → Type 0 where
    opens_share : (l : Link) → Step m (new_dir_node it true l m).0
    readdir : (n : ℕ) (d : DirNode) → Step m (Nodes.readdir c it n d m).0
    lookup_child : (d : DirNode) (name : Bytes) → Step m (Nodes.lookup_child c it d name m).0
    create : (n : ℕ) (d : DirNode) (name : Bytes) → Step m (Nodes.create c it n d name m).0
    symlink :
        (n : ℕ) (d : DirNode) (aim name : Bytes) → Step m (Nodes.symlink c it n d aim name m).0
    mkdir : (n : ℕ) (d : DirNode) (name : Bytes) → Step m (Nodes.mkdir c it n d name m).0
    unlink : (n : ℕ) (d : DirNode) (name : Bytes) → Step m (Nodes.unlink c it n d name m).0
    rmdir : (n : ℕ) (d : DirNode) (name : Bytes) → Step m (Nodes.rmdir c it n d name m).0
    rename :
        (n : ℕ) (d : DirNode) (name : Bytes) (p : Nodes.Parent c it) (new_name : Bytes)
        → Step m (Nodes.rename c it n d name p new_name m).0
    forget_node : (n : ℕ) → Step m (forget n m)
    invalidates : (id : Bytes) → Step m (on_invalidate_parent id m)
    resyncs : Step m (invalidate_all m)

  settle-IsLive :
      {A : Type 0} (n : ℕ) (errno : ClientError → ℕ) (m : Mount c.State)
      (r : c.State × Result ClientError A)
      → IsLive m
      → IsLive (Nodes.settle c it n errno m r).0
  unfolding Nodes.settle
  settle-IsLive n errno m (s, err e) h = with_client-IsLive m s h
  settle-IsLive n errno m (s, ok a) h =
      set_children-IsLive n none (record m { client = s }) (with_client-IsLive m s h)

  link_node-IsLive : (l : Link) (m : Mount c.State) → IsLive m → IsLive (Nodes.link_node it l m).0
  unfolding Nodes.link_node
  link_node-IsLive l m h =
      by_cases (λ (r : Mount c.State × Nodes.Handed). IsLive r.0) l.is_folder
        (new_dir_node-IsLive it false l m h) h

  -- what `Lookup` makes of the client's answer
  looked_up-IsLive :
      (m : Mount c.State) (s : c.State) (r : Result ClientError (Option Link))
      → IsLive (record m { client = s })
      → IsLive (Nodes.looked_up c it m (s, r)).0
  unfolding Nodes.looked_up
  looked_up-IsLive m s (err e) h = h
  looked_up-IsLive m s (ok none) h = h
  looked_up-IsLive m s (ok (some l)) h = link_node-IsLive l (record m { client = s }) h

  resolved-IsLive :
      (m : Mount c.State) (r : c.State × Result ClientError (Option Link))
      → IsLive m
      → IsLive (Nodes.resolved c it m r).0
  unfolding Nodes.resolved
  resolved-IsLive m (s, err e) h = with_client-IsLive m s h
  resolved-IsLive m (s, ok none) h = with_client-IsLive m s h
  resolved-IsLive m (s, ok (some l)) h = with_client-IsLive m s h

  readdir-IsLive :
      (n : ℕ) (d : DirNode) (m : Mount c.State) → IsLive m → IsLive (Nodes.readdir c it n d m).0
  unfolding Nodes.readdir
  readdir-IsLive n d m h =
      let (s, stream) = c.readdir m.client d.link in
      let h' = with_client-IsLive m s h in
      elim (Result-cases (Nodes.collect stream [] [])) [
        | inl (r, e) ↦ rw (e, Nodes.readdir) (set_children-IsLive n (some r.1) _ h')
        | inr (x, e) ↦ rw (e, Nodes.readdir) h'
      ]

  lookup_child-IsLive :
      (d : DirNode) (name : Bytes) (m : Mount c.State)
      → IsLive m
      → IsLive (Nodes.lookup_child c it d name m).0
  unfolding Nodes.lookup_child
  lookup_child-IsLive d name m h =
      let (s, r) = c.lookup m.client d.link name in
      let h' = with_client-IsLive m s h in
      elim (Option-cases (Nodes.child_by_name d name)) [
        | inr (l, e) ↦ rw (e, Nodes.lookup_child) (link_node-IsLive l m h)
        | inl e ↦ rw (e, Nodes.lookup_child) (looked_up-IsLive m s r h')
      ]

  resolve_child-IsLive :
      (d : DirNode) (name : Bytes) (m : Mount c.State)
      → IsLive m
      → IsLive (Nodes.resolve_child c it d name m).0
  unfolding Nodes.resolve_child
  resolve_child-IsLive d name m h = elim (Option-cases (Nodes.child_by_name d name)) [
    | inr (l, e) ↦ rw (e, Nodes.resolve_child) h
    | inl e ↦ rw (e, Nodes.resolve_child) (resolved-IsLive m (c.lookup m.client d.link name) h)
  ]

  with_child-IsLive :
      {A : Type 0} (r : Mount c.State × Result ℕ Link)
      (next : Link → Mount c.State → Mount c.State × Result ℕ A)
      → ((l : Link) (m : Mount c.State) → IsLive m → IsLive (next l m).0)
      → IsLive r.0
      → IsLive (Nodes.with_child c it r next).0
  unfolding Nodes.with_child
  with_child-IsLive (m, err e) next keeps h = h
  with_child-IsLive (m, ok l) next keeps h = keeps l m h

  made_folder-IsLive :
      (r : Mount c.State × Result ℕ Link) → IsLive r.0 → IsLive (Nodes.made_folder c it r).0
  unfolding Nodes.made_folder
  made_folder-IsLive (m, err e) h = h
  made_folder-IsLive (m, ok l) h = new_dir_node-IsLive it false l m h

  renamed-IsLive :
      (p : Nodes.Parent c it) (r : Mount c.State × Result ℕ (Unit {0}))
      → IsLive r.0
      → IsLive (Nodes.renamed c it p r).0
  unfolding Nodes.renamed Nodes.invalidate_parent
  renamed-IsLive p (m, err e) h = h
  renamed-IsLive (Nodes.directory n d) (m, ok u) h = set_children-IsLive n none m h
  renamed-IsLive Nodes.unknown (m, ok u) h = h

  Step-IsLive : {m m' : Mount c.State} → Step m m' → IsLive m → IsLive m'
  unfolding Nodes.create Nodes.symlink Nodes.mkdir Nodes.unlink Nodes.rmdir Nodes.rename
      Nodes.remove_child Nodes.rename_child invalidate_all
  Step-IsLive {m} (opens_share l) h = new_dir_node-IsLive it true l m h
  Step-IsLive {m} (readdir n d) h = readdir-IsLive n d m h
  Step-IsLive {m} (lookup_child d name) h = lookup_child-IsLive d name m h
  Step-IsLive {m} (create n d name) h = settle-IsLive n _ m _ h
  Step-IsLive {m} (symlink n d aim name) h = settle-IsLive n _ m _ h
  Step-IsLive {m} (mkdir n d name) h = made_folder-IsLive _ (settle-IsLive n _ m _ h)
  Step-IsLive {m} (unlink n d name) h =
      with_child-IsLive _ _
        (λ l m' k.
          by_cases (λ (r : Mount c.State × Result ℕ (Unit {0})). IsLive r.0) l.is_folder k
            (settle-IsLive n _ m' _ k))
        (resolve_child-IsLive d name m h)
  Step-IsLive {m} (rmdir n d name) h =
      with_child-IsLive _ _
        (λ l m' k.
          by_cases (λ (r : Mount c.State × Result ℕ (Unit {0})). IsLive r.0) l.is_folder
            (settle-IsLive n _ m' _ k) k)
        (resolve_child-IsLive d name m h)
  Step-IsLive {m} (rename n d name p new_name) h =
      with_child-IsLive _ _
        (λ l m' k.
          by_cases (λ (r : Mount c.State × Result ℕ (Unit {0})). IsLive r.0) _
            (renamed-IsLive p _ (settle-IsLive n _ m' _ k)) k)
        (resolve_child-IsLive d name m h)
  Step-IsLive {m} (forget_node n) h = forget-IsLive n m h
  Step-IsLive {m} (invalidates id) h = on_invalidate_parent-IsLive id m h
  Step-IsLive {m} resyncs h = invalidate_nodes-IsLive m.registry m h

  pub data Reaches (m : Mount c.State) : Mount c.State → Type 0 where
    starts : Reaches m m
    then_step : {m' m'' : Mount c.State} → Reaches m m' → Step m' m'' → Reaches m m''

  Reaches-IsLive : {m m' : Mount c.State} → Reaches m m' → IsLive m → IsLive m'
  Reaches-IsLive starts h = h
  Reaches-IsLive (then_step r s) h = Step-IsLive s (Reaches-IsLive r h)

  new-IsLive : (s : c.State) → IsLive (new_mount s)
  unfolding new_mount size lookup
  new-IsLive s = record {
    bounded = omega arith;
    single = tt;
    named = λ id n e. absurd (cc e);
    fresh = λ n le. refl;
  }

  -- After any requests and events on a new mount, the registry of live directories has at most
  -- `maxDirNodes` entries, none twice, and each names a node for a link of that very ID.
  pub registry_stays-IsLive : (s : c.State) {m : Mount c.State} → Reaches (new_mount s) m → IsLive m
  registry_stays-IsLive s r = Reaches-IsLive r (new-IsLive s)
