-- ===== src/Fuse/Directories/Overtaken.antt =====
-- Events and the registry: what an invalidation reaches, and a node that a newer one of the same
-- link has overtaken.
use proton_utils.Base.{
  ◌⊎◌, ℕ, ◌==◌, ==_iff, ◌≡◌, refl, ◌∙◌, Bool, false, Bool-cases, inl, inr, none, some, [], ◌∷◌,
  Bytes, Map, lookup, delete, list_eq, list_beq_iff, nat_eq, lookup-insert, lookup-delete,
  if◌then◌else◌, arith,
}
use proton_utils.Fuse.Directories.{
  Link, DirNode, Mount, Iteration, set_children, register_dir, room_for, new_dir_node, forget,
  unregister_dir, on_invalidate_parent, invalidate_nodes, invalidate_all,
}
use proton_utils.Fuse.Directories.Registry.{IsLive, lookup-with_children}

module _ {S : Type 0} where
  -- A change event for a directory that is registered drops the children that its node keeps, and
  -- those of no other node.
  pub lookup-on_invalidate_parent :
      (id : Bytes) (n j : ℕ) (d : DirNode) (m : Mount S)
      → lookup id m.registry ≡ some n
      → lookup j m.nodes ≡ some d
      → lookup j (on_invalidate_parent id m).nodes
        ≡ some (if n == j then record d { children = none } else d)
  unfolding on_invalidate_parent set_children
  lookup-on_invalidate_parent id n j d m e there =
      rw (e, on_invalidate_parent) (lookup-with_children n j none m.nodes d there)

  lookup-invalidate_nodes :
      (registry : Map Bytes ℕ) (m : Mount S) (id : Bytes) (n : ℕ) (d : DirNode)
      → (lookup id registry ≡ some n) ⊎ (d.children ≡ none)
      → lookup n m.nodes ≡ some d
      → lookup n (invalidate_nodes registry m).nodes ≡ some (record d { children = none })
  unfolding invalidate_nodes lookup set_children
  lookup-invalidate_nodes [] m id n d (inl e) there = absurd (cc e)
  lookup-invalidate_nodes [] m id n d (inr e) there = ground arith
  lookup-invalidate_nodes ((k, x) ∷ registry) m id n d h there =
      let dropped = lookup-with_children x n none m.nodes d there in
      elim (Bool-cases (x == n)) [
        | inl e ↦
            lookup-invalidate_nodes registry (set_children x none m) id n
              (record d { children = none }) (inr refl) (ground arith)
        | inr e ↦
            lookup-invalidate_nodes registry (set_children x none m) id n d
              (ground (arith, ==_iff x n)) (ground arith)
      ]

  -- A full resync drops the children of every registered node.
  pub lookup-invalidate_all :
      (id : Bytes) (n : ℕ) (d : DirNode) (m : Mount S)
      → lookup id m.registry ≡ some n
      → lookup n m.nodes ≡ some d
      → lookup n (invalidate_all m).nodes ≡ some (record d { children = none })
  unfolding invalidate_all
  lookup-invalidate_all id n d m e there = lookup-invalidate_nodes m.registry m id n d (inl e) there

  unregistered :
      (n : ℕ) (d : DirNode) (id : Bytes) (m : Mount S)
      → lookup n m.nodes ≡ some d
      → d.link.link_id ≡ id
      → on_invalidate_parent id (forget n m) ≡ forget n m
  unfolding forget unregister_dir on_invalidate_parent
  unregistered n d id m there same =
      let gone : lookup id (delete d.link.link_id m.registry) ≡ none =
        lookup-delete d.link.link_id id m.registry
        ∙ ground (arith, list_beq_iff d.link.link_id id) in
      rw (there, forget) (rw (gone, on_invalidate_parent) refl)

  module _ (it : Iteration) where
    registered-new_dir_node :
        (l : Link) (is_share : Bool) (m : Mount S)
        → lookup l.link_id (new_dir_node it is_share l m).0.registry ≡ some m.next
    unfolding new_dir_node register_dir
    registered-new_dir_node l is_share m = ground (
      arith,
      lookup-insert l.link_id l.link_id m.next (room_for it l.link_id m.registry),
      list_beq_iff l.link_id l.link_id,
    )

    lookup-new_dir_node :
        (l : Link) (n : ℕ) (d : DirNode) (is_share : Bool) (m : Mount S)
        → IsLive m
        → lookup n m.nodes ≡ some d
        → (lookup n (new_dir_node it is_share l m).0.nodes ≡ some d) × ((m.next == n) ≡ false)
    unfolding new_dir_node register_dir
    lookup-new_dir_node l n d is_share m live there =
        let made : DirNode = record { link = l; is_share = is_share; children = none } in
        let apart : (m.next == n) ≡ false = ground (arith, live.fresh n) in
        (ground (arith, lookup-insert m.next n made m.nodes), apart)

    -- A new node for a link, as every `Lookup` of a folder makes one, takes the registration of the
    -- node there was before: a change event for the folder that comes then leaves the first node with
    -- the children that it keeps.
    pub overtaken-on_invalidate_parent :
        (l : Link) (n : ℕ) (d : DirNode) (is_share : Bool) (m : Mount S)
        → IsLive m
        → lookup n m.nodes ≡ some d
        → lookup n (on_invalidate_parent l.link_id (new_dir_node it is_share l m).0).nodes ≡ some d
    overtaken-on_invalidate_parent l n d is_share m live there =
        let m' = (new_dir_node it is_share l m).0 in
        let (kept, apart) = lookup-new_dir_node l n d is_share m live there in
        lookup-on_invalidate_parent l.link_id m.next n d m' (registered-new_dir_node l is_share m)
          kept
        ∙ rw apart refl

    -- And when the first node is forgotten, the second one loses its registration: no event for the
    -- folder reaches it any more.
    pub on_invalidate_parent-forget :
        (l : Link) (n : ℕ) (d : DirNode) (is_share : Bool) (m : Mount S)
        → IsLive m
        → lookup n m.nodes ≡ some d
        → d.link.link_id ≡ l.link_id
        → let m' = forget n (new_dir_node it is_share l m).0 in
          on_invalidate_parent l.link_id m' ≡ m'
    on_invalidate_parent-forget l n d is_share m live there same =
        let (kept, _) = lookup-new_dir_node l n d is_share m live there in
        unregistered n d l.link_id (new_dir_node it is_share l m).0 kept same
