-- ===== src/Fuse/Directories/Registry.antt =====
-- The registry of live directories: bounded, and true to the nodes it names.
use proton_utils.Base.{
  ℕ, ◌+◌, ◌≤◌, ◌<◌, ◌==◌, ==_iff, leb, ◌≡◌, ◌≢◌, refl, ◌∙◌, Bool, not, ◌&&◌, Bool-cases, inl, inr,
  Option, none, some, Option-cases, [], ◌∷◌, Bytes, Map, lookup, insert, delete, size, has, ◌=?◌,
  list_eq, list_beq_iff, nat_eq, IsNodup, insert-IsNodup, delete-IsNodup, size-insert, size-delete,
  lookup-insert, lookup-delete, if◌then◌else◌, arith,
}
use proton_utils.Fuse.Directories.{
  Link, DirNode, Mount, max_dir_nodes, Iteration, with_children, room_for, register_dir,
  new_dir_node, set_children, unregister_dir, forget, on_invalidate_parent, invalidate_nodes,
}

pub lookup-with_children :
    (n j : ℕ) (children : Option (Map Bytes Link)) (nodes : Map ℕ DirNode) (d : DirNode)
    → lookup j nodes ≡ some d
    → lookup j (with_children n children nodes)
      ≡ some (if n == j then record d { children = children } else d)
unfolding with_children
lookup-with_children n j children nodes d h = elim (Option-cases (lookup n nodes)) [
  | inl e ↦ ground (arith, ==_iff n j)
  | inr (x, e) ↦
      ground (arith, ==_iff n j, lookup-insert n j (record x { children = children }) nodes)
]

with_children-none :
    (n j : ℕ) (children : Option (Map Bytes Link)) (nodes : Map ℕ DirNode)
    → lookup j nodes ≡ none
    → lookup j (with_children n children nodes) ≡ none
unfolding with_children
with_children-none n j children nodes h = elim (Option-cases (lookup n nodes)) [
  | inl e ↦ rw (e, with_children) h
  | inr (x, e) ↦
      ground (arith, ==_iff n j, lookup-insert n j (record x { children = children }) nodes)
]

module _ (it : Iteration) where
  nonempty : (registry : Map Bytes ℕ) → 0 < size registry → registry ≢ []
  unfolding size
  nonempty [] h e = absurd (omega arith)
  nonempty (x ∷ registry) h e = cc

  size-insert-room_for :
      (id : Bytes) (registry : Map Bytes ℕ) (n : ℕ)
      → size registry ≤ max_dir_nodes
      → IsNodup registry
      → size (insert id n (room_for it id registry)) ≤ max_dir_nodes
  unfolding room_for
  size-insert-room_for id registry n h k =
      let gone = it.first registry in
      ground (
        arith,
        size-insert id n registry,
        size-insert id n (delete gone registry),
        size-delete gone registry k,
        it.first-has registry,
        nonempty registry,
      )

  room_for-IsNodup :
      (id : Bytes) (registry : Map Bytes ℕ) → IsNodup registry → IsNodup (room_for it id registry)
  unfolding room_for
  room_for-IsNodup id registry h =
      elim (Bool-cases (not (has id registry) && leb max_dir_nodes (size registry))) [
        | inl e ↦ rw (e, room_for) (delete-IsNodup (it.first registry) registry h)
        | inr e ↦ rw (e, room_for) h
      ]

  -- An entry that is kept was there before.
  lookup-room_for :
      (id j : Bytes) (registry : Map Bytes ℕ) (n : ℕ)
      → lookup j (room_for it id registry) ≡ some n
      → lookup j registry ≡ some n
  unfolding room_for
  lookup-room_for id j registry n h = ground (arith, lookup-delete (it.first registry) j registry)

module _ {S : Type 0} where
  -- The registry is within its bound, and has each node under its link's ID; addresses are used once.
  pub record IsLive (m : Mount S) : Type 0 where
    pub bounded : size m.registry ≤ max_dir_nodes
    pub single : IsNodup m.registry
    pub named :
        (id : Bytes) (n : ℕ)
        → lookup id m.registry ≡ some n
        → (d : DirNode) × (lookup n m.nodes ≡ some d) × (d.link.link_id ≡ id)
    pub fresh : (n : ℕ) → m.next ≤ n → lookup n m.nodes ≡ none

  -- Only the client has moved on.
  pub with_client-IsLive : (m : Mount S) (s : S) → IsLive m → IsLive (record m { client = s })
  with_client-IsLive m s h = record {
    bounded = h.bounded;
    single = h.single;
    named = h.named;
    fresh = h.fresh;
  }

  pub set_children-IsLive :
      (n : ℕ) (children : Option (Map Bytes Link)) (m : Mount S)
      → IsLive m
      → IsLive (set_children n children m)
  unfolding set_children
  set_children-IsLive n children m h = record {
    bounded = h.bounded;
    single = h.single;
    named = λ id j e.
        let (d, there, same) = h.named id j e in
        (
          if n == j then record d { children = children } else d,
          lookup-with_children n j children m.nodes d there,
          ground arith,
        );
    fresh = λ j le. with_children-none n j children m.nodes (h.fresh j le);
  }

  unregister_dir-IsLive : (id : Bytes) (m : Mount S) → IsLive m → IsLive (unregister_dir id m)
  unfolding unregister_dir
  unregister_dir-IsLive id m h = record {
    bounded = ground (arith, size-delete id m.registry h.single, h.bounded);
    single = delete-IsNodup id m.registry h.single;
    named = λ j n e. h.named j n (ground (arith, lookup-delete id j m.registry));
    fresh = h.fresh;
  }

  pub forget-IsLive : (n : ℕ) (m : Mount S) → IsLive m → IsLive (forget n m)
  unfolding forget
  forget-IsLive n m h = elim (Option-cases (lookup n m.nodes)) [
    | inl e ↦ rw (e, forget) h
    | inr (d, e) ↦ rw (e, forget) (unregister_dir-IsLive d.link.link_id m h)
  ]

  pub on_invalidate_parent-IsLive :
      (id : Bytes) (m : Mount S) → IsLive m → IsLive (on_invalidate_parent id m)
  unfolding on_invalidate_parent
  on_invalidate_parent-IsLive id m h = elim (Option-cases (lookup id m.registry)) [
    | inl e ↦ rw (e, on_invalidate_parent) h
    | inr (n, e) ↦ rw (e, on_invalidate_parent) (set_children-IsLive n none m h)
  ]

  pub invalidate_nodes-IsLive :
      (registry : Map Bytes ℕ) (m : Mount S) → IsLive m → IsLive (invalidate_nodes registry m)
  unfolding invalidate_nodes
  invalidate_nodes-IsLive [] m h = h
  invalidate_nodes-IsLive ((_, n) ∷ registry) m h =
      invalidate_nodes-IsLive registry (set_children n none m) (set_children-IsLive n none m h)

  module _ (it : Iteration) where
    register_dir-named :
        (id j : Bytes) (n k : ℕ) (m : Mount S) (d : DirNode)
        → lookup n m.nodes ≡ some d
        → d.link.link_id ≡ id
        → IsLive m
        → lookup j (insert id n (room_for it id m.registry)) ≡ some k
        → (d' : DirNode) × (lookup k m.nodes ≡ some d') × (d'.link.link_id ≡ j)
    register_dir-named id j n k m d there same h e =
        let put = lookup-insert id j n (room_for it id m.registry) in
        elim (Bool-cases (id =? j)) [
          | inl q ↦ (d, ground arith, same ∙ (list_beq_iff id j).0 q)
          | inr q ↦ h.named j k (lookup-room_for it id j m.registry k (ground arith))
        ]

    register_dir-IsLive :
        (id : Bytes) (n : ℕ) (m : Mount S) (d : DirNode)
        → lookup n m.nodes ≡ some d
        → d.link.link_id ≡ id
        → IsLive m
        → IsLive (register_dir it id n m)
    unfolding register_dir
    register_dir-IsLive id n m d there same h = record {
      bounded = size-insert-room_for it id m.registry n h.bounded h.single;
      single =
          insert-IsNodup id n (room_for it id m.registry)
            (room_for-IsNodup it id m.registry h.single);
      named = λ j k e. register_dir-named id j n k m d there same h e;
      fresh = h.fresh;
    }

    -- A node at a fresh address.
    added-IsLive :
        (d : DirNode) (m : Mount S)
        → IsLive m
        → IsLive (record m { nodes = insert m.next d m.nodes; next = m.next + 1 })
    added-IsLive d m h = record {
      bounded = h.bounded;
      single = h.single;
      named = λ id n e.
          let (x, there, same) = h.named id n e in
          (x, ground (arith, lookup-insert m.next n d m.nodes, h.fresh n, ==_iff m.next n), same);
      fresh = λ n le.
          ground
            (arith, lookup-insert m.next n d m.nodes, h.fresh n (omega arith), ==_iff m.next n);
    }

    pub new_dir_node-IsLive :
        (is_share : Bool) (l : Link) (m : Mount S)
        → IsLive m
        → IsLive (new_dir_node it is_share l m).0
    unfolding new_dir_node
    new_dir_node-IsLive is_share l m h =
        let d : DirNode = record { link = l; is_share = is_share; children = none } in
        register_dir-IsLive l.link_id m.next
          (record m { nodes = insert m.next d m.nodes; next = m.next + 1 }) d
          (ground (arith, lookup-insert m.next m.next d m.nodes, ==_iff m.next m.next)) refl
          (added-IsLive d m h)
