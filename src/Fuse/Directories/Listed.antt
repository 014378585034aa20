-- ===== src/Fuse/Directories/Listed.antt =====
-- The children that a directory keeps from a listing, and when it drops them.
use proton_utils.Base.{
  ◌≢◌, codes, list_beq_iff, ℕ, ◌≡◌, refl, sym, ap, ◌∙◌, false, Bool-cases, inl, inr, Option, none,
  some, subst, List, [], ◌∷◌, ◌++◌, Bytes, Map, lookup, insert, ◌=?◌, list_eq, nat_eq,
  lookup-insert, All, All-append, Result, ok, Result-cases, if◌then◌else◌, arith,
}
use proton_utils.Fuse.Directories.{
  Link, StreamItem, broken, item, Client, DirNode, Mount, Iteration, set_children, with_children,
}
use proton_utils.Fuse.Directories.Nodes
use proton_utils.Fuse.Directories.Nodes.{Entry, collect, is_hidden, child_by_name}
use proton_utils.Fuse.Directories.Registry.{lookup-with_children}

-- the link of the last entry under a name
unfoldable pub last_named : Bytes → List Entry → Option Link
last_named name [] = none
last_named name (e ∷ es) = elim (last_named name es) [
  | some l ↦ some l
  | none ↦ if e.name =? name then some e.link else none
]

last_named-append :
    (name : Bytes) (es : List Entry) (e : Entry)
    → last_named name (es ++ e ∷ []) ≡ (if e.name =? name then some e.link else last_named name es)
unfolding last_named
last_named-append name [] e = ground arith
last_named-append name (x ∷ es) e = ground (arith, last_named-append name es e)

-- neither a dot nor trashed nor a draft
pub record IsShown (e : Entry) : Type 0 where
  pub no_dot : e.name ≢ codes "."
  pub no_dots : e.name ≢ codes ".."
  pub kept : e.link.is_trashed ≡ false
  pub final : e.link.is_draft ≡ false

is_hidden-IsShown :
    (name : Bytes) (l : Link) (mode : ℕ)
    → is_hidden name l ≡ false
    → IsShown (record { name = name; mode = mode; link = l })
unfolding is_hidden
is_hidden-IsShown name l mode h = record {
  no_dot = λ e. ground (arith, list_beq_iff name (codes "."));
  no_dots = λ e. ground (arith, list_beq_iff name (codes ".."));
  kept = ground arith;
  final = ground arith;
}

-- The map holds the entries, the last of each name, and no entry is hidden.
lookup-collect :
    (stream : List StreamItem) (es fs : List Entry) (children kept : Map Bytes Link)
    → collect stream es children ≡ ok (fs, kept)
    → ((name : Bytes) → lookup name children ≡ last_named name es)
    → All IsShown es
    → ((name : Bytes) → lookup name kept ≡ last_named name fs) × All IsShown fs
unfolding collect
lookup-collect [] es fs children kept e h k =
    ((λ name. ground (arith, h name)), subst (All IsShown) (cc) k)
lookup-collect (broken x ∷ stream) es fs children kept e h k = absurd (cc e)
lookup-collect (item l none ∷ stream) es fs children kept e h k =
    lookup-collect stream es fs children kept e h k
lookup-collect (item l (some name) ∷ stream) es fs children kept e h k =
    elim (Bool-cases (is_hidden name l)) [
      | inl hid ↦ lookup-collect stream es fs children kept (rw (hid, collect) at e) h k
      | inr shown ↦
          let added : Entry = record { name = name; mode = Nodes.link_mode l; link = l } in
          lookup-collect stream (es ++ added ∷ []) fs (insert name l children) kept
            (rw (shown, collect) at e)
            (λ j.
              lookup-insert name j l children
              ∙ (ap (λ o. if name =? j then some l else o) (h j)
                  ∙ sym (last_named-append j es added)))
            (All-append IsShown es (added ∷ []) k
              (is_hidden-IsShown name l (Nodes.link_mode l) shown, tt))
    ]

collected :
    (stream : List StreamItem) (es : List Entry) (kept : Map Bytes Link)
    → collect stream [] [] ≡ ok (es, kept)
    → ((name : Bytes) → lookup name kept ≡ last_named name es) × All IsShown es
unfolding last_named lookup
collected stream es kept e = lookup-collect stream [] es [] kept e (λ name. refl) tt

module _ (c : Client) (it : Iteration) where
  readdir-eq-ok :
      (n : ℕ) (d : DirNode) (m m' : Mount c.State) (es : List Entry)
      → Nodes.readdir c it n d m ≡ (m', ok es)
      → (kept : Map Bytes Link) × (collect (c.readdir m.client d.link).1 [] [] ≡ ok (es, kept))
        × (m'.nodes ≡ with_children n (some kept) m.nodes)
  unfolding Nodes.readdir set_children
  readdir-eq-ok n d m m' es e = elim (Result-cases (collect (c.readdir m.client d.link).1 [] [])) [
    | inr (x, q) ↦ absurd (cc (rw (q, Nodes.readdir) at e))
    | inl ((fs, kept), q) ↦
        let done = rw (q, Nodes.readdir) at e in
        (kept, cc, sym (ap (λ (r : Mount c.State × Result ℕ (List Entry)). r.0.nodes) done))
  ]

  -- After a `Readdir` that succeeds, the node finds a name that was listed, and gives the link of the
  -- last entry under it, without a call of the server; nothing that is listed is a dot, trashed or a
  -- draft.
  pub readdir-lookup_child :
      (n : ℕ) (d : DirNode) (m : Mount c.State) {m' : Mount c.State} {es : List Entry}
      (name : Bytes) (l : Link)
      → lookup n m.nodes ≡ some d
      → Nodes.readdir c it n d m ≡ (m', ok es)
      → last_named name es ≡ some l
      → All IsShown es
        × ((d' : DirNode) × (lookup n m'.nodes ≡ some d')
            × (Nodes.lookup_child c it d' name m'
                ≡ ((Nodes.link_node it l m').0, ok (Nodes.link_node it l m').1)))
  unfolding Nodes.lookup_child child_by_name
  readdir-lookup_child n d m {m'} {es} name l there e listed =
      let (kept, q, nodes) = readdir-eq-ok n d m m' es e in
      let (found, shown) = collected _ es kept q in
      let put = lookup-with_children n n (some kept) m.nodes d there in
      (
        shown,
        (
          record d { children = some kept },
          ap (lookup n) nodes ∙ ground (arith, put),
          rw (found name ∙ listed, Nodes.lookup_child, child_by_name) refl,
        ),
      )
