-- ===== src/Drive/LinkCache/Erasures.antt =====
-- What `hydrateFromCache` makes of a file, and which files it erases.
use proton_utils.Base.{
  ℕ, ◌≡◌, refl, ◌∙◌, Bool, true, false, not, ◌&&◌, ◌||◌, Bool-cases, inl, inr, Option, none, some,
  Option-cases, List, [], ◌∷◌, Bytes, Map, lookup, insert, IsNodup, lookup-insert, ◌=?◌, list_eq,
  list_beq_iff, nat_eq, subst, if◌then◌else◌, arith,
}
use proton_utils.Drive.LinkCache.{
  CachedLink, Store, erased, Fetcher, LinkCache, erase_key, is_block, is_file, has_revision,
  has_xattr, sanitize_link_id,
}
use proton_utils.Drive.LinkCache.Hydration.{hydrate_link, hydrate_key, hydrate_keys, insert_all}

-- A file without a revision is of no use; one without extended attributes is to be completed.
abbrev pub is_staged : CachedLink → Bool
is_staged l = not (is_file l) || has_revision l

abbrev pub is_kept : CachedLink → Bool
is_kept l = not (is_file l) || (has_revision l && has_xattr l)

unfoldable pub is_in : Bytes → List Bytes → Bool
is_in j [] = false
is_in j (k ∷ ks) = k =? j || is_in j ks

module _ (st : Store) (fe : Fetcher) where
  abbrev pub C : Type 0
  C = LinkCache st fe

  abbrev pub Acc : Type 0
  Acc = Map Bytes CachedLink × ℕ × C

  -- the link in the file of a key, which is not a block's
  unfoldable pub link_at : Bytes → Option st.Text → Option CachedLink
  link_at key none = none
  link_at key (some text) = if is_block key then none else st.decode text

  -- Whether a file is erased.
  pub is_dropped : Bytes → Option st.Text → Bool
  is_dropped key none = false
  is_dropped key (some text) =
      not (is_block key) && elim (st.decode text) [ none ↦ true | some l ↦ not (is_kept l) ]

  is_dropped-link_at :
      (key : Bytes) (x : Option st.Text) (l : CachedLink)
      → link_at key x ≡ some l
      → is_dropped key x ≡ not (is_kept l)
  unfolding link_at is_dropped
  is_dropped-link_at key none l e = absurd (cc e)
  is_dropped-link_at key (some text) l e = ground arith

  pub link_at-dropped :
      (key : Bytes) (x : Option st.Text) (l : CachedLink)
      → link_at key x ≡ some l
      → link_at key (if is_dropped key x then none else x) ≡ (if is_kept l then some l else none)
  unfolding link_at
  link_at-dropped key x l e = elim (Bool-cases (is_kept l)) [
    | inl k ↦ rw (is_dropped-link_at key x l e) (rw k e)
    | inr k ↦ rw (is_dropped-link_at key x l e) (rw k refl)
  ]

  -- Each link is in the file of its sanitized ID.
  abbrev pub IsFiled : C → Type 0
  IsFiled c =
      (key : Bytes) (l : CachedLink)
      → link_at key (st.read c.disk key) ≡ some l
      → sanitize_link_id l.link_id ≡ key

  pub lookup-insert_all :
      (id : Bytes) (staged m : Map Bytes CachedLink)
      → IsNodup staged
      → lookup id (insert_all st fe staged m)
        ≡ elim (lookup id staged) [ none ↦ lookup id m | some l ↦ some l ]
  unfolding lookup insert_all
  lookup-insert_all id [] m h = refl
  lookup-insert_all id ((j, l) ∷ staged) m h = ground (
    arith,
    lookup-insert_all id staged (insert j l m) h.1,
    lookup-insert j id l m,
    list_beq_iff j id,
  )

  module _ (erases : (s : st.State) (k : Bytes) → (st.erase s k).1 ≡ erased) where
    pub read-hydrate_key :
        (key j : Bytes) (acc : Acc)
        → st.read (hydrate_key st fe key acc).2.disk j ≡ (
            if key =? j && is_dropped key (st.read acc.2.disk key)
            then none
            else st.read acc.2.disk j)
    unfolding hydrate_key hydrate_link erase_key is_dropped
    read-hydrate_key key j (staged, n, c) =
        ground (arith, st.read-erase c.disk key j (erases c.disk key))

    pub staged-hydrate_key :
        (key id : Bytes) (acc : Acc)
        → lookup id (hydrate_key st fe key acc).0 ≡ elim (link_at key (st.read acc.2.disk key)) [
          | none ↦ lookup id acc.0
          | some l ↦ if is_staged l && l.link_id =? id then some l else lookup id acc.0
        ]
    unfolding hydrate_key hydrate_link link_at
    staged-hydrate_key key id (staged, n, c) = elim (Option-cases (st.read c.disk key)) [
      | inl q ↦ rw q (ground arith)
      | inr (text, q) ↦ elim (Option-cases (st.decode text)) [
        | inl d ↦ rw q (rw d (ground arith))
        | inr (l, d) ↦ rw q (rw d (ground (arith, lookup-insert l.link_id id l staged)))
      ]
    ]

    if_dropped :
        (key j : Bytes) (keys : List Bytes) (x y : Option st.Text)
        → (key =? j) ≡ true
        → y ≡ (if key =? j && is_dropped j x then none else x)
        → (if is_in j keys && is_dropped j y then none else y)
          ≡ (if is_in j (key ∷ keys) && is_dropped j x then none else x)
    unfolding is_in is_dropped
    if_dropped key j keys x y e step = elim (Bool-cases (is_dropped j x)) [
      | inl d ↦ let gone : y ≡ none = ground (arith, step, e, d) in rw gone (ground (arith, e, d))
      | inr d ↦ let same : y ≡ x = ground (arith, step, e, d) in rw same (ground (arith, e, d))
    ]

    pub read-hydrate_keys :
        (keys : List Bytes) (j : Bytes) (acc : Acc)
        → st.read (hydrate_keys st fe keys acc).2.disk j ≡ (
            if is_in j keys && is_dropped j (st.read acc.2.disk j)
            then none
            else st.read acc.2.disk j)
    unfolding hydrate_keys is_in is_dropped
    read-hydrate_keys [] j acc = refl
    read-hydrate_keys (key ∷ keys) j acc =
        let next = hydrate_key st fe key acc in
        read-hydrate_keys keys j next ∙ elim (Bool-cases (key =? j)) [
          | inl e ↦
              let step =
                subst
                  (λ k. st.read next.2.disk j ≡ (
                    if key =? j && is_dropped k (st.read acc.2.disk k)
                    then none
                    else st.read acc.2.disk j))
                  ((list_beq_iff key j).0 e) (read-hydrate_key key j acc) in
              if_dropped key j keys (st.read acc.2.disk j) (st.read next.2.disk j) e step
          | inr e ↦ ground (arith, read-hydrate_key key j acc)
        ]

    -- A file is erased or stays as it is.
    pub link_at-hydrate_key :
        (key j : Bytes) (acc : Acc) (l : CachedLink)
        → link_at j (st.read (hydrate_key st fe key acc).2.disk j) ≡ some l
        → link_at j (st.read acc.2.disk j) ≡ some l
    unfolding link_at
    link_at-hydrate_key key j acc l e = ground (arith, read-hydrate_key key j acc)
