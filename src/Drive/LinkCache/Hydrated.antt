-- ===== src/Drive/LinkCache/Hydrated.antt =====
-- What `hydrateFromCache` stages and what it leaves on disk.
use proton_utils.Base.{
  ◌≡◌, refl, sym, ap, ◌∙◌, true, Bool-cases, inl, inr, none, some, Option-cases, List, [], ◌∷◌,
  Bytes, lookup, delete, IsNodup, insert-IsNodup, ◌=?◌, list_eq, list_beq_iff, nat_eq, subst, ok,
  if◌then◌else◌, arith,
}
use proton_utils.Drive.LinkCache.{
  CachedLink, Store, erased, Fetcher, LinkCache, sanitize_link_id, is_complete,
  try_object_cache_hit, get_cached_link, after_hit,
}
use proton_utils.Drive.LinkCache.Hydration.{
  hydrate_link, hydrate_key, hydrate_keys, hydrate_from_cache,
}
use proton_utils.Drive.LinkCache.Erasures.{
  is_staged, is_kept, is_in, link_at, link_at-dropped, lookup-insert_all, IsFiled, Acc,
  read-hydrate_key, staged-hydrate_key, read-hydrate_keys, link_at-hydrate_key,
}

module _ (st : Store) (fe : Fetcher) where
  module _ (erases : (s : st.State) (k : Bytes) → (st.erase s k).1 ≡ erased) where
    IsFiled-hydrate_key :
        (key : Bytes) (acc : Acc st fe)
        → IsFiled st fe acc.2
        → IsFiled st fe (hydrate_key st fe key acc).2
    IsFiled-hydrate_key key acc filed j l e =
        filed j l (link_at-hydrate_key st fe erases key j acc l e)

    -- What the file of a staged link's ID can still hold.
    abbrev IsSettled : CachedLink → Acc st fe → Type 0
    IsSettled l acc =
        (lookup l.link_id acc.0 ≡ some l)
        × ((x : CachedLink)
            → link_at st fe (sanitize_link_id l.link_id)
                (st.read acc.2.disk (sanitize_link_id l.link_id))
              ≡ some x
            → x ≡ l)

    lookup-step :
        (key : Bytes) (l : CachedLink) (acc : Acc st fe)
        → IsFiled st fe acc.2
        → IsSettled l acc
        → lookup l.link_id (hydrate_key st fe key acc).0 ≡ some l
    lookup-step key l acc filed (there, only) =
        staged-hydrate_key st fe erases key l.link_id acc
        ∙ (elim (Option-cases (link_at st fe key (st.read acc.2.disk key))) [
          | inl q ↦ rw q there
          | inr (x, q) ↦ elim (Bool-cases (x.link_id =? l.link_id)) [
            | inl e ↦
                let key_is : sanitize_link_id l.link_id ≡ key =
                  ap sanitize_link_id (sym ((list_beq_iff x.link_id l.link_id).0 e))
                  ∙ filed key x q in
                let same : x ≡ l =
                  only x
                    (subst (λ k. link_at st fe k (st.read acc.2.disk k) ≡ some x) (sym key_is) q) in
                rw q (ground (arith, same, there))
            | inr e ↦ rw q (rw e (ground (arith, there)))
          ]
        ])

    stays :
        (keys : List Bytes) (l : CachedLink) (acc : Acc st fe)
        → IsFiled st fe acc.2
        → IsSettled l acc
        → lookup l.link_id (hydrate_keys st fe keys acc).0 ≡ some l
    unfolding hydrate_keys
    stays [] l acc filed (there, only) = there
    stays (key ∷ keys) l acc filed settled =
        stays keys l (hydrate_key st fe key acc) (IsFiled-hydrate_key key acc filed) (
          lookup-step key l acc filed settled,
          λ x e.
              settled.1 x
                (link_at-hydrate_key st fe erases key (sanitize_link_id l.link_id) acc x e),
        )

    found :
        (keys : List Bytes) (l : CachedLink) (acc : Acc st fe)
        → IsFiled st fe acc.2
        → is_in (sanitize_link_id l.link_id) keys ≡ true
        → link_at st fe
            (sanitize_link_id l.link_id)
            (st.read acc.2.disk (sanitize_link_id l.link_id))
          ≡ some l
        → is_staged l ≡ true
        → lookup l.link_id (hydrate_keys st fe keys acc).0 ≡ some l
    unfolding hydrate_keys is_in
    found [] l acc filed h q k = absurd (cc h)
    found (key ∷ keys) l acc filed h q k = elim (Bool-cases (key =? sanitize_link_id l.link_id)) [
      | inl e ↦
          let here =
            subst (λ j. link_at st fe j (st.read acc.2.disk j) ≡ some l)
              (sym ((list_beq_iff key (sanitize_link_id l.link_id)).0 e)) q in
          stays keys l (hydrate_key st fe key acc) (IsFiled-hydrate_key key acc filed) (
            staged-hydrate_key st fe erases key l.link_id acc
                ∙ rw here (ground (arith, k, list_beq_iff l.link_id l.link_id)),
            λ x r.
                cc (link_at-hydrate_key st fe erases key (sanitize_link_id l.link_id) acc x r, q),
          )
      | inr e ↦
          let unread : st.read (hydrate_key st fe key acc).2.disk (sanitize_link_id l.link_id)
              ≡ st.read acc.2.disk (sanitize_link_id l.link_id) =
            ground (arith, e, read-hydrate_key st fe erases key (sanitize_link_id l.link_id) acc) in
          found keys l (hydrate_key st fe key acc) (IsFiled-hydrate_key key acc filed)
            (ground (arith, h, e)) (ap (link_at st fe (sanitize_link_id l.link_id)) unread ∙ q) k
    ]

    hydrate_key-IsNodup :
        (key : Bytes) (acc : Acc st fe) → IsNodup acc.0 → IsNodup (hydrate_key st fe key acc).0
    unfolding hydrate_key hydrate_link
    hydrate_key-IsNodup key (staged, n, c) h = elim (Option-cases (st.read c.disk key)) [
      | inl q ↦ rw q (ground arith)
      | inr (text, q) ↦ elim (Option-cases (st.decode text)) [
        | inl d ↦ rw q (rw d (ground arith))
        | inr (l, d) ↦ rw q (rw d (ground (arith, insert-IsNodup l.link_id l staged h)))
      ]
    ]

    hydrate_keys-IsNodup :
        (keys : List Bytes) (acc : Acc st fe)
        → IsNodup acc.0
        → IsNodup (hydrate_keys st fe keys acc).0
    unfolding hydrate_keys
    hydrate_keys-IsNodup [] acc h = h
    hydrate_keys-IsNodup (key ∷ keys) acc h =
        hydrate_keys-IsNodup keys (hydrate_key st fe key acc) (hydrate_key-IsNodup key acc h)

    -- If every link stands in the file of its own ID and erasures succeed, then `hydrateFromCache`
    -- stages each link on disk that is of use, a file's only if its revision is known; it leaves the
    -- file of one that is complete, and erases that of one whose extended attributes are missing.
    pub lookup-hydrate_from_cache :
        (c : LinkCache st fe) (l : CachedLink)
        → IsFiled st fe c
        → is_in (sanitize_link_id l.link_id) (st.keys c.disk) ≡ true
        → link_at st fe (sanitize_link_id l.link_id) (st.read c.disk (sanitize_link_id l.link_id))
          ≡ some l
        → is_staged l ≡ true
        → (lookup l.link_id (hydrate_from_cache st fe c).hydrated ≡ some l)
          × (link_at st fe
                (sanitize_link_id l.link_id)
                (st.read (hydrate_from_cache st fe c).disk (sanitize_link_id l.link_id))
              ≡ (if is_kept l then some l else none))
    unfolding hydrate_from_cache
    lookup-hydrate_from_cache c l filed h q k =
        let acc : Acc st fe = ([], 0, c) in
        let r = hydrate_keys st fe (st.keys c.disk) acc in
        (
          lookup-insert_all st fe l.link_id r.0 r.2.hydrated
                (hydrate_keys-IsNodup (st.keys c.disk) acc tt)
              ∙ rw (found (st.keys c.disk) l acc filed h q k) refl,
          ap (link_at st fe (sanitize_link_id l.link_id))
                (read-hydrate_keys st fe erases (st.keys c.disk) (sanitize_link_id l.link_id) acc)
              ∙ rw h (
                  link_at-dropped st fe (sanitize_link_id l.link_id)
                    (st.read c.disk (sanitize_link_id l.link_id)) l q),
        )

    -- The next `GetCachedLink` of a complete one then asks the server for nothing.
    pub get_cached_link-hydrate_from_cache :
        (share : Bytes) (c : LinkCache st fe) (l : CachedLink)
        → IsFiled st fe c
        → is_in (sanitize_link_id l.link_id) (st.keys c.disk) ≡ true
        → link_at st fe (sanitize_link_id l.link_id) (st.read c.disk (sanitize_link_id l.link_id))
          ≡ some l
        → is_staged l ≡ true
        → is_complete l ≡ true
        → get_cached_link st fe share l.link_id true (hydrate_from_cache st fe c) ≡ (
          record (hydrate_from_cache st fe c) {
            hydrated = delete l.link_id (hydrate_from_cache st fe c).hydrated;
          },
          ok l,
        )
    unfolding get_cached_link after_hit try_object_cache_hit
    get_cached_link-hydrate_from_cache share c l filed h q k whole =
        rw ((lookup-hydrate_from_cache c l filed h q k).0, try_object_cache_hit) (rw whole refl)
