-- ===== src/Drive/LinkCache/Hits.antt =====
-- Hits and fetches of the link cache.
use proton_utils.Base.{
  ◌+◌, leb, ◌≡◌, refl, sym, ap, ◌∙◌, Bool, true, false, Bool-cases, inl, inr, Option, none, some,
  Option-cases, Bytes, lookup, insert, delete, list_eq, subst, list_beq_iff, nat_eq, Result, ok,
  err, Result-cases, if◌then◌else◌, arith,
}
use proton_utils.Drive.LinkCache.{
  CachedLink, Revision, Store, Fetcher, LinkCache, sanitize_link_id, is_complete, is_folder,
  is_empty, disk_hit, try_object_cache_hit, take_staged_incomplete, write_cache_entry,
  trigger_eviction, keep, with_xattr, complete_file, has_xattr, complete_link,
  fetch_link_with_xattr, after_hit, fetch_staged, get_cached_link, failures, max_xattr_retries,
}

module _ (st : Store) (fe : Fetcher) where
  abbrev C : Type 0
  C = LinkCache st fe

  disk_hit-some :
      (id : Bytes) (c : C) (l : CachedLink)
      → (disk_hit st fe id c).1 ≡ some l
      → disk_hit st fe id c ≡ (c, some l)
  unfolding disk_hit
  disk_hit-some id c l e = ground arith

  -- A hit is a folder or has its extended attributes, and is found without a request to the server.
  hit_complete :
      (id : Bytes) (c c' : C) (l : CachedLink)
      → try_object_cache_hit st fe id c ≡ (c', some l)
      → (is_complete l ≡ true) × (c'.server ≡ c.server) × (c'.fail_count ≡ c.fail_count)
  unfolding try_object_cache_hit disk_hit
  hit_complete id c c' l e = (ground arith, ground arith, ground arith)

  pub write_cache_entry-keeps :
      (id : Bytes) (l : CachedLink) (c : C)
      → ((write_cache_entry st fe id l c).hydrated ≡ c.hydrated)
        × ((write_cache_entry st fe id l c).fail_count ≡ c.fail_count)
        × ((write_cache_entry st fe id l c).server ≡ c.server)
  unfolding write_cache_entry trigger_eviction
  write_cache_entry-keeps id l c = (ground arith, ground arith, ground arith)

  -- what a write leaves on disk
  write_cache_entry-read :
      (id : Bytes) (l : CachedLink) (c : C)
      → (st.write c.disk (sanitize_link_id id) (st.encode l)).1 ≡ true
      → st.read (write_cache_entry st fe id l c).disk (sanitize_link_id id) ≡ some (st.encode l)
  unfolding write_cache_entry trigger_eviction
  write_cache_entry-read id l c h =
      let key = sanitize_link_id id in
      rw (h, write_cache_entry)
        (st.read-write c.disk key key (st.encode l) h ∙ ground (arith, list_beq_iff key key))

  -- A complete link that was written is hit.
  hit-write :
      (id : Bytes) (l : CachedLink) (c : C)
      → lookup id c.hydrated ≡ none
      → st.read c.disk (sanitize_link_id id) ≡ some (st.encode l)
      → is_complete l ≡ true
      → try_object_cache_hit st fe id c ≡ (c, some l)
  unfolding try_object_cache_hit disk_hit
  hit-write id l c h k whole =
      rw (h, try_object_cache_hit) (rw (k, disk_hit) (rw (st.decode-encode l) (rw whole refl)))

  disk_hit-hydrated : (id : Bytes) (c : C) → (disk_hit st fe id c).0.hydrated ≡ c.hydrated
  unfolding disk_hit
  disk_hit-hydrated id c = ground arith

  try-unstaged :
      (id : Bytes) (c : C)
      → lookup id c.hydrated ≡ none
      → try_object_cache_hit st fe id c ≡ disk_hit st fe id c
  unfolding try_object_cache_hit
  try-unstaged id c h = ground arith

  take-unstaged :
      (id : Bytes) (c : C)
      → lookup id c.hydrated ≡ none
      → take_staged_incomplete st fe id c ≡ (c, none)
  unfolding take_staged_incomplete
  take-unstaged id c h = ground arith

  get-hit :
      (share id : Bytes) (c : C) (l : CachedLink)
      → try_object_cache_hit st fe id c ≡ (c, some l)
      → get_cached_link st fe share id true c ≡ (c, ok l)
  unfolding get_cached_link after_hit
  get-hit share id c l h = ap (after_hit st fe share id) h

  get-missed :
      (share id : Bytes) (c d : C)
      → lookup id c.hydrated ≡ none
      → disk_hit st fe id c ≡ (d, none)
      → get_cached_link st fe share id true c ≡ fetch_link_with_xattr st fe share id true none d
  unfolding get_cached_link after_hit fetch_staged
  get-missed share id c d h q =
      let unstaged : lookup id d.hydrated ≡ none =
        ap (lookup id)
          (ap (λ (r : C × Option CachedLink). r.0.hydrated) (sym q) ∙ disk_hit-hydrated id c)
        ∙ h in
      ap (after_hit st fe share id) (try-unstaged id c h ∙ q)
      ∙ ap (fetch_staged st fe share id) (take-unstaged id d unstaged)

  module _ (writes : (s : st.State) (k : Bytes) (t : st.Text) → (st.write s k t).1 ≡ true) where
    -- A complete link that a fetch returns is on disk, and what is staged is as before.
    abbrev IsCached : Bytes → C → C × CachedLink → Type 0
    IsCached id c r =
        is_complete r.1 ≡ true
        → (r.0.hydrated ≡ c.hydrated)
          × (st.read r.0.disk (sanitize_link_id id) ≡ some (st.encode r.1))

    incomplete-IsCached :
        (id : Bytes) (c d : C) (l : CachedLink) → is_complete l ≡ false → IsCached id c (d, l)
    incomplete-IsCached id c d l h k = absurd (cc (sym h ∙ k))

    write-IsCached :
        (id : Bytes) (l : CachedLink) (c d : C)
        → d.hydrated ≡ c.hydrated
        → IsCached id c (keep st fe true id l d, l)
    unfolding keep
    write-IsCached id l c d same k = (
      (write_cache_entry-keeps id l d).0 ∙ same,
      write_cache_entry-read id l d (writes d.disk (sanitize_link_id id) (st.encode l)),
    )

    with_xattr-IsCached :
        (id : Bytes) (l : CachedLink) (r : Revision) (c : C)
        (a : fe.State × Result fe.Failure Revision)
        → is_complete l ≡ false
        → IsCached id c (with_xattr st fe true id l r c a)
    unfolding with_xattr
    with_xattr-IsCached id l r c (s, err e) h =
        incomplete-IsCached id c
          (record c { server = s; fail_count = insert id (failures st fe id c + 1) c.fail_count }) l
          h
    with_xattr-IsCached id l r c (s, ok full) h =
        write-IsCached id _ c (record c { server = s; fail_count = delete id c.fail_count }) refl

    by_cases :
        (id : Bytes) (c : C) (b : Bool) (x y : C × CachedLink)
        → IsCached id c x
        → IsCached id c y
        → IsCached id c (if b then x else y)
    by_cases id c true x y h k = h
    by_cases id c false x y h k = k

    complete_file-IsCached :
        (share id : Bytes) (l : CachedLink) (o : Option Revision) (c : C)
        → is_complete l ≡ false
        → IsCached id c (complete_file st fe share id true l o c)
    unfolding complete_file
    complete_file-IsCached share id l none c h = incomplete-IsCached id c c l h
    complete_file-IsCached share id l (some r) c h =
        let same = incomplete-IsCached id c c l h in
        let asked = fe.get_revision c.server share id r.id in
        let fetched = with_xattr st fe true id l r c asked in
        let given_up = leb max_xattr_retries (failures st fe id c) in
        by_cases id c (is_empty r.id) (c, l) (if given_up then (c, l) else fetched) same
          (by_cases id c given_up (c, l) fetched same (with_xattr-IsCached id l r c asked h))

    -- The revision's attributes are fetched for a file that has none.
    complete_link-IsCached :
        (share id : Bytes) (l : CachedLink) (c : C)
        → has_xattr l ≡ false
        → IsCached id c (complete_link st fe share id true l c)
    unfolding complete_link
    complete_link-IsCached share id l c h = elim (Bool-cases (is_folder l)) [
      | inl e ↦ rw (e, complete_link) (write-IsCached id l c c refl)
      | inr e ↦
          rw (e, complete_link)
            (complete_file-IsCached share id l l.revision c (unfold is_complete in ground arith))
    ]

    pair_of :
        (r : C × CachedLink) {c : C} {l : CachedLink}
        → ◌≡◌ {A = C × Result fe.Failure CachedLink} (r.0, ok r.1) (c, ok l)
        → r ≡ (c, l)
    pair_of r e = cc

    fetch-cached :
        (share id : Bytes) (c : C) {c' : C} {l : CachedLink}
        → ((s : fe.State) (x : CachedLink)
            → (fe.get_link s share id).1 ≡ ok x
            → has_xattr x ≡ false)
        → fetch_link_with_xattr st fe share id true none c ≡ (c', ok l)
        → is_complete l ≡ true
        → (c'.hydrated ≡ c.hydrated) × (st.read c'.disk (sanitize_link_id id) ≡ some (st.encode l))
    unfolding fetch_link_with_xattr
    fetch-cached share id c {c'} {l} bare e whole =
        elim (Result-cases (fe.get_link c.server share id).1) [
          | inr (x, q) ↦ absurd (cc (rw (q, fetch_link_with_xattr) at e))
          | inl (x, q) ↦
              let moved = record c { server = (fe.get_link c.server share id).0 } in
              let done = complete_link st fe share id true x moved in
              let same : done ≡ (c', l) = pair_of done (rw (q, fetch_link_with_xattr) at e) in
              subst (IsCached id moved) same
                (complete_link-IsCached share id x moved (bare c.server x q)) whole
        ]

    -- A complete link that is returned by a fetch, or by a hit on disk, is returned again, without a
    -- request to the server and without a change of the cache: if disk caching is allowed, nothing is
    -- staged for the link, the writes to the disk succeed, and the server sends links without their
    -- extended attributes, which are the revision's.
    pub get_cached_link-twice :
        (share id : Bytes) (c : C) {c' : C} {l : CachedLink}
        → ((s : fe.State) (x : CachedLink)
            → (fe.get_link s share id).1 ≡ ok x
            → has_xattr x ≡ false)
        → lookup id c.hydrated ≡ none
        → get_cached_link st fe share id true c ≡ (c', ok l)
        → is_complete l ≡ true
        → get_cached_link st fe share id true c' ≡ (c', ok l)
    get_cached_link-twice share id c {c'} {l} bare unstaged e whole =
        elim (Option-cases (disk_hit st fe id c).1) [
          | inl q ↦
              let d = (disk_hit st fe id c).0 in
              let missed : disk_hit st fe id c ≡ (d, none) = ap (λ o. (d, o)) q in
              let (kept, there) =
                fetch-cached share id d bare (sym (get-missed share id c d unstaged missed) ∙ e)
                  whole in
              let still = ap (lookup id) (kept ∙ disk_hit-hydrated id c) ∙ unstaged in
              get-hit share id c' l (hit-write id l c' still there whole)
          | inr (x, q) ↦
              let hit : disk_hit st fe id c ≡ (c, some x) = disk_hit-some id c x q in
              let got = get-hit share id c x (try-unstaged id c unstaged ∙ hit) in
              let same : c' ≡ c =
                ap (λ (r : C × Result fe.Failure CachedLink). r.0) (sym e ∙ got) in
              ap (get_cached_link st fe share id true) same ∙ e
        ]
