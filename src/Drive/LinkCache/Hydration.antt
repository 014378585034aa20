-- ===== src/Drive/LinkCache/Hydration.antt =====
-- `hydrateFromCache` of api/drive/objectcache.go: what is read from disk at the start.
use proton_utils.Base.{
  ℕ, ◌+◌, not, none, some, List, [], ◌∷◌, Bytes, Map, insert, list_eq, nat_eq, if◌then◌else◌,
}
use proton_utils.Drive.LinkCache.{
  Store, Fetcher, CachedLink, LinkCache, erase_key, is_block, is_file, has_revision, has_xattr,
}

module _ (st : Store) (fe : Fetcher) where
  -- `hydrateFromCache` on one key: what is staged, and how many complete entries there are
  unfoldable pub hydrate_link :
      Bytes
      → CachedLink
      → Map Bytes CachedLink × ℕ × LinkCache st fe
      → Map Bytes CachedLink × ℕ × LinkCache st fe
  unfolding is_file has_revision has_xattr erase_key
  hydrate_link key l (staged, n, c) =
      if not (is_file l)
      then (insert l.link_id l staged, n + 1, c)
      else if not (has_revision l)
      then (staged, n, erase_key st fe key c)
      else if has_xattr l
      then (insert l.link_id l staged, n + 1, c)
      else (insert l.link_id l staged, n, erase_key st fe key c)

  unfoldable pub hydrate_key :
      Bytes
      → Map Bytes CachedLink × ℕ × LinkCache st fe
      → Map Bytes CachedLink × ℕ × LinkCache st fe
  unfolding is_block hydrate_link erase_key
  hydrate_key key (staged, n, c) =
      if is_block key then (staged, n, c) else elim (st.read c.disk key) [
        | none ↦ (staged, n, c)
        | some text ↦ elim (st.decode text) [
          | none ↦ (staged, n, erase_key st fe key c)
          | some l ↦ hydrate_link key l (staged, n, c)
        ]
      ]

  unfoldable pub hydrate_keys :
      List Bytes
      → Map Bytes CachedLink × ℕ × LinkCache st fe
      → Map Bytes CachedLink × ℕ × LinkCache st fe
  unfolding hydrate_key
  hydrate_keys [] acc = acc
  hydrate_keys (key ∷ keys) acc = hydrate_keys keys (hydrate_key key acc)

  unfoldable pub insert_all : Map Bytes CachedLink → Map Bytes CachedLink → Map Bytes CachedLink
  insert_all [] m = m
  insert_all ((id, l) ∷ staged) m = insert_all staged (insert id l m)

  -- `hydrateFromCache`
  unfoldable pub hydrate_from_cache : LinkCache st fe → LinkCache st fe
  unfolding hydrate_keys insert_all
  hydrate_from_cache c =
      let (staged, n, c') = hydrate_keys (st.keys c.disk) ([], 0, c) in
      record c' { hydrated = insert_all staged c'.hydrated; cache_count = n }
