-- ===== src/Drive/LinkCache.antt =====
-- The cache of links of the Drive client, api/drive/objectcache.go and the parts of client.go that
-- use it: what is staged at the start, what is on disk, and the fetch of a link with its
-- extended attributes. Calls run one after the other; `run_eviction` stands for the goroutine.
pub mod Outside
pub mod Hydration
pub mod Erasures
pub mod Hydrated
pub mod Hits
pub mod Eviction
pub mod Failures
use proton_utils.Base.{
  ℕ, zero, suc, ◌+◌, ◌-◌, ◌≤◌, ◌==◌, leb, ltb, ◌≡◌, Bool, true, false, not, ◌&&◌, ◌||◌, Option,
  none, some, List, [], ◌∷◌, length, take, Bytes, codes, Map, lookup, insert, delete, ◌=?◌, list_eq,
  nat_eq, Result, ok, err, if◌then◌else◌,
}
pub use proton_utils.Drive.LinkCache.Outside.{
  max_cache_entries, eviction_target, max_xattr_retries, LinkType, Revision, CachedLink, Erased,
  Store, Fetcher, folder, file, other_type, erased, missing, stuck,
}
unfoldable pub use proton_utils.Drive.LinkCache.Outside.{
  trim_right, sanitize_link_id, starts_with, contains, is_block, is_empty, has_xattr, has_revision,
  is_folder, is_file, is_complete,
}

module _ (st : Store) (fe : Fetcher) where
  pub record LinkCache : Type 0 where
    pub server : fe.State
    pub disk : st.State
    pub hydrated : Map Bytes CachedLink
    pub fail_count : Map Bytes ℕ
    pub cache_count : ℕ
    pub evicting : Bool

  -- `cacheCount` is decreased if it is not 0
  unfoldable pub erase_key : Bytes → LinkCache → LinkCache
  erase_key key c = record c { disk = (st.erase c.disk key).0 }

  unfoldable pub drop_entry : Bytes → LinkCache → LinkCache
  unfolding erase_key
  drop_entry key c = record (erase_key key c) { cache_count = c.cache_count - 1 }

  -- `tryObjectCacheHit` on disk: an entry that does not decode or is not complete is erased
  unfoldable pub disk_hit : Bytes → LinkCache → LinkCache × Option CachedLink
  unfolding is_complete drop_entry
  disk_hit id c = elim (st.read c.disk (sanitize_link_id id)) [
    | none ↦ (c, none)
    | some text ↦ elim (st.decode text) [
      | none ↦ (drop_entry (sanitize_link_id id) c, none)
      | some l ↦ if is_complete l then (c, some l) else (drop_entry (sanitize_link_id id) c, none)
    ]
  ]

  -- `tryObjectCacheHit`
  unfoldable pub try_object_cache_hit : Bytes → LinkCache → LinkCache × Option CachedLink
  unfolding is_complete disk_hit
  try_object_cache_hit id c = elim (lookup id c.hydrated) [
    | none ↦ disk_hit id c
    | some l ↦
        if is_complete l
        then (record c { hydrated = delete id c.hydrated }, some l)
        else disk_hit id c
  ]

  -- `takeStagedIncomplete`
  unfoldable pub take_staged_incomplete : Bytes → LinkCache → LinkCache × Option CachedLink
  unfolding is_file has_revision has_xattr
  take_staged_incomplete id c = elim (lookup id c.hydrated) [
    | none ↦ (c, none)
    | some l ↦
        if not (is_file l)
        then (c, none)
        else if not (has_revision l)
        then (c, none)
        else if has_xattr l
        then (c, none)
        else (record c { hydrated = delete id c.hydrated }, some l)
  ]

  -- An entry as `runEviction` scans it.
  pub record Aged : Type 0 where
    pub key : Bytes
    pub mtime : ℕ

  unfoldable pub scan : List Bytes → LinkCache → List Aged
  unfolding is_block
  scan [] c = []
  scan (key ∷ keys) c =
      let rest = scan keys c in
      if is_block key || ltb (length key) 2 then rest else elim (st.modified c.disk key) [
        | none ↦ rest
        | some t ↦ record { key = key; mtime = t } ∷ rest
      ]

  -- `sort.Slice` by the time of the last write
  unfoldable pub insert_aged : Aged → List Aged → List Aged
  insert_aged e [] = e ∷ []
  insert_aged e (x ∷ xs) =
      let rest = insert_aged e xs in if leb e.mtime x.mtime then e ∷ x ∷ xs else x ∷ rest

  unfoldable pub oldest_first : List Aged → List Aged
  unfolding insert_aged
  oldest_first [] = []
  oldest_first (e ∷ es) = insert_aged e (oldest_first es)

  -- The loop of `runEviction`, with how many entries remain. What it takes off `cacheCount` on the
  -- way is overwritten at the end.
  unfoldable pub evict : List Aged → ℕ → LinkCache → LinkCache × ℕ
  unfolding erase_key
  evict [] remaining c = (c, remaining)
  evict (e ∷ es) remaining c =
      evict es (elim (st.erase c.disk e.key).1 [ erased ↦ remaining - 1 | _ ↦ remaining ])
        (erase_key e.key c)

  -- `runEviction` down to a number of entries, which in the program is `eviction_target`
  unfoldable pub run_eviction : ℕ → LinkCache → LinkCache
  unfolding scan oldest_first evict
  run_eviction limit c =
      let entries = scan (st.keys c.disk) c in
      if leb (length entries) limit
      then record c { cache_count = length entries; evicting = false }
      else (let (c', remaining) =
            evict (take (length entries - limit) (oldest_first entries)) (length entries) c in
          record c' { cache_count = remaining; evicting = false })

  -- `triggerEviction`, which starts the goroutine where `evicting` is not set yet
  unfoldable pub trigger_eviction : LinkCache → LinkCache
  trigger_eviction c = record c {
    evicting = if leb c.cache_count max_cache_entries then c.evicting else true;
  }

  -- `writeCacheEntry`
  unfoldable pub write_cache_entry : Bytes → CachedLink → LinkCache → LinkCache
  unfolding trigger_eviction
  write_cache_entry id l c =
      let (disk, written) = st.write c.disk (sanitize_link_id id) (st.encode l) in
      if written
      then trigger_eviction (record c { disk = disk; cache_count = c.cache_count + 1 })
      else record c { disk = disk }

  -- `eraseCacheEntry`
  unfoldable pub erase_cache_entry : Bytes → LinkCache → LinkCache
  erase_cache_entry id c =
      let (disk, e) = st.erase c.disk (sanitize_link_id id) in
      record c {
        disk = disk;
        cache_count = elim e [ erased ↦ c.cache_count - 1 | _ ↦ c.cache_count ];
        fail_count = delete id c.fail_count;
      }

  abbrev pub failures : Bytes → LinkCache → ℕ
  failures id c = elim (lookup id c.fail_count) [ none ↦ 0 | some k ↦ k ]

  unfoldable pub keep : Bool → Bytes → CachedLink → LinkCache → LinkCache
  unfolding write_cache_entry
  keep disk_allowed id l c = if disk_allowed then write_cache_entry id l c else c

  -- `fetchLinkWithXAttr` with the revision's answer
  unfoldable pub with_xattr :
      Bool
      → Bytes
      → CachedLink
      → Revision
      → LinkCache
      → fe.State × Result fe.Failure Revision
      → LinkCache × CachedLink
  unfolding keep
  with_xattr disk_allowed id l r c (s, err _) =
      (record c { server = s; fail_count = insert id (failures id c + 1) c.fail_count }, l)
  with_xattr disk_allowed id l r c (s, ok full) =
      let whole = record l {
        revision = some (record r { xattr = full.xattr; size = full.size });
      } in
      (
        keep disk_allowed id whole (record c { server = s; fail_count = delete id c.fail_count }),
        whole,
      )

  -- `fetchLinkWithXAttr` with a file, whose revision is not fetched after too many failures
  unfoldable pub complete_file :
      Bytes → Bytes → Bool → CachedLink → Option Revision → LinkCache → LinkCache × CachedLink
  unfolding with_xattr is_empty
  complete_file share id disk_allowed l none c = (c, l)
  complete_file share id disk_allowed l (some r) c =
      if is_empty r.id
      then (c, l)
      else if leb max_xattr_retries (failures id c)
      then (c, l)
      else with_xattr disk_allowed id l r c (fe.get_revision c.server share id r.id)

  -- `fetchLinkWithXAttr` once it has the link
  unfoldable pub complete_link :
      Bytes → Bytes → Bool → CachedLink → LinkCache → LinkCache × CachedLink
  unfolding is_folder keep complete_file
  complete_link share id disk_allowed l c =
      if is_folder l
      then (keep disk_allowed id l c, l)
      else complete_file share id disk_allowed l l.revision c

  -- `fetchLinkWithXAttr`
  unfoldable pub fetch_link_with_xattr :
      Bytes
      → Bytes
      → Bool
      → Option CachedLink
      → LinkCache
      → LinkCache × Result fe.Failure CachedLink
  unfolding complete_link
  fetch_link_with_xattr share id disk_allowed (some staged) c =
      let (c', l) = complete_link share id disk_allowed staged c in (c', ok l)
  fetch_link_with_xattr share id disk_allowed none c =
      let (s, r) = fe.get_link c.server share id in
      elim r [
        | err e ↦ (record c { server = s }, err e)
        | ok l ↦
            let (c', l') = complete_link share id disk_allowed l (record c { server = s }) in
            (c', ok l')
      ]

  -- `GetCachedLink` after the lookup in the cache
  unfoldable pub fetch_staged :
      Bytes → Bytes → LinkCache × Option CachedLink → LinkCache × Result fe.Failure CachedLink
  unfolding fetch_link_with_xattr
  fetch_staged share id (c, staged) = fetch_link_with_xattr share id true staged c

  unfoldable pub after_hit :
      Bytes → Bytes → LinkCache × Option CachedLink → LinkCache × Result fe.Failure CachedLink
  unfolding fetch_staged take_staged_incomplete
  after_hit share id (c, some l) = (c, ok l)
  after_hit share id (c, none) = fetch_staged share id (take_staged_incomplete id c)

  -- `GetCachedLink`, where `disk_allowed` is what `sharePermitsDiskCache` says
  unfoldable pub get_cached_link :
      Bytes → Bytes → Bool → LinkCache → LinkCache × Result fe.Failure CachedLink
  unfolding try_object_cache_hit after_hit fetch_link_with_xattr
  get_cached_link share id disk_allowed c =
      if disk_allowed
      then after_hit share id (try_object_cache_hit id c)
      else fetch_link_with_xattr share id false none c
