-- ===== src/Config/Mapping.antt =====
-- Reading, writing and resetting a setting by its selector: `Get`, `Set` and `UnsetField` of
-- api/config/mapping.go. Changes to the configuration behind the pointer are returned.
pub mod Reset
pub mod ReadBack
use proton_utils.Base.{
  ℕ, Bool, true, false, Option, none, some, List, [], ◌∷◌, ◌≡◌, Bytes, codes, Map, ℤ, pos, ◌=?◌,
  list_eq, nat_eq, if◌then◌else◌, Result, ok, err, ◌>>=◌, lookup, insert, delete, ◌||◌, ◌&&◌, not,
}
use proton_utils.Config.Param.{
  ParamInfo, ParamSource, unset, file, cli, value_of, is_set, set_file, reset,
}
use proton_utils.Config.Numbers.{itoa}
use proton_utils.Config.State.{
  Config, CoreConfig, ShareConfig, MemoryCacheLevel, cache_disabled, cache_link_name,
  cache_metadata, DiskCacheLevel, disk_cache_disabled, disk_cache_object_store, memory_cache_string,
  disk_cache_string, no_caching, default_core, is_service,
}
use proton_utils.Config.Selector.{Segment, Selector}
use proton_utils.Config.Fields.{
  ConfigError, too_few_segments, no_index, unknown_namespace, unknown_field, bad_mode, bad_interval,
  CoreField, core_field, ValueOf, parse_positive_int, parse_non_negative_int, parse_watermark,
  format_watermark, parse_memory_cache_level, parse_disk_cache_level, core_parse, core_get,
  core_set, core_unset,
}

-- The four branches of the switch on the first segment's name.
pub data Namespace : Type 0 where
  in_core in_protonfs in_share in_subsystem : Namespace

unfoldable pub namespace_of : Bytes → Namespace
namespace_of ns =
    if ns =? codes "core"
    then in_core
    else if ns =? codes "protonfs"
    then in_protonfs
    else if ns =? codes "share"
    then in_share
    else in_subsystem

abbrev pub is_watermark : Bytes → Bool
is_watermark field = field =? codes "memory_cache_watermark"

-- The cases of the `protonfs` switches, and the keys of `shareFields`.
pub data FsField : Type 0 where
  prefetch_blocks_field block_cache_mode_field event_poll_interval_field : FsField

unfoldable pub fs_field : Bytes → Option FsField
fs_field field =
    if field =? codes "prefetch_blocks"
    then some prefetch_blocks_field
    else if field =? codes "block_cache_mode"
    then some block_cache_mode_field
    else if field =? codes "event_poll_interval"
    then some event_poll_interval_field
    else none

pub data ShareField : Type 0 where
  memory_cache_field disk_cache_field : ShareField

unfoldable pub share_field : Bytes → Option ShareField
share_field field =
    if field =? codes "memory_cache"
    then some memory_cache_field
    else if field =? codes "disk_cache"
    then some disk_cache_field
    else none

abbrev pub known : {A : Type 0} → Bytes → Bytes → Option A → Result ConfigError A
known ns field none = err (unknown_field ns field)
known ns field (some f) = ok f

-- `getCoreField`, `setCoreField` and `unsetCoreField`
unfoldable pub get_core_field : Config → Bytes → Result ConfigError Bytes
get_core_field c field =
    if is_watermark field
    then ok (format_watermark (value_of c.memory_cache_watermark))
    else (known (codes "core") field (core_field field) >>= λ f. ok (core_get f c.core).shown)

unfoldable pub set_core_field : Config → Bytes → Bytes → Result ConfigError Config
set_core_field c field text =
    if is_watermark field
    then (parse_watermark text >>= λ v.
        ok (record c { memory_cache_watermark = set_file v c.memory_cache_watermark }))
    else (known (codes "core") field (core_field field) >>= λ f.
        core_parse f text >>= λ v. ok (record c { core = core_set f v c.core }))

unfoldable pub unset_core_field : Config → Bytes → Result ConfigError Config
unset_core_field c field =
    if is_watermark field
    then ok (record c { memory_cache_watermark = reset (pos 0, pos 0) c.memory_cache_watermark })
    else (known (codes "core") field (core_field field) >>= λ f.
        ok (record c { core = core_unset f c.core }))

-- `getProtonFSField`, `setProtonFSField` and `unsetProtonFSField`
unfoldable pub get_fs : Config → FsField → Bytes
get_fs c prefetch_blocks_field = itoa (value_of c.prefetch_blocks)
get_fs c block_cache_mode_field = value_of c.block_cache_mode
get_fs c event_poll_interval_field = itoa (value_of c.event_poll_interval)

abbrev pub or_interval : Bytes → Result ConfigError ℤ → Result ConfigError ℤ
or_interval text (ok n) = ok n
or_interval text (err _) = err (bad_interval text)

unfoldable pub set_fs : Config → Bytes → FsField → Result ConfigError Config
set_fs c text prefetch_blocks_field = parse_non_negative_int text >>= λ n.
    ok (record c { prefetch_blocks = set_file n c.prefetch_blocks })
set_fs c text block_cache_mode_field =
    if text =? codes "encrypted" || text =? codes "decrypted"
    then ok (record c { block_cache_mode = set_file text c.block_cache_mode })
    else err (bad_mode text)
set_fs c text event_poll_interval_field = or_interval text (parse_positive_int text) >>= λ n.
    ok (record c { event_poll_interval = set_file n c.event_poll_interval })

unfoldable pub unset_fs : Config → FsField → Config
unset_fs c prefetch_blocks_field = record c { prefetch_blocks = reset (pos 0) c.prefetch_blocks }
unset_fs c block_cache_mode_field = record c { block_cache_mode = reset [] c.block_cache_mode }
unset_fs c event_poll_interval_field = record c {
  event_poll_interval = reset (pos 0) c.event_poll_interval;
}

-- `getShareField`, `setShareField` and `unsetShareField`; their tests of the number of segments
-- repeat that of the callers
abbrev pub share_of : Bytes → Config → ShareConfig
share_of id c = elim (lookup id c.shares) [ none ↦ no_caching | some sc ↦ sc ]

abbrev pub indexed : Segment → Bytes → Result ConfigError ShareField
indexed s field =
    if s.index_key =? [] then err no_index else known (codes "share") field (share_field field)

unfoldable pub get_share : ShareConfig → ShareField → Bytes
get_share sc memory_cache_field = memory_cache_string sc.memory_cache
get_share sc disk_cache_field = disk_cache_string sc.disk_cache

unfoldable pub set_share : ShareConfig → Bytes → ShareField → Result ConfigError ShareConfig
set_share sc text memory_cache_field =
    parse_memory_cache_level text >>= λ l. ok (record sc { memory_cache = l })
set_share sc text disk_cache_field =
    parse_disk_cache_level text >>= λ l. ok (record sc { disk_cache = l })

unfoldable pub unset_share : ShareConfig → ShareField → ShareConfig
unset_share sc memory_cache_field = record sc { memory_cache = cache_disabled }
unset_share sc disk_cache_field = record sc { disk_cache = disk_cache_disabled }

-- `sc.MemoryCache == CacheDisabled && sc.DiskCache == DiskCacheDisabled`
abbrev pub is_disabled : MemoryCacheLevel → DiskCacheLevel → Bool
is_disabled cache_disabled disk_cache_disabled = true
is_disabled _ _ = false

unfoldable pub put_share : Bytes → ShareConfig → Map Bytes ShareConfig → Map Bytes ShareConfig
put_share id sc m =
    if is_disabled sc.memory_cache sc.disk_cache then delete id m else insert id sc m

unfoldable pub unset_share_entry : Bytes → ShareField → Config → Config
unfolding unset_share put_share
unset_share_entry id f c = elim (lookup id c.shares) [
  | none ↦ c
  | some sc ↦ record c { shares = put_share id (unset_share sc f) c.shares }
]

-- `getSubsystemField`, `setSubsystemField` and `unsetSubsystemField`
abbrev pub serviced : Bytes → Bytes → Result ConfigError CoreField
serviced svc field =
    if is_service svc then known svc field (core_field field) else err (unknown_namespace svc)

abbrev pub shown_or : ParamInfo → Bytes → Bytes
shown_or i text = elim i.from_source [ unset ↦ text | file ↦ i.shown | cli ↦ i.shown ]

unfoldable pub get_subsystem : Bytes → Config → CoreField → Bytes
get_subsystem svc c f = elim (lookup svc c.subsystems) [
  | none ↦ (core_get f c.core).shown
  | some sub ↦ shown_or (core_get f sub) (core_get f c.core).shown
]

abbrev pub subsystem_of : ℤ → Bytes → Config → CoreConfig
subsystem_of workers svc c = elim (lookup svc c.subsystems) [
  | none ↦ default_core workers
  | some sub ↦ sub
]

-- Whether no setting of the subsystem is set.
abbrev pub is_bare : CoreConfig → Bool
is_bare sub = not (is_set sub.max_jobs) && not (is_set sub.account) && not (is_set sub.app_version)

unfoldable pub put_subsystem : Bytes → CoreConfig → Map Bytes CoreConfig → Map Bytes CoreConfig
put_subsystem svc sub m = if is_bare sub then delete svc m else insert svc sub m

unfoldable pub unset_subsystem : Bytes → Config → CoreField → Config
unfolding put_subsystem
unset_subsystem svc c f = elim (lookup svc c.subsystems) [
  | none ↦ c
  | some sub ↦ record c { subsystems = put_subsystem svc (core_unset f sub) c.subsystems }
]

unfoldable pub get_in : Namespace → Config → Segment → Bytes → Result ConfigError Bytes
get_in in_core c s field = get_core_field c field
get_in in_protonfs c s field =
    known (codes "protonfs") field (fs_field field) >>= λ f. ok (get_fs c f)
get_in in_share c s field = indexed s field >>= λ f. ok (get_share (share_of s.index_val c) f)
get_in in_subsystem c s field = serviced s.name field >>= λ f. ok (get_subsystem s.name c f)

-- `Get`
unfoldable pub get : Config → Selector → Result ConfigError Bytes
get c (s ∷ t ∷ _) = get_in (namespace_of s.name) c s t.name
get c _ = err too_few_segments

unfoldable pub set_in : ℤ → Namespace → Config → Segment → Bytes → Bytes → Result ConfigError Config
set_in workers in_core c s field text = set_core_field c field text
set_in workers in_protonfs c s field text =
    known (codes "protonfs") field (fs_field field) >>= λ f. set_fs c text f
set_in workers in_share c s field text = indexed s field >>= λ f.
    set_share (share_of s.index_val c) text f >>= λ sc.
    ok (record c { shares = insert s.index_val sc c.shares })
set_in workers in_subsystem c s field text = serviced s.name field >>= λ f.
    core_parse f text >>= λ v. ok (record c {
      subsystems = insert s.name (core_set f v (subsystem_of workers s.name c)) c.subsystems;
    })

-- `Set`; `workers` is what `api.DefaultMaxWorkers` returns
unfoldable pub set : ℤ → Config → Selector → Bytes → Result ConfigError Config
set workers c (s ∷ t ∷ _) text = set_in workers (namespace_of s.name) c s t.name text
set workers c _ text = err too_few_segments

unfoldable pub unset_in : Namespace → Config → Segment → Bytes → Result ConfigError Config
unset_in in_core c s field = unset_core_field c field
unset_in in_protonfs c s field =
    known (codes "protonfs") field (fs_field field) >>= λ f. ok (unset_fs c f)
unset_in in_share c s field = indexed s field >>= λ f. ok (unset_share_entry s.index_val f c)
unset_in in_subsystem c s field = serviced s.name field >>= λ f. ok (unset_subsystem s.name c f)

-- `UnsetField`
unfoldable pub unset_field : Config → Selector → Result ConfigError Config
unset_field c (s ∷ t ∷ _) = unset_in (namespace_of s.name) c s t.name
unset_field c _ = err too_few_segments
