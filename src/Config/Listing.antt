-- ===== src/Config/Listing.antt =====
-- The entries of `List` and `Show`, api/config/mapping.go.
pub mod Settings
pub mod Readable
use proton_utils.Base.{
  ℕ, Bool, true, false, Option, none, some, List, [], ◌∷◌, ◌++◌, ◌==◌, ltb, Bytes, codes, Map,
  list_eq, nat_eq, if◌then◌else◌, lookup,
}
use proton_utils.Config.Param.{Param, ParamSource, unset, file, cli, value_of, info}
use proton_utils.Config.Numbers.{itoa}
use proton_utils.Config.State.{
  Config, CoreConfig, ShareConfig, MemoryCacheLevel, cache_disabled, DiskCacheLevel,
  disk_cache_disabled, memory_cache_string, disk_cache_string,
}
use proton_utils.Config.Fields.{
  CoreField, max_jobs_field, account_field, app_version_field, core_get, format_watermark,
}

pub record Entry : Type 0 where
  pub selector : Bytes
  pub value : Bytes
  pub source : ParamSource

-- `sort.Strings`, which orders by bytes
unfoldable pub string_le : Bytes → Bytes → Bool
string_le [] t = true
string_le (c ∷ s) [] = false
string_le (c ∷ s) (d ∷ t) =
    let rest = string_le s t in if ltb c d then true else if c == d then rest else false

unfoldable pub insert_sorted : Bytes → List Bytes → List Bytes
insert_sorted k [] = k ∷ []
insert_sorted k (j ∷ ks) = if string_le k j then k ∷ j ∷ ks else j ∷ insert_sorted k ks

unfoldable pub sort_strings : List Bytes → List Bytes
unfolding insert_sorted
sort_strings [] = []
sort_strings (k ∷ ks) = insert_sorted k (sort_strings ks)

unfoldable pub keys : {V : Type 0} → Map Bytes V → List Bytes
keys [] = []
keys ((k, v) ∷ m) = k ∷ keys m

-- `sortedKeys`
unfoldable pub sorted_keys : {V : Type 0} → Map Bytes V → List Bytes
unfolding sort_strings keys
sorted_keys m = sort_strings (keys m)

-- `sortedCoreFieldNames`, the three names of the table in their order
abbrev pub sorted_core_fields : List (Bytes × CoreField)
sorted_core_fields =
    (codes "account", account_field)
    ∷ (codes "app_version", app_version_field)
    ∷ (codes "max_jobs", max_jobs_field)
    ∷ []

abbrev pub is_file : ParamSource → Bool
is_file unset = false
is_file file = true
is_file cli = false

abbrev pub when : Bool → Entry → List Entry
when true e = e ∷ []
when false e = []

-- the entry of a setting under a namespace
abbrev pub field_entry : Bytes → Bytes → CoreField → CoreConfig → Entry
field_entry ns name f cc = record {
  selector = ns ++ 46 ∷ name;
  value = (core_get f cc).shown;
  source = (core_get f cc).from_source;
}

-- the loop over the names, for the entries that come from the file
unfoldable pub file_fields : Bytes → List (Bytes × CoreField) → CoreConfig → List Entry
file_fields ns [] cc = []
file_fields ns ((name, f) ∷ fs) cc =
    when (is_file (core_get f cc).from_source) (field_entry ns name f cc) ++ file_fields ns fs cc

unfoldable pub all_fields : Bytes → List (Bytes × CoreField) → CoreConfig → List Entry
all_fields ns [] cc = []
all_fields ns ((name, f) ∷ fs) cc = field_entry ns name f cc ∷ all_fields ns fs cc

-- the entry of a `Param` of `Config` itself
abbrev pub param_entry : {T : Type 0} → Bytes → (T → Bytes) → Param T → Entry
param_entry selector format p = record {
  selector = selector;
  value = format (value_of p);
  source = p.source;
}

abbrev pub same_text : Bytes → Bytes
same_text s = s

-- the loop over the subsystems
unfoldable pub subsystem_entries : List Bytes → Map Bytes CoreConfig → List Entry
subsystem_entries [] m = []
subsystem_entries (svc ∷ svcs) m =
    elim (lookup svc m) [ none ↦ [] | some sub ↦ file_fields svc sorted_core_fields sub ]
    ++ subsystem_entries svcs m

abbrev pub share_entry : Bytes → Bytes → Bytes → Entry
share_entry id field value = record {
  selector = codes "share[id=" ++ (id ++ codes "]." ++ field);
  value = value;
  source = file;
}

abbrev pub is_memory_off : MemoryCacheLevel → Bool
is_memory_off cache_disabled = true
is_memory_off _ = false

abbrev pub is_disk_off : DiskCacheLevel → Bool
is_disk_off disk_cache_disabled = true
is_disk_off _ = false

abbrev pub memory_entry : Bytes → ShareConfig → Entry
memory_entry id sc = share_entry id (codes "memory_cache") (memory_cache_string sc.memory_cache)

abbrev pub disk_entry : Bytes → ShareConfig → Entry
disk_entry id sc = share_entry id (codes "disk_cache") (disk_cache_string sc.disk_cache)

unfoldable pub enabled_entries : Bytes → ShareConfig → List Entry
enabled_entries id sc =
    (if is_memory_off sc.memory_cache then [] else memory_entry id sc ∷ [])
    ++ (if is_disk_off sc.disk_cache then [] else disk_entry id sc ∷ [])

-- the loops over the shares, of `List` (true) and of `Show` (false)
unfoldable pub share_entries : Bool → List Bytes → Map Bytes ShareConfig → List Entry
unfolding enabled_entries
share_entries only_enabled [] m = []
share_entries only_enabled (id ∷ ids) m =
    elim (lookup id m) [
      | none ↦ []
      | some sc ↦
          if only_enabled then enabled_entries id sc else memory_entry id sc ∷ disk_entry id sc ∷ []
    ]
    ++ share_entries only_enabled ids m

abbrev pub watermark_entry : Config → Entry
watermark_entry c =
    param_entry (codes "core.memory_cache_watermark") format_watermark c.memory_cache_watermark

abbrev pub prefetch_entry : Config → Entry
prefetch_entry c = param_entry (codes "protonfs.prefetch_blocks") itoa c.prefetch_blocks

abbrev pub mode_entry : Config → Entry
mode_entry c = param_entry (codes "protonfs.block_cache_mode") same_text c.block_cache_mode

abbrev pub interval_entry : Config → Entry
interval_entry c = param_entry (codes "protonfs.event_poll_interval") itoa c.event_poll_interval

-- `List`
unfoldable pub list : Config → List Entry
unfolding file_fields subsystem_entries share_entries sorted_keys
list c =
    file_fields (codes "core") sorted_core_fields c.core
    ++ (when (is_file c.memory_cache_watermark.source) (watermark_entry c)
        ++ (when (is_file c.prefetch_blocks.source) (prefetch_entry c)
            ++ (when (is_file c.block_cache_mode.source) (mode_entry c)
                ++ (when (is_file c.event_poll_interval.source) (interval_entry c)
                    ++ (subsystem_entries (sorted_keys c.subsystems) c.subsystems
                        ++ share_entries true (sorted_keys c.shares) c.shares)))))

-- `Show`
unfoldable pub show : Config → List Entry
unfolding all_fields subsystem_entries share_entries sorted_keys
show c =
    all_fields (codes "core") sorted_core_fields c.core
    ++ (watermark_entry c ∷ prefetch_entry c ∷ mode_entry c ∷ interval_entry c ∷ [])
    ++ (subsystem_entries (sorted_keys c.subsystems) c.subsystems
        ++ share_entries false (sorted_keys c.shares) c.shares)
