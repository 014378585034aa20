-- ===== src/Config/State.antt =====
-- The configuration's data: api/config/config.go, api/cache_config.go and the names of
-- api/service_config.go.
use proton_utils.Base.{
  Bool, none, some, [], Bytes, codes, Map, ℤ, pos, ◌=?◌, list_eq, nat_eq, if◌then◌else◌, lookup,
  ◌||◌,
}
use proton_utils.Config.Param.{Param, new_param, value_of, is_set}

pub data MemoryCacheLevel : Type 0 where
  cache_disabled cache_link_name cache_metadata : MemoryCacheLevel

pub data DiskCacheLevel : Type 0 where
  disk_cache_disabled disk_cache_object_store : DiskCacheLevel

-- `MemoryCacheLevel.String`
unfoldable pub memory_cache_string : MemoryCacheLevel → Bytes
memory_cache_string cache_link_name = codes "linkname"
memory_cache_string cache_metadata = codes "metadata"
memory_cache_string cache_disabled = codes "disabled"

-- `DiskCacheLevel.String`
unfoldable pub disk_cache_string : DiskCacheLevel → Bytes
disk_cache_string disk_cache_object_store = codes "objectstore"
disk_cache_string disk_cache_disabled = codes "disabled"

pub record ShareConfig : Type 0 where
  pub memory_cache : MemoryCacheLevel
  pub disk_cache : DiskCacheLevel

-- the zero value
abbrev pub no_caching : ShareConfig
no_caching = record { memory_cache = cache_disabled; disk_cache = disk_cache_disabled }

pub record CoreConfig : Type 0 where
  pub max_jobs : Param ℤ
  pub account : Param Bytes
  pub app_version : Param Bytes

pub record Config : Type 0 where
  pub core : CoreConfig
  pub memory_cache_watermark : Param (ℤ × ℤ)
  pub prefetch_blocks : Param ℤ
  pub block_cache_mode : Param Bytes
  pub event_poll_interval : Param ℤ
  pub shares : Map Bytes ShareConfig
  pub subsystems : Map Bytes CoreConfig

-- The three settings of a fresh `CoreConfig`; `api.DefaultMaxWorkers` asks the machine.
unfoldable pub default_core : ℤ → CoreConfig
unfolding new_param
default_core default_max_workers = record {
  max_jobs = new_param (pos 0) default_max_workers;
  account = new_param [] (codes "default");
  app_version = new_param [] [];
}

-- `DefaultConfig`
unfoldable pub default_config : ℤ → Config
unfolding default_core new_param
default_config default_max_workers = record {
  core = default_core default_max_workers;
  memory_cache_watermark = new_param (pos 0, pos 0) (pos 0, pos 0);
  prefetch_blocks = new_param (pos 0) (pos 1);
  block_cache_mode = new_param [] (codes "encrypted");
  event_poll_interval = new_param (pos 0) (pos 5);
  shares = [];
  subsystems = [];
}

-- `Config.DefaultAccount`
unfoldable pub default_account : Config → Bytes → Bytes
unfolding is_set value_of
default_account c service =
    let core = if is_set c.core.account then value_of c.core.account else c.core.account.dflt in
    elim (lookup service c.subsystems) [
      | none ↦ core
      | some sub ↦ if is_set sub.account then value_of sub.account else core
    ]

-- `LookupService`, of which only the success is asked here
abbrev pub is_service : Bytes → Bool
is_service name = name =? codes "account" || name =? codes "drive" || name =? codes "lumo"
