-- ===== src/Config/Fields.antt =====
-- The table of the settings and the parsers of their values, api/config/mapping.go. A value's
-- dynamic type in the table of `ParamDef`s is the type `ValueOf` of its field.
use proton_utils.Base.{
  Bool, true, false, Option, none, some, [], ◌∷◌, ◌++◌, Bytes, codes, ℤ, pos, negsuc, ◌=?◌, list_eq,
  nat_eq, if◌then◌else◌, Result, ok, err, ◌||◌, not, leb, is_neg,
}
use proton_utils.Config.Param.{ParamInfo, set_file, reset, info}
use proton_utils.Config.Numbers.{itoa, atoi, trim_space, split_colon}
use proton_utils.Config.State.{
  CoreConfig, MemoryCacheLevel, cache_disabled, cache_link_name, cache_metadata, DiskCacheLevel,
  disk_cache_disabled, disk_cache_object_store,
}

-- The errors, with the texts that their messages quote.
pub data ConfigError : Type 0 where
  too_few_segments no_index empty_value : ConfigError
  unknown_namespace not_positive not_non_negative : Bytes → ConfigError
  unknown_field : Bytes → Bytes → ConfigError
  bad_watermark bad_mode bad_interval bad_memory_cache bad_disk_cache : Bytes → ConfigError

-- The keys of `coreFields`.
pub data CoreField : Type 0 where
  max_jobs_field account_field app_version_field : CoreField

unfoldable pub core_field : Bytes → Option CoreField
core_field name =
    if name =? codes "max_jobs"
    then some max_jobs_field
    else if name =? codes "account"
    then some account_field
    else if name =? codes "app_version"
    then some app_version_field
    else none

abbrev pub ValueOf : CoreField → Type 0
ValueOf max_jobs_field = ℤ
ValueOf account_field = Bytes
ValueOf app_version_field = Bytes

abbrev pub is_positive : ℤ → Bool
is_positive (pos n) = not (leb n 0)
is_positive (negsuc n) = false

-- `parsePositiveInt`
unfoldable pub parse_positive_int : Bytes → Result ConfigError ℤ
parse_positive_int s = elim (atoi s) [
  | none ↦ err (not_positive s)
  | some n ↦ if is_positive n then ok n else err (not_positive s)
]

-- `parseNonNegativeInt`
unfoldable pub parse_non_negative_int : Bytes → Result ConfigError ℤ
parse_non_negative_int s = elim (atoi s) [
  | none ↦ err (not_non_negative s)
  | some n ↦ if is_neg n then err (not_non_negative s) else ok n
]

-- `parseNonEmptyString`
unfoldable pub parse_non_empty_string : Bytes → Result ConfigError Bytes
parse_non_empty_string [] = err empty_value
parse_non_empty_string (c ∷ s) = ok (c ∷ s)

-- hi < lo, once lo is not negative
abbrev pub is_below : ℤ → ℤ → Bool
is_below (pos h) (pos l) = not (leb l h)
is_below (pos h) (negsuc l) = false
is_below (negsuc h) (pos l) = true
is_below (negsuc h) (negsuc l) = not (leb h l)

abbrev pub check_watermark : Bytes → Option ℤ → Option ℤ → Result ConfigError (ℤ × ℤ)
check_watermark s (some lo) (some hi) =
    if is_neg lo || is_below hi lo then err (bad_watermark s) else ok (lo, hi)
check_watermark s _ _ = err (bad_watermark s)

-- `parseWatermark`; its five messages are one error here
unfoldable pub parse_watermark : Bytes → Result ConfigError (ℤ × ℤ)
parse_watermark s = elim (split_colon s) [
  | none ↦ err (bad_watermark s)
  | some (a, b) ↦ check_watermark s (atoi (trim_space a)) (atoi (trim_space b))
]

-- `formatWatermark`
unfoldable pub format_watermark : ℤ × ℤ → Bytes
format_watermark (lo, hi) = itoa lo ++ 58 ∷ itoa hi

-- `parseMemoryCacheLevel`
unfoldable pub parse_memory_cache_level : Bytes → Result ConfigError MemoryCacheLevel
parse_memory_cache_level s =
    if s =? codes "disabled"
    then ok cache_disabled
    else if s =? codes "linkname"
    then ok cache_link_name
    else if s =? codes "metadata"
    then ok cache_metadata
    else err (bad_memory_cache s)

-- `parseDiskCacheLevel`
unfoldable pub parse_disk_cache_level : Bytes → Result ConfigError DiskCacheLevel
parse_disk_cache_level s =
    if s =? codes "disabled"
    then ok disk_cache_disabled
    else if s =? codes "objectstore"
    then ok disk_cache_object_store
    else err (bad_disk_cache s)

-- The columns of `coreFields`: `Parse`, `Get`, `Set` and `Unset`.
unfoldable pub core_parse : (f : CoreField) → Bytes → Result ConfigError (ValueOf f)
unfolding parse_positive_int parse_non_empty_string
core_parse max_jobs_field s = parse_positive_int s
core_parse account_field s = parse_non_empty_string s
core_parse app_version_field s = parse_non_empty_string s

unfoldable pub core_get : CoreField → CoreConfig → ParamInfo
unfolding info
core_get max_jobs_field cc = info itoa cc.max_jobs
core_get account_field cc = info (λ s. s) cc.account
core_get app_version_field cc = info (λ s. s) cc.app_version

unfoldable pub core_set : (f : CoreField) → ValueOf f → CoreConfig → CoreConfig
unfolding set_file
core_set max_jobs_field v cc = record cc { max_jobs = set_file v cc.max_jobs }
core_set account_field v cc = record cc { account = set_file v cc.account }
core_set app_version_field v cc = record cc { app_version = set_file v cc.app_version }

unfoldable pub core_unset : CoreField → CoreConfig → CoreConfig
unfolding reset
core_unset max_jobs_field cc = record cc { max_jobs = reset (pos 0) cc.max_jobs }
core_unset account_field cc = record cc { account = reset [] cc.account }
core_unset app_version_field cc = record cc { app_version = reset [] cc.app_version }
