-- ===== src/Tests/Settings.antt =====
-- Selectors, numbers, and a configuration with a share and a subsystem.
use proton_utils.Base.{
  delete, list_beq, ◌≡◌, refl, some, [], ◌∷◌, Bytes, codes, ok, Result, arith, insert, lookup,
  nat_eq, list_eq, pos, All,
}
use proton_utils.Config.Param.{set_file, new_param, value_of}
use proton_utils.Config.State.{
  Config, default_config, default_core, memory_cache_string, cache_metadata,
}
use proton_utils.Config.Fields.{
  core_field, core_parse, core_get, core_set, core_unset, parse_memory_cache_level,
}
use proton_utils.Config.Selector.{Selector, Segment, SelectorError, string, parse}
use proton_utils.Config.Selector.RoundTrip.{parse-string}
use proton_utils.Config.Selector.Total.{parse-total}
use proton_utils.Config.Mapping.{
  get, set, unset_field, namespace_of, get_in, set_in, unset_in, get_core_field, set_core_field,
  unset_core_field, share_field, set_share, get_share, put_share, unset_share_entry, unset_share,
}
use proton_utils.Config.Mapping.ReadBack.{get-set}
use proton_utils.Config.Mapping.Reset.{default_in, get-unset_field}
use proton_utils.Config.Listing.{list, keys}
use proton_utils.Config.Listing.Settings.{IsReadable}
use proton_utils.Config.Listing.Readable.{list-IsReadable}

program : Unit {0}
unfolding delete list_beq keys default_in default_config default_core new_param set_file get set
    unset_field namespace_of get_in set_in unset_in get_core_field set_core_field unset_core_field
    core_field core_parse core_get core_set core_unset share_field set_share get_share put_share
    unset_share_entry unset_share parse_memory_cache_level memory_cache_string insert lookup
    value_of
program = tt

abbrev plain : Bytes → Segment
plain name = record { name = name; index_key = []; index_val = [] }

abbrev share_memory : Selector
share_memory =
    record { name = codes "share"; index_key = codes "id"; index_val = codes "x1" }
    ∷ plain (codes "memory_cache")
    ∷ []

abbrev drive_account : Selector
drive_account = plain (codes "drive") ∷ plain (codes "account") ∷ []

abbrev defaults : Config
unfolding program
defaults = default_config (pos 8)

abbrev with_share : Config
with_share = record defaults {
  shares =
      (
        codes "x1",
        record {
          memory_cache = cache_metadata;
          disk_cache = proton_utils.Config.State.disk_cache_disabled;
        },
      )
      ∷ [];
}

sets_share : set (pos 8) defaults share_memory (codes "metadata") ≡ ok with_share
unfolding program
sets_share = refl

get-set_example :
    (shown : Bytes) × (get with_share share_memory ≡ ok shown)
    × (set (pos 8) defaults share_memory shown ≡ ok with_share)
get-set_example = get-set (pos 8) defaults with_share share_memory (codes "metadata") sets_share

unsets_share : unset_field with_share share_memory ≡ ok defaults
unfolding program
unsets_share = refl

get-unset_field_example : get defaults share_memory ≡ ok (codes "disabled")
unfolding program
get-unset_field_example =
    get-unset_field with_share defaults
      (record { name = codes "share"; index_key = codes "id"; index_val = codes "x1" })
      (plain (codes "memory_cache")) [] unsets_share

parse-string_example : parse (string share_memory) ≡ some (ok share_memory)
parse-string_example = parse-string share_memory (ground arith)

parse-total_example : (r : Result SelectorError Selector) × (parse (codes "a[b") ≡ some r)
parse-total_example = parse-total (codes "a[b")

list-IsReadable_example : All (IsReadable with_share) (list with_share)
unfolding program
list-IsReadable_example = list-IsReadable with_share tt (ground arith)
