-- ===== src/Config/Listing/Readable.antt =====
-- Every entry of `List` can be read: its selector parses, and `Get` shows its value.
use proton_utils.Base.{
  Bool, true, false, some, List, [], ◌∷◌, ◌++◌, ◌≡◌, sym, ap, ◌∙◌, Bytes, codes, list_eq, nat_eq,
  lookup, ok, Bool-cases, Option-cases, inl, inr, All, All-append, append_assoc, append-nil, arith,
}
use proton_utils.Config.State.{Config, ShareConfig, is_service}
use proton_utils.Config.Selector.{Selector, string, segment_string, parse}
use proton_utils.Config.Selector.RoundTrip.{IsSelector, Lacks, parse-string}
use proton_utils.Config.Mapping.{memory_cache_field, disk_cache_field, share_field, get_share}
use proton_utils.Config.Mapping.Reset.{share_of-some}
use proton_utils.Config.Listing.Settings.{
  IsReadable, plain, reader, watermark-IsReadable, prefetch-IsReadable, mode-IsReadable,
  interval-IsReadable, core_fields-IsReadable, subsystem_entries-IsReadable,
}
use proton_utils.Config.Listing.{
  Entry, insert_sorted, sort_strings, string_le, keys, sorted_keys, sorted_core_fields, is_file,
  when, file_fields, subsystem_entries, memory_entry, disk_entry, enabled_entries, share_entries,
  list,
}

-- A share's ID can stand in a selector: it is not empty, and has no closing bracket.
abbrev pub IsShareId : Bytes → Type 0
IsShareId [] = ⊥
IsShareId (c ∷ id) = Lacks 93 (c ∷ id)

abbrev share_selector : Bytes → Bytes → Selector
share_selector id field =
    record { name = codes "share"; index_key = codes "id"; index_val = id } ∷ plain field ∷ []

share-string :
    (id field : Bytes)
    → string (share_selector id field) ≡ codes "share[id=" ++ (id ++ codes "]." ++ field)
unfolding string segment_string
share-string id field = simp (append_assoc, append-nil)

memory-IsSelector :
    (id : Bytes) → IsShareId id → IsSelector (share_selector id (codes "memory_cache"))
memory-IsSelector [] h = absurd h
memory-IsSelector (c ∷ id) h = ground arith

disk-IsSelector : (id : Bytes) → IsShareId id → IsSelector (share_selector id (codes "disk_cache"))
disk-IsSelector [] h = absurd h
disk-IsSelector (c ∷ id) h = ground arith

module _ (c : Config) (id : Bytes) (sc : ShareConfig) (valid : IsShareId id)
    (there : lookup id c.shares ≡ some sc) where
  memory-IsReadable : IsReadable c (memory_entry id sc)
  unfolding reader share_field get_share
  memory-IsReadable = record {
    sel = share_selector id (codes "memory_cache");
    parses =
        ap parse (sym (share-string id (codes "memory_cache")))
        ∙ parse-string (share_selector id (codes "memory_cache")) (memory-IsSelector id valid);
    shows = ap (λ x. ok (get_share x memory_cache_field)) (share_of-some id c sc there);
  }

  disk-IsReadable : IsReadable c (disk_entry id sc)
  unfolding reader share_field get_share
  disk-IsReadable = record {
    sel = share_selector id (codes "disk_cache");
    parses =
        ap parse (sym (share-string id (codes "disk_cache")))
        ∙ parse-string (share_selector id (codes "disk_cache")) (disk-IsSelector id valid);
    shows = ap (λ x. ok (get_share x disk_cache_field)) (share_of-some id c sc there);
  }

  enabled-IsReadable : All (IsReadable c) (enabled_entries id sc)
  unfolding enabled_entries
  enabled-IsReadable = ground (arith, memory-IsReadable, disk-IsReadable)

share_entries-IsReadable :
    (c : Config) (ids : List Bytes)
    → All IsShareId ids
    → All (IsReadable c) (share_entries true ids c.shares)
unfolding share_entries
share_entries-IsReadable c [] h = tt
share_entries-IsReadable c (id ∷ ids) h = elim (Option-cases (lookup id c.shares)) [
  | inl e ↦ rw (share_entries, e) (share_entries-IsReadable c ids h.1)
  | inr (sc, e) ↦
      rw (share_entries, e)
        (All-append (IsReadable c) (enabled_entries id sc) (share_entries true ids c.shares)
          (enabled-IsReadable c id sc h.0 e) (share_entries-IsReadable c ids h.1))
]

-- Sorting keeps what holds of each key.
insert_sorted-All :
    (P : Bytes → Type 0) (k : Bytes) (ks : List Bytes) → P k → All P ks → All P (insert_sorted k ks)
unfolding insert_sorted
insert_sorted-All P k [] p h = (p, tt)
insert_sorted-All P k (j ∷ ks) p h = elim (Bool-cases (string_le k j)) [
  | inl before ↦ rw before (p, h)
  | inr behind ↦ rw behind (h.0, insert_sorted-All P k ks p h.1)
]

sort_strings-All : (P : Bytes → Type 0) (ks : List Bytes) → All P ks → All P (sort_strings ks)
unfolding sort_strings
sort_strings-All P [] h = tt
sort_strings-All P (k ∷ ks) h =
    insert_sorted-All P k (sort_strings ks) h.0 (sort_strings-All P ks h.1)

when-append :
    (c : Config) (b : Bool) (e : Entry) (rest : List Entry)
    → IsReadable c e
    → All (IsReadable c) rest
    → All (IsReadable c) (when b e ++ rest)
when-append c true e rest h k = (h, k)
when-append c false e rest h k = k

-- Each entry of `List` has a selector that parses, by which `Get` shows the entry's value, if
-- every subsystem is named for a service and every share's ID can stand in a selector.
pub list-IsReadable :
    (c : Config)
    → All (λ svc. is_service svc ≡ true) (keys c.subsystems)
    → All IsShareId (keys c.shares)
    → All (IsReadable c) (list c)
unfolding list sorted_keys
list-IsReadable c services ids =
    let services_read =
      subsystem_entries-IsReadable c (sorted_keys c.subsystems)
        (sort_strings-All _ (keys c.subsystems) services) in
    let shares_read =
      share_entries-IsReadable c (sorted_keys c.shares)
        (sort_strings-All IsShareId (keys c.shares) ids) in
    All-append (IsReadable c) (file_fields (codes "core") sorted_core_fields c.core) _
      (core_fields-IsReadable c)
      (when-append c (is_file c.memory_cache_watermark.source) _ _ (watermark-IsReadable c) (
        when-append c (is_file c.prefetch_blocks.source) _ _ (prefetch-IsReadable c) (
          when-append c (is_file c.block_cache_mode.source) _ _ (mode-IsReadable c) (
            when-append c (is_file c.event_poll_interval.source) _ _ (interval-IsReadable c) (
              All-append (IsReadable c) (subsystem_entries (sorted_keys c.subsystems) c.subsystems)
                (share_entries true (sorted_keys c.shares) c.shares) services_read shares_read)))))
