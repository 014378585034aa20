-- ===== src/Config/Listing/Settings.antt =====
-- The entries of `List` that are not about shares can be read.
use proton_utils.Base.{
  Bool, true, false, some, List, [], ◌∷◌, ◌++◌, ◌≡◌, ◌⊎◌, refl, ap, ◌∙◌, Bytes, codes, list_eq,
  list_beq, list_beq_iff, nat_eq, lookup, ok, Option-cases, inl, inr, All, All-append, arith,
}
use proton_utils.Config.Param.{ParamInfo}
use proton_utils.Config.State.{Config, CoreConfig, is_service}
use proton_utils.Config.Selector.{
  Segment, Selector, parse, parse_loop, parse_segment, parse_ident, parse_index, span_ident,
}
use proton_utils.Config.Fields.{CoreField, core_field, core_get}
use proton_utils.Config.Mapping.{
  get, get_in, namespace_of, get_core_field, get_fs, fs_field, get_subsystem, shown_or,
}
use proton_utils.Config.Mapping.Reset.{get_subsystem-some}
use proton_utils.Config.Listing.{
  Entry, sorted_core_fields, is_file, when, field_entry, file_fields, subsystem_entries,
  watermark_entry, prefetch_entry, mode_entry, interval_entry,
}

-- The entry's selector parses, and `Get` by it shows the entry's value.
pub record IsReadable (c : Config) (e : Entry) : Type 0 where
  pub sel : Selector
  pub parses : parse e.selector ≡ some (ok sel)
  pub shows : get c sel ≡ ok e.value

abbrev pub plain : Bytes → Segment
plain name = record { name = name; index_key = []; index_val = [] }

when-All :
    (c : Config) (b : Bool) (e : Entry)
    → (b ≡ true → IsReadable c e)
    → All (IsReadable c) (when b e)
when-All c true e h = (h refl, tt)
when-All c false e h = tt

parser : Unit {0}
unfolding parse parse_loop parse_segment parse_ident parse_index span_ident
parser = tt

unfoldable pub reader : Unit {0}
unfolding get get_in namespace_of get_core_field get_fs fs_field core_field list_beq
reader = tt

file_fields-All :
    (c : Config) (ns : Bytes) (fs : List (Bytes × CoreField)) (cc : CoreConfig)
    → All
        (λ (p : Bytes × CoreField).
          is_file (core_get p.1 cc).from_source ≡ true → IsReadable c (field_entry ns p.0 p.1 cc))
        fs
    → All (IsReadable c) (file_fields ns fs cc)
unfolding file_fields
file_fields-All c ns [] cc h = tt
file_fields-All c ns ((name, f) ∷ fs) cc h =
    let from_file = is_file (core_get f cc).from_source in
    let e = field_entry ns name f cc in
    All-append (IsReadable c) (when from_file e) (file_fields ns fs cc) (when-All c from_file e h.0)
      (file_fields-All c ns fs cc h.1)

pub core_fields-IsReadable :
    (c : Config) → All (IsReadable c) (file_fields (codes "core") sorted_core_fields c.core)
unfolding parser reader
core_fields-IsReadable c = file_fields-All c (codes "core") sorted_core_fields c.core (
  (λ _. record {
    sel = plain (codes "core") ∷ plain (codes "account") ∷ [];
    parses = refl;
    shows = refl;
  }),
  (
    (λ _. record {
      sel = plain (codes "core") ∷ plain (codes "app_version") ∷ [];
      parses = refl;
      shows = refl;
    }),
    (
      (λ _. record {
        sel = plain (codes "core") ∷ plain (codes "max_jobs") ∷ [];
        parses = refl;
        shows = refl;
      }),
      tt,
    ),
  ),
)

pub watermark-IsReadable : (c : Config) → IsReadable c (watermark_entry c)
unfolding parser reader
watermark-IsReadable c = record {
  sel = plain (codes "core") ∷ plain (codes "memory_cache_watermark") ∷ [];
  parses = refl;
  shows = refl;
}

pub prefetch-IsReadable : (c : Config) → IsReadable c (prefetch_entry c)
unfolding parser reader
prefetch-IsReadable c = record {
  sel = plain (codes "protonfs") ∷ plain (codes "prefetch_blocks") ∷ [];
  parses = refl;
  shows = refl;
}

pub mode-IsReadable : (c : Config) → IsReadable c (mode_entry c)
unfolding parser reader
mode-IsReadable c = record {
  sel = plain (codes "protonfs") ∷ plain (codes "block_cache_mode") ∷ [];
  parses = refl;
  shows = refl;
}

pub interval-IsReadable : (c : Config) → IsReadable c (interval_entry c)
unfolding parser reader
interval-IsReadable c = record {
  sel = plain (codes "protonfs") ∷ plain (codes "event_poll_interval") ∷ [];
  parses = refl;
  shows = refl;
}

is_file-shown :
    (i : ParamInfo) (text : Bytes) → is_file i.from_source ≡ true → shown_or i text ≡ i.shown
is_file-shown i text h = ground arith

-- A service's own setting, where it comes from the file.
module _ (c : Config) (svc : Bytes) (sub : CoreConfig) (there : lookup svc c.subsystems ≡ some sub)
    (service : is_service svc ≡ true) where
  service-shows :
      (f : CoreField)
      → is_file (core_get f sub).from_source ≡ true
      → get_subsystem svc c f ≡ (core_get f sub).shown
  service-shows f h =
      get_subsystem-some svc c f sub there
      ∙ is_file-shown (core_get f sub) (core_get f c.core).shown h

service-name :
    (svc : Bytes)
    → is_service svc ≡ true
    → (svc ≡ codes "account") ⊎ ((svc ≡ codes "drive") ⊎ (svc ≡ codes "lumo"))
service-name svc h = ground (
  arith,
  list_beq_iff svc (codes "account"),
  list_beq_iff svc (codes "drive"),
  list_beq_iff svc (codes "lumo"),
)

service-parses :
    (svc : Bytes)
    → is_service svc ≡ true
    → All
        (λ (p : Bytes × CoreField).
          parse (svc ++ 46 ∷ p.0) ≡ some (ok (plain svc ∷ plain p.0 ∷ [])))
        sorted_core_fields
unfolding parser
service-parses svc h = elim (service-name svc h) [
  | inl e ↦ rw e (refl, (refl, (refl, tt)))
  | inr (inl e) ↦ rw e (refl, (refl, (refl, tt)))
  | inr (inr e) ↦ rw e (refl, (refl, (refl, tt)))
]

service-gets :
    (c : Config) (svc : Bytes)
    → is_service svc ≡ true
    → All
        (λ (p : Bytes × CoreField).
          get c (plain svc ∷ plain p.0 ∷ []) ≡ ok (get_subsystem svc c p.1))
        sorted_core_fields
unfolding reader
service-gets c svc h = elim (service-name svc h) [
  | inl e ↦ rw e (refl, (refl, (refl, tt)))
  | inr (inl e) ↦ rw e (refl, (refl, (refl, tt)))
  | inr (inr e) ↦ rw e (refl, (refl, (refl, tt)))
]

service_fields :
    (c : Config) (svc : Bytes) (sub : CoreConfig) (fs : List (Bytes × CoreField))
    → lookup svc c.subsystems ≡ some sub
    → All
        (λ (p : Bytes × CoreField).
          parse (svc ++ 46 ∷ p.0) ≡ some (ok (plain svc ∷ plain p.0 ∷ [])))
        fs
    → All
        (λ (p : Bytes × CoreField).
          get c (plain svc ∷ plain p.0 ∷ []) ≡ ok (get_subsystem svc c p.1))
        fs
    → All
        (λ (p : Bytes × CoreField).
          is_file (core_get p.1 sub).from_source ≡ true
          → IsReadable c (field_entry svc p.0 p.1 sub))
        fs
service_fields c svc sub [] e p g = tt
service_fields c svc sub ((name, f) ∷ fs) e p g = (
  (λ h. record {
    sel = plain svc ∷ plain name ∷ [];
    parses = p.0;
    shows =
        g.0
        ∙ ap ok (
            get_subsystem-some svc c f sub e
            ∙ is_file-shown (core_get f sub) (core_get f c.core).shown h);
  }),
  service_fields c svc sub fs e p.1 g.1,
)

pub subsystem_entries-IsReadable :
    (c : Config) (svcs : List Bytes)
    → All (λ svc. is_service svc ≡ true) svcs
    → All (IsReadable c) (subsystem_entries svcs c.subsystems)
unfolding subsystem_entries
subsystem_entries-IsReadable c [] h = tt
subsystem_entries-IsReadable c (svc ∷ svcs) h = elim (Option-cases (lookup svc c.subsystems)) [
  | inl e ↦ rw (subsystem_entries, e) (subsystem_entries-IsReadable c svcs h.1)
  | inr (sub, e) ↦
      rw (subsystem_entries, e)
        (All-append (IsReadable c) (file_fields svc sorted_core_fields sub)
          (subsystem_entries svcs c.subsystems)
          (file_fields-All c svc sorted_core_fields sub (
            service_fields c svc sub sorted_core_fields e (service-parses svc h.0)
              (service-gets c svc h.0)))
          (subsystem_entries-IsReadable c svcs h.1))
]
