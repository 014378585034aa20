-- ===== src/Config/Mapping/Reset.antt =====
-- What `UnsetField` leaves behind, and which selectors `Get` and `UnsetField` take.
use proton_utils.Base.{
  true, none, some, [], ◌∷◌, ◌≡◌, ◌↔◌, refl, sym, ap, ◌∙◌, Bytes, codes, pos, ◌=?◌, list_eq, nat_eq,
  if◌then◌else◌, Result, ok, err, ◌>>=◌, Bool-cases, Option-cases, inl, inr, lookup, insert, delete,
  lookup-insert, lookup-delete, arith,
}
use proton_utils.Config.Param.{unset, value_of, reset, info}
use proton_utils.Config.Numbers.{itoa}
use proton_utils.Config.State.{Config, CoreConfig, ShareConfig, no_caching}
use proton_utils.Config.Selector.{Segment, Selector}
use proton_utils.Config.Fields.{
  format_watermark, ConfigError, CoreField, max_jobs_field, account_field, app_version_field,
  core_field, core_get, core_unset,
}
use proton_utils.Config.Mapping.{
  Namespace, in_core, in_protonfs, in_share, in_subsystem, namespace_of, is_watermark, fs_field,
  FsField, prefetch_blocks_field, block_cache_mode_field, event_poll_interval_field, ShareField,
  memory_cache_field, disk_cache_field, known, get_core_field, unset_core_field, get_fs, unset_fs,
  share_of, indexed, get_share, unset_share, is_disabled, put_share, unset_share_entry, serviced,
  shown_or, get_subsystem, is_bare, put_subsystem, unset_subsystem, get_in, get, unset_in,
  unset_field,
}

abbrev fs_default : Config → FsField → Bytes
fs_default c prefetch_blocks_field = itoa c.prefetch_blocks.dflt
fs_default c block_cache_mode_field = c.block_cache_mode.dflt
fs_default c event_poll_interval_field = itoa c.event_poll_interval.dflt

fs_unset-shown : (f : FsField) (c : Config) → get_fs (unset_fs c f) f ≡ fs_default c f
unfolding get_fs unset_fs value_of reset
fs_unset-shown prefetch_blocks_field c = refl
fs_unset-shown block_cache_mode_field c = refl
fs_unset-shown event_poll_interval_field c = refl

-- What `Get` shows for a setting that nobody set: the default, and for a service the core's value.
core_unset-shown :
    (f : CoreField) (cc : CoreConfig)
    → (core_get f (core_unset f cc)).shown ≡ (core_get f cc).shown_default
unfolding core_get core_unset info value_of
core_unset-shown max_jobs_field cc = refl
core_unset-shown account_field cc = refl
core_unset-shown app_version_field cc = refl

core_unset-source :
    (f : CoreField) (cc : CoreConfig) → (core_get f (core_unset f cc)).from_source ≡ unset
unfolding core_get core_unset info value_of
core_unset-source max_jobs_field cc = refl
core_unset-source account_field cc = refl
core_unset-source app_version_field cc = refl

pub get_subsystem-none :
    (svc : Bytes) (c : Config) (f : CoreField)
    → lookup svc c.subsystems ≡ none
    → get_subsystem svc c f ≡ (core_get f c.core).shown
unfolding get_subsystem
get_subsystem-none svc c f e = rw (get_subsystem, e) refl

pub get_subsystem-some :
    (svc : Bytes) (c : Config) (f : CoreField) (sub : CoreConfig)
    → lookup svc c.subsystems ≡ some sub
    → get_subsystem svc c f ≡ shown_or (core_get f sub) (core_get f c.core).shown
unfolding get_subsystem
get_subsystem-some svc c f sub e = rw (get_subsystem, e) refl

pub refl_key : (k : Bytes) → (k =? k) ≡ true
refl_key k = (list_eq.beq_iff k k).1 refl

unset_put-subsystem :
    (svc : Bytes) (c : Config) (f : CoreField) (sub : CoreConfig)
    → get_subsystem svc
        (record c { subsystems = put_subsystem svc (core_unset f sub) c.subsystems })
        f
      ≡ (core_get f c.core).shown
unfolding put_subsystem
unset_put-subsystem svc c f sub = elim (Bool-cases (is_bare (core_unset f sub))) [
  | inl bare ↦
      rw (put_subsystem, bare)
        (get_subsystem-none svc (record c { subsystems = delete svc c.subsystems }) f
          (lookup-delete svc svc c.subsystems ∙ rw (refl_key svc) refl))
  | inr kept ↦
      rw (put_subsystem, kept)
        (get_subsystem-some svc
            (record c { subsystems = insert svc (core_unset f sub) c.subsystems }) f
            (core_unset f sub)
            (lookup-insert svc svc (core_unset f sub) c.subsystems ∙ rw (refl_key svc) refl)
          ∙ rw (core_unset-source f sub) refl)
]

get-unset_subsystem :
    (svc : Bytes) (c : Config) (f : CoreField)
    → get_subsystem svc (unset_subsystem svc c f) f ≡ (core_get f c.core).shown
unfolding unset_subsystem
get-unset_subsystem svc c f = elim (Option-cases (lookup svc c.subsystems)) [
  | inl e ↦ rw (unset_subsystem, e) (get_subsystem-none svc c f e)
  | inr (sub, e) ↦ rw (unset_subsystem, e) (unset_put-subsystem svc c f sub)
]

pub share_of-none :
    (id : Bytes) (c : Config) → lookup id c.shares ≡ none → share_of id c ≡ no_caching
share_of-none id c e = rw (share_of, e) refl

pub share_of-some :
    (id : Bytes) (c : Config) (sc : ShareConfig) → lookup id c.shares ≡ some sc → share_of id c ≡ sc
share_of-some id c sc e = rw (share_of, e) refl

share_unset-shown :
    (f : ShareField) (sc : ShareConfig) → get_share (unset_share sc f) f ≡ get_share no_caching f
unfolding get_share unset_share
share_unset-shown memory_cache_field sc = refl
share_unset-shown disk_cache_field sc = refl

share_put-unset :
    (id : Bytes) (c : Config) (f : ShareField) (sc : ShareConfig)
    → get_share (share_of id (record c { shares = put_share id (unset_share sc f) c.shares })) f
      ≡ get_share no_caching f
unfolding put_share
share_put-unset id c f sc =
    elim (Bool-cases (is_disabled (unset_share sc f).memory_cache (unset_share sc f).disk_cache)) [
      | inl bare ↦
          rw (put_share, bare)
            (ap (λ x. get_share x f)
              (share_of-none id (record c { shares = delete id c.shares })
                (lookup-delete id id c.shares ∙ rw (refl_key id) refl)))
      | inr kept ↦
          rw (put_share, kept)
            (ap (λ x. get_share x f)
                (share_of-some id (record c { shares = insert id (unset_share sc f) c.shares })
                  (unset_share sc f)
                  (lookup-insert id id (unset_share sc f) c.shares ∙ rw (refl_key id) refl))
              ∙ share_unset-shown f sc)
    ]

get-unset_share :
    (id : Bytes) (c : Config) (f : ShareField)
    → get_share (share_of id (unset_share_entry id f c)) f ≡ get_share no_caching f
unfolding unset_share_entry
get-unset_share id c f = elim (Option-cases (lookup id c.shares)) [
  | inl e ↦ rw (unset_share_entry, e) (rw (share_of, e) refl)
  | inr (sc, e) ↦ rw (unset_share_entry, e) (share_put-unset id c f sc)
]

-- The text of the default of a setting; a service's is the core's value, and a share's is disabled.
unfoldable pub default_in : Namespace → Config → Segment → Bytes → Result ConfigError Bytes
default_in in_core c s field =
    if is_watermark field
    then ok (format_watermark c.memory_cache_watermark.dflt)
    else (known (codes "core") field (core_field field) >>= λ f.
        ok (core_get f c.core).shown_default)
default_in in_protonfs c s field =
    known (codes "protonfs") field (fs_field field) >>= λ f. ok (fs_default c f)
default_in in_share c s field = indexed s field >>= λ f. ok (get_share no_caching f)
default_in in_subsystem c s field = serviced s.name field >>= λ f. ok (core_get f c.core).shown

-- What a change shows, where the change and the reading look up their field alike.
pub shown_after :
    {F D B : Type 0} (m : Result ConfigError F) (change : F → D) (d : D) (shown : D → F → B)
    (want : F → B)
    → ((f : F) → shown (change f) f ≡ want f)
    → (m >>= λ f. ok (change f)) ≡ ok d
    → (m >>= λ f. ok (shown d f)) ≡ (m >>= λ f. ok (want f))
shown_after (ok f) change d shown want p h =
    let q : change f ≡ d = cc h in ap ok (ap (λ x. shown x f) (sym q) ∙ p f)
shown_after (err e) change d shown want p h = refl

unset_core-watermark :
    (c : Config) (field : Bytes)
    → is_watermark field ≡ true
    → unset_core_field c field
      ≡ ok (record c { memory_cache_watermark = reset (pos 0, pos 0) c.memory_cache_watermark })
unfolding unset_core_field
unset_core-watermark c field wm = rw (unset_core_field, wm) refl

get-unset_in :
    (n : Namespace) (c d : Config) (s : Segment) (field : Bytes)
    → unset_in n c s field ≡ ok d
    → get_in n d s field ≡ default_in n c s field
unfolding get_in unset_in get_core_field unset_core_field default_in value_of reset
get-unset_in in_core c d s field h = elim (Bool-cases (is_watermark field)) [
  | inl wm ↦
      let q : record c { memory_cache_watermark = reset (pos 0, pos 0) c.memory_cache_watermark }
          ≡ d =
        cc (sym (unset_core-watermark c field wm) ∙ h) in
      rw (get_core_field, wm)
        (ap (λ x. ok (format_watermark (value_of x.memory_cache_watermark))) (sym q))
  | inr other ↦ rw other (
      shown_after (known (codes "core") field (core_field field))
        (λ f. record c { core = core_unset f c.core }) d (λ x f. (core_get f x.core).shown)
        (λ f. (core_get f c.core).shown_default) (λ f. core_unset-shown f c.core)
        (sym (rw other refl) ∙ h))
]
get-unset_in in_protonfs c d s field h =
    shown_after (known (codes "protonfs") field (fs_field field)) (unset_fs c) d get_fs
      (fs_default c) (λ f. fs_unset-shown f c) h
get-unset_in in_share c d s field h =
    shown_after (indexed s field) (λ f. unset_share_entry s.index_val f c) d
      (λ x f. get_share (share_of s.index_val x) f) (get_share no_caching)
      (λ f. get-unset_share s.index_val c f) h
get-unset_in in_subsystem c d s field h =
    shown_after (serviced s.name field) (unset_subsystem s.name c) d (get_subsystem s.name)
      (λ f. (core_get f c.core).shown) (get-unset_subsystem s.name c) h

-- `UnsetField` takes a selector exactly when `Get` does, with the same error.
accepts-alike :
    (n : Namespace) (c : Config) (s : Segment) (field : Bytes) (e : ConfigError)
    → (get_in n c s field ≡ err e) ↔ (unset_in n c s field ≡ err e)
unfolding get_in unset_in get_core_field unset_core_field
accepts-alike in_core c s field e = ground arith
accepts-alike in_protonfs c s field e = ground arith
accepts-alike in_share c s field e = ground arith
accepts-alike in_subsystem c s field e = ground arith

-- What `Get` shows after `UnsetField` is the setting's default; for a service it is the core's
-- value, and for a share it is `disabled`.
pub get-unset_field :
    (c d : Config) (s t : Segment) (rest : Selector)
    → unset_field c (s ∷ t ∷ rest) ≡ ok d
    → get d (s ∷ t ∷ rest) ≡ default_in (namespace_of s.name) c s t.name
unfolding get unset_field
get-unset_field c d s t rest h = get-unset_in (namespace_of s.name) c d s t.name h

-- `Get` and `UnsetField` refuse the same selectors, with the same error.
pub unset_field-get-refuse :
    (c : Config) (sel : Selector) (e : ConfigError)
    → (get c sel ≡ err e) ↔ (unset_field c sel ≡ err e)
unfolding get unset_field
unset_field-get-refuse c [] e = ground arith
unset_field-get-refuse c (s ∷ []) e = ground arith
unset_field-get-refuse c (s ∷ t ∷ rest) e = accepts-alike (namespace_of s.name) c s t.name e
