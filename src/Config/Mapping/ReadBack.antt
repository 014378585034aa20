-- ===== src/Config/Mapping/ReadBack.antt =====
-- What `Get` shows of a setting that `Set` has written.
use proton_utils.Base.{
  [], ◌∷◌, ◌≡◌, refl, sym, ◌∙◌, Bytes, codes, ℤ, ◌=?◌, nat_eq, list_eq, Result, ok, err, ◌>>=◌,
  >>=-eq-ok, Bool-cases, inl, inr, insert, lookup-insert, arith, ◌||◌,
}
use proton_utils.Config.Param.{set_file, value_of, info}
use proton_utils.Config.State.{Config, CoreConfig, ShareConfig}
use proton_utils.Config.Selector.{Segment, Selector}
use proton_utils.Config.Fields.{
  ConfigError, CoreField, max_jobs_field, account_field, app_version_field, core_field, ValueOf,
  parse_positive_int, parse_non_negative_int, parse_watermark, format_watermark,
  parse_memory_cache_level, parse_disk_cache_level, core_parse, core_get, core_set,
}
use proton_utils.Config.Mapping.{
  Namespace, in_core, in_protonfs, in_share, in_subsystem, namespace_of, is_watermark,
  prefetch_blocks_field, block_cache_mode_field, event_poll_interval_field, fs_field, ShareField,
  memory_cache_field, disk_cache_field, known, indexed, serviced, get_core_field, set_core_field,
  get_fs, set_fs, or_interval, get_share, set_share, share_of, get_subsystem, shown_or,
  subsystem_of, get_in, set_in, get, set,
}
use proton_utils.Config.Texts.{
  positive-itoa, non_negative-itoa, memory_cache-string, disk_cache-string, core-read_back,
  watermark-format_watermark,
}
use proton_utils.Config.Mapping.Reset.{refl_key, get_subsystem-some, share_of-some}

-- A change by a text that is taken shows a text by which the same change is made.
abbrev ReadsBack : {F D : Type 0} → (Bytes → F → Result ConfigError D) → (D → F → Bytes) → Type 0
ReadsBack {F} {D} change shown =
    (f : F) (text : Bytes) (d : D) → change text f ≡ ok d → change (shown d f) f ≡ ok d

read_back :
    {F D : Type 0} (m : Result ConfigError F) (change : Bytes → F → Result ConfigError D)
    (shown : D → F → Bytes) (text : Bytes) (d : D)
    → ReadsBack change shown
    → (m >>= change text) ≡ ok d
    → (t : Bytes) × ((m >>= λ f. ok (shown d f)) ≡ ok t) × ((m >>= change t) ≡ ok d)
read_back (ok f) change shown text d p h = (shown d f, refl, p f text d h)
read_back (err e) change shown text d p h = absurd (ground arith)

set_core-ReadsBack :
    (c : Config)
    → ReadsBack
        (λ text f. core_parse f text >>= λ v. ok (record c { core = core_set f v c.core }))
        (λ d f. (core_get f d.core).shown)
set_core-ReadsBack c f text d h =
    let (v, p, q) =
      >>=-eq-ok (core_parse f text) (λ w. ok (record c { core = core_set f w c.core })) h in
    let e : record c { core = core_set f v c.core } ≡ d = ground arith in
    rw (← e) (rw (core-read_back f text v c.core p) refl)

interval-ok : (s : Bytes) (r : Result ConfigError ℤ) (n : ℤ) → or_interval s r ≡ ok n → r ≡ ok n
interval-ok s (ok m) n h = h
interval-ok s (err e) n h = cc

set_fs-ReadsBack : (c : Config) → ReadsBack (set_fs c) (λ d f. get_fs d f)
unfolding set_fs get_fs value_of set_file
set_fs-ReadsBack c prefetch_blocks_field text d h =
    let (v, p, q) =
      >>=-eq-ok (parse_non_negative_int text)
        (λ n. ok (record c { prefetch_blocks = set_file n c.prefetch_blocks })) h in
    let e : record c { prefetch_blocks = set_file v c.prefetch_blocks } ≡ d = ground arith in
    rw (← e) (rw (non_negative-itoa text v p) refl)
set_fs-ReadsBack c block_cache_mode_field text d h =
    elim (Bool-cases (text =? codes "encrypted" || text =? codes "decrypted")) [
      | inl mode ↦
          let e : record c { block_cache_mode = set_file text c.block_cache_mode } ≡ d =
            ground arith in
          rw (← e) (rw mode refl)
      | inr other ↦ absurd (ground arith)
    ]
set_fs-ReadsBack c event_poll_interval_field text d h =
    let (v, p, q) =
      >>=-eq-ok (or_interval text (parse_positive_int text))
        (λ n. ok (record c { event_poll_interval = set_file n c.event_poll_interval })) h in
    let e : record c { event_poll_interval = set_file v c.event_poll_interval } ≡ d =
      ground arith in
    rw (← e) (rw (positive-itoa text v (interval-ok text (parse_positive_int text) v p)) refl)

set_share-back :
    (sc sc' : ShareConfig) (f : ShareField) (text : Bytes)
    → set_share sc text f ≡ ok sc'
    → set_share sc (get_share sc' f) f ≡ ok sc'
unfolding set_share get_share
set_share-back sc sc' memory_cache_field text h =
    let (l, p, q) =
      >>=-eq-ok (parse_memory_cache_level text) (λ x. ok (record sc { memory_cache = x })) h in
    let e : record sc { memory_cache = l } ≡ sc' = ground arith in
    rw (← e) (rw (memory_cache-string l) refl)
set_share-back sc sc' disk_cache_field text h =
    let (l, p, q) =
      >>=-eq-ok (parse_disk_cache_level text) (λ x. ok (record sc { disk_cache = x })) h in
    let e : record sc { disk_cache = l } ≡ sc' = ground arith in
    rw (← e) (rw (disk_cache-string l) refl)

abbrev put_share_at : Bytes → Config → ShareConfig → Config
put_share_at id c sc = record c { shares = insert id sc c.shares }

set_share-ReadsBack :
    (id : Bytes) (c : Config)
    → ReadsBack
        (λ text f. set_share (share_of id c) text f >>= λ sc. ok (put_share_at id c sc))
        (λ d f. get_share (share_of id d) f)
set_share-ReadsBack id c f text d h =
    let (sc, p, q) =
      >>=-eq-ok (set_share (share_of id c) text f) (λ x. ok (put_share_at id c x)) h in
    let e : put_share_at id c sc ≡ d = ground arith in
    let there : share_of id (put_share_at id c sc) ≡ sc =
      share_of-some id (put_share_at id c sc) sc
        (lookup-insert id id sc c.shares ∙ rw (refl_key id) refl) in
    rw (← e) (rw there (rw (set_share-back (share_of id c) sc f text p) refl))

abbrev put_subsystem_at : ℤ → Bytes → Config → (f : CoreField) → ValueOf f → Config
put_subsystem_at workers svc c f v = record c {
  subsystems = insert svc (core_set f v (subsystem_of workers svc c)) c.subsystems;
}

core_set-source :
    (f : CoreField) (v : ValueOf f) (cc : CoreConfig) (t : Bytes)
    → shown_or (core_get f (core_set f v cc)) t ≡ (core_get f (core_set f v cc)).shown
unfolding core_get core_set info set_file
core_set-source max_jobs_field v cc t = refl
core_set-source account_field v cc t = refl
core_set-source app_version_field v cc t = refl

set_subsystem-ReadsBack :
    (workers : ℤ) (svc : Bytes) (c : Config)
    → ReadsBack
        (λ text f. core_parse f text >>= λ v. ok (put_subsystem_at workers svc c f v))
        (get_subsystem svc)
set_subsystem-ReadsBack workers svc c f text d h =
    let (v, p, q) =
      >>=-eq-ok (core_parse f text) (λ x. ok (put_subsystem_at workers svc c f x)) h in
    let e : put_subsystem_at workers svc c f v ≡ d = ground arith in
    let sub = core_set f v (subsystem_of workers svc c) in
    let there : get_subsystem svc (put_subsystem_at workers svc c f v) f ≡ (core_get f sub).shown =
      get_subsystem-some svc (put_subsystem_at workers svc c f v) f sub
        (lookup-insert svc svc sub c.subsystems ∙ rw (refl_key svc) refl)
      ∙ core_set-source f v (subsystem_of workers svc c) (core_get f c.core).shown in
    rw (← e) (rw there (rw (core-read_back f text v (subsystem_of workers svc c) p) refl))

abbrev put_watermark : Config → ℤ × ℤ → Config
put_watermark c v = record c { memory_cache_watermark = set_file v c.memory_cache_watermark }

set_watermark-ReadsBack :
    (c : Config)
    → ReadsBack {F = Unit {0}}
        (λ text _. parse_watermark text >>= λ v. ok (put_watermark c v))
        (λ d _. format_watermark (value_of d.memory_cache_watermark))
unfolding value_of set_file
set_watermark-ReadsBack c u text d h =
    let (v, p, q) = >>=-eq-ok (parse_watermark text) (λ x. ok (put_watermark c x)) h in
    let e : put_watermark c v ≡ d = ground arith in
    rw (← e) (rw (watermark-format_watermark text v p) refl)

set_in-reads_back :
    (workers : ℤ) (n : Namespace) (c d : Config) (s : Segment) (field text : Bytes)
    → set_in workers n c s field text ≡ ok d
    → (t : Bytes) × (get_in n d s field ≡ ok t) × (set_in workers n c s field t ≡ ok d)
unfolding get_in set_in get_core_field set_core_field
set_in-reads_back workers in_core c d s field text h = elim (Bool-cases (is_watermark field)) [
  | inl wm ↦
      rw (wm, get_core_field, set_core_field)
        (read_back {F = Unit {0}} (ok tt) (λ x _. parse_watermark x >>= λ v. ok (put_watermark c v))
          (λ x _. format_watermark (value_of x.memory_cache_watermark)) text d
          (set_watermark-ReadsBack c) (sym (rw wm refl) ∙ h))
  | inr other ↦
      rw (other, get_core_field, set_core_field)
        (read_back (known (codes "core") field (core_field field))
          (λ x f. core_parse f x >>= λ v. ok (record c { core = core_set f v c.core }))
          (λ x f. (core_get f x.core).shown) text d (set_core-ReadsBack c)
          (sym (rw other refl) ∙ h))
]
set_in-reads_back workers in_protonfs c d s field text h =
    read_back (known (codes "protonfs") field (fs_field field)) (set_fs c) get_fs text d
      (set_fs-ReadsBack c) h
set_in-reads_back workers in_share c d s field text h =
    read_back (indexed s field)
      (λ x f. set_share (share_of s.index_val c) x f >>= λ sc. ok (put_share_at s.index_val c sc))
      (λ x f. get_share (share_of s.index_val x) f) text d (set_share-ReadsBack s.index_val c) h
set_in-reads_back workers in_subsystem c d s field text h =
    read_back (serviced s.name field)
      (λ x f. core_parse f x >>= λ v. ok (put_subsystem_at workers s.name c f v))
      (get_subsystem s.name) text d (set_subsystem-ReadsBack workers s.name c) h

-- After a `Set` that succeeds, `Get` by the same selector succeeds, and setting the text that it
-- shows instead of the original text gives the same configuration.
pub get-set :
    (workers : ℤ) (c d : Config) (sel : Selector) (text : Bytes)
    → set workers c sel text ≡ ok d
    → (shown : Bytes) × (get d sel ≡ ok shown) × (set workers c sel shown ≡ ok d)
unfolding get set
get-set workers c d [] text h = absurd (ground arith)
get-set workers c d (s ∷ []) text h = absurd (ground arith)
get-set workers c d (s ∷ t ∷ rest) text h =
    set_in-reads_back workers (namespace_of s.name) c d s t.name text h
