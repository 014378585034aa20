-- ===== src/Config/Texts.antt =====
-- The texts that the formats of api/config/mapping.go give parse back to their values.
use proton_utils.Base.{
  ℕ, false, Option, none, some, [], ◌∷◌, ◌++◌, ◌≡◌, refl, sym, ◌∙◌, Bytes, ℤ, pos, negsuc, nat_eq,
  list_eq, list_beq, ok, err, Bool-cases, inl, inr, arith,
}
use proton_utils.Config.Param.{set_file, value_of, info}
use proton_utils.Config.Numbers.{
  itoa, itoa_ℕ, atoi, atoi-itoa, atoi-IsInt, IsInt, show_digits-AllDigits, trim_space,
  trim_space_digits, split_colon, split_colon_digits,
}
use proton_utils.Config.State.{
  CoreConfig, MemoryCacheLevel, cache_disabled, cache_link_name, cache_metadata, DiskCacheLevel,
  disk_cache_disabled, disk_cache_object_store, memory_cache_string, disk_cache_string,
}
use proton_utils.Config.Fields.{
  bad_watermark, CoreField, max_jobs_field, account_field, app_version_field, ValueOf, is_below,
  check_watermark, parse_positive_int, parse_non_negative_int, parse_non_empty_string,
  parse_watermark, format_watermark, parse_memory_cache_level, parse_disk_cache_level, core_parse,
  core_get, core_set,
}

-- What a number's parser accepts is read back from the number's text.
pub positive-itoa :
    (s : Bytes) (n : ℤ) → parse_positive_int s ≡ ok n → parse_positive_int (itoa n) ≡ ok n
unfolding parse_positive_int
positive-itoa s n h = ground (arith, atoi-IsInt s n, atoi-itoa n)

pub non_negative-itoa :
    (s : Bytes) (n : ℤ) → parse_non_negative_int s ≡ ok n → parse_non_negative_int (itoa n) ≡ ok n
unfolding parse_non_negative_int
non_negative-itoa s n h = ground (arith, atoi-IsInt s n, atoi-itoa n)

non_empty-same : (s v : Bytes) → parse_non_empty_string s ≡ ok v → parse_non_empty_string v ≡ ok v
unfolding parse_non_empty_string
non_empty-same [] v h = cc
non_empty-same (c ∷ s) v h = ground arith

pub memory_cache-string :
    (l : MemoryCacheLevel) → parse_memory_cache_level (memory_cache_string l) ≡ ok l
unfolding parse_memory_cache_level memory_cache_string list_beq
memory_cache-string cache_disabled = refl
memory_cache-string cache_link_name = refl
memory_cache-string cache_metadata = refl

pub disk_cache-string : (l : DiskCacheLevel) → parse_disk_cache_level (disk_cache_string l) ≡ ok l
unfolding parse_disk_cache_level disk_cache_string list_beq
disk_cache-string disk_cache_disabled = refl
disk_cache-string disk_cache_object_store = refl

-- A watermark's text parses back: its numbers are not negative, and so all digits.
itoa-digits : (n : ℕ) (t : Bytes) → split_colon (itoa (pos n) ++ 58 ∷ t) ≡ some (itoa (pos n), t)
unfolding itoa
itoa-digits n t = split_colon_digits (itoa_ℕ n) t (show_digits-AllDigits n n [] tt)

itoa-trim_space : (n : ℕ) → trim_space (itoa (pos n)) ≡ itoa (pos n)
unfolding itoa
itoa-trim_space n = trim_space_digits (itoa_ℕ n) (show_digits-AllDigits n n [] tt)

watermark_pos :
    (lo hi : ℕ)
    → IsInt (pos lo)
    → IsInt (pos hi)
    → is_below (pos hi) (pos lo) ≡ false
    → parse_watermark (format_watermark (pos lo, pos hi)) ≡ ok (pos lo, pos hi)
unfolding parse_watermark format_watermark
watermark_pos lo hi p q h =
    rw
      (
        parse_watermark,
        itoa-digits lo (itoa (pos hi)),
        itoa-trim_space lo,
        itoa-trim_space hi,
        atoi-itoa (pos lo) p,
        atoi-itoa (pos hi) q,
      )
      (rw (h, check_watermark) refl)

checked_watermark :
    (s : Bytes) (x y : Option ℤ) (v : ℤ × ℤ)
    → ((z : ℤ) → x ≡ some z → IsInt z)
    → ((z : ℤ) → y ≡ some z → IsInt z)
    → check_watermark s x y ≡ ok v
    → parse_watermark (format_watermark v) ≡ ok v
checked_watermark s (some (pos lo)) (some (pos hi)) v p q h =
    elim (Bool-cases (is_below (pos hi) (pos lo))) [
      | inl below ↦ absurd (ground arith)
      | inr above ↦
          let e : (pos lo, pos hi) ≡ v = ground arith in
          rw (← e) (watermark_pos lo hi (p (pos lo) refl) (q (pos hi) refl) above)
    ]
checked_watermark s (some (pos lo)) (some (negsuc hi)) v p q h = absurd (ground arith)
checked_watermark s (some (negsuc lo)) (some hi) v p q h = absurd (ground arith)
checked_watermark s (some (pos lo)) none v p q h = absurd (ground arith)
checked_watermark s (some (negsuc lo)) none v p q h = absurd (ground arith)
checked_watermark s none y v p q h = absurd (ground arith)

watermark_parts :
    (s a b : Bytes)
    → split_colon s ≡ some (a, b)
    → parse_watermark s ≡ check_watermark s (atoi (trim_space a)) (atoi (trim_space b))
unfolding parse_watermark
watermark_parts s a b e = rw (parse_watermark, e) refl

watermark_no_colon : (s : Bytes) → split_colon s ≡ none → parse_watermark s ≡ err (bad_watermark s)
unfolding parse_watermark
watermark_no_colon s e = rw (parse_watermark, e) refl

pub watermark-format_watermark :
    (s : Bytes) (v : ℤ × ℤ) → parse_watermark s ≡ ok v → parse_watermark (format_watermark v) ≡ ok v
watermark-format_watermark s v h = at (split_colon s) refl
  where
    at :
        (o : Option (Bytes × Bytes))
        → split_colon s ≡ o
        → parse_watermark (format_watermark v) ≡ ok v
    at none e = absurd (cc (watermark_no_colon s e, h))
    at (some (a, b)) e =
        checked_watermark s (atoi (trim_space a)) (atoi (trim_space b)) v
          (atoi-IsInt (trim_space a)) (atoi-IsInt (trim_space b))
          (sym (watermark_parts s a b e) ∙ h)

pub core-read_back :
    (f : CoreField) (s : Bytes) (v : ValueOf f) (cc : CoreConfig)
    → core_parse f s ≡ ok v
    → core_parse f (core_get f (core_set f v cc)).shown ≡ ok v
unfolding core_parse core_get core_set info value_of set_file
core-read_back max_jobs_field s v cc h = positive-itoa s v h
core-read_back account_field s v cc h = non_empty-same s v h
core-read_back app_version_field s v cc h = non_empty-same s v h
