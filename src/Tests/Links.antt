-- ===== src/Tests/Links.antt =====
-- A store of three entries, and a server that has one file.
use proton_utils.Base.{
  Bool-cases, inl, inr, list_beq_iff, sym, ap, ◌∙◌, subst, ℕ, ◌+◌, ◌≡◌, ◌≤◌, refl, true, false, not,
  ◌&&◌, Bool, Option, none, some, List, [], ◌∷◌, length, Bytes, codes, Map, lookup, insert, delete,
  lookup-insert, lookup-delete, list_eq, nat_eq, list_beq, ok, err, All, arith, if◌then◌else◌, ◌=?◌,
}
use proton_utils.Drive.LinkCache.{
  LinkType, CachedLink, Revision, Store, Erased, Fetcher, LinkCache, sanitize_link_id, trim_right,
  is_file, is_block, contains, starts_with, is_empty, is_folder, has_xattr, has_revision,
  is_complete, disk_hit, drop_entry, erase_key, try_object_cache_hit, take_staged_incomplete, scan,
  insert_aged, oldest_first, evict, run_eviction, trigger_eviction, write_cache_entry, failures,
  keep, with_xattr, complete_file, complete_link, fetch_link_with_xattr, fetch_staged, after_hit,
  get_cached_link, max_xattr_retries,
}
use proton_utils.Drive.LinkCache.Hits.{get_cached_link-twice}
use proton_utils.Drive.LinkCache.Eviction.{
  IsOlder, is_among, evicted, retained, run_eviction-IsOldest,
}
use proton_utils.Drive.LinkCache.Failures.{get_all, failures-get_all}
use proton_utils.Drive.LinkCache.Hydration.{
  hydrate_link, hydrate_key, hydrate_keys, insert_all, hydrate_from_cache,
}
use proton_utils.Drive.LinkCache.Erasures.{IsFiled, link_at, is_in}
use proton_utils.Drive.LinkCache.Hydrated.{lookup-hydrate_from_cache}

program : Unit {0}
unfolding hydrate_link hydrate_key hydrate_keys insert_all hydrate_from_cache trim_right is_file
    link_at is_in sanitize_link_id is_block contains starts_with is_empty is_folder has_xattr
    has_revision is_complete disk_hit drop_entry erase_key try_object_cache_hit
    take_staged_incomplete scan insert_aged oldest_first evict run_eviction trigger_eviction
    write_cache_entry keep with_xattr complete_file complete_link fetch_link_with_xattr fetch_staged
    after_hit get_cached_link lookup insert delete list_beq
program = tt

abbrev Shelf : Type 0
Shelf = Map Bytes (CachedLink × ℕ)

abbrev keys_of : Shelf → List Bytes
keys_of [] = []
keys_of ((k, _) ∷ shelf) = k ∷ keys_of shelf

abbrev text_at : Option (CachedLink × ℕ) → Option CachedLink
text_at none = none
text_at (some (l, _)) = some l

abbrev age_at : Option (CachedLink × ℕ) → Option ℕ
age_at none = none
age_at (some (_, n)) = some n

text-insert :
    (k j : Bytes) (t : CachedLink) (s : Shelf)
    → text_at (lookup j (insert k (t, 0) s)) ≡ (if k =? j then some t else text_at (lookup j s))
text-insert k j t s = ground (arith, lookup-insert k j (t, 0) s)

text-delete :
    (k j : Bytes) (s : Shelf)
    → text_at (lookup j (delete k s)) ≡ (if k =? j then none else text_at (lookup j s))
text-delete k j s = ground (arith, lookup-delete k j s)

never : {A : Type 0} → ◌≡◌ {A = Bool} true false → A
never h = absurd (cc h)

abbrev store : Store
store = record {
  State = Shelf;
  Text = CachedLink;
  keys = keys_of;
  read = λ s k. text_at (lookup k s);
  write = λ s k t. (insert k (t, 0) s, true);
  erase = λ s k. (delete k s, Erased.erased);
  modified = λ s k. age_at (lookup k s);
  encode = λ l. l;
  decode = λ t. some t;
  decode-encode = λ l. refl;
  read-write = λ s k j t h. text-insert k j t s;
  read-write_failed = λ s k t h. never h;
  read-erase = λ s k j h. text-delete k j s;
}

abbrev photo : CachedLink
photo = record {
  link_id = codes "P==";
  type = LinkType.file;
  revision = some (record { id = codes "r1"; xattr = []; size = 0 });
  body = [];
}

abbrev full : Revision
full = record { id = codes "r1"; xattr = codes "x"; size = 9 }

-- The state counts the requests.
abbrev fetcher : Fetcher
fetcher = record {
  State = ℕ;
  Failure = Unit {0};
  get_link = λ s share id. (s + 1, ok photo);
  get_revision = λ s share id rev. (s + 1, ok full);
}

abbrev start : LinkCache store fetcher
start = record {
  server = 0;
  disk = [];
  hydrated = [];
  fail_count = [];
  cache_count = 0;
  evicting = false;
}

abbrev whole : CachedLink
whole = record photo { revision = some full }

abbrev got : LinkCache store fetcher
got = record start { server = 2; disk = (codes "P", (whole, 0)) ∷ []; cache_count = 1 }

-- The second call makes no request.
get_cached_link-twice_example :
    get_cached_link store fetcher (codes "S") (codes "P==") true got ≡ (got, ok whole)
unfolding program
get_cached_link-twice_example =
    get_cached_link-twice store fetcher (λ s k t. refl) (codes "S") (codes "P==") start
      (λ s x h. ground arith) refl refl refl

abbrev unlucky : Fetcher
unlucky = record fetcher { get_revision = λ s share id rev. (s + 1, err tt) }

abbrev unlucky_start : LinkCache store unlucky
unlucky_start = record {
  server = 0;
  disk = [];
  hydrated = [];
  fail_count = (codes "P==", 2) ∷ [];
  cache_count = 0;
  evicting = false;
}

abbrev calls : List (Bytes × Bytes × Bool)
calls = (codes "S", codes "P==", true) ∷ (codes "S", codes "P==", false) ∷ []

failures-get_all_example :
    failures store unlucky (codes "P==") (get_all store unlucky calls unlucky_start)
    ≤ max_xattr_retries
unfolding program
failures-get_all_example =
    failures-get_all store unlucky (codes "P==") calls unlucky_start (omega arith)

-- Three entries, of which the oldest goes, and a block, which stays.
abbrev shelf : LinkCache store fetcher
shelf = record start {
  disk =
      (codes "aa", (whole, 5))
      ∷ (codes "bb.block.0", (whole, 1))
      ∷ (codes "cc", (whole, 2))
      ∷ (codes "dd", (whole, 7))
      ∷ [];
  cache_count = 3;
}

run_eviction-IsOldest_example :
    ((run_eviction store fetcher 2 shelf).cache_count ≡ length (retained store fetcher 2 shelf))
    × (length (retained store fetcher 2 shelf) ≤ 2)
    × All
        (λ a. IsOlder store fetcher a (retained store fetcher 2 shelf))
        (evicted store fetcher 2 shelf)
    × (store.read (run_eviction store fetcher 2 shelf).disk (codes "cc") ≡ (
        if not (is_block (codes "cc"))
          && is_among store fetcher (codes "cc") (evicted store fetcher 2 shelf)
        then none
        else store.read shelf.disk (codes "cc")))
run_eviction-IsOldest_example =
    run_eviction-IsOldest store fetcher (λ s k. refl) (codes "cc") 2 shelf

-- A file on disk without its extended attributes.
abbrev left_over : LinkCache store fetcher
left_over = record start { disk = (codes "P", (photo, 0)) ∷ [] }

left_over-IsFiled : IsFiled store fetcher left_over
unfolding program
left_over-IsFiled key l e = elim (Bool-cases (codes "P" =? key)) [
  | inl h ↦
      let same = (list_beq_iff (codes "P") key).0 h in
      let found : link_at store fetcher (codes "P") (some photo) ≡ some l =
        subst (λ k. link_at store fetcher k (store.read left_over.disk k) ≡ some l) (sym same) e in
      let is_photo : photo ≡ l = cc found in
      ap (λ (x : CachedLink). sanitize_link_id x.link_id) (sym is_photo) ∙ same
  | inr h ↦
      let gone : store.read left_over.disk key ≡ none = rw h refl in
      absurd (cc (sym (ap (link_at store fetcher key) gone) ∙ e))
]

lookup-hydrate_from_cache_example :
    (lookup (codes "P==") (hydrate_from_cache store fetcher left_over).hydrated ≡ some photo)
    × (link_at store fetcher
          (codes "P")
          (store.read (hydrate_from_cache store fetcher left_over).disk (codes "P"))
        ≡ none)
unfolding program
lookup-hydrate_from_cache_example =
    lookup-hydrate_from_cache store fetcher (λ s k. refl) left_over photo left_over-IsFiled refl
      refl refl
