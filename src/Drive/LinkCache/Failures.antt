-- ===== src/Drive/LinkCache/Failures.antt =====
-- How often the attributes of a link are asked for in vain.
use proton_utils.Base.{
  ◌+◌, ◌≤◌, leb, ◌≡◌, refl, Bool, true, false, Bool-cases, inl, inr, Option, none, some, List, [],
  ◌∷◌, Bytes, delete, lookup-insert, lookup-delete, list_eq, nat_eq, Result, ok, err, Result-cases,
  arith,
}
use proton_utils.Drive.LinkCache.{
  CachedLink, Revision, Store, Fetcher, LinkCache, is_folder, is_empty, disk_hit,
  try_object_cache_hit, take_staged_incomplete, keep, with_xattr, complete_file, complete_link,
  fetch_link_with_xattr, fetch_staged, after_hit, get_cached_link, failures, max_xattr_retries,
}
use proton_utils.Drive.LinkCache.Hits.{write_cache_entry-keeps}

module _ (st : Store) (fe : Fetcher) where
  abbrev C : Type 0
  C = LinkCache st fe

  -- Of a link at most so many failures in a row are counted.
  abbrev IsBounded : Bytes → C → Type 0
  IsBounded j c = failures st fe j c ≤ max_xattr_retries

  keep-fail_count :
      (b : Bool) (id : Bytes) (l : CachedLink) (c : C)
      → (keep st fe b id l c).fail_count ≡ c.fail_count
  unfolding keep
  keep-fail_count true id l c = (write_cache_entry-keeps st fe id l c).1
  keep-fail_count false id l c = refl

  IsBounded-same :
      (j : Bytes) (c d : C) → d.fail_count ≡ c.fail_count → IsBounded j c → IsBounded j d
  IsBounded-same j c d e h = ground arith

  with_xattr-IsBounded :
      (j : Bytes) (b : Bool) (id : Bytes) (l : CachedLink) (r : Revision) (c : C)
      (a : fe.State × Result fe.Failure Revision)
      → leb max_xattr_retries (failures st fe id c) ≡ false
      → IsBounded j c
      → IsBounded j (with_xattr st fe b id l r c a).0
  unfolding with_xattr
  with_xattr-IsBounded j b id l r c (s, err e) k h =
      ground (arith, lookup-insert id j (failures st fe id c + 1) c.fail_count)
  with_xattr-IsBounded j b id l r c (s, ok full) k h =
      let d : C = record c { server = s; fail_count = delete id c.fail_count } in
      let whole : CachedLink = record l {
        revision = some (record r { xattr = full.xattr; size = full.size });
      } in
      IsBounded-same j d (keep st fe b id whole d) (keep-fail_count b id whole d)
        (ground (arith, lookup-delete id j c.fail_count))

  complete_file-IsBounded :
      (j : Bytes) (share id : Bytes) (b : Bool) (l : CachedLink) (o : Option Revision) (c : C)
      → IsBounded j c
      → IsBounded j (complete_file st fe share id b l o c).0
  unfolding complete_file
  complete_file-IsBounded j share id b l none c h = h
  complete_file-IsBounded j share id b l (some r) c h = elim (Bool-cases (is_empty r.id)) [
    | inl e ↦ rw (e, complete_file) h
    | inr e ↦ elim (Bool-cases (leb max_xattr_retries (failures st fe id c))) [
      | inl k ↦ rw (e, complete_file) (rw (k, complete_file) h)
      | inr k ↦
          rw (e, complete_file) (rw (k, complete_file) (with_xattr-IsBounded j b id l r c _ k h))
    ]
  ]

  complete_link-IsBounded :
      (j : Bytes) (share id : Bytes) (b : Bool) (l : CachedLink) (c : C)
      → IsBounded j c
      → IsBounded j (complete_link st fe share id b l c).0
  unfolding complete_link
  complete_link-IsBounded j share id b l c h = elim (Bool-cases (is_folder l)) [
    | inl e ↦
        rw (e, complete_link)
          (IsBounded-same j c (keep st fe b id l c) (keep-fail_count b id l c) h)
    | inr e ↦ rw (e, complete_link) (complete_file-IsBounded j share id b l l.revision c h)
  ]

  fetch-IsBounded :
      (j : Bytes) (share id : Bytes) (b : Bool) (o : Option CachedLink) (c : C)
      → IsBounded j c
      → IsBounded j (fetch_link_with_xattr st fe share id b o c).0
  unfolding fetch_link_with_xattr
  fetch-IsBounded j share id b (some l) c h = complete_link-IsBounded j share id b l c h
  fetch-IsBounded j share id b none c h = elim (Result-cases (fe.get_link c.server share id).1) [
    | inr (e, q) ↦ rw (q, fetch_link_with_xattr) h
    | inl (l, q) ↦
        rw (q, fetch_link_with_xattr)
          (complete_link-IsBounded j share id b l
            (record c { server = (fe.get_link c.server share id).0 }) h)
  ]

  try-fail_count :
      (id : Bytes) (c : C) → (try_object_cache_hit st fe id c).0.fail_count ≡ c.fail_count
  unfolding try_object_cache_hit disk_hit
  try-fail_count id c = ground arith

  take-fail_count :
      (id : Bytes) (c : C) → (take_staged_incomplete st fe id c).0.fail_count ≡ c.fail_count
  unfolding take_staged_incomplete
  take-fail_count id c = ground arith

  after_hit-IsBounded :
      (j : Bytes) (share id : Bytes) (c : C) (o : Option CachedLink)
      → IsBounded j c
      → IsBounded j (after_hit st fe share id (c, o)).0
  unfolding after_hit fetch_staged
  after_hit-IsBounded j share id c (some l) h = h
  after_hit-IsBounded j share id c none h =
      let (d, staged) = take_staged_incomplete st fe id c in
      fetch-IsBounded j share id true staged d (IsBounded-same j c d (take-fail_count id c) h)

  get-IsBounded :
      (j : Bytes) (share id : Bytes) (b : Bool) (c : C)
      → IsBounded j c
      → IsBounded j (get_cached_link st fe share id b c).0
  unfolding get_cached_link
  get-IsBounded j share id false c h = fetch-IsBounded j share id false none c h
  get-IsBounded j share id true c h =
      let (d, o) = try_object_cache_hit st fe id c in
      after_hit-IsBounded j share id d o (IsBounded-same j c d (try-fail_count id c) h)

  -- calls of `GetCachedLink`, one after the other
  pub get_all : List (Bytes × Bytes × Bool) → C → C
  get_all [] c = c
  get_all ((share, id, b) ∷ calls) c = get_all calls (get_cached_link st fe share id b c).0

  -- Whatever links are got, in whatever order and whatever fails, no link's failures are counted
  -- beyond `maxXAttrRetries`, if they were not before.
  pub failures-get_all :
      (j : Bytes) (calls : List (Bytes × Bytes × Bool)) (c : C)
      → failures st fe j c ≤ max_xattr_retries
      → failures st fe j (get_all calls c) ≤ max_xattr_retries
  unfolding get_all
  failures-get_all j [] c h = h
  failures-get_all j ((share, id, b) ∷ calls) c h =
      failures-get_all j calls (get_cached_link st fe share id b c).0
        (get-IsBounded j share id b c h)

  -- A file whose failures have come to that many is returned as the server's first answer has it,
  -- and that answer is all that the server is asked for.
  pub get_cached_link-gives_up :
      (share id : Bytes) (c : C) (s : fe.State) (l : CachedLink)
      → max_xattr_retries ≤ failures st fe id c
      → fe.get_link c.server share id ≡ (s, ok l)
      → is_folder l ≡ false
      → get_cached_link st fe share id false c ≡ (record c { server = s }, ok l)
  unfolding get_cached_link fetch_link_with_xattr complete_link complete_file
  get_cached_link-gives_up share id c s l h e k = ground arith
