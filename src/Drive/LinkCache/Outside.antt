-- ===== src/Drive/LinkCache/Outside.antt =====
-- The links that are kept, the store on disk, the server, and what the code asks of a link and of a
-- key: parts of api/drive/client.go and api/drive/objectcache.go.
use proton_utils.Base.{
  ℕ, ◌==◌, ◌≡◌, Bool, true, false, not, ◌&&◌, ◌||◌, Option, none, some, List, [], ◌∷◌, Bytes, codes,
  ◌=?◌, list_eq, nat_eq, Result, if◌then◌else◌,
}

-- `maxCacheEntries`, `evictionTarget` and `maxXAttrRetries`
abbrev pub max_cache_entries : ℕ
max_cache_entries = 10000

abbrev pub eviction_target : ℕ
eviction_target = 9000

abbrev pub max_xattr_retries : ℕ
max_xattr_retries = 3

pub data LinkType : Type 0 where
  folder file other_type : LinkType

-- The active revision in `FileProperties`
pub record Revision : Type 0 where
  pub id : Bytes
  pub xattr : Bytes
  pub size : ℕ

-- `proton.Link`, as far as the cache looks into it; the rest is `body`.
pub record CachedLink : Type 0 where
  pub link_id : Bytes
  pub type : LinkType
  pub revision : Option Revision
  pub body : Bytes

pub data Erased : Type 0 where
  erased missing stuck : Erased

-- The disk store (diskv), whose failed calls change nothing, and encoding/gob at links.
pub record Store : Type 1 where
  pub State : Type 0
  pub Text : Type 0
  pub keys : State → List Bytes
  pub read : State → Bytes → Option Text
  pub write : State → Bytes → Text → State × Bool
  pub erase : State → Bytes → State × Erased
  pub modified : State → Bytes → Option ℕ
  pub encode : CachedLink → Text
  pub decode : Text → Option CachedLink
  pub decode-encode : (l : CachedLink) → decode (encode l) ≡ some l
  pub read-write :
      (s : State) (k j : Bytes) (t : Text)
      → (write s k t).1 ≡ true
      → read (write s k t).0 j ≡ (if k =? j then some t else read s j)
  pub read-write_failed :
      (s : State) (k : Bytes) (t : Text) → (write s k t).1 ≡ false → (write s k t).0 ≡ s
  pub read-erase :
      (s : State) (k j : Bytes)
      → (erase s k).1 ≡ erased
      → read (erase s k).0 j ≡ (if k =? j then none else read s j)

-- `linkFetcher`: the two requests that a fetch makes
pub record Fetcher : Type 1 where
  pub State : Type 0
  pub Failure : Type 0
  pub get_link : State → Bytes → Bytes → State × Result Failure CachedLink
  pub get_revision : State → Bytes → Bytes → Bytes → State × Result Failure Revision

-- `SanitizeLinkID`: the padding at the end is cut off
unfoldable pub trim_right : ℕ → Bytes → Bytes
trim_right b [] = []
trim_right b (c ∷ cs) = elim (trim_right b cs) [
  | [] ↦ if c == b then [] else c ∷ []
  | d ∷ ds ↦ c ∷ d ∷ ds
]

unfoldable pub sanitize_link_id : Bytes → Bytes
unfolding trim_right
sanitize_link_id id = trim_right b'=' id

unfoldable pub starts_with : Bytes → Bytes → Bool
starts_with [] s = true
starts_with (p ∷ ps) [] = false
starts_with (p ∷ ps) (c ∷ cs) = p == c && starts_with ps cs

unfoldable pub contains : Bytes → Bytes → Bool
unfolding starts_with
contains p [] = starts_with p []
contains p (c ∷ cs) = starts_with p (c ∷ cs) || contains p cs

-- the keys of blocks, which share the store
unfoldable pub is_block : Bytes → Bool
unfolding contains
is_block key = contains (codes ".block.") key

unfoldable pub is_empty : Bytes → Bool
is_empty [] = true
is_empty (_ ∷ _) = false

-- A file is complete with its extended attributes, and can be completed if its revision is known.
unfoldable pub has_xattr : CachedLink → Bool
unfolding is_empty
has_xattr l = elim l.revision [ none ↦ false | some r ↦ not (is_empty r.xattr) ]

unfoldable pub has_revision : CachedLink → Bool
unfolding is_empty
has_revision l = elim l.revision [ none ↦ false | some r ↦ not (is_empty r.id) ]

unfoldable pub is_folder : CachedLink → Bool
is_folder l = elim l.type [ folder ↦ true | _ ↦ false ]

unfoldable pub is_file : CachedLink → Bool
is_file l = elim l.type [ file ↦ true | _ ↦ false ]

unfoldable pub is_complete : CachedLink → Bool
unfolding is_folder has_xattr
is_complete l = is_folder l || has_xattr l
