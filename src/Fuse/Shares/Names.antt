-- ===== src/Fuse/Shares/Names.antt =====
-- The names under which the namespace lists its shares are those by which it finds them.
use proton_utils.Base.{
  ℕ, ◌≡◌, refl, Bool, true, false, ◌||◌, Bool-cases, inl, inr, none, some, List, [], ◌∷◌, ◌++◌,
  Bytes, codes, ◌=?◌, list_eq, list_beq_iff, nat_eq, Result, ok, err, if◌then◌else◌, All, arith,
}
use proton_utils.Fuse.Dispatch.{s_ifdir}
use proton_utils.Fuse.Directories.{Mount, Iteration}
use proton_utils.Fuse.Shares
use proton_utils.Fuse.Shares.{
  Share, main, photos, standard, device, unlisted, entry_of, share_entries, is_main, is_photos,
  is_standard, is_named, first_of, find_share_by_name, Found,
}

-- whether some share passes a test
unfoldable pub any : (Share → Bool) → List Share → Bool
any test [] = false
any test (s ∷ shares) = test s || any test shares

pub is_listed : Bytes → List (Bytes × ℕ) → Bool
is_listed name [] = false
is_listed name (e ∷ entries) = e.0 =? name || is_listed name entries

-- No standard share has the name of a volume.
unfoldable pub is_reserved : Share → Bool
is_reserved s = is_named (codes "Home") s || is_named (codes "Photos") s

pub is_success : Result ℕ Found → Bool
is_success (ok _) = true
is_success (err _) = false

abbrev is_found : Bytes → Share → Bool
is_found name =
    if name =? codes "Home"
    then is_main
    else if name =? codes "Photos"
    then is_photos
    else is_named name

first_of-any :
    (test : Share → Bool) (shares : List Share)
    → elim (first_of test shares) [ none ↦ false | some _ ↦ true ] ≡ any test shares
unfolding first_of any
first_of-any test [] = refl
first_of-any test (s ∷ shares) = ground (arith, first_of-any test shares)

is_listed-append :
    (name : Bytes) (es fs : List (Bytes × ℕ))
    → is_listed name (es ++ fs) ≡ (is_listed name es || is_listed name fs)
unfolding is_listed
is_listed-append name [] fs = refl
is_listed-append name (e ∷ es) fs = ground (arith, is_listed-append name es fs)

entry-found :
    (name : Bytes) (s : Share)
    → is_reserved s ≡ false
    → elim (entry_of s) [ none ↦ false | some own ↦ own =? name ] ≡ is_found name s
unfolding entry_of is_main is_photos is_named is_standard is_reserved
entry-found name s h = ground (
  arith,
  list_beq_iff (codes "Home") name,
  list_beq_iff (codes "Photos") name,
  list_beq_iff name (codes "Home"),
  list_beq_iff name (codes "Photos"),
)

abbrev pub IsOrdinary : Share → Type 0
IsOrdinary s = is_reserved s ≡ false

is_listed-share_entries :
    (name : Bytes) (shares : List Share)
    → All IsOrdinary shares
    → is_listed name (share_entries shares) ≡ any (is_found name) shares
unfolding share_entries is_listed any
is_listed-share_entries name [] h = refl
is_listed-share_entries name (s ∷ shares) (h, k) =
    ground (arith, entry-found name s h, is_listed-share_entries name shares k)

find-any :
    (name : Bytes) (shares : List Share)
    → elim (find_share_by_name shares name) [ none ↦ false | some _ ↦ true ]
      ≡ any (is_found name) shares
unfolding find_share_by_name
find-any name shares = elim (Bool-cases (name =? codes "Home")) [
  | inl e ↦ rw e (first_of-any is_main shares)
  | inr e ↦ elim (Bool-cases (name =? codes "Photos")) [
    | inl p ↦ rw e (rw p (first_of-any is_photos shares))
    | inr p ↦ rw e (rw p (first_of-any (is_named name) shares))
  ]
]

is_success-lookup :
    {S : Type 0} (it : Iteration) (shares : List Share) (name : Bytes) (m : Mount S)
    → is_success (Shares.lookup it shares name m).1 ≡ (
        name =? codes ".linkid"
        || elim (find_share_by_name shares name) [ none ↦ false | some _ ↦ true ])
unfolding Shares.lookup is_success
is_success-lookup it shares name m = ground arith

-- If no standard share is named as a volume is, then `Lookup` in the namespace finds a name exactly
-- if `Readdir` lists it, whatever the orders in which the two go through the same shares.
pub is_listed-readdir :
    {S : Type 0} (it : Iteration) (shares order : List Share) (name : Bytes) (m : Mount S)
    → ((test : Share → Bool) → any test order ≡ any test shares)
    → All IsOrdinary shares
    → is_listed name (Shares.readdir shares) ≡ is_success (Shares.lookup it order name m).1
unfolding Shares.readdir is_listed
is_listed-readdir it shares order name m same h =
    let listed = is_listed-append name (share_entries shares) ((codes ".linkid", s_ifdir) ∷ []) in
    ground (
      arith,
      listed,
      is_listed-share_entries name shares h,
      is_success-lookup it order name m,
      find-any name order,
      same (is_found name),
      list_beq_iff name (codes ".linkid"),
      list_beq_iff (codes ".linkid") name,
    )

-- A `Rename` of a share that succeeds leaves the namespace without shares.
pub shares-rename :
    (c : Shares.ShareClient) (order : List Share) (old : Bytes) (elsewhere : Bool) (new : Bytes)
    (h h' : Shares.Handler c)
    → Shares.rename c order old elsewhere new h ≡ (h', ok tt)
    → h'.shares ≡ []
unfolding Shares.rename Shares.invalidate_shares
shares-rename c order old elsewhere new h h' e = ground arith
