-- ===== src/Fuse/Shares.antt =====
-- The shares of the drive namespace, the top-level directories of internal/fusemount/drive/handler.go.
-- A list of shares is what a `range` over the map yields, in its order.
pub mod Names
pub mod LinkIds
use proton_utils.Base.{
  ℕ, ◌≡◌, Bool, true, false, ◌&&◌, Option, none, some, List, [], ◌∷◌, ◌++◌, Bytes, codes, Map,
  insert, ◌=?◌, list_eq, nat_eq, Result, ok, err, if◌then◌else◌,
}
use proton_utils.Fuse.Dispatch.{s_ifdir, enoent, eperm, eio}
use proton_utils.Fuse.Directories
use proton_utils.Fuse.Directories.{Mount, Iteration, new_dir_node}
use proton_utils.Fuse.Directories.Nodes.{exdev}

pub data ShareType : Type 0 where
  main photos standard device unlisted : ShareType

-- A share with its root; `name` is what `GetName` decrypts, if it can.
pub record Share : Type 0 where
  pub share_id : Bytes
  pub type : ShareType
  pub name : Option Bytes
  pub root : Directories.Link

pub record Meta : Type 0 where
  pub share_id : Bytes
  pub type : ShareType

pub data RenameError : Type 0 where
  not_standard_share : RenameError
  failed : ℕ → RenameError

-- the Drive client's calls for shares
pub record ShareClient : Type 1 where
  pub State : Type 0
  pub list_shares_metadata : State → State × Result ℕ (List Meta)
  pub get_share : State → Bytes → State × Option Share
  pub share_rename : State → Share → Bytes → State × Result RenameError (Unit {0})

-- the name by which `Readdir` lists a share
unfoldable pub entry_of : Share → Option Bytes
entry_of s = elim s.type [
  | main ↦ some (codes "Home")
  | photos ↦ some (codes "Photos")
  | standard ↦ s.name
  | device ↦ none
  | unlisted ↦ none
]

unfoldable pub share_entries : List Share → List (Bytes × ℕ)
unfolding entry_of
share_entries [] = []
share_entries (s ∷ shares) =
    let rest = share_entries shares in
    elim (entry_of s) [ none ↦ rest | some name ↦ (name, s_ifdir) ∷ rest ]

-- `Readdir`
unfoldable pub readdir : List Share → List (Bytes × ℕ)
unfolding share_entries
readdir shares = share_entries shares ++ (codes ".linkid", s_ifdir) ∷ []

unfoldable pub is_main : Share → Bool
is_main s = elim s.type [ main ↦ true | _ ↦ false ]

unfoldable pub is_photos : Share → Bool
is_photos s = elim s.type [ photos ↦ true | _ ↦ false ]

unfoldable pub is_standard : Share → Bool
is_standard s = elim s.type [ standard ↦ true | _ ↦ false ]

unfoldable pub is_device : ShareType → Bool
is_device t = elim t [ device ↦ true | _ ↦ false ]

-- a standard share of that name
unfoldable pub is_named : Bytes → Share → Bool
unfolding is_standard
is_named name s = is_standard s && elim s.name [ none ↦ false | some own ↦ own =? name ]

unfoldable pub first_of : (Share → Bool) → List Share → Option Share
first_of test [] = none
first_of test (s ∷ shares) = let rest = first_of test shares in if test s then some s else rest

-- `findShareByName`
unfoldable pub find_share_by_name : List Share → Bytes → Option Share
unfolding first_of is_main is_photos is_named
find_share_by_name shares name =
    if name =? codes "Home"
    then first_of is_main shares
    else if name =? codes "Photos"
    then first_of is_photos shares
    else first_of (is_named name) shares

pub data Found : Type 0 where
  share_dir : ℕ → Found
  link_id_dir : Found

-- `Lookup`, which makes a new node for a share
unfoldable pub lookup :
    {S : Type 0} → Iteration → List Share → Bytes → Mount S → Mount S × Result ℕ Found
unfolding find_share_by_name
lookup it shares name m =
    if name =? codes ".linkid" then (m, ok link_id_dir) else elim (find_share_by_name shares name) [
      | none ↦ (m, err enoent)
      | some s ↦ let (m', n) = new_dir_node it true s.root m in (m', ok (share_dir n))
    ]

module _ (c : ShareClient) where
  pub record Handler : Type 0 where
    pub client : c.State
    pub shares : Map Bytes Share

  -- The loop of `LoadShares` and `RefreshShares`: a share that cannot be had is left out.
  unfoldable pub get_shares : List Meta → c.State → Map Bytes Share → c.State × Map Bytes Share
  unfolding is_device
  get_shares [] s shares = (s, shares)
  get_shares (meta ∷ metas) s shares = elim (is_device meta.type) [
    | true ↦ get_shares metas s shares
    | false ↦
        let (s', got) = c.get_share s meta.share_id in
        elim got [
          | none ↦ get_shares metas s' shares
          | some share ↦ get_shares metas s' (insert meta.share_id share shares)
        ]
  ]

  -- `RefreshShares`, and `LoadShares`, which does the same
  unfoldable pub refresh_shares : Handler → Handler × Result ℕ (Unit {0})
  unfolding get_shares
  refresh_shares h =
      let (s, r) = c.list_shares_metadata h.client in
      elim r [
        | err e ↦ (record h { client = s }, err e)
        | ok metas ↦
            let (s', shares) = get_shares metas s [] in
            (record { client = s'; shares = shares }, ok tt)
      ]

  -- `invalidateShares`
  unfoldable pub invalidate_shares : Handler → Handler
  invalidate_shares h = record h { shares = [] }

  unfoldable pub rename_errno : RenameError → ℕ
  rename_errno not_standard_share = eperm
  rename_errno (failed _) = eio

  -- `Rename`, in a range's order of the shares, where `elsewhere` is a new parent that is not nil
  unfoldable pub rename :
      List Share → Bytes → Bool → Bytes → Handler → Handler × Result ℕ (Unit {0})
  unfolding find_share_by_name is_standard invalidate_shares rename_errno
  rename order old elsewhere new h =
      if elsewhere then (h, err exdev) else elim (find_share_by_name order old) [
        | none ↦ (h, err enoent)
        | some share ↦
            if is_standard share
            then (let (s, r) = c.share_rename h.client share new in
                elim r [
                  | err e ↦ (record h { client = s }, err (rename_errno e))
                  | ok _ ↦ (invalidate_shares (record h { client = s }), ok tt)
                ])
            else (h, err eperm)
      ]
