-- ===== src/Tests/Shares.antt =====
-- A namespace with the main volume and one share.
use proton_utils.Base.{
  ◌≡◌, refl, Bool, true, false, none, some, [], ◌∷◌, codes, list_eq, nat_eq, arith, All, list_beq,
  ℕ,
}
use proton_utils.Fuse.Directories.{Link, new_mount}
use proton_utils.Tests.Directories.{iteration}
use proton_utils.Fuse.Shares
use proton_utils.Fuse.Shares.{Share, main, standard}
use proton_utils.Fuse.Shares.Names.{
  IsOrdinary, is_reserved, any, is_listed, is_success, is_listed-readdir,
}

abbrev folder : Link
folder = record {
  link_id = codes "R";
  share = codes "S";
  is_folder = true;
  is_symlink = false;
  is_trashed = false;
  is_draft = false;
}

abbrev home : Share
home = record { share_id = codes "S"; type = main; name = none; root = folder }

abbrev work : Share
work = record { share_id = codes "T"; type = standard; name = some (codes "Work"); root = folder }

swapped : (test : Share → Bool) → any test (work ∷ home ∷ []) ≡ any test (home ∷ work ∷ [])
unfolding any
swapped test = ground arith

ordinary : All IsOrdinary (home ∷ work ∷ [])
unfolding Shares.is_named Shares.is_standard is_reserved list_beq
ordinary = (refl, (refl, tt))

-- `Work` is listed and found, though the two go through the shares in other orders.
is_listed-readdir_example :
    is_listed (codes "Work") (Shares.readdir (home ∷ work ∷ []))
    ≡ is_success (Shares.lookup {S = ℕ} iteration (work ∷ home ∷ []) (codes "Work") (new_mount 0)).1
is_listed-readdir_example =
    is_listed-readdir {S = ℕ} iteration (home ∷ work ∷ []) (work ∷ home ∷ []) (codes "Work")
      (new_mount 0) swapped ordinary
