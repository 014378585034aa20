-- ===== src/Tests/Paths.antt =====
-- A folder with a file and a chain of symlinks to it.
use proton_utils.Base.{
  ℕ, zero, suc, ◌+◌, ◌-◌, ◌==◌, ◌≡◌, ◌↔◌, ◌≤◌, ltb, refl, ap, true, false, none, some, List, [],
  ◌∷◌, Bytes, ok, err, inl, inr, arith, Option,
}
use proton_utils.Drive.Symlinks.{Tree, symlink_loop, resolve_follow, max_symlink_depth}
use proton_utils.Drive.Symlinks.Components.{IsName, of_relative}
use proton_utils.Drive.Symlinks.Splitting.{IsSplit, join_slash, is_bare, begins_bare, ends_bare}
use proton_utils.Drive.Symlinks.Walks.{
  Leads, ends, enters, follows, at_end, chain, resolve_follow_iff, resolve_follow-too_deep,
}

-- The folder is 0, the file 1, and a greater number a symlink to the one before. The name of each is
-- the byte of its number and 60.
abbrev head : Bytes → ℕ
head [] = 0
head (c ∷ _) = c

abbrev found : Bytes → Option ℕ
found [] = none
found (c ∷ _) = some (c - 60)

abbrev name_of : ℕ → Bytes
name_of l = (60 + l) ∷ []

abbrev before : ℕ → ℕ
before zero = 0
before (suc l) = l

abbrev tree : Tree
tree = record {
  Link = ℕ;
  is_folder = λ l. l == 0;
  is_symlink = λ l. ltb 1 l;
  parent = λ l. 0;
  lookup = λ l name. ok (found name);
  read_symlink_target = λ l. ok (name_of (before l));
  share_root = some 0;
}

resolve_follow_iff_example : (resolve_follow tree 0 (name_of 3) false ≡ ok 1) ↔ (
    (parts : List Bytes) × IsSplit (name_of 3) parts
    × ((l : Leads tree true 0 parts 1) × (chain tree l ≤ max_symlink_depth)))
resolve_follow_iff_example = resolve_follow_iff tree 0 1 (name_of 3) false

name_of-IsName : (l : ℕ) → IsName (name_of l)
name_of-IsName l = record {
  full = λ e. cc e;
  no_dot = λ e. omega (arith, ap head e);
  no_dots = λ e. cc e;
}

name_of-IsSplit : (l : ℕ) → IsSplit (name_of l) (name_of l ∷ [])
unfolding join_slash is_bare begins_bare ends_bare
name_of-IsSplit l = record {
  lead = 0;
  trail = 0;
  whole = refl;
  bare = (ground arith, tt);
  begins = ground arith;
  ends = ground arith;
  proper = inr (λ e. cc e);
}

found-name_of : (l : ℕ) → tree.lookup 0 (name_of l) ≡ ok (some l)
found-name_of l = ground arith

-- the way to the file by a symlink, in whose target there are others
way : (n : ℕ) → Leads tree true 0 (name_of (suc n) ∷ []) 1
way zero = enters 1 (name_of-IsName 1) refl (found-name_of 1) (inl refl) ends
way (suc n) =
    follows (suc (suc n)) 1 0 (name_of (suc n)) (name_of (suc n) ∷ [])
      (name_of-IsName (suc (suc n))) refl (found-name_of (suc (suc n))) (ground arith) at_end refl
      (of_relative (λ k. omega arith)) (name_of-IsSplit (suc n)) (way n) ends

chain-way : (n : ℕ) → chain tree (way n) ≡ n
unfolding way chain
chain-way zero = refl
chain-way (suc n) = omega (arith, chain-way n)

resolve_follow-too_deep_example : resolve_follow tree 0 (name_of 42) false ≡ err symlink_loop
resolve_follow-too_deep_example =
    resolve_follow-too_deep tree 0 1 (name_of 42) (name_of 42 ∷ []) false (name_of-IsSplit 42)
      (way 41) (omega (arith, chain-way 41))
