-- ===== src/Drive/Symlinks/Bounds.antt =====
-- How many symlinks resolution may follow one after the other.
use proton_utils.Base.{
  ℕ, zero, suc, ◌≡◌, refl, Bool, true, false, not, ◌||◌, some, replicate, Bytes, codes, list_eq,
  list_beq, nat_eq, ok,
}
use proton_utils.Drive.Symlinks.{
  Tree, path_components, split_slash, trim_left, trim_right, named, component, is_last, is_absolute,
  enter, walk_part, walk_parts, base_of, follow_symlink, resolve_follow,
}

module _ (t : Tree) where
  -- A symlink that leads back to its directory, as the target `.` does.
  follow_here :
      (left : ℕ) (a child : t.Link)
      → t.read_symlink_target child ≡ ok (codes ".")
      → follow_symlink t (suc left) a child ≡ ok a
  unfolding follow_symlink base_of walk_parts walk_part component list_beq path_components
      split_slash trim_left trim_right is_absolute
  follow_here left a child e = rw e refl

  walk_part-here :
      (left : ℕ) (last : Bool) (a child : t.Link) (part : Bytes)
      → component part ≡ named
      → t.is_folder a ≡ true
      → t.lookup a part ≡ ok (some child)
      → t.is_symlink child ≡ true
      → t.read_symlink_target child ≡ ok (codes ".")
      → walk_part t (follow_symlink t (suc left)) (not last || true) a part ≡ ok a
  unfolding walk_part enter
  walk_part-here left true a child part c f k s r =
      rw (c, walk_part) (rw f (rw k (rw s (follow_here left a child r))))
  walk_part-here left false a child part c f k s r =
      rw (c, walk_part) (rw f (rw k (rw s (follow_here left a child r))))

  walk_parts-replicate :
      (n left : ℕ) (a child : t.Link) (part : Bytes)
      → component part ≡ named
      → t.is_folder a ≡ true
      → t.lookup a part ≡ ok (some child)
      → t.is_symlink child ≡ true
      → t.read_symlink_target child ≡ ok (codes ".")
      → walk_parts t (follow_symlink t (suc left)) true a (replicate n part) ≡ ok a
  unfolding walk_parts
  walk_parts-replicate zero left a child part c f k s r = refl
  walk_parts-replicate (suc n) left a child part c f k s r =
      rw (walk_part-here left (is_last (replicate n part)) a child part c f k s r)
        (walk_parts-replicate n left a child part c f k s r)

  -- The limit is one of nesting: a path that names such a symlink any number of times is resolved,
  -- though each of its components is a symlink that is followed.
  pub resolve_follow-replicate :
      (n : ℕ) (a child : t.Link) (part path : Bytes)
      → path_components path ≡ replicate n part
      → component part ≡ named
      → t.is_folder a ≡ true
      → t.lookup a part ≡ ok (some child)
      → t.is_symlink child ≡ true
      → t.read_symlink_target child ≡ ok (codes ".")
      → resolve_follow t a path false ≡ ok a
  unfolding resolve_follow
  resolve_follow-replicate n a child part path e c f k s r =
      rw e (walk_parts-replicate n 39 a child part c f k s r)
