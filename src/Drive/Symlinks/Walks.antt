-- ===== src/Drive/Symlinks/Walks.antt =====
-- Where a path leads as a relation, without a limit, and that the code computes it.
use Prim.Native.Nat.{max}
use proton_utils.Base.{
  ℕ, zero, suc, ◌≤◌, ◌≡◌, ◌↔◌, refl, sym, subst, Bool, true, false, not, ◌&&◌, ◌||◌, Bool-cases,
  inl, inr, Option, none, some, List, [], ◌∷◌, Bytes, codes, ok, err, Result, ◌<◌, leb, ◌⊎◌, ap,
  ◌∙◌, >>=-eq-ok, arith,
}
use proton_utils.Drive.Symlinks.Components.{
  IsStay, IsName, StartsAt, component-stay, component-up, component-named, component-cases,
  base_of-StartsAt, StartsAt-base_of,
}
use proton_utils.Drive.Symlinks.Splitting.{IsSplit, path_components-IsSplit, path_components_unique}
use proton_utils.Drive.Symlinks.{
  PathError, symlink_loop, Tree, path_components, is_last, enter, walk_part, walk_parts, base_of,
  follow_symlink, resolve_follow, max_symlink_depth,
}

-- Whether a symlink is followed that has these components behind it.
pub data IsFollowed : Bool → List Bytes → Type 0 where
  within : {final : Bool} {part : Bytes} {parts : List Bytes} → IsFollowed final (part ∷ parts)
  at_end : IsFollowed true []

IsFollowed-true :
    (final : Bool) (parts : List Bytes)
    → IsFollowed final parts
    → (not (is_last parts) || final) ≡ true
unfolding is_last
IsFollowed-true final (part ∷ parts) within = refl
IsFollowed-true true [] at_end = refl
IsFollowed-true false [] h = elim h [ ]

IsFollowed-cases :
    (final : Bool) (parts : List Bytes)
    → (((not (is_last parts) || final) ≡ true) × IsFollowed final parts)
      ⊎ (((not (is_last parts) || final) ≡ false) × ¬ IsFollowed final parts)
unfolding is_last
IsFollowed-cases final (part ∷ parts) = inl (refl, within)
IsFollowed-cases true [] = inl (refl, at_end)
IsFollowed-cases false [] = inr (refl, λ h. elim h [ ])

-- The code's test for both, as it is and as it is not.
IsFollowed-link :
    (link final : Bool) (parts : List Bytes)
    → (link && (not (is_last parts) || final)) ≡ true
    → (link ≡ true) × IsFollowed final parts
IsFollowed-link link final parts e = elim (IsFollowed-cases final parts) [
  | inl (d, h) ↦ (ground arith, h)
  | inr (d, h) ↦ absurd (ground arith)
]

unfollowed-link :
    (link final : Bool) (parts : List Bytes)
    → (link && (not (is_last parts) || final)) ≡ false
    → (link ≡ false) ⊎ (¬ IsFollowed final parts)
unfollowed-link link final parts e = elim (IsFollowed-cases final parts) [
  | inl (d, h) ↦ inl (ground arith)
  | inr (d, h) ↦ inr h
]

link-unfollowed :
    (link final : Bool) (parts : List Bytes)
    → (link ≡ false) ⊎ (¬ IsFollowed final parts)
    → (link && (not (is_last parts) || final)) ≡ false
link-unfollowed link final parts (inl e) = rw e refl
link-unfollowed link final parts (inr n) = elim (IsFollowed-cases final parts) [
  | inl (d, h) ↦ absurd (n h)
  | inr (d, h) ↦ ground arith
]

link-IsFollowed :
    (link final : Bool) (parts : List Bytes)
    → link ≡ true
    → IsFollowed final parts
    → (link && (not (is_last parts) || final)) ≡ true
link-IsFollowed link final parts e h = rw e (IsFollowed-true final parts h)

module _ (t : Tree) where
  -- A path leads from one link to another, component by component: an empty one and `.` stay where
  -- they are and `..` goes to the parent, all from any link; a name is looked up in a folder. Of the
  -- last component, a symlink is followed only if `final` says so; it stands for where the components
  -- of its target lead, from its base, to the very end.
  pub data Leads : Bool → t.Link → List Bytes → t.Link → Type 0 where
    ends : {final : Bool} {a : t.Link} → Leads final a [] a
    stays :
        {final : Bool} {a z : t.Link} {part : Bytes} {parts : List Bytes}
        → IsStay part
        → Leads final a parts z
        → Leads final a (part ∷ parts) z
    rises :
        {final : Bool} {a z : t.Link} {part : Bytes} {parts : List Bytes}
        → part ≡ codes ".."
        → Leads final (t.parent a) parts z
        → Leads final a (part ∷ parts) z
    enters :
        {final : Bool} {a z : t.Link} {part : Bytes} {parts : List Bytes} (child : t.Link)
        → IsName part
        → t.is_folder a ≡ true
        → t.lookup a part ≡ ok (some child)
        → (t.is_symlink child ≡ false) ⊎ (¬ IsFollowed final parts)
        → Leads final child parts z
        → Leads final a (part ∷ parts) z
    follows :
        {final : Bool} {a z : t.Link} {part : Bytes} {parts : List Bytes} (child aim base : t.Link)
        (target : Bytes) (target_parts : List Bytes)
        → IsName part
        → t.is_folder a ≡ true
        → t.lookup a part ≡ ok (some child)
        → t.is_symlink child ≡ true
        → IsFollowed final parts
        → t.read_symlink_target child ≡ ok target
        → StartsAt t a target base
        → IsSplit target target_parts
        → Leads true base target_parts aim
        → Leads final aim parts z
        → Leads final a (part ∷ parts) z

  -- The longest chain of symlinks, each in the target of the one before.
  unfoldable pub chain :
      {final : Bool} {a z : t.Link} {parts : List Bytes} → Leads final a parts z → ℕ
  chain ends = 0
  chain (stays _ l) = chain l
  chain (rises _ l) = chain l
  chain (enters _ _ _ _ _ l) = chain l
  chain (follows _ _ _ _ _ _ _ _ _ _ _ _ _ p l) = max (suc (chain p)) (chain l)

  -- What it is to follow a symlink, and that the code does it within a limit.
  abbrev IsPointed : ℕ → t.Link → t.Link → t.Link → Type 0
  IsPointed left a child aim =
      (target : Bytes) × (base : t.Link) × (t.read_symlink_target child ≡ ok target)
      × StartsAt t a target base
      × ((p : Leads true base (path_components target) aim) × (suc (chain p) ≤ left))

  abbrev FollowIsSound : ℕ → Type 0
  FollowIsSound left =
      (a child aim : t.Link) → follow_symlink t left a child ≡ ok aim → IsPointed left a child aim

  abbrev IsLed : ℕ → Bool → t.Link → List Bytes → t.Link → Type 0
  IsLed left final a parts z = (l : Leads final a parts z) × (chain l ≤ left)

  entered-IsLed :
      (left : ℕ) (final : Bool) (a next z : t.Link) (part : Bytes) (parts : List Bytes)
      (found : Option t.Link)
      → FollowIsSound left
      → IsName part
      → t.is_folder a ≡ true
      → t.lookup a part ≡ ok found
      → enter t (follow_symlink t left) (not (is_last parts) || final) a found ≡ ok next
      → IsLed left final next parts z
      → IsLed left final a (part ∷ parts) z
  unfolding enter chain
  entered-IsLed left final a next z part parts none sound c f k e led = absurd (cc e)
  entered-IsLed left final a next z part parts (some child) sound c f k e (l, small) =
      elim (Bool-cases (t.is_symlink child && (not (is_last parts) || final))) [
        | inl s ↦
            let (target, base, read, based, (p, short)) = sound a child next (rw s at e) in
            let (link, followed) = IsFollowed-link (t.is_symlink child) final parts s in
            (
              follows child next base target (path_components target) c f k link followed read based
                  (path_components-IsSplit target) p l,
              omega arith,
            )
        | inr s ↦
            let same : child ≡ next = cc (rw s at e) in
            let led : IsLed left final child parts z =
              subst (λ x. IsLed left final x parts z) (sym same) (l, small) in
            (enters child c f k (unfollowed-link (t.is_symlink child) final parts s) led.0, led.1)
      ]

  walk_part-IsLed :
      (left : ℕ) (final : Bool) (a next z : t.Link) (part : Bytes) (parts : List Bytes)
      → FollowIsSound left
      → walk_part t (follow_symlink t left) (not (is_last parts) || final) a part ≡ ok next
      → IsLed left final next parts z
      → IsLed left final a (part ∷ parts) z
  unfolding walk_part chain
  walk_part-IsLed left final a next z part parts sound e (l, small) = elim (component-cases part) [
    | inl c ↦
        let same : a ≡ next = cc (rw (component-stay c, walk_part) at e) in
        let led : IsLed left final a parts z =
          subst (λ x. IsLed left final x parts z) (sym same) (l, small) in
        (stays c led.0, led.1)
    | inr (inl c) ↦
        let same : t.parent a ≡ next = cc (rw (component-up c, walk_part) at e) in
        let led : IsLed left final (t.parent a) parts z =
          subst (λ x. IsLed left final x parts z) (sym same) (l, small) in
        (rises c led.0, led.1)
    | inr (inr c) ↦ elim (Bool-cases (t.is_folder a)) [
      | inr f ↦ absurd (cc (rw f at (rw (component-named c, walk_part) at e)))
      | inl f ↦
          let (found, k, e') =
            >>=-eq-ok (t.lookup a part)
              (enter t (follow_symlink t left) (not (is_last parts) || final) a)
              (rw f at (rw (component-named c, walk_part) at e)) in
          entered-IsLed left final a next z part parts found sound c f k e' (l, small)
    ]
  ]

  walk_parts-IsLed :
      (left : ℕ) (final : Bool) (a z : t.Link) (parts : List Bytes)
      → FollowIsSound left
      → walk_parts t (follow_symlink t left) final a parts ≡ ok z
      → IsLed left final a parts z
  unfolding walk_parts chain
  walk_parts-IsLed left final a z [] sound e =
      let same : a ≡ z = cc e in subst (λ x. IsLed left final a [] x) same (ends, omega arith)
  walk_parts-IsLed left final a z (part ∷ parts) sound e =
      let (next, first, rest) =
        >>=-eq-ok (walk_part t (follow_symlink t left) (not (is_last parts) || final) a part)
          (λ next. walk_parts t (follow_symlink t left) final next parts) e in
      walk_part-IsLed left final a next z part parts sound first
        (walk_parts-IsLed left final next z parts sound rest)

  follow_symlink-IsSound : (left : ℕ) → FollowIsSound left
  unfolding follow_symlink
  follow_symlink-IsSound zero a child aim e = absurd (cc e)
  follow_symlink-IsSound (suc left) a child aim e =
      let (target, read, e₁) = >>=-eq-ok (t.read_symlink_target child) _ e in
      let (base, based, e₂) = >>=-eq-ok (base_of t a target) _ e₁ in
      let (p, short) =
        walk_parts-IsLed left true base aim (path_components target) (follow_symlink-IsSound left)
          e₂ in
      (target, base, read, StartsAt-base_of t a base target based, (p, omega arith))

  followed :
      (left : ℕ) (a child aim base : t.Link) (target : Bytes) (target_parts : List Bytes)
      → t.read_symlink_target child ≡ ok target
      → StartsAt t a target base
      → IsSplit target target_parts
      → (r : Result PathError t.Link)
      → walk_parts t (follow_symlink t left) true base target_parts ≡ r
      → follow_symlink t (suc left) a child ≡ r
  unfolding follow_symlink
  followed left a child aim base target target_parts read based split r e =
      rw read
        (rw (base_of-StartsAt t based) (rw (path_components_unique target target_parts split) e))

  -- The steps of a walk, by what the relation says of the first component.
  walk-enters :
      (left : ℕ) (final : Bool) (a child : t.Link) (part : Bytes) (parts : List Bytes)
      → IsName part
      → t.is_folder a ≡ true
      → t.lookup a part ≡ ok (some child)
      → (t.is_symlink child ≡ false) ⊎ (¬ IsFollowed final parts)
      → walk_part t (follow_symlink t left) (not (is_last parts) || final) a part ≡ ok child
  unfolding walk_part enter
  walk-enters left final a child part parts c f k s =
      rw (component-named c, walk_part)
        (rw f (rw k (rw (link-unfollowed (t.is_symlink child) final parts s) refl)))

  walk-follows :
      (left : ℕ) (final : Bool) (a child : t.Link) (part : Bytes) (parts : List Bytes)
      → IsName part
      → t.is_folder a ≡ true
      → t.lookup a part ≡ ok (some child)
      → t.is_symlink child ≡ true
      → IsFollowed final parts
      → walk_part t (follow_symlink t left) (not (is_last parts) || final) a part
        ≡ follow_symlink t left a child
  unfolding walk_part enter
  walk-follows left final a child part parts c f k s h =
      rw (component-named c, walk_part)
        (rw f (rw k (rw (link-IsFollowed (t.is_symlink child) final parts s h) refl)))

  -- The other way round.
  walk_parts-Leads :
      (left : ℕ) {final : Bool} {a z : t.Link} {parts : List Bytes} (l : Leads final a parts z)
      → chain l ≤ left
      → walk_parts t (follow_symlink t left) final a parts ≡ ok z
  unfolding walk_parts walk_part chain
  walk_parts-Leads left ends h = refl
  walk_parts-Leads left (stays c l) h = rw (component-stay c, walk_part) (walk_parts-Leads left l h)
  walk_parts-Leads left (rises c l) h = rw (component-up c, walk_part) (walk_parts-Leads left l h)
  walk_parts-Leads left {final} {a} (enters {part = part} {parts = parts} child c f k s l) h =
      rw (walk-enters left final a child part parts c f k s) (walk_parts-Leads left l h)
  walk_parts-Leads (suc left) {final} {a}
        (follows {part = part} {parts = parts} child aim base target target_parts c f k s d read
          based split p l)
        h =
      let pointed : follow_symlink t (suc left) a child ≡ ok aim =
        followed left a child aim base target target_parts read based split (ok aim)
          (walk_parts-Leads left p (omega arith)) in
      rw (walk-follows (suc left) final a child part parts c f k s d)
        (rw pointed (walk_parts-Leads (suc left) l (omega arith)))
  walk_parts-Leads zero (follows child aim base target target_parts c f k s d read based split p l)
        h =
      absurd (omega arith)

  follow_symlink_out : (a child : t.Link) → follow_symlink t 0 a child ≡ err symlink_loop
  unfolding follow_symlink
  follow_symlink_out a child = refl

  -- Beyond the limit the walk fails.
  walk_parts-too_deep :
      (left : ℕ) {final : Bool} {a z : t.Link} {parts : List Bytes} (l : Leads final a parts z)
      → left < chain l
      → walk_parts t (follow_symlink t left) final a parts ≡ err symlink_loop
  unfolding walk_parts walk_part chain
  walk_parts-too_deep left ends h = absurd (omega arith)
  walk_parts-too_deep left (stays c l) h =
      rw (component-stay c, walk_part) (walk_parts-too_deep left l h)
  walk_parts-too_deep left (rises c l) h =
      rw (component-up c, walk_part) (walk_parts-too_deep left l h)
  walk_parts-too_deep left {final} {a} (enters {part = part} {parts = parts} child c f k s l) h =
      rw (walk-enters left final a child part parts c f k s) (walk_parts-too_deep left l h)
  walk_parts-too_deep zero {final} {a}
        (follows {part = part} {parts = parts} child aim base target target_parts c f k s d read
          based split p l)
        h =
      rw (walk-follows 0 final a child part parts c f k s d) (rw (follow_symlink_out a child) refl)
  walk_parts-too_deep (suc left) {final} {a}
        (follows {part = part} {parts = parts} child aim base target target_parts c f k s d read
          based split p l)
        h =
      elim (Bool-cases (leb (chain p) left)) [
        | inl short ↦
            let pointed : follow_symlink t (suc left) a child ≡ ok aim =
              followed left a child aim base target target_parts read based split (ok aim)
                (walk_parts-Leads left p (ground (arith, short))) in
            let rest : suc left < chain l = ground (arith, short) in
            rw (walk-follows (suc left) final a child part parts c f k s d)
              (rw pointed (walk_parts-too_deep (suc left) l rest))
        | inr deep ↦
            let pointed : follow_symlink t (suc left) a child ≡ err symlink_loop =
              followed left a child aim base target target_parts read based split (err symlink_loop)
                (walk_parts-too_deep left p (ground (arith, deep))) in
            rw (walk-follows (suc left) final a child part parts c f k s d) (rw pointed refl)
      ]

  -- `ResolveFollow` returns a link exactly when the components of the path lead to it, through chains
  -- of at most `maxSymlinkDepth` symlinks, each in the target of the one before; with `noFollow` a
  -- symlink that the last component names is returned itself.
  pub resolve_follow_iff :
      (root z : t.Link) (path : Bytes) (no_follow : Bool)
      → (resolve_follow t root path no_follow ≡ ok z) ↔ (
          (parts : List Bytes) × IsSplit path parts
          × ((l : Leads (not no_follow) root parts z) × (chain l ≤ max_symlink_depth)))
  unfolding resolve_follow
  resolve_follow_iff root z path no_follow = (
    λ e. (
      path_components path,
      path_components-IsSplit path,
      walk_parts-IsLed max_symlink_depth (not no_follow) root z (path_components path)
          (follow_symlink-IsSound max_symlink_depth) e,
    ),
    λ (parts, split, (l, h)).
        ap (walk_parts t (follow_symlink t max_symlink_depth) (not no_follow) root)
          (path_components_unique path parts split)
        ∙ walk_parts-Leads max_symlink_depth l h,
  )

  -- A path whose components lead to a link only through a longer chain of symlinks is refused with
  -- `ErrSymlinkLoop`.
  pub resolve_follow-too_deep :
      (root z : t.Link) (path : Bytes) (parts : List Bytes) (no_follow : Bool)
      → IsSplit path parts
      → (l : Leads (not no_follow) root parts z) → max_symlink_depth < chain l
      → resolve_follow t root path no_follow ≡ err symlink_loop
  unfolding resolve_follow
  resolve_follow-too_deep root z path parts no_follow split l h =
      ap (walk_parts t (follow_symlink t max_symlink_depth) (not no_follow) root)
        (path_components_unique path parts split)
      ∙ walk_parts-too_deep max_symlink_depth l h
