-- ===== src/Drive/Symlinks/Components.antt =====
-- What the components of a path and the beginning of a target mean, without the code's tests.
use proton_utils.Base.{
  ◌⊎◌, ℕ, ◌≡◌, ◌≢◌, refl, sym, ap, ◌∙◌, Bool-cases, inl, inr, some, Option-cases, subst, [], ◌∷◌,
  Bytes, codes, ◌=?◌, list_eq, list_beq, list_beq_iff, nat_eq, ok, arith,
}
use proton_utils.Drive.Symlinks.{Tree, stay, up, named, component, base_of, is_absolute}

pub data IsStay : Bytes → Type 0 where
  blank : IsStay []
  dot : IsStay (codes ".")

pub record IsName (part : Bytes) : Type 0 where
  pub full : part ≢ []
  pub no_dot : part ≢ codes "."
  pub no_dots : part ≢ codes ".."

pub component-stay : {part : Bytes} → IsStay part → component part ≡ stay
unfolding component list_beq
component-stay blank = refl
component-stay dot = refl

pub component-up : {part : Bytes} → part ≡ codes ".." → component part ≡ up
unfolding component list_beq
component-up e = rw e refl

pub component-named : {part : Bytes} → IsName part → component part ≡ named
unfolding component
component-named {part} n = ground (
  arith,
  list_beq_iff part [],
  list_beq_iff part (codes "."),
  list_beq_iff part (codes ".."),
  n.full,
  n.no_dot,
  n.no_dots,
)

pub component-cases : (part : Bytes) → IsStay part ⊎ (part ≡ codes "..") ⊎ IsName part
component-cases part = elim (Bool-cases (part =? [])) [
  | inl e ↦ inl (subst IsStay (sym ((list_beq_iff part []).0 e)) blank)
  | inr full ↦ elim (Bool-cases (part =? codes ".")) [
    | inl e ↦ inl (subst IsStay (sym ((list_beq_iff part (codes ".")).0 e)) dot)
    | inr no_dot ↦ elim (Bool-cases (part =? codes "..")) [
      | inl e ↦ inr (inl ((list_beq_iff part (codes "..")).0 e))
      | inr no_dots ↦ inr (
          inr (record {
            full = λ e. ground (arith, list_beq_iff part []);
            no_dot = λ e. ground (arith, list_beq_iff part (codes "."));
            no_dots = λ e. ground (arith, list_beq_iff part (codes ".."));
          }))
    ]
  ]
]

module _ (t : Tree) where
  -- What a target is resolved against, from the symlink's directory: the share's root if it begins
  -- with a slash.
  pub data StartsAt (a : t.Link) : Bytes → t.Link → Type 0 where
    of_empty : StartsAt a [] a
    of_relative : {c : ℕ} {cs : Bytes} → c ≢ b'/' → StartsAt a (c ∷ cs) a
    of_absolute :
        {c : ℕ} {cs : Bytes} {root : t.Link}
        → c ≡ b'/'
        → t.share_root ≡ some root
        → StartsAt a (c ∷ cs) root

  pub base_of-StartsAt :
      {a base : t.Link} {target : Bytes} → StartsAt a target base → base_of t a target ≡ ok base
  unfolding base_of is_absolute
  base_of-StartsAt of_empty = refl
  base_of-StartsAt (of_relative h) = ground (arith, h)
  base_of-StartsAt (of_absolute h e) = rw (h, e) refl

  pub StartsAt-base_of :
      (a base : t.Link) (target : Bytes) → base_of t a target ≡ ok base → StartsAt a target base
  unfolding base_of is_absolute
  StartsAt-base_of a base [] e = subst (StartsAt a []) (cc e) of_empty
  StartsAt-base_of a base (c ∷ cs) e = elim (Bool-cases (is_absolute (c ∷ cs))) [
    | inl h ↦ elim (Option-cases t.share_root) [
      | inl q ↦ absurd (cc (rw q at (rw (h, base_of) at e)))
      | inr (root, q) ↦
          let same : root ≡ base = cc (rw q at (rw (h, base_of) at e)) in
          of_absolute (ground (arith, h)) (q ∙ ap some same)
    ]
    | inr h ↦
        let same : a ≡ base = cc (rw (h, base_of) at e) in
        subst (StartsAt a (c ∷ cs)) same (of_relative (λ k. ground (arith, h)))
  ]
