-- ===== src/Drive/Symlinks/Splitting.antt =====
-- What the components of a path are, without the code's way to find them.
use proton_utils.Base.{
  ◌⊎◌, ℕ, zero, suc, ◌≡◌, ◌≢◌, refl, sym, ap, ◌∙◌, Bool, true, not, ◌&&◌, ◌==◌, Bool-cases, inl,
  inr, subst, List, [], ◌∷◌, ◌++◌, replicate, Bytes, All, arith,
}
use proton_utils.Drive.Symlinks.{path_components, split_slash, trim_left, trim_right}

List-cases : {A : Type 0} (xs : List A) → (xs ≡ []) ⊎ ((y : A) × (ys : List A) × (xs ≡ y ∷ ys))
List-cases [] = inl refl
List-cases (y ∷ ys) = inr (y, ys, refl)

-- parts with a slash between each and the next
unfoldable pub join_slash : List Bytes → Bytes
join_slash [] = []
join_slash (p ∷ ps) = elim ps [ [] ↦ p | _ ↦ p ++ b'/' ∷ join_slash ps ]

unfoldable pub is_bare : Bytes → Bool
is_bare [] = true
is_bare (c ∷ cs) = not (c == b'/') && is_bare cs

unfoldable pub begins_bare : Bytes → Bool
begins_bare [] = true
begins_bare (c ∷ _) = not (c == b'/')

unfoldable pub ends_bare : Bytes → Bool
ends_bare [] = true
ends_bare (c ∷ []) = not (c == b'/')
ends_bare (c ∷ d ∷ ds) = ends_bare (d ∷ ds)

-- A path has these components: it is they with slashes between, and any slashes before and after.
-- No component has a slash, and the first and the last are not empty.
pub record IsSplit (path : Bytes) (parts : List Bytes) : Type 0 where
  pub lead : ℕ
  pub trail : ℕ
  pub whole : path ≡ replicate lead b'/' ++ (join_slash parts ++ replicate trail b'/')
  pub bare : All (λ p. is_bare p ≡ true) parts
  pub begins : begins_bare (join_slash parts) ≡ true
  pub ends : ends_bare (join_slash parts) ≡ true
  pub proper : (parts ≡ []) ⊎ (join_slash parts ≢ [])

-- The code finds them.
trim_left-replicate : (n : ℕ) (y : Bytes) → trim_left (replicate n b'/' ++ y) ≡ trim_left y
unfolding trim_left
trim_left-replicate zero y = refl
trim_left-replicate (suc n) y = trim_left-replicate n y

trim_left_slashes : (n : ℕ) → trim_left (replicate n b'/') ≡ []
unfolding trim_left
trim_left_slashes zero = refl
trim_left_slashes (suc n) = trim_left_slashes n

trim_right_slashes : (n : ℕ) → trim_right (replicate n b'/') ≡ []
unfolding trim_right
trim_right_slashes zero = refl
trim_right_slashes (suc n) = rw (trim_right_slashes n) refl

trim_right-append :
    (y : Bytes) (n : ℕ) → ends_bare y ≡ true → trim_right (y ++ replicate n b'/') ≡ y
unfolding trim_right ends_bare
trim_right-append [] n h = trim_right_slashes n
trim_right-append (c ∷ []) n h = rw (trim_right_slashes n, trim_right) (ground arith)
trim_right-append (c ∷ d ∷ ds) n h = rw (trim_right-append (d ∷ ds) n h, trim_right) refl

split_slash_bare : (p : Bytes) → is_bare p ≡ true → split_slash p ≡ p ∷ []
unfolding split_slash is_bare
split_slash_bare [] h = refl
split_slash_bare (c ∷ cs) h = ground (arith, split_slash_bare cs)

split_slash-append :
    (p rest q : Bytes) (qs : List Bytes)
    → is_bare p ≡ true
    → split_slash rest ≡ q ∷ qs
    → split_slash (p ++ b'/' ∷ rest) ≡ p ∷ q ∷ qs
unfolding split_slash is_bare
split_slash-append [] rest q qs h e = rw e refl
split_slash-append (c ∷ cs) rest q qs h e = ground (arith, split_slash-append cs rest q qs)

split_slash-join_slash :
    (p : Bytes) (ps : List Bytes)
    → All (λ p. is_bare p ≡ true) (p ∷ ps)
    → split_slash (join_slash (p ∷ ps)) ≡ p ∷ ps
unfolding join_slash
split_slash-join_slash p [] (h, _) = split_slash_bare p h
split_slash-join_slash p (q ∷ ps) (h, k) =
    split_slash-append p (join_slash (q ∷ ps)) q ps h (split_slash-join_slash q ps k)

-- And what it finds are the components.
trim_left-begins : (x : Bytes) → begins_bare (trim_left x) ≡ true
unfolding trim_left begins_bare
trim_left-begins [] = refl
trim_left-begins (c ∷ cs) = ground (arith, trim_left-begins cs)

trim_left-lead : (x : Bytes) → (n : ℕ) × (x ≡ replicate n b'/' ++ trim_left x)
unfolding trim_left
trim_left-lead [] = (0, refl)
trim_left-lead (c ∷ cs) = elim (Bool-cases (c == b'/')) [
  | inl e ↦ let (n, k) = trim_left-lead cs in (suc n, rw e (ground (arith, k)))
  | inr e ↦ (0, rw e refl)
]

trim_right-ends : (x : Bytes) → ends_bare (trim_right x) ≡ true
unfolding trim_right ends_bare
trim_right-ends [] = refl
trim_right-ends (c ∷ cs) = elim (List-cases (trim_right cs)) [
  | inl q ↦ rw q (ground arith)
  | inr (d, ds, q) ↦ rw q (rw q at (trim_right-ends cs))
]

trim_right-begins : (x : Bytes) → begins_bare x ≡ true → begins_bare (trim_right x) ≡ true
unfolding trim_right begins_bare
trim_right-begins [] h = refl
trim_right-begins (c ∷ cs) h = ground (arith, trim_right cs)

join_slash-cons :
    (c : ℕ) (p : Bytes) (ps : List Bytes) → join_slash ((c ∷ p) ∷ ps) ≡ c ∷ join_slash (p ∷ ps)
unfolding join_slash
join_slash-cons c p [] = refl
join_slash-cons c p (q ∷ ps) = refl

join_slash-split_slash : (x : Bytes) → join_slash (split_slash x) ≡ x
unfolding join_slash split_slash
join_slash-split_slash [] = refl
join_slash-split_slash (c ∷ cs) = elim (List-cases (split_slash cs)) [
  | inl q ↦ rw q (ap (◌∷◌ c) (rw q at (join_slash-split_slash cs)))
  | inr (p, ps, q) ↦
      let rest : join_slash (p ∷ ps) ≡ cs = rw q at (join_slash-split_slash cs) in
      elim (Bool-cases (c == b'/')) [
        | inl e ↦ rw q (rw e (ground (arith, rest)))
        | inr e ↦ rw q (rw e (join_slash-cons c p ps ∙ ap (◌∷◌ c) rest))
      ]
]

split_slash-ne : (x : Bytes) → split_slash x ≢ []
unfolding split_slash
split_slash-ne [] h = cc
split_slash-ne (c ∷ cs) h = elim (List-cases (split_slash cs)) [
  | inl q ↦ split_slash-ne cs q
  | inr (p, ps, q) ↦ elim (Bool-cases (c == b'/')) [
    | inl e ↦ cc (rw e at (rw q at h))
    | inr e ↦ cc (rw e at (rw q at h))
  ]
]

split_slash-bare : (x : Bytes) → All (λ p. is_bare p ≡ true) (split_slash x)
unfolding split_slash is_bare
split_slash-bare [] = (refl, tt)
split_slash-bare (c ∷ cs) = elim (List-cases (split_slash cs)) [
  | inl q ↦ absurd (split_slash-ne cs q)
  | inr (p, ps, q) ↦
      let rest : All (λ x. is_bare x ≡ true) (p ∷ ps) =
        subst (All (λ x. is_bare x ≡ true)) q (split_slash-bare cs) in
      elim (Bool-cases (c == b'/')) [
        | inl e ↦ rw q (rw e (refl, rest))
        | inr e ↦ rw q (rw e (rw e rest.0, rest.1))
      ]
]

trim_right-trail : (x : Bytes) → (n : ℕ) × (x ≡ trim_right x ++ replicate n b'/')
unfolding trim_right
trim_right-trail [] = (0, refl)
trim_right-trail (c ∷ cs) =
    let (n, k) = trim_right-trail cs in
    elim (List-cases (trim_right cs)) [
      | inl q ↦
          let slashes : cs ≡ replicate n b'/' = k ∙ ap (λ y. y ++ replicate n b'/') q in
          elim (Bool-cases (c == b'/')) [
            | inl e ↦ (suc n, rw q (rw e (ground (arith, slashes))))
            | inr e ↦ (n, rw q (rw e (ap (◌∷◌ c) slashes)))
          ]
      | inr (d, ds, q) ↦ (n, rw q (ap (◌∷◌ c) (k ∙ ap (λ y. y ++ replicate n b'/') q)))
    ]

path_components-cons :
    (path : Bytes) (c : ℕ) (cs : Bytes)
    → trim_right (trim_left path) ≡ c ∷ cs
    → path_components path ≡ split_slash (c ∷ cs)
unfolding path_components
path_components-cons path c cs e = rw (e, path_components) refl

path_components_slashes :
    (path : Bytes) → trim_right (trim_left path) ≡ [] → path_components path ≡ []
unfolding path_components
path_components_slashes path e = rw (e, path_components) refl

IsSplit-of_trimmed :
    (path y : Bytes) (parts : List Bytes)
    → trim_right (trim_left path) ≡ y
    → join_slash parts ≡ y
    → All (λ p. is_bare p ≡ true) parts
    → (parts ≡ []) ⊎ (y ≢ [])
    → IsSplit path parts
IsSplit-of_trimmed path y parts e j bare proper =
    let (m, k) = trim_left-lead path in
    let (n, l) = trim_right-trail (trim_left path) in
    record {
      lead = m;
      trail = n;
      whole = k ∙ ap (λ x. replicate m b'/' ++ x) (l ∙ ap (λ x. x ++ replicate n b'/') (e ∙ sym j));
      bare = bare;
      begins =
          ap begins_bare (j ∙ sym e) ∙ trim_right-begins (trim_left path) (trim_left-begins path);
      ends = ap ends_bare (j ∙ sym e) ∙ trim_right-ends (trim_left path);
      proper = subst (λ x. (parts ≡ []) ⊎ (x ≢ [])) (sym j) proper;
    }

pub path_components-IsSplit : (path : Bytes) → IsSplit path (path_components path)
unfolding join_slash
path_components-IsSplit path = elim (List-cases (trim_right (trim_left path))) [
  | inl e ↦
      subst (IsSplit path) (sym (path_components_slashes path e))
        (IsSplit-of_trimmed path [] [] e refl tt (inl refl))
  | inr (c, cs, e) ↦ subst (IsSplit path) (sym (path_components-cons path c cs e)) (
      IsSplit-of_trimmed path (c ∷ cs) (split_slash (c ∷ cs)) e (join_slash-split_slash (c ∷ cs))
        (split_slash-bare (c ∷ cs)) (inr (λ h. cc)))
]

trimmed :
    (y : Bytes) (m n : ℕ)
    → begins_bare y ≡ true
    → ends_bare y ≡ true
    → trim_right (trim_left (replicate m b'/' ++ (y ++ replicate n b'/'))) ≡ y
unfolding trim_left begins_bare
trimmed [] m n b e =
    ap trim_right (trim_left-replicate m (replicate n b'/') ∙ trim_left_slashes n)
    ∙ trim_right_slashes 0
trimmed (c ∷ cs) m n b e =
    ap trim_right (trim_left-replicate m (c ∷ (cs ++ replicate n b'/')) ∙ ground (arith, b))
    ∙ trim_right-append (c ∷ cs) n e

pub path_components_unique :
    (path : Bytes) (parts : List Bytes) → IsSplit path parts → path_components path ≡ parts
unfolding join_slash begins_bare ends_bare
path_components_unique path [] s =
    path_components_slashes path
      (ap (λ x. trim_right (trim_left x)) s.whole ∙ trimmed [] s.lead s.trail refl refl)
path_components_unique path (p ∷ ps) s =
    let e =
      ap (λ x. trim_right (trim_left x)) s.whole
      ∙ trimmed (join_slash (p ∷ ps)) s.lead s.trail s.begins s.ends in
    elim (List-cases (join_slash (p ∷ ps))) [
      | inl q ↦ elim s.proper [ inl n ↦ absurd (cc n) | inr n ↦ absurd (n q) ]
      | inr (c, cs, q) ↦
          path_components-cons path c cs (e ∙ q)
          ∙ (ap split_slash (sym q) ∙ split_slash-join_slash p ps s.bare)
    ]
