-- ===== src/Fuse/Listings.antt =====
-- What a directory shows: through `Readdir`, and through the handle of `OpendirHandle`.
use proton_utils.Base.{
  ℕ, zero, suc, ◌+◌, ◌≡◌, refl, ap, sym, ◌∙◌, Option, none, some, List, [], ◌∷◌, length, get_elem?,
  drop, drop_of_length-le, Option-cases, ◌<◌, drop_count, Bytes, inl, inr, arith,
}
use proton_utils.Fuse.Outside.{returned, Interfaces}
use proton_utils.Fuse.Dispatch.{guarded, recovered, on_success}
use proton_utils.Fuse.Children.{Node, ReaddirHandle, build_readdir_handle, readdirent}
use proton_utils.Fuse.Operations.{readdir, opendir_handle}

drop-none : {A : Type 0} (xs : List A) (i : ℕ) → get_elem? xs i ≡ none → drop i xs ≡ []
drop-none [] zero h = refl
drop-none [] (suc i) h = refl
drop-none (x ∷ xs) zero h = cc
drop-none (x ∷ xs) (suc i) h = drop-none xs i h

drop-some :
    {A : Type 0} (xs : List A) (i : ℕ) (a : A)
    → get_elem? xs i ≡ some a
    → drop i xs ≡ a ∷ drop (i + 1) xs
drop-some [] i a h = cc
drop-some (x ∷ xs) zero a h = cc
drop-some (x ∷ xs) (suc i) a h =
    drop-some xs i a h ∙ ap (◌∷◌ a) (drop_count (x ∷ xs) (suc (i + 1)) (suc i + 1) (omega arith))

module _ (o : Interfaces) where
  -- what the kernel reads from a handle, entry by entry, until there is none
  unfoldable pub read_out : ℕ → ReaddirHandle o → List (Bytes × ℕ)
  read_out zero h = []
  read_out (suc rounds) h =
      let (h', e) = readdirent o h in elim e [ none ↦ [] | some entry ↦ entry ∷ read_out rounds h' ]

  read_out-eq-drop :
      (rounds : ℕ) (h : ReaddirHandle o)
      → length h.entries < rounds + h.pos
      → read_out rounds h ≡ drop h.pos h.entries
  unfolding read_out readdirent
  read_out-eq-drop zero h k = sym (drop_of_length-le h.pos h.entries (omega arith))
  read_out-eq-drop (suc rounds) h k = elim (Option-cases (get_elem? h.entries h.pos)) [
    | inl e ↦ ground (arith, drop-none h.entries h.pos)
    | inr (x, e) ↦ ground (
      arith,
      drop-some h.entries h.pos x,
      read_out-eq-drop rounds (record h { pos = h.pos + 1 }) (omega arith),
    )
  ]

  -- If `Readdir` and `OpendirHandle` of the same directory, at the same moment, succeed, then the
  -- entries that are read from the handle until its end are those that `Readdir` lists.
  pub read_out-opendir_handle :
      (reached : ℕ) (d : Node o) (who : Option ℕ) (w w₁ w₂ : o.World) (l : List (Bytes × ℕ))
      (h : ReaddirHandle o)
      → readdir o d who w ≡ (w₁, returned l 0)
      → opendir_handle o reached d who w ≡ (w₂, returned (some h) 0)
      → read_out (suc (length l)) h ≡ l
  unfolding readdir opendir_handle guarded recovered on_success build_readdir_handle
  read_out-opendir_handle reached d who w w₁ w₂ l h p q =
      let (e, z) : (h.entries ≡ l) × (h.pos ≡ 0) = (ground arith, ground arith) in
      read_out-eq-drop _ h (omega (arith, ap length e)) ∙ drop_count h.entries h.pos 0 z ∙ e
