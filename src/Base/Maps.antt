-- ===== src/Base/Maps.antt =====
-- Go's `map[K]V` as an association list: `m[k]`, `m[k] = v`, `delete(m, k)` and `len(m)`.
use Prim.Native.Nat.{ℕ, suc}
use mathlib.Core.Path.{◌≡◌, refl}
use mathlib.Core.Bool.{Bool, true, false}
use mathlib.Core.Option.{Option, none, some}
use mathlib.Core.List.{List, [], ◌∷◌}
use native.Mathlib.Omega.{arith}
use proton_utils.Base.Tests.{if◌then◌else◌}
use proton_utils.Base.Equality.{Eq, ◌=?◌}

abbrev pub Map {ℓ κ} : Type ℓ → Type κ → Type (ℓ ⊔ κ)
Map K V = List (K × V)

module _ {ℓ κ} {K : Type ℓ} {V : Type κ} ⦃e : Eq K⦄ where
  unfoldable pub lookup : K → Map K V → Option V
  lookup k [] = none
  lookup k ((j, v) ∷ m) = if j =? k then some v else lookup k m

  unfoldable pub insert : K → V → Map K V → Map K V
  insert k v [] = (k, v) ∷ []
  insert k v ((j, w) ∷ m) = if j =? k then (k, v) ∷ m else (j, w) ∷ insert k v m

  unfoldable pub delete : K → Map K V → Map K V
  delete k [] = []
  delete k ((j, v) ∷ m) = let rest = delete k m in if j =? k then rest else (j, v) ∷ rest

  abbrev pub has : K → Map K V → Bool
  has k m = elim (lookup k m) [ none ↦ false | some _ ↦ true ]

  -- No key is bound twice.
  abbrev pub IsNodup : Map K V → Type 0
  IsNodup [] = Unit
  IsNodup ((j, v) ∷ m) = (has j m ≡ false) × IsNodup m

unfoldable pub size {ℓ κ} : {K : Type ℓ} {V : Type κ} → Map K V → ℕ
size [] = 0
size (_ ∷ m) = suc (size m)

module _ {ℓ κ} {K : Type ℓ} {V : Type κ} ⦃e : Eq K⦄ where
  pub lookup-insert :
      (k j : K) (v : V) (m : Map K V)
      → lookup j (insert k v m) ≡ (if k =? j then some v else lookup j m)
  unfolding lookup insert
  lookup-insert k j v [] = refl
  lookup-insert k j v ((i, w) ∷ m) =
      ground (arith, e.beq_iff k j, e.beq_iff i k, e.beq_iff i j, lookup-insert k j v m)

  pub lookup-delete :
      (k j : K) (m : Map K V) → lookup j (delete k m) ≡ (if k =? j then none else lookup j m)
  unfolding lookup delete
  lookup-delete k j [] = ground arith
  lookup-delete k j ((i, w) ∷ m) =
      ground (arith, e.beq_iff k j, e.beq_iff i k, e.beq_iff i j, lookup-delete k j m)

  pub size-insert :
      (k : K) (v : V) (m : Map K V)
      → size (insert k v m) ≡ (if has k m then size m else suc (size m))
  unfolding lookup insert size
  size-insert k v [] = refl
  size-insert k v ((i, w) ∷ m) = ground (arith, size-insert k v m)

  delete_absent : (k : K) (m : Map K V) → has k m ≡ false → delete k m ≡ m
  unfolding lookup delete
  delete_absent k [] h = refl
  delete_absent k ((i, w) ∷ m) h = ground (arith, delete_absent k m)

  pub size-delete :
      (k : K) (m : Map K V)
      → IsNodup m
      → size m ≡ (if has k m then suc (size (delete k m)) else size (delete k m))
  unfolding lookup delete size
  size-delete k [] h = refl
  size-delete k ((i, w) ∷ m) h = ground (arith, size-delete k m, delete_absent k m, e.beq_iff i k)

  pub insert-IsNodup : (k : K) (v : V) (m : Map K V) → IsNodup m → IsNodup (insert k v m)
  unfolding insert
  insert-IsNodup k v [] h = (unfold lookup in refl, tt)
  insert-IsNodup k v ((i, w) ∷ m) h =
      ground (arith, insert-IsNodup k v m, lookup-insert k i v m, e.beq_iff i k, e.beq_iff k i)

  pub delete-IsNodup : (k : K) (m : Map K V) → IsNodup m → IsNodup (delete k m)
  unfolding delete
  delete-IsNodup k [] h = tt
  delete-IsNodup k ((i, w) ∷ m) h =
      ground (arith, delete-IsNodup k m, lookup-delete k i m, e.beq_iff i k, e.beq_iff k i)
