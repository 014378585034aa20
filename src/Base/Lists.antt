-- ===== src/Base/Lists.antt =====
-- Lists measured and indexed by native numbers, under the library's names.
use Prim.Native.Nat.{ℕ, zero, suc, ◌+◌, ◌-◌, ◌≤◌, min}
use mathlib.Core.Path.{◌≡◌, refl, sym, ap, ◌∙◌}
use mathlib.Core.List.{List, [], ◌∷◌, ◌++◌}
use mathlib.Core.Option.{Option, none, some}
use native.Mathlib.Omega.{arith}

module _ {ℓ} {A : Type ℓ} where
  abbrev pub length : List A → ℕ
  length [] = 0
  length (x ∷ xs) = suc (length xs)

  abbrev pub get_elem? : List A → ℕ → Option A
  get_elem? [] i = none
  get_elem? (x ∷ xs) zero = some x
  get_elem? (x ∷ xs) (suc i) = get_elem? xs i

  abbrev pub take : ℕ → List A → List A
  take zero xs = []
  take (suc n) [] = []
  take (suc n) (x ∷ xs) = x ∷ take n xs

  abbrev pub drop : ℕ → List A → List A
  drop zero xs = xs
  drop (suc n) [] = []
  drop (suc n) (x ∷ xs) = drop n xs

  abbrev pub replicate : ℕ → A → List A
  replicate zero a = []
  replicate (suc n) a = a ∷ replicate n a

module _ {ℓ} {A : Type ℓ} where
  pub length-append : (xs ys : List A) → length (xs ++ ys) ≡ length xs + length ys
  length-append [] ys = omega arith
  length-append (x ∷ xs) ys = omega (arith, length-append xs ys)

  pub take-append-drop : (n : ℕ) (xs : List A) → take n xs ++ drop n xs ≡ xs
  take-append-drop zero xs = refl
  take-append-drop (suc n) [] = refl
  take-append-drop (suc n) (x ∷ xs) = ap (◌∷◌ x) (take-append-drop n xs)

  pub length-take : (n : ℕ) (xs : List A) → length (take n xs) ≡ min n (length xs)
  length-take zero xs = omega arith
  length-take (suc n) [] = omega arith
  length-take (suc n) (x ∷ xs) = omega (arith, length-take n xs)

  pub length-drop : (n : ℕ) (xs : List A) → length (drop n xs) ≡ length xs - n
  length-drop zero xs = omega arith
  length-drop (suc n) [] = omega arith
  length-drop (suc n) (x ∷ xs) = omega (arith, length-drop n xs)

  pub take_of_length-le : (n : ℕ) (l : List A) → length l ≤ n → take n l ≡ l
  take_of_length-le (suc n) (a ∷ l) p = ap (λ rest. a ∷ rest) (take_of_length-le n l (omega arith))
  take_of_length-le (suc n) [] p = refl
  take_of_length-le zero (a ∷ l) p = absurd (omega arith)
  take_of_length-le zero [] p = refl

  pub drop_of_length-le : (n : ℕ) (xs : List A) → length xs ≤ n → drop n xs ≡ []
  drop_of_length-le zero [] h = refl
  drop_of_length-le zero (x ∷ xs) h = absurd (omega arith)
  drop_of_length-le (suc n) [] h = refl
  drop_of_length-le (suc n) (x ∷ xs) h = drop_of_length-le n xs (omega arith)

  pub take-append : (xs ys : List A) → take (length xs) (xs ++ ys) ≡ xs
  take-append [] ys = refl
  take-append (x ∷ xs) ys = ap (◌∷◌ x) (take-append xs ys)

  pub drop-append : (xs ys : List A) → drop (length xs) (xs ++ ys) ≡ ys
  drop-append [] ys = refl
  drop-append (x ∷ xs) ys = drop-append xs ys

  pub length-eq-zero : (xs : List A) → length xs ≡ 0 → xs ≡ []
  length-eq-zero [] h = refl
  length-eq-zero (x ∷ xs) h = absurd (omega arith)

module _ {ℓ} {A : Type ℓ} where
  pub take_count : (xs : List A) (j k : ℕ) → j ≡ k → take j xs ≡ take k xs
  take_count xs j k e = ap (λ n. take n xs) e

  pub drop_count : (xs : List A) (j k : ℕ) → j ≡ k → drop j xs ≡ drop k xs
  drop_count xs j k e = ap (λ n. drop n xs) e

module _ {ℓ} {A : Type ℓ} where
  take-nil : (n : ℕ) → [] ≡ take {A = A} n []
  take-nil zero = refl
  take-nil (suc n) = refl

  drop-nil : (n : ℕ) → drop {A = A} n [] ≡ []
  drop-nil zero = refl
  drop-nil (suc n) = refl

module _ {ℓ} {A : Type ℓ} where
  pub take-take : (n k : ℕ) (xs : List A) → take n (take k xs) ≡ take (min n k) xs
  take-take zero k xs = take_count xs 0 (min 0 k) (omega arith)
  take-take (suc n) zero xs = take_count xs 0 (min (suc n) 0) (omega arith)
  take-take (suc n) (suc k) [] = take-nil (min (suc n) (suc k))
  take-take (suc n) (suc k) (x ∷ xs) =
      ap (◌∷◌ x) (take-take n k xs)
      ∙ take_count (x ∷ xs) (suc (min n k)) (min (suc n) (suc k)) (omega arith)

  pub drop-drop : (n k : ℕ) (xs : List A) → drop n (drop k xs) ≡ drop (k + n) xs
  drop-drop n zero xs = drop_count xs n (0 + n) (omega arith)
  drop-drop n (suc k) [] = drop-nil n ∙ sym (drop-nil (suc k + n))
  drop-drop n (suc k) (x ∷ xs) =
      drop-drop n k xs ∙ drop_count (x ∷ xs) (suc (k + n)) (suc k + n) (omega arith)

  pub drop-take : (n k : ℕ) (xs : List A) → drop n (take k xs) ≡ take (k - n) (drop n xs)
  drop-take zero k xs = take_count xs k (k - 0) (omega arith)
  drop-take (suc n) zero xs = take_count (drop (suc n) xs) 0 (0 - suc n) (omega arith)
  drop-take (suc n) (suc k) [] = take-nil (suc k - suc n)
  drop-take (suc n) (suc k) (x ∷ xs) =
      drop-take n k xs ∙ take_count (drop n xs) (k - n) (suc k - suc n) (omega arith)

  -- A prefix in two parts.
  pub take-split :
      (n m : ℕ) (xs : List A) → m ≤ n → take n xs ≡ take m xs ++ take (n - m) (drop m xs)
  take-split n zero xs h = take_count xs n (n - 0) (omega arith)
  take-split zero (suc m) xs h = absurd (omega arith)
  take-split (suc n) (suc m) [] h = take-nil (suc n - suc m)
  take-split (suc n) (suc m) (x ∷ xs) h = ap (◌∷◌ x) (
      take-split n m xs (omega arith)
      ∙ ap (λ l. take m xs ++ l) (take_count (drop m xs) (n - m) (suc n - suc m) (omega arith)))

  -- The same where the first part may be cut short by the end of the list.
  pub take-rest :
      (n j : ℕ) (xs : List A)
      → j ≤ n
      → take n xs ≡ take j xs ++ take (n - length (take j xs)) (drop (length (take j xs)) xs)
  take-rest n zero xs h = take_count xs n (n - 0) (omega arith)
  take-rest zero (suc j) xs h = absurd (omega arith)
  take-rest (suc n) (suc j) [] h = take-nil (suc n - 0)
  take-rest (suc n) (suc j) (x ∷ xs) h = ap (◌∷◌ x) (
      take-rest n j xs (omega arith)
      ∙ ap (λ l. take j xs ++ l)
          (take_count (drop (length (take j xs)) xs) (n - length (take j xs))
            (suc n - suc (length (take j xs))) (omega arith)))

-- A predicate holds of each element.
abbrev pub All {ℓ κ} : {A : Type ℓ} → (A → Type κ) → List A → Type κ
All P [] = Unit
All P (x ∷ xs) = P x × All P xs

pub All-append {ℓ κ} :
    {A : Type ℓ} (P : A → Type κ) (xs ys : List A) → All P xs → All P ys → All P (xs ++ ys)
All-append P [] ys h k = k
All-append P (x ∷ xs) ys h k = (h.0, All-append P xs ys h.1 k)
