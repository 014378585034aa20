-- ===== src/Config/Numbers.antt =====
-- strconv.Itoa, strconv.Atoi and strings.TrimSpace on ASCII text, as api/config/mapping.go and
-- api/config/config.go use them; `int` and `int64` have 64 bits.
use proton_utils.Base.{
  ℕ, suc, zero, ◌+◌, ◌-◌, ◌*◌, ◌/◌, ◌%◌, ◌≤◌, ◌<◌, ◌≡◌, ◌≢◌, refl, ap, ◌∙◌, Bool, Option, none,
  some, [], ◌∷◌, ◌++◌, leb, ltb, ◌==◌, ◌&&◌, ◌||◌, if◌then◌else◌, Bytes, ℤ, pos, negsuc, Bool-cases,
  inl, inr, arith,
}

unfoldable pub show_digits : ℕ → ℕ → Bytes → Bytes
show_digits zero n acc = (48 + n % 10) ∷ acc
show_digits (suc f) n acc =
    if ltb n 10 then (48 + n) ∷ acc else show_digits f (n / 10) ((48 + n % 10) ∷ acc)

-- Each step divides by ten, so `n` steps are enough.
abbrev pub itoa_ℕ : ℕ → Bytes
itoa_ℕ n = show_digits n n []

unfoldable pub itoa : ℤ → Bytes
itoa (pos n) = itoa_ℕ n
itoa (negsuc n) = 45 ∷ itoa_ℕ (suc n)

abbrev pub is_digit : ℕ → Bool
is_digit c = leb 48 c && leb c 57

unfoldable pub parse_digits : ℕ → Bytes → Option ℕ
parse_digits n [] = some n
parse_digits n (c ∷ cs) = if is_digit c then parse_digits (10 * n + (c - 48)) cs else none

unfoldable pub magnitude : Bytes → Option ℕ
magnitude [] = none
magnitude (c ∷ cs) = parse_digits 0 (c ∷ cs)

-- 2 ^ 63
abbrev pub int_limit : ℕ
int_limit = 9223372036854775808

abbrev pub neg : ℕ → ℤ
neg zero = pos 0
neg (suc n) = negsuc n

abbrev as_pos : Option ℕ → Option ℤ
as_pos none = none
as_pos (some n) = if ltb n int_limit then some (pos n) else none

abbrev as_neg : Option ℕ → Option ℤ
as_neg none = none
as_neg (some n) = if leb n int_limit then some (neg n) else none

-- `strconv.Atoi` and `strconv.ParseInt` in base ten
unfoldable pub atoi : Bytes → Option ℤ
atoi [] = none
atoi (c ∷ cs) =
    if c == 45
    then as_neg (magnitude cs)
    else if c == 43
    then as_pos (magnitude cs)
    else as_pos (magnitude (c ∷ cs))

abbrev is_space : ℕ → Bool
is_space c = c == 32 || (leb 9 c && leb c 13)

unfoldable trim_left : Bytes → Bytes
trim_left [] = []
trim_left (c ∷ cs) = let rest = trim_left cs in if is_space c then rest else c ∷ cs

unfoldable trim_right : Bytes → Bytes
trim_right [] = []
trim_right (c ∷ cs) = elim (trim_right cs) [
  | [] ↦ if is_space c then [] else c ∷ []
  | ◌∷◌ d ds ↦ c ∷ d ∷ ds
]

unfoldable pub trim_space : Bytes → Bytes
unfolding trim_left trim_right
trim_space s = trim_right (trim_left s)

-- `strings.SplitN(s, ":", 2)` where it gives two parts
unfoldable pub split_colon : Bytes → Option (Bytes × Bytes)
split_colon [] = none
split_colon (c ∷ cs) =
    if c == 58
    then some ([], cs)
    else elim (split_colon cs) [ none ↦ none | some (a, b) ↦ some (c ∷ a, b) ]

abbrev pub IsInt : ℤ → Type 0
IsInt (pos n) = n < int_limit
IsInt (negsuc n) = n < int_limit

abbrev pub AllDigits : Bytes → Type 0
AllDigits [] = Unit
AllDigits (c ∷ cs) = (48 ≤ c) × (c ≤ 57) × AllDigits cs

digit_of : (n : ℕ) → (48 ≤ 48 + n % 10) × (48 + n % 10 ≤ 57)
digit_of n = omega arith

pub show_digits-AllDigits :
    (f n : ℕ) (acc : Bytes) → AllDigits acc → AllDigits (show_digits f n acc)
unfolding show_digits
show_digits-AllDigits zero n acc h = ((digit_of n).0, (digit_of n).1, h)
show_digits-AllDigits (suc f) n acc h = elim (Bool-cases (ltb n 10)) [
  | inl small ↦ rw (show_digits, small) (omega arith, ground arith, h)
  | inr large ↦
      rw (show_digits, large)
        (show_digits-AllDigits f (n / 10) ((48 + n % 10) ∷ acc) ((digit_of n).0, (digit_of n).1, h))
]

parse_digits-cons :
    (n d : ℕ) (cs : Bytes) → d ≤ 9 → parse_digits n ((48 + d) ∷ cs) ≡ parse_digits (10 * n + d) cs
unfolding parse_digits
parse_digits-cons n d cs h = ground arith

parse_digits-show_digits :
    (f n : ℕ) (acc : Bytes) → n ≤ f → parse_digits 0 (show_digits f n acc) ≡ parse_digits n acc
unfolding show_digits
parse_digits-show_digits zero n acc h =
    parse_digits-cons 0 (n % 10) acc (omega arith) ∙ ap (λ m. parse_digits m acc) (omega arith)
parse_digits-show_digits (suc f) n acc h = elim (Bool-cases (ltb n 10)) [
  | inl small ↦
      rw (show_digits, small)
        (parse_digits-cons 0 n acc (ground arith) ∙ ap (λ m. parse_digits m acc) (omega arith))
  | inr large ↦
      rw (show_digits, large)
        (parse_digits-show_digits f (n / 10) ((48 + n % 10) ∷ acc) (ground arith)
          ∙ parse_digits-cons (n / 10) (n % 10) acc (omega arith)
          ∙ ap (λ m. parse_digits m acc) (omega arith))
]

magnitude_of_digits : (s : Bytes) → (s ≢ []) → magnitude s ≡ parse_digits 0 s
unfolding magnitude
magnitude_of_digits [] h = ground (arith, h refl)
magnitude_of_digits (c ∷ cs) h = refl

show_digits-cons : (f n : ℕ) (acc : Bytes) → (c : ℕ) × (cs : Bytes) × (show_digits f n acc ≡ c ∷ cs)
unfolding show_digits
show_digits-cons zero n acc = (48 + n % 10, acc, refl)
show_digits-cons (suc f) n acc = elim (Bool-cases (ltb n 10)) [
  | inl small ↦ (48 + n, acc, rw (show_digits, small) refl)
  | inr large ↦ rw (show_digits, large) (show_digits-cons f (n / 10) ((48 + n % 10) ∷ acc))
]

magnitude-itoa_ℕ : (n : ℕ) → magnitude (itoa_ℕ n) ≡ some n
magnitude-itoa_ℕ n =
    let (c, cs, e) = show_digits-cons n n [] in
    magnitude_of_digits (itoa_ℕ n) (λ p. ground (arith, p, e))
    ∙ parse_digits-show_digits n n [] (omega arith)
    ∙ unfold parse_digits in refl

pub atoi_digits : (s : Bytes) → AllDigits s → atoi s ≡ as_pos (magnitude s)
unfolding atoi magnitude
atoi_digits [] h = refl
atoi_digits (c ∷ cs) h = ground arith

-- Every `int` reads back from its decimal text.
pub atoi-itoa : (z : ℤ) → IsInt z → atoi (itoa z) ≡ some z
unfolding itoa atoi
atoi-itoa (pos n) h =
    atoi_digits (itoa_ℕ n) (show_digits-AllDigits n n [] tt)
    ∙ rw (magnitude-itoa_ℕ n) (ground arith)
atoi-itoa (negsuc n) h = rw (magnitude-itoa_ℕ (suc n)) (ground arith)

as_pos-IsInt : (o : Option ℕ) (z : ℤ) → as_pos o ≡ some z → IsInt z
as_pos-IsInt none z h = cc
as_pos-IsInt (some n) (pos m) h = ground arith
as_pos-IsInt (some n) (negsuc m) h = ground arith

as_neg-IsInt : (o : Option ℕ) (z : ℤ) → as_neg o ≡ some z → IsInt z
as_neg-IsInt none z h = cc
as_neg-IsInt (some zero) z h = ground arith
as_neg-IsInt (some (suc n)) z h = ground arith

pub atoi-IsInt : (s : Bytes) (z : ℤ) → atoi s ≡ some z → IsInt z
unfolding atoi
atoi-IsInt [] z h = cc
atoi-IsInt (c ∷ cs) z h = ground (
  arith,
  as_neg-IsInt (magnitude cs) z,
  as_pos-IsInt (magnitude cs) z,
  as_pos-IsInt (magnitude (c ∷ cs)) z,
)

trim_left_digits : (s : Bytes) → AllDigits s → trim_left s ≡ s
unfolding trim_left
trim_left_digits [] h = refl
trim_left_digits (c ∷ s) h = ground arith

trim_right_digits : (s : Bytes) → AllDigits s → trim_right s ≡ s
unfolding trim_right
trim_right_digits [] h = refl
trim_right_digits (c ∷ []) h = ground arith
trim_right_digits (c ∷ d ∷ s) h = rw (trim_right_digits (d ∷ s) h.2) refl

pub trim_space_digits : (s : Bytes) → AllDigits s → trim_space s ≡ s
unfolding trim_space
trim_space_digits s h = rw (trim_left_digits s h) (trim_right_digits s h)

pub split_colon_digits : (s t : Bytes) → AllDigits s → split_colon (s ++ 58 ∷ t) ≡ some (s, t)
unfolding split_colon
split_colon_digits [] t h = refl
split_colon_digits (c ∷ s) t h = ground (arith, split_colon_digits s t)
