-- ===== src/Config/Selector/Total.antt =====
-- The parser's loop ends on every text, well-formed or not.
use proton_utils.Base.{
  ℕ, suc, zero, ◌≤◌, ◌<◌, ◌⊎◌, inl, inr, refl, sym, ap, ◌∙◌, some, [], ◌∷◌, ◌≡◌, Bytes, Result, ok,
  err, >>=-eq-ok, Result-cases, Option-cases, length, arith,
}
use proton_utils.Config.Selector.{
  Segment, Selector, SelectorError, empty_input, unexpected_character, cut, span_ident, parse_ident,
  index_of, parse_bracket, parse_index, parse_segment, Next, at_end, at_dot, at_other, next_of,
  parse_loop, parse,
}

cut-length : (c : ℕ) (s a b : Bytes) → cut c s ≡ some (a, b) → length b < length s
unfolding cut
cut-length c [] a b h = cc
cut-length c (x ∷ s) a b h = elim (Option-cases (cut c s)) [
  | inl e ↦ ground (arith, e, h)
  | inr ((y, z), e) ↦ ground (arith, e, h, cut-length c s y z e)
]

span_ident-length : (s : Bytes) → length (span_ident s).1 ≤ length s
unfolding span_ident
span_ident-length [] = omega arith
span_ident-length (c ∷ s) = ground (arith, span_ident-length s)

parse_ident-length : (s a b : Bytes) → parse_ident s ≡ ok (a, b) → length b < length s
unfolding parse_ident
parse_ident-length [] a b h = cc
parse_ident-length (c ∷ s) a b h = ground (arith, span_ident-length s)

index_of-rest : (n k v t : Bytes) (p : Segment × Bytes) → index_of n k v t ≡ ok p → p.1 ≡ t
index_of-rest n k [] t p h = cc
index_of-rest n k (d ∷ v) t p h = cc

parse_bracket-length :
    (n s : Bytes) (p : Segment × Bytes) → parse_bracket n s ≡ ok p → length p.1 < length s
unfolding parse_bracket
parse_bracket-length n s p h = elim (Option-cases (cut 93 s)) [
  | inl e ↦ ground (arith, e, h)
  | inr ((inner, rest), e) ↦ elim (Option-cases (cut 61 inner)) [
    | inl g ↦ ground (arith, e, g, h)
    | inr ((k, v), g) ↦ omega (
      arith,
      ap (λ (t : Bytes). length t)
          (index_of-rest n k v rest p (sym (rw (parse_bracket, e, g) refl) ∙ h)),
      cut-length 93 s inner rest e,
    )
  ]
]

parse_index-length :
    (n s : Bytes) (p : Segment × Bytes) → parse_index n s ≡ ok p → length p.1 ≤ length s
unfolding parse_index
parse_index-length n [] p h = ground arith
parse_index-length n (c ∷ s) p h = ground (arith, parse_bracket-length n s p)

parse_segment-length :
    (s : Bytes) (p : Segment × Bytes) → parse_segment s ≡ ok p → length p.1 < length s
unfolding parse_segment
parse_segment-length s p h =
    let ((a, b), e, f) = >>=-eq-ok (parse_ident s) (λ q. parse_index q.0 q.1) h in
    omega (arith, parse_ident-length s a b e, parse_index-length a b p f)

next_of-length : (s t : Bytes) → next_of s ≡ at_dot t → length t < length s
next_of-length [] t h = cc
next_of-length (c ∷ s) t h = ground arith

Next-cases :
    (n : Next) → (n ≡ at_end) ⊎ ((t : Bytes) × (n ≡ at_dot t)) ⊎ ((c : ℕ) × (n ≡ at_other c))
Next-cases at_end = inl refl
Next-cases (at_dot t) = inr (inl (t, refl))
Next-cases (at_other c) = inr (inr (c, refl))

after_dot :
    (seg : Segment) (s rest t : Bytes) (f : ℕ) (r : Result SelectorError Selector)
    → parse_segment s ≡ ok (seg, rest)
    → next_of rest ≡ at_dot t
    → parse_loop f t ≡ some r
    → (q : Result SelectorError Selector) × (parse_loop (suc f) s ≡ some q)
unfolding parse_loop
after_dot seg s rest t f (ok segs) p q e = (ok (seg ∷ segs), rw (parse_loop, p, q, e) refl)
after_dot seg s rest t f (err x) p q e = (err x, rw (parse_loop, p, q, e) refl)

parse_loop-total :
    (f : ℕ) (s : Bytes)
    → length s < f
    → (r : Result SelectorError Selector) × (parse_loop f s ≡ some r)
unfolding parse_loop
parse_loop-total zero s h = absurd (omega arith)
parse_loop-total (suc f) s h = elim (Result-cases (parse_segment s)) [
  | inr (e, p) ↦ (err e, rw (parse_loop, p) refl)
  | inl ((seg, rest), p) ↦ elim (Next-cases (next_of rest)) [
    | inl q ↦ (ok (seg ∷ []), rw (parse_loop, p, q) refl)
    | inr (inr (c, q)) ↦ (err (unexpected_character c), rw (parse_loop, p, q) refl)
    | inr (inl (t, q)) ↦
        let (r, e) =
          parse_loop-total f t
            (omega (arith, parse_segment-length s (seg, rest) p, next_of-length rest t q)) in
        after_dot seg s rest t f r p q e
  ]
]

-- The parser ends on every text, with a selector or an error.
pub parse-total : (s : Bytes) → (r : Result SelectorError Selector) × (parse s ≡ some r)
parse-total [] = (err empty_input, unfold parse in refl)
parse-total (c ∷ s) =
    let (r, e) = parse_loop-total (suc (length (c ∷ s))) (c ∷ s) (omega arith) in
    (r, unfold parse in e)
