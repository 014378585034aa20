-- ===== src/Config/Selector/RoundTrip.antt =====
-- Printing a selector and parsing it again.
use proton_utils.Base.{
  ℕ, suc, zero, ◌≤◌, ◌⊎◌, inl, inr, refl, sym, ap, ◌∙◌, true, false, some, [], ◌∷◌, ◌++◌,
  append_assoc, append-nil, ◌≡◌, Bytes, ◌==◌, ok, length, length-append, arith,
}
use proton_utils.Config.Selector.{
  Segment, Selector, index_string, segment_string, string, is_ident_start, is_ident_cont, cut,
  span_ident, parse_ident, parse_bracket, parse_index, parse_segment, parse_loop, parse,
}

-- An identifier of the grammar.
abbrev pub IsCont : Bytes → Type 0
IsCont [] = Unit
IsCont (c ∷ s) = (is_ident_cont c ≡ true) × IsCont s

abbrev pub IsIdent : Bytes → Type 0
IsIdent [] = ⊥
IsIdent (c ∷ s) = (is_ident_start c ≡ true) × IsCont s

abbrev pub Lacks : ℕ → Bytes → Type 0
Lacks c [] = Unit
Lacks c (x ∷ s) = ((x == c) ≡ false) × Lacks c s

-- The grammar's segments, but the key is any text without `=` and `]`: `identifier`, with an index
-- of a key and a value that are not empty, or with neither.
abbrev pub IsIndex : Bytes → Bytes → Type 0
IsIndex [] [] = Unit
IsIndex (c ∷ k) (d ∷ v) = Lacks 61 (c ∷ k) × Lacks 93 (c ∷ k) × Lacks 93 (d ∷ v)
IsIndex _ _ = ⊥

abbrev pub IsSegment : Segment → Type 0
IsSegment s = IsIdent s.name × IsIndex s.index_key s.index_val

abbrev pub IsSelector : Selector → Type 0
IsSelector [] = ⊥
IsSelector (s ∷ []) = IsSegment s
IsSelector (s ∷ t ∷ rest) = IsSegment s × IsSelector (t ∷ rest)

-- What stands behind a segment: nothing, or a dot.
abbrev IsBehind : Bytes → Type 0
IsBehind t = (t ≡ []) ⊎ ((r : Bytes) × (t ≡ 46 ∷ r))

cut-append : (c : ℕ) (s t : Bytes) → Lacks c s → cut c (s ++ c ∷ t) ≡ some (s, t)
unfolding cut
cut-append c [] t h = ground arith
cut-append c (x ∷ s) t h = ground (arith, cut-append c s t)

Lacks-append : (c : ℕ) (s t : Bytes) → Lacks c s → Lacks c t → Lacks c (s ++ t)
Lacks-append c [] t h k = k
Lacks-append c (x ∷ s) t h k = (h.0, Lacks-append c s t h.1 k)

span_ident-append : (s t : Bytes) → IsCont s → span_ident t ≡ ([], t) → span_ident (s ++ t) ≡ (s, t)
unfolding span_ident
span_ident-append [] t h e = e
span_ident-append (x ∷ s) t h e = rw (span_ident-append s t h.1 e, h.0) refl

parse_ident-append :
    (s t : Bytes) → IsIdent s → span_ident t ≡ ([], t) → parse_ident (s ++ t) ≡ ok (s, t)
unfolding parse_ident
parse_ident-append [] t h e = absurd h
parse_ident-append (c ∷ s) t h e = rw (h.0, span_ident-append s t h.1 e) refl

parse_index-none :
    (name t : Bytes)
    → IsBehind t
    → parse_index name t ≡ ok (record { name = name; index_key = []; index_val = [] }, t)
unfolding parse_index
parse_index-none name t (inl e) = rw e refl
parse_index-none name t (inr (r, e)) = rw e refl

parse_bracket-string :
    (name k v t : Bytes) (d : ℕ)
    → Lacks 61 k
    → Lacks 93 k
    → Lacks 93 (d ∷ v)
    → parse_bracket name ((k ++ 61 ∷ d ∷ v) ++ 93 ∷ t)
      ≡ ok (record { name = name; index_key = k; index_val = d ∷ v }, t)
unfolding parse_bracket
parse_bracket-string name k v t d a b e =
    rw
      (
        parse_bracket,
        cut-append 93 (k ++ 61 ∷ d ∷ v) t (Lacks-append 93 k (61 ∷ d ∷ v) b (refl, e)),
        cut-append 61 k (d ∷ v) a,
      )
      refl

index_string-append :
    (c : ℕ) (k v t : Bytes) → index_string (c ∷ k) v ++ t ≡ 91 ∷ ((c ∷ k) ++ 61 ∷ v) ++ 93 ∷ t
index_string-append c k v t = simp append_assoc

behind-stops : (t : Bytes) → IsBehind t → span_ident t ≡ ([], t)
unfolding span_ident
behind-stops t (inl e) = rw e refl
behind-stops t (inr (r, e)) = rw e refl

bracket-stops : (t : Bytes) → span_ident (91 ∷ t) ≡ ([], 91 ∷ t)
unfolding span_ident
bracket-stops t = refl

parse_index-bracket : (name t : Bytes) → parse_index name (91 ∷ t) ≡ parse_bracket name t
unfolding parse_index
parse_index-bracket name t = refl

-- The text behind the name: it stops the identifier, and it reads as the segment's index.
parse_index-string :
    (n k v t : Bytes)
    → IsIndex k v
    → IsBehind t
    → (span_ident (index_string k v ++ t) ≡ ([], index_string k v ++ t))
      × (parse_index n (index_string k v ++ t)
          ≡ ok (record { name = n; index_key = k; index_val = v }, t))
parse_index-string n [] [] t h b = (behind-stops t b, parse_index-none n t b)
parse_index-string n [] (d ∷ v) t h b = absurd h
parse_index-string n (c ∷ k) [] t h b = absurd h
parse_index-string n (c ∷ k) (d ∷ v) t (h, i, j) b =
    rw (index_string-append c k (d ∷ v) t)
      (bracket-stops _, parse_index-bracket n _ ∙ parse_bracket-string n (c ∷ k) v t d h i j)

parse_segment-string :
    (s : Segment) (t : Bytes)
    → IsSegment s
    → IsBehind t
    → parse_segment (segment_string s ++ t) ≡ ok (s, t)
unfolding parse_segment segment_string
parse_segment-string s t h b =
    let (p, q) = parse_index-string s.name s.index_key s.index_val t h.1 b in
    rw
      (
        append_assoc s.name (index_string s.index_key s.index_val) t,
        parse_ident-append s.name _ h.0 p,
      )
      q

parse_loop-string :
    (f : ℕ) (sel : Selector)
    → IsSelector sel
    → length sel ≤ f
    → parse_loop f (string sel) ≡ some (ok sel)
unfolding string parse_loop
parse_loop-string zero [] h l = absurd h
parse_loop-string zero (s ∷ sel) h l = ground arith
parse_loop-string (suc f) [] h l = absurd h
parse_loop-string (suc f) (s ∷ []) h l =
    rw
      (
        parse_loop,
        sym (ap parse_segment (append-nil (segment_string s)))
            ∙ parse_segment-string s [] h (inl refl),
      )
      refl
parse_loop-string (suc f) (s ∷ t ∷ rest) h l =
    rw
      (
        parse_loop,
        parse_segment-string s (46 ∷ string (t ∷ rest)) h.0 (inr (string (t ∷ rest), refl)),
        parse_loop-string f (t ∷ rest) h.1 (omega arith),
      )
      refl

ident-length : (s t : Bytes) → IsIdent s → 1 ≤ length (s ++ t)
ident-length [] t h = absurd h
ident-length (c ∷ s) t h = omega arith

segment_string-length : (s : Segment) → IsSegment s → 1 ≤ length (segment_string s)
unfolding segment_string
segment_string-length s h = ident-length s.name (index_string s.index_key s.index_val) h.0

string-length : (sel : Selector) → IsSelector sel → length sel ≤ length (string sel)
unfolding string
string-length [] h = omega arith
string-length (s ∷ []) h = omega (arith, segment_string-length s h)
string-length (s ∷ t ∷ rest) h = omega (
  arith,
  segment_string-length s h.0,
  string-length (t ∷ rest) h.1,
  length-append (segment_string s) (46 ∷ string (t ∷ rest)),
)

parse_of_loop : (s : Bytes) → 1 ≤ length s → parse s ≡ parse_loop (suc (length s)) s
unfolding parse
parse_of_loop [] h = ground arith
parse_of_loop (c ∷ s) h = refl

-- A selector of well-formed segments prints to a text that parses back to it.
pub parse-string : (sel : Selector) → IsSelector sel → parse (string sel) ≡ some (ok sel)
parse-string [] h = absurd h
parse-string (s ∷ rest) h =
    parse_of_loop (string (s ∷ rest)) (omega (arith, string-length (s ∷ rest) h))
    ∙ parse_loop-string (suc (length (string (s ∷ rest)))) (s ∷ rest) h
        (omega (arith, string-length (s ∷ rest) h))
