-- ===== src/Config/Selector.antt =====
-- Selectors and their text, api/config/selector.go. The parser's position is the text that is left.
pub mod RoundTrip
pub mod Total
use proton_utils.Base.{
  ℕ, suc, zero, Bool, true, false, Option, none, some, List, [], ◌∷◌, ◌++◌, ◌≡◌, Bytes, ◌==◌,
  if◌then◌else◌, Result, ok, err, ◌>>=◌, leb, ◌&&◌, ◌||◌, length,
}

pub record Segment : Type 0 where
  pub name : Bytes
  pub index_key : Bytes
  pub index_val : Bytes

abbrev pub Selector : Type 0
Selector = List Segment

-- The bracket is written only for a key that is not empty.
abbrev pub index_string : Bytes → Bytes → Bytes
index_string [] v = []
index_string (c ∷ k) v = 91 ∷ (c ∷ k) ++ 61 ∷ v ++ 93 ∷ []

unfoldable pub segment_string : Segment → Bytes
segment_string s = s.name ++ index_string s.index_key s.index_val

-- `Selector.String`
unfoldable pub string : Selector → Bytes
unfolding segment_string
string [] = []
string (s ∷ []) = segment_string s
string (s ∷ t ∷ rest) = segment_string s ++ 46 ∷ string (t ∷ rest)

-- `isIdentStart`
abbrev pub is_ident_start : ℕ → Bool
is_ident_start c = (leb 97 c && leb c 122) || (leb 65 c && leb c 90) || c == 95

-- `isIdentCont`
abbrev pub is_ident_cont : ℕ → Bool
is_ident_cont c = is_ident_start c || (leb 48 c && leb c 57) || c == 45

pub data SelectorError : Type 0 where
  empty_input empty_identifier : SelectorError
  unmatched_bracket missing_equals empty_index_value : Bytes → SelectorError
  unexpected_character : ℕ → SelectorError

-- What stands before the first `c`, and what stands behind it, as `strings.IndexByte` finds it.
unfoldable pub cut : ℕ → Bytes → Option (Bytes × Bytes)
cut c [] = none
cut c (x ∷ xs) =
    if x == c
    then some ([], xs)
    else elim (cut c xs) [ none ↦ none | some (a, b) ↦ some (x ∷ a, b) ]

-- the loop over the identifier's bytes
unfoldable pub span_ident : Bytes → Bytes × Bytes
span_ident [] = ([], [])
span_ident (c ∷ s) =
    let (a, b) = span_ident s in if is_ident_cont c then (c ∷ a, b) else ([], c ∷ s)

unfoldable pub parse_ident : Bytes → Result SelectorError (Bytes × Bytes)
unfolding span_ident
parse_ident [] = err empty_identifier
parse_ident (c ∷ s) =
    if is_ident_start c then (let (a, b) = span_ident s in ok (c ∷ a, b)) else err empty_identifier

abbrev pub index_of : Bytes → Bytes → Bytes → Bytes → Result SelectorError (Segment × Bytes)
index_of name key [] rest = err (empty_index_value name)
index_of name key (v ∷ val) rest =
    ok (record { name = name; index_key = key; index_val = v ∷ val }, rest)

-- behind the bracket that opens an index
unfoldable pub parse_bracket : Bytes → Bytes → Result SelectorError (Segment × Bytes)
parse_bracket name s = elim (cut 93 s) [
  | none ↦ err (unmatched_bracket name)
  | some (inner, rest) ↦ elim (cut 61 inner) [
    | none ↦ err (missing_equals name)
    | some (key, val) ↦ index_of name key val rest
  ]
]

-- the index, where the text goes on with a bracket
unfoldable pub parse_index : Bytes → Bytes → Result SelectorError (Segment × Bytes)
parse_index name [] = ok (record { name = name; index_key = []; index_val = [] }, [])
parse_index name (c ∷ s) =
    if c == 91
    then parse_bracket name s
    else ok (record { name = name; index_key = []; index_val = [] }, c ∷ s)

unfoldable pub parse_segment : Bytes → Result SelectorError (Segment × Bytes)
unfolding parse_ident parse_index
parse_segment s = parse_ident s >>= λ p. parse_index p.0 p.1

-- What stands behind a segment: the end, a dot, or something unexpected.
pub data Next : Type 0 where
  at_end : Next
  at_dot : Bytes → Next
  at_other : ℕ → Next

abbrev pub next_of : Bytes → Next
next_of [] = at_end
next_of (c ∷ s) = if c == 46 then at_dot s else at_other c

-- The loop: each turn reads at least one byte, so one more than the text's length is enough fuel.
unfoldable pub parse_loop : ℕ → Bytes → Option (Result SelectorError Selector)
parse_loop zero s = none
parse_loop (suc f) s = elim (parse_segment s) [
  | err e ↦ some (err e)
  | ok (seg, rest) ↦ elim (next_of rest) [
    | at_end ↦ some (ok (seg ∷ []))
    | at_other c ↦ some (err (unexpected_character c))
    | at_dot t ↦ elim (parse_loop f t) [
      | none ↦ none
      | some (err e) ↦ some (err e)
      | some (ok segs) ↦ some (ok (seg ∷ segs))
    ]
  ]
]

-- `Parse`
unfoldable pub parse : Bytes → Option (Result SelectorError Selector)
parse [] = some (err empty_input)
parse (c ∷ s) = parse_loop (suc (length (c ∷ s))) (c ∷ s)
