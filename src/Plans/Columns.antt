-- ===== src/Plans/Columns.antt =====
-- internal/plans/plans.go: IndexColumns, parseTerm and columnName. The matches of the three regular expressions are
-- parameters: what their groups hold, if they match.
pub mod Key
use better_pg_keeper.Common.{
  ℕ, zero, suc, ◌+◌, Bool, true, false, not, ◌&&◌, Option, none, some, List, [], ◌∷◌, ◌++◌, length,
  ltb, ◌==◌, ite, ℕ_discrete, if◌then◌else◌,
}
use better_pg_keeper.Plans.Split.{Text, split_and, strip_parens, trim_space, drop_last, last_is}

unfoldable pub text_dec : Discrete Text
unfolding ℕ_discrete
text_dec = hlevel ℕ_discrete

-- lastUnquotedDot, as the text behind it: `none` if there is no such dot.
unfoldable pub after_last_dot : Bool → Text → Option Text
after_last_dot in_quote [] = none
after_last_dot in_quote (c ∷ s) =
    let later = after_last_dot (if c == b'"' then not in_quote else in_quote) s in
    elim later [ some t ↦ some t | none ↦ if c == b'.' && not in_quote then some s else none ]

-- strings.ReplaceAll(s, `""`, `"`)
unfoldable pub undouble : Text → Text
undouble [] = []
undouble (c ∷ []) = c ∷ []
undouble (c ∷ d ∷ s) =
    let both = undouble s in
    let one = undouble (d ∷ s) in if c == b'"' && d == b'"' then b'"' ∷ both else c ∷ one

unfoldable pub is_quoted : Text → Bool
unfolding last_is
is_quoted [] = false
is_quoted (c ∷ []) = false
is_quoted (c ∷ d ∷ s) = c == b'"' && last_is b'"' (d ∷ s)

abbrev tail : Text → Text
tail [] = []
tail (c ∷ s) = s

unfoldable pub column_name : Text → Text
unfolding after_last_dot is_quoted undouble drop_last
column_name ref =
    let name : Text = elim (after_last_dot false ref) [ none ↦ ref | some t ↦ t ] in
    if is_quoted name then undouble (drop_last (tail name)) else name

pub record Matchers : Type 0 where
  pub any_comparison : Text → Option Text
  pub comparison : Text → Option (Text × Text)
  pub reversed_comparison : Text → Option (Text × Text)

-- opKind: whether the operator is an equality.
unfoldable pub is_equality : Text → Bool
unfolding text_dec
is_equality op = ite (text_dec op (b'=' ∷ [])) true false

-- parseTerm: the column, and whether it is compared for equality.
unfoldable pub parse_term : Matchers → Text → Option (Text × Bool)
unfolding column_name is_equality strip_parens trim_space
parse_term m term =
    let t = strip_parens (trim_space term) in
    elim (m.any_comparison t) [
      | some col ↦ some (column_name col, true)
      | none ↦ elim (m.comparison t) [
        | some (col, op) ↦ some (column_name col, is_equality op)
        | none ↦ elim (m.reversed_comparison t) [
          | some (op, col) ↦ some (column_name col, is_equality op)
          | none ↦ none
        ]
      ]
    ]

unfoldable pub has_column : Text → List Text → Bool
unfolding text_dec
has_column k [] = false
has_column k (x ∷ xs) = ite (text_dec x k) true (has_column k xs)

abbrev pub max_equality_columns : ℕ
max_equality_columns = 3

-- The variables of the loop; `seen` has the columns of `equality`.
pub record Found : Type 0 where
  pub equality : List Text
  pub ranges : List Text

unfoldable pub note_term : Option (Text × Bool) → Found → Found
unfolding has_column
note_term none f = f
note_term (some (col, eq)) f =
    if has_column col f.equality
    then f
    else if eq
    then if ltb (length f.equality) max_equality_columns
      then record f { equality = f.equality ++ col ∷ [] }
      else f
    else record f { ranges = f.ranges ++ col ∷ [] }

unfoldable pub note_terms : Matchers → List Text → Found → Found
unfolding parse_term note_term
note_terms m [] f = f
note_terms m (t ∷ ts) f = note_terms m ts (note_term (parse_term m t) f)

-- The first range column that is no equality column.
unfoldable pub first_range : List Text → List Text → List Text
unfolding has_column
first_range seen [] = []
first_range seen (c ∷ cs) =
    let rest = first_range seen cs in if has_column c seen then rest else c ∷ []

unfoldable pub index_columns : Matchers → Text → List Text
unfolding split_and note_terms first_range
index_columns m filter = elim (split_and filter) [
  | none ↦ []
  | some terms ↦
      let f = note_terms m terms (record { equality = []; ranges = [] }) in
      f.equality ++ first_range f.equality f.ranges
]
