-- ===== src/Plans/Ddl/Quoted.antt =====
-- internal/plans/ddl.go: the statements of CreateIndexSQL read back, and the names of IndexName.
use better_pg_keeper.Common.{
  ℕ, zero, suc, ◌≤◌, ◌≡◌, refl, ap, ◌∙◌, inl, inr, Bool, true, false, not, Option, none, some, List,
  [], ◌∷◌, ◌++◌, map, take, length, append_assoc, All, Bool-cases, ◌==◌, arith, if◌then◌else◌,
}
use better_pg_keeper.Plans.Split.{Text}
use better_pg_keeper.Plans.Ddl.{
  is_plain, plain_char, index_name, raw_name, double_quotes, quote_ident,
}

-- How PostgreSQL reads a quoted identifier after its opening quote: two quotes are one, and a single one
-- closes it. The name and the rest of the statement.
unfoldable pub read_quoted : Text → Option (Text × Text)
read_quoted [] = none
read_quoted (c ∷ []) = if c == b'"' then some ([], []) else none
read_quoted (c ∷ d ∷ s) =
    let pair = read_quoted s in
    let one = read_quoted (d ∷ s) in
    if c == b'"'
    then if d == b'"'
      then elim pair [ none ↦ none | some (n, r) ↦ some (b'"' ∷ n, r) ]
      else some ([], d ∷ s)
    else elim one [ none ↦ none | some (n, r) ↦ some (c ∷ n, r) ]

unfoldable pub read_ident : Text → Option (Text × Text)
unfolding read_quoted
read_ident [] = none
read_ident (c ∷ s) = if c == b'"' then read_quoted s else none

-- What follows does not go on with a quote.
unfoldable pub ends_quote : Text → Bool
ends_quote [] = true
ends_quote (c ∷ s) = not (c == b'"')

-- A character that is no quote stands for itself.
read_quoted-other :
    (c : ℕ) (t n r : Text)
    → c == b'"' ≡ false
    → read_quoted t ≡ some (n, r)
    → read_quoted (c ∷ t) ≡ some (c ∷ n, r)
unfolding read_quoted
read_quoted-other c [] n r e h = absurd (cc)
read_quoted-other c (d ∷ t) n r e h = rw (e, read_quoted) (rw h refl)

read_quoted-double_quotes :
    (s rest : Text)
    → ends_quote rest ≡ true
    → read_quoted (double_quotes s ++ b'"' ∷ rest) ≡ some (s, rest)
unfolding read_quoted double_quotes ends_quote
read_quoted-double_quotes [] [] h = refl
read_quoted-double_quotes [] (c ∷ rest) h = ground arith
read_quoted-double_quotes (c ∷ s) rest h = elim (Bool-cases (c == b'"')) [
  | inl e ↦
      let quote : c ≡ b'"' = ground (arith, e) in
      rw quote (rw (read_quoted-double_quotes s rest h) refl)
  | inr e ↦
      rw (e, double_quotes)
        (read_quoted-other c (double_quotes s ++ b'"' ∷ rest) s rest e
          (read_quoted-double_quotes s rest h))
]

-- A reader of quoted identifiers by PostgreSQL's rule for doubled quotes reads a name back from its quoted
-- form, whatever characters it has, and goes on behind it; what follows does not begin with a quote. The
-- reader neither cuts a name to 63 bytes nor refuses an empty one, as PostgreSQL does.
pub read_ident-quote_ident :
    (s rest : Text) → ends_quote rest ≡ true → read_ident (quote_ident s ++ rest) ≡ some (s, rest)
unfolding read_ident quote_ident
read_ident-quote_ident s rest h =
    ap read_quoted (append_assoc (double_quotes s) (b'"' ∷ []) rest)
    ∙ read_quoted-double_quotes s rest h

length-take : (n : ℕ) (s : Text) → length (take n s) ≤ n
length-take zero s = omega arith
length-take (suc n) [] = omega arith
length-take (suc n) (c ∷ s) = omega (arith, length-take n s)

underscore : is_plain b'_' ≡ true
unfolding is_plain
underscore = refl

plain_char-plain : (c : ℕ) → is_plain (plain_char c) ≡ true
unfolding plain_char
plain_char-plain c = elim (Bool-cases (is_plain c)) [
  | inl e ↦ rw (e, plain_char) e
  | inr e ↦ rw (e, plain_char) underscore
]

take-map-plain : (n : ℕ) (s : Text) → All (λ c. is_plain c ≡ true) (take n (map plain_char s))
take-map-plain zero s = tt
take-map-plain (suc n) [] = tt
take-map-plain (suc n) (c ∷ s) = (plain_char-plain c, take-map-plain n s)

-- A proposed index name fits PostgreSQL's limit, and has only letters, digits and underscores, whatever
-- the names of the table and the columns are.
pub index_name-IsPlain :
    (to_lower : ℕ → ℕ) (table : Text) (columns : List Text)
    → (length (index_name to_lower table columns) ≤ 63)
      × All (λ c. is_plain c ≡ true) (index_name to_lower table columns)
unfolding index_name
index_name-IsPlain to_lower table columns = (
  length-take 63 (map plain_char (raw_name to_lower table columns)),
  take-map-plain 63 (raw_name to_lower table columns),
)
