-- ===== src/Plans/Tests.antt =====
-- Filters and names, for the statements about the index advisor.
use better_pg_keeper.Common.{
  ◌≡◌, ◌≤◌, refl, true, false, none, some, List, [], ◌∷◌, ◌++◌, length, codes, All, Distinct, ite,
}
use better_pg_keeper.Plans.Split.{Text, split_and, strip_parens, trim_space, is_wrapped}
use better_pg_keeper.Plans.Split.Strip.{strip_parens-IsBare}
use better_pg_keeper.Plans.Split.Terms.{join_and, join_and-split_and}
use better_pg_keeper.Plans.Columns.{Matchers, text_dec, index_columns, column_name}
use better_pg_keeper.Plans.Columns.Key.{IsCompared, self, index_columns-IsKey}
use better_pg_keeper.Plans.Ddl.{index_name, is_plain, quote_ident, create_index_sql}
use better_pg_keeper.Plans.Ddl.Quoted.{
  ends_quote, read_ident, read_ident-quote_ident, index_name-IsPlain,
}

abbrev filter : Text
filter = codes "((a > $1) AND (t.b = 'x AND y'::text))"

abbrev terms : List Text
terms = codes "(a > $1)" ∷ codes "(t.b = 'x AND y'::text)" ∷ []

filter-terms : split_and filter ≡ some terms
unfolding split_and
filter-terms = refl

filter_or : split_and (codes "((a = $1) OR (b = $2))") ≡ none
unfolding split_and
filter_or = refl

strip_parens-IsBare_example : is_wrapped (strip_parens filter) ≡ false
strip_parens-IsBare_example = strip_parens-IsBare filter

join_and-split_and_example : join_and terms ≡ strip_parens (trim_space filter)
join_and-split_and_example = join_and-split_and filter terms filter-terms

-- The matches of the expressions on these terms.
abbrev matchers : Matchers
matchers = record {
  any_comparison = λ _. none;
  comparison = λ t.
      ite (text_dec t (codes "a > $1")) (some (codes "a", codes ">"))
        (ite (text_dec t (codes "t.b = 'x AND y'::text")) (some (codes "t.b", codes "=")) none);
  reversed_comparison = λ _. none;
}

filter_columns : index_columns matchers filter ≡ codes "b" ∷ codes "a" ∷ []
unfolding index_columns text_dec
filter_columns = refl

index_columns-IsKey_example :
    (eqs : List Text) × (range : List Text) × (index_columns matchers filter ≡ eqs ++ range)
    × (length eqs ≤ 3)
    × (length range ≤ 1)
    × All (IsCompared matchers terms true) eqs
    × All (IsCompared matchers terms false) range
    × Distinct self (index_columns matchers filter)
index_columns-IsKey_example = index_columns-IsKey matchers filter terms filter-terms

quoted_column : column_name (codes "\"Order\".\"Sta\"\"tus\"") ≡ codes "Sta\"tus"
unfolding column_name
quoted_column = refl

statement :
    create_index_sql (codes "public") (codes "orders") (codes "a" ∷ codes "b" ∷ []) [] true
    ≡ codes "CREATE INDEX CONCURRENTLY ON \"public\".\"orders\" (\"a\", \"b\")"
unfolding create_index_sql
statement = refl

space_follows : ends_quote (codes " ON") ≡ true
unfolding ends_quote
space_follows = refl

read_ident-quote_ident_example :
    read_ident (quote_ident (codes "a\"b") ++ codes " ON") ≡ some (codes "a\"b", codes " ON")
read_ident-quote_ident_example = read_ident-quote_ident (codes "a\"b") (codes " ON") space_follows

index_name-IsPlain_example :
    (length (index_name (λ c. c) (codes "my table") (codes "id" ∷ [])) ≤ 63)
    × All (λ c. is_plain c ≡ true) (index_name (λ c. c) (codes "my table") (codes "id" ∷ []))
index_name-IsPlain_example = index_name-IsPlain (λ c. c) (codes "my table") (codes "id" ∷ [])
