-- ===== src/Plans/Ddl.antt =====
-- internal/plans/ddl.go: IndexName, CreateIndexSQL, QuoteIdent and HasPrefix. `to_lower` is unicode.ToLower, which
-- strings.ToLower applies to each character.
pub mod Quoted
use better_pg_keeper.Common.{
  ℕ, zero, suc, ◌+◌, Bool, true, false, ◌&&◌, ◌||◌, List, [], ◌∷◌, ◌++◌, map, take, leb, ◌==◌, ite,
  ℕ_discrete, codes, if◌then◌else◌,
}
use better_pg_keeper.Plans.Split.{Text}
use better_pg_keeper.Plans.Columns.{text_dec}

abbrev pub max_identifier_bytes : ℕ
max_identifier_bytes = 63

-- The characters that the map of IndexName keeps.
unfoldable pub is_plain : ℕ → Bool
is_plain r =
    r == b'_'
    || ((leb b'a' r && leb r b'z') || ((leb b'A' r && leb r b'Z') || (leb b'0' r && leb r b'9')))

unfoldable pub plain_char : ℕ → ℕ
unfolding is_plain
plain_char r = if is_plain r then r else b'_'

-- strings.Join
unfoldable pub join : Text → List Text → Text
join sep [] = []
join sep (c ∷ []) = c
join sep (c ∷ d ∷ cs) = c ++ (sep ++ join sep (d ∷ cs))

unfoldable pub raw_name : (ℕ → ℕ) → Text → List Text → Text
unfolding join
raw_name to_lower table columns =
    map to_lower (codes "idx_" ++ (table ++ (codes "_" ++ join (codes "_") columns)))

-- IndexName: every character is one byte after the map, so that the cut is one between characters.
unfoldable pub index_name : (ℕ → ℕ) → Text → List Text → Text
unfolding plain_char raw_name
index_name to_lower table columns =
    take max_identifier_bytes (map plain_char (raw_name to_lower table columns))

unfoldable pub double_quotes : Text → Text
double_quotes [] = []
double_quotes (c ∷ s) =
    let rest = double_quotes s in if c == b'"' then b'"' ∷ b'"' ∷ rest else c ∷ rest

unfoldable pub quote_ident : Text → Text
unfolding double_quotes
quote_ident s = b'"' ∷ (double_quotes s ++ b'"' ∷ [])

-- CreateIndexSQL
unfoldable pub create_index_sql : Text → Text → List Text → Text → Bool → Text
unfolding quote_ident join text_dec
create_index_sql schema table columns name concurrently =
    codes "CREATE INDEX "
    ++ ((if concurrently then codes "CONCURRENTLY " else [])
        ++ (ite (text_dec name []) [] (quote_ident name ++ codes " ")
            ++ (codes "ON "
                ++ (quote_ident schema
                    ++ (codes "."
                        ++ (quote_ident table
                            ++ (codes " ("
                                ++ (join (codes ", ") (map quote_ident columns) ++ codes ")"))))))))

unfoldable pub has_prefix : List Text → List Text → Bool
unfolding text_dec
has_prefix columns [] = true
has_prefix [] (p ∷ ps) = false
has_prefix (c ∷ cs) (p ∷ ps) = ite (text_dec c p) (has_prefix cs ps) false
