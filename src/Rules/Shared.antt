-- ===== src/Rules/Shared.antt =====
-- internal/suggester/rules: what the rules share. The floating-point numbers of Go are a record of the operations
-- that the rules use; sizes, counts and ages are not negative.
use Prim.Native.String.{String}
use Prim.Native.Char.{code}
use text.Mathlib.Text.{starts_with}
use better_pg_keeper.Common.{
  ℕ, ◌*◌, ◌/◌, ◌≡◌, refl, ap, Bool, true, false, ◌||◌, Option, none, some, List, [], ◌∷◌, str_dec,
  str_less, sprint, decimal, ltb, leb, ◌==◌, find_by, inl, inr, sort_by, sort_by-Memᴰ, IsOrder,
  Memᴰ, Bool-cases, if◌then◌else◌,
}
use better_pg_keeper.Models.{Severity, critical, warning, info, other}
use better_pg_keeper.Analyzer.Indexes.{tenths, one_decimal}
use better_pg_keeper.Suggester.Collect.{has_any_prefix}

-- float64, without NaN, which no comparison here meets: `quotient a b` is float64(a)/float64(b), `fixed d x` the text of %.df.
pub record Floats : Type 1 where
  pub Float : Type 0
  pub less : Float → Float → Bool
  pub quotient : ℕ → ℕ → Float
  pub fixed : ℕ → Float → String

-- The values of the metadata.
pub data Value (R : Type 0) : Type 0 where
  str : String → Value R
  int : ℕ → Value R
  flag : Bool → Value R
  real : R → Value R

abbrev pub Metadata : Type 0 → Type 0
Metadata R = List (String × Value R)

unfoldable pub deref : Option ℕ → ℕ
deref none = 0
deref (some n) = n

-- strings.ReplaceAll of a character by two of it.
unfoldable pub double_char : ℕ → String → String
double_char q String.[] = ""
double_char q (String.◌∷◌ c s) =
    let rest = double_char q s in
    if code c == q then String.◌∷◌ c (String.◌∷◌ c rest) else String.◌∷◌ c rest

unfoldable pub quote_ident : String → String
unfolding double_char
quote_ident s = sprint ("\"" ∷ double_char b'"' s ∷ "\"" ∷ [])

unfoldable pub quote_qualified : String → String → String
unfolding quote_ident
quote_qualified schema name = sprint (quote_ident schema ∷ "." ∷ quote_ident name ∷ [])

unfoldable pub quote_literal : String → String
unfolding double_char
quote_literal s = sprint ("'" ∷ double_char 39 s ∷ "'" ∷ [])

-- The loop of formatBytes over the units; no int64 goes past the last one.
unfoldable pub scaled : List String → ℕ → ℕ → ℕ → String
unfolding tenths one_decimal
scaled [] n div bytes = ""
scaled (u ∷ us) n div bytes =
    let rest = scaled us (n / 1024) (div * 1024) bytes in
    if leb 1024 n then rest else sprint (one_decimal (tenths bytes div) ∷ " " ∷ u ∷ "B" ∷ [])

unfoldable pub format_bytes : ℕ → String
unfolding scaled decimal
format_bytes bytes =
    if ltb bytes 1024
    then sprint (decimal bytes ∷ " B" ∷ [])
    else scaled ("K" ∷ "M" ∷ "G" ∷ "T" ∷ "P" ∷ "E" ∷ []) (bytes / 1024) 1024 bytes

unfoldable pub format_count : Floats → ℕ → String
unfolding decimal
format_count floats n =
    if leb 1000000000 n
    then sprint (floats.fixed 2 (floats.quotient n 1000000000) ∷ "B" ∷ [])
    else if leb 1000000 n
    then sprint (floats.fixed 0 (floats.quotient n 1000000) ∷ "M" ∷ [])
    else if leb 1000 n
    then sprint (floats.fixed 0 (floats.quotient n 1000) ∷ "k" ∷ [])
    else decimal n

-- The map of maxSeverity: what is not in it reads as 0.
unfoldable pub severity_rank : Severity → ℕ
severity_rank critical = 3
severity_rank warning = 2
severity_rank info = 1
severity_rank (other _) = 0

unfoldable pub max_severity : Severity → Severity → Severity
unfolding severity_rank
max_severity a b = if ltb (severity_rank a) (severity_rank b) then b else a

abbrev pub check_name : String × String → String
check_name e = e.0

unfoldable pub is_failed : List (String × String) → String → Bool
unfolding find_by str_dec
is_failed unavailable check = elim (find_by check_name str_dec check unavailable) [
  | none ↦ false
  | some _ ↦ true
]

-- The loop of unobservedTargets.
unfoldable pub hidden_prefixes : List (String × String) → List (String × String) → List String
unfolding is_failed
hidden_prefixes unavailable [] = []
hidden_prefixes unavailable (e ∷ es) =
    let rest = hidden_prefixes unavailable es in
    if is_failed unavailable e.0 then e.1 ∷ rest else rest

-- unobservedTargets; `order` is the order in which `range` visits the map of the prefixes.
unfoldable pub unobserved_targets :
    (List (String × String) → List (String × String))
    → List (String × String)
    → List (String × String)
    → List String
unfolding hidden_prefixes sort_by str_less
unobserved_targets order unavailable prefix_by_check =
    sort_by str_less (hidden_prefixes unavailable (order prefix_by_check))

hidden_prefixes-Memᴰ :
    (unavailable es : List (String × String)) (e : String × String)
    → Memᴰ e es
    → is_failed unavailable e.0 ≡ true
    → Memᴰ e.1 (hidden_prefixes unavailable es)
unfolding hidden_prefixes
hidden_prefixes-Memᴰ unavailable [] e m f = elim m [ ]
hidden_prefixes-Memᴰ unavailable (x ∷ es) e (Memᴰ.head p) f =
    let f' = rw p at f in rw (f', hidden_prefixes) (Memᴰ.head (ap (λ v. v.1) p))
hidden_prefixes-Memᴰ unavailable (x ∷ es) e (Memᴰ.tail m) f =
    let rest = hidden_prefixes-Memᴰ unavailable es e m f in
    elim (Bool-cases (is_failed unavailable x.0)) [
      | inl t ↦ rw (t, hidden_prefixes) (Memᴰ.tail rest)
      | inr n ↦ rw (n, hidden_prefixes) rest
    ]

or_true : (b : Bool) → (b || true) ≡ true
or_true true = refl
or_true false = refl

has_any_prefix-Memᴰ :
    (s p : String) (ps : List String)
    → Memᴰ p ps
    → starts_with s p ≡ true
    → has_any_prefix s ps ≡ true
unfolding has_any_prefix
has_any_prefix-Memᴰ s p [] m h = elim m [ ]
has_any_prefix-Memᴰ s p (q ∷ ps) (Memᴰ.head e) h = let h' = rw e at h in rw h' refl
has_any_prefix-Memᴰ s p (q ∷ ps) (Memᴰ.tail m) h =
    let rest = has_any_prefix-Memᴰ s p ps m h in rw rest (or_true (starts_with s q))

-- A failed check hides every target that starts with its prefix.
pub unobserved_targets-hides :
    (order : List (String × String) → List (String × String))
    → IsOrder order
    → (unavailable prefixes : List (String × String)) (e : String × String) (target : String)
    → Memᴰ e prefixes
    → is_failed unavailable e.0 ≡ true
    → starts_with target e.1 ≡ true
    → has_any_prefix target (unobserved_targets order unavailable prefixes) ≡ true
unfolding unobserved_targets
unobserved_targets-hides order iteration unavailable prefixes e target m f h =
    has_any_prefix-Memᴰ target e.1 (sort_by str_less (hidden_prefixes unavailable (order prefixes)))
      (sort_by-Memᴰ str_less (hidden_prefixes unavailable (order prefixes))
        (hidden_prefixes-Memᴰ unavailable (order prefixes) e (iteration.covers e prefixes m) f))
      h
