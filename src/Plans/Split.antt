-- ===== src/Plans/Split.antt =====
-- internal/plans/plans.go: splitAnd, stripParens and wraps. A filter is the list of its characters.
pub mod Strip
pub mod Terms
use better_pg_keeper.Common.{
  ℕ, zero, suc, ◌+◌, ◌-◌, Bool, true, false, not, ◌&&◌, ◌||◌, Option, none, some, List, [], ◌∷◌,
  ◌++◌, length, ◌==◌, is_space, if◌then◌else◌,
}

abbrev pub Text : Type 0
Text = List ℕ

-- strings.TrimSpace
unfoldable pub trim_left : Text → Text
unfolding is_space
trim_left [] = []
trim_left (c ∷ s) = let rest = trim_left s in if is_space c then rest else c ∷ s

unfoldable pub trim_right : Text → Text
unfolding is_space
trim_right [] = []
trim_right (c ∷ s) = elim (trim_right s) [
  | [] ↦ if is_space c then [] else c ∷ []
  | d ∷ t ↦ c ∷ d ∷ t
]

unfoldable pub trim_space : Text → Text
unfolding trim_left trim_right
trim_space s = trim_right (trim_left s)

unfoldable pub drop_last : Text → Text
drop_last [] = []
drop_last (c ∷ []) = []
drop_last (c ∷ d ∷ s) = c ∷ drop_last (d ∷ s)

unfoldable pub last_is : ℕ → Text → Bool
last_is x [] = false
last_is x (c ∷ []) = c == x
last_is x (c ∷ d ∷ s) = last_is x (d ∷ s)

-- The depth of the parentheses and whether the scan is inside a quoted constant, after one character.
unfoldable pub next_state : ℕ → Bool → ℕ → ℕ × Bool
next_state depth in_quote c =
    if c == b'\''
    then (depth, not in_quote)
    else if in_quote
    then (depth, in_quote)
    else if c == b'('
    then (depth + 1, in_quote)
    else if c == b')'
    then (depth - 1, in_quote)
    else (depth, in_quote)

-- The loop of wraps. The text starts with a parenthesis, so the depth is not 0 before a closing one.
unfoldable pub wraps_from : ℕ → Bool → Text → Bool
unfolding next_state
wraps_from depth in_quote [] = depth == 0
wraps_from depth in_quote (c ∷ s) =
    let (depth', in_quote') = next_state depth in_quote c in
    let rest = wraps_from depth' in_quote' s in
    if not in_quote && (c == b')' && (depth' == 0 && elim s [ [] ↦ false | _ ∷ _ ↦ true ]))
    then false
    else rest

-- The condition of the loop of stripParens.
unfoldable pub is_wrapped : Text → Bool
unfolding last_is wraps_from
is_wrapped [] = false
is_wrapped (c ∷ []) = false
is_wrapped (c ∷ d ∷ s) = c == b'(' && (last_is b')' (d ∷ s) && wraps_from 0 false (c ∷ d ∷ s))

unfoldable pub inside : Text → Text
unfolding drop_last trim_space
inside [] = []
inside (c ∷ s) = trim_space (drop_last s)

-- The loop, with fuel for its rounds.
unfoldable pub strip_from : ℕ → Text → Text
unfolding is_wrapped inside
strip_from zero s = s
strip_from (suc fuel) s = let rest = strip_from fuel (inside s) in if is_wrapped s then rest else s

unfoldable pub strip_parens : Text → Text
unfolding strip_from
strip_parens s = strip_from (length s) s

unfoldable pub starts_with : Text → Text → Bool
starts_with [] s = true
starts_with (w ∷ ws) [] = false
starts_with (w ∷ ws) (c ∷ s) = c == w && starts_with ws s

abbrev pub and_word : Text
and_word = b' ' ∷ b'A' ∷ b'N' ∷ b'D' ∷ b' ' ∷ []

abbrev pub or_word : Text
or_word = b' ' ∷ b'O' ∷ b'R' ∷ b' ' ∷ []

-- What the switch of the loop of splitAnd does at a character.
pub data Action : Type 0 where
  refuse cut : Action
  go : ℕ → Bool → Action

unfoldable pub action : ℕ → Bool → ℕ → Text → Action
unfolding starts_with
action depth in_quote c s =
    if c == b'\''
    then go depth (not in_quote)
    else if in_quote
    then go depth in_quote
    else if c == b'('
    then go (depth + 1) in_quote
    else if c == b')'
    then if depth == 0 then refuse else go (depth - 1) in_quote
    else if depth == 0 && starts_with or_word (c ∷ s)
    then refuse
    else if depth == 0 && starts_with and_word (c ∷ s)
    then cut
    else go depth in_quote

-- The loop: `skip` characters are passed over, `term` is filter[start:i].
unfoldable pub split_from : ℕ → Bool → ℕ → Text → List Text → Text → Option (List Text)
unfolding action
split_from depth in_quote skip term terms [] =
    if not (depth == 0) || in_quote then none else some (terms ++ term ∷ [])
split_from depth in_quote (suc skip) term terms (c ∷ s) =
    split_from depth in_quote skip term terms s
split_from depth in_quote zero term terms (c ∷ s) = elim (action depth in_quote c s) [
  | refuse ↦ none
  | cut ↦ split_from depth in_quote 4 [] (terms ++ term ∷ []) s
  | go depth' in_quote' ↦ split_from depth' in_quote' 0 (term ++ c ∷ []) terms s
]

-- splitAnd: `none` for a top-level OR, parentheses that do not balance, or nothing.
unfoldable pub split_and : Text → Option (List Text)
unfolding trim_space strip_parens split_from
split_and filter = elim (strip_parens (trim_space filter)) [
  | [] ↦ none
  | c ∷ s ↦ split_from 0 false 0 [] [] (c ∷ s)
]
