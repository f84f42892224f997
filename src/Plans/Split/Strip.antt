-- ===== src/Plans/Split/Strip.antt =====
-- internal/plans/plans.go, stripParens: the loop ends, at a text that no pair of parentheses wraps.
use better_pg_keeper.Common.{
  ℕ, zero, suc, ◌≤◌, ◌≡◌, refl, false, [], ◌∷◌, length, Bool-cases, inl, inr, arith,
}
use better_pg_keeper.Plans.Split.{
  Text, trim_left, trim_right, trim_space, drop_last, is_wrapped, inside, strip_from, strip_parens,
}

length-trim_left : (s : Text) → length (trim_left s) ≤ length s
unfolding trim_left
length-trim_left [] = omega arith
length-trim_left (c ∷ s) = ground (arith, length-trim_left s)

length-trim_right : (s : Text) → length (trim_right s) ≤ length s
unfolding trim_right
length-trim_right [] = omega arith
length-trim_right (c ∷ s) = ground (arith, length-trim_right s)

pub length-trim_space : (s : Text) → length (trim_space s) ≤ length s
unfolding trim_space
length-trim_space s = omega (arith, length-trim_right (trim_left s), length-trim_left s)

length-drop_last : (s : Text) → length (drop_last s) ≤ length s
unfolding drop_last
length-drop_last [] = omega arith
length-drop_last (c ∷ []) = omega arith
length-drop_last (c ∷ d ∷ s) = omega (arith, length-drop_last (d ∷ s))

length-inside : (c : ℕ) (s : Text) → length (inside (c ∷ s)) ≤ length s
unfolding inside
length-inside c s = omega (arith, length-trim_space (drop_last s), length-drop_last s)

nil_bare : is_wrapped [] ≡ false
unfolding is_wrapped
nil_bare = refl

strip_from-IsBare : (fuel : ℕ) (s : Text) → length s ≤ fuel → is_wrapped (strip_from fuel s) ≡ false
unfolding strip_from
strip_from-IsBare zero [] h = nil_bare
strip_from-IsBare zero (c ∷ s) h = absurd (omega arith)
strip_from-IsBare (suc fuel) [] h = rw nil_bare nil_bare
strip_from-IsBare (suc fuel) (c ∷ s) h = elim (Bool-cases (is_wrapped (c ∷ s))) [
  | inr f ↦ rw f f
  | inl t ↦ rw t (strip_from-IsBare fuel (inside (c ∷ s)) (omega (arith, length-inside c s)))
]

-- stripParens ends within as many rounds as the text is long: no pair of parentheses wraps its result.
pub strip_parens-IsBare : (s : Text) → is_wrapped (strip_parens s) ≡ false
unfolding strip_parens
strip_parens-IsBare s = strip_from-IsBare (length s) s (omega arith)
