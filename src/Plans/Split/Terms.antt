-- ===== src/Plans/Split/Terms.antt =====
-- internal/plans/plans.go, splitAnd: the terms joined again are the filter.
use better_pg_keeper.Common.{
  ℕ, zero, suc, ◌≤◌, ◌≡◌, refl, sym, ap, ◌∙◌, Bool, true, false, Option, some, List, [], ◌∷◌, ◌++◌,
  length, append_assoc, append_nil, Bool-cases, List-cases, inl, inr, arith, ◌⊎◌, ◌==◌, ◌||◌, not,
}
use better_pg_keeper.Plans.Split.{
  Text, and_word, starts_with, Action, refuse, cut, go, action, split_from, split_and, strip_parens,
  trim_space,
}

-- strings.Join(terms, " AND ")
abbrev pub join_and : List Text → Text
join_and [] = []
join_and (t ∷ []) = t
join_and (t ∷ u ∷ us) = t ++ (and_word ++ join_and (u ∷ us))

-- Finished terms, each with the separator after it.
abbrev lead : List Text → Text
lead [] = []
lead (t ∷ ts) = t ++ (and_word ++ lead ts)

join_and-lead : (ts : List Text) (t : Text) → join_and (ts ++ t ∷ []) ≡ lead ts ++ t
join_and-lead [] t = refl
join_and-lead (x ∷ []) t = sym (append_assoc x and_word t)
join_and-lead (x ∷ y ∷ ts) t =
    ap (λ z. x ++ (and_word ++ z)) (join_and-lead (y ∷ ts) t)
    ∙ sym (append_assoc x (and_word ++ lead (y ∷ ts)) t)

lead-snoc : (ts : List Text) (t : Text) → lead (ts ++ t ∷ []) ≡ lead ts ++ (t ++ and_word)
lead-snoc [] t = refl
lead-snoc (x ∷ ts) t =
    ap (λ z. x ++ (and_word ++ z)) (lead-snoc ts t)
    ∙ sym (append_assoc x (and_word ++ lead ts) (t ++ and_word))

join_and-push :
    (ts : List Text) (t s : Text) (c : ℕ)
    → join_and (ts ++ (t ++ c ∷ []) ∷ []) ++ s ≡ join_and (ts ++ t ∷ []) ++ (c ∷ s)
join_and-push ts t s c = rw (join_and-lead ts (t ++ c ∷ []), join_and-lead ts t) (simp append_assoc)

join_and-cut :
    (ts : List Text) (t s : Text)
    → join_and ((ts ++ t ∷ []) ++ [] ∷ []) ++ s ≡ join_and (ts ++ t ∷ []) ++ (and_word ++ s)
join_and-cut ts t s =
    rw (join_and-lead (ts ++ t ∷ []) [], join_and-lead ts t, lead-snoc ts t)
      (simp (append_assoc, append_nil))

starts_with-split : (w s : Text) → starts_with w s ≡ true → (r : Text) × (s ≡ w ++ r)
unfolding starts_with
starts_with-split [] s h = (s, refl)
starts_with-split (x ∷ w) [] h = absurd (cc)
starts_with-split (x ∷ w) (c ∷ s) h =
    let (r, e) = starts_with-split w s (ground arith) in (r, ground (arith, e))

action-cut :
    (d : ℕ) (q : Bool) (c : ℕ) (s : Text)
    → action d q c s ≡ cut
    → starts_with and_word (c ∷ s) ≡ true
unfolding action
action-cut d q c s h = elim (Bool-cases (starts_with and_word (c ∷ s))) [
  | inl t ↦ t
  | inr f ↦ ground (arith, f)
]

Action-cases : (a : Action) → (a ≡ refuse) ⊎ (a ≡ cut) ⊎ ((d : ℕ) × (q : Bool) × (a ≡ go d q))
Action-cases refuse = inl refl
Action-cases cut = inr (inl refl)
Action-cases (go d q) = inr (inr (d, q, refl))

some-eq : {A : Type 0} {x y : A} → ◌≡◌ {A = Option A} (some x) (some y) → x ≡ y
some-eq h = cc

cons-tail : {c d : ℕ} {s t : Text} → ◌≡◌ {A = Text} (c ∷ s) (d ∷ t) → s ≡ t
cons-tail h = cc

split_from-joins :
    (n d : ℕ) (q : Bool) (t : Text) (ts : List Text) (s : Text) (us : List Text)
    → length s ≤ n
    → split_from d q 0 t ts s ≡ some us
    → join_and us ≡ join_and (ts ++ t ∷ []) ++ s
unfolding split_from
split_from-joins n d q t ts [] us b h = elim (Bool-cases (not (d == 0) || q)) [
  | inl e ↦ let h' = rw (e, split_from) at h in absurd (cc)
  | inr e ↦
      let h' = rw (e, split_from) at h in
      ap join_and (sym (some-eq h')) ∙ sym (append_nil (join_and (ts ++ t ∷ [])))
]
split_from-joins zero d q t ts (c ∷ s) us b h = absurd (omega arith)
split_from-joins (suc n) d q t ts (c ∷ s) us b h = elim (Action-cases (action d q c s)) [
  | inl e ↦ let h' = rw (e, split_from) at h in absurd (cc)
  | inr (inl e) ↦
      let (r, p) = starts_with-split and_word (c ∷ s) (action-cut d q c s e) in
      let tail = cons-tail p in
      let h' = rw (e, split_from) at h in
      split_from-joins n d q [] (ts ++ t ∷ []) r us (omega (arith, b, ap length tail))
        (rw tail at h')
      ∙ join_and-cut ts t r
      ∙ ap (λ z. join_and (ts ++ t ∷ []) ++ z) (sym p)
  | inr (inr (d', q', e)) ↦
      split_from-joins n d' q' (t ++ c ∷ []) ts s us (omega arith) (rw (e, split_from) at h)
      ∙ join_and-push ts t s c
]

-- If splitAnd splits a filter, then the terms joined by " AND " are the filter, without the spaces and
-- the parentheses around it.
pub join_and-split_and :
    (filter : Text) (terms : List Text)
    → split_and filter ≡ some terms
    → join_and terms ≡ strip_parens (trim_space filter)
unfolding split_and
join_and-split_and filter terms h = elim (List-cases (strip_parens (trim_space filter))) [
  | inl e ↦ let h' = rw (e, split_and) at h in absurd (cc)
  | inr (c, s, e) ↦
      let h' = rw (e, split_and) at h in
      split_from-joins (length (c ∷ s)) 0 false [] [] (c ∷ s) terms (omega arith) h' ∙ sym e
]
