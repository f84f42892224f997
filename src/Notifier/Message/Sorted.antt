-- ===== src/Notifier/Message/Sorted.antt =====
-- internal/notifier/message.go, sortItems.
use Prim.Native.String.{String}
use mathlib.Core.Path.{◌∙◌}
use better_pg_keeper.Models.{Severity, critical, warning, info, other}
use better_pg_keeper.Common.{
  ℕ, ◌≡◌, ◌<◌, ◌≤◌, refl, ◌⊎◌, inl, inr, Bool, true, false, List, [], ◌∷◌, ◌++◌, arith, All,
  All-mono, All-append, filter, filter-All, insert_sorted, sort_by, ap,
}
use better_pg_keeper.Notifier.Message.{Item, severity_rank, more_severe, sort_items}

-- The severities of each kind.
abbrev pub is_critical : Item → Bool
is_critical it = elim it.severity [
  | critical ↦ true
  | warning ↦ false
  | info ↦ false
  | other _ ↦ false
]

abbrev pub is_warning : Item → Bool
is_warning it = elim it.severity [
  | critical ↦ false
  | warning ↦ true
  | info ↦ false
  | other _ ↦ false
]

abbrev pub is_info : Item → Bool
is_info it = elim it.severity [ critical ↦ false | warning ↦ false | info ↦ true | other _ ↦ false ]

abbrev pub is_other : Item → Bool
is_other it = elim it.severity [
  | critical ↦ false
  | warning ↦ false
  | info ↦ false
  | other _ ↦ true
]

-- The critical items, then the warnings, the infos and the others, each in the order of the list.
abbrev pub by_severity : List Item → List Item
by_severity items =
    filter is_critical items
    ++ (filter is_warning items ++ (filter is_info items ++ filter is_other items))

abbrev rank : Item → ℕ
rank it = severity_rank it.severity

-- An item goes behind the more severe ones, and before those that are not.
insert_sorted-behind :
    (x : Item) (before after : List Item)
    → All (λ y. rank x < rank y) before
    → insert_sorted more_severe x (before ++ after) ≡ before ++ insert_sorted more_severe x after
unfolding insert_sorted more_severe
insert_sorted-behind x [] after a = refl
insert_sorted-behind x (y ∷ ys) after a = ground (arith, a.0, insert_sorted-behind x ys after a.1)

insert_sorted-front :
    (x : Item) (n : ℕ) (after : List Item)
    → rank x ≡ n
    → All (λ y. rank y ≤ n) after
    → insert_sorted more_severe x after ≡ x ∷ after
unfolding insert_sorted more_severe
insert_sorted-front x n [] e a = refl
insert_sorted-front x n (y ∷ ys) e a = ground (arith, e, a.0)

-- The members of a group have its rank.
module _ (p : Item → Bool) (n : ℕ) (of_rank : (y : Item) → p y ≡ true → rank y ≡ n) where
  filter-rank : (items : List Item) → All (λ y. rank y ≡ n) (filter p items)
  filter-rank items =
      All-mono (λ y. p y ≡ true) (λ y. rank y ≡ n) of_rank (filter p items) (filter-All p items)

  past_group :
      (x : Item) (items after : List Item)
      → rank x < n
      → insert_sorted more_severe x (filter p items ++ after)
        ≡ filter p items ++ insert_sorted more_severe x after
  past_group x items after h = insert_sorted-behind x (filter p items) after (
      All-mono (λ y. rank y ≡ n) (λ y. rank x < rank y) (λ y e. omega (arith, e, h))
        (filter p items) (filter-rank items))

  with_group :
      (m : ℕ) (items after : List Item)
      → m ≤ n
      → All (λ y. rank y ≤ m) after
      → All (λ y. rank y ≤ n) (filter p items ++ after)
  with_group m items after h a =
      All-append (λ y. rank y ≤ n) (filter p items) after
        (All-mono (λ y. rank y ≡ n) (λ y. rank y ≤ n) (λ y e. omega (arith, e)) (filter p items)
          (filter-rank items))
        (All-mono (λ y. rank y ≤ m) (λ y. rank y ≤ n) (λ y k. omega (arith, k, h)) after a)

severity_cases :
    (v : Severity)
    → (v ≡ critical) ⊎ (v ≡ warning) ⊎ (v ≡ info) ⊎ ((text : String) × (v ≡ other text))
severity_cases critical = inl refl
severity_cases warning = inr (inl refl)
severity_cases info = inr (inr (inl refl))
severity_cases (other text) = inr (inr (inr (text, refl)))

rank_critical : (y : Item) → is_critical y ≡ true → rank y ≡ 3
unfolding severity_rank
rank_critical y h = ground (arith, h, severity_cases y.severity)

rank_warning : (y : Item) → is_warning y ≡ true → rank y ≡ 2
unfolding severity_rank
rank_warning y h = ground (arith, h, severity_cases y.severity)

rank_info : (y : Item) → is_info y ≡ true → rank y ≡ 1
unfolding severity_rank
rank_info y h = ground (arith, h, severity_cases y.severity)

rank_other : (y : Item) → is_other y ≡ true → rank y ≡ 0
unfolding severity_rank
rank_other y h = ground (arith, h, severity_cases y.severity)

-- The groups in front of x are more severe, those behind it are not.
module _ (x : Item) (items : List Item) where
  abbrev others : List Item
  others = filter is_other items

  abbrev from_info : List Item
  from_info = filter is_info items ++ others

  abbrev from_warning : List Item
  from_warning = filter is_warning items ++ from_info

  others-low : All (λ y. rank y ≤ 0) others
  others-low =
      All-mono (λ y. rank y ≡ 0) (λ y. rank y ≤ 0) (λ y e. omega (arith, e)) others
        (filter-rank is_other 0 rank_other items)

  from_info-low : All (λ y. rank y ≤ 1) from_info
  from_info-low = with_group is_info 1 rank_info 0 items others (omega arith) others-low

  from_warning-low : All (λ y. rank y ≤ 2) from_warning
  from_warning-low =
      with_group is_warning 2 rank_warning 1 items from_info (omega arith) from_info-low

  by_severity-low : All (λ y. rank y ≤ 3) (by_severity items)
  by_severity-low =
      with_group is_critical 3 rank_critical 2 items from_warning (omega arith) from_warning-low

  past_critical :
      rank x < 3
      → insert_sorted more_severe x (by_severity items)
        ≡ filter is_critical items ++ insert_sorted more_severe x from_warning
  past_critical = past_group is_critical 3 rank_critical x items from_warning

  past_warning :
      rank x < 2
      → insert_sorted more_severe x from_warning
        ≡ filter is_warning items ++ insert_sorted more_severe x from_info
  past_warning = past_group is_warning 2 rank_warning x items from_info

  past_info :
      rank x < 1
      → insert_sorted more_severe x from_info
        ≡ filter is_info items ++ insert_sorted more_severe x others
  past_info = past_group is_info 1 rank_info x items others

  insert_sorted-by_severity :
      insert_sorted more_severe x (by_severity items) ≡ by_severity (x ∷ items)
  unfolding filter severity_rank
  insert_sorted-by_severity = elim (severity_cases x.severity) [
    | inl e ↦
        let n : rank x ≡ 3 = ap severity_rank e in
        insert_sorted-front x 3 (by_severity items) n by_severity-low ∙ ground (arith, e)
    | inr (inl e) ↦
        let n : rank x ≡ 2 = ap severity_rank e in
        rw
          (
            past_critical (omega (arith, n)),
            insert_sorted-front x 2 from_warning n from_warning-low,
          )
          (ground (arith, e))
    | inr (inr (inl e)) ↦
        let n : rank x ≡ 1 = ap severity_rank e in
        rw
          (
            past_critical (omega (arith, n)),
            past_warning (omega (arith, n)),
            insert_sorted-front x 1 from_info n from_info-low,
          )
          (ground (arith, e))
    | inr (inr (inr (text, e))) ↦
        let n : rank x ≡ 0 = ap severity_rank e in
        rw
          (
            past_critical (omega (arith, n)),
            past_warning (omega (arith, n)),
            past_info (omega (arith, n)),
            insert_sorted-front x 0 others n others-low,
          )
          (ground (arith, e))
  ]

-- sortItems puts the critical items first, then the warnings, the infos and the others, each of these in
-- the order of the list.
pub sort_items-stable : (items : List Item) → sort_items items ≡ by_severity items
unfolding sort_items sort_by filter
sort_items-stable [] = refl
sort_items-stable (x ∷ items) =
    ap (insert_sorted more_severe x) (sort_items-stable items) ∙ insert_sorted-by_severity x items
