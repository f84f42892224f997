-- ===== src/Suggester/Suggest/Resolvable.antt =====
-- internal/suggester/suggester.go, resolvableRules: which rule ids the first loop leaves set.
use Prim.Native.String.{String}
use better_pg_keeper.Common.{
  ◌≡◌, refl, ◌⊎◌, inl, inr, ite, if_pos, if_neg, true, false, none, some, List, [], ◌∷◌, arith, All,
  str_dec, find_by, assign, find_by-assign, find_by-erase_by, Option-cases, List-cases,
}
use better_pg_keeper.Analyzer.Coverage.{AnalysisResult, domains_usable}
use better_pg_keeper.Suggester.Rule.{Suggestion, Rule}
use better_pg_keeper.Suggester.Collect.{
  flag, is_set, has_any_prefix, prefix_key, prefixes_of, note_unobserved, Collected, evaluate_rule,
  run_rule, run_rules,
}

pub unset_at_start : (id : String) → is_set id [] ≡ false
unfolding is_set find_by
unset_at_start id = refl

pub unhidden_at_start : (id target : String) → has_any_prefix target (prefixes_of id []) ≡ false
unfolding has_any_prefix prefixes_of find_by
unhidden_at_start id target = refl

-- Some rule has the id.
abbrev pub HasRule : {F M : Type 0} → String → List (Rule F M) → Type 0
HasRule id [] = ⊥
HasRule id (rule ∷ rules) = (rule.id ≡ id) ⊎ HasRule id rules

pub prefixes_of-assign :
    (id : String) (e : String × List String) (m : List (String × List String))
    → prefixes_of id (assign prefix_key str_dec e m) ≡ ite (str_dec e.0 id) e.1 (prefixes_of id m)
unfolding prefixes_of
prefixes_of-assign id e m = ground (arith, find_by-assign prefix_key str_dec id e m)

module _ {F M : Type 0} (analysis : AnalysisResult F) where
  -- The rule says nothing about its issues: its data is missing or stale, or it failed.
  abbrev pub IsSilent : Rule F M → Type 0
  IsSilent rule =
      (domains_usable analysis rule.required_domains ≡ false)
      ⊎ ((e : String) × (rule.evaluate analysis ≡ inl e))

  -- The rule looked: its data is usable, and it did not fail.
  abbrev pub IsHeard : Rule F M → Type 0
  IsHeard rule =
      (domains_usable analysis rule.required_domains ≡ true)
      × ((found : List (Suggestion M)) × (rule.evaluate analysis ≡ inr found))

  run_rule-set :
      (id : String) (rule : Rule F M) (c : Collected M)
      → (rule.id ≡ id → IsHeard rule)
      → (rule.id ≡ id) ⊎ (is_set id c.resolvable_rules ≡ true)
      → is_set id (run_rule analysis rule c).resolvable_rules ≡ true
  unfolding run_rule evaluate_rule is_set
  run_rule-set id rule c heard h =
      let set = assign flag str_dec rule.id c.resolvable_rules in
      let assigned = find_by-assign flag str_dec id rule.id c.resolvable_rules in
      let erased = find_by-erase_by flag str_dec rule.id id set in
      elim (str_dec rule.id id) [
        | yes e ↦
            let (fresh, answer) = heard e in
            let (found, answered) = answer in ground (arith, assigned, fresh, answered, e)
        | no other ↦ ground (arith, assigned, erased, other, h)
      ]

  run_rules-stays_set :
      (id : String) (rules : List (Rule F M)) (c : Collected M)
      → All (λ rule. rule.id ≡ id → IsHeard rule) rules
      → is_set id c.resolvable_rules ≡ true
      → is_set id (run_rules analysis rules c).resolvable_rules ≡ true
  unfolding run_rules
  run_rules-stays_set id [] c a h = h
  run_rules-stays_set id (rule ∷ rules) c a h =
      run_rules-stays_set id rules _ a.1 (run_rule-set id rule c a.0 (inr h))

  -- An id whose rules were all heard, and which has a rule, is resolvable.
  pub run_rules-set :
      (id : String) (rules : List (Rule F M)) (c : Collected M)
      → All (λ rule. rule.id ≡ id → IsHeard rule) rules
      → HasRule id rules
      → is_set id (run_rules analysis rules c).resolvable_rules ≡ true
  unfolding run_rules
  run_rules-set id [] c a h = absurd h
  run_rules-set id (rule ∷ rules) c a (inl e) =
      run_rules-stays_set id rules _ a.1 (run_rule-set id rule c a.0 (inl e))
  run_rules-set id (rule ∷ rules) c a (inr h) = run_rules-set id rules _ a.1 h

  -- The target is not among those that the rule could not observe.
  abbrev pub IsSeen : String → Rule F M → Type 0
  IsSeen target rule = elim rule.unobserved_targets [
    | none ↦ Unit {0}
    | some targets ↦ has_any_prefix target (targets analysis) ≡ false
  ]

  note_unobserved-seen :
      (id target : String) (rule : Rule F M) (m : List (String × List String))
      → (rule.id ≡ id → IsSeen target rule)
      → has_any_prefix target (prefixes_of id m) ≡ false
      → has_any_prefix target (prefixes_of id (note_unobserved analysis rule m)) ≡ false
  unfolding note_unobserved
  note_unobserved-seen id target rule m seen h = elim (Option-cases rule.unobserved_targets) [
    | inl absent ↦ rw (absent, note_unobserved) h
    | inr (targets, present) ↦ elim (List-cases (targets analysis)) [
      | inl empty ↦ rw (present, note_unobserved) (rw empty h)
      | inr (p, ps, some_hidden) ↦
          let law = prefixes_of-assign id (rule.id, p ∷ ps) m in
          elim (str_dec rule.id id) [
            | yes e ↦
                let shown = rw (present, some_hidden) at (seen e) in
                rw (present, note_unobserved)
                  (rw some_hidden (rw (law, if_pos (str_dec rule.id id) e) shown))
            | no other ↦
                rw (present, note_unobserved)
                  (rw some_hidden (rw (law, if_neg (str_dec rule.id id) other) h))
          ]
    ]
  ]

  run_rule-seen :
      (id target : String) (rule : Rule F M) (c : Collected M)
      → (rule.id ≡ id → IsSeen target rule)
      → has_any_prefix target (prefixes_of id c.unobserved) ≡ false
      → has_any_prefix target (prefixes_of id (run_rule analysis rule c).unobserved) ≡ false
  unfolding run_rule evaluate_rule
  run_rule-seen id target rule c seen h =
      ground (arith, note_unobserved-seen id target rule c.unobserved seen h)

  pub run_rules-seen :
      (id target : String) (rules : List (Rule F M)) (c : Collected M)
      → All (λ rule. rule.id ≡ id → IsSeen target rule) rules
      → has_any_prefix target (prefixes_of id c.unobserved) ≡ false
      → has_any_prefix target (prefixes_of id (run_rules analysis rules c).unobserved) ≡ false
  unfolding run_rules
  run_rules-seen id target [] c a h = h
  run_rules-seen id target (rule ∷ rules) c a h =
      run_rules-seen id target rules _ a.1 (run_rule-seen id target rule c a.0 h)
