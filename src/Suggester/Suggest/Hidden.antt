-- ===== src/Suggester/Suggest/Hidden.antt =====
-- internal/suggester/suggester.go, resolvableRules and unobserved: the issues that the resolve loop passes over.
use Prim.Native.String.{String}
use better_pg_keeper.Common.{
  ◌≡◌, ◌≢◌, ◌⊎◌, inl, inr, if_pos, if_neg, true, false, some, List, [], ◌∷◌, arith, All, str_dec,
  assign, find_by-assign, find_by-erase_by, Option-cases, List-cases,
}
use better_pg_keeper.Analyzer.Coverage.{AnalysisResult}
use better_pg_keeper.Suggester.Rule.{Rule}
use better_pg_keeper.Suggester.Collect.{
  flag, is_set, has_any_prefix, prefixes_of, note_unobserved, Collected, evaluate_rule, run_rule,
  run_rules,
}
use better_pg_keeper.Suggester.Suggest.Resolvable.{IsSilent, prefixes_of-assign}

nothing_hidden : (target : String) → ¬ (has_any_prefix target [] ≡ true)
unfolding has_any_prefix
nothing_hidden target h = absurd (cc)

-- Issues of `id` on `target` are not resolved: the id is not resolvable, or the target is hidden.
abbrev pub IsHeldBack : {M : Type 0} → String → String → Collected M → Type 0
IsHeldBack id target c =
    (is_set id c.resolvable_rules ≡ false)
    ⊎ (has_any_prefix target (prefixes_of id c.unobserved) ≡ true)

module _ {F M : Type 0} (analysis : AnalysisResult F) where
  -- The target is among those that the rule says it could not observe.
  abbrev pub IsHiding : String → Rule F M → Type 0
  IsHiding target rule =
      (targets : AnalysisResult F → List String) × (rule.unobserved_targets ≡ some targets)
      × (has_any_prefix target (targets analysis) ≡ true)

  note_unobserved-hides :
      (id target : String) (rule : Rule F M) (m : List (String × List String))
      → rule.id ≡ id
      → IsHiding target rule
      → has_any_prefix target (prefixes_of id (note_unobserved analysis rule m)) ≡ true
  unfolding note_unobserved
  note_unobserved-hides id target rule m same (targets, present, hidden) =
      elim (List-cases (targets analysis)) [
        | inl empty ↦ absurd (nothing_hidden target (rw empty at hidden))
        | inr (p, ps, some_hidden) ↦
            let law = prefixes_of-assign id (rule.id, p ∷ ps) m in
            let covered = rw some_hidden at hidden in
            rw (present, note_unobserved)
              (rw some_hidden (rw (law, if_pos (str_dec rule.id id) same) covered))
      ]

  note_unobserved-other :
      (id target : String) (rule : Rule F M) (m : List (String × List String))
      → rule.id ≢ id
      → has_any_prefix target (prefixes_of id m) ≡ true
      → has_any_prefix target (prefixes_of id (note_unobserved analysis rule m)) ≡ true
  unfolding note_unobserved
  note_unobserved-other id target rule m other h = elim (Option-cases rule.unobserved_targets) [
    | inl absent ↦ rw (absent, note_unobserved) h
    | inr (targets, present) ↦ elim (List-cases (targets analysis)) [
      | inl empty ↦ rw (present, note_unobserved) (rw empty h)
      | inr (p, ps, some_hidden) ↦
          let law = prefixes_of-assign id (rule.id, p ∷ ps) m in
          rw (present, note_unobserved)
            (rw some_hidden (rw (law, if_neg (str_dec rule.id id) other) h))
    ]
  ]

  run_rule-holds_back :
      (id target : String) (rule : Rule F M) (c : Collected M)
      → (rule.id ≡ id → IsSilent analysis rule ⊎ IsHiding target rule)
      → IsHeldBack id target c
      → IsHeldBack id target (run_rule analysis rule c)
  unfolding run_rule evaluate_rule is_set
  run_rule-holds_back id target rule c blind h =
      let set = assign flag str_dec rule.id c.resolvable_rules in
      let assigned = find_by-assign flag str_dec id rule.id c.resolvable_rules in
      let erased = find_by-erase_by flag str_dec rule.id id set in
      elim (str_dec rule.id id) [
        | yes e ↦ elim (blind e) [
          | inl (inl missing) ↦ rw (missing, run_rule) h
          | inl (inr (x, failed)) ↦ ground (arith, assigned, erased, failed, e, h)
          | inr hiding ↦ ground (
            arith,
            assigned,
            erased,
            e,
            h,
            note_unobserved-hides id target rule c.unobserved e hiding,
          )
        ]
        | no other ↦ elim h [
          | inl unset ↦ ground (arith, assigned, erased, other, unset)
          | inr hidden ↦
              ground (arith, hidden, note_unobserved-other id target rule c.unobserved other hidden)
        ]
      ]

  pub run_rules-holds_back :
      (id target : String) (rules : List (Rule F M)) (c : Collected M)
      → All (λ rule. rule.id ≡ id → IsSilent analysis rule ⊎ IsHiding target rule) rules
      → IsHeldBack id target c
      → IsHeldBack id target (run_rules analysis rules c)
  unfolding run_rules
  run_rules-holds_back id target [] c a h = h
  run_rules-holds_back id target (rule ∷ rules) c a h =
      run_rules-holds_back id target rules _ a.1 (run_rule-holds_back id target rule c a.0 h)
