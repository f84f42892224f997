-- ===== src/Analyzer/Main/Answers.antt =====
-- internal/analyzer/main.go: what a usable domain of the finished analysis says about the findings.
use Prim.Native.String.{String}
use better_pg_keeper.Common.{
  ℕ, suc, ℕ-cases, Sum-cases, Bool-cases, ◌≡◌, refl, sym, ◌∙◌, ap, ◌≢◌, ◌⊎◌, inl, inr, true, false,
  Option, none, some, List, [], ◌∷◌, All,
}
use better_pg_keeper.Analyzer.Coverage.{AnalysisResult, domain_coverage, usable}
use better_pg_keeper.Analyzer.Main.{
  Kinds, Findings, Call, Run, snapshot_for, fail_domain, add_error, examine, keep_or_invalidate,
}
use better_pg_keeper.Analyzer.Main.Same.{Same, Same-refl, Same-trans, invalidate_domain-usable}

module _ {K : Kinds} where
  -- A usable domain has a snapshot.
  abbrev pub IsNumbered : String → AnalysisResult (Findings K) → Type 0
  IsNumbered d r = usable (domain_coverage r d) ≡ true → snapshot_for r d ≢ 0

  pub Same-IsNumbered :
      {B : Type 0} (d : String) (get : Findings K → B) (r r' : AnalysisResult (Findings K))
      → Same d get r r'
      → IsNumbered d r
      → IsNumbered d r'
  unfolding snapshot_for
  Same-IsNumbered d get r r' p num u =
      let e = p.covered u in λ z. num (rw e at u) (sym (ap (λ c. c.snapshot_id) e) ∙ z)

  pub fail_domain-ne-usable :
      (d l m : String) (r : AnalysisResult (Findings K))
      → ¬ (usable (domain_coverage (fail_domain d l m r) d) ≡ true)
  unfolding fail_domain add_error domain_coverage
  fail_domain-ne-usable d l m r u = (invalidate_domain-usable d d r u).0 refl

  keep_own :
      {A : Type 0} (d : String) (put : Option A → Findings K → Findings K) (a : Option A)
      (r : AnalysisResult (Findings K)) (get : Findings K → Option A)
      → ((f : Findings K) → get (put a f) ≡ a)
      → usable (domain_coverage (keep_or_invalidate d put a r) d) ≡ true
      → (b : A) × (a ≡ some b)
        × (get (keep_or_invalidate d put a r).findings ≡ some b)
        × (domain_coverage (keep_or_invalidate d put a r) d ≡ domain_coverage r d)
  unfolding keep_or_invalidate domain_coverage
  keep_own d put none r get kept u =
      absurd ((invalidate_domain-usable d d (record r { findings = put none r.findings }) u).0 refl)
  keep_own d put (some b) r get kept u = (b, refl, kept r.findings, refl)

module _ {K : Kinds} {S : Type 0} where
  -- The steps one after the other.
  abbrev pub compose : List (Run K S → Run K S) → Run K S → Run K S
  compose [] x = x
  compose (f ∷ fs) x = compose fs (f x)

  pub Same-compose :
      {B : Type 0} (d : String) (get : Findings K → B) (fs : List (Run K S → Run K S))
      → All (λ f. (x : Run K S) → Same d get x.0 (f x).0) fs
      → (x : Run K S) → Same d get x.0 (compose fs x).0
  Same-compose d get [] a x = Same-refl d get x.0
  Same-compose d get (f ∷ fs) a x =
      Same-trans d get x.0 (f x).0 (compose fs (f x)).0 (a.0 x) (Same-compose d get fs a.1 (f x))

  -- The findings of the domain are what the call returned for the domain's snapshot.
  abbrev pub IsAnswer :
      {A : Type 0} → String → (ℕ → Call S A) → A → AnalysisResult (Findings K) → Type 0
  IsAnswer d call a r = (s : S) × ((call (snapshot_for r d) s).0 ≡ inr a)

  module _ {A : Type 0} (d l : String) (call : ℕ → Call S A)
      (keep : A → AnalysisResult (Findings K) → AnalysisResult (Findings K)) where
    -- After its own step a domain is usable only if its call answered.
    pub examine_own :
        (x : Run K S)
        → IsNumbered d x.0
        → usable (domain_coverage (examine d l call keep x).0 d) ≡ true
        → (a : A) × IsAnswer d call a x.0 × ((examine d l call keep x).0 ≡ keep a x.0)
    unfolding examine
    examine_own (r, s) num u = elim (ℕ-cases (snapshot_for r d)) [
      | inl z ↦ let u' = rw (z, examine) at u in absurd (num u' z)
      | inr (n, z) ↦ elim (Sum-cases (call (suc n) s).0) [
        | inl (m, c) ↦
            let u' = rw (z, examine) at u in
            let u'' = rw c at u' in absurd (fail_domain-ne-usable d l m r u'')
        | inr (a, c) ↦ (a, (s, rw z c), rw (z, examine) (rw c refl))
      ]
    ]

    -- A finding that is a list.
    pub examine_list :
        (get : Findings K → A) (fs : List (Run K S → Run K S)) (x : Run K S)
        → IsNumbered d x.0
        → ((a : A)
            → (get (keep a x.0).findings ≡ a)
              × (domain_coverage (keep a x.0) d ≡ domain_coverage x.0 d))
        → All (λ f. (x : Run K S) → Same d get x.0 (f x).0) fs
        → (usable (domain_coverage (compose fs (examine d l call keep x)).0 d) ≡ false)
          ⊎ IsAnswer d call
              (get (compose fs (examine d l call keep x)).0.findings)
              (compose fs (examine d l call keep x)).0
    unfolding snapshot_for
    examine_list get fs x num kept rest =
        let y = examine d l call keep x in
        let same = Same-compose d get fs rest y in
        elim (Bool-cases (usable (domain_coverage (compose fs y).0 d))) [
          | inr u ↦ inl u
          | inl u ↦
              let e = same.covered u in
              let (a, (s, c), law) = examine_own x num (rw e at u) in
              let (got, cov) = kept a in
              inr (
                s,
                rw (same.found, ap (λ (r : AnalysisResult (Findings K)). get r.findings) law, got)
                    (rw
                      (ap (λ c. c.snapshot_id)
                        (e
                          ∙ ap (λ (r : AnalysisResult (Findings K)). domain_coverage r d) law
                          ∙ cov))
                      c),
              )
        ]

  module _ {A : Type 0} (d l : String) (call : ℕ → Call S (Option A))
      (put : Option A → Findings K → Findings K) where
    -- A finding that is a pointer is not nil.
    pub examine-some :
        (get : Findings K → Option A) (fs : List (Run K S → Run K S)) (x : Run K S)
        → IsNumbered d x.0
        → ((a : Option A) (f : Findings K) → get (put a f) ≡ a)
        → All (λ f. (x : Run K S) → Same d get x.0 (f x).0) fs
        → (usable (domain_coverage (compose fs (examine d l call (keep_or_invalidate d put) x)).0 d)
            ≡ false)
          ⊎ (a : A) × (get (compose fs (examine d l call (keep_or_invalidate d put) x)).0.findings
              ≡ some a)
            × IsAnswer d call
                (some a)
                (compose fs (examine d l call (keep_or_invalidate d put) x)).0
    unfolding snapshot_for
    examine-some get fs x num kept rest =
        let y = examine d l call (keep_or_invalidate d put) x in
        let same = Same-compose d get fs rest y in
        elim (Bool-cases (usable (domain_coverage (compose fs y).0 d))) [
          | inr u ↦ inl u
          | inl u ↦
              let e = same.covered u in
              let (a, (s, c), law) =
                examine_own d l call (keep_or_invalidate d put) x num (rw e at u) in
              let e' = e ∙ ap (λ (r : AnalysisResult (Findings K)). domain_coverage r d) law in
              let (b, p, f, cov) = keep_own d put a x.0 get (kept a) (rw e' at u) in
              inr (
                b,
                same.found ∙ ap (λ (r : AnalysisResult (Findings K)). get r.findings) law ∙ f,
                (s, rw (ap (λ c. c.snapshot_id) (e' ∙ cov)) (c ∙ ap inr p)),
              )
        ]
