-- ===== src/Analyzer/Main/Same.antt =====
-- internal/analyzer/main.go: what the steps of an analysis leave alone, in one domain and in one part of
-- the findings.
use Prim.Native.String.{String}
use better_pg_keeper.Common.{
  ℕ, suc, ℕ-cases, Sum-cases, ◌≡◌, refl, ◌∙◌, ◌≢◌, inl, inr, if_neg, ite, true, Option, none, some,
  str_dec, find_by-assign, arith,
}
use better_pg_keeper.Analyzer.Coverage.{AnalysisResult, domain_coverage, domain_name, usable}
use better_pg_keeper.Analyzer.Main.{
  Kinds, Findings, Call, Run, snapshot_for, invalidate_domain, add_error, fail_domain, examine,
  keep_or_invalidate,
}

module _ {F : Type 0} where
  domain_coverage-invalidate_domain :
      (e d : String) (r : AnalysisResult F)
      → domain_coverage (invalidate_domain e r) d
        ≡ ite (str_dec e d) (record (domain_coverage r e) { stale = true }) (domain_coverage r d)
  unfolding domain_coverage invalidate_domain
  domain_coverage-invalidate_domain e d r =
      let law =
        find_by-assign domain_name str_dec d (e, record (domain_coverage r e) { stale = true })
          r.coverage in
      ground (arith, law)

  -- A domain that is still usable is as it was, and is not the one made ineligible.
  pub invalidate_domain-usable :
      (e d : String) (r : AnalysisResult F)
      → usable (domain_coverage (invalidate_domain e r) d) ≡ true
      → (e ≢ d) × (domain_coverage (invalidate_domain e r) d ≡ domain_coverage r d)
  unfolding usable
  invalidate_domain-usable e d r u =
      let law = domain_coverage-invalidate_domain e d r in
      elim (str_dec e d) [
        | yes p ↦ ground (arith, law, p)
        | no p ↦ (p, law ∙ if_neg (str_dec e d) p _ _)
      ]

-- From one result to a later one, the domain is as it was or not usable, and the part of the findings
-- is as it was.
pub record Same {K : Kinds} {B : Type 0} (d : String) (get : Findings K → B)
    (r r' : AnalysisResult (Findings K)) : Type 0 where
  pub covered : usable (domain_coverage r' d) ≡ true → domain_coverage r' d ≡ domain_coverage r d
  pub found : get r'.findings ≡ get r.findings

module _ {K : Kinds} {B : Type 0} (d : String) (get : Findings K → B) where
  pub Same-refl : (r : AnalysisResult (Findings K)) → Same d get r r
  Same-refl r = record { covered = λ _. refl; found = refl }

  pub Same-trans :
      (r r' r'' : AnalysisResult (Findings K))
      → Same d get r r'
      → Same d get r' r''
      → Same d get r r''
  Same-trans r r' r'' p q = record {
    covered = λ u. let e = q.covered u in e ∙ p.covered (rw e at u);
    found = q.found ∙ p.found;
  }

  pub Same-put :
      (r r' : AnalysisResult (Findings K)) (f : Findings K)
      → get f ≡ get r'.findings
      → Same d get r r'
      → Same d get r (record r' { findings = f })
  unfolding domain_coverage
  Same-put r r' f e p = record { covered = p.covered; found = e ∙ p.found }

  pub Same-invalidate :
      (e : String) (r r' : AnalysisResult (Findings K))
      → Same d get r r'
      → Same d get r (invalidate_domain e r')
  unfolding invalidate_domain
  Same-invalidate e r r' p =
      Same-trans r r' (invalidate_domain e r') p
        (record { covered = λ u. (invalidate_domain-usable e d r' u).1; found = refl })

  pub Same-add_error :
      (l e : String) (r r' : AnalysisResult (Findings K))
      → Same d get r r'
      → Same d get r (add_error l e r')
  unfolding add_error domain_coverage
  Same-add_error l e r r' p = record { covered = p.covered; found = p.found }

  pub Same-fail :
      (e l m : String) (r r' : AnalysisResult (Findings K))
      → Same d get r r'
      → Same d get r (fail_domain e l m r')
  unfolding fail_domain
  Same-fail e l m r r' p = Same-add_error l m r (invalidate_domain e r') (Same-invalidate e r r' p)

  module _ {S A : Type 0} (e l : String) (call : ℕ → Call S A)
      (keep : A → AnalysisResult (Findings K) → AnalysisResult (Findings K)) where
    pub Same-examine :
        (x : Run K S)
        → ((a : A) → Same d get x.0 (keep a x.0))
        → Same d get x.0 (examine e l call keep x).0
    unfolding examine
    Same-examine (r, s) kept = elim (ℕ-cases (snapshot_for r e)) [
      | inl z ↦ rw (z, examine) (Same-refl r)
      | inr (n, z) ↦ elim (Sum-cases (call (suc n) s).0) [
        | inl (m, c) ↦ rw (z, examine) (rw c (Same-fail e l m r r (Same-refl r)))
        | inr (a, c) ↦ rw (z, examine) (rw c (kept a))
      ]
    ]

  pub Same-keep :
      {A : Type 0} (e : String) (put : Option A → Findings K → Findings K)
      (r : AnalysisResult (Findings K))
      → ((a : Option A) (f : Findings K) → get (put a f) ≡ get f)
      → (a : Option A) → Same d get r (keep_or_invalidate e put a r)
  unfolding keep_or_invalidate
  Same-keep e put r free none =
      Same-invalidate e r _
        (Same-put r r (put none r.findings) (free none r.findings) (Same-refl r))
  Same-keep e put r free (some a) =
      Same-put r r (put (some a) r.findings) (free (some a) r.findings) (Same-refl r)
