-- ===== src/Analyzer/Coverage.antt =====
-- internal/analyzer/analyzer.go: the coverage of the data domains and the analysis result. The
-- findings of the sub-analyzers are a parameter: only the rules read them.
use Prim.Native.String.{String}
use better_pg_keeper.Common.{
  ℤ, pos, ℕ, Bool, true, false, not, ◌&&◌, none, some, List, [], ◌∷◌, str_dec, find_by,
}

pub record DomainCoverage : Type 0 where
  pub present : Bool
  pub snapshot_id : ℕ
  pub captured_at : ℕ
  pub age : ℤ
  pub stale : Bool

unfoldable pub usable : DomainCoverage → Bool
usable c = c.present && not c.stale

-- The zero value: what an unrecorded domain reads as.
abbrev pub uncovered : DomainCoverage
uncovered = record { present = false; snapshot_id = 0; captured_at = 0; age = pos 0; stale = false }

-- `Coverage` is the map; a nil map reads like an empty one.
pub record AnalysisResult (F : Type 0) : Type 0 where
  pub snapshot_id : ℕ
  pub instance_id : ℕ
  pub analyzed_at : ℕ
  pub errors : List String
  pub error_count : ℕ
  pub coverage : List (String × DomainCoverage)
  pub findings : F

abbrev pub domain_name : String × DomainCoverage → String
domain_name e = e.0

module _ {F : Type 0} where
  unfoldable pub domain_coverage : AnalysisResult F → String → DomainCoverage
  domain_coverage r domain = elim (find_by domain_name str_dec domain r.coverage) [
    | none ↦ uncovered
    | some e ↦ e.1
  ]

  unfoldable pub domains_usable : AnalysisResult F → List String → Bool
  unfolding domain_coverage usable
  domains_usable r [] = true
  domains_usable r (d ∷ ds) = usable (domain_coverage r d) && domains_usable r ds
