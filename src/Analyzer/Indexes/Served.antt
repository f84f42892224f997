-- ===== src/Analyzer/Indexes/Served.antt =====
-- internal/analyzer/indexes.go, redundantWith: what its tests leave of two indexes.
use Prim.Native.String.{String}
use better_pg_keeper.Common.{
  ◌≡◌, refl, if_pos, if_neg, Bool, true, some, List, [], ◌∷◌, ◌++◌, str_dec, arith, fields,
  is_prefix,
}
use mathlib.Core.Path.{ap₂}
use better_pg_keeper.Analyzer.Indexes.{IndexStat, redundant_with}

-- The retained index has the shape of the candidate, and its key columns start with the candidate's.
pub record IsServed (c r : IndexStat) : Type 0 where
  pub same_method : c.access_method ≡ r.access_method
  pub same_expressions : c.expressions ≡ r.expressions
  pub same_predicate : c.predicate ≡ r.predicate
  pub more : List String
  pub keys : fields r.key_columns ≡ fields c.key_columns ++ more

prefix-append :
    (xs ys : List String) → is_prefix xs ys ≡ true → (zs : List String) × (ys ≡ xs ++ zs)
unfolding is_prefix
prefix-append [] ys h = (ys, refl)
prefix-append (x ∷ xs) [] h = absurd (cc)
prefix-append (x ∷ xs) (y ∷ ys) h = elim (str_dec y x) [
  | no n ↦ let h' = rw (if_neg (str_dec y x) n) at h in absurd (cc)
  | yes p ↦
      let (zs, e) = prefix-append xs ys (rw (if_pos (str_dec y x) p) at h) in (zs, ap₂ ◌∷◌ p e)
]

redundant_with-shape :
    (c r : IndexStat) (e : Bool)
    → redundant_with c r ≡ some e
    → (c.access_method ≡ r.access_method)
      × (c.expressions ≡ r.expressions)
      × (c.predicate ≡ r.predicate)
      × (is_prefix (fields c.key_columns) (fields r.key_columns) ≡ true)
unfolding redundant_with
redundant_with-shape c r e h =
    (ground (arith, h), ground (arith, h), ground (arith, h), ground (arith, h))

pub redundant_with-IsServed :
    (c r : IndexStat) (e : Bool) → redundant_with c r ≡ some e → IsServed c r
redundant_with-IsServed c r e h =
    let (method, expressions, predicate, keys) = redundant_with-shape c r e h in
    let (more, law) = prefix-append (fields c.key_columns) (fields r.key_columns) keys in
    record {
      same_method = method;
      same_expressions = expressions;
      same_predicate = predicate;
      more = more;
      keys = law;
    }
