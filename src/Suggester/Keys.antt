-- ===== src/Suggester/Keys.antt =====
-- internal/suggester/suggester.go, suggestionKey: the joined key tells issues apart.
use Prim.Native.Char.{Char}
use Prim.Native.String
use Prim.Native.String.{String}
use text.Mathlib.TextLemmas.{nil-append, cons-append}
use better_pg_keeper.Common.{◌≡◌, ap, sym, ◌∙◌, IsFree, split_unique}
use better_pg_keeper.Suggester.Collect.{suggestion_key}

abbrev pub colon : Char
colon = ":"

suggestion_key-append :
    (rule_id target : String)
    → suggestion_key rule_id target ≡ String.◌++◌ rule_id (String.◌∷◌ colon target)
unfolding suggestion_key
suggestion_key-append rule_id target =
    ap (String.◌++◌ rule_id)
      (cons-append colon "" target ∙ ap (String.◌∷◌ colon) (nil-append target))

-- Two issues with one key are one issue, if no rule id holds the separator.
pub suggestion_key-injective :
    (rule_id rule_id' target target' : String)
    → IsFree colon rule_id
    → IsFree colon rule_id'
    → suggestion_key rule_id target ≡ suggestion_key rule_id' target'
    → (rule_id ≡ rule_id') × (target ≡ target')
suggestion_key-injective r r' t t' f f' e =
    split_unique colon r r' t t' f f'
      (sym (suggestion_key-append r t) ∙ e ∙ suggestion_key-append r' t')
