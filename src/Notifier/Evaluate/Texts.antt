-- ===== src/Notifier/Evaluate/Texts.antt =====
-- internal/notifier/notifier.go, stateKey and the maps under it.
use Prim.Native.Char.{nul}
use Prim.Native.String.{String}
use better_pg_keeper.Common.{◌≡◌, IsFree, split_unique}
use better_pg_keeper.Notifier.Evaluate.{state_key}

-- Two issues with one key are one issue, if neither rule id holds a NUL character.
pub state_key-injective :
    (rule_id rule_id' target target' : String)
    → IsFree nul rule_id
    → IsFree nul rule_id'
    → state_key rule_id target ≡ state_key rule_id' target'
    → (rule_id ≡ rule_id') × (target ≡ target')
unfolding state_key
state_key-injective r r' t t' f f' e = split_unique nul r r' t t' f f' e
