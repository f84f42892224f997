-- ===== src/Notifier/Collection/Tests.antt =====
-- Polls of the collection status, for the statements about checkCollection.
use Prim.Native.String.{String}
use better_pg_keeper.Common.{ℕ, ◌≡◌, refl, some, List, [], ◌∷◌, arith}
use better_pg_keeper.Notifier.Deliver.{deliver, send_all}
use better_pg_keeper.Notifier.Samples.{notifier}
use better_pg_keeper.Notifier.Collection.{
  check_status, already_told, report_failing, report_recovery, Poll, failing, recovered,
  check_collection, is_down, collection_run,
}
use better_pg_keeper.Notifier.Collection.Log.{
  IsSpaced, collection_run-IsSpaced, check_collection-tells,
}

abbrev polls : List Poll
polls =
    record { now = 90; sent_at = 90; status = some (85, "") }
    ∷ record { now = 80; sent_at = 80; status = some (10, "refused") }
    ∷ record { now = 60; sent_at = 60; status = some (10, "refused") }
    ∷ record { now = 30; sent_at = 30; status = some (10, "refused") }
    ∷ []

abbrev wording : ℕ → String → String
wording down e = e

collection_run-IsSpaced_example : IsSpaced 50 (collection_run wording polls notifier).0
collection_run-IsSpaced_example = collection_run-IsSpaced wording polls notifier refl

collection_run_log :
    (collection_run wording polls notifier).0 ≡ recovered 90 ∷ failing 80 ∷ failing 30 ∷ []
unfolding collection_run already_told report_failing report_recovery
collection_run_log = refl

abbrev outage : Poll
outage = record { now = 30; sent_at = 30; status = some (10, "refused") }

outage_reported : (check_collection wording notifier outage).errors ≡ []
unfolding check_collection check_status report_failing already_told deliver send_all
outage_reported = refl

check_collection-tells_example :
    (check_collection wording notifier outage).after.collection_alerted ≡ is_down notifier outage 10
check_collection-tells_example =
    check_collection-tells wording notifier outage 10 "refused" refl (omega arith) outage_reported
