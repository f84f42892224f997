-- ===== src/Notifier/Digest/Tests.antt =====
-- Runs of the digest and its schedule on concrete times.
use Prim.Native.String.{String}
use better_pg_keeper.Common.{
  ℕ, ◌+◌, ◌*◌, ◌≡◌, refl, inr, Bool, true, false, none, List, [], ◌∷◌, arith, length, take, map,
  str_dec,
}
use better_pg_keeper.Models
use better_pg_keeper.Models.{warning, critical, active}
use better_pg_keeper.Storage.Db.{Environment, Db}
use better_pg_keeper.Storage.Notifications.{time_key_dec}
use better_pg_keeper.Notifier.Settings.{NotificationsConfig, DigestConfig, Channel, Notifier}
use better_pg_keeper.Notifier.Sqlite.{sqlite_states}
use better_pg_keeper.Notifier.Schedule.{
  day, hour, last_digest_slot, parse_weekday, back_to_weekday, find_weekday,
}
use better_pg_keeper.Notifier.Schedule.Slots.{IsLatest, last_digest_slot-IsLatest}
use better_pg_keeper.Notifier.Digest.{
  Digest, max_listed, count_all_active, maybe_send_digest, empty_digest,
}
use better_pg_keeper.Notifier.Digest.Once.{maybe_send_digest-once}
use better_pg_keeper.Notifier.Digest.Counts.{
  severity_total, recents, opened, count_all_active-counts,
}

abbrev weekly : DigestConfig
weekly = record { enabled = true; schedule = "weekly"; weekday = "Mon"; hour = 9 }

abbrev lower : String → String
lower s = "mon"

-- Wednesday, 1970-01-14, at noon: the slot is Monday the 12th at nine.
abbrev noon : ℕ
noon = 13 * day + 12 * hour

noon_slot : last_digest_slot lower weekly noon ≡ inr (11 * day + 9 * hour)
unfolding last_digest_slot parse_weekday find_weekday back_to_weekday str_dec
noon_slot = refl

last_digest_slot-IsLatest_example : IsLatest lower weekly noon (11 * day + 9 * hour)
last_digest_slot-IsLatest_example =
    last_digest_slot-IsLatest lower weekly noon (11 * day + 9 * hour) (omega arith) (omega arith)
      noon_slot

abbrev settings : NotificationsConfig
settings = record {
  min_severity = warning;
  renotify_after = 50;
  notify_resolved = true;
  resolve_grace = 10;
  dashboard_url = "";
  collection_stale_after = 20;
  digest = weekly;
}

abbrev channel : Channel (Digest (Unit {0}))
channel = record { name = "webhook#0"; send = λ _. none }

abbrev notifier : Notifier (Digest (Unit {0}))
notifier = record {
  cfg = settings;
  channels = channel ∷ [];
  instance_id = 1;
  instance = "db";
  started = 5;
  collection_alerted = false;
  collection_alerted_at = 0;
}

abbrev db : Db
db = record {
  suggestions = [];
  notification_states = [];
  notifier_times = (1, "last_digest_slot", 4 * day + 9 * hour) ∷ [];
  snapshots = [];
  snapshot_collectors = [];
  statements = 0;
}

abbrev healthy : Environment
healthy = record { fails = λ _. none; clock = λ n. n }

abbrev no_queries : ℕ → ℕ → Db → List (Unit {0}) × Db
no_queries since now d = ([], d)

abbrev no_verdict : ℕ → Models.Suggestion → String
no_verdict now s = ""

abbrev some_date : ℕ → String
some_date t = "Jan 2"

abbrev first_run : List String × Bool × Db
first_run =
    maybe_send_digest (sqlite_states healthy) no_queries no_verdict some_date lower notifier none
      noon noon db

-- The digest of the new slot is sent.
first_run_sends : first_run.1 ≡ true
unfolding maybe_send_digest str_dec parse_weekday sqlite_states time_key_dec back_to_weekday
first_run_sends = refl

first_run_fine : first_run.0 ≡ []
unfolding maybe_send_digest str_dec parse_weekday sqlite_states time_key_dec back_to_weekday
first_run_fine = refl

maybe_send_digest-once_example :
    (maybe_send_digest
      (sqlite_states healthy)
      no_queries
      no_verdict
      some_date
      lower
      notifier
      none
      noon
      noon
      first_run.2).1
    ≡ false
maybe_send_digest-once_example =
    maybe_send_digest-once (sqlite_states healthy) no_queries no_verdict some_date lower notifier
      none none noon noon noon noon (11 * day + 9 * hour) (11 * day + 9 * hour) db refl noon_slot
      noon_slot (omega arith) first_run_fine

abbrev seen_at : ℕ → Models.Suggestion
seen_at t = record {
  id = 1;
  instance_id = 1;
  rule_id = "bloat";
  severity = critical;
  title = "title";
  description = "";
  target_object = "public.a";
  metadata = "{}";
  status = active;
  first_seen_at = t;
  last_seen_at = t;
  dismissed_at = none;
  resolved_at = none;
}

abbrev two : List Models.Suggestion
two = seen_at 10 ∷ seen_at 30 ∷ []

abbrev start : Digest (Unit {0})
start = empty_digest (sqlite_states healthy) no_queries no_verdict some_date lower notifier 20 40

count_all_active-counts_example :
    (severity_total (count_all_active settings 20 two start) ≡ length two)
    × ((count_all_active settings 20 two start).new_total ≡ length (recents 20 two))
    × ((count_all_active settings 20 two start).new
        ≡ take max_listed (map (opened settings) (recents 20 two)))
count_all_active-counts_example = count_all_active-counts settings 20 two start refl refl refl
