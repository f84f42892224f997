-- ===== src/Notifier/Samples.antt =====
-- A notifier with a channel that works and one that does not, for the tests.
use better_pg_keeper.Common.{true, false, none, some, List, [], ◌∷◌}
use better_pg_keeper.Models.{warning}
use better_pg_keeper.Notifier.Settings.{NotificationsConfig, Channel, Notifier}

abbrev pub settings : NotificationsConfig
settings = record {
  min_severity = warning;
  renotify_after = 50;
  notify_resolved = true;
  resolve_grace = 10;
  dashboard_url = "http://keeper/";
  collection_stale_after = 20;
  digest = record { enabled = false; schedule = "daily"; weekday = "monday"; hour = 9 };
}

abbrev pub good_channel : Channel (Unit {0})
good_channel = record { name = "webhook#0"; send = λ _. none }

abbrev pub broken_channel : Channel (Unit {0})
broken_channel = record { name = "slack#1"; send = λ _. some "unreachable" }

abbrev pub notifier_with : List (Channel (Unit {0})) → Notifier (Unit {0})
notifier_with channels = record {
  cfg = settings;
  channels = channels;
  instance_id = 1;
  instance = "db";
  started = 5;
  collection_alerted = false;
  collection_alerted_at = 0;
}

abbrev pub notifier : Notifier (Unit {0})
notifier = notifier_with (broken_channel ∷ good_channel ∷ [])

abbrev pub mute : Notifier (Unit {0})
mute = notifier_with (broken_channel ∷ [])
