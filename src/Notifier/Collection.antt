-- ===== src/Notifier/Collection.antt =====
-- internal/notifier/notifier.go, checkCollection: the alert about collection that fails. The wording of the
-- detail, which formats a duration and shortens an error text, is a parameter.
pub mod Log
mod Tests
use Prim.Native.String.{String}
use better_pg_keeper.Common.{
  ℕ, ◌+◌, ◌-◌, Bool, true, false, ◌&&◌, ◌||◌, Option, none, some, List, [], ◌∷◌, ltb, leb,
  if◌then◌else◌,
}
use better_pg_keeper.Notifier.Message.{kind_health, Message}
use better_pg_keeper.Notifier.Settings.{Notifier}
use better_pg_keeper.Notifier.Deliver.{deliver, link}

-- One call: n.now(), n.now() at the delivery, and the collection status, if there is a collection.
pub record Poll : Type 0 where
  pub now : ℕ
  pub sent_at : ℕ
  pub status : Option (ℕ × String)

-- What was delivered, and when.
pub data Notice : Type 0 where
  failing recovered : ℕ → Notice

-- The errors of the call, what it delivered, and the notifier after it.
pub record Checked (D : Type 0) : Type 0 where
  pub errors : List String
  pub delivered : Option Notice
  pub after : Notifier D

module _ {D : Type 0} where
  abbrev pub recovered_message : Notifier D → Message D
  recovered_message n = record {
    kind = kind_health;
    instance = "";
    title = "✅ data collection recovered";
    detail = "";
    items = [];
    digest = none;
    url = link n.cfg "/";
    sent_at = 0;
  }

  abbrev pub nothing_done : Notifier D → Checked D
  nothing_done n = record { errors = []; delivered = none; after = n }

  -- An alert was sent, and it is not time to repeat it.
  unfoldable pub already_told : Notifier D → ℕ → Bool
  already_told n now =
      n.collection_alerted
      && (leb n.cfg.renotify_after 0 || ltb now (n.collection_alerted_at + n.cfg.renotify_after))

  unfoldable pub report_recovery : Notifier D → Poll → Checked D
  unfolding deliver
  report_recovery n poll = elim (deliver n poll.sent_at (recovered_message n)) [
    | e ∷ es ↦ record { errors = e ∷ es; delivered = none; after = n }
    | [] ↦ record {
      errors = [];
      delivered = some (recovered poll.now);
      after = record n { collection_alerted = false };
    }
  ]

  -- The outage lasts since the last success, or since the start.
  abbrev pub since : Notifier D → ℕ → ℕ
  since n last_success = if ltb last_success n.started then n.started else last_success

  abbrev pub is_down : Notifier D → Poll → ℕ → Bool
  is_down n poll last_success = leb (since n last_success + n.cfg.collection_stale_after) poll.now

abbrev pub log_of : Option Notice → List Notice → List Notice
log_of none log = log
log_of (some x) log = x ∷ log

module _ {D : Type 0} (outage_detail : ℕ → String → String) where
  abbrev pub failing_message : Notifier D → ℕ → String → Message D
  failing_message n down last_error = record {
    kind = kind_health;
    instance = "";
    title = "⚠\u{fe0f} data collection is failing";
    detail = outage_detail down last_error;
    items = [];
    digest = none;
    url = link n.cfg "/";
    sent_at = 0;
  }

  unfoldable pub report_failing : Notifier D → Poll → ℕ → String → Checked D
  unfolding deliver
  report_failing n poll down last_error =
      elim (deliver n poll.sent_at (failing_message n down last_error)) [
        | e ∷ es ↦ record { errors = e ∷ es; delivered = none; after = n }
        | [] ↦ record {
          errors = [];
          delivered = some (failing poll.now);
          after = record n { collection_alerted = true; collection_alerted_at = poll.now };
        }
      ]

  unfoldable pub check_status : Notifier D → Poll → ℕ → String → Checked D
  check_status n poll last_success last_error =
      if is_down n poll last_success
      then (if already_told n poll.now
          then nothing_done n
          else report_failing n poll (poll.now - since n last_success) last_error)
      else if n.collection_alerted
      then report_recovery n poll
      else nothing_done n

  unfoldable pub check_collection : Notifier D → Poll → Checked D
  unfolding check_status
  check_collection n poll = elim poll.status [
    | none ↦ nothing_done n
    | some (last_success, last_error) ↦
        if leb n.cfg.collection_stale_after 0
        then nothing_done n
        else check_status n poll last_success last_error
  ]

  -- A history of calls, the last one first: what was delivered, the last first, and the notifier.
  unfoldable pub collection_run : List Poll → Notifier D → List Notice × Notifier D
  unfolding check_collection
  collection_run [] n = ([], n)
  collection_run (poll ∷ earlier) n =
      let (log, n') = collection_run earlier n in
      let r = check_collection n' poll in (log_of r.delivered log, r.after)
