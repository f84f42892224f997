-- ===== src/Notifier/Digest.antt =====
-- internal/notifier/digest.go: the digest and when it is sent. The queries with the largest share of the
-- load, which are sorted by floating-point times, the verdict on a fix, and the format of a date are
-- parameters.
pub mod Once
pub mod Counts
mod Tests
use Prim.Native.String.{String}
use better_pg_keeper.Common.{
  ℕ, ◌+◌, Bool, true, false, ◌⊎◌, inl, inr, ite, Option, none, some, List, [], ◌∷◌, ◌++◌, length,
  ltb, leb, str_dec, sprint, if◌then◌else◌,
}
use better_pg_keeper.Models
use better_pg_keeper.Models.{Severity, critical, warning, info, other, active, resolved}
use better_pg_keeper.Storage.Notifications.{TimeKey}
use better_pg_keeper.Notifier.Message.{Item, Message, kind_digest, event_opened, event_resolved}
use better_pg_keeper.Notifier.Settings.{Notifier, NotificationsConfig}
use better_pg_keeper.Notifier.Deliver.{deliver, item, link}
use better_pg_keeper.Notifier.Store.{Storage}
use better_pg_keeper.Notifier.Evaluate.{no_severity}
use better_pg_keeper.Notifier.Schedule.{last_digest_slot, previous_slot}

-- `Q` is TopQuery.
pub record Digest (Q : Type 0) : Type 0 where
  pub period_start : ℕ
  pub period_end : ℕ
  pub critical_count : ℕ
  pub warning_count : ℕ
  pub info_count : ℕ
  pub new : List Item
  pub new_total : ℕ
  pub resolved_items : List Item
  pub resolved_total : ℕ
  pub top_queries : List Q
  pub last_collection : Option ℕ

abbrev pub max_listed : ℕ
max_listed = 15

unfoldable pub count_severity : {Q : Type 0} → Severity → Digest Q → Digest Q
count_severity critical d = record d { critical_count = d.critical_count + 1 }
count_severity warning d = record d { warning_count = d.warning_count + 1 }
count_severity info d = record d { info_count = d.info_count + 1 }
count_severity (other _) d = record d { info_count = d.info_count + 1 }

-- `append` to a list that is capped.
abbrev pub append_capped : Item → List Item → List Item
append_capped it its = if ltb (length its) max_listed then its ++ it ∷ [] else its

unfoldable pub resolved_at : Models.Suggestion → ℕ
resolved_at s = elim s.resolved_at [ some t ↦ t | none ↦ s.last_seen_at ]

module _ {Q : Type 0} (cfg : NotificationsConfig) (since : ℕ) where
  -- The body of the loop over the active suggestions.
  unfoldable pub count_active : Models.Suggestion → Digest Q → Digest Q
  unfolding count_severity
  count_active s d =
      let d' = count_severity s.severity d in
      if leb since s.first_seen_at
      then record d' {
        new_total = d'.new_total + 1;
        new = append_capped (item cfg event_opened s no_severity) d'.new;
      }
      else d'

  unfoldable pub count_all_active : List Models.Suggestion → Digest Q → Digest Q
  unfolding count_active
  count_all_active [] d = d
  count_all_active (s ∷ ss) d = count_all_active ss (count_active s d)

  module _ (outcome : Models.Suggestion → String) where
    unfoldable pub count_resolved : Models.Suggestion → Digest Q → Digest Q
    count_resolved s d =
        if leb since (resolved_at s)
        then record d {
          resolved_total = d.resolved_total + 1;
          resolved_items =
              append_capped (record (item cfg event_resolved s no_severity) { outcome = outcome s })
                d.resolved_items;
        }
        else d

    unfoldable pub count_all_resolved : List Models.Suggestion → Digest Q → Digest Q
    unfolding count_resolved
    count_all_resolved [] d = d
    count_all_resolved (s ∷ ss) d = count_all_resolved ss (count_resolved s d)

abbrev pub digest_key : String
digest_key = "last_digest_slot"

module _ {Q S : Type 0} (storage : Storage S) (top_queries : ℕ → ℕ → S → List Q × S)
    (outcome : ℕ → Models.Suggestion → String) (format_date : ℕ → String)
    (normalize : String → String) (n : Notifier (Digest Q)) where
  abbrev pub empty_digest : ℕ → ℕ → Digest Q
  empty_digest since now = record {
    period_start = since;
    period_end = now;
    critical_count = 0;
    warning_count = 0;
    info_count = 0;
    new = [];
    new_total = 0;
    resolved_items = [];
    resolved_total = 0;
    top_queries = [];
    last_collection = none;
  }

  abbrev pub digest_message : ℕ → ℕ → Digest Q → Message (Digest Q)
  digest_message since now d = record {
    kind = kind_digest;
    instance = "";
    title = sprint (
        ite (str_dec n.cfg.digest.schedule "weekly") "Weekly" "Daily"
        ∷ " digest, "
        ∷ format_date since
        ∷ " – "
        ∷ format_date now
        ∷ []);
    detail = "";
    items = [];
    digest = some d;
    url = link n.cfg "/";
    sent_at = 0;
  }

  -- `last_collection` is the first result of CollectionStatus, if there is a collection.
  unfoldable pub build_digest : Option ℕ → ℕ → ℕ → S → (String ⊎ Message (Digest Q)) × S
  unfolding count_all_active count_all_resolved
  build_digest last_collection since now s =
      let ((failed, actives), s1) = storage.get_suggestions_by_status n.instance_id active s in
      elim failed [
        | some e ↦ (inl e, s1)
        | none ↦
            let ((failed', resolveds), s2) =
              storage.get_suggestions_by_status n.instance_id resolved s1 in
            elim failed' [
              | some e ↦ (inl e, s2)
              | none ↦
                  let counted =
                    count_all_resolved n.cfg since (outcome now) resolveds
                      (count_all_active n.cfg since actives (empty_digest since now)) in
                  let (top, s3) = top_queries since now s2 in
                  let d = record counted { top_queries = top; last_collection = last_collection } in
                  (inr (digest_message since now d), s3)
            ]
      ]

  abbrev pub time_key : TimeKey
  time_key = (n.instance_id, digest_key)

  -- The error of a write, as the list of errors.
  abbrev pub error_list : Option String → List String
  error_list none = []
  error_list (some e) = e ∷ []

  unfoldable pub set_slot : ℕ → S → List String × S
  set_slot slot s =
      let (failed, s') = storage.set_notifier_time time_key slot s in (error_list failed, s')

  -- The errors, whether a digest was handed to the channels, and the storage afterwards.
  unfoldable pub send_digest : Option ℕ → ℕ → ℕ → ℕ → S → List String × Bool × S
  unfolding build_digest set_slot deliver
  send_digest last_collection now sent_at slot s =
      let (built, s1) = build_digest last_collection (previous_slot n.cfg.digest slot) now s in
      elim built [
        | inl e ↦ (e ∷ [], false, s1)
        | inr msg ↦ elim (deliver n sent_at msg) [
          | e ∷ es ↦ (e ∷ es, true, s1)
          | [] ↦ let (errs, s2) = set_slot slot s1 in (errs, true, s2)
        ]
      ]

  unfoldable pub maybe_send_digest : Option ℕ → ℕ → ℕ → S → List String × Bool × S
  unfolding last_digest_slot send_digest set_slot
  maybe_send_digest last_collection now sent_at s =
      if n.cfg.digest.enabled
      then elim (last_digest_slot normalize n.cfg.digest now) [
        | inl e ↦ (e ∷ [], false, s)
        | inr slot ↦
            let (read, s1) = storage.get_notifier_time time_key s in
            elim read [
              | inl e ↦ (e ∷ [], false, s1)
              | inr none ↦ let (errs, s2) = set_slot slot s1 in (errs, false, s2)
              | inr (some last) ↦
                  if ltb last slot
                  then send_digest last_collection now sent_at slot s1
                  else ([], false, s1)
            ]
      ]
      else ([], false, s)
