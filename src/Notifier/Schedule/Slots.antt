-- ===== src/Notifier/Schedule/Slots.antt =====
-- internal/notifier/digest.go, lastDigestSlot: the slot is the latest one at or before now.
use Prim.Native.String.{String}
use better_pg_keeper.Common.{
  ℕ, zero, suc, ◌+◌, ◌-◌, ◌*◌, ◌/◌, ◌%◌, ◌≤◌, ◌<◌, ◌≡◌, ◌≢◌, inl, inr, if_pos, if_neg, List, arith,
  [], ◌∷◌, length, Sum-cases, ltb, str_dec, Bool-cases, ℕ_discrete,
}
use mathlib.Core.Path.{subst}
use better_pg_keeper.Notifier.Settings.{DigestConfig}
use better_pg_keeper.Notifier.Schedule.{
  day, hour, weekdays, find_weekday, parse_weekday, weekday_of, back_to_weekday, daily_slot,
  last_digest_slot,
}

daily_slot_lem :
    (d : DigestConfig) (now : ℕ)
    → d.hour < 24
    → day ≤ now
    → (daily_slot d now ≤ now)
      × (now < daily_slot d now + day)
      × (daily_slot d now % day ≡ d.hour * hour)
daily_slot_lem d now h past = elim (Bool-cases (ltb now (now / day * day + d.hour * hour))) [
  | inl late ↦ ground (arith, late, h, past)
  | inr early ↦ ground (arith, early, h, past)
]

back_to_weekday_lem :
    (fuel weekday slot : ℕ)
    → weekday < 7
    → (weekday_of slot + 7 - weekday) % 7 ≤ fuel
    → fuel * day ≤ slot
    → (j : ℕ) × (j ≤ fuel)
      × (back_to_weekday fuel weekday slot + j * day ≡ slot)
      × (weekday_of (back_to_weekday fuel weekday slot) ≡ weekday)
unfolding back_to_weekday
back_to_weekday_lem zero weekday slot w enough past = (0, omega arith, omega arith, omega arith)
back_to_weekday_lem (suc fuel) weekday slot w enough past =
    elim (ℕ_discrete (weekday_of slot) weekday) [
      | yes here ↦ (0, omega arith, ground (arith, here), ground (arith, here))
      | no other ↦
          let (j, less, back, there) =
            back_to_weekday_lem fuel weekday (slot - day) w (omega arith) (omega arith) in
          (suc j, omega arith, ground (arith, back, other, past), ground (arith, there, other))
    ]

find_weekday-bound :
    (given s : String) (d : ℕ) (names : List (String × String)) (w : ℕ)
    → find_weekday given s d names ≡ inr w
    → w < d + length names
unfolding find_weekday
find_weekday-bound given s d [] w h = absurd (cc (h))
find_weekday-bound given s d (n ∷ names) w h = elim (str_dec s n.0) [
  | yes same ↦ ground (arith, h, same)
  | no other ↦ elim (str_dec s n.1) [
    | yes same ↦ ground (arith, h, other, same)
    | no neither ↦
        let later : find_weekday given s (d + 1) names ≡ inr w =
          ground (arith, h, other, neither) in
        omega (arith, find_weekday-bound given s (d + 1) names w later)
  ]
]

pub parse_weekday-bound :
    (normalize : String → String) (s : String) (w : ℕ) → parse_weekday normalize s ≡ inr w → w < 7
unfolding parse_weekday
parse_weekday-bound normalize s w h = find_weekday-bound s (normalize s) 0 weekdays w h

-- The slot lies in the past or is now, at the configured hour; a weekly one is on the configured weekday, and
-- no later one has passed.
abbrev pub IsLatest : (String → String) → DigestConfig → ℕ → ℕ → Type 0
IsLatest normalize d now slot =
    (slot ≤ now)
    × (slot % day ≡ d.hour * hour)
    × (d.schedule ≢ "weekly" → now < slot + day)
    × (d.schedule ≡ "weekly"
        → (now < slot + 7 * day) × (parse_weekday normalize d.weekday ≡ inr (weekday_of slot)))

weekly-IsLatest :
    (normalize : String → String) (d : DigestConfig) (now w : ℕ)
    → d.hour < 24
    → 7 * day ≤ now
    → d.schedule ≡ "weekly"
    → parse_weekday normalize d.weekday ≡ inr w
    → IsLatest normalize d now (back_to_weekday 6 w (daily_slot d now))
weekly-IsLatest normalize d now w h past weekly parsed =
    let (before, soon, at_hour) = daily_slot_lem d now h (omega arith) in
    let small = parse_weekday-bound normalize d.weekday w parsed in
    let (j, less, back, there) =
      back_to_weekday_lem 6 w (daily_slot d now) small (omega arith) (omega arith) in
    (
      omega arith,
      omega arith,
      (λ other. absurd (other weekly)),
      (λ _. (omega arith, rw there parsed)),
    )

-- The slot of a digest is the latest scheduled time at or before now: it is not after now, it is at the
-- configured hour, and the next one, a day or a week later, is after now; a weekly one is on the configured
-- weekday. The hour is below 24, and now is at least a week after the start of 1970.
pub last_digest_slot-IsLatest :
    (normalize : String → String) (d : DigestConfig) (now slot : ℕ)
    → d.hour < 24
    → 7 * day ≤ now
    → last_digest_slot normalize d now ≡ inr slot
    → IsLatest normalize d now slot
unfolding last_digest_slot
last_digest_slot-IsLatest normalize d now slot h past found = elim (str_dec d.schedule "weekly") [
  | no daily ↦
      let is_slot : daily_slot d now ≡ slot =
        cc (rw (if_neg (str_dec d.schedule "weekly") daily, last_digest_slot) at found) in
      let (before, soon, at_hour) = daily_slot_lem d now h (omega arith) in
      subst (IsLatest normalize d now) is_slot
        (before, at_hour, (λ _. soon), (λ weekly. absurd (daily weekly)))
  | yes weekly ↦ elim (Sum-cases (parse_weekday normalize d.weekday)) [
    | inl (e, bad) ↦
        absurd
          (cc (rw (if_pos (str_dec d.schedule "weekly") weekly, bad, last_digest_slot) at found))
    | inr (w, parsed) ↦
        let is_slot : back_to_weekday 6 w (daily_slot d now) ≡ slot =
          cc
            (rw (if_pos (str_dec d.schedule "weekly") weekly, parsed, last_digest_slot) at found) in
        subst (IsLatest normalize d now) is_slot
          (weekly-IsLatest normalize d now w h past weekly parsed)
  ]
]
