-- ===== src/Notifier/Schedule.antt =====
-- internal/notifier/digest.go, lastDigestSlot and previousSlot, and internal/config/notifications.go,
-- ParseWeekday. A local time is the nanoseconds since the start of 1970-01-01 in a location whose offset does
-- not change, so that AddDate moves it by whole days; it is not before 1970.
pub mod Slots
use Prim.Native.String.{String}
use better_pg_keeper.Common.{
  ℕ, zero, suc, ◌+◌, ◌-◌, ◌*◌, ◌/◌, ◌%◌, ite, Bool, true, false, ◌⊎◌, inl, inr, List, [], ◌∷◌, ltb,
  ◌==◌, str_dec, sprint, if◌then◌else◌,
}
use better_pg_keeper.Notifier.Settings.{DigestConfig}

abbrev pub day : ℕ
day = 86400000000000

abbrev pub hour : ℕ
hour = 3600000000000

-- time.Weekday's names in lower case, from Sunday on, and their first three letters.
abbrev pub weekdays : List (String × String)
weekdays =
    ("sunday", "sun")
    ∷ ("monday", "mon")
    ∷ ("tuesday", "tue")
    ∷ ("wednesday", "wed")
    ∷ ("thursday", "thu")
    ∷ ("friday", "fri")
    ∷ ("saturday", "sat")
    ∷ []

unfoldable pub find_weekday : String → String → ℕ → List (String × String) → String ⊎ ℕ
find_weekday given s d [] = inl (sprint ("unknown weekday \"" ∷ s ∷ "\"" ∷ []))
find_weekday given s d ((name, short) ∷ names) =
    let rest = find_weekday given s (d + 1) names in
    ite (str_dec s name) (inr d) (ite (str_dec s short) (inr d) rest)

-- `normalize` is strings.ToLower after strings.TrimSpace.
unfoldable pub parse_weekday : (String → String) → String → String ⊎ ℕ
unfolding find_weekday
parse_weekday normalize s = find_weekday s (normalize s) 0 weekdays

-- 1970-01-01 was a Thursday.
abbrev pub weekday_of : ℕ → ℕ
weekday_of t = (t / day + 4) % 7

-- `for slot.Weekday() != weekday`, for at most `fuel` rounds.
unfoldable pub back_to_weekday : ℕ → ℕ → ℕ → ℕ
back_to_weekday zero weekday slot = slot
back_to_weekday (suc fuel) weekday slot =
    let earlier = back_to_weekday fuel weekday (slot - day) in
    if weekday_of slot == weekday then slot else earlier

abbrev pub daily_slot : DigestConfig → ℕ → ℕ
daily_slot d now =
    let slot = now / day * day + d.hour * hour in if ltb now slot then slot - day else slot

unfoldable pub last_digest_slot : (String → String) → DigestConfig → ℕ → String ⊎ ℕ
last_digest_slot normalize d now =
    ite (str_dec d.schedule "weekly")
      (elim (parse_weekday normalize d.weekday) [
        | inl e ↦ inl e
        | inr weekday ↦ inr (back_to_weekday 6 weekday (daily_slot d now))
      ])
      (inr (daily_slot d now))

unfoldable pub previous_slot : DigestConfig → ℕ → ℕ
previous_slot d slot = ite (str_dec d.schedule "weekly") (slot - 7 * day) (slot - day)
