-- ===== src/Scheduler/Runs/Single.antt =====
-- internal/scheduler/scheduler.go: how many runs are not stopped, whatever the interleaving.
use better_pg_keeper.Common.{
  ◌⊎◌, ℕ, ◌+◌, ◌≤◌, ◌≡◌, ◌≢◌, ℕ_discrete, refl, Option-cases, Distinct, All-mono, All, true, false,
  List, [], ◌∷◌, arith, length, if◌then◌else◌,
}
use better_pg_keeper.Scheduler.Runs.{Run, Scheduler, calls_of, is_running, Reach}
use better_pg_keeper.Scheduler.Runs.Calls.{holders}
use better_pg_keeper.Scheduler.Runs.Valid.{IsOwn, run_id}
use better_pg_keeper.Scheduler.Runs.Steps.{Reach-IsValid}

-- The runs that are not stopped.
abbrev pub unstopped : List Run → ℕ
unstopped [] = 0
unstopped (r ∷ rs) = if r.stopped then unstopped rs else unstopped rs + 1

-- The holders of the runs, counted run by run.
abbrev held : List Run → List ℕ → ℕ
held [] hs = 0
held (r ∷ rs) hs = calls_of r.id hs + held rs hs

unstopped-held :
    (hs waiting graceful : List ℕ) (n : ℕ) (rs : List Run)
    → All (IsOwn hs waiting graceful n) rs
    → unstopped rs ≡ held rs hs
unstopped-held hs w g n [] a = refl
unstopped-held hs w g n (r ∷ rs) a = ground (arith, a.0, unstopped-held hs w g n rs a.1)

held-other :
    (h : ℕ) (hs : List ℕ) (rs : List Run)
    → All (λ r. run_id r ≢ h) rs
    → held rs (h ∷ hs) ≡ held rs hs
unfolding calls_of
held-other h hs [] a = refl
held-other h hs (r ∷ rs) a = ground (arith, a.0, held-other h hs rs a.1)

held-one :
    (h : ℕ) (hs : List ℕ) (rs : List Run) → Distinct run_id rs → held rs (h ∷ hs) ≤ held rs hs + 1
unfolding calls_of
held-one h hs [] d = omega arith
held-one h hs (r ∷ rs) d = elim (ℕ_discrete r.id h) [
  | yes e ↦ ground (
    arith,
    e,
    held-other h hs rs (
        All-mono (λ x. run_id x ≢ r.id) (λ x. run_id x ≢ h) (λ x ne q. ne (ground (arith, e, q))) rs
          d.0),
  )
  | no ne ↦ ground (arith, ne, held-one h hs rs d.1)
]

held-none : (rs : List Run) → held rs [] ≡ 0
unfolding calls_of
held-none [] = refl
held-none (r ∷ rs) = omega (arith, held-none rs)

held-length : (hs : List ℕ) (rs : List Run) → Distinct run_id rs → held rs hs ≤ length hs
held-length [] rs d = omega (arith, held-none rs)
held-length (h ∷ hs) rs d = omega (arith, held-one h hs rs d, held-length hs rs d)

length-holders :
    (s : Scheduler)
    → length (holders s.run s.closing) ≡ length s.closing + (if is_running s then 1 else 0)
unfolding is_running
length-holders s = ground (arith, Option-cases s.run)

-- However starts, the steps of stops, manual triggers and the ends of loops interleave: no stop closes a
-- closed channel; the runs that are not stopped are at most one if the scheduler is running, and one more
-- for each stop that has yet to close its channel; no loop is left of a run whose stop returned without
-- an error, and the run is stopped; and at most one manual trigger runs, none unless the manual lock is
-- held.
pub Reach-IsSingle :
    (s : Scheduler)
    → Reach s
    → (s.panicked ≡ false)
      × (unstopped s.runs ≤ length s.closing + (if is_running s then 1 else 0))
      × All (λ r. (calls_of r.id s.graceful ≡ 0) ⊎ ((r.stopped ≡ true) × (r.live ≡ 0))) s.runs
      × (s.triggers ≤ (if s.manual then 1 else 0))
Reach-IsSingle s r =
    let v = Reach-IsValid r in
    let hs = holders s.run s.closing in
    (
      v.sound,
      omega (
        arith,
        unstopped-held hs s.waiting s.graceful (length s.runs) s.runs v.own,
        held-length hs s.runs v.distinct,
        length-holders s,
      ),
      All-mono (IsOwn hs s.waiting s.graceful (length s.runs)) _ (λ x own. own.3) s.runs v.own,
      omega (arith, v.held),
    )
