-- ===== src/Scheduler/Runs/Valid.antt =====
-- internal/scheduler/scheduler.go: what every step of the runs keeps.
use better_pg_keeper.Common.{
  ℕ, suc, ◌<◌, ◌≡◌, refl, ◌≢◌, ◌⊎◌, Distinct, Distinct-map, true, false, Option, List, [], ◌∷◌, All,
  arith, length, if◌then◌else◌,
}
use better_pg_keeper.Scheduler.Runs.{
  Run, Scheduler, calls_of, without_call, is_closed, close_run, is_done, leave,
}
use better_pg_keeper.Scheduler.Runs.Calls.{
  holders, calls_of-without_call, holders-without_call, holders_of,
}

-- A run that is not stopped has one holder, a stopped one none; a call that waits or has returned has
-- stopped its run, and after a return without an error no loop is left. The ids are below the next one.
abbrev pub IsOwn : (held waiting graceful : List ℕ) → ℕ → Run → Type 0
IsOwn held waiting graceful next r =
    (r.id < next)
    × (calls_of r.id held ≡ (if r.stopped then 0 else 1))
    × ((calls_of r.id waiting ≡ 0) ⊎ (r.stopped ≡ true))
    × ((calls_of r.id graceful ≡ 0) ⊎ ((r.stopped ≡ true) × (r.live ≡ 0)))

abbrev pub run_id : Run → ℕ
run_id r = r.id

abbrev pub IsBelow : ℕ → ℕ → Type 0
IsBelow n id = id < n

pub record IsValid (s : Scheduler) : Type 0 where
  pub own : All (IsOwn (holders s.run s.closing) s.waiting s.graceful (length s.runs)) s.runs
  pub distinct : Distinct run_id s.runs
  pub holders_known : All (IsBelow (length s.runs)) (holders s.run s.closing)
  pub waiting_known : All (IsBelow (length s.runs)) s.waiting
  pub graceful_known : All (IsBelow (length s.runs)) s.graceful
  pub sound : s.panicked ≡ false
  pub held : s.triggers ≡ (if s.manual then 1 else 0)

pub length-close_run : (id : ℕ) (rs : List Run) → length (close_run id rs) ≡ length rs
unfolding close_run
length-close_run id [] = refl
length-close_run id (r ∷ rs) = ground (arith, length-close_run id rs)

pub length-leave : (id : ℕ) (rs : List Run) → length (leave id rs) ≡ length rs
unfolding leave
length-leave id [] = refl
length-leave id (r ∷ rs) = ground (arith, length-leave id rs)

pub close_run-Distinct :
    (id : ℕ) (rs : List Run) → Distinct run_id rs → Distinct run_id (close_run id rs)
unfolding close_run
close_run-Distinct id rs d = Distinct-map run_id _ (λ r. ground arith) rs d

pub leave-Distinct : (id : ℕ) (rs : List Run) → Distinct run_id rs → Distinct run_id (leave id rs)
unfolding leave
leave-Distinct id rs d = Distinct-map run_id _ (λ r. ground arith) rs d

-- After a start the older runs have the holders that they had.
pub older :
    (held waiting graceful : List ℕ) (n : ℕ) (rs : List Run)
    → All (IsOwn held waiting graceful n) rs
    → All (IsOwn (n ∷ held) waiting graceful (suc n)) rs
unfolding calls_of
older held w g n [] a = tt
older held w g n (r ∷ rs) a = (ground (arith, a.0), older held w g n rs a.1)

pub below-ne :
    (held waiting graceful : List ℕ) (n : ℕ) (rs : List Run)
    → All (IsOwn held waiting graceful n) rs
    → All (λ r. run_id r ≢ n) rs
below-ne held w g n [] a = tt
below-ne held w g n (r ∷ rs) a =
    ((λ e. absurd (omega (arith, a.0.0, e))), below-ne held w g n rs a.1)

-- The channel that a holder closes is not closed.
pub not_closed :
    (held waiting graceful : List ℕ) (n id : ℕ) (rs : List Run)
    → All (IsOwn held waiting graceful n) rs
    → 0 < calls_of id held
    → is_closed id rs ≡ false
unfolding is_closed
not_closed held w g n id [] a h = refl
not_closed held w g n id (r ∷ rs) a h = ground (arith, a.0, h, not_closed held w g n id rs a.1 h)

pub closed :
    (run : Option ℕ) (closing waiting graceful : List ℕ) (n id : ℕ) (rs : List Run)
    → 0 < calls_of id closing
    → All (IsOwn (holders run closing) waiting graceful n) rs
    → All
        (IsOwn (holders run (without_call id closing)) (id ∷ waiting) graceful n)
        (close_run id rs)
unfolding close_run calls_of
closed run c w g n id [] h a = tt
closed run c w g n id (r ∷ rs) h a = (
  ground (arith, a.0, holders-without_call id r.id run c h, holders_of id run c, h),
  closed run c w g n id rs h a.1,
)

-- The end of a wait, by the time or by the loops.
pub waited :
    (held waiting graceful : List ℕ) (n id : ℕ) (rs : List Run)
    → 0 < calls_of id waiting
    → All (IsOwn held waiting graceful n) rs
    → All (IsOwn held (without_call id waiting) graceful n) rs
waited held w g n id [] h a = tt
waited held w g n id (r ∷ rs) h a =
    (ground (arith, a.0, calls_of-without_call id r.id w h), waited held w g n id rs h a.1)

pub returned :
    (held waiting graceful : List ℕ) (n id : ℕ) (rs : List Run)
    → 0 < calls_of id waiting
    → is_done id rs ≡ true
    → All (IsOwn held waiting graceful n) rs
    → All (IsOwn held (without_call id waiting) (id ∷ graceful) n) rs
unfolding is_done calls_of
returned held w g n id [] h d a = tt
returned held w g n id (r ∷ rs) h d a = (
  ground (arith, a.0, calls_of-without_call id r.id w h, h, d),
  returned held w g n id rs h (ground (arith, d)) a.1,
)

pub left :
    (held waiting graceful : List ℕ) (n id : ℕ) (rs : List Run)
    → All (IsOwn held waiting graceful n) rs
    → All (IsOwn held waiting graceful n) (leave id rs)
unfolding leave
left held w g n id [] a = tt
left held w g n id (r ∷ rs) a = (ground (arith, a.0), left held w g n id rs a.1)
