-- ===== src/Scheduler/Runs.antt =====
-- internal/scheduler/scheduler.go: Start, StopWithTimeout and the manual lock, as the steps of a system in which
-- the calls interleave and the loops of a stopped run may outlive it. The run pointer and the lock are
-- atomic, so each use of them is one step; a stop is three: it takes the pointer, closes the channel of
-- the run, and returns when the loops have ended or the time is over.
pub mod Calls
pub mod Valid
pub mod Steps
pub mod Single
use Prim.Native.String.{String}
use better_pg_keeper.Common.{
  ℕ, ◌+◌, ◌-◌, ◌<◌, ◌≡◌, ◌==◌, ◌||◌, ◌&&◌, not, ite, Bool, true, false, Option, none, some, List,
  [], ◌∷◌, map, ℕ_discrete, length, if◌then◌else◌,
}

-- schedulerRun: whether stopCh is closed, and the count of its wait group.
pub record Run : Type 0 where
  pub id : ℕ
  pub stopped : Bool
  pub live : ℕ

-- `run` is the atomic pointer, `manual` whether manualMu is held; `triggers` counts the manual triggers
-- that run. `runs` has every run so far. The calls of StopWithTimeout stand in a list with the ids of
-- their runs: `closing` has those that took the pointer and have yet to close the channel, `waiting`
-- those that wait for the loops, `graceful` those that returned without an error. `panicked` tells
-- whether a closed channel was closed again.
pub record Scheduler : Type 0 where
  pub run : Option ℕ
  pub runs : List Run
  pub closing : List ℕ
  pub waiting : List ℕ
  pub graceful : List ℕ
  pub panicked : Bool
  pub manual : Bool
  pub triggers : ℕ

abbrev pub new_scheduler : Scheduler
new_scheduler = record {
  run = none;
  runs = [];
  closing = [];
  waiting = [];
  graceful = [];
  panicked = false;
  manual = false;
  triggers = 0;
}

unfoldable pub is_running : Scheduler → Bool
is_running s = elim s.run [ none ↦ false | some _ ↦ true ]

-- How many of the calls are for a run, and the calls without one of them.
unfoldable pub calls_of : ℕ → List ℕ → ℕ
calls_of id [] = 0
calls_of id (x ∷ xs) = if x == id then calls_of id xs + 1 else calls_of id xs

unfoldable pub without_call : ℕ → List ℕ → List ℕ
without_call id [] = []
without_call id (x ∷ xs) = if x == id then xs else x ∷ without_call id xs

-- Start: compare-and-swap of nil by the new run, whose three loops begin.
unfoldable pub start : Scheduler → Option String × Scheduler
start s = elim s.run [
  | some _ ↦ (some "scheduler is already running", s)
  | none ↦
      let id = length s.runs in
      (
        none,
        record s { run = some id; runs = record { id = id; stopped = false; live = 3 } ∷ s.runs },
      )
]

-- The beginning of StopWithTimeout: the pointer is swapped by nil. The call that gets a run goes on.
unfoldable pub begin_stop : Scheduler → Option String × Scheduler
begin_stop s = elim s.run [
  | none ↦ (some "scheduler is not running", s)
  | some id ↦ (none, record s { run = none; closing = id ∷ s.closing })
]

unfoldable pub is_closed : ℕ → List Run → Bool
is_closed id [] = false
is_closed id (r ∷ rs) = if r.id == id then r.stopped else is_closed id rs

unfoldable pub close_run : ℕ → List Run → List Run
close_run id = map (λ r. ite (ℕ_discrete r.id id) (record r { stopped = true }) r)

-- close(run.stopCh), which panics if the channel is closed already; the call then waits.
unfoldable pub close_channel : ℕ → Scheduler → Scheduler
unfolding close_run is_closed without_call
close_channel id s = record s {
  runs = close_run id s.runs;
  closing = without_call id s.closing;
  waiting = id ∷ s.waiting;
  panicked = s.panicked || is_closed id s.runs;
}

-- run.wg.Wait returns: no loop of the run is left.
unfoldable pub is_done : ℕ → List Run → Bool
is_done id [] = true
is_done id (r ∷ rs) = if r.id == id && not (r.live == 0) then false else is_done id rs

-- The select at the end of StopWithTimeout: the loops have ended, or the time is over.
unfoldable pub finish_stop : Bool → ℕ → Scheduler → Option String × Scheduler
unfolding without_call
finish_stop timed_out id s =
    let left = record s { waiting = without_call id s.waiting } in
    if timed_out
    then (some "stop timeout exceeded", left)
    else (none, record left { graceful = id ∷ s.graceful })

-- TryLock at the start of TriggerSnapshot, and the deferred Unlock.
unfoldable pub begin_trigger : Scheduler → Option String × Scheduler
begin_trigger s =
    if s.manual
    then (some "collection already in progress: manual trigger already in progress", s)
    else (none, record s { manual = true; triggers = s.triggers + 1 })

unfoldable pub end_trigger : Scheduler → Scheduler
end_trigger s = record s { manual = false; triggers = s.triggers - 1 }

-- A loop of a run returns: its wait group is one less.
unfoldable pub leave : ℕ → List Run → List Run
leave id = map (λ r. ite (ℕ_discrete r.id id) (record r { live = r.live - 1 }) r)

-- The interleavings: any caller may start, stop or trigger at any time, a stop goes on at any time, and
-- a loop that is left may end at any time, since its context may be cancelled.
pub data Step : Scheduler → Scheduler → Type 0 where
  starts : (s : Scheduler) → Step s (start s).1
  stops : (s : Scheduler) → Step s (begin_stop s).1
  closes : (s : Scheduler) (id : ℕ) → 0 < calls_of id s.closing → Step s (close_channel id s)
  returns :
      (s : Scheduler) (id : ℕ)
      → 0 < calls_of id s.waiting
      → is_done id s.runs ≡ true
      → Step s (finish_stop false id s).1
  times_out :
      (s : Scheduler) (id : ℕ) → 0 < calls_of id s.waiting → Step s (finish_stop true id s).1
  triggers : (s : Scheduler) → Step s (begin_trigger s).1
  triggered : (s : Scheduler) → 0 < s.triggers → Step s (end_trigger s)
  leaves :
      (s : Scheduler) (id : ℕ)
      → is_done id s.runs ≡ false
      → Step s (record s { runs = leave id s.runs })

pub data Reach : Scheduler → Type 0 where
  initial : Reach new_scheduler
  later : {s t : Scheduler} → Reach s → Step s t → Reach t
