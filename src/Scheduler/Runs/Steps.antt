-- ===== src/Scheduler/Runs/Steps.antt =====
-- internal/scheduler/scheduler.go: the steps of the runs, each of which keeps what is valid.
use mathlib.Core.Path.{subst, sym}
use better_pg_keeper.Common.{
  ℕ, suc, ◌<◌, ◌≡◌, refl, ◌⊎◌, inl, inr, Option-cases, Bool-cases, All-mono, Bool, true, false,
  List, ◌∷◌, All, arith, length,
}
use better_pg_keeper.Scheduler.Runs.{
  Scheduler, calls_of, start, begin_stop, close_channel, is_done, finish_stop, begin_trigger,
  end_trigger, Step, starts, stops, closes, returns, times_out, triggers, triggered, leaves, Reach,
  initial, later,
}
use better_pg_keeper.Scheduler.Runs.Calls.{
  holders, holders_of, calls_of-fresh, All-without_call, called-below, holders-below,
}
use better_pg_keeper.Scheduler.Runs.Valid.{
  IsOwn, IsBelow, IsValid, older, below-ne, not_closed, closed, waited, returned, left,
  length-close_run, length-leave, close_run-Distinct, leave-Distinct,
}

IsBelow-suc : (n : ℕ) (xs : List ℕ) → All (IsBelow n) xs → All (IsBelow (suc n)) xs
IsBelow-suc n xs a = All-mono (IsBelow n) (IsBelow (suc n)) (λ x h. omega (arith, h)) xs a

start-IsValid : (s : Scheduler) → IsValid s → IsValid (start s).1
unfolding start calls_of
start-IsValid s v = elim (Option-cases s.run) [
  | inr (id, e) ↦ rw (e, start) v
  | inl e ↦
      let n = length s.runs in
      let own : All (IsOwn s.closing s.waiting s.graceful n) s.runs =
        subst (λ c. All (IsOwn (holders c s.closing) s.waiting s.graceful n) s.runs) e v.own in
      let known : All (IsBelow n) s.closing =
        subst (λ c. All (IsBelow n) (holders c s.closing)) e v.holders_known in
      rw (e, start)
        (record {
          own = (
            ground (
              arith,
              calls_of-fresh n s.closing known,
              calls_of-fresh n s.waiting v.waiting_known,
              calls_of-fresh n s.graceful v.graceful_known,
            ),
            older s.closing s.waiting s.graceful n s.runs own,
          );
          distinct = (below-ne s.closing s.waiting s.graceful n s.runs own, v.distinct);
          holders_known = (omega arith, IsBelow-suc n s.closing known);
          waiting_known = IsBelow-suc n s.waiting v.waiting_known;
          graceful_known = IsBelow-suc n s.graceful v.graceful_known;
          sound = v.sound;
          held = v.held;
        })
]

-- A stop that begins takes the pointer over.
begin_stop-IsValid : (s : Scheduler) → IsValid s → IsValid (begin_stop s).1
unfolding begin_stop
begin_stop-IsValid s v = elim (Option-cases s.run) [
  | inl e ↦ rw (e, begin_stop) v
  | inr (id, e) ↦
      let n = length s.runs in
      rw (e, begin_stop)
        (record {
          own =
              subst (λ c. All (IsOwn (holders c s.closing) s.waiting s.graceful n) s.runs) e v.own;
          distinct = v.distinct;
          holders_known = subst (λ c. All (IsBelow n) (holders c s.closing)) e v.holders_known;
          waiting_known = v.waiting_known;
          graceful_known = v.graceful_known;
          sound = v.sound;
          held = v.held;
        })
]

close_channel-IsValid :
    (s : Scheduler) (id : ℕ) → 0 < calls_of id s.closing → IsValid s → IsValid (close_channel id s)
unfolding close_channel
close_channel-IsValid s id h v =
    let n = length s.runs in
    let hs = holders s.run s.closing in
    let h' : 0 < calls_of id hs = omega (arith, h, holders_of id s.run s.closing) in
    record {
      own =
          rw (length-close_run id s.runs)
            (closed s.run s.closing s.waiting s.graceful n id s.runs h v.own);
      distinct = close_run-Distinct id s.runs v.distinct;
      holders_known =
          rw (length-close_run id s.runs) (holders-below n id s.run s.closing v.holders_known);
      waiting_known =
          subst (λ m. All (IsBelow m) (id ∷ s.waiting)) (sym (length-close_run id s.runs))
            (called-below n id hs h' v.holders_known, v.waiting_known);
      graceful_known = rw (length-close_run id s.runs) v.graceful_known;
      sound = ground (arith, v.sound, not_closed hs s.waiting s.graceful n id s.runs v.own h');
      held = v.held;
    }

finish_stop-IsValid :
    (s : Scheduler) (timed_out : Bool) (id : ℕ)
    → 0 < calls_of id s.waiting
    → (timed_out ≡ true) ⊎ (is_done id s.runs ≡ true)
    → IsValid s
    → IsValid (finish_stop timed_out id s).1
unfolding finish_stop
finish_stop-IsValid s true id h d v = record {
  own = waited (holders s.run s.closing) s.waiting s.graceful (length s.runs) id s.runs h v.own;
  distinct = v.distinct;
  holders_known = v.holders_known;
  waiting_known = All-without_call _ id s.waiting v.waiting_known;
  graceful_known = v.graceful_known;
  sound = v.sound;
  held = v.held;
}
finish_stop-IsValid s false id h d v = record {
  own =
      returned (holders s.run s.closing) s.waiting s.graceful (length s.runs) id s.runs h
        (elim d [ inl e ↦ absurd cc | inr e ↦ e ]) v.own;
  distinct = v.distinct;
  holders_known = v.holders_known;
  waiting_known = All-without_call _ id s.waiting v.waiting_known;
  graceful_known = (called-below (length s.runs) id s.waiting h v.waiting_known, v.graceful_known);
  sound = v.sound;
  held = v.held;
}

begin_trigger-IsValid : (s : Scheduler) → IsValid s → IsValid (begin_trigger s).1
unfolding begin_trigger
begin_trigger-IsValid s v = elim (Bool-cases s.manual) [
  | inl e ↦
      rw (e, begin_trigger)
        (record {
          own = v.own;
          distinct = v.distinct;
          holders_known = v.holders_known;
          waiting_known = v.waiting_known;
          graceful_known = v.graceful_known;
          sound = v.sound;
          held = ground (arith, v.held, e);
        })
  | inr e ↦
      rw (e, begin_trigger)
        (record {
          own = v.own;
          distinct = v.distinct;
          holders_known = v.holders_known;
          waiting_known = v.waiting_known;
          graceful_known = v.graceful_known;
          sound = v.sound;
          held = ground (arith, v.held, e);
        })
]

Step-IsValid : {s t : Scheduler} → Step s t → IsValid s → IsValid t
unfolding end_trigger
Step-IsValid (starts s) v = start-IsValid s v
Step-IsValid (stops s) v = begin_stop-IsValid s v
Step-IsValid (closes s id h) v = close_channel-IsValid s id h v
Step-IsValid (returns s id h d) v = finish_stop-IsValid s false id h (inr d) v
Step-IsValid (times_out s id h) v = finish_stop-IsValid s true id h (inl refl) v
Step-IsValid (triggers s) v = begin_trigger-IsValid s v
Step-IsValid (triggered s h) v = record {
  own = v.own;
  distinct = v.distinct;
  holders_known = v.holders_known;
  waiting_known = v.waiting_known;
  graceful_known = v.graceful_known;
  sound = v.sound;
  held = ground (arith, v.held, h);
}
Step-IsValid (leaves s id h) v = record {
  own =
      rw (length-leave id s.runs)
        (left (holders s.run s.closing) s.waiting s.graceful (length s.runs) id s.runs v.own);
  distinct = leave-Distinct id s.runs v.distinct;
  holders_known = rw (length-leave id s.runs) v.holders_known;
  waiting_known = rw (length-leave id s.runs) v.waiting_known;
  graceful_known = rw (length-leave id s.runs) v.graceful_known;
  sound = v.sound;
  held = v.held;
}

pub Reach-IsValid : {s : Scheduler} → Reach s → IsValid s
Reach-IsValid initial = record {
  own = tt;
  distinct = tt;
  holders_known = tt;
  waiting_known = tt;
  graceful_known = tt;
  sound = refl;
  held = refl;
}
Reach-IsValid (later r st) = Step-IsValid st (Reach-IsValid r)
