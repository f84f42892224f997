-- ===== src/Scheduler/Runs/Calls.antt =====
-- internal/scheduler/scheduler.go, StopWithTimeout: the calls that hold a run, by the pointer or before they close it.
use better_pg_keeper.Common.{
  ℕ, ◌+◌, ◌<◌, ◌≤◌, ◌≡◌, ◌==◌, refl, Option, none, some, List, [], ◌∷◌, All, arith, if◌then◌else◌,
}
use better_pg_keeper.Scheduler.Runs.{calls_of, without_call}

-- The pointer, and the calls that have yet to close the channel.
abbrev pub holders : Option ℕ → List ℕ → List ℕ
holders none closing = closing
holders (some id) closing = id ∷ closing

pub calls_of-without_call :
    (id x : ℕ) (xs : List ℕ)
    → 0 < calls_of id xs
    → calls_of x xs ≡ calls_of x (without_call id xs) + (if id == x then 1 else 0)
unfolding calls_of without_call
calls_of-without_call id x [] h = absurd (omega (arith, h))
calls_of-without_call id x (y ∷ ys) h = ground (arith, h, calls_of-without_call id x ys)

pub holders-without_call :
    (id x : ℕ) (run : Option ℕ) (closing : List ℕ)
    → 0 < calls_of id closing
    → calls_of x (holders run closing)
      ≡ calls_of x (holders run (without_call id closing)) + (if id == x then 1 else 0)
unfolding calls_of
holders-without_call id x none closing h = calls_of-without_call id x closing h
holders-without_call id x (some y) closing h = ground (arith, calls_of-without_call id x closing h)

pub holders_of :
    (id : ℕ) (run : Option ℕ) (closing : List ℕ)
    → calls_of id closing ≤ calls_of id (holders run closing)
unfolding calls_of
holders_of id none closing = omega arith
holders_of id (some y) closing = ground arith

-- No call is for a run that is yet to come.
pub calls_of-fresh : (n : ℕ) (xs : List ℕ) → All (λ x. x < n) xs → calls_of n xs ≡ 0
unfolding calls_of
calls_of-fresh n [] a = refl
calls_of-fresh n (x ∷ xs) a = ground (arith, a.0, calls_of-fresh n xs a.1)

pub All-without_call :
    (P : ℕ → Type 0) (id : ℕ) (xs : List ℕ) → All P xs → All P (without_call id xs)
unfolding without_call
All-without_call P id [] a = tt
All-without_call P id (x ∷ xs) a = ground (arith, a.0, a.1, All-without_call P id xs a.1)

-- A call is for one of the known runs.
pub called-below : (n id : ℕ) (xs : List ℕ) → 0 < calls_of id xs → All (λ x. x < n) xs → id < n
unfolding calls_of
called-below n id [] h a = absurd (omega (arith, h))
called-below n id (x ∷ xs) h a = ground (arith, h, a.0, called-below n id xs, a.1)

pub holders-below :
    (n id : ℕ) (run : Option ℕ) (closing : List ℕ)
    → All (λ x. x < n) (holders run closing)
    → All (λ x. x < n) (holders run (without_call id closing))
holders-below n id none closing a = All-without_call (λ x. x < n) id closing a
holders-below n id (some y) closing a = (a.0, All-without_call (λ x. x < n) id closing a.1)
