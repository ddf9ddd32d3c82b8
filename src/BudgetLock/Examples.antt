-- ===== src/BudgetLock/Examples.antt =====
-- Tests of BudgetLock, on two and three processes.
use ai_model_arena.Common.{ℕ, ◌≡◌, refl, none, List, [], ◌∷◌}
use ai_model_arena.BudgetLock.{
  idle, holding, LockState, Event, creates, reads, checks, renames, verifies, step, run,
}
use ai_model_arena.BudgetLock.Exclusion.{run-IsExclusive}

abbrev free : LockState
free = record { lock = none; phase = λ p. idle }

-- The second process takes the lock that the first gave back.
abbrev handover : List Event
handover =
    creates 0 1 11
    ∷ reads 5 2
    ∷ creates 6 2 22
    ∷ checks 1
    ∷ renames 1
    ∷ creates 8 2 23
    ∷ verifies 1
    ∷ []

run-IsExclusive_example : ◌≡◌ {A = ℕ} 2 2
unfolding run step
run-IsExclusive_example =
    run-IsExclusive 5000 handover free 2 2 23 23 (λ p. tt)
      (tt, (refl, (tt, (tt, (tt, (tt, (tt, tt))))))) refl refl

-- Three processes and a stale lock: a break restores a lock that was taken over, and two hold the lock.
abbrev stale_race : List Event
stale_race =
    creates 0 1 11
    ∷ reads 6000 2
    ∷ reads 6000 3
    ∷ renames 3
    ∷ verifies 3
    ∷ creates 6001 3 33
    ∷ renames 2
    ∷ creates 6002 4 44
    ∷ verifies 2
    ∷ []

stale_race-holders :
    ((run 5000 stale_race free).phase 3 ≡ holding 33)
    × ((run 5000 stale_race free).phase 4 ≡ holding 44)
unfolding run step
stale_race-holders = (refl, refl)
