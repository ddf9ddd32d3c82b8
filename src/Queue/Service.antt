-- ===== src/Queue/Service.antt =====
-- Who waits while a task is due, in src/queue/in-memory.ts.
use ai_model_arena.Common.{ℕ, ◌≡◌, ◌⊎◌, none, some, List, [], ◌∷◌, ◌++◌}
use ai_model_arena.Common.Dict.{get}
use ai_model_arena.Queue.{Task, Waiter, Queue, find_due, remove_waiter}

-- At most one task of `ts` is due: without it nothing is found.
abbrev OneDue : ℕ → List Task → Type 0
OneDue now ts =
    (t : Task) (rest : List Task) → find_due now ts ≡ some (t, rest) → find_due now rest ≡ none

-- What becomes of the promises: those that wait go on waiting, perhaps with a new one behind them; or the
-- first one, and no other, is resolved with a task that is in flight then; or one is resolved without
-- a task and no other is touched.
abbrev pub Answers : Queue → Queue → Type 0
Answers q q' =
    ((q'.resolved ≡ q.resolved) × ((new : List Waiter) × (q'.waiters ≡ q.waiters ++ new)))
    ⊎ (((w : Waiter) × ((t : Task) × ((q.waiters ≡ w ∷ q'.waiters)
              × ((q'.resolved ≡ q.resolved ++ (w.ticket, some t) ∷ [])
                  × (get t.task_id q'.in_flight ≡ some t)))))
        ⊎ ((ticket : ℕ) × ((remove_waiter ticket q.waiters ≡ some q'.waiters)
              × (q'.resolved ≡ q.resolved ++ (ticket, none) ∷ []))))
