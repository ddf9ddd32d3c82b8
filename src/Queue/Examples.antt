-- ===== src/Queue/Examples.antt =====
-- The theorems on src/queue/in-memory.ts at small queues, and tests of the operations.
use ai_model_arena.Common.{
  ℕ, ◌+◌, true, ◌≡◌, refl, none, some, List, [], ◌∷◌, arith, eq_iff, String, ◌≢◌,
}
use ai_model_arena.Common.Dict.{get, put, del}
use ai_model_arena.Queue.{
  Body, Task, Queue, empty, find_due, bump, postpone, backoff_ms, enqueue, dequeue, nack, ack,
  notify_next, Op, enqueues, dequeues, acks, nacks, step, run, is_terminal_attempt,
}
use ai_model_arena.Queue.Due.{IsServed}
use ai_model_arena.Queue.Conservation.{
  total, added, removed, IsDistinct, step-total, step-IsDistinct, empty-IsDistinct,
}
use ai_model_arena.Queue.Attempts.{IsBounded, run-IsBounded}
use ai_model_arena.Queue.Retry.{nack_strands_waiter}

abbrev some_body : Body
some_body = record {
  session_id = "s";
  prompt_id = none;
  prompt_version = none;
  provider = "openai";
  model = "gpt-4o";
  scenario = "todo";
  config = [];
  enqueued_at = "2026-01-01T00:00:00.000Z";
}

abbrev first : Task
first = record {
  task_id = "a";
  attempts = 0;
  due_at = none;
  idempotency_key = some "k";
  body = some_body;
}

abbrev second : Task
second = record first { task_id = "b"; idempotency_key = none }

abbrev both : Queue
both = record empty { pending = first ∷ second ∷ []; queue_depth = 2 }

-- `first` is in flight and a promise waits.
abbrev contended : Queue
contended = record empty {
  in_flight = ("a", first) ∷ [];
  waiters = record { ticket = 0; timed = true } ∷ [];
  next_ticket = 1;
}

abbrev history : List (ℕ × Op)
history =
    (10, enqueues first)
    ∷ (11, enqueues second)
    ∷ (12, dequeues 0)
    ∷ (13, nacks "a")
    ∷ (14, dequeues 100)
    ∷ (15, acks "b")
    ∷ []

history_result : (run history empty).pending ≡ postpone 13 (bump first) ∷ []
unfolding run step enqueue dequeue nack ack notify_next find_due get put del is_terminal_attempt
    backoff_ms
history_result = refl

contended-IsDistinct : IsDistinct contended
contended-IsDistinct = record { once = λ i. ground arith; keyed = (refl, tt) }

step-total_example :
    total "a" (step 5 (nacks "a") contended) + removed "a" (nacks "a") contended
    ≡ total "a" contended + added 5 "a" (nacks "a") contended
step-total_example = step-total 5 (nacks "a") contended "a" contended-IsDistinct tt

step-IsDistinct_test : IsDistinct (step 5 (enqueues first) empty)
step-IsDistinct_test = step-IsDistinct 5 (enqueues first) empty empty-IsDistinct refl

run-IsBounded_example : IsBounded (run history empty)
run-IsBounded_example = run-IsBounded history (omega arith)

nack_strands_waiter_test :
    ((nack 5 "a" contended).waiters ≡ contended.waiters) × ¬ IsServed 3000 (nack 5 "a" contended)
unfolding get find_due backoff_ms
nack_strands_waiter_test =
    nack_strands_waiter 5 3000 "a" contended first _ _ refl (omega arith) refl refl (omega arith)

key_not_blank : ◌≢◌ {A = String} "k" ""
key_not_blank = ground (arith, eq_iff "k" "")
