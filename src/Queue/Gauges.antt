-- ===== src/Queue/Gauges.antt =====
-- The metrics that src/queue/in-memory.ts publishes.
use ai_model_arena.Common.{ℕ, ◌≡◌, refl, List, [], ◌∷◌, length}
use ai_model_arena.Queue.{
  Queue, empty, ack, notify_next, Op, enqueues, dequeues, expires, acks, nacks, retries, step, run,
}
use ai_model_arena.Queue.Due.{notify_next_cases}
use ai_model_arena.Queue.Cases.{enqueue_cases, dequeue_cases, expire_cases, nack_cases, retry_cases}

-- Both gauges show the lists that they measure.
pub record IsSynced (q : Queue) : Type 0 where
  pub pending : q.queue_depth ≡ length q.pending
  pub dead : q.dlq_depth ≡ length q.dead

notify_next-IsSynced : (now : ℕ) (q : Queue) → IsSynced q → IsSynced (notify_next now q)
notify_next-IsSynced now q s =
    notify_next_cases IsSynced now q (λ _. s)
      λ w ws t rest e f. record { pending = refl; dead = s.dead }

step-IsSynced : (now : ℕ) (op : Op) (q : Queue) → IsSynced q → IsSynced (step now op q)
unfolding step ack
step-IsSynced now (enqueues t) q s =
    enqueue_cases IsSynced now q t (λ _. s)
      (λ _. notify_next-IsSynced now _ (record { pending = refl; dead = s.dead }))
step-IsSynced now (dequeues timeout_ms) q s =
    dequeue_cases IsSynced now q timeout_ms (λ t rest e. record { pending = refl; dead = s.dead })
      (λ e. record { pending = s.pending; dead = s.dead })
step-IsSynced now (expires ticket) q s =
    expire_cases IsSynced q ticket s (λ rest e. record { pending = s.pending; dead = s.dead })
step-IsSynced now (acks id) q s = record { pending = refl; dead = s.dead }
step-IsSynced now (nacks id) q s =
    nack_cases IsSynced now q id s (λ t e f. record { pending = refl; dead = refl })
      (λ t e f. notify_next-IsSynced now _ (record { pending = refl; dead = s.dead }))
step-IsSynced now (retries id) q s =
    retry_cases IsSynced now q id s
      (λ t rest e. notify_next-IsSynced now _ (record { pending = refl; dead = refl }))

run_from-IsSynced : (ops : List (ℕ × Op)) (q : Queue) → IsSynced q → IsSynced (run ops q)
unfolding run
run_from-IsSynced [] q s = s
run_from-IsSynced ((now, op) ∷ ops) q s =
    run_from-IsSynced ops (step now op q) (step-IsSynced now op q s)

-- After any history of operations on a new queue, the metric `queue_depth` is the number of pending
-- tasks and the metric `dlq_depth` the number of dead ones.
pub run-IsSynced : (ops : List (ℕ × Op)) → IsSynced (run ops empty)
run-IsSynced ops = run_from-IsSynced ops empty (record { pending = refl; dead = refl })
