-- ===== src/Queue/Cases.antt =====
-- The outcomes of each operation of src/queue/in-memory.ts, one case lemma for each operation: what
-- holds of every outcome holds of the operation.
use ai_model_arena.Common.{
  ℕ, suc, ◌≡◌, true, false, none, some, inl, inr, List, [], ◌∷◌, ◌++◌, Bool-cases, Option-cases,
  String, ltb,
}
use ai_model_arena.Common.Dict.{get, del}
use ai_model_arena.Queue.{
  Task, Waiter, Queue, is_duplicate, admit, find_due, find_dead, check_out, remove_waiter, bump,
  bury, postpone, push_back, revive, default_max_attempts, is_terminal_attempt, sync_queue_depth,
  sync_dlq_depth, enqueue, dequeue, expire, nack, dead_letter_retry, notify_next,
}
use ai_model_arena.Queue.Due.{notify_next-none}

-- The queue after a dequeue that finds nothing.
abbrev pub enlisted : ℕ → Queue → Queue
enlisted timeout_ms q =
    let waiter : Waiter = record { ticket = q.next_ticket; timed = ltb 0 timeout_ms } in
    record q { waiters = q.waiters ++ waiter ∷ []; next_ticket = suc q.next_ticket }

abbrev pub released : String → Queue → Queue
released id q = record q { in_flight = del id q.in_flight }

abbrev pub revived : Task → List Task → Queue → Queue
revived t rest q =
    sync_dlq_depth (sync_queue_depth (record q { dead = rest; pending = revive t ∷ q.pending }))

module _ {ℓ} (P : Queue → Type ℓ) (now : ℕ) (q : Queue) where
  pub enqueue_cases :
      (t : Task)
      → (is_duplicate now t q.dedup_keys ≡ true → P q)
      → (is_duplicate now t q.dedup_keys ≡ false → P (notify_next now (admit now t q)))
      → P (enqueue now t q)
  unfolding enqueue
  enqueue_cases t dup new = elim (Bool-cases (is_duplicate now t q.dedup_keys)) [
    | inl e ↦ rw e (dup e)
    | inr e ↦ rw e (new e)
  ]

  pub dequeue_cases :
      (timeout_ms : ℕ)
      → ((t : Task) (rest : List Task)
          → find_due now q.pending ≡ some (t, rest)
          → P (check_out t rest q))
      → (find_due now q.pending ≡ none → P (enlisted timeout_ms q))
      → P (dequeue now timeout_ms q).0
  unfolding dequeue
  dequeue_cases timeout_ms found missing = elim (Option-cases (find_due now q.pending)) [
    | inl e ↦ rw (e, dequeue) (rw (notify_next-none now (enlisted timeout_ms q) e) (missing e))
    | inr ((t, rest), e) ↦ rw (e, dequeue) (found t rest e)
  ]

  pub nack_at :
      (id : String) (t : Task)
      → get id q.in_flight ≡ some t
      → (is_terminal_attempt t.attempts default_max_attempts ≡ true
          → P (bury (bump t) (released id q)))
      → (is_terminal_attempt t.attempts default_max_attempts ≡ false
          → P (notify_next now (push_back (postpone now (bump t)) (released id q))))
      → P (nack now id q)
  unfolding nack
  nack_at id t e last retried =
      elim (Bool-cases (is_terminal_attempt t.attempts default_max_attempts)) [
        | inl end ↦ rw (e, nack, end) (last end)
        | inr more ↦ rw (e, nack, more) (retried more)
      ]

  pub nack_cases :
      (id : String)
      → P q
      → ((t : Task)
          → get id q.in_flight ≡ some t
          → is_terminal_attempt t.attempts default_max_attempts ≡ true
          → P (bury (bump t) (released id q)))
      → ((t : Task)
          → get id q.in_flight ≡ some t
          → is_terminal_attempt t.attempts default_max_attempts ≡ false
          → P (notify_next now (push_back (postpone now (bump t)) (released id q))))
      → P (nack now id q)
  nack_cases id unknown last retried = elim (Option-cases (get id q.in_flight)) [
    | inl e ↦ unfold nack in rw (e, nack) unknown
    | inr (t, e) ↦ nack_at id t e (last t e) (retried t e)
  ]

  pub retry_cases :
      (id : String)
      → P q
      → ((t : Task) (rest : List Task)
          → find_dead id q.dead ≡ some (t, rest)
          → P (notify_next now (revived t rest q)))
      → P (dead_letter_retry now id q).0
  unfolding dead_letter_retry
  retry_cases id unknown found = elim (Option-cases (find_dead id q.dead)) [
    | inl e ↦ rw (e, dead_letter_retry) unknown
    | inr ((t, rest), e) ↦ rw (e, dead_letter_retry) (found t rest e)
  ]

module _ {ℓ} (P : Queue → Type ℓ) (q : Queue) where
  pub expire_cases :
      (ticket : ℕ)
      → P q
      → ((rest : List Waiter)
          → remove_waiter ticket q.waiters ≡ some rest
          → P (record q { waiters = rest; resolved = q.resolved ++ (ticket, none) ∷ [] }))
      → P (expire ticket q)
  unfolding expire
  expire_cases ticket settled waiting = elim (Option-cases (remove_waiter ticket q.waiters)) [
    | inl e ↦ rw (e, expire) settled
    | inr (rest, e) ↦ rw (e, expire) (waiting rest e)
  ]
