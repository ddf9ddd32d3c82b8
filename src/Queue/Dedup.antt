-- ===== src/Queue/Dedup.antt =====
-- The idempotency keys of src/queue/in-memory.ts.
use ai_model_arena.Common.{
  ℕ, ◌+◌, ◌≤◌, ◌<◌, ◌≡◌, ◌≢◌, refl, ◌∙◌, true, false, none, some, inl, inr, List, [], ◌∷◌, arith,
  String, str_eq, eq_iff, All, Bool-cases, Option,
}
use ai_model_arena.Common.Dict.{Dict, get, get-put, get-put_self}
use ai_model_arena.Queue.{
  Task, Queue, is_duplicate, duplicate_key, remember_key, admit, dedup_ttl_ms, enqueue, ack,
  notify_next, Op, enqueues, dequeues, expires, acks, nacks, retries, step, run,
}
use ai_model_arena.Queue.Due.{notify_next_cases}
use ai_model_arena.Queue.Cases.{enqueue_cases, dequeue_cases, expire_cases, nack_cases, retry_cases}

-- The key was last written at `since` or later.
abbrev Seen : String → ℕ → Dict ℕ → Type 0
Seen key since keys = (prev : ℕ) × (get key keys ≡ some prev) × (since ≤ prev)

remember_key-Seen :
    (key : String) (since now : ℕ) (own : Option String) (keys : Dict ℕ)
    → since ≤ now
    → Seen key since keys
    → Seen key since (remember_key now own keys)
remember_key-Seen key since now none keys h s = s
remember_key-Seen key since now (some k) keys h (prev, found, le) =
    elim (Bool-cases (str_eq k "")) [
      | inl blank ↦ rw blank (prev, found, le)
      | inr real ↦ rw real (elim (Bool-cases (str_eq k key)) [
        | inl same ↦ (now, get-put key k now keys ∙ rw same, h)
        | inr other ↦ (prev, get-put key k now keys ∙ rw other found, le)
      ])
    ]

notify_next-dedup_keys : (now : ℕ) (q : Queue) → (notify_next now q).dedup_keys ≡ q.dedup_keys
notify_next-dedup_keys now q =
    notify_next_cases (λ r. r.dedup_keys ≡ q.dedup_keys) now q (λ _. refl) (λ w ws t rest e f. refl)

module _ (key : String) (since now : ℕ) (since-le-now : since ≤ now) (q : Queue)
    (s : Seen key since q.dedup_keys) where
  notify_next-Seen :
      (r : Queue) → Seen key since r.dedup_keys → Seen key since (notify_next now r).dedup_keys
  notify_next-Seen r t = rw (notify_next-dedup_keys now r) t

  step-Seen : (op : Op) → Seen key since (step now op q).dedup_keys
  unfolding step ack
  step-Seen (enqueues t) =
      enqueue_cases (λ r. Seen key since r.dedup_keys) now q t (λ _. s)
        (λ _.
          notify_next-Seen _
            (remember_key-Seen key since now t.idempotency_key q.dedup_keys since-le-now s))
  step-Seen (dequeues timeout_ms) =
      dequeue_cases (λ r. Seen key since r.dedup_keys) now q timeout_ms (λ t rest e. s) (λ e. s)
  step-Seen (expires ticket) =
      expire_cases (λ r. Seen key since r.dedup_keys) q ticket s (λ rest e. s)
  step-Seen (acks id) = s
  step-Seen (nacks id) =
      nack_cases (λ r. Seen key since r.dedup_keys) now q id s (λ t e f. s)
        (λ t e f. notify_next-Seen _ s)
  step-Seen (retries id) =
      retry_cases (λ r. Seen key since r.dedup_keys) now q id s (λ t rest e. notify_next-Seen _ s)

run-Seen :
    (key : String) (since : ℕ) (ops : List (ℕ × Op)) (q : Queue)
    → All (λ o. since ≤ o.0) ops
    → Seen key since q.dedup_keys
    → Seen key since (run ops q).dedup_keys
unfolding run
run-Seen key since [] q h s = s
run-Seen key since ((now, op) ∷ ops) q h s =
    run-Seen key since ops (step now op q) h.1 (step-Seen key since now h.0 q s op)

remember_key-Seen_self :
    (key : String) (since : ℕ) (own : Option String) (keys : Dict ℕ)
    → key ≢ ""
    → own ≡ some key
    → Seen key since (remember_key since own keys)
remember_key-Seen_self key since own keys real e =
    (since, rw e (ground (arith, eq_iff key "", get-put_self key since keys)), omega arith)

duplicate_of_Seen :
    (key : String) (since now : ℕ) (own : Option String) (keys : Dict ℕ)
    → key ≢ ""
    → 0 < since
    → now < since + dedup_ttl_ms
    → own ≡ some key
    → Seen key since keys
    → duplicate_key now own keys ≡ true
duplicate_of_Seen key since now own keys real pos soon e (prev, found, le) =
    rw e (ground (arith, eq_iff key "", found, le))

enqueue-Seen :
    (key : String) (since : ℕ) (t : Task) (q : Queue)
    → key ≢ ""
    → t.idempotency_key ≡ some key
    → is_duplicate since t q.dedup_keys ≡ false
    → Seen key since (enqueue since t q).dedup_keys
enqueue-Seen key since t q real own new =
    enqueue_cases (λ r. Seen key since r.dedup_keys) since q t (λ dup. cc)
      (λ _.
        rw (notify_next-dedup_keys since (admit since t q))
          (remember_key-Seen_self key since t.idempotency_key q.dedup_keys real own))

-- After a task with a key was enqueued at a time other than 0 and was no duplicate, whatever happens
-- meanwhile: a task enqueued with that key less than `dedup_ttl_ms` later changes nothing.
pub enqueue-run-enqueue :
    (key : String) (since now : ℕ) (t u : Task) (ops : List (ℕ × Op)) (q : Queue)
    → key ≢ ""
    → 0 < since
    → t.idempotency_key ≡ some key
    → u.idempotency_key ≡ some key
    → is_duplicate since t q.dedup_keys ≡ false
    → All (λ o. since ≤ o.0) ops
    → now < since + dedup_ttl_ms
    → enqueue now u (run ops (enqueue since t q)) ≡ run ops (enqueue since t q)
enqueue-run-enqueue key since now t u ops q real pos own own' new later soon =
    let s =
      run-Seen key since ops (enqueue since t q) later (enqueue-Seen key since t q real own new) in
    let dup = duplicate_of_Seen key since now u.idempotency_key _ real pos soon own' s in
    enqueue_cases (λ r. r ≡ run ops (enqueue since t q)) now (run ops (enqueue since t q)) u
      (λ _. refl) (λ fresh. cc)
