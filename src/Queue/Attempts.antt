-- ===== src/Queue/Attempts.antt =====
-- The attempt limit of src/queue/in-memory.ts.
use ai_model_arena.Common.{
  ℕ, ◌+◌, ◌<◌, ◌≡◌, subst, some, inl, inr, List, [], ◌∷◌, ◌++◌, arith, String, str_eq, All,
  All-append, Bool-cases,
}
use ai_model_arena.Common.Dict.{Dict, get, put, del}
use ai_model_arena.Queue.{
  Task, Queue, empty, default_max_attempts, is_terminal_attempt, find_due, find_dead, is_due, ack,
  notify_next, bump, postpone, Op, enqueues, dequeues, expires, acks, nacks, retries, step, run,
  check_out,
}
use ai_model_arena.Queue.Due.{keep_front-inv, notify_next_cases}
use ai_model_arena.Queue.Cases.{enqueue_cases, dequeue_cases, expire_cases, nack_cases, retry_cases}

module _ {ℓ} (P : Task → Type ℓ) where
  All-find_due :
      (now : ℕ) (ts : List Task) (t : Task) (rest : List Task)
      → find_due now ts ≡ some (t, rest)
      → All P ts
      → P t × All P rest
  unfolding find_due
  All-find_due now [] t rest e a = cc
  All-find_due now (u ∷ ts) t rest e a = elim (Bool-cases (is_due now u)) [
    | inl due ↦
        let first : u ≡ t = ground arith in
        let others : ts ≡ rest = ground arith in (subst P first a.0, subst (All P) others a.1)
    | inr later ↦
        let (r, found, same) = keep_front-inv u (find_due now ts) t rest (ground arith) in
        let (here, others) = All-find_due now ts t r found a.1 in (here, rw same (a.0, others))
  ]

  All-find_dead :
      (id : String) (ts : List Task) (t : Task) (rest : List Task)
      → find_dead id ts ≡ some (t, rest)
      → All P ts
      → P t × All P rest
  unfolding find_dead
  All-find_dead id [] t rest e a = cc
  All-find_dead id (u ∷ ts) t rest e a = elim (Bool-cases (str_eq u.task_id id)) [
    | inl hit ↦
        let first : u ≡ t = ground arith in
        let others : ts ≡ rest = ground arith in (subst P first a.0, subst (All P) others a.1)
    | inr miss ↦
        let (r, found, same) = keep_front-inv u (find_dead id ts) t rest (ground arith) in
        let (here, others) = All-find_dead id ts t r found a.1 in (here, rw same (a.0, others))
  ]

  All-put :
      (k : String) (t : Task) (m : Dict Task)
      → P t
      → All (λ e. P e.1) m
      → All (λ e. P e.1) (put k t m)
  unfolding put
  All-put k t [] h a = (h, tt)
  All-put k t ((j, u) ∷ m) h a = elim (Bool-cases (str_eq j k)) [
    | inl hit ↦ rw hit (h, a.1)
    | inr miss ↦ rw miss (a.0, All-put k t m h a.1)
  ]

  All-del : (k : String) (m : Dict Task) → All (λ e. P e.1) m → All (λ e. P e.1) (del k m)
  unfolding del
  All-del k [] a = tt
  All-del k ((j, u) ∷ m) a = elim (Bool-cases (str_eq j k)) [
    | inl hit ↦ rw hit (All-del k m a.1)
    | inr miss ↦ rw miss (a.0, All-del k m a.1)
  ]

  All-get : (k : String) (t : Task) (m : Dict Task) → get k m ≡ some t → All (λ e. P e.1) m → P t
  unfolding get
  All-get k t [] e a = cc
  All-get k t ((j, u) ∷ m) e a = elim (Bool-cases (str_eq j k)) [
    | inl hit ↦ let same : u ≡ t = ground arith in subst P same a.0
    | inr miss ↦ All-get k t m (ground arith) a.1
  ]

-- Tasks that wait or are in flight have attempts left; dead tasks have used the last one.
pub record IsBounded (q : Queue) : Type 0 where
  pub pending : All (λ t. t.attempts < default_max_attempts) q.pending
  pub in_flight : All (λ e. e.1.attempts < default_max_attempts) q.in_flight
  pub dead : All (λ t. t.attempts ≡ default_max_attempts) q.dead

-- A task is enqueued with attempts left.
abbrev pub HasAttempts : Op → Type 0
HasAttempts (enqueues t) = t.attempts < default_max_attempts
HasAttempts _ = Unit {0}

check_out-IsBounded :
    (now : ℕ) (q : Queue) (t : Task) (rest : List Task)
    → find_due now q.pending ≡ some (t, rest)
    → IsBounded q
    → IsBounded (check_out t rest q)
check_out-IsBounded now q t rest e b =
    let (here, others) =
      All-find_due (λ u. u.attempts < default_max_attempts) now q.pending t rest e b.pending in
    record {
      pending = others;
      in_flight =
          All-put (λ u. u.attempts < default_max_attempts) t.task_id t q.in_flight here b.in_flight;
      dead = b.dead;
    }

notify_next-IsBounded : (now : ℕ) (q : Queue) → IsBounded q → IsBounded (notify_next now q)
notify_next-IsBounded now q b =
    notify_next_cases IsBounded now q (λ _. b)
      λ w ws t rest e f.
        let c = check_out-IsBounded now q t rest f b in
        record { pending = c.pending; in_flight = c.in_flight; dead = c.dead }

snoc-Bounded :
    (q : Queue) (t : Task)
    → IsBounded q
    → t.attempts < default_max_attempts
    → All (λ u. u.attempts < default_max_attempts) (q.pending ++ t ∷ [])
snoc-Bounded q t b h =
    All-append (λ u. u.attempts < default_max_attempts) q.pending (t ∷ []) b.pending (h, tt)

-- Every operation keeps it so, if what it enqueues has attempts left.
pub step-IsBounded :
    (now : ℕ) (op : Op) (q : Queue) → IsBounded q → HasAttempts op → IsBounded (step now op q)
unfolding step ack is_terminal_attempt
step-IsBounded now (enqueues t) q b h =
    enqueue_cases IsBounded now q t (λ _. b)
      (λ _.
        notify_next-IsBounded now _
          (record { pending = snoc-Bounded q t b h; in_flight = b.in_flight; dead = b.dead }))
step-IsBounded now (dequeues timeout_ms) q b h =
    dequeue_cases IsBounded now q timeout_ms (λ t rest e. check_out-IsBounded now q t rest e b)
      (λ e. record { pending = b.pending; in_flight = b.in_flight; dead = b.dead })
step-IsBounded now (expires ticket) q b h =
    expire_cases IsBounded q ticket b
      (λ rest e. record { pending = b.pending; in_flight = b.in_flight; dead = b.dead })
step-IsBounded now (acks id) q b h = record {
  pending = b.pending;
  in_flight = All-del _ id q.in_flight b.in_flight;
  dead = b.dead;
}
step-IsBounded now (nacks id) q b h =
    let free = All-del (λ u. u.attempts < default_max_attempts) id q.in_flight b.in_flight in
    nack_cases IsBounded now q id b
      (λ t e f.
        let old = All-get (λ u. u.attempts < default_max_attempts) id t q.in_flight e b.in_flight in
        let last : t.attempts + 1 ≡ default_max_attempts = ground arith in
        record {
          pending = b.pending;
          in_flight = free;
          dead =
              All-append (λ u. u.attempts ≡ default_max_attempts) q.dead (bump t ∷ []) b.dead
                (last, tt);
        })
      (λ t e f. notify_next-IsBounded now _ (record {
        pending = snoc-Bounded q (postpone now (bump t)) b (ground arith);
        in_flight = free;
        dead = b.dead;
      }))
step-IsBounded now (retries id) q b h = retry_cases IsBounded now q id b λ t rest e.
    let (here, others) =
      All-find_dead (λ u. u.attempts ≡ default_max_attempts) id q.dead t rest e b.dead in
    notify_next-IsBounded now _
      (record { pending = (omega arith, b.pending); in_flight = b.in_flight; dead = others })

run_from-IsBounded :
    (ops : List (ℕ × Op)) (q : Queue)
    → IsBounded q
    → All (λ o. HasAttempts o.1) ops
    → IsBounded (run ops q)
unfolding run
run_from-IsBounded [] q b h = b
run_from-IsBounded ((now, op) ∷ ops) q b h =
    run_from-IsBounded ops (step now op q) (step-IsBounded now op q b h.0) h.1

-- After any history on a new queue that enqueues only tasks with attempts left, every pending task
-- and every task in flight has fewer attempts than the limit, and every dead task has the limit.
pub run-IsBounded :
    (ops : List (ℕ × Op)) → All (λ o. HasAttempts o.1) ops → IsBounded (run ops empty)
run-IsBounded ops h =
    run_from-IsBounded ops empty (record { pending = tt; in_flight = tt; dead = tt }) h
