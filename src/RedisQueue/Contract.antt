-- ===== src/RedisQueue/Contract.antt =====
-- The contract of a task queue that src/queue/types.ts states and both drivers keep: which tasks wait
-- and which are dead, whatever their order. It is met by src/queue/redis.ts and src/queue/in-memory.ts.
use ai_model_arena.Common.{
  ℕ, ◌+◌, ◌≤◌, ◌<◌, ◌≡◌, refl, ap, ◌∙◌, ◌⊎◌, inl, inr, Bool, true, false, Option, none, some,
  String, List, [], ◌∷◌, ◌++◌, map, ◌*◌, leb, arith, Bool-cases, if◌then◌else◌,
}
use ai_model_arena.Common.Dict.{get}
use ai_model_arena.Queue.{
  Task, Queue, is_terminal_attempt, default_max_attempts, retry_backoff_ms, backoff_ms, bump,
  postpone, notify_next, nack, push_back,
}
use ai_model_arena.Queue.Cases.{nack_at, released}
use ai_model_arena.Queue.Due.{notify_next_cases}
use ai_model_arena.RedisQueue.{
  Entry, remove_entry, RedisQueueConfig, delay_ms, nack_script, nack_fallback, take_out,
}
use ai_model_arena.RedisQueue.Laws.{Redis}
use ai_model_arena.RedisQueue.Dequeue.{tasks, tasks-append}

-- A bag of tasks: how many of them pass each test. It forgets the order.
abbrev pub Bag : Type 0
Bag = (Option Task → Bool) → ℕ

abbrev pub bag : List (Option Task) → Bag
bag [] p = 0
bag (t ∷ ts) p = (if p t then 1 else 0) + bag ts p

abbrev pub IsSame : Bag → Bag → Type 0
IsSame b b' = (p : Option Task → Bool) → b' p ≡ b p

abbrev pub IsAdded : Task → Bag → Bag → Type 0
IsAdded t b b' = (p : Option Task → Bool) → b' p ≡ b p + (if p (some t) then 1 else 0)

bag-append :
    (xs ys : List (Option Task)) (p : Option Task → Bool) → bag (xs ++ ys) p ≡ bag xs p + bag ys p
bag-append [] ys p = omega arith
bag-append (x ∷ xs) ys p = omega (arith, bag-append xs ys p)

-- What a nack of the task `t` does: at the last attempt the task is dead with its attempts counted, and
-- otherwise it waits again, with its attempts counted and until its delay is over.
abbrev pub IsNacked : RedisQueueConfig → ℕ → Task → Bag → Bag → Bag → Bag → Type 0
IsNacked c now t waiting dead waiting' dead' =
    ((is_terminal_attempt t.attempts c.max_attempts ≡ true)
      × IsSame waiting waiting'
      × IsAdded (bump t) dead dead')
    ⊎ ((is_terminal_attempt t.attempts c.max_attempts ≡ false)
        × IsAdded (record (bump t) { due_at = some (now + delay_ms c (t.attempts + 1)) }) waiting
            waiting'
        × IsSame dead dead')

remove_entry-append :
    (id : ℕ) (xs ys : List Entry)
    → remove_entry id (xs ++ ys) ≡ remove_entry id xs ++ remove_entry id ys
remove_entry-append id [] ys = refl
remove_entry-append id (x ∷ xs) ys = ground (arith, remove_entry-append id xs ys)

remove_entry-newer : (id : ℕ) (e : Entry) → id < e.id → remove_entry id (e ∷ []) ≡ e ∷ []
remove_entry-newer id e newer = ground arith

-- One entry more.
bag-snoc :
    (es es' : List Entry) (id : ℕ) (t : Task) (p : Option Task → Bool)
    → es' ≡ es ++ (record { id = id; task = some t }) ∷ []
    → bag (tasks es') p ≡ bag (tasks es) p + (if p (some t) then 1 else 0)
bag-snoc es es' id t p h =
    let added : Entry = record { id = id; task = some t } in
    rw (h, tasks-append es (added ∷ [])) (omega (arith, bag-append (tasks es) (some t ∷ []) p))

module _ (redis : Redis) where
  open redis use {
    commands, undelivered, pel, dlq, last_id, undelivered-xadd, dlq-xadd, undelivered-xadd_dlq,
    dlq-xadd_dlq, undelivered-xack, dlq-xack, undelivered-xdel, dlq-xdel, pel-xack, pel-xdel,
    pel-xadd, pel-xadd_dlq, xrange-xdel,
  }
  open commands use {Server, xadd, xadd_dlq, xack, xrange}

  -- The tasks that wait in Redis and those in its dead-letter stream.
  abbrev pub waiting : Server → Bag
  waiting s = bag (tasks (undelivered s))

  abbrev pub dead : Server → Bag
  dead s = bag (tasks (dlq s))

  undelivered-take_out :
      (id : ℕ) (s : Server) → undelivered (take_out commands id s) ≡ remove_entry id (undelivered s)
  undelivered-take_out id s = undelivered-xdel id _ ∙ ap (remove_entry id) (undelivered-xack id s)

  dlq-take_out : (id : ℕ) (s : Server) → dlq (take_out commands id s) ≡ dlq s
  dlq-take_out id s = dlq-xdel id _ ∙ dlq-xack id s

  bury-Spec :
      (id : ℕ) (t : Task) (s : Server)
      → remove_entry id (undelivered s) ≡ undelivered s
      → let after = take_out commands id (xadd_dlq (some t) s) in
        IsSame (waiting s) (waiting after) × IsAdded t (dead s) (dead after)
  bury-Spec id t s gone =
      let (fresh, added) = dlq-xadd_dlq (some t) s in
      (
        (λ p.
            ap (λ es. bag (tasks es) p)
              (undelivered-take_out id (xadd_dlq (some t) s)
                ∙ ap (remove_entry id) (undelivered-xadd_dlq (some t) s)
                ∙ gone)),
        (λ p. bag-snoc (dlq s) _ fresh t p (dlq-take_out id (xadd_dlq (some t) s) ∙ added)),
      )

  requeue-Spec :
      (id : ℕ) (t : Task) (s : Server)
      → remove_entry id (undelivered s) ≡ undelivered s
      → id ≤ last_id s
      → let after = take_out commands id (xadd (some t) s) in
        IsAdded t (waiting s) (waiting after) × IsSame (dead s) (dead after)
  requeue-Spec id t s gone old =
      let (fresh, newer, added) = undelivered-xadd (some t) s in
      let e : Entry = record { id = fresh; task = some t } in
      (
        (λ p. bag-snoc (undelivered s) _ fresh t p (
            undelivered-take_out id (xadd (some t) s)
            ∙ ap (remove_entry id) added
            ∙ remove_entry-append id (undelivered s) (e ∷ [])
            ∙ ap (λ es. es ++ remove_entry id (e ∷ [])) gone
            ∙ ap (λ es. undelivered s ++ es)
                (remove_entry-newer id e (omega (arith, old, newer))))),
        (λ p.
            ap (λ es. bag (tasks es) p) (dlq-take_out id (xadd (some t) s) ∙ dlq-xadd (some t) s)),
      )

  -- A delivered entry: its id is given, and it is not among the undelivered ones.
  abbrev pub IsDelivered : ℕ → Server → Type 0
  IsDelivered id s = (remove_entry id (undelivered s) ≡ undelivered s) × (id ≤ last_id s)

  -- The entry is out: it is not pending, so that no reclaim finds it, and not in the stream; other pending
  -- entries stay.
  abbrev pub IsTakenOut : ℕ → Server → Server → Type 0
  IsTakenOut id s s' = (pel s' ≡ remove_entry id (pel s)) × (xrange id s' ≡ none)

  take_out-IsTakenOut :
      (id : ℕ) (s u : Server) → pel u ≡ pel s → IsTakenOut id s (take_out commands id u)
  take_out-IsTakenOut id s u same =
      (pel-xdel id _ ∙ pel-xack id u ∙ ap (remove_entry id) same, xrange-xdel id (xack id u))

  -- The script on the clock in seconds, and the code that stands in for it, both do what the contract says, and
  -- take the entry out of the pending ones and of the stream.
  pub nack-IsNacked :
      (c : RedisQueueConfig) (seconds now id : ℕ) (t : Task) (s : Server)
      → IsDelivered id s
      → let script = nack_script commands c seconds id t s in
        let code = nack_fallback commands c now id t s in
        (IsNacked c (seconds * 1000) t (waiting s) (dead s) (waiting script) (dead script)
          × IsTakenOut id s script)
        × (IsNacked c now t (waiting s) (dead s) (waiting code) (dead code) × IsTakenOut id s code)
  unfolding nack_script nack_fallback is_terminal_attempt
  nack-IsNacked c seconds now id t s given =
      elim (Bool-cases (leb c.max_attempts (t.attempts + 1))) [
        | inl last ↦
            let buried = bury-Spec id (bump t) s given.0 in
            let out = take_out-IsTakenOut id s _ (pel-xadd_dlq (some (bump t)) s) in
            rw last ((inl (refl, buried.0, buried.1), out), (inl (refl, buried.0, buried.1), out))
        | inr more ↦
            let script = requeue-Spec id _ s given.0 given.1 in
            let code = requeue-Spec id _ s given.0 given.1 in
            rw more (
              (inr (refl, script.0, script.1), take_out-IsTakenOut id s _ (pel-xadd _ s)),
              (inr (refl, code.0, code.1), take_out-IsTakenOut id s _ (pel-xadd _ s)),
            )
      ]

abbrev pub waiting_in_memory : Queue → Bag
waiting_in_memory q = bag (map some q.pending)

abbrev pub dead_in_memory : Queue → Bag
dead_in_memory q = bag (map some q.dead)

-- The configuration of the in-memory driver.
abbrev pub memory_config : RedisQueueConfig
memory_config = record { max_attempts = default_max_attempts; retry_backoff_ms = retry_backoff_ms }

bag-map_snoc :
    (ts : List Task) (t : Task) (p : Option Task → Bool)
    → bag (map some (ts ++ t ∷ [])) p ≡ bag (map some ts) p + (if p (some t) then 1 else 0)
bag-map_snoc [] t p = omega arith
bag-map_snoc (x ∷ ts) t p = omega (arith, bag-map_snoc ts t p)

notify_next-idle : (now : ℕ) (q : Queue) → q.waiters ≡ [] → notify_next now q ≡ q
notify_next-idle now q idle =
    notify_next_cases (λ r. r ≡ q) now q (λ _. refl) (λ w ws t rest e f. cc)

-- The in-memory queue does what the contract says of a task in flight, while nobody waits in dequeue.
pub memory_nack-IsNacked :
    (now : ℕ) (id : String) (t : Task) (q : Queue)
    → q.waiters ≡ []
    → get id q.in_flight ≡ some t
    → IsNacked memory_config now t
        (waiting_in_memory q)
        (dead_in_memory q)
        (waiting_in_memory (nack now id q))
        (dead_in_memory (nack now id q))
unfolding backoff_ms delay_ms
memory_nack-IsNacked now id t q idle there =
    nack_at
      (λ r.
        IsNacked memory_config now t (waiting_in_memory q) (dead_in_memory q) (waiting_in_memory r)
          (dead_in_memory r))
      now q id t there (λ last. inl (last, (λ p. refl), (λ p. bag-map_snoc q.dead (bump t) p)))
      (λ more.
        rw (notify_next-idle now (push_back (postpone now (bump t)) (released id q)) idle)
          (inr (more, (λ p. bag-map_snoc q.pending (postpone now (bump t)) p), (λ p. refl))))
