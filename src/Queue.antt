-- ===== src/Queue.antt =====
-- The task queue of src/queue/in-memory.ts, with the attempt limit of src/queue/types.ts.
-- The clock (`Date.now()`) is an argument of each operation. A pending promise is a ticket: the
-- waiters are those not yet settled, and `resolved` lists the settled ones with their value.
-- `queue_depth` and `dlq_depth` are the two metrics that the class writes.
pub mod Due
pub mod Cases
pub mod Gauges
pub mod Service
pub mod Tally
pub mod Conservation
pub mod Attempts
pub mod Retry
pub mod Dedup
mod Examples
use ai_model_arena.Common.{
  ℕ, suc, ◌+◌, ◌-◌, ◌*◌, ◌^◌, min, String, str_eq, Bool, true, false, not, ◌&&◌, Option, none, some,
  List, [], ◌∷◌, ◌++◌, if◌then◌else◌, leb, ltb, ◌==◌, length, take,
}
use ai_model_arena.Common.Dict.{Dict, get, put, del}

-- The fields of a task that the queue carries and never reads; a config value is its JSON text.
pub record Body : Type 0 where
  pub session_id : String
  pub prompt_id : Option String
  pub prompt_version : Option ℕ
  pub provider : String
  pub model : String
  pub scenario : String
  pub config : Dict String
  pub enqueued_at : String

pub record Task : Type 0 where
  pub task_id : String
  pub attempts : ℕ
  pub due_at : Option ℕ
  pub idempotency_key : Option String
  pub body : Body

abbrev pub default_max_attempts : ℕ
default_max_attempts = 5

unfoldable pub is_terminal_attempt : ℕ → ℕ → Bool
is_terminal_attempt attempts max_attempts = leb max_attempts (attempts + 1)

-- `timed` says that the waiter has a timer, which calls `expire`.
pub record Waiter : Type 0 where
  pub ticket : ℕ
  pub timed : Bool

pub record Queue : Type 0 where
  pub pending : List Task
  pub in_flight : Dict Task
  pub waiters : List Waiter
  pub dead : List Task
  pub dedup_keys : Dict ℕ
  pub next_ticket : ℕ
  pub resolved : List (ℕ × Option Task)
  pub queue_depth : ℕ
  pub dlq_depth : ℕ

abbrev pub dedup_ttl_ms : ℕ
dedup_ttl_ms = 86_400_000

abbrev pub retry_backoff_ms : ℕ
retry_backoff_ms = 2000

abbrev pub empty : Queue
empty = record {
  pending = [];
  in_flight = [];
  waiters = [];
  dead = [];
  dedup_keys = [];
  next_ticket = 0;
  resolved = [];
  queue_depth = 0;
  dlq_depth = 0;
}

abbrev pub sync_queue_depth : Queue → Queue
sync_queue_depth q = record q { queue_depth = length q.pending }

abbrev pub sync_dlq_depth : Queue → Queue
sync_dlq_depth q = record q { dlq_depth = length q.dead }

-- `!t.dueAt || t.dueAt <= Date.now()`; a due time of 0 is due either way.
abbrev pub is_due : ℕ → Task → Bool
is_due now t = elim t.due_at [ none ↦ true | some due ↦ leb due now ]

abbrev pub keep_front : Task → Option (Task × List Task) → Option (Task × List Task)
keep_front t none = none
keep_front t (some (found, rest)) = some (found, t ∷ rest)

-- The first due task and the list without it.
pub find_due : ℕ → List Task → Option (Task × List Task)
find_due now [] = none
find_due now (t ∷ ts) = if is_due now t then some (t, ts) else keep_front t (find_due now ts)

-- `inFlight.set(t.taskId, t)` and the metric, once `t` is out of `pending`.
abbrev pub check_out : Task → List Task → Queue → Queue
check_out t rest q =
    sync_queue_depth (record q { pending = rest; in_flight = put t.task_id t q.in_flight })

serve : List Waiter → Option (Task × List Task) → Queue → Queue
serve [] found q = q
serve (w ∷ ws) none q = q
serve (w ∷ ws) (some (t, rest)) q =
    let out = check_out t rest q in
    record out { waiters = ws; resolved = q.resolved ++ (w.ticket, some t) ∷ [] }

pub notify_next : ℕ → Queue → Queue
unfolding serve
notify_next now q = serve q.waiters (find_due now q.pending) q

-- `prev && Date.now() - prev < this.dedupTtlMs`
abbrev pub seen_recently : ℕ → Option ℕ → Bool
seen_recently now none = false
seen_recently now (some prev) = not (prev == 0) && ltb (now - prev) dedup_ttl_ms

-- An empty key counts as no key.
abbrev pub duplicate_key : ℕ → Option String → Dict ℕ → Bool
duplicate_key now none keys = false
duplicate_key now (some key) keys = not (str_eq key "") && seen_recently now (get key keys)

abbrev pub is_duplicate : ℕ → Task → Dict ℕ → Bool
is_duplicate now t keys = duplicate_key now t.idempotency_key keys

abbrev pub remember_key : ℕ → Option String → Dict ℕ → Dict ℕ
remember_key now none keys = keys
remember_key now (some key) keys = if str_eq key "" then keys else put key now keys

abbrev pub remember : ℕ → Task → Dict ℕ → Dict ℕ
remember now t keys = remember_key now t.idempotency_key keys

-- What `enqueue` does to a task that is no duplicate, before it wakes a waiter.
abbrev pub admit : ℕ → Task → Queue → Queue
admit now t q =
    let pushed = q.pending ++ t ∷ [] in
    record q {
      pending = pushed;
      dedup_keys = remember now t q.dedup_keys;
      queue_depth = length pushed;
    }

unfoldable pub enqueue : ℕ → Task → Queue → Queue
enqueue now t q = if is_duplicate now t q.dedup_keys then q else notify_next now (admit now t q)

pub data Reply : Type 0 where
  delivered : Task → Reply
  waiting : ℕ → Reply

dequeue_found : ℕ → ℕ → Option (Task × List Task) → Queue → Queue × Reply
dequeue_found now timeout_ms (some (t, rest)) q = (check_out t rest q, delivered t)
dequeue_found now timeout_ms none q =
    let waiter : Waiter = record { ticket = q.next_ticket; timed = ltb 0 timeout_ms } in
    let queued = record q { waiters = q.waiters ++ waiter ∷ []; next_ticket = suc q.next_ticket } in
    (notify_next now queued, waiting q.next_ticket)

pub dequeue : ℕ → ℕ → Queue → Queue × Reply
unfolding dequeue_found
dequeue now timeout_ms q = dequeue_found now timeout_ms (find_due now q.pending) q

abbrev keep_waiter : Waiter → Option (List Waiter) → Option (List Waiter)
keep_waiter w none = none
keep_waiter w (some rest) = some (w ∷ rest)

pub remove_waiter : ℕ → List Waiter → Option (List Waiter)
remove_waiter ticket [] = none
remove_waiter ticket (w ∷ ws) =
    if w.ticket == ticket then some ws else keep_waiter w (remove_waiter ticket ws)

-- The timer of a waiter. A promise that is settled already stays as it is.
pub expire : ℕ → Queue → Queue
expire ticket q = elim (remove_waiter ticket q.waiters) [
  | none ↦ q
  | some rest ↦ record q { waiters = rest; resolved = q.resolved ++ (ticket, none) ∷ [] }
]

pub ack : String → Queue → Queue
ack id q = sync_queue_depth (record q { in_flight = del id q.in_flight })

unfoldable pub backoff_ms : ℕ → ℕ
backoff_ms attempts = min (retry_backoff_ms * 2 ^ (attempts - 1)) 300_000

abbrev pub bump : Task → Task
bump t = record t { attempts = t.attempts + 1 }

abbrev pub bury : Task → Queue → Queue
bury t q = sync_dlq_depth (sync_queue_depth (record q { dead = q.dead ++ t ∷ [] }))

abbrev pub postpone : ℕ → Task → Task
postpone now t = record t { due_at = some (now + backoff_ms t.attempts) }

abbrev pub push_back : Task → Queue → Queue
push_back t q = sync_queue_depth (record q { pending = q.pending ++ t ∷ [] })

nack_found : ℕ → String → Option Task → Queue → Queue
nack_found now id none q = q
nack_found now id (some t) q =
    let out = record q { in_flight = del id q.in_flight } in
    if is_terminal_attempt t.attempts default_max_attempts
    then bury (bump t) out
    else notify_next now (push_back (postpone now (bump t)) out)

pub nack : ℕ → String → Queue → Queue
unfolding nack_found
nack now id q = nack_found now id (get id q.in_flight) q

pub find_dead : String → List Task → Option (Task × List Task)
find_dead id [] = none
find_dead id (t ∷ ts) = if str_eq t.task_id id then some (t, ts) else keep_front t (find_dead id ts)

abbrev pub revive : Task → Task
revive t = record t { attempts = 0; due_at = none }

retry_found : ℕ → Option (Task × List Task) → Queue → Queue × Bool
retry_found now none q = (q, false)
retry_found now (some (t, rest)) q =
    let back = record q { dead = rest; pending = revive t ∷ q.pending } in
    (notify_next now (sync_dlq_depth (sync_queue_depth back)), true)

pub dead_letter_retry : ℕ → String → Queue → Queue × Bool
unfolding retry_found
dead_letter_retry now id q = retry_found now (find_dead id q.dead) q

abbrev pub pending_count : Queue → ℕ
pending_count q = length q.pending

abbrev pub size : Queue → ℕ
size q = length q.pending + length q.in_flight

abbrev pub dead_letter_size : Queue → ℕ
dead_letter_size q = length q.dead

abbrev pub dead_letter_peek : ℕ → Queue → List Task
dead_letter_peek limit q = take limit q.dead

pub data Op : Type 0 where
  enqueues : Task → Op
  dequeues : (timeout_ms : ℕ) → Op
  expires : (ticket : ℕ) → Op
  acks nacks retries : String → Op

pub step : ℕ → Op → Queue → Queue
step now (enqueues t) q = enqueue now t q
step now (dequeues timeout_ms) q = (dequeue now timeout_ms q).0
step now (expires ticket) q = expire ticket q
step now (acks id) q = ack id q
step now (nacks id) q = nack now id q
step now (retries id) q = (dead_letter_retry now id q).0

-- A history: each call with the time at which it is made.
unfoldable pub run : List (ℕ × Op) → Queue → Queue
run [] q = q
run ((now, op) ∷ ops) q = run ops (step now op q)
