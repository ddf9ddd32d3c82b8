-- ===== src/RedisQueue.antt =====
-- The Redis task queue of src/queue/redis.ts, for a queue with a provider filter. The server is not
-- part of the repository: it is the parameter `Redis`, with the commands that the class calls and,
-- as laws, what their documentation says of the entries that the consumer group has not delivered, of
-- its pending entries list and of the dead-letter stream. An entry is its id and its task, `none`
-- where the payload does not parse; the trace context, the reasons and the gauges are left out, and so
-- are the heartbeat and the map of ids that it walks.
pub mod Laws
pub mod Dequeue
pub mod Contract
mod Server
mod Examples
pub mod Depth
use ai_model_arena.Common.{
  ℕ, zero, suc, ◌+◌, ◌-◌, ◌*◌, ◌^◌, ◌≡◌, min, Bool, true, false, not, Option, none, some, String,
  str_eq, List, [], ◌∷◌, ◌++◌, if◌then◌else◌, leb, ltb, ◌==◌,
}
use ai_model_arena.Queue.{Task, is_terminal_attempt, bump}

pub record Entry : Type 0 where
  pub id : ℕ
  pub task : Option Task

abbrev pub remove_entry : ℕ → List Entry → List Entry
remove_entry id [] = []
remove_entry id (e ∷ es) = if e.id == id then remove_entry id es else e ∷ remove_entry id es

-- The commands. `xadd` and `xadd_dlq` append to the stream and to the dead-letter stream; `set_nx` is
-- the script of the idempotency guard.
pub record Commands : Type 1 where
  pub Server : Type 0
  pub set_nx : String → Server → Server × Bool
  pub xadd : Option Task → Server → Server
  pub xadd_dlq : Option Task → Server → Server
  pub xreadgroup : Server → Server × Option Entry
  pub xack : ℕ → Server → Server
  pub xdel : ℕ → Server → Server
  pub xdel_dlq : ℕ → Server → Server
  pub xrange : ℕ → Server → Option Entry
  pub xrange_dlq : Server → List Entry
  pub xlen : Server → ℕ
  pub xlen_dlq : Server → ℕ
  pub xpending : Server → ℕ

pub record RedisQueueConfig : Type 0 where
  pub max_attempts : ℕ
  pub retry_backoff_ms : ℕ

abbrev pub max_retry_rotations : ℕ
max_retry_rotations = 8

abbrev pub is_later : ℕ → Option ℕ → Bool
is_later now none = false
is_later now (some due) = ltb now due

-- What one pass of the loop in `dequeue` decides on the entry that it read.
abbrev pub not_due : ℕ → Entry → Bool
not_due now e = elim e.task [ none ↦ false | some t ↦ is_later now t.due_at ]

unfoldable pub delay_ms : RedisQueueConfig → ℕ → ℕ
delay_ms c attempts = min (c.retry_backoff_ms * 2 ^ (attempts - 1)) 300_000

abbrev has_task_id : String → Entry → Bool
has_task_id task_id e = elim e.task [ none ↦ false | some t ↦ str_eq t.task_id task_id ]

pub find_task : String → List Entry → Option Entry
find_task task_id [] = none
find_task task_id (e ∷ es) = if has_task_id task_id e then some e else find_task task_id es

module _ (commands : Commands) where
  open commands use {
    Server, set_nx, xadd, xadd_dlq, xreadgroup, xack, xdel, xdel_dlq, xrange, xrange_dlq, xlen,
    xlen_dlq, xpending,
  }

  abbrev unless_duplicate : Task → Server × Bool → Server
  unless_duplicate t (s, true) = xadd (some t) s
  unless_duplicate t (s, false) = s

  abbrev guarded : Task → Option String → Server → Server
  guarded t none s = xadd (some t) s
  guarded t (some key) s =
      if str_eq key "" then xadd (some t) s else unless_duplicate t (set_nx key s)

  unfoldable pub enqueue : Task → Server → Server
  enqueue t s = guarded t t.idempotency_key s

  -- The script of `rotateNotDue`.
  unfoldable pub rotate_not_due : Entry → Server → Server
  rotate_not_due e s = xadd e.task (xdel e.id (xack e.id s))

  -- An entry whose payload does not parse is returned as it is, delivered: there the code throws.
  abbrev pub read_next :
      ℕ → (Server → Server × Option Entry) → Bool → Server × Option Entry → Server × Option Entry
  read_next now again last (s, none) = (s, none)
  read_next now again last (s, some e) =
      if not_due now e
      then if last then (rotate_not_due e s, none) else again (rotate_not_due e s)
      else (s, some e)

  -- The loop with the rotations that are left before the cap.
  unfoldable pub dequeue_loop : ℕ → ℕ → Server → Server × Option Entry
  dequeue_loop now zero s = read_next now (λ u. (u, none)) true (xreadgroup s)
  dequeue_loop now (suc left) s = read_next now (dequeue_loop now left) false (xreadgroup s)

  unfoldable pub dequeue : ℕ → Server → Server × Option Entry
  dequeue now s = dequeue_loop now max_retry_rotations s

  unfoldable pub ack : ℕ → Server → Server
  ack id s = xack id s

  -- Both ways of `nack` take the entry out in this order.
  abbrev pub take_out : ℕ → Server → Server
  take_out id s = xdel id (xack id s)

  -- The Lua script on the task of the entry: it bumps the attempts first. The clock is in seconds.
  unfoldable pub nack_script : RedisQueueConfig → ℕ → ℕ → Task → Server → Server
  nack_script c seconds id t s =
      let bumped = record t { attempts = t.attempts + 1 } in
      if leb c.max_attempts bumped.attempts
      then take_out id (xadd_dlq (some bumped) s)
      else take_out id (
          xadd
            (some (record bumped { due_at = some (seconds * 1000 + delay_ms c bumped.attempts) }))
            s)

  -- The code for a server that refuses the script: it decides on the attempts before the bump.
  unfoldable pub nack_fallback : RedisQueueConfig → ℕ → ℕ → Task → Server → Server
  nack_fallback c now id t s =
      let bumped = bump t in
      if is_terminal_attempt t.attempts c.max_attempts
      then take_out id (xadd_dlq (some bumped) s)
      else take_out id
          (xadd (some (record bumped { due_at = some (now + delay_ms c bumped.attempts) })) s)

  abbrev pub on_task : (Task → Server → Server) → Option Entry → Server → Server
  on_task f none s = s
  on_task f (some e) s = elim e.task [ none ↦ s | some t ↦ f t s ]

  -- An entry that is not there, or has no task, is left.
  unfoldable pub nack : RedisQueueConfig → ℕ → ℕ → Server → Server
  nack c seconds id s = on_task (nack_script c seconds id) (xrange id s) s

  -- One message that XAUTOCLAIM hands to `reclaimOrphaned`.
  unfoldable pub reclaim_message : RedisQueueConfig → Entry → Server → Server
  reclaim_message c e s = elim e.task [
    | none ↦ xack e.id (xdel e.id (xadd_dlq none s))
    | some t ↦
        if is_terminal_attempt t.attempts c.max_attempts
        then xack e.id (xdel e.id (xadd_dlq (some t) s))
        else xack e.id (xdel e.id (xadd (some (bump t)) s))
  ]

  unfoldable pub reclaim_messages : RedisQueueConfig → List Entry → Server → Server
  reclaim_messages c [] s = s
  reclaim_messages c (e ∷ es) s = reclaim_messages c es (reclaim_message c e s)

  abbrev pub size : Server → ℕ
  size s = xlen s

  abbrev pub pending_count : Server → ℕ
  pending_count s = xlen s - xpending s

  abbrev pub dead_letter_size : Server → ℕ
  dead_letter_size s = xlen_dlq s

  abbrev retry_found : Option Entry → Server → Server × Bool
  retry_found none s = (s, false)
  retry_found (some e) s = elim e.task [
    | none ↦ (s, false)
    | some t ↦ (xdel_dlq e.id (xadd (some (record t { attempts = 0 })) s), true)
  ]

  -- The scan of the dead-letter stream stops at 1000 entries, which `xrange_dlq` returns.
  unfoldable pub dead_letter_retry : String → Server → Server × Bool
  dead_letter_retry task_id s = retry_found (find_task task_id (xrange_dlq s)) s
