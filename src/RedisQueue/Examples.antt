-- ===== src/RedisQueue/Examples.antt =====
-- The theorems on src/queue/redis.ts at a server in memory with two tasks.
use ai_model_arena.Common.{◌*◌, ◌≡◌, refl, none, some, [], ◌∷◌, arith}
use ai_model_arena.Common.Dict.{get}
use ai_model_arena.Queue.{Task, Queue, empty, nack}
use ai_model_arena.RedisQueue.{
  Entry, dequeue, ack, size, pending_count, RedisQueueConfig, nack_script, nack_fallback,
}
use ai_model_arena.RedisQueue.Dequeue.{Delivers, dequeue-Delivers}
use ai_model_arena.RedisQueue.Depth.{pending_count-ack}
use ai_model_arena.RedisQueue.Contract.{
  IsNacked, IsTakenOut, waiting, dead, memory_config, waiting_in_memory, dead_in_memory,
  nack-IsNacked, memory_nack-IsNacked,
}
use ai_model_arena.RedisQueue.Server.{Memory, memory_commands, memory_redis, start}

abbrev first : Task
first = record {
  task_id = "a";
  attempts = 0;
  due_at = none;
  idempotency_key = none;
  body = record {
    session_id = "s";
    prompt_id = none;
    prompt_version = none;
    provider = "openai";
    model = "gpt-4o";
    scenario = "todo";
    config = [];
    enqueued_at = "2026-01-01T00:00:00.000Z";
  };
}

-- A task that waits for its retry.
abbrev delayed : Task
delayed = record first { task_id = "b"; attempts = 1; due_at = some 9000 }

abbrev early : Entry
early = record { id = 1; task = some delayed }

abbrev due : Entry
due = record { id = 2; task = some first }

abbrev two : Memory
two = record start {
  last = 2;
  waits = early ∷ due ∷ [];
  len = 2;
  ordered = (omega arith, (omega arith, omega arith));
}

abbrev one : Memory
one = record start {
  cursor = 1;
  last = 2;
  waits = due ∷ [];
  len = 2;
  ordered = (omega arith, omega arith);
}

dequeue-Delivers_example :
    Delivers memory_redis (dequeue memory_commands 5000 two) due (early ∷ []) []
dequeue-Delivers_example =
    dequeue-Delivers memory_redis 5000 two (early ∷ []) due [] refl (refl, tt) refl (omega arith)

pending_count-ack_test :
    (memory_redis.undelivered (ack memory_commands 2 (dequeue memory_commands 5000 one).0) ≡ [])
    × (memory_redis.pel (ack memory_commands 2 (dequeue memory_commands 5000 one).0) ≡ [])
    × (size memory_commands (ack memory_commands 2 (dequeue memory_commands 5000 one).0) ≡ 2)
    × (pending_count memory_commands (ack memory_commands 2 (dequeue memory_commands 5000 one).0)
        ≡ 2)
pending_count-ack_test = pending_count-ack memory_redis 5000 one due [] refl refl

abbrev config : RedisQueueConfig
config = record { max_attempts = 3; retry_backoff_ms = 1000 }

nack-IsNacked_example :
    (IsNacked config
        (5 * 1000)
        delayed
        (waiting memory_redis one)
        (dead memory_redis one)
        (waiting memory_redis (nack_script memory_commands config 5 1 delayed one))
        (dead memory_redis (nack_script memory_commands config 5 1 delayed one))
      × IsTakenOut memory_redis 1 one (nack_script memory_commands config 5 1 delayed one))
    × (IsNacked config 5100 delayed
          (waiting memory_redis one)
          (dead memory_redis one)
          (waiting memory_redis (nack_fallback memory_commands config 5100 1 delayed one))
          (dead memory_redis (nack_fallback memory_commands config 5100 1 delayed one))
        × IsTakenOut memory_redis 1 one (nack_fallback memory_commands config 5100 1 delayed one))
nack-IsNacked_example = nack-IsNacked memory_redis config 5 5100 1 delayed one (refl, omega arith)

abbrev flying : Queue
flying = record empty { in_flight = ("b", delayed) ∷ [] }

memory_nack-IsNacked_example :
    IsNacked memory_config 5000 delayed
      (waiting_in_memory flying)
      (dead_in_memory flying)
      (waiting_in_memory (nack 5000 "b" flying))
      (dead_in_memory (nack 5000 "b" flying))
memory_nack-IsNacked_example =
    memory_nack-IsNacked 5000 "b" delayed flying refl (unfold get in refl)
