-- ===== src/RedisQueue/Laws.antt =====
-- What the documentation of Redis says of the commands that src/queue/redis.ts calls, in terms of the
-- entries that the group has not delivered, of its pending entries list and of the dead-letter stream.
use ai_model_arena.Common.{ℕ, ◌<◌, ◌≡◌, none, some, Option, List, [], ◌∷◌, ◌++◌, length}
use ai_model_arena.Queue.{Task}
use ai_model_arena.RedisQueue.{Commands, Entry, remove_entry}

-- A command that reads no more than this view changes nothing but what its law says.
pub record Redis : Type 1 where
  pub commands : Commands
  open commands use {Server, xadd, xadd_dlq, xreadgroup, xack, xdel, xrange, xlen, xpending}
  pub undelivered : Server → List Entry
  pub pel : Server → List Entry
  pub dlq : Server → List Entry
  -- `last-generated-id`: a new entry has a greater one.
  pub last_id : Server → ℕ
  -- An entry's id is its own: no other undelivered or pending entry has it.
  pub unique_undelivered :
      (s : Server) (e : Entry) (es : List Entry)
      → undelivered s ≡ e ∷ es
      → remove_entry e.id es ≡ es
  pub unique_pel :
      (s : Server) (e : Entry) (es : List Entry)
      → undelivered s ≡ e ∷ es
      → remove_entry e.id (pel s ++ e ∷ []) ≡ pel s
  pub xpending_lem : (s : Server) → xpending s ≡ length (pel s)
  pub undelivered-xadd :
      (t : Option Task) (s : Server)
      → (id : ℕ) × (last_id s < id)
        × (undelivered (xadd t s) ≡ undelivered s ++ (record { id = id; task = t }) ∷ [])
  pub pel-xadd : (t : Option Task) (s : Server) → pel (xadd t s) ≡ pel s
  pub dlq-xadd : (t : Option Task) (s : Server) → dlq (xadd t s) ≡ dlq s
  pub undelivered-xadd_dlq :
      (t : Option Task) (s : Server) → undelivered (xadd_dlq t s) ≡ undelivered s
  pub pel-xadd_dlq : (t : Option Task) (s : Server) → pel (xadd_dlq t s) ≡ pel s
  pub dlq-xadd_dlq :
      (t : Option Task) (s : Server)
      → (id : ℕ) × (dlq (xadd_dlq t s) ≡ dlq s ++ (record { id = id; task = t }) ∷ [])
  pub xreadgroup-nil : (s : Server) → undelivered s ≡ [] → xreadgroup s ≡ (s, none)
  pub xreadgroup-cons :
      (s : Server) (e : Entry) (es : List Entry)
      → undelivered s ≡ e ∷ es
      → (xreadgroup s).1 ≡ some e
        × undelivered (xreadgroup s).0 ≡ es
        × pel (xreadgroup s).0 ≡ pel s ++ e ∷ []
        × dlq (xreadgroup s).0 ≡ dlq s
        × xlen (xreadgroup s).0 ≡ xlen s
  pub undelivered-xack : (id : ℕ) (s : Server) → undelivered (xack id s) ≡ undelivered s
  pub pel-xack : (id : ℕ) (s : Server) → pel (xack id s) ≡ remove_entry id (pel s)
  pub dlq-xack : (id : ℕ) (s : Server) → dlq (xack id s) ≡ dlq s
  pub xlen-xack : (id : ℕ) (s : Server) → xlen (xack id s) ≡ xlen s
  pub undelivered-xdel :
      (id : ℕ) (s : Server) → undelivered (xdel id s) ≡ remove_entry id (undelivered s)
  pub pel-xdel : (id : ℕ) (s : Server) → pel (xdel id s) ≡ pel s
  -- A deleted entry is not in the stream any more.
  pub xrange-xdel : (id : ℕ) (s : Server) → xrange id (xdel id s) ≡ none
  pub dlq-xdel : (id : ℕ) (s : Server) → dlq (xdel id s) ≡ dlq s
