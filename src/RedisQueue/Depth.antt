-- ===== src/RedisQueue/Depth.antt =====
-- The counts that src/queue/redis.ts reports.
use ai_model_arena.Common.{ℕ, ◌≡◌, refl, sym, ap, ◌∙◌, false, List, ◌∷◌, length}
use ai_model_arena.RedisQueue.{Entry, remove_entry, not_due, dequeue, ack, size, pending_count}
use ai_model_arena.RedisQueue.Laws.{Redis}
use ai_model_arena.RedisQueue.Dequeue.{dequeue-front}

module _ (redis : Redis) where
  open redis use {
    commands, undelivered, undelivered-xack, pel, pel-xack, xpending_lem, xlen-xack,
    xreadgroup-cons, unique_pel,
  }
  open commands use {Server, xreadgroup, xack, xlen, xpending}

  -- A task that is delivered and acknowledged is no longer waiting nor in flight, but both counts go on
  -- counting it: an acknowledgement does not delete the entry.
  pub pending_count-ack :
      (now : ℕ) (s : Server) (e : Entry) (es : List Entry)
      → undelivered s ≡ e ∷ es
      → not_due now e ≡ false
      → let done = ack commands e.id (dequeue commands now s).0 in
        (undelivered done ≡ es)
        × (pel done ≡ pel s)
        × (size commands done ≡ size commands s)
        × (pending_count commands done ≡ pending_count commands s)
  unfolding ack
  pending_count-ack now s e es h due =
      let read = xreadgroup-cons s e es h in
      let taken = (xreadgroup s).0 in
      let waiting : undelivered (xack e.id taken) ≡ es = undelivered-xack e.id taken ∙ read.1 in
      let held : pel (xack e.id taken) ≡ pel s =
        pel-xack e.id taken ∙ ap (remove_entry e.id) read.2 ∙ unique_pel s e es h in
      let counted : xlen (xack e.id taken) ≡ xlen s = xlen-xack e.id taken ∙ read.4 in
      let open_ : xpending (xack e.id taken) ≡ xpending s =
        xpending_lem (xack e.id taken) ∙ ap length held ∙ sym (xpending_lem s) in
      rw (dequeue-front redis now s e es h due) (waiting, held, counted, rw (counted, open_) refl)
