-- ===== src/RedisQueue/Dequeue.antt =====
-- The rotations of `dequeue` in src/queue/redis.ts.
use ai_model_arena.Common.{
  ℕ, zero, suc, ◌≤◌, ◌≡◌, refl, sym, ap, ◌∙◌, Bool, true, false, Option, none, some, List, [], ◌∷◌,
  ◌++◌, append-nil, append_assoc, map, length, All, arith,
}
use ai_model_arena.Queue.{Task}
use ai_model_arena.RedisQueue.{
  Entry, remove_entry, rotate_not_due, not_due, read_next, dequeue_loop, dequeue,
  max_retry_rotations,
}
use ai_model_arena.RedisQueue.Laws.{Redis}

-- The tasks of some entries, whatever their ids.
abbrev pub tasks : List Entry → List (Option Task)
tasks es = map (λ e. e.task) es

pub tasks-append : (xs ys : List Entry) → tasks (xs ++ ys) ≡ tasks xs ++ tasks ys
tasks-append [] ys = refl
tasks-append (x ∷ xs) ys = ap (λ ts. x.task ∷ ts) (tasks-append xs ys)

module _ (redis : Redis) where
  open redis use {
    commands, undelivered, undelivered-xadd, undelivered-xack, undelivered-xdel, xreadgroup-nil,
    xreadgroup-cons, unique_undelivered,
  }
  open commands use {Server, xreadgroup, xack, xdel}

  -- A rotation moves the entry behind the undelivered ones, with a new id.
  rotated :
      (e : Entry) (s : Server) (es : List Entry)
      → undelivered s ≡ es
      → remove_entry e.id es ≡ es
      → (id : ℕ) × (undelivered (rotate_not_due commands e s)
          ≡ es ++ (record { id = id; task = e.task }) ∷ [])
  unfolding rotate_not_due
  rotated e s es h fresh =
      let (id, newer, added) = undelivered-xadd e.task (xdel e.id (xack e.id s)) in
      (
        id,
        added
            ∙ ap (λ xs. xs ++ (record { id = id; task = e.task }) ∷ [])
                (undelivered-xdel e.id (xack e.id s)
                  ∙ ap (remove_entry e.id) (undelivered-xack e.id s ∙ h)
                  ∙ fresh),
      )

  read-rotated :
      (now : ℕ) (s : Server) (e : Entry) (es : List Entry)
      → undelivered s ≡ e ∷ es
      → (id : ℕ) × (undelivered (rotate_not_due commands e (xreadgroup s).0)
          ≡ es ++ (record { id = id; task = e.task }) ∷ [])
  read-rotated now s e es h =
      let read = xreadgroup-cons s e es h in
      rotated e (xreadgroup s).0 es read.1 (unique_undelivered s e es h)

  read-due :
      (now : ℕ) (again : Server → Server × Option Entry) (last : Bool) (e : Entry)
      (p : Server × Option Entry)
      → p.1 ≡ some e
      → not_due now e ≡ false
      → read_next commands now again last p ≡ (p.0, some e)
  read-due now again last e (s, none) h due = cc
  read-due now again last e (s, some x) h due =
      let same : x ≡ e = ground arith in rw (same, due) refl

  read-later :
      (now : ℕ) (again : Server → Server × Option Entry) (e : Entry) (p : Server × Option Entry)
      → p.1 ≡ some e
      → not_due now e ≡ true
      → read_next commands now again false p ≡ again (rotate_not_due commands e p.0)
  read-later now again e (s, none) h wait = cc
  read-later now again e (s, some x) h wait =
      let same : x ≡ e = ground arith in rw (same, wait) refl

  -- What a call delivers, and what it leaves undelivered.
  abbrev pub Delivers : Server × Option Entry → Entry → List Entry → List Entry → Type 0
  Delivers r e early late = (r.1 ≡ some e) × (tasks (undelivered r.0) ≡ tasks late ++ tasks early)

  read-Delivers :
      (now : ℕ) (again : Server → Server × Option Entry) (last : Bool) (s : Server) (e : Entry)
      (late : List Entry)
      → undelivered s ≡ e ∷ late
      → not_due now e ≡ false
      → Delivers (read_next commands now again last (xreadgroup s)) e [] late
  read-Delivers now again last s e late h due =
      let read = xreadgroup-cons s e late h in
      rw (read-due now again last e (xreadgroup s) read.0 due)
        (refl, ap tasks read.1 ∙ sym (append-nil (tasks late)))

  loop-Delivers :
      (now left : ℕ) (s : Server) (early : List Entry) (e : Entry) (late : List Entry)
      → undelivered s ≡ early ++ e ∷ late
      → All (λ x. not_due now x ≡ true) early
      → not_due now e ≡ false
      → length early ≤ left
      → Delivers (dequeue_loop commands now left s) e early late
  unfolding dequeue_loop
  loop-Delivers now zero s [] e late h waits due fits =
      read-Delivers now (λ u. (u, none)) true s e late h due
  loop-Delivers now zero s (x ∷ early) e late h waits due fits = ground arith
  loop-Delivers now (suc left) s [] e late h waits due fits =
      read-Delivers now (dequeue_loop commands now left) false s e late h due
  loop-Delivers now (suc left) s (x ∷ early) e late h waits due fits =
      let read = xreadgroup-cons s x (early ++ e ∷ late) h in
      let (id, moved) = read-rotated now s x (early ++ e ∷ late) h in
      let back : Entry = record { id = id; task = x.task } in
      let rest =
        loop-Delivers now left (rotate_not_due commands x (xreadgroup s).0) early e
          (late ++ back ∷ []) (moved ∙ append_assoc early (e ∷ late) (back ∷ [])) waits.1 due
          (omega arith) in
      rw (read-later now (dequeue_loop commands now left) x (xreadgroup s) read.0 waits.0) (
        rest.0,
        rest.1
            ∙ ap (λ ts. ts ++ tasks early) (tasks-append late (back ∷ []))
            ∙ append_assoc (tasks late) (x.task ∷ []) (tasks early),
      )

  -- If at most eight entries stand before the first due one, a call delivers the due one. The entries
  -- before it are behind the others afterwards, in their order: no task is lost.
  pub dequeue-Delivers :
      (now : ℕ) (s : Server) (early : List Entry) (e : Entry) (late : List Entry)
      → undelivered s ≡ early ++ e ∷ late
      → All (λ x. not_due now x ≡ true) early
      → not_due now e ≡ false
      → length early ≤ max_retry_rotations
      → Delivers (dequeue commands now s) e early late
  unfolding dequeue
  dequeue-Delivers now s early e late h waits due fits =
      loop-Delivers now max_retry_rotations s early e late h waits due fits

  -- A due entry at the front is delivered by the first read.
  pub dequeue-front :
      (now : ℕ) (s : Server) (e : Entry) (es : List Entry)
      → undelivered s ≡ e ∷ es
      → not_due now e ≡ false
      → dequeue commands now s ≡ ((xreadgroup s).0, some e)
  unfolding dequeue dequeue_loop
  dequeue-front now s e es h due =
      read-due now (dequeue_loop commands now 7) false e (xreadgroup s) (xreadgroup-cons s e es h).0
        due
