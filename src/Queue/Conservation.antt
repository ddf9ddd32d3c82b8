-- ===== src/Queue/Conservation.antt =====
-- No operation of src/queue/in-memory.ts loses a task or makes one up.
use ai_model_arena.Common.{
  ℕ, ◌+◌, ◌≤◌, ◌≡◌, refl, sym, ap, ◌∙◌, some, List, [], ◌∷◌, if◌then◌else◌, arith, String, str_eq,
  eq_iff, eq_refl, Bool-cases, inl, inr,
}
use ai_model_arena.Common.Dict.{get, del}
use ai_model_arena.Queue.{
  Task, Queue, empty, find_due, find_dead, check_out, is_duplicate, admit, ack, notify_next, bump,
  bury, postpone, push_back, Op, enqueues, dequeues, expires, acks, nacks, retries, step,
}
use ai_model_arena.Queue.Due.{notify_next_cases}
use ai_model_arena.Queue.Cases.{
  enqueue_cases, dequeue_cases, expire_cases, nack_cases, retry_cases, released, revived,
}
use ai_model_arena.Queue.Tally.{
  one, tally, held, IsKeyed, tally-append, tally-find_due, tally-find_dead, held-put, held-del,
  held-of_get, get-IsKeyed, put-IsKeyed, del-IsKeyed,
}

-- How many places hold a task with the id `i`.
abbrev pub total : String → Queue → ℕ
total i q = tally i q.pending + held i q.in_flight + tally i q.dead

-- No task id stands in two places, and a task in flight stands under its own id.
pub record IsDistinct (q : Queue) : Type 0 where
  pub once : (i : String) → total i q ≤ 1
  pub keyed : IsKeyed q.in_flight

-- What an operation adds to the places of `i`: a task that is enqueued and no duplicate.
abbrev pub added : ℕ → String → Op → Queue → ℕ
added now i (enqueues t) q = if is_duplicate now t q.dedup_keys then 0 else one i t.task_id
added now i _ q = 0

-- What it takes away: the acknowledged task, if it is in flight.
abbrev pub removed : String → Op → Queue → ℕ
removed i (acks id) q = if str_eq id i then held i q.in_flight else 0
removed i _ q = 0

-- A task is enqueued under an id that no task in the queue has.
abbrev pub IsFresh : Op → Queue → Type 0
IsFresh (enqueues t) q = total t.task_id q ≡ 0
IsFresh _ q = Unit {0}

one_self : (i : String) → one i i ≡ 1
one_self i = rw (eq_refl i)

module _ (now : ℕ) (q : Queue) (once : (i : String) → total i q ≤ 1) where
  module _ (t : Task) (rest : List Task) (found : find_due now q.pending ≡ some (t, rest)) where
    check_out-free : held t.task_id q.in_flight ≡ 0
    check_out-free = omega (
      arith,
      once t.task_id,
      tally-find_due t.task_id now q.pending t rest found,
      one_self t.task_id,
    )

    check_out-total : (i : String) → total i (check_out t rest q) ≡ total i q
    check_out-total i = omega (
      arith,
      tally-find_due i now q.pending t rest found,
      held-put i t.task_id t q.in_flight check_out-free,
    )

  notify_next-total : (i : String) → total i (notify_next now q) ≡ total i q
  notify_next-total i =
      notify_next_cases (λ r. total i r ≡ total i q) now q (λ _. refl)
        λ w ws t rest e f. check_out-total t rest f i

-- The same for a queue that holds each id as often as one with distinct ids.
notify_next-total_of :
    (now : ℕ) (q r : Queue)
    → ((i : String) → total i q ≤ 1)
    → ((i : String) → total i r ≡ total i q)
    → (i : String) → total i (notify_next now r) ≡ total i q
notify_next-total_of now q r once same i =
    notify_next-total now r (λ j. omega (arith, same j, once j)) i ∙ same i

notify_next-IsKeyed :
    (now : ℕ) (q : Queue) → IsKeyed q.in_flight → IsKeyed (notify_next now q).in_flight
notify_next-IsKeyed now q k =
    notify_next_cases (λ r. IsKeyed r.in_flight) now q (λ _. k)
      λ w ws t rest e f. put-IsKeyed t q.in_flight k

-- The new task of an enqueue is counted once.
admit-total :
    (now : ℕ) (t : Task) (q : Queue) (i : String)
    → total i (admit now t q) ≡ total i q + one i t.task_id
admit-total now t q i = omega (arith, tally-append i q.pending (t ∷ []))

one-le : (i id : String) → one i id ≤ 1
one-le i id = ground arith

admit-once :
    (now : ℕ) (t : Task) (q : Queue) (i : String)
    → total i q ≤ 1
    → total t.task_id q ≡ 0
    → total i (admit now t q) ≤ 1
admit-once now t q i h fresh = elim (Bool-cases (str_eq t.task_id i)) [
  | inl same ↦
      let e = (eq_iff t.task_id i).0 same in
      let none_held : total i q ≡ 0 = ap (λ s. total s q) (sym e) ∙ fresh in
      omega (arith, admit-total now t q i, one-le i t.task_id)
  | inr other ↦ let apart : one i t.task_id ≡ 0 = rw other in omega (arith, admit-total now t q i)
]

-- Taking a task out of flight leaves the other entries alone.
module _ (q : Queue) (v : IsDistinct q) (id : String) (t : Task)
    (found : get id q.in_flight ≡ some t) where
  held-released : (i : String) → held i q.in_flight ≡ one i t.task_id + held i (del id q.in_flight)
  held-released i =
      let key = get-IsKeyed id q.in_flight t v.keyed found in
      ground (
        arith,
        key,
        held-of_get id q.in_flight t found,
        v.once id,
        held-del i id q.in_flight,
        eq_iff id i,
      )

  retried-total :
      (now : ℕ) (i : String)
      → total i (push_back (postpone now (bump t)) (released id q)) ≡ total i q
  retried-total now i =
      omega (arith, tally-append i q.pending (postpone now (bump t) ∷ []), held-released i)

  buried-total : (i : String) → total i (bury (bump t) (released id q)) ≡ total i q
  buried-total i = omega (arith, tally-append i q.dead (bump t ∷ []), held-released i)

revived-total :
    (q : Queue) (id : String) (t : Task) (rest : List Task)
    → find_dead id q.dead ≡ some (t, rest)
    → (i : String) → total i (revived t rest q) ≡ total i q
revived-total q id t rest found i = omega (arith, tally-find_dead i id q.dead t rest found)

-- From a queue with distinct ids, an operation that enqueues only fresh ids puts each id in as many
-- places as before, plus one for an enqueued task that is no duplicate, less an acknowledged one.
pub step-total :
    (now : ℕ) (op : Op) (q : Queue) (i : String)
    → IsDistinct q
    → IsFresh op q
    → total i (step now op q) + removed i op q ≡ total i q + added now i op q
unfolding step ack
step-total now (enqueues t) q i v fresh =
    enqueue_cases (λ r. total i r + 0 ≡ total i q + added now i (enqueues t) q) now q t
      (λ dup. rw dup refl)
      λ new. rw new (
        omega (
          arith,
          notify_next-total now (admit now t q) (λ j. admit-once now t q j (v.once j) fresh) i,
          admit-total now t q i,
        ))
step-total now (dequeues timeout_ms) q i v fresh =
    dequeue_cases (λ r. total i r + 0 ≡ total i q + 0) now q timeout_ms
      (λ t rest e. omega (arith, check_out-total now q v.once t rest e i)) (λ e. refl)
step-total now (expires ticket) q i v fresh =
    expire_cases (λ r. total i r + 0 ≡ total i q + 0) q ticket refl (λ rest e. refl)
step-total now (acks id) q i v fresh = ground (arith, held-del i id q.in_flight)
step-total now (nacks id) q i v fresh =
    nack_cases (λ r. total i r + 0 ≡ total i q + 0) now q id refl
      (λ t e f. omega (arith, buried-total q v id t e i))
      (λ t e f. omega (
        arith,
        notify_next-total_of now q (push_back (postpone now (bump t)) (released id q)) v.once
            (retried-total q v id t e now) i,
      ))
step-total now (retries id) q i v fresh =
    retry_cases (λ r. total i r + 0 ≡ total i q + 0) now q id refl
      (λ t rest e. omega (
        arith,
        notify_next-total_of now q (revived t rest q) v.once (revived-total q id t rest e) i,
      ))

step-IsKeyed :
    (now : ℕ) (op : Op) (q : Queue) → IsKeyed q.in_flight → IsKeyed (step now op q).in_flight
unfolding step ack
step-IsKeyed now (enqueues t) q k =
    enqueue_cases (λ r. IsKeyed r.in_flight) now q t (λ _. k)
      (λ _. notify_next-IsKeyed now (admit now t q) k)
step-IsKeyed now (dequeues timeout_ms) q k =
    dequeue_cases (λ r. IsKeyed r.in_flight) now q timeout_ms
      (λ t rest e. put-IsKeyed t q.in_flight k) (λ e. k)
step-IsKeyed now (expires ticket) q k =
    expire_cases (λ r. IsKeyed r.in_flight) q ticket k (λ rest e. k)
step-IsKeyed now (acks id) q k = del-IsKeyed id q.in_flight k
step-IsKeyed now (nacks id) q k =
    let kept = del-IsKeyed id q.in_flight k in
    nack_cases (λ r. IsKeyed r.in_flight) now q id k (λ t e f. kept)
      (λ t e f. notify_next-IsKeyed now _ kept)
step-IsKeyed now (retries id) q k =
    retry_cases (λ r. IsKeyed r.in_flight) now q id k (λ t rest e. notify_next-IsKeyed now _ k)

added-le :
    (now : ℕ) (op : Op) (q : Queue) (i : String)
    → IsFresh op q
    → total i q ≤ 1
    → total i q + added now i op q ≤ 1
added-le now (enqueues t) q i fresh h =
    ground (arith, admit-once now t q i h fresh, admit-total now t q i)
added-le now _ q i fresh h = omega arith

-- If no two of the places pending, in flight and dead of a queue hold a task of the same id and
-- an operation enqueues only a fresh id, the ids are distinct after the operation too: no task is
-- both in flight and pending, or both retried and dead.
pub step-IsDistinct :
    (now : ℕ) (op : Op) (q : Queue) → IsDistinct q → IsFresh op q → IsDistinct (step now op q)
step-IsDistinct now op q v fresh = record {
  once = λ i. omega (arith, step-total now op q i v fresh, added-le now op q i fresh (v.once i));
  keyed = step-IsKeyed now op q v.keyed;
}

pub empty-IsDistinct : IsDistinct empty
empty-IsDistinct = record { once = λ i. omega arith; keyed = tt }
