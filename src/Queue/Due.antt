-- ===== src/Queue/Due.antt =====
-- Which task `findDue` of src/queue/in-memory.ts takes, and what a dequeue delivers.
use ai_model_arena.Common.{
  ℕ, ◌≡◌, refl, ap, ◌⊎◌, inl, inr, true, false, Option, none, some, List, [], ◌∷◌, ◌++◌,
  if◌then◌else◌, arith, All, Bool-cases, Option-cases,
}
use ai_model_arena.Common.Dict.{get, get-put_self}
use ai_model_arena.Queue.{
  Task, Queue, is_due, keep_front, find_due, check_out, dequeue, delivered, waiting, serve, Waiter,
  notify_next,
}

abbrev pub NotDue : ℕ → Task → Type 0
NotDue now t = is_due now t ≡ false

-- `t` is the first due task of `ts`, and `rest` is `ts` without it.
pub record FirstDue (now : ℕ) (ts : List Task) (t : Task) (rest : List Task) : Type 0 where
  pub before : List Task
  pub after : List Task
  pub split : ts ≡ before ++ t ∷ after
  pub left : rest ≡ before ++ after
  pub waiting_before : All (NotDue now) before
  pub due : is_due now t ≡ true

FirstDue-cons :
    {now : ℕ} {ts : List Task} {t : Task} {rest : List Task} (u : Task)
    → NotDue now u
    → FirstDue now ts t rest
    → FirstDue now (u ∷ ts) t (u ∷ rest)
FirstDue-cons u h f = record {
  before = u ∷ f.before;
  after = f.after;
  split = ap (◌∷◌ u) f.split;
  left = ap (◌∷◌ u) f.left;
  waiting_before = (h, f.waiting_before);
  due = f.due;
}

pub keep_front-inv :
    (u : Task) (o : Option (Task × List Task)) (t : Task) (rest : List Task)
    → keep_front u o ≡ some (t, rest)
    → (r : List Task) × (o ≡ some (t, r)) × (rest ≡ u ∷ r)
keep_front-inv u none t rest e = cc
keep_front-inv u (some (v, r)) t rest e = (r, ground arith, ground arith)

pub find_due-FirstDue :
    (now : ℕ) (ts : List Task) (t : Task) (rest : List Task)
    → find_due now ts ≡ some (t, rest)
    → FirstDue now ts t rest
unfolding find_due
find_due-FirstDue now [] t rest e = cc
find_due-FirstDue now (u ∷ ts) t rest e = elim (Bool-cases (is_due now u)) [
  | inl due ↦ record {
    before = [];
    after = ts;
    split = ground arith;
    left = ground arith;
    waiting_before = tt;
    due = ground arith;
  }
  | inr later ↦
      let (r, found, same) = keep_front-inv u (find_due now ts) t rest (ground arith) in
      rw same (FirstDue-cons u later (find_due-FirstDue now ts t r found))
]

-- Nothing is found exactly when no task is due.
pub find_due-none : (now : ℕ) (ts : List Task) → find_due now ts ≡ none → All (NotDue now) ts
unfolding find_due
find_due-none now [] e = tt
find_due-none now (u ∷ ts) e = ground (arith, find_due-none now ts)

-- A task put at the end of tasks that are not due is found exactly when it is due.
pub find_due-snoc :
    (now : ℕ) (ts : List Task) (t : Task)
    → find_due now ts ≡ none
    → find_due now (ts ++ t ∷ []) ≡ (if is_due now t then some (t, ts) else none)
unfolding find_due
find_due-snoc now [] t e = ground arith
find_due-snoc now (u ∷ ts) t e = ground (arith, find_due-snoc now ts t)

-- The queue after `notify_next` has given `t` to the waiter `w`.
abbrev pub handed : Waiter → List Waiter → Task → List Task → Queue → Queue
handed w ws t rest q =
    let out = check_out t rest q in
    record out { waiters = ws; resolved = q.resolved ++ (w.ticket, some t) ∷ [] }

-- No promise waits while a pending task is due.
abbrev pub IsServed : ℕ → Queue → Type 0
IsServed now q = (q.waiters ≡ []) ⊎ (find_due now q.pending ≡ none)

-- `notify_next` does nothing, or gives the first due task to the first waiter.
pub notify_next_cases {ℓ} :
    (P : Queue → Type ℓ) (now : ℕ) (q : Queue)
    → (IsServed now q → P q)
    → ((w : Waiter) (ws : List Waiter) (t : Task) (rest : List Task)
        → q.waiters ≡ w ∷ ws
        → find_due now q.pending ≡ some (t, rest)
        → P (handed w ws t rest q))
    → P (notify_next now q)
unfolding notify_next
notify_next_cases P now q idle give = go q.waiters (find_due now q.pending) refl refl
  where
    go :
        (l : List Waiter) (o : Option (Task × List Task))
        → q.waiters ≡ l
        → find_due now q.pending ≡ o
        → P (serve l o q)
    go [] o e f = idle (inl e)
    go (w ∷ ws) none e f = idle (inr f)
    go (w ∷ ws) (some (t, rest)) e f = give w ws t rest e f

pub notify_next-none : (now : ℕ) (q : Queue) → find_due now q.pending ≡ none → notify_next now q ≡ q
notify_next-none now q none_due =
    notify_next_cases (λ r. r ≡ q) now q (λ _. refl) (λ w ws t rest e f. cc)

-- A dequeue that finds a due task delivers the first one: it leaves the others in order and records
-- the task as in flight. Otherwise it hands out a ticket, and no task was due.
pub dequeue-FirstDue :
    (now timeout_ms : ℕ) (q : Queue)
    → ((t : Task) × ((dequeue now timeout_ms q).1 ≡ delivered t)
        × FirstDue now q.pending t (dequeue now timeout_ms q).0.pending
        × (get t.task_id (dequeue now timeout_ms q).0.in_flight ≡ some t))
      ⊎ (((dequeue now timeout_ms q).1 ≡ waiting q.next_ticket)
          × All (NotDue now) q.pending
          × ((dequeue now timeout_ms q).0.pending ≡ q.pending))
unfolding dequeue
dequeue-FirstDue now timeout_ms q = elim (Option-cases (find_due now q.pending)) [
  | inl e ↦
      rw (e, dequeue)
        (inr (refl, find_due-none now q.pending e, ap (λ r. r.pending) (notify_next-none now _ e)))
  | inr ((t, rest), e) ↦
      rw (e, dequeue)
        (inl
          (t, refl, find_due-FirstDue now q.pending t rest e, get-put_self t.task_id t q.in_flight))
]
