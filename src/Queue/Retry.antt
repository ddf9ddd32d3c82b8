-- ===== src/Queue/Retry.antt =====
-- What `nack` of src/queue/in-memory.ts does with a task: the delay of a retry, the dead-letter list,
-- and who is told of it.
use ai_model_arena.Common.{
  ℕ, suc, ◌+◌, ◌*◌, ◌≤◌, ◌<◌, min, ◌≡◌, ◌≢◌, refl, sym, ap, ◌∙◌, true, Option, none, some, inl, inr,
  ◌⊎◌, List, [], ◌∷◌, ◌++◌, arith, String, two_pow_pos, two_pow_suc, suc-sub-one,
}
use native.Mathlib.Numerals.{add-one}
use ai_model_arena.Common.Dict.{get}
use ai_model_arena.Queue.{
  Task, Waiter, Queue, default_max_attempts, is_terminal_attempt, find_due, is_due, notify_next,
  backoff_ms, bump, postpone, push_back, nack,
}
use ai_model_arena.Queue.Due.{NotDue, IsServed, notify_next_cases, notify_next-none}
use ai_model_arena.Queue.Cases.{nack_at, released}

-- The delay starts at two seconds and is at most five minutes.
backoff_bounds :
    (attempts : ℕ) → (2000 ≤ backoff_ms (suc attempts)) × (backoff_ms (suc attempts) ≤ 300_000)
unfolding backoff_ms
backoff_bounds attempts = rw suc-sub-one (omega (arith, two_pow_pos attempts))

-- The delay of a retry doubles with each attempt, from the first one on, until it reaches five
-- minutes.
pub backoff_doubles :
    (attempts : ℕ) → backoff_ms (suc (suc attempts)) ≡ min (2 * backoff_ms (suc attempts)) 300_000
unfolding backoff_ms
backoff_doubles attempts =
    rw (suc-sub-one (suc attempts), suc-sub-one attempts) (omega (arith, two_pow_suc attempts))

-- A retried task is not due before its delay is over, and due from then on.
postpone-is_due :
    (now later : ℕ) (t : Task)
    → (later < now + backoff_ms t.attempts → NotDue later (postpone now t))
      × (now + backoff_ms t.attempts ≤ later → is_due later (postpone now t) ≡ true)
postpone-is_due now later t = (λ h. ground arith, λ h. ground arith)

postpone-NotDue_now : (now : ℕ) (t : Task) → NotDue now (postpone now (bump t))
postpone-NotDue_now now t =
    (postpone-is_due now now (bump t)).0 (rw add-one (omega (arith, (backoff_bounds t.attempts).0)))

abbrev snoc_rest : Task → Option (Task × List Task) → Option (Task × List Task)
snoc_rest p none = none
snoc_rest p (some (t, rest)) = some (t, rest ++ p ∷ [])

find_due-snoc-NotDue :
    (now : ℕ) (ts : List Task) (t : Task)
    → NotDue now t
    → find_due now (ts ++ t ∷ []) ≡ snoc_rest t (find_due now ts)
unfolding find_due
find_due-snoc-NotDue now [] t h = ground arith
find_due-snoc-NotDue now (u ∷ ts) t h = ground (arith, find_due-snoc-NotDue now ts t h)

find_due-ne-none :
    (now : ℕ) (ts : List Task) (t : Task) → is_due now t ≡ true → find_due now (ts ++ t ∷ []) ≢ none
unfolding find_due
find_due-ne-none now [] t h = ground arith
find_due-ne-none now (u ∷ ts) t h = ground (arith, find_due-ne-none now ts t h)

-- The pending list ends in `p`.
abbrev pub EndsIn : Task → List Task → Type 0
EndsIn p ts = (front : List Task) × (ts ≡ front ++ p ∷ [])

EndsIn-rest :
    (p : Task) (o : Option (Task × List Task)) (t : Task) (rest : List Task)
    → snoc_rest p o ≡ some (t, rest)
    → EndsIn p rest
EndsIn-rest p none t rest e = cc
EndsIn-rest p (some (u, front)) t rest e = (front, ground arith)

notify_next-EndsIn :
    (now : ℕ) (q : Queue) (p : Task) (front : List Task)
    → q.pending ≡ front ++ p ∷ []
    → NotDue now p
    → EndsIn p (notify_next now q).pending
notify_next-EndsIn now q p front e h =
    notify_next_cases (λ r. EndsIn p r.pending) now q (λ _. (front, e))
      λ w ws t rest f g.
        EndsIn-rest p (find_due now front) t rest
          (sym (find_due-snoc-NotDue now front p h) ∙ ap (find_due now) (sym e) ∙ g)

notify_next-dead : (now : ℕ) (q : Queue) → (notify_next now q).dead ≡ q.dead
notify_next-dead now q =
    notify_next_cases (λ r. r.dead ≡ q.dead) now q (λ _. refl) (λ w ws t rest e f. refl)

-- A nack of a task in flight counts the attempt. If that was the last one, the task joins the dead
-- tasks and the pending ones stay; otherwise the dead tasks stay, and the task is put off by the
-- delay and stands last among the pending ones.
pub nack_outcome :
    (now : ℕ) (id : String) (q : Queue) (t : Task)
    → get id q.in_flight ≡ some t
    → ((default_max_attempts ≤ t.attempts + 1)
        × ((nack now id q).dead ≡ q.dead ++ bump t ∷ [])
        × ((nack now id q).pending ≡ q.pending))
      ⊎ ((t.attempts + 1 < default_max_attempts)
          × ((nack now id q).dead ≡ q.dead)
          × EndsIn (postpone now (bump t)) (nack now id q).pending)
unfolding is_terminal_attempt
nack_outcome now id q t found =
    nack_at
      (λ r.
        ((default_max_attempts ≤ t.attempts + 1)
          × (r.dead ≡ q.dead ++ bump t ∷ [])
          × (r.pending ≡ q.pending))
        ⊎ ((t.attempts + 1 < default_max_attempts)
            × (r.dead ≡ q.dead)
            × EndsIn (postpone now (bump t)) r.pending))
      now q id t found (λ last. inl (ground arith, refl, refl))
      (λ more. inr (
        ground arith,
        notify_next-dead now _,
        notify_next-EndsIn now _ (postpone now (bump t)) q.pending refl (postpone-NotDue_now now t),
      ))

-- The wake-up that a retry lacks: if a promise waits when a task in flight with attempts left is
-- nacked, and no pending task is due, then the promise waits on, also once the task is due.
pub nack_strands_waiter :
    (now later : ℕ) (id : String) (q : Queue) (t : Task) (w : Waiter) (ws : List Waiter)
    → get id q.in_flight ≡ some t
    → t.attempts + 1 < default_max_attempts
    → q.waiters ≡ w ∷ ws
    → find_due now q.pending ≡ none
    → now + backoff_ms (t.attempts + 1) ≤ later
    → ((nack now id q).waiters ≡ w ∷ ws) × ¬ IsServed later (nack now id q)
unfolding is_terminal_attempt
nack_strands_waiter now later id q t w ws found room waiters idle over =
    nack_at (λ r. (r.waiters ≡ w ∷ ws) × ¬ IsServed later r) now q id t found
      (λ last. absurd (ground arith))
      (λ more.
        let pushed = push_back (postpone now (bump t)) (released id q) in
        rw
          (notify_next-none now pushed
            (find_due-snoc-NotDue now q.pending _ (postpone-NotDue_now now t) ∙ rw idle))
          (
            waiters,
            λ s. elim s [
              | inl nobody ↦ cc
              | inr none_due ↦
                  find_due-ne-none later q.pending _ ((postpone-is_due now later (bump t)).1 over)
                    none_due
            ],
          ))
