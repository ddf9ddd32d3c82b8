-- ===== src/StartRun/Failed.antt =====
-- A start that fails takes its reservations back: src/orchestrator/run-lifecycle.ts with
-- src/cost-tracking/budget.ts.
use ai_model_arena.Common.{
  ℕ, ◌+◌, ◌≤◌, ◌≡◌, refl, ◌⊎◌, inl, inr, Bool, true, false, Option, none, some, String, str_eq,
  eq_refl, eq_iff, List, [], ◌∷◌, ◌++◌, arith, Bool-cases, All, All-append, if◌then◌else◌,
}
use ai_model_arena.Ledger.{Now, BudgetState, is_safe_model}
use ai_model_arena.Budget.{
  BudgetConfig, Period, ok, blocked, daily, monthly, counts, entries_of, today_reserved_total,
  reservation, push_reservation, reserve_budget, check_budget, record_run_reservations,
}
use ai_model_arena.Budget.Reserve.{
  reserve_cases, entries_of-push_reservation, today_reserved_total-push, counts-reservation,
}
use ai_model_arena.Queue.{Body, Task, Queue}
use ai_model_arena.StartRun.{
  Arena, Reservations, reserve_models, release_all, enqueue_all, tasks_sent, spec_made, started,
  create_queue, names, start_run,
}
use ai_model_arena.StartRun.Refund.{
  IsHeld, NoneExpired, copies, sum_for, count_fits, copies-append, sum_for-append,
  count_fits-append, count_fits-one, release_all-total,
}

-- The reservations `made` stand in `s`, and raised the totals of `s0` by their amounts.
pub record IsMade (now : Now) (s0 : BudgetState) (made : List (String × ℕ)) (s : BudgetState)
    : Type 0 where
  pub held : IsHeld now made s
  pub total :
      (k : String) → today_reserved_total now s k ≡ today_reserved_total now s0 k + sum_for k made

push-there :
    (now : Now) (model k : String) (a b : ℕ) (made : List (String × ℕ)) (s : BudgetState)
    → copies k b made ≤ count_fits now b (entries_of k s)
    → copies k b (made ++ (model, a) ∷ [])
      ≤ count_fits now b (entries_of k (push_reservation now model a s))
push-there now model k a b made s h =
    rw (entries_of-push_reservation now model k a s) (elim (Bool-cases (str_eq model k)) [
      | inl hit ↦
          let same : model ≡ k = ground (arith, eq_iff model k, hit) in
          rw (same, eq_refl k)
            (ground (
              arith,
              h,
              eq_refl k,
              same,
              copies-append k b made ((model, a) ∷ []),
              count_fits-append now b (entries_of k s) (reservation now a ∷ []),
              count_fits-one now b a,
            ))
      | inr miss ↦ rw miss (ground (arith, h, miss, copies-append k b made ((model, a) ∷ [])))
    ])

push-live :
    (now : Now) (model k : String) (a : ℕ) (s : BudgetState)
    → ((j : String) → NoneExpired now (entries_of j s))
    → NoneExpired now (entries_of k (push_reservation now model a s))
push-live now model k a s live =
    rw (entries_of-push_reservation now model k a s) (elim (Bool-cases (str_eq model k)) [
      | inl hit ↦ rw hit (
          All-append (λ r. str_eq r.daily_key now.day ≡ true → counts now r ≡ true)
            (entries_of model s) _ (live model) ((λ _. counts-reservation now a), tt))
      | inr miss ↦ rw miss (live k)
    ])

push-total :
    (now : Now) (model k : String) (a : ℕ) (s : BudgetState)
    → today_reserved_total now (push_reservation now model a s) k
      ≡ today_reserved_total now s k + (if str_eq model k then a else 0)
push-total now model k a s = elim (Bool-cases (str_eq model k)) [
  | inl hit ↦
      let same : model ≡ k = ground (arith, eq_iff model k, hit) in
      rw (← same, eq_refl model) (today_reserved_total-push now model a s)
  | inr miss ↦ rw (entries_of-push_reservation now model k a s, miss) (omega arith)
]

push-IsMade :
    (now : Now) (s0 s : BudgetState) (made : List (String × ℕ)) (model : String) (a : ℕ)
    → is_safe_model model ≡ true
    → IsMade now s0 made s
    → IsMade now s0 (made ++ (model, a) ∷ []) (push_reservation now model a s)
push-IsMade now s0 s made model a safe m = record {
  held = record {
    safe = All-append (λ r. is_safe_model r.0 ≡ true) made _ m.held.safe (safe, tt);
    there = λ k b. push-there now model k a b made s (m.held.there k b);
    live = λ k. push-live now model k a s m.held.live;
  };
  total = λ k.
      omega (arith, push-total now model k a s, m.total k, sum_for-append k made ((model, a) ∷ []));
}

reserve-shape :
    (c : BudgetConfig) (now : Now) (model : String) (a : ℕ) (s : BudgetState)
    → is_safe_model model ≡ true
    → (reserve_budget c now model a s ≡ (push_reservation now model a s, ok))
      ⊎ ((period : Period) × (reserve_budget c now model a s ≡ (s, blocked period)))
reserve-shape c now model a s safe =
    reserve_cases
      (λ p.
        (p ≡ (push_reservation now model a s, ok))
        ⊎ ((period : Period) × (p ≡ (s, blocked period))))
      c now model a s safe (λ d. inr (daily, refl)) (λ m. inr (monthly, refl)) (λ d m. inl refl)

reserve_models-IsMade :
    (c : BudgetConfig) (now : Now) (force : Bool) (s0 : BudgetState) (ms made : List (String × ℕ))
    (s : BudgetState)
    → All (λ r. is_safe_model r.0 ≡ true) ms
    → IsMade now s0 made s
    → IsMade now s0
        (reserve_models c now force ms made s).made
        (reserve_models c now force ms made s).state
unfolding reserve_models
reserve_models-IsMade c now force s0 [] made s safe m = m
reserve_models-IsMade c now force s0 ((model, a) ∷ ms) made s safe m =
    elim (Bool-cases (check_budget c now model force 0 s).allowed) [
      | inl allowed ↦ elim (reserve-shape c now model a s safe.0) [
        | inl pushed ↦
            rw (allowed, pushed, pushed)
              (reserve_models-IsMade c now force s0 ms (made ++ (model, a) ∷ [])
                (push_reservation now model a s) safe.1
                (push-IsMade now s0 s made model a safe.0 m))
        | inr (period, refused) ↦ rw (allowed, refused, refused) m
      ]
      | inr refused ↦ rw refused m
    ]

nothing-IsMade :
    (now : Now) (s : BudgetState)
    → ((k : String) → NoneExpired now (entries_of k s))
    → IsMade now s [] s
nothing-IsMade now s live = record {
  held = record { safe = tt; there = λ k b. omega arith; live = live };
  total = λ k. omega arith;
}

-- Writing the record of a run's reservations leaves the entries.
recorded-IsMade :
    (now : Now) (s0 s : BudgetState) (made : List (String × ℕ)) (run_id : String)
    → IsMade now s0 made s
    → IsMade now s0 made (record_run_reservations run_id made s)
unfolding record_run_reservations
recorded-IsMade now s0 s made run_id m = record {
  held = record { safe = m.held.safe; there = m.held.there; live = m.held.live };
  total = m.total;
}

caught-total :
    (now : Now) (s0 s : BudgetState) (made : List (String × ℕ)) (k : String)
    → IsMade now s0 made s
    → today_reserved_total now (release_all now made s) k ≡ today_reserved_total now s0 k
caught-total now s0 s made k m = omega (arith, m.total k, release_all-total now k made s m.held)

tasks_sent-total :
    (now : Now) (run_id k : String) (made : List (String × ℕ)) (sent : Queue × Bool) (a : Arena)
    (s0 : BudgetState)
    → IsMade now s0 made a.budget
    → (tasks_sent now run_id made sent a).1 ≡ none
    → today_reserved_total now (tasks_sent now run_id made sent a).0.budget k
      ≡ today_reserved_total now s0 k
tasks_sent-total now run_id k made (q, true) a s0 m failed = cc
tasks_sent-total now run_id k made (q, false) a s0 m failed = caught-total now s0 a.budget made k m

spec_made-total :
    (now : Now) (spec : Option String) (room : Option ℕ) (tasks : String → List Task)
    (models : List String) (made : List (String × ℕ)) (a : Arena) (s0 : BudgetState) (k : String)
    → IsMade now s0 made a.budget
    → (spec_made now spec room tasks models made a).1 ≡ none
    → today_reserved_total now (spec_made now spec room tasks models made a).0.budget k
      ≡ today_reserved_total now s0 k
spec_made-total now none room tasks models made a s0 k m failed =
    caught-total now s0 a.budget made k m
spec_made-total now (some run_id) room tasks models made a s0 k m failed =
    tasks_sent-total now run_id k made (enqueue_all now.ms room (tasks run_id) create_queue) _ s0
      (recorded-IsMade now s0 a.budget made run_id m) failed

started-total :
    (now : Now) (spec : Option String) (room : Option ℕ) (tasks : String → List Task)
    (models : List String) (r : Reservations) (a : Arena) (s0 : BudgetState) (k : String)
    → IsMade now s0 r.made r.state
    → (started now spec room tasks models r a).1 ≡ none
    → today_reserved_total now (started now spec room tasks models r a).0.budget k
      ≡ today_reserved_total now s0 k
started-total now spec room tasks models r a s0 k m = elim (Bool-cases r.granted) [
  | inl granted ↦ rw granted (λ failed.
      spec_made-total now spec room tasks models r.made (record a { budget = r.state }) s0 k m
        failed)
  | inr refused ↦ rw refused (λ failed. caught-total now s0 r.state r.made k m)
]

-- If a start throws, whether a model is over its budget, the paths cannot be made or the queue fails
-- after some tasks, then each model's reserved total of the day is what it was before the call. The
-- models are safe names, and no entry of the day has expired.
pub start_run-refunds :
    (digest : String → String) (c : BudgetConfig) (now : Now) (force : Bool) (spec : Option String)
    (room : Option ℕ) (body : String → Body) (scenario : String) (models : List (String × ℕ))
    (a : Arena) (k : String)
    → All (λ r. is_safe_model r.0 ≡ true) models
    → ((j : String) → NoneExpired now (entries_of j a.budget))
    → (start_run digest c now force spec room body scenario models a).1 ≡ none
    → today_reserved_total now
        (start_run digest c now force spec room body scenario models a).0.budget
        k
      ≡ today_reserved_total now a.budget k
unfolding start_run
start_run-refunds digest c now force spec room body scenario models a k safe live =
    started-total now spec room _ (names models) (reserve_models c now force models [] a.budget) a
      a.budget k
      (reserve_models-IsMade c now force a.budget models [] a.budget safe
        (nothing-IsMade now a.budget live))
