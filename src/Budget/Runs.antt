-- ===== src/Budget/Runs.antt =====
-- The reservations of a run, in src/cost-tracking/budget.ts.
use ai_model_arena.Common.{
  ℕ, ◌+◌, ◌≡◌, ◌≢◌, refl, ◌∙◌, inl, inr, true, false, none, String, str_eq, eq_iff, eq_refl, List,
  [], ◌∷◌, if◌then◌else◌, ltb, arith, Bool-cases, Option-cases,
}
use ai_model_arena.Common.Dict.{Dict, get, get_or, get-put, get-put_self, get-del_self}
use ai_model_arena.Ledger.{Now, BudgetState, no_spend, is_safe_model, add_to}
use ai_model_arena.Ledger.Balance.{
  IsBalanced, apply_spend-IsBalanced, apply_spend-get, day_spend, get_or-add_to,
}
use ai_model_arena.Budget.{
  entries_of, drop_fitting, drop_or_keep, remove_reservation_entry, spend_if_any, sum_estimates,
  record_run_reservations, release_entry, release_entries, release_run_reservations,
}

-- What the pairs of a list add up to for a model.
pub sum_for : String → List (String × ℕ) → ℕ
sum_for model [] = 0
sum_for model ((m, n) ∷ rest) = (if str_eq m model then n else 0) + sum_for model rest

sum_estimates-get :
    (model : String) (rs : List (String × ℕ)) (entry : Dict ℕ)
    → get_or model (sum_estimates rs entry) 0 ≡ get_or model entry 0 + sum_for model rs
unfolding sum_estimates sum_for
sum_estimates-get model [] entry = omega arith
sum_estimates-get model ((m, n) ∷ rs) entry =
    omega (arith, sum_estimates-get model rs (add_to m n entry), get_or-add_to model m n entry)

sum_estimates_from_empty :
    (model : String) (rs : List (String × ℕ))
    → get_or model (sum_estimates rs []) 0 ≡ sum_for model rs
unfolding get
sum_estimates_from_empty model rs = omega (arith, sum_estimates-get model rs [])

-- What is recorded for a run is, for each model, the sum of its estimates; other runs keep theirs.
pub record_run_reservations-get :
    (run_id other model : String) (rs : List (String × ℕ)) (s : BudgetState)
    → (get_or model (get_or run_id (record_run_reservations run_id rs s).run_reservations []) 0
        ≡ sum_for model rs)
      × (other ≢ run_id
          → get other (record_run_reservations run_id rs s).run_reservations
            ≡ get other s.run_reservations)
unfolding record_run_reservations
record_run_reservations-get run_id other model rs s = (
  rw (get-put_self run_id (sum_estimates rs []) s.run_reservations)
      (sum_estimates_from_empty model rs),
  λ apart.
      ground
        (arith, get-put other run_id (sum_estimates rs []) s.run_reservations, eq_iff run_id other),
)

-- Removing an entry changes the reservations only.
remove_entry-same :
    (now : Now) (model : String) (amount : ℕ) (s : BudgetState)
    → let s' = (remove_reservation_entry now model amount s).0 in
      (s'.global ≡ s.global) × (s'.models ≡ s.models) × (s'.run_reservations ≡ s.run_reservations)
unfolding remove_reservation_entry
remove_entry-same now model amount s =
    elim (Option-cases (drop_fitting now amount (entries_of model s))) [
      | inl e ↦ rw (e, drop_or_keep) (refl, refl, refl)
      | inr (rest, e) ↦ rw (e, drop_or_keep) (refl, refl, refl)
    ]

remove_entry-IsBalanced :
    (now : Now) (model : String) (amount : ℕ) (s : BudgetState)
    → IsBalanced s
    → IsBalanced (remove_reservation_entry now model amount s).0
remove_entry-IsBalanced now model amount s b =
    let (g, m, _) = remove_entry-same now model amount s in
    record {
      daily = λ day. rw (g, m) (b.daily day);
      monthly = λ month. rw (g, m) (b.monthly month);
    }

spend_if_any-IsBalanced :
    (now : Now) (model : String) (actual : ℕ) (s : BudgetState)
    → IsBalanced s
    → IsBalanced (spend_if_any now model actual s)
spend_if_any-IsBalanced now model actual s b = elim (Bool-cases (ltb 0 actual)) [
  | inl some_cost ↦ rw some_cost (apply_spend-IsBalanced now model actual s b)
  | inr free ↦ rw free b
]

release_entry-IsBalanced :
    (now : Now) (reserved : Dict ℕ) (e : String × ℕ) (s : BudgetState)
    → IsBalanced s
    → IsBalanced (release_entry now reserved e s)
unfolding release_entry
release_entry-IsBalanced now reserved (model, actual) s b =
    elim (Bool-cases (is_safe_model model)) [
      | inl safe ↦ rw safe (
          spend_if_any-IsBalanced now model actual _
            (remove_entry-IsBalanced now model (get_or model reserved 0) s b))
      | inr unsafe ↦ rw unsafe b
    ]

release_entries-IsBalanced :
    (now : Now) (reserved : Dict ℕ) (es : List (String × ℕ)) (s : BudgetState)
    → IsBalanced s
    → IsBalanced (release_entries now reserved es s)
unfolding release_entries
release_entries-IsBalanced now reserved [] s b = b
release_entries-IsBalanced now reserved (e ∷ es) s b =
    release_entries-IsBalanced now reserved es _ (release_entry-IsBalanced now reserved e s b)

-- If the models' spends sum up to the global spend on each day and in each month, they still do
-- after the reservations of a run are released against its actual costs.
pub release_run-IsBalanced :
    (now : Now) (run_id : String) (es : List (String × ℕ)) (s : BudgetState)
    → IsBalanced s
    → IsBalanced (release_run_reservations now run_id es s)
unfolding release_run_reservations
release_run-IsBalanced now run_id es s b =
    let r = release_entries-IsBalanced now (get_or run_id s.run_reservations []) es s b in
    record { daily = r.daily; monthly = r.monthly }

spend_if_any-day :
    (now : Now) (model other : String) (actual : ℕ) (s : BudgetState)
    → day_spend now.day (get_or other (spend_if_any now model actual s).models no_spend)
      ≡ day_spend now.day (get_or other s.models no_spend)
        + (if str_eq model other then actual else 0)
spend_if_any-day now model other actual s =
    ground (arith, apply_spend-get now model other actual s now.day, eq_refl now.day)

release_entry-day :
    (now : Now) (reserved : Dict ℕ) (model other : String) (actual : ℕ) (s : BudgetState)
    → is_safe_model other ≡ true
    → day_spend now.day
        (get_or other (release_entry now reserved (model, actual) s).models no_spend)
      ≡ day_spend now.day (get_or other s.models no_spend)
        + (if str_eq model other then actual else 0)
unfolding release_entry
release_entry-day now reserved model other actual s safe = elim (Bool-cases (is_safe_model model)) [
  | inl trusted ↦
      let removed = (remove_reservation_entry now model (get_or model reserved 0) s).0 in
      rw trusted (
        spend_if_any-day now model other actual removed
        ∙ rw (remove_entry-same now model (get_or model reserved 0) s).1 refl)
  | inr unsafe ↦
      let apart : str_eq model other ≡ false = ground (arith, eq_iff model other) in
      rw (unsafe, apart) (omega arith)
]

release_entries-day :
    (now : Now) (reserved : Dict ℕ) (es : List (String × ℕ)) (model : String) (s : BudgetState)
    → is_safe_model model ≡ true
    → day_spend now.day (get_or model (release_entries now reserved es s).models no_spend)
      ≡ day_spend now.day (get_or model s.models no_spend) + sum_for model es
unfolding release_entries sum_for
release_entries-day now reserved [] model s safe = omega arith
release_entries-day now reserved ((m, actual) ∷ es) model s safe = omega (
  arith,
  release_entries-day now reserved es model (release_entry now reserved (m, actual) s) safe,
  release_entry-day now reserved m model actual s safe,
)

-- Releasing a run books, for each safe model, the sum of its actual costs on the day, and forgets
-- what was recorded for the run.
pub release_run-spend :
    (now : Now) (run_id model : String) (es : List (String × ℕ)) (s : BudgetState)
    → is_safe_model model ≡ true
    → (day_spend now.day (get_or model (release_run_reservations now run_id es s).models no_spend)
        ≡ day_spend now.day (get_or model s.models no_spend) + sum_for model es)
      × (get run_id (release_run_reservations now run_id es s).run_reservations ≡ none)
unfolding release_run_reservations
release_run-spend now run_id model es s safe = (
  release_entries-day now (get_or run_id s.run_reservations []) es model s safe,
  get-del_self run_id _,
)
