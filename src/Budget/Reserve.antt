-- ===== src/Budget/Reserve.antt =====
-- Reserving an estimated cost, in src/cost-tracking/budget.ts.
use ai_model_arena.Common.{
  ℕ, ◌+◌, ◌*◌, ◌≤◌, ◌<◌, ◌≡◌, ◌≢◌, refl, inl, inr, true, false, Option, none, some, String, str_eq,
  eq_refl, List, [], ◌∷◌, ◌++◌, if◌then◌else◌, arith, Bool-cases,
}
use ai_model_arena.Common.Dict.{get-put}
use ai_model_arena.Ledger.{
  Now, Reservation, BudgetState, is_safe_model, get_spend_today, get_spend_month,
}
use ai_model_arena.Budget.{
  BudgetConfig, counts, total_counted, entries_of, today_reserved_total, limit_daily, limit_monthly,
  block_threshold, exceeds, daily, monthly, Reserved, ok, blocked, projected_daily,
  projected_monthly, reservation, push_reservation, reserve_budget,
}

pub total_counted-append :
    (now : Now) (xs ys : List Reservation)
    → total_counted now (xs ++ ys) ≡ total_counted now xs + total_counted now ys
unfolding total_counted
total_counted-append now [] ys = omega arith
total_counted-append now (x ∷ xs) ys = omega (arith, total_counted-append now xs ys)

pub counts-reservation : (now : Now) (amount : ℕ) → counts now (reservation now amount) ≡ true
counts-reservation now amount = ground (arith, eq_refl now.day)

pub total_counted-one :
    (now : Now) (amount : ℕ) → total_counted now (reservation now amount ∷ []) ≡ amount
unfolding total_counted
total_counted-one now amount = ground (arith, eq_refl now.day)

pub entries_of-push_reservation :
    (now : Now) (model other : String) (amount : ℕ) (s : BudgetState)
    → entries_of other (push_reservation now model amount s) ≡ (
        if str_eq model other
        then entries_of model s ++ reservation now amount ∷ []
        else entries_of other s)
entries_of-push_reservation now model other amount s =
    ground (
      arith,
      get-put other model (entries_of model s ++ reservation now amount ∷ []) s.reservations,
    )

-- A new reservation counts at once, with its amount.
pub today_reserved_total-push :
    (now : Now) (model : String) (amount : ℕ) (s : BudgetState)
    → today_reserved_total now (push_reservation now model amount s) model
      ≡ today_reserved_total now s model + amount
today_reserved_total-push now model amount s =
    rw (entries_of-push_reservation now model model amount s, eq_refl model)
      (omega (
        arith,
        total_counted-append now (entries_of model s) (reservation now amount ∷ []),
        total_counted-one now amount,
      ))

-- `spent` is within the blocking share of a limit, where there is one.
abbrev pub Within : ℕ → Option ℕ → ℕ → Type 0
Within block none spent = Unit {0}
Within block (some limit) spent = 100 * spent ≤ block * limit

-- `spent` is above the blocking share of a limit.
abbrev pub Above : ℕ → Option ℕ → ℕ → Type 0
Above block none spent = ⊥
Above block (some limit) spent = block * limit < 100 * spent

-- The cases of `reserve_budget` for a safe model.
pub reserve_cases {ℓ} :
    (P : BudgetState × Reserved → Type ℓ) (c : BudgetConfig) (now : Now) (model : String)
    (amount : ℕ) (s : BudgetState)
    → is_safe_model model ≡ true
    → (exceeds (block_threshold c) (limit_daily c model) (projected_daily now model amount s) ≡ true
        → P (s, blocked daily))
    → (exceeds (block_threshold c) (limit_monthly c model) (projected_monthly now model amount s)
          ≡ true
        → P (s, blocked monthly))
    → (exceeds (block_threshold c) (limit_daily c model) (projected_daily now model amount s)
          ≡ false
        → exceeds (block_threshold c) (limit_monthly c model) (projected_monthly now model amount s)
          ≡ false
        → P (push_reservation now model amount s, ok))
    → P (reserve_budget c now model amount s)
unfolding reserve_budget
reserve_cases P c now model amount s safe over_day over_month fits =
    rw safe
      (elim (Bool-cases
        (exceeds (block_threshold c) (limit_daily c model) (projected_daily now model amount s))) [
          | inl d ↦ rw d (over_day d)
          | inr d ↦
              rw d
                (elim (Bool-cases (
                  exceeds (block_threshold c) (limit_monthly c model)
                    (projected_monthly now model amount s))) [
                      | inl m ↦ rw m (over_month m)
                      | inr m ↦ rw m (fits d m)
                    ])
        ])

pub reserve_budget-ok :
    (c : BudgetConfig) (now : Now) (model : String) (amount : ℕ) (s : BudgetState)
    → is_safe_model model ≡ true
    → (reserve_budget c now model amount s).1 ≡ ok
    → (reserve_budget c now model amount s).0 ≡ push_reservation now model amount s
reserve_budget-ok c now model amount s safe =
    reserve_cases (λ r. r.1 ≡ ok → r.0 ≡ push_reservation now model amount s) c now model amount s
      safe (λ d e. cc) (λ m e. cc) (λ d m e. refl)

-- What a reservation leaves behind: spend and reservations of the model within both limits.
pub record IsReserved (c : BudgetConfig) (now : Now) (model : String) (amount : ℕ)
    (s s' : BudgetState) : Type 0 where
  pub daily_within :
      Within
        (block_threshold c)
        (limit_daily c model)
        (get_spend_today now s' (some model) + today_reserved_total now s' model)
  pub monthly_within :
      Within
        (block_threshold c)
        (limit_monthly c model)
        (get_spend_month now s' (some model) + today_reserved_total now s' model)
  pub total : today_reserved_total now s' model ≡ today_reserved_total now s model + amount
  pub models : s'.models ≡ s.models
  pub others : (other : String) → other ≢ model → entries_of other s' ≡ entries_of other s
