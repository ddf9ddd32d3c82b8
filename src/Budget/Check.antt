-- ===== src/Budget/Check.antt =====
-- The budget check of src/cost-tracking/budget.ts, by itself and against the reservation.
use ai_model_arena.Common.{
  ℕ, ◌+◌, ◌*◌, ◌≤◌, ◌<◌, ◌≡◌, ◌≢◌, ◌↔◌, refl, ◌⊎◌, inl, inr, Bool, true, false, Option, none, some,
  String, arith, lt→ltb,
}
use ai_model_arena.Ledger.{Now, BudgetState, is_safe_model, get_spend_today, get_spend_month}
use ai_model_arena.Budget.{
  BudgetConfig, limit_daily, limit_monthly, block_threshold, exceeds, reaches, ok, projected_daily,
  projected_monthly, reserve_budget, check_budget, effective,
}
use ai_model_arena.Budget.Reserve.{reserve_cases}

-- `spent` has reached the blocking share of a limit. A limit of 0 is reached by any spend above 0.
abbrev pub Reached : ℕ → Option ℕ → ℕ → Type 0
Reached block none spent = ⊥
Reached block (some limit) spent =
    (0 < limit) × (block * limit ≤ 100 * spent) ⊎ (limit ≡ 0) × (0 < spent)

reaches-Reached :
    (block : ℕ) (limit : Option ℕ) (spent : ℕ)
    → (reaches block limit spent ≡ true) ↔ Reached block limit spent
reaches-Reached block none spent = ground arith
reaches-Reached block (some limit) spent = ground arith

allowed_of_effective :
    (d m : Option ℕ) (spent_daily spent_monthly : ℕ)
    → (effective d m spent_daily spent_monthly true none).allowed ≡ true
allowed_of_effective none m spent_daily spent_monthly = refl
allowed_of_effective (some d) m spent_daily spent_monthly = refl

-- A check refuses exactly when it is not forced and the spend of the day or of the month, with the
-- extra spend, has reached the blocking share of its limit.
pub check_budget-refused_iff :
    (c : BudgetConfig) (now : Now) (model : String) (force : Bool) (extra : ℕ) (s : BudgetState)
    → ((check_budget c now model force extra s).allowed ≡ false) ↔ (
        (force ≡ false)
        × (Reached
              (block_threshold c)
              (limit_daily c model)
              (get_spend_today now s (some model) + extra)
            ⊎ Reached
                (block_threshold c)
                (limit_monthly c model)
                (get_spend_month now s (some model) + extra)))
unfolding check_budget
check_budget-refused_iff c now model force extra s = ground (
  arith,
  reaches-Reached (block_threshold c) (limit_daily c model)
      (get_spend_today now s (some model) + extra),
  reaches-Reached (block_threshold c) (limit_monthly c model)
      (get_spend_month now s (some model) + extra),
  allowed_of_effective (limit_daily c model) (limit_monthly c model)
      (get_spend_today now s (some model) + extra) (get_spend_month now s (some model) + extra),
)

Reached-exceeds :
    (block : ℕ) (limit : Option ℕ) (spent projected : ℕ)
    → Reached block limit spent
    → spent < projected
    → exceeds block limit projected ≡ true
Reached-exceeds block none spent projected r h = absurd r
Reached-exceeds block (some limit) spent projected (inl (pos, over)) h = ground arith
Reached-exceeds block (some limit) spent projected (inr (zero_limit, some_spend)) h =
    rw zero_limit (lt→ltb _ _ (grind arith))

-- Where an unforced check without extra spend refuses a safe model, a reservation of a positive
-- amount is blocked.
pub reserve-check_refused :
    (c : BudgetConfig) (now : Now) (model : String) (amount : ℕ) (s : BudgetState)
    → is_safe_model model ≡ true
    → 0 < amount
    → (check_budget c now model false 0 s).allowed ≡ false
    → (reserve_budget c now model amount s).1 ≢ ok
reserve-check_refused c now model amount s safe pos refused =
    let (_, why) = (check_budget-refused_iff c now model false 0 s).0 refused in
    reserve_cases (λ r. r.1 ≢ ok) c now model amount s safe (λ d e. cc) (λ m e. cc)
      λ d m e. elim why [
        | inl by_day ↦
            let over =
              Reached-exceeds (block_threshold c) (limit_daily c model) _
                (projected_daily now model amount s) by_day (omega arith) in
            cc
        | inr by_month ↦
            let over =
              Reached-exceeds (block_threshold c) (limit_monthly c model) _
                (projected_monthly now model amount s) by_month (omega arith) in
            cc
      ]
