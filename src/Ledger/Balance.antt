-- ===== src/Ledger/Balance.antt =====
-- What is spent in all is the sum of what the models spend, in src/cost-tracking/budget.ts.
use ai_model_arena.Common.{
  ℕ, ◌+◌, ◌≡◌, refl, inl, inr, String, str_eq, eq_iff, if◌then◌else◌, arith, Bool-cases, ◌&&◌,
}
use ai_model_arena.Common.Dict.{Dict, get, get_or, get-put, sum_over, sum_over-put}
use ai_model_arena.Ledger.{
  Now, Spend, BudgetState, no_spend, is_safe_model, add_to, add_spend_to, apply_spend, add_spend,
}

pub get_or-add_to :
    (k key : String) (usd : ℕ) (table : Dict ℕ)
    → get_or k (add_to key usd table) 0 ≡ get_or k table 0 + (if str_eq key k then usd else 0)
get_or-add_to k key usd table =
    ground (arith, get-put k key (get_or key table 0 + usd) table, eq_iff key k)

abbrev pub day_spend : String → Spend → ℕ
day_spend day s = get_or day s.daily 0

abbrev pub month_spend : String → Spend → ℕ
month_spend month s = get_or month s.monthly 0

-- For each day and each month the global spend is the sum over the models.
pub record IsBalanced (s : BudgetState) : Type 0 where
  pub daily : (day : String) → day_spend day s.global ≡ sum_over (day_spend day) s.models
  pub monthly :
      (month : String) → month_spend month s.global ≡ sum_over (month_spend month) s.models

module _ (now : Now) (model : String) (usd : ℕ) (s : BudgetState) (b : IsBalanced s) where
  abbrev old_spend : Spend
  old_spend = get_or model s.models no_spend

  -- If on each day the models' spends sum up to the global spend, and so for each month, then
  -- this still holds after a spend is booked.
  pub apply_spend-IsBalanced : IsBalanced (apply_spend now model usd s)
  unfolding apply_spend get
  apply_spend-IsBalanced = record {
    daily = λ day. omega (
      arith,
      b.daily day,
      get_or-add_to day now.day usd s.global.daily,
      get_or-add_to day now.day usd old_spend.daily,
      sum_over-put (day_spend day) no_spend model (add_spend_to now usd old_spend) s.models refl,
    );
    monthly = λ month. omega (
      arith,
      b.monthly month,
      get_or-add_to month now.month usd s.global.monthly,
      get_or-add_to month now.month usd old_spend.monthly,
      sum_over-put (month_spend month) no_spend model (add_spend_to now usd old_spend) s.models
          refl,
    );
  }

  pub add_spend-IsBalanced : IsBalanced (add_spend now model usd s)
  unfolding add_spend
  add_spend-IsBalanced = elim (Bool-cases (is_safe_model model)) [
    | inl safe ↦ rw safe apply_spend-IsBalanced
    | inr unsafe ↦ rw unsafe b
  ]

-- A spend raises the model's day and month by its amount, and no other model's.
pub apply_spend-get :
    (now : Now) (model other : String) (usd : ℕ) (s : BudgetState) (day : String)
    → day_spend day (get_or other (apply_spend now model usd s).models no_spend)
      ≡ day_spend day (get_or other s.models no_spend)
        + (if str_eq model other && str_eq now.day day then usd else 0)
unfolding apply_spend
apply_spend-get now model other usd s day = ground (
  arith,
  get-put other model (add_spend_to now usd (get_or model s.models no_spend)) s.models,
  get_or-add_to day now.day usd (get_or model s.models no_spend).daily,
  eq_iff model other,
)
