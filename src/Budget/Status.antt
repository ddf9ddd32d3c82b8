-- ===== src/Budget/Status.antt =====
-- What `getBudgetStatus` of src/cost-tracking/budget.ts reports.
use ai_model_arena.Common.{
  ℕ, ◌≡◌, Bool, true, false, Option, none, some, String, str_eq, eq_iff, List, [], ◌∷◌, ◌++◌,
  if◌then◌else◌, arith,
}
use ai_model_arena.Common.Dict.{Dict, get, or_default}
use ai_model_arena.Ledger.{Now, BudgetState, get_spend_today, get_spend_month}
use ai_model_arena.Budget.{BudgetConfig, no_limits}

pub record Usage : Type 0 where
  pub spent : ℕ
  pub limit : Option ℕ

pub record PeriodUsage : Type 0 where
  pub daily : Usage
  pub monthly : Usage

pub record BudgetStatus : Type 0 where
  pub global : PeriodUsage
  pub models : Dict PeriodUsage

-- The names of a map that are not among `seen`, each once.
unfoldable pub add_names {ℓ} : {V : Type ℓ} → Dict V → List String → List String
add_names [] seen = seen
add_names ((k, v) ∷ m) seen = add_names m (if holds k seen then seen else seen ++ k ∷ [])
  where
    holds : String → List String → Bool
    holds k [] = false
    holds k (j ∷ js) = if str_eq j k then true else holds k js

abbrev pub usage_of : BudgetConfig → Now → BudgetState → String → PeriodUsage
usage_of c now s model =
    let limits = or_default (get model c.models) no_limits in
    record {
      daily = record { spent = get_spend_today now s (some model); limit = limits.daily };
      monthly = record { spent = get_spend_month now s (some model); limit = limits.monthly };
    }

abbrev pub usages : BudgetConfig → Now → BudgetState → List String → Dict PeriodUsage
usages c now s [] = []
usages c now s (n ∷ ns) = (n, usage_of c now s n) ∷ usages c now s ns

pub get_budget_status : BudgetConfig → Now → BudgetState → BudgetStatus
unfolding add_names
get_budget_status c now s = record {
  global = record {
    daily = record { spent = get_spend_today now s none; limit = c.global.daily };
    monthly = record { spent = get_spend_month now s none; limit = c.global.monthly };
  };
  models = usages c now s (add_names c.models (add_names s.models []));
}

-- What the status says of a model that it lists is what the ledger and the model's own limits say.
pub get-usages :
    (c : BudgetConfig) (now : Now) (s : BudgetState) (model : String) (ns : List String)
    (u : PeriodUsage)
    → get model (usages c now s ns) ≡ some u
    → u ≡ usage_of c now s model
unfolding get
get-usages c now s model [] u h = ground arith
get-usages c now s model (n ∷ ns) u h =
    ground (arith, eq_iff n model, get-usages c now s model ns u)
