-- ===== src/Ledger.antt =====
-- The ledger of src/cost-tracking/budget.ts: what is spent by day and by month, in all and for each
-- model, and what is reserved. Amounts of money are whole numbers of a fixed unit: the program's
-- floating-point rounding is left out.
pub mod Balance
use ai_model_arena.Common.{
  ℕ, ◌+◌, ◌*◌, Bool, not, ◌||◌, Option, none, some, String, str_eq, List, [], if◌then◌else◌,
}
use ai_model_arena.Common.Dict.{Dict, put, get_or}

-- What the code reads from the clock: `Date.now()`, `DAY_KEY()` and `MONTH_KEY()`.
pub record Now : Type 0 where
  pub ms : ℕ
  pub day : String
  pub month : String

pub record Spend : Type 0 where
  pub daily : Dict ℕ
  pub monthly : Dict ℕ

pub record Reservation : Type 0 where
  pub amount : ℕ
  pub daily_key : String
  pub expires_at : Option ℕ

pub record BudgetState : Type 0 where
  pub global : Spend
  pub models : Dict Spend
  pub reservations : Dict (List Reservation)
  pub run_reservations : Dict (Dict ℕ)
  pub last_reset : String

abbrev pub no_spend : Spend
no_spend = record { daily = []; monthly = [] }

abbrev pub empty_state : String → BudgetState
empty_state last_reset = record {
  global = no_spend;
  models = [];
  reservations = [];
  run_reservations = [];
  last_reset = last_reset;
}

abbrev pub reservation_ttl_ms : ℕ
reservation_ttl_ms = 4 * 60 * 60 * 1000

unfoldable pub is_safe_model : String → Bool
is_safe_model model =
    not (str_eq model "__proto__" || str_eq model "constructor" || str_eq model "prototype")

-- `table[key] = (table[key] ?? 0) + usd`
abbrev pub add_to : String → ℕ → Dict ℕ → Dict ℕ
add_to key usd table = put key (get_or key table 0 + usd) table

abbrev pub add_spend_to : Now → ℕ → Spend → Spend
add_spend_to now usd s = record {
  daily = add_to now.day usd s.daily;
  monthly = add_to now.month usd s.monthly;
}

unfoldable pub apply_spend : Now → String → ℕ → BudgetState → BudgetState
apply_spend now model usd s = record s {
  global = add_spend_to now usd s.global;
  models = put model (add_spend_to now usd (get_or model s.models no_spend)) s.models;
}

-- `addSpend`, once the configuration is there.
unfoldable pub add_spend : Now → String → ℕ → BudgetState → BudgetState
add_spend now model usd s = if is_safe_model model then apply_spend now model usd s else s

-- `if (modelName)`: an empty name counts as no name.
abbrev pub named : Option String → Option String
named none = none
named (some model) = if str_eq model "" then none else some model

abbrev spend_today_of : Now → BudgetState → Option String → ℕ
spend_today_of now s none = get_or now.day s.global.daily 0
spend_today_of now s (some model) = get_or now.day (get_or model s.models no_spend).daily 0

abbrev spend_month_of : Now → BudgetState → Option String → ℕ
spend_month_of now s none = get_or now.month s.global.monthly 0
spend_month_of now s (some model) = get_or now.month (get_or model s.models no_spend).monthly 0

abbrev pub get_spend_today : Now → BudgetState → Option String → ℕ
get_spend_today now s name = spend_today_of now s (named name)

abbrev pub get_spend_month : Now → BudgetState → Option String → ℕ
get_spend_month now s name = spend_month_of now s (named name)
