-- ===== src/StartRun/Examples.antt =====
-- The theorems on the start of a run at two models, of which the second is over its limit.
use ai_model_arena.Common.{ℕ, ◌≡◌, refl, true, false, none, some, String, List, [], ◌∷◌}
use ai_model_arena.Common.Dict.{get, put}
use ai_model_arena.Ledger.{Now, empty_state, is_safe_model}
use ai_model_arena.Budget.{
  BudgetConfig, total_counted, today_reserved_total, reserve_budget, check_budget,
}
use ai_model_arena.Queue.{Body, empty}
use ai_model_arena.StartRun.{Arena, reserve_models, start_run}
use ai_model_arena.StartRun.Failed.{start_run-refunds}

abbrev now : Now
now = record { ms = 20_000_000; day = "2026-01-02"; month = "2026-01" }

-- A daily limit of 50 for every model.
abbrev config : BudgetConfig
config = record { global = record { daily = some 50; monthly = none }; models = []; block = none }

abbrev body : String → Body
body model = record {
  session_id = "s";
  prompt_id = none;
  prompt_version = none;
  provider = "p";
  model = model;
  scenario = "todo";
  config = [];
  enqueued_at = "2026-01-02";
}

abbrev digest : String → String
digest text = text

abbrev arena : Arena
arena = record {
  budget = empty_state "2026-01-01";
  tables = record { run = none; cancelled = false };
  queue = empty;
}

abbrev models : List (String × ℕ)
models = ("a", 10) ∷ ("b", 60) ∷ []

safe_names : (is_safe_model "a" ≡ true) × ((is_safe_model "b" ≡ true) × Unit {0})
unfolding is_safe_model
safe_names = (refl, (refl, tt))

refused : (start_run digest config now false (some "run-1") none body "todo" models arena).1 ≡ none
unfolding start_run reserve_models reserve_budget check_budget is_safe_model total_counted get put
refused = refl

start_run-refunds_example :
    today_reserved_total now
      (start_run digest config now false (some "run-1") none body "todo" models arena).0.budget
      "a"
    ≡ today_reserved_total now arena.budget "a"
start_run-refunds_example =
    start_run-refunds digest config now false (some "run-1") none body "todo" models arena "a"
      safe_names (unfold get in λ j. tt) refused
