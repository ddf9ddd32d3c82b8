-- ===== src/Pricing/Examples.antt =====
-- The theorems on src/cost-tracking/pricing.ts at a small catalog, and tests.
use ai_model_arena.Common.{◌≡◌, refl, none, some, List, [], ◌∷◌, arith, str_eq, if◌then◌else◌}
use ai_model_arena.Chat.{TokenUsage, ChatMessage, user}
use ai_model_arena.LoopState.{response, TurnLoopOptions}
use ai_model_arena.TurnLoop.{
  book_usage, answer_calls, finish_turn, end_turn, receive, take_turn, start_with, turn_body,
  run_turns, run_turn_loop,
}
use ai_model_arena.Pricing.{PricingRow, Catalog, to_cost_usage, compute_cost, compute_total_cost}
use ai_model_arena.Pricing.Runs.{compute_total_cost-run_turn_loop}

abbrev row : PricingRow
row = record {
  input = some 3;
  output = some 15;
  cache_read = some 1;
  cache_write = none;
  resolved_model_id = "anthropic/claude";
}

-- One model, and dearer requests above the bound.
abbrev catalog : Catalog
catalog = record {
  model_pricing = λ model. if str_eq model "claude" then some row else none;
  tiered_pricing =
      λ id. some (record { input = 6; output = 22; cache_read = none; cache_write = none });
}

abbrev first : TokenUsage
first = record {
  prompt = some 100;
  completion = some 10;
  total = none;
  cache_read_tokens = some 40;
  cache_write_tokens = some 5;
  model = none;
}

abbrev second : TokenUsage
second = record first { prompt = some 300; model = some "claude" }

abbrev both : TokenUsage
both = record first {
  prompt = some 400;
  completion = some 20;
  cache_read_tokens = some 80;
  cache_write_tokens = some 10;
}

compute_total_cost_test :
    (compute_total_cost catalog "claude" (first ∷ second ∷ []) both).total ≡ 1340
compute_total_cost_test = refl

-- (400 - 80) * 3 + 20 * 15 + 80 * 1
compute_cost_test : (compute_cost catalog "claude" (to_cost_usage both)).total ≡ 1340
compute_cost_test = refl

abbrev options : TurnLoopOptions
options = record {
  send = λ turn ms. response (record { text = none; tool_calls = none; usage = some first });
  executor = λ name. none;
  on_turn_start = none;
  on_turn = none;
  sanitize = λ t. t;
  unknown_tool_content = λ n. [];
  thrown_content = λ n t. t;
  task_complete_tool = none;
  billing_model = some "claude";
  max_turns = 5;
  start_turn = 1;
  max_tool_result_chars = 3;
  truncate_suffix = [];
}

abbrev task : List ChatMessage
task =
    record { role = user; content = some []; name = none; tool_calls = none; tool_call_id = none }
    ∷ []

compute_total_cost-run_turn_loop_example :
    (compute_total_cost catalog "claude"
      (run_turn_loop options task).usage_per_call
      (run_turn_loop options task).usage).total
    ≡ (compute_cost catalog "claude" (to_cost_usage (run_turn_loop options task).usage)).total
unfolding run_turn_loop run_turns turn_body start_with take_turn receive end_turn finish_turn
    answer_calls book_usage
compute_total_cost-run_turn_loop_example =
    compute_total_cost-run_turn_loop catalog options task "claude" ((refl, omega arith), tt)
      (omega arith)
