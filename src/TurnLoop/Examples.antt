-- ===== src/TurnLoop/Examples.antt =====
-- The theorems on src/agent-loop/turn-loop.ts at a short conversation, and tests.
use ai_model_arena.Common.{
  ℕ, ◌≡◌, ◌≢◌, refl, false, Option, none, some, String, str_eq, List, [], ◌∷◌, arith, if◌then◌else◌,
  leb,
}
use ai_model_arena.Chat.{user, ChatMessage, ToolCall, TokenUsage}
use ai_model_arena.LoopState.{SendResult, response, ToolOutcome, result, threw, TurnLoopOptions}
use ai_model_arena.TurnLoop.{
  truncate, call_tool, outcome_of, book_usage, run_tool_call, run_tool_calls, answer_calls,
  finish_turn, end_turn, receive, take_turn, start_with, turn_body, run_turns, run_turn_loop,
  remap_stop_reason,
}
use ai_model_arena.TurnLoop.Counts.{IsTallied, run_turn_loop-IsTallied}
use ai_model_arena.TurnLoop.Stopping.{remap_stop_reason-run_turn_loop}
use ai_model_arena.TurnLoop.Transcript.{IsExtended, run_turn_loop-IsExtended}

abbrev call : String → String → ToolCall
call id name = record { id = id; name = name; arguments = "{}" }

abbrev spent : ℕ → TokenUsage
spent n = record {
  prompt = some n;
  completion = some 2;
  total = none;
  cache_read_tokens = none;
  cache_write_tokens = none;
  model = none;
}

-- The first turn calls three tools, one of them unknown; the second completes the task.
abbrev model : ℕ → List ChatMessage → SendResult
model turn ms =
    if leb turn 1
    then response (record {
      text = none;
      tool_calls = some (call "a" "read" ∷ call "b" "write" ∷ call "c" "nope" ∷ []);
      usage = some (spent 10);
    })
    else response (record {
      text = some (7 ∷ []);
      tool_calls = some (call "d" "done" ∷ []);
      usage = some (spent 30);
    })

abbrev tools : String → Option (ℕ → ToolCall → ToolOutcome)
tools name =
    if str_eq name "read"
    then some (λ n tc. result (1 ∷ 2 ∷ 3 ∷ 4 ∷ 5 ∷ []) false)
    else if str_eq name "write"
    then some (λ n tc. threw (9 ∷ []))
    else if str_eq name "done"
    then some (λ n tc. result [] false)
    else none

abbrev options : TurnLoopOptions
options = record {
  send = model;
  executor = tools;
  on_turn_start = none;
  on_turn = none;
  sanitize = λ t. t;
  unknown_tool_content = λ n. 8 ∷ [];
  thrown_content = λ n t. t;
  task_complete_tool = some "done";
  billing_model = some "gpt-4o";
  max_turns = 5;
  start_turn = 1;
  max_tool_result_chars = 3;
  truncate_suffix = 0 ∷ [];
}

abbrev prompt : List ChatMessage
prompt =
    record {
      role = user;
      content = some (5 ∷ []);
      name = none;
      tool_calls = none;
      tool_call_id = none;
    }
    ∷ []

run_turn_loop-IsTallied_test : IsTallied (run_turn_loop options prompt)
run_turn_loop-IsTallied_test = run_turn_loop-IsTallied options prompt

remap_stop_reason-run_turn_loop_test :
    remap_stop_reason
      (run_turn_loop options prompt).stop_reason
      (run_turn_loop options prompt).turns_used
      5
    ≢ "unknown"
remap_stop_reason-run_turn_loop_test =
    remap_stop_reason-run_turn_loop options (λ turn s. tt) prompt (omega arith)

run_turn_loop-IsExtended_example : IsExtended options prompt (run_turn_loop options prompt).messages
run_turn_loop-IsExtended_example = run_turn_loop-IsExtended options refl prompt

run_turn_loop_test :
    (run_turn_loop options prompt).stop_reason ≡ "task_complete"
    × (run_turn_loop options prompt).turns_used ≡ 2
    × (run_turn_loop options prompt).total_tool_calls ≡ 4
unfolding run_turn_loop run_turns turn_body start_with take_turn receive end_turn finish_turn
    answer_calls run_tool_calls run_tool_call book_usage outcome_of call_tool truncate
run_turn_loop_test = (refl, refl, refl)
