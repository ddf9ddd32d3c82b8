-- ===== src/TurnLoop.antt =====
-- The turn loop of src/agent-loop/turn-loop.ts. The events, which only observe, and the wording of the errors are left
-- out. An own tool is looked up by its name; names that every JavaScript object inherits are left out.
pub mod Rule
pub mod Counts
pub mod Transcript
pub mod Usage
pub mod Stopping
mod Examples
use ai_model_arena.Common.{
  ℕ, zero, suc, ◌+◌, ◌-◌, Bool, true, false, ◌&&◌, ◌||◌, Option, none, some, String, str_eq, List,
  [], ◌∷◌, ◌++◌, if◌then◌else◌, leb, length, take, drop,
}
use ai_model_arena.Common.Dict.{Dict, get, put, get_or, or_default}
use ai_model_arena.Chat.{Text, ToolCall, ChatMessage, TokenUsage, no_usage}
use ai_model_arena.LoopState.{
  SendResult, response, failed, ToolOutcome, result, threw, StartOutcome, proceed, over_budget,
  stop_with, TurnLoopOptions, TurnError, api_error, unknown_tool, tool_failed, tool_threw, Rate,
  LoopState, add_usage, stamp_model, assistant_message, tool_message, rate_after, any_named, Flow,
  break_, next,
}

module _ (o : TurnLoopOptions) where
  unfoldable pub book_usage : Option TokenUsage → LoopState → LoopState
  book_usage none s = s
  book_usage (some u) s = record s {
    usage = add_usage s.usage u;
    usage_per_call = s.usage_per_call ++ stamp_model o.billing_model u ∷ [];
  }

  unfoldable pub truncate : Text → Text
  truncate content =
      if leb (length content) o.max_tool_result_chars
      then content
      else take o.max_tool_result_chars content ++ o.truncate_suffix

  -- The content of a tool result, whether it is an error, and what is logged.
  unfoldable pub outcome_of : ℕ → ToolCall → Option ToolOutcome → Text × Bool × List TurnError
  outcome_of turn tc none = (o.unknown_tool_content tc.name, true, unknown_tool turn tc.name ∷ [])
  outcome_of turn tc (some (result content true)) = (content, true, tool_failed turn tc.name ∷ [])
  outcome_of turn tc (some (result content false)) = (content, false, [])
  outcome_of turn tc (some (threw message)) =
      let content = o.thrown_content tc.name message in
      (content, true, tool_threw turn tc.name content ∷ [])

  abbrev pub call_tool_with :
      Option (ℕ → ToolCall → ToolOutcome) → ToolCall → ℕ → Option ToolOutcome
  call_tool_with none tc calls = none
  call_tool_with (some run) tc calls = some (run calls tc)

  unfoldable pub call_tool : ToolCall → ℕ → Option ToolOutcome
  call_tool tc calls = call_tool_with (o.executor tc.name) tc calls

  -- One round of the loop over the tool calls of a response.
  unfoldable pub run_tool_call : ℕ → ToolCall → LoopState → LoopState
  run_tool_call turn tc s =
      let (content, is_error, logged) =
        outcome_of turn tc (call_tool tc (s.total_tool_calls + 1)) in
      let zero_rate : Rate = record { success = 0; fail = 0 } in
      record s {
        total_tool_calls = s.total_tool_calls + 1;
        tool_counts = put tc.name (get_or tc.name s.tool_counts 0 + 1) s.tool_counts;
        errors = s.errors ++ logged;
        messages = s.messages ++ tool_message tc (o.sanitize (truncate content)) ∷ [];
        tool_success_rates =
            put tc.name (rate_after is_error (get_or tc.name s.tool_success_rates zero_rate))
              s.tool_success_rates;
      }

  pub run_tool_calls : ℕ → List ToolCall → LoopState → LoopState
  run_tool_calls turn [] s = s
  run_tool_calls turn (tc ∷ tcs) s = run_tool_calls turn tcs (run_tool_call turn tc s)

  -- No tool calls end the loop after the turn; otherwise they run.
  unfoldable pub answer_calls : ℕ → List ToolCall → LoopState → LoopState
  answer_calls turn [] s = record s { stop_reason = "no_tool_calls" }
  answer_calls turn (tc ∷ tcs) s = run_tool_calls turn (tc ∷ tcs) s

  unfoldable pub finish_turn : Bool → LoopState → Flow
  finish_turn wants_complete s =
      if str_eq s.stop_reason "no_tool_calls"
      then break_ s
      else if wants_complete
      then break_ (record s { stop_reason = "task_complete" })
      else next s

  unfoldable pub after_hook : Bool → List ChatMessage × Bool → LoopState → Flow
  after_hook wants_complete (messages, true) s =
      finish_turn wants_complete (record s { messages = messages })
  after_hook wants_complete (messages, false) s = break_ (record s {
    messages = messages;
    stop_reason = if str_eq s.stop_reason "unknown" then "budget_exceeded" else s.stop_reason;
  })

  abbrev pub end_turn_with :
      Option (ℕ → List ChatMessage → TokenUsage → List ChatMessage → List ChatMessage × Bool)
      → ℕ
      → ℕ
      → Bool
      → LoopState
      → Flow
  end_turn_with none turn start_index wants_complete s = finish_turn wants_complete s
  end_turn_with (some hook) turn start_index wants_complete s =
      after_hook wants_complete (hook turn (drop start_index s.messages) s.usage s.messages) s

  unfoldable pub end_turn : ℕ → ℕ → Bool → LoopState → Flow
  end_turn turn start_index wants_complete s =
      end_turn_with o.on_turn turn start_index wants_complete s

  unfoldable pub receive : ℕ → SendResult → LoopState → Flow
  receive turn (failed message) s =
      break_
        (record s { errors = s.errors ++ api_error turn message ∷ []; stop_reason = "api_error" })
  receive turn (response r) s =
      let calls = or_default r.tool_calls [] in
      let replied = record s { messages = s.messages ++ assistant_message r ∷ [] } in
      end_turn turn (length s.messages) (any_named o.task_complete_tool calls)
        (answer_calls turn calls (book_usage r.usage replied))

  unfoldable pub take_turn : ℕ → LoopState → Flow
  take_turn turn s =
      let started = record s { turns_used = turn } in receive turn (o.send turn s.messages) started

  unfoldable pub start_with : ℕ → StartOutcome → LoopState → Flow
  start_with turn proceed s = take_turn turn s
  start_with turn over_budget s = break_ (record s { stop_reason = "budget_exceeded" })
  start_with turn (stop_with reason) s = break_ (record s { stop_reason = reason })

  abbrev pub start_outcome_with :
      Option (ℕ → TokenUsage → StartOutcome) → ℕ → LoopState → StartOutcome
  start_outcome_with none turn s = proceed
  start_outcome_with (some hook) turn s = hook turn s.usage

  unfoldable pub turn_body : ℕ → LoopState → Flow
  turn_body turn s = start_with turn (start_outcome_with o.on_turn_start turn s) s

  abbrev pub continue_with : (LoopState → LoopState) → Flow → LoopState
  continue_with go_on (break_ s) = s
  continue_with go_on (next s) = go_on s

  -- `for (let turn = startTurn; turn <= maxTurns; turn++)`, by the rounds that are left.
  unfoldable pub run_turns : ℕ → ℕ → LoopState → LoopState
  run_turns zero turn s = s
  run_turns (suc rounds) turn s = continue_with (run_turns rounds (turn + 1)) (turn_body turn s)

  abbrev pub initial_state : List ChatMessage → LoopState
  initial_state messages = record {
    messages = messages;
    usage = no_usage;
    usage_per_call = [];
    tool_counts = [];
    tool_success_rates = [];
    errors = [];
    total_tool_calls = 0;
    stop_reason = "unknown";
    turns_used = o.start_turn - 1;
  }

  unfoldable pub run_turn_loop : List ChatMessage → LoopState
  run_turn_loop messages =
      run_turns (o.max_turns + 1 - o.start_turn) o.start_turn (initial_state messages)

pub remap_stop_reason : String → ℕ → ℕ → String
remap_stop_reason stop_reason turns_used max_turns =
    if str_eq stop_reason "unknown" && leb max_turns turns_used then "max_turns" else stop_reason

-- The entries by falling count; entries of one count keep their order.
insert_count : String × ℕ → List (String × ℕ) → List (String × ℕ)
insert_count e [] = e ∷ []
insert_count (n, c) ((m, d) ∷ rest) =
    if leb d c then (n, c) ∷ (m, d) ∷ rest else (m, d) ∷ insert_count (n, c) rest

pub tools_called : Dict ℕ → List (String × ℕ)
unfolding insert_count
tools_called [] = []
tools_called (e ∷ es) = insert_count e (tools_called es)
