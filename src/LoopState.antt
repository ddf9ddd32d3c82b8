-- ===== src/LoopState.antt =====
-- The options, the state and the messages of the turn loop of src/agent-loop/turn-loop.ts. The model,
-- the tools, the hooks and the hardening of tool results are parameters, given by the turn or by the
-- number of calls made so far, so that each call may answer differently.
use ai_model_arena.Common.{
  ℕ, ◌+◌, Bool, true, false, ◌||◌, Option, none, some, String, str_eq, List, [], ◌∷◌, if◌then◌else◌,
}
use ai_model_arena.Common.Dict.{Dict, or_default}
use ai_model_arena.Chat.{Text, assistant, tool, ToolCall, ChatMessage, TokenUsage, ModelResponse}

pub data SendResult : Type 0 where
  response : ModelResponse → SendResult
  failed : Text → SendResult

pub data ToolOutcome : Type 0 where
  result : Text → Bool → ToolOutcome
  threw : Text → ToolOutcome

-- What `onTurnStart` returns: true, false or a stop reason.
pub data StartOutcome : Type 0 where
  proceed : StartOutcome
  over_budget : StartOutcome
  stop_with : String → StartOutcome

pub record TurnLoopOptions : Type 0 where
  pub send : ℕ → List ChatMessage → SendResult
  pub executor : String → Option (ℕ → ToolCall → ToolOutcome)
  pub on_turn_start : Option (ℕ → TokenUsage → StartOutcome)
  -- The messages that the hook leaves, and whether to go on.
  pub on_turn :
      Option (ℕ → List ChatMessage → TokenUsage → List ChatMessage → List ChatMessage × Bool)
  pub sanitize : Text → Text
  pub unknown_tool_content : String → Text
  pub thrown_content : String → Text → Text
  pub task_complete_tool : Option String
  pub billing_model : Option String
  pub max_turns : ℕ
  pub start_turn : ℕ
  pub max_tool_result_chars : ℕ
  pub truncate_suffix : Text

pub data TurnError : Type 0 where
  api_error : ℕ → Text → TurnError
  unknown_tool tool_failed : ℕ → String → TurnError
  tool_threw : ℕ → String → Text → TurnError

pub record Rate : Type 0 where
  pub success : ℕ
  pub fail : ℕ

pub record LoopState : Type 0 where
  pub messages : List ChatMessage
  pub usage : TokenUsage
  pub usage_per_call : List TokenUsage
  pub tool_counts : Dict ℕ
  pub tool_success_rates : Dict Rate
  pub errors : List TurnError
  pub total_tool_calls : ℕ
  pub stop_reason : String
  pub turns_used : ℕ

abbrev pub add_counts : Option ℕ → Option ℕ → Option ℕ
add_counts a b = some (or_default a 0 + or_default b 0)

abbrev pub add_usage : TokenUsage → TokenUsage → TokenUsage
add_usage u v = record u {
  prompt = add_counts u.prompt v.prompt;
  completion = add_counts u.completion v.completion;
  total = add_counts u.total v.total;
  cache_read_tokens = add_counts u.cache_read_tokens v.cache_read_tokens;
  cache_write_tokens = add_counts u.cache_write_tokens v.cache_write_tokens;
}

-- An empty model name is no model.
abbrev pub stamp_model : Option String → TokenUsage → TokenUsage
stamp_model none u = u
stamp_model (some m) u = if str_eq m "" then u else record u { model = some m }

unfoldable pub assistant_message : ModelResponse → ChatMessage
assistant_message r = record {
  role = assistant;
  content = r.text;
  name = none;
  tool_calls = r.tool_calls;
  tool_call_id = none;
}

abbrev pub tool_message : ToolCall → Text → ChatMessage
tool_message tc content = record {
  role = tool;
  content = some content;
  name = some tc.name;
  tool_calls = none;
  tool_call_id = some tc.id;
}

abbrev pub rate_after : Bool → Rate → Rate
rate_after true r = record r { fail = r.fail + 1 }
rate_after false r = record r { success = r.success + 1 }

abbrev pub any_named : Option String → List ToolCall → Bool
any_named none tcs = false
any_named (some name) [] = false
any_named (some name) (tc ∷ tcs) = str_eq tc.name name || any_named (some name) tcs

pub data Flow : Type 0 where
  break_ next : LoopState → Flow
