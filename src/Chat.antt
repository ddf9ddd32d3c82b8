-- ===== src/Chat.antt =====
-- The messages, tool calls and token counts of src/types.ts. A text is the list of its UTF-16 code
-- units, so that lengths and slices are those of the program. The parsed arguments of a tool call
-- are their JSON text. The fields that the loop ignores (`raw`, `cacheHitRate`, the response's own `stopReason`
-- and `durationMs`) are left out, and fields that the loop tests for presence are options.
use ai_model_arena.Common.{ℕ, Option, none, String, List, [], length}
use ai_model_arena.Common.Dict.{or_default}

abbrev pub Text : Type 0
Text = List ℕ

pub data Role : Type 0 where
  system user assistant tool : Role

pub record ToolCall : Type 0 where
  pub id : String
  pub name : String
  pub arguments : String

pub record ChatMessage : Type 0 where
  pub role : Role
  pub content : Option Text
  pub name : Option String
  pub tool_calls : Option (List ToolCall)
  pub tool_call_id : Option String

pub record TokenUsage : Type 0 where
  pub prompt : Option ℕ
  pub completion : Option ℕ
  pub total : Option ℕ
  pub cache_read_tokens : Option ℕ
  pub cache_write_tokens : Option ℕ
  pub model : Option String

abbrev pub no_usage : TokenUsage
no_usage = record {
  prompt = none;
  completion = none;
  total = none;
  cache_read_tokens = none;
  cache_write_tokens = none;
  model = none;
}

pub record ModelResponse : Type 0 where
  pub text : Option Text
  pub tool_calls : Option (List ToolCall)
  pub usage : Option TokenUsage

-- `m.content?.length ?? 0`
abbrev pub content_length : ChatMessage → ℕ
content_length m = length (or_default m.content [])
