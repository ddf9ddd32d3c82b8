-- ===== src/Compaction/Examples.antt =====
-- The theorem on `compactMessages` of src/agent-loop/loop.ts at a small window, and tests.
use ai_model_arena.Common.{ℕ, zero, suc, ◌-◌, none, some, List, [], ◌∷◌, min, length}
use ai_model_arena.Chat.{Text, Role, system, user, tool, ChatMessage}
use ai_model_arena.Compaction.{compact_messages}
use ai_model_arena.Compaction.Window.{IsWindow, compact_messages-IsWindow}

abbrev said : Role → Text → ChatMessage
said role content = record {
  role = role;
  content = some content;
  name = none;
  tool_calls = none;
  tool_call_id = none;
}

repeat : ℕ → Text
repeat zero = []
repeat (suc n) = 0 ∷ repeat n

-- Its tool result alone is above the bound.
abbrev window : List ChatMessage
window =
    said system (1 ∷ []) ∷ said user (2 ∷ []) ∷ said tool (repeat 150_001) ∷ said user (4 ∷ []) ∷ []

compact_messages-IsWindow_example :
    IsWindow (min 2 (length window - 1)) 1 window (compact_messages window 1)
compact_messages-IsWindow_example = compact_messages-IsWindow window 1
