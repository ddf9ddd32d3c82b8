-- ===== src/Conversation/Examples.antt =====
-- The theorems on repeated calls, in src/logger/conversation-parser.ts, at a small conversation, and tests.
use ai_model_arena.Common.{
  ℕ, ◌<◌, ◌≡◌, refl, true, false, none, some, String, List, [], ◌∷◌, length, arith,
}
use ai_model_arena.Conversation.{
  ToolCallEntry, Entry, assistant, tool_call, tool_result, other, extract_tool_calls, update_last,
  ConsecutiveLoop, detect_loops,
}
use ai_model_arena.Conversation.Loops.{Finds, detect_loops-Finds, detect_loops-none}

abbrev entries : List Entry
entries =
    assistant (some 4)
    ∷ tool_call "read" "{}"
    ∷ tool_call "ls" "{}"
    ∷ tool_result "read" true
    ∷ assistant none
    ∷ tool_call "ls" "{}"
    ∷ other
    ∷ []

abbrev call : String → ℕ → ToolCallEntry
call name turn = record { name = name; turn = turn; success = true; arguments = "{}" }

extract_test :
    extract_tool_calls entries
    ≡ (record (call "read" 4) { success = false } ∷ call "ls" 4 ∷ call "ls" 5 ∷ [])
unfolding extract_tool_calls update_last
extract_test = refl

abbrev ls_loop : ConsecutiveLoop
ls_loop = record { tool = "ls"; consecutive = 2; turns = 4 ∷ 5 ∷ [] }

detect_loops-Finds_example : Finds 2 (call "read" 4 ∷ call "ls" 4 ∷ call "ls" 5 ∷ []) ls_loop
unfolding detect_loops
detect_loops-Finds_example =
    detect_loops-Finds 2 (call "read" 4 ∷ call "ls" 4 ∷ call "ls" 5 ∷ []) ls_loop refl

detect_loops-none_test : length (call "ls" 4 ∷ call "ls" 5 ∷ []) < 3
unfolding detect_loops
detect_loops-none_test =
    detect_loops-none 3 (call "read" 4 ∷ []) (call "ls" 4 ∷ call "ls" 5 ∷ []) (call "read" 6 ∷ [])
      "ls" "{}" (omega arith) ((refl, refl), ((refl, refl), tt)) refl
