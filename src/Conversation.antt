-- ===== src/Conversation.antt =====
-- The tool calls of a recorded conversation and the search for repeated ones, in
-- src/logger/conversation-parser.ts. A call's arguments are their JSON text. The program compares the name
-- and this text joined by a colon; the names of tools have no colon, so the two parts are compared here.
pub mod Loops
mod Examples
use ai_model_arena.Common.{
  ℕ, ◌+◌, ◌≡◌, Bool, true, false, not, ◌&&◌, Option, none, some, String, str_eq, List, [], ◌∷◌,
  ◌++◌, map, if◌then◌else◌, leb, ltb, ◌==◌, length,
}

pub record ToolCallEntry : Type 0 where
  pub name : String
  pub turn : ℕ
  pub success : Bool
  pub arguments : String

-- An entry of the conversation; an assistant's turn need not be recorded.
pub data Entry : Type 0 where
  assistant : (turn : Option ℕ) → Entry
  tool_call : (name arguments : String) → Entry
  tool_result : (name : String) → (is_error : Bool) → Entry
  other : Entry

abbrev is_call : ℕ → String → ToolCallEntry → Bool
is_call turn name c = (c.turn == turn) && str_eq c.name name

-- The last call of the turn by the name, if there is one.
unfoldable pub update_last : ℕ → String → Bool → List ToolCallEntry → Option (List ToolCallEntry)
update_last turn name success [] = none
update_last turn name success (c ∷ calls) = elim (update_last turn name success calls) [
  | some later ↦ some (c ∷ later)
  | none ↦ if is_call turn name c then some (record c { success = success } ∷ calls) else none
]

abbrev or_same : Option (List ToolCallEntry) → List ToolCallEntry → List ToolCallEntry
or_same none calls = calls
or_same (some updated) calls = updated

abbrev next_turn : Option ℕ → ℕ → ℕ
next_turn none current = current + 1
next_turn (some turn) current = turn

extract_from : ℕ → List ToolCallEntry → List Entry → List ToolCallEntry
unfolding update_last
extract_from current calls [] = calls
extract_from current calls (assistant turn ∷ es) = extract_from (next_turn turn current) calls es
extract_from current calls (tool_call name arguments ∷ es) =
    extract_from current
      (calls ++ record { name = name; turn = current; success = true; arguments = arguments } ∷ [])
      es
extract_from current calls (tool_result name is_error ∷ es) =
    extract_from current (or_same (update_last current name (not is_error) calls) calls) es
extract_from current calls (other ∷ es) = extract_from current calls es

unfoldable pub extract_tool_calls : List Entry → List ToolCallEntry
unfolding extract_from
extract_tool_calls = extract_from 0 []

pub record ConsecutiveLoop : Type 0 where
  pub tool : String
  pub consecutive : ℕ
  pub turns : List ℕ

abbrev pub same_call : ToolCallEntry → ToolCallEntry → Bool
same_call a b = str_eq a.name b.name && str_eq a.arguments b.arguments

-- The calls at the head of a list that are the call `c` again.
repeats : ToolCallEntry → List ToolCallEntry → List ToolCallEntry
repeats c [] = []
repeats c (d ∷ ds) = let more = d ∷ repeats c ds in if same_call d c then more else []

abbrev loop_of : ToolCallEntry → List ToolCallEntry → ConsecutiveLoop
loop_of c again = record {
  tool = c.name;
  consecutive = 1 + length again;
  turns = c.turn ∷ map (λ (d : ToolCallEntry). d.turn) again;
}

-- The loop over the start of the run, at a suffix of the calls.
unfoldable pub detect_loops : ℕ → List ToolCallEntry → Option ConsecutiveLoop
unfolding repeats
detect_loops min_consecutive [] = none
detect_loops min_consecutive (c ∷ cs) =
    let later = detect_loops min_consecutive cs in
    let again = repeats c cs in
    if ltb (1 + length cs) min_consecutive
    then none
    else if leb min_consecutive (1 + length again)
    then some (loop_of c again)
    else later
