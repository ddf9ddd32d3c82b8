-- ===== src/Compaction.antt =====
-- The compaction of the context window, `compactMessages` of src/agent-loop/loop.ts. The scan and the drop are
-- functions on the list; the outer loop runs on fuel, one round for each message.
pub mod Scan
pub mod Window
mod Examples
use ai_model_arena.Common.{
  ℕ, zero, suc, ◌+◌, ◌-◌, Bool, ◌||◌, List, [], ◌∷◌, ◌++◌, if◌then◌else◌, leb, min, max, length,
  take, drop,
}
use ai_model_arena.Chat.{ChatMessage, content_length}

abbrev pub max_context_chars : ℕ
max_context_chars = 150_000

abbrev pub total_chars : List ChatMessage → ℕ
total_chars [] = 0
total_chars (m ∷ ms) = content_length m + total_chars ms

-- The characters and the messages to drop from the front of `ms`, until `total` less the characters fits.
unfoldable pub scan : ℕ → ℕ → ℕ → List ChatMessage → ℕ × ℕ
scan total dropped_chars dropped [] = (dropped_chars, dropped)
scan total dropped_chars dropped (m ∷ ms) =
    let rest = scan total (dropped_chars + content_length m) (dropped + 1) ms in
    if leb (total - (dropped_chars + content_length m)) max_context_chars
    then (dropped_chars + content_length m, dropped + 1)
    else rest

-- The messages that a round may drop.
abbrev pub droppable : ℕ → ℕ → List ChatMessage → List ChatMessage
droppable start tail ms = take (max start (length ms - tail) - start) (drop start ms)

unfoldable pub compact_rounds : ℕ → ℕ → ℕ → ℕ → List ChatMessage → List ChatMessage
compact_rounds zero start tail total ms = ms
compact_rounds (suc fuel) start tail total ms =
    let (dropped_chars, dropped) = scan total 0 0 (droppable start tail ms) in
    let rest =
      compact_rounds fuel start tail (total - dropped_chars)
        (take start ms ++ drop dropped (drop start ms)) in
    if leb total max_context_chars
    then ms
    else if leb (max start (length ms - tail)) start
    then ms
    else if leb dropped 0 || leb dropped_chars 0
    then ms
    else rest

pub compact_messages : List ChatMessage → ℕ → List ChatMessage
compact_messages ms protected_tail =
    if leb (total_chars ms) max_context_chars || leb (length ms) 2
    then ms
    else compact_rounds (length ms) (min 2 (length ms - protected_tail)) protected_tail
        (total_chars ms) ms
