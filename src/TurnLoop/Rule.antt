-- ===== src/TurnLoop/Rule.antt =====
-- What every change of the state keeps, the turn loop of src/agent-loop/turn-loop.ts keeps.
use ai_model_arena.Common.{
  ℕ, zero, suc, ◌+◌, Bool, true, false, Option, none, some, String, str_eq, List, [], ◌∷◌, ◌++◌,
  drop, Bool-cases, inl, inr,
}
use ai_model_arena.Common.Dict.{or_default}
use ai_model_arena.Chat.{ChatMessage, ToolCall, TokenUsage}
use ai_model_arena.LoopState.{
  SendResult, response, failed, StartOutcome, proceed, over_budget, stop_with, TurnLoopOptions,
  TurnError, api_error, LoopState, Flow, break_, next,
}
use ai_model_arena.TurnLoop.{
  book_usage, run_tool_call, run_tool_calls, answer_calls, finish_turn, after_hook, end_turn,
  end_turn_with, continue_with, receive, take_turn, start_with, start_outcome_with, turn_body,
  run_turns, initial_state, run_turn_loop,
}

-- `P` holds on through each change that the loop makes to its state.
pub record IsKept (o : TurnLoopOptions) (P : LoopState → Type 0) : Type 0 where
  pub messages : (s : LoopState) (ms : List ChatMessage) → P s → P (record s { messages = ms })
  pub stop_reason : (s : LoopState) (r : String) → P s → P (record s { stop_reason = r })
  pub errors : (s : LoopState) (es : List TurnError) → P s → P (record s { errors = es })
  pub turns_used : (s : LoopState) (turn : ℕ) → P s → P (record s { turns_used = turn })
  pub usage : (s : LoopState) (u : Option TokenUsage) → P s → P (book_usage o u s)
  pub call : (turn : ℕ) (tc : ToolCall) (s : LoopState) → P s → P (run_tool_call o turn tc s)

-- `P` of the state of either outcome.
abbrev pub OfFlow : (LoopState → Type 0) → Flow → Type 0
OfFlow P (break_ s) = P s
OfFlow P (next s) = P s

module _ (o : TurnLoopOptions) (P : LoopState → Type 0) (k : IsKept o P) where
  run_tool_calls-keeps :
      (turn : ℕ) (tcs : List ToolCall) (s : LoopState) → P s → P (run_tool_calls o turn tcs s)
  unfolding run_tool_calls
  run_tool_calls-keeps turn [] s h = h
  run_tool_calls-keeps turn (tc ∷ tcs) s h = run_tool_calls-keeps turn tcs _ (k.call turn tc s h)

  answer_calls-keeps :
      (turn : ℕ) (tcs : List ToolCall) (s : LoopState) → P s → P (answer_calls o turn tcs s)
  unfolding answer_calls
  answer_calls-keeps turn [] s h = k.stop_reason s "no_tool_calls" h
  answer_calls-keeps turn (tc ∷ tcs) s h = run_tool_calls-keeps turn (tc ∷ tcs) s h

  finish_turn-keeps : (wants : Bool) (s : LoopState) → P s → OfFlow P (finish_turn o wants s)
  unfolding finish_turn
  finish_turn-keeps wants s h = elim (Bool-cases (str_eq s.stop_reason "no_tool_calls")) [
    | inl done ↦ rw done h
    | inr more ↦ rw more (elim (Bool-cases wants) [
      | inl complete ↦ rw complete (k.stop_reason s "task_complete" h)
      | inr going ↦ rw going h
    ])
  ]

  after_hook-keeps :
      (wants : Bool) (ms : List ChatMessage) (go : Bool) (s : LoopState)
      → P s
      → OfFlow P (after_hook o wants (ms, go) s)
  unfolding after_hook
  after_hook-keeps wants ms true s h = finish_turn-keeps wants _ (k.messages s ms h)
  after_hook-keeps wants ms false s h =
      k.stop_reason (record s { messages = ms }) _ (k.messages s ms h)

  end_turn_with-keeps :
      (h : Option (ℕ → List ChatMessage → TokenUsage → List ChatMessage → List ChatMessage × Bool))
      (turn start : ℕ) (wants : Bool) (s : LoopState)
      → P s
      → OfFlow P (end_turn_with o h turn start wants s)
  end_turn_with-keeps none turn start wants s h = finish_turn-keeps wants s h
  end_turn_with-keeps (some hook) turn start wants s h =
      let left = hook turn (drop start s.messages) s.usage s.messages in
      after_hook-keeps wants left.0 left.1 s h

  receive-keeps : (turn : ℕ) (r : SendResult) (s : LoopState) → P s → OfFlow P (receive o turn r s)
  unfolding receive end_turn
  receive-keeps turn (failed m) s h =
      k.stop_reason (record s { errors = s.errors ++ api_error turn m ∷ [] }) _ (k.errors s _ h)
  receive-keeps turn (response r) s h = end_turn_with-keeps o.on_turn turn _ _ _ (
      answer_calls-keeps turn (or_default r.tool_calls []) _ (k.usage _ r.usage (k.messages s _ h)))

  start_with-keeps :
      (turn : ℕ) (c : StartOutcome) (s : LoopState) → P s → OfFlow P (start_with o turn c s)
  unfolding start_with take_turn
  start_with-keeps turn proceed s h = receive-keeps turn _ _ (k.turns_used s turn h)
  start_with-keeps turn over_budget s h = k.stop_reason s "budget_exceeded" h
  start_with-keeps turn (stop_with reason) s h = k.stop_reason s reason h

  continue_with-keeps :
      (go_on : LoopState → LoopState) (f : Flow)
      → ((s : LoopState) → P s → P (go_on s))
      → OfFlow P f
      → P (continue_with o go_on f)
  continue_with-keeps go_on (break_ s) g h = h
  continue_with-keeps go_on (next s) g h = g s h

  run_turns-keeps : (rounds turn : ℕ) (s : LoopState) → P s → P (run_turns o rounds turn s)
  unfolding run_turns turn_body
  run_turns-keeps zero turn s h = h
  run_turns-keeps (suc rounds) turn s h =
      continue_with-keeps (run_turns o rounds (turn + 1)) _ (run_turns-keeps rounds (turn + 1))
        (start_with-keeps turn (start_outcome_with o o.on_turn_start turn s) s h)

  pub run_turn_loop-keeps :
      (messages : List ChatMessage) → P (initial_state o messages) → P (run_turn_loop o messages)
  unfolding run_turn_loop
  run_turn_loop-keeps messages h = run_turns-keeps _ _ _ h
