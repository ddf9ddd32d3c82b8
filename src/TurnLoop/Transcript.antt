-- ===== src/TurnLoop/Transcript.antt =====
-- The messages that src/agent-loop/turn-loop.ts appends: each assistant message is followed by one answer to each of
-- its tool calls.
use ai_model_arena.Common.{
  ℕ, zero, suc, ◌+◌, ◌≤◌, Bool, Option, none, some, str_eq, List, [], ◌∷◌, ◌++◌, ◌≡◌, refl, inl,
  inr, arith, leb, leb→le, Bool-cases, length, take, length-append, append-nil, append_assoc, subst,
  sym, ◌∙◌, ap,
}
use ai_model_arena.Common.Dict.{or_default}
use ai_model_arena.Chat.{Text, ChatMessage, ToolCall, TokenUsage, ModelResponse, assistant, tool}
use ai_model_arena.LoopState.{
  SendResult, response, failed, StartOutcome, proceed, over_budget, stop_with, TurnLoopOptions,
  LoopState, Flow, assistant_message, tool_message, any_named, break_, next,
}
use ai_model_arena.TurnLoop.{
  truncate, book_usage, run_tool_call, run_tool_calls, answer_calls, finish_turn, end_turn,
  end_turn_with, outcome_of, call_tool, continue_with, receive, take_turn, start_with,
  start_outcome_with, turn_body, run_turns, run_turn_loop,
}
use ai_model_arena.TurnLoop.Rule.{OfFlow}

length-take : (n : ℕ) (t : Text) → length (take n t) ≤ n
length-take zero t = omega arith
length-take (suc n) [] = omega arith
length-take (suc n) (c ∷ t) = omega (arith, length-take n t)

module _ (o : TurnLoopOptions) where
  length-truncate :
      (t : Text) → length (truncate o t) ≤ o.max_tool_result_chars + length o.truncate_suffix
  unfolding truncate
  length-truncate t = elim (Bool-cases (leb (length t) o.max_tool_result_chars)) [
    | inl e ↦ rw e (omega (arith, leb→le _ _ e))
    | inr e ↦
        rw (e, length-append (take o.max_tool_result_chars t) o.truncate_suffix)
          (omega (arith, length-take o.max_tool_result_chars t))
  ]

  -- A message of the role tool, with the call's name and id, whose content is a text of bounded length, hardened.
  abbrev pub IsAnswer : ToolCall → ChatMessage → Type 0
  IsAnswer tc m =
      m.role ≡ tool
      × m.name ≡ some tc.name
      × m.tool_call_id ≡ some tc.id
      × ((t : Text) × (m.content ≡ some (o.sanitize t)
            × length t ≤ o.max_tool_result_chars + length o.truncate_suffix))

  -- One answer to each call, in the order of the calls.
  abbrev pub Answers : List ToolCall → List ChatMessage → Type 0
  Answers [] [] = Unit
  Answers [] (m ∷ ms) = ⊥
  Answers (tc ∷ tcs) [] = ⊥
  Answers (tc ∷ tcs) (m ∷ ms) = IsAnswer tc m × Answers tcs ms

  -- The messages of `s`, followed by answers to the calls `tcs`.
  abbrev pub IsAnswered : List ToolCall → LoopState → LoopState → Type 0
  IsAnswered tcs s s' = (ms : List ChatMessage) × (s'.messages ≡ s.messages ++ ms × Answers tcs ms)

  run_tool_calls-IsAnswered :
      (turn : ℕ) (tcs : List ToolCall) (s : LoopState)
      → IsAnswered tcs s (run_tool_calls o turn tcs s)
  unfolding run_tool_calls run_tool_call
  run_tool_calls-IsAnswered turn [] s = ([], (sym (append-nil s.messages), tt))
  run_tool_calls-IsAnswered turn (tc ∷ tcs) s =
      let content = outcome_of o turn tc (call_tool o tc (s.total_tool_calls + 1)) in
      let rest = run_tool_calls-IsAnswered turn tcs (run_tool_call o turn tc s) in
      let answer = tool_message tc (o.sanitize (truncate o content.0)) in
      (
        answer ∷ rest.0,
        (
          rest.1.0 ∙ append_assoc s.messages (answer ∷ []) rest.0,
          ((refl, refl, refl, (truncate o content.0, (refl, length-truncate content.0))), rest.1.1),
        ),
      )

  answer_calls-IsAnswered :
      (turn : ℕ) (tcs : List ToolCall) (s : LoopState)
      → IsAnswered tcs s (answer_calls o turn tcs s)
  unfolding answer_calls
  answer_calls-IsAnswered turn [] s = ([], (sym (append-nil s.messages), tt))
  answer_calls-IsAnswered turn (tc ∷ tcs) s = run_tool_calls-IsAnswered turn (tc ∷ tcs) s

  -- The assistant message that carries the text and the tool calls of a response.
  abbrev pub IsReply : ModelResponse → ChatMessage → Type 0
  IsReply r m = m.role ≡ assistant × m.content ≡ r.text × m.tool_calls ≡ r.tool_calls

  -- `start` followed by exchanges: what the model sent for the messages so far, and the answers to its calls.
  pub data IsExtended : List ChatMessage → List ChatMessage → Type 0 where
    same : (start : List ChatMessage) → IsExtended start start
    exchange :
        (start ms replies : List ChatMessage) (turn : ℕ) (reply : ChatMessage) (r : ModelResponse)
        → IsExtended start ms
        → o.send turn ms ≡ response r
        → IsReply r reply
        → Answers (or_default r.tool_calls []) replies
        → IsExtended start (ms ++ reply ∷ replies)

  module _ (start : List ChatMessage) where
    abbrev Extends : LoopState → Type 0
    Extends s = IsExtended start s.messages

    finish_turn-Extends :
        (wants : Bool) (s : LoopState) → Extends s → OfFlow Extends (finish_turn o wants s)
    unfolding finish_turn
    finish_turn-Extends wants s h = elim (Bool-cases (str_eq s.stop_reason "no_tool_calls")) [
      | inl done ↦ rw done h
      | inr more ↦
          rw more
            (elim (Bool-cases wants) [ inl complete ↦ rw complete h | inr going ↦ rw going h ])
    ]

    book_usage-messages :
        (u : Option TokenUsage) (s : LoopState) → (book_usage o u s).messages ≡ s.messages
    unfolding book_usage
    book_usage-messages none s = refl
    book_usage-messages (some u) s = refl

    receive-Extends :
        o.on_turn ≡ none
        → (turn : ℕ) (r : SendResult) (s : LoopState) → o.send turn s.messages ≡ r
        → Extends s
        → OfFlow Extends (receive o turn r s)
    unfolding receive end_turn assistant_message
    receive-Extends e turn (failed m) s sent h = h
    receive-Extends e turn (response r) s sent h =
        let calls = or_default r.tool_calls [] in
        let booked =
          book_usage o r.usage (record s { messages = s.messages ++ assistant_message r ∷ [] }) in
        let answered = answer_calls-IsAnswered turn calls booked in
        let eq =
          answered.1.0
          ∙ ap (λ ms. ms ++ answered.0) (book_usage-messages r.usage _)
          ∙ append_assoc s.messages (assistant_message r ∷ []) answered.0 in
        let wants = any_named o.task_complete_tool calls in
        subst
          (λ h.
            OfFlow Extends
              (end_turn_with o h turn (length s.messages) wants (answer_calls o turn calls booked)))
          (sym e)
          (finish_turn-Extends wants (answer_calls o turn calls booked) (
            subst (IsExtended start) (sym eq) (
              exchange start s.messages answered.0 turn (assistant_message r) r h sent
                (refl, refl, refl) answered.1.1)))

    start_with-Extends :
        o.on_turn ≡ none
        → (turn : ℕ) (c : StartOutcome) (s : LoopState) → Extends s
        → OfFlow Extends (start_with o turn c s)
    unfolding start_with take_turn
    start_with-Extends e turn proceed s h = receive-Extends e turn (o.send turn s.messages) _ refl h
    start_with-Extends e turn over_budget s h = h
    start_with-Extends e turn (stop_with reason) s h = h

    continue_with-Extends :
        (go_on : LoopState → LoopState) (f : Flow)
        → ((s : LoopState) → Extends s → Extends (go_on s))
        → OfFlow Extends f
        → Extends (continue_with o go_on f)
    continue_with-Extends go_on (break_ s) g h = h
    continue_with-Extends go_on (next s) g h = g s h

    run_turns-Extends :
        o.on_turn ≡ none
        → (rounds turn : ℕ) (s : LoopState) → Extends s
        → Extends (run_turns o rounds turn s)
    unfolding run_turns turn_body
    run_turns-Extends e zero turn s h = h
    run_turns-Extends e (suc rounds) turn s h =
        continue_with-Extends (run_turns o rounds (turn + 1)) _
          (run_turns-Extends e rounds (turn + 1))
          (start_with-Extends e turn (start_outcome_with o o.on_turn_start turn s) s h)

  -- Without a hook at the turn's end, the loop leaves the messages it was given, followed by exchanges: an assistant
  -- message with the text and the tool calls of the response that `send` gave for the messages before it, then exactly one answer to each of its tool calls, in their order, with the call's
  -- id and name and a text of at most the bound and the suffix before it is hardened. Unknown tools, failing and
  -- throwing ones are answered too.
  pub run_turn_loop-IsExtended :
      o.on_turn ≡ none
      → (messages : List ChatMessage) → IsExtended messages (run_turn_loop o messages).messages
  unfolding run_turn_loop
  run_turn_loop-IsExtended e messages = run_turns-Extends messages e _ _ _ (same messages)
