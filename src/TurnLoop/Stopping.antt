-- ===== src/TurnLoop/Stopping.antt =====
-- When and why the loop of src/agent-loop/turn-loop.ts stops.
use ai_model_arena.Common.{
  ℕ, zero, suc, ◌+◌, ◌-◌, ◌≤◌, ◌<◌, Bool, true, false, Option, none, some, String, str_eq, List, [],
  ◌∷◌, ◌++◌, ◌≡◌, ◌≢◌, refl, ◌⊎◌, inl, inr, arith, eq_iff, Bool-cases, drop, max, ◌∙◌, subst,
  le→leb,
}
use ai_model_arena.Common.Dict.{or_default}
use ai_model_arena.Chat.{ChatMessage, ToolCall, TokenUsage}
use ai_model_arena.LoopState.{
  SendResult, response, failed, StartOutcome, proceed, over_budget, stop_with, TurnLoopOptions,
  LoopState, Flow, assistant_message, break_, next,
}
use ai_model_arena.TurnLoop.{
  book_usage, run_tool_call, run_tool_calls, answer_calls, finish_turn, after_hook, end_turn,
  end_turn_with, continue_with, receive, take_turn, start_with, start_outcome_with, turn_body,
  run_turns, initial_state, run_turn_loop, remap_stop_reason,
}

-- A turn breaks off with a reason, or goes on with none and its number as the turns used.
abbrev Settles : ℕ → Flow → Type 0
Settles turn (break_ s) = s.stop_reason ≢ "unknown" × s.turns_used ≤ turn
Settles turn (next s) = s.stop_reason ≡ "unknown" × s.turns_used ≡ turn

-- A state within turn `turn`.
abbrev IsWithin : ℕ → LoopState → Type 0
IsWithin turn s =
    (s.stop_reason ≡ "unknown" ⊎ s.stop_reason ≡ "no_tool_calls") × s.turns_used ≡ turn

literal : (a : String) → str_eq a "unknown" ≡ false → a ≢ "unknown"
literal a h e = ground (arith, eq_iff a "unknown")

-- The reasons that the hooks give are not the loop's own "unknown".
abbrev pub GivesReason : StartOutcome → Type 0
GivesReason proceed = Unit
GivesReason over_budget = Unit
GivesReason (stop_with reason) = reason ≢ "unknown"

-- Every answer of the hook at a turn's start gives a reason of its own.
abbrev pub HasReasons : TurnLoopOptions → Type 0
HasReasons o =
    (turn : ℕ) (s : LoopState) → GivesReason (start_outcome_with o o.on_turn_start turn s)

-- A loop that used at most `last` turns, and all of them when it gives no reason.
abbrev Ended : ℕ → LoopState → Type 0
Ended last s =
    (s.stop_reason ≢ "unknown" × s.turns_used ≤ last)
    ⊎ (s.stop_reason ≡ "unknown" × s.turns_used ≡ last)

remap_stop_reason-given :
    (r : String) (used last : ℕ) → r ≢ "unknown" → remap_stop_reason r used last ≢ "unknown"
unfolding remap_stop_reason
remap_stop_reason-given r used last h = elim (Bool-cases (str_eq r "unknown")) [
  | inl e ↦ λ same. h ((eq_iff r "unknown").0 e)
  | inr e ↦ rw e h
]

remap_stop_reason-exhausted :
    (r : String) (used last : ℕ)
    → r ≡ "unknown"
    → last ≤ used
    → remap_stop_reason r used last ≢ "unknown"
unfolding remap_stop_reason
remap_stop_reason-exhausted r used last h le =
    rw (h, le→leb last used le) (literal "max_turns" refl)

module _ (o : TurnLoopOptions) where
  run_tool_calls-IsWithin :
      (turn : ℕ) (tcs : List ToolCall) (s : LoopState) (n : ℕ)
      → s.stop_reason ≡ "unknown"
      → s.turns_used ≡ n
      → (run_tool_calls o turn tcs s).stop_reason ≡ "unknown"
        × (run_tool_calls o turn tcs s).turns_used ≡ n
  unfolding run_tool_calls run_tool_call
  run_tool_calls-IsWithin turn [] s n h e = (h, e)
  run_tool_calls-IsWithin turn (tc ∷ tcs) s n h e =
      run_tool_calls-IsWithin turn tcs (run_tool_call o turn tc s) n h e

  answer_calls-IsWithin :
      (turn : ℕ) (tcs : List ToolCall) (s : LoopState) (n : ℕ)
      → s.stop_reason ≡ "unknown"
      → s.turns_used ≡ n
      → IsWithin n (answer_calls o turn tcs s)
  unfolding answer_calls
  answer_calls-IsWithin turn [] s n h e = (inr refl, e)
  answer_calls-IsWithin turn (tc ∷ tcs) s n h e =
      let kept = run_tool_calls-IsWithin turn (tc ∷ tcs) s n h e in (inl kept.0, kept.1)

  finish_turn-Settles :
      (turn : ℕ) (wants : Bool) (s : LoopState)
      → IsWithin turn s
      → Settles turn (finish_turn o wants s)
  unfolding finish_turn
  finish_turn-Settles turn wants s (inr e, used) =
      rw e (literal "no_tool_calls" refl, omega (arith, used))
  finish_turn-Settles turn true s (inl e, used) =
      rw e (literal "task_complete" refl, omega (arith, used))
  finish_turn-Settles turn false s (inl e, used) = rw e (refl, used)

  after_hook-Settles :
      (turn : ℕ) (wants : Bool) (ms : List ChatMessage) (go : Bool) (s : LoopState)
      → IsWithin turn s
      → Settles turn (after_hook o wants (ms, go) s)
  unfolding after_hook
  after_hook-Settles turn wants ms true s h =
      finish_turn-Settles turn wants (record s { messages = ms }) h
  after_hook-Settles turn wants ms false s (inl e, used) =
      rw e (literal "budget_exceeded" refl, omega (arith, used))
  after_hook-Settles turn wants ms false s (inr e, used) =
      rw e (literal "no_tool_calls" refl, omega (arith, used))

  end_turn_with-Settles :
      (h : Option (ℕ → List ChatMessage → TokenUsage → List ChatMessage → List ChatMessage × Bool))
      (turn start : ℕ) (wants : Bool) (s : LoopState)
      → IsWithin turn s
      → Settles turn (end_turn_with o h turn start wants s)
  end_turn_with-Settles none turn start wants s h = finish_turn-Settles turn wants s h
  end_turn_with-Settles (some hook) turn start wants s h =
      let left = hook turn (drop start s.messages) s.usage s.messages in
      after_hook-Settles turn wants left.0 left.1 s h

  book_usage-stop :
      (u : Option TokenUsage) (s : LoopState)
      → (book_usage o u s).stop_reason ≡ s.stop_reason
        × (book_usage o u s).turns_used ≡ s.turns_used
  unfolding book_usage
  book_usage-stop none s = (refl, refl)
  book_usage-stop (some u) s = (refl, refl)

  receive-Settles :
      (turn : ℕ) (r : SendResult) (s : LoopState)
      → s.stop_reason ≡ "unknown"
      → s.turns_used ≡ turn
      → Settles turn (receive o turn r s)
  unfolding receive end_turn
  receive-Settles turn (failed m) s e used = (literal "api_error" refl, omega (arith, used))
  receive-Settles turn (response r) s e used =
      let kept =
        book_usage-stop r.usage (record s { messages = s.messages ++ assistant_message r ∷ [] }) in
      end_turn_with-Settles o.on_turn turn _ _ _ (
        answer_calls-IsWithin turn (or_default r.tool_calls []) _ turn (kept.0 ∙ e) (kept.1 ∙ used))

  start_with-Settles :
      (turn : ℕ) (c : StartOutcome) (s : LoopState)
      → GivesReason c
      → s.stop_reason ≡ "unknown"
      → s.turns_used + 1 ≡ turn
      → Settles turn (start_with o turn c s)
  unfolding start_with take_turn
  start_with-Settles turn proceed s g e used =
      receive-Settles turn (o.send turn s.messages) (record s { turns_used = turn }) e refl
  start_with-Settles turn over_budget s g e used =
      (literal "budget_exceeded" refl, omega (arith, used))
  start_with-Settles turn (stop_with reason) s g e used = (g, omega (arith, used))

  continue_with-Ended :
      (go_on : LoopState → LoopState) (turn last : ℕ) (f : Flow)
      → turn ≤ last
      → ((s : LoopState) → s.stop_reason ≡ "unknown" → s.turns_used ≡ turn → Ended last (go_on s))
      → Settles turn f
      → Ended last (continue_with o go_on f)
  continue_with-Ended go_on turn last (break_ s) le g h = inl (h.0, omega (arith, h.1, le))
  continue_with-Ended go_on turn last (next s) le g h = g s h.0 h.1

  run_turns-Ended :
      HasReasons o
      → (rounds turn n : ℕ) (s : LoopState) → s.stop_reason ≡ "unknown"
      → s.turns_used ≡ n
      → n + 1 ≡ turn
      → Ended (n + rounds) (run_turns o rounds turn s)
  unfolding run_turns turn_body
  run_turns-Ended g zero turn n s e used h = inr (e, omega (arith, used))
  run_turns-Ended g (suc rounds) turn n s e used h =
      continue_with-Ended (run_turns o rounds (turn + 1)) turn (n + suc rounds) _ (omega (arith, h))
        (λ s' e' used'.
          subst (λ last. Ended last (run_turns o rounds (turn + 1) s')) (omega (arith, h))
            (run_turns-Ended g rounds (turn + 1) turn s' e' used' refl))
        (start_with-Settles turn (start_outcome_with o o.on_turn_start turn s) s (g turn s) e
          (omega (arith, used, h)))

  run_turn_loop-Ended :
      HasReasons o
      → (messages : List ChatMessage) → 0 < o.start_turn
      → Ended (o.start_turn - 1 + (o.max_turns + 1 - o.start_turn)) (run_turn_loop o messages)
  unfolding run_turn_loop
  run_turn_loop-Ended g messages pos =
      run_turns-Ended g (o.max_turns + 1 - o.start_turn) o.start_turn (o.start_turn - 1)
        (initial_state o messages) refl refl (omega (arith, pos))

  -- A loop that starts at a turn from one on, and whose start hook never answers "unknown",
  -- reports at most `max_turns` turns, or the turns before its start where those are more.
  pub run_turn_loop-turns_used :
      HasReasons o
      → (messages : List ChatMessage) → 0 < o.start_turn
      → (run_turn_loop o messages).turns_used ≤ max (o.start_turn - 1) o.max_turns
  run_turn_loop-turns_used g messages pos = elim (run_turn_loop-Ended g messages pos) [
    | inl (r, le) ↦ omega (arith, le, pos)
    | inr (r, e) ↦ omega (arith, e, pos)
  ]

  -- A loop that starts at a turn from one on, and whose start hook never answers "unknown", ends
  -- with a stop reason that the remapping does not leave "unknown".
  pub remap_stop_reason-run_turn_loop :
      HasReasons o
      → (messages : List ChatMessage) → 0 < o.start_turn
      → remap_stop_reason
          (run_turn_loop o messages).stop_reason
          (run_turn_loop o messages).turns_used
          o.max_turns
        ≢ "unknown"
  remap_stop_reason-run_turn_loop g messages pos = elim (run_turn_loop-Ended g messages pos) [
    | inl (r, le) ↦ remap_stop_reason-given _ _ _ r
    | inr (r, e) ↦ remap_stop_reason-exhausted _ _ _ r (omega (arith, e, pos))
  ]
