-- ===== src/TurnLoop/Counts.antt =====
-- The tallies of src/agent-loop/turn-loop.ts: the total of the calls, the calls of each tool, and its successes and
-- failures.
use ai_model_arena.Common.{
  ℕ, ◌+◌, Bool, true, false, Option, none, some, String, List, ◌≡◌, refl, arith, eq_iff,
}
use ai_model_arena.Common.Dict.{get, get_or, get-put, sum_over, sum_over-put}
use ai_model_arena.Chat.{ChatMessage, ToolCall, TokenUsage}
use ai_model_arena.LoopState.{TurnLoopOptions, Rate, rate_after, LoopState}
use ai_model_arena.TurnLoop.{outcome_of, call_tool, book_usage, run_tool_call, run_turn_loop}
use ai_model_arena.TurnLoop.Rule.{IsKept, run_turn_loop-keeps}

abbrev pub zero_rate : Rate
zero_rate = record { success = 0; fail = 0 }

abbrev tries : Rate → ℕ
tries r = r.success + r.fail

abbrev pub IsTallied : LoopState → Type 0
IsTallied s =
    s.total_tool_calls ≡ sum_over (λ n. n) s.tool_counts
    × ((name : String)
        → get_or name s.tool_counts 0 ≡ tries (get_or name s.tool_success_rates zero_rate))

tries-rate_after : (b : Bool) (r : Rate) → tries (rate_after b r) ≡ tries r + 1
tries-rate_after true r = omega arith
tries-rate_after false r = omega arith

run_tool_call-IsTallied :
    (o : TurnLoopOptions) (turn : ℕ) (tc : ToolCall) (s : LoopState)
    → IsTallied s
    → IsTallied (run_tool_call o turn tc s)
unfolding run_tool_call
run_tool_call-IsTallied o turn tc s (total, each) =
    let b = (outcome_of o turn tc (call_tool o tc (s.total_tool_calls + 1))).1 in
    let r = get_or tc.name s.tool_success_rates zero_rate in
    (
      omega (
        arith,
        sum_over-put (λ n. n) 0 tc.name (get_or tc.name s.tool_counts 0 + 1) s.tool_counts refl,
        total,
      ),
      λ name.
          rw
            (
              get-put name tc.name (get_or tc.name s.tool_counts 0 + 1) s.tool_counts,
              get-put name tc.name (rate_after b r) s.tool_success_rates,
            )
            (ground (arith, eq_iff tc.name name, tries-rate_after b r, each tc.name, each name)),
    )

book_usage-IsTallied :
    (o : TurnLoopOptions) (s : LoopState) (u : Option TokenUsage)
    → IsTallied s
    → IsTallied (book_usage o u s)
unfolding book_usage
book_usage-IsTallied o s none h = h
book_usage-IsTallied o s (some u) h = h

IsTallied-IsKept : (o : TurnLoopOptions) → IsKept o IsTallied
IsTallied-IsKept o = record {
  messages = λ s ms h. h;
  stop_reason = λ s r h. h;
  errors = λ s es h. h;
  turns_used = λ s turn h. h;
  usage = book_usage-IsTallied o;
  call = run_tool_call-IsTallied o;
}

-- Whatever the model, the tools and the hooks do, the loop ends with a total that is the sum of the calls
-- counted under each name, and each name was called as often as its successes and failures together say.
pub run_turn_loop-IsTallied :
    (o : TurnLoopOptions) (messages : List ChatMessage) → IsTallied (run_turn_loop o messages)
unfolding get
run_turn_loop-IsTallied o messages =
    run_turn_loop-keeps o IsTallied (IsTallied-IsKept o) messages (refl, λ name. refl)
