-- ===== src/Pricing/Runs.antt =====
-- The billing of a run of src/agent-loop/turn-loop.ts by src/cost-tracking/pricing.ts.
use ai_model_arena.Common.{ℕ, ◌≤◌, ◌≡◌, refl, ap, Option, none, some, String, List, [], ◌∷◌, All}
use ai_model_arena.Common.Dict.{or_default}
use ai_model_arena.Chat.{ChatMessage, ToolCall, TokenUsage}
use ai_model_arena.LoopState.{TurnLoopOptions, LoopState}
use ai_model_arena.TurnLoop.{run_turn_loop, book_usage, run_tool_call}
use ai_model_arena.TurnLoop.Rule.{run_turn_loop-keeps}
use ai_model_arena.TurnLoop.Usage.{sum_of, run_turn_loop-IsSummed}
use ai_model_arena.Pricing.{Catalog, to_cost_usage, compute_cost, compute_total_cost}
use ai_model_arena.Pricing.Linear.{
  add_tokens, sum_tokens, IsBilled, request_size, compute_total_cost-compute_cost,
}

book_usage-model :
    (o : TurnLoopOptions) (s : LoopState) (u : Option TokenUsage)
    → s.usage.model ≡ none
    → (book_usage o u s).usage.model ≡ none
unfolding book_usage
book_usage-model o s none h = h
book_usage-model o s (some u) h = h

run_tool_call-model :
    (o : TurnLoopOptions) (turn : ℕ) (tc : ToolCall) (s : LoopState)
    → s.usage.model ≡ none
    → (run_tool_call o turn tc s).usage.model ≡ none
unfolding run_tool_call
run_tool_call-model o turn tc s h = h

-- The aggregate names no model.
run_turn_loop-model :
    (o : TurnLoopOptions) (messages : List ChatMessage)
    → (run_turn_loop o messages).usage.model ≡ none
run_turn_loop-model o messages =
    run_turn_loop-keeps o (λ s. s.usage.model ≡ none)
      (record {
        messages = λ s ms h. h;
        stop_reason = λ s r h. h;
        errors = λ s es h. h;
        turns_used = λ s turn h. h;
        usage = book_usage-model o;
        call = run_tool_call-model o;
      })
      messages refl

sum_tokens-sum_of :
    (us : List TokenUsage)
    → sum_tokens us ≡ record {
      prompt = sum_of (λ u. u.prompt) us;
      completion = sum_of (λ u. u.completion) us;
      cached = sum_of (λ u. u.cache_read_tokens) us;
      cache_write = sum_of (λ u. u.cache_write_tokens) us;
    }
sum_tokens-sum_of [] = refl
sum_tokens-sum_of (u ∷ us) = ap (add_tokens (to_cost_usage u)) (sum_tokens-sum_of us)

run_turn_loop-sum_tokens :
    (o : TurnLoopOptions) (messages : List ChatMessage)
    → to_cost_usage (run_turn_loop o messages).usage
      ≡ sum_tokens (run_turn_loop o messages).usage_per_call
run_turn_loop-sum_tokens o messages =
    let (p, t, all, r, w) = run_turn_loop-IsSummed o messages in
    rw (sum_tokens-sum_of (run_turn_loop o messages).usage_per_call, p, t, r, w) refl

-- For the requests of a turn loop, billing the list of requests and billing the loop's own total of them cost the
-- same, if all are billed at one model with the cached tokens among each prompt's, and the total is no larger than
-- the tier's bound.
pub compute_total_cost-run_turn_loop :
    (c : Catalog) (o : TurnLoopOptions) (messages : List ChatMessage) (model : String)
    → All (IsBilled model) (run_turn_loop o messages).usage_per_call
    → request_size (sum_tokens (run_turn_loop o messages).usage_per_call) ≤ 200_000
    → (compute_total_cost c model
        (run_turn_loop o messages).usage_per_call
        (run_turn_loop o messages).usage).total
      ≡ (compute_cost c model (to_cost_usage (run_turn_loop o messages).usage)).total
compute_total_cost-run_turn_loop c o messages model h small =
    compute_total_cost-compute_cost c model (run_turn_loop o messages).usage_per_call
      (run_turn_loop o messages).usage
      (ap (λ m. or_default m model) (run_turn_loop-model o messages))
      (run_turn_loop-sum_tokens o messages) h small
