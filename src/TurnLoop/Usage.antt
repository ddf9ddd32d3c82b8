-- ===== src/TurnLoop/Usage.antt =====
-- The token usage that src/agent-loop/turn-loop.ts adds up over the requests.
use ai_model_arena.Common.{
  ℕ, ◌+◌, Option, none, some, String, List, [], ◌∷◌, ◌++◌, ◌≡◌, refl, arith, str_eq, Bool-cases,
  inl, inr,
}
use ai_model_arena.Common.Dict.{or_default}
use ai_model_arena.Chat.{ChatMessage, ToolCall, TokenUsage}
use ai_model_arena.LoopState.{TurnLoopOptions, LoopState, add_counts, stamp_model}
use ai_model_arena.TurnLoop.{book_usage, run_tool_call, run_turn_loop}
use ai_model_arena.TurnLoop.Rule.{IsKept, run_turn_loop-keeps}

-- One counter summed over the requests, where a missing one counts nothing.
abbrev pub sum_of : (TokenUsage → Option ℕ) → List TokenUsage → ℕ
sum_of f [] = 0
sum_of f (u ∷ us) = or_default (f u) 0 + sum_of f us

sum_of-append :
    (f : TokenUsage → Option ℕ) (us vs : List TokenUsage)
    → sum_of f (us ++ vs) ≡ sum_of f us + sum_of f vs
sum_of-append f [] vs = omega arith
sum_of-append f (u ∷ us) vs = omega (arith, sum_of-append f us vs)

-- The accumulated counters are the sums over the requests booked.
abbrev pub IsSummed : LoopState → Type 0
IsSummed s =
    or_default s.usage.prompt 0 ≡ sum_of (λ u. u.prompt) s.usage_per_call
    × or_default s.usage.completion 0 ≡ sum_of (λ u. u.completion) s.usage_per_call
    × or_default s.usage.total 0 ≡ sum_of (λ u. u.total) s.usage_per_call
    × or_default s.usage.cache_read_tokens 0 ≡ sum_of (λ u. u.cache_read_tokens) s.usage_per_call
    × or_default s.usage.cache_write_tokens 0 ≡ sum_of (λ u. u.cache_write_tokens) s.usage_per_call

-- A counter that the model's name does not touch.
abbrev Ignores : (TokenUsage → Option ℕ) → Type 0
Ignores f = (m : Option String) (u : TokenUsage) → f (record u { model = m }) ≡ f u

stamp_model-get :
    (f : TokenUsage → Option ℕ)
    → Ignores f
    → (m : Option String) (u : TokenUsage) → f (stamp_model m u) ≡ f u
stamp_model-get f h none u = refl
stamp_model-get f h (some m) u = elim (Bool-cases (str_eq m "")) [
  | inl e ↦ rw e refl
  | inr e ↦ rw e (h (some m) u)
]

booked :
    (f : TokenUsage → Option ℕ)
    → Ignores f
    → (m : Option String) (a : Option ℕ) (us : List TokenUsage) (u : TokenUsage)
    → or_default a 0 ≡ sum_of f us
    → or_default (add_counts a (f u)) 0 ≡ sum_of f (us ++ stamp_model m u ∷ [])
booked f i m a us u h =
    rw (sum_of-append f us (stamp_model m u ∷ []), stamp_model-get f i m u, h) (omega arith)

book_usage-IsSummed :
    (o : TurnLoopOptions) (s : LoopState) (u : Option TokenUsage)
    → IsSummed s
    → IsSummed (book_usage o u s)
unfolding book_usage
book_usage-IsSummed o s none h = h
book_usage-IsSummed o s (some u) (p, c, t, r, w) =
    let m = o.billing_model in
    let us = s.usage_per_call in
    (
      booked (λ u. u.prompt) (λ m u. refl) m s.usage.prompt us u p,
      booked (λ u. u.completion) (λ m u. refl) m s.usage.completion us u c,
      booked (λ u. u.total) (λ m u. refl) m s.usage.total us u t,
      booked (λ u. u.cache_read_tokens) (λ m u. refl) m s.usage.cache_read_tokens us u r,
      booked (λ u. u.cache_write_tokens) (λ m u. refl) m s.usage.cache_write_tokens us u w,
    )

run_tool_call-IsSummed :
    (o : TurnLoopOptions) (turn : ℕ) (tc : ToolCall) (s : LoopState)
    → IsSummed s
    → IsSummed (run_tool_call o turn tc s)
unfolding run_tool_call
run_tool_call-IsSummed o turn tc s h = h

IsSummed-IsKept : (o : TurnLoopOptions) → IsKept o IsSummed
IsSummed-IsKept o = record {
  messages = λ s ms h. h;
  stop_reason = λ s r h. h;
  errors = λ s es h. h;
  turns_used = λ s turn h. h;
  usage = book_usage-IsSummed o;
  call = run_tool_call-IsSummed o;
}

-- Each of the five counters that the loop returns is the sum of that counter over the requests it booked, with a
-- counter that is missing read as zero: pricing per request and pricing the sum see the same tokens.
pub run_turn_loop-IsSummed :
    (o : TurnLoopOptions) (messages : List ChatMessage) → IsSummed (run_turn_loop o messages)
run_turn_loop-IsSummed o messages =
    run_turn_loop-keeps o IsSummed (IsSummed-IsKept o) messages (refl, refl, refl, refl, refl)
