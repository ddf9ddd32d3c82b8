-- ===== src/CircuitBreaker/Sequential.antt =====
-- Calls that follow one another, in src/providers/circuit-breaker.ts.
use ai_model_arena.Common.{
  ℕ, ◌+◌, ◌-◌, ◌≤◌, ◌<◌, ◌≡◌, ◌≢◌, length, ◌↔◌, ap, ◌∙◌, ◌⊎◌, inl, inr, List, [], ◌∷◌, arith,
}
use ai_model_arena.CircuitBreaker.{
  CircuitBreaker, CircuitState, closed, open_, half_open, enter, settle, exec, Outcome, success,
  failure, nested, refused,
}

-- The state shows what the failures say.
abbrev pub Agrees : CircuitState → ℕ → ℕ → Type 0
Agrees closed failures threshold = failures < threshold
Agrees open_ failures threshold = threshold ≤ failures
Agrees half_open failures threshold = threshold ≤ failures

abbrev pub IsConsistent : CircuitBreaker → Type 0
IsConsistent b = (0 < b.threshold) × Agrees b.state b.failures b.threshold

pub exec-IsConsistent :
    (now end : ℕ) (outcome : Outcome) (b : CircuitBreaker)
    → IsConsistent b
    → IsConsistent (exec now end outcome b).0
unfolding exec enter settle
exec-IsConsistent now end success b c = ground arith
exec-IsConsistent now end failure b c = ground arith
exec-IsConsistent now end nested b c = ground arith

-- A call is refused exactly when the breaker is open and the reset time has not passed; a refused
-- call leaves the breaker as it is.
pub exec-refused_iff :
    (now end : ℕ) (outcome : Outcome) (b : CircuitBreaker)
    → (((exec now end outcome b).1 ≡ refused)
        ↔ ((b.state ≡ open_) × (now - b.opened_at < b.reset_ms)))
      × ((exec now end outcome b).1 ≡ refused → (exec now end outcome b).0 ≡ b)
unfolding exec enter
exec-refused_iff now end outcome b = ground arith

-- The first call after the reset time decides: on success the breaker closes with no failures, on
-- failure it opens again from the time at which the call ended.
pub exec-probe :
    (now end : ℕ) (b : CircuitBreaker)
    → IsConsistent b
    → b.state ≡ open_
    → b.reset_ms ≤ now - b.opened_at
    → (((exec now end success b).0.state ≡ closed) × ((exec now end success b).0.failures ≡ 0))
      × (((exec now end failure b).0.state ≡ open_) × ((exec now end failure b).0.opened_at ≡ end))
unfolding exec enter settle
exec-probe now end b c e h = ground arith

-- Calls that fail one after another, each given by its start and its end.
unfoldable pub fail_all : List (ℕ × ℕ) → CircuitBreaker → CircuitBreaker
fail_all [] b = b
fail_all ((now, end) ∷ calls) b = fail_all calls (exec now end failure b).0

not_closed-fail :
    (now end : ℕ) (b : CircuitBreaker)
    → IsConsistent b
    → b.state ≢ closed
    → (exec now end failure b).0.state ≢ closed
unfolding exec enter settle
not_closed-fail now end b c h = ground arith

fail_all-not_closed :
    (calls : List (ℕ × ℕ)) (b : CircuitBreaker)
    → IsConsistent b
    → b.state ≢ closed
    → (fail_all calls b).state ≢ closed
unfolding fail_all
fail_all-not_closed [] b c h = h
fail_all-not_closed ((now, end) ∷ calls) b c h =
    fail_all-not_closed calls _ (exec-IsConsistent now end failure b c)
      (not_closed-fail now end b c h)

closed-fail :
    (now end : ℕ) (b : CircuitBreaker)
    → b.state ≡ closed
    → ((b.failures + 1 < b.threshold)
        × ((exec now end failure b).0 ≡ record b { failures = b.failures + 1 }))
      ⊎ ((b.threshold ≤ b.failures + 1) × ((exec now end failure b).0.state ≢ closed))
unfolding exec enter settle
closed-fail now end b e = ground arith

-- From a closed breaker, after calls that all fail it is still closed exactly when the failures have
-- not reached the threshold.
pub fail_all-closed_iff :
    (calls : List (ℕ × ℕ)) (b : CircuitBreaker)
    → IsConsistent b
    → b.state ≡ closed
    → ((fail_all calls b).state ≡ closed) ↔ (b.failures + length calls < b.threshold)
unfolding fail_all
fail_all-closed_iff [] b c e = (λ h. ground arith, λ h. e)
fail_all-closed_iff ((now, end) ∷ calls) b c e = elim (closed-fail now end b e) [
  | inl (more, next) ↦
      let (to, from) =
        fail_all-closed_iff calls (exec now end failure b).0 (exec-IsConsistent now end failure b c)
          (ap (λ r. r.state) next ∙ e) in
      ground (arith, next, to, from)
  | inr (last, out) ↦
      let stays = fail_all-not_closed calls _ (exec-IsConsistent now end failure b c) out in
      (λ h. absurd (stays h), λ h. absurd (omega arith))
]
