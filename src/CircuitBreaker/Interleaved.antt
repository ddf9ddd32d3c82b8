-- ===== src/CircuitBreaker/Interleaved.antt =====
-- Calls that overlap, in src/providers/circuit-breaker.ts.
use ai_model_arena.Common.{
  ℕ, ◌-◌, ◌≤◌, ◌<◌, ◌≡◌, refl, ◌⊎◌, inl, inr, Option, none, some, List, [], ◌∷◌, arith, Bool-cases,
}
use ai_model_arena.CircuitBreaker.{
  CircuitBreaker, CircuitState, closed, open_, half_open, is_half_open, Labels, enter, settle,
  success, failure, nested, Event, enters, settles, step, run,
}

-- The metric of a labelled breaker shows 1 unless the breaker is closed, and no series or 0 then.
abbrev pub Shows : Option Labels → CircuitState → Option ℕ → Type 0
Shows none state gauge = Unit {0}
Shows (some labels) closed gauge = (gauge ≡ none) ⊎ (gauge ≡ some 0)
Shows (some labels) _ gauge = gauge ≡ some 1

abbrev pub IsShown : CircuitBreaker → Type 0
IsShown b = Shows b.labels b.state b.gauge

step-IsShown : (e : Event) (b : CircuitBreaker) → IsShown b → IsShown (step e b)
unfolding step enter settle
step-IsShown (enters now) b s = ground arith
step-IsShown (settles now success) b s = ground arith
step-IsShown (settles now failure) b s = ground arith
step-IsShown (settles now nested) b s = s

-- If the gauge of a breaker shows its state, then it does so after any interleaving of calls that
-- enter and calls that settle.
pub run-IsShown : (es : List Event) (b : CircuitBreaker) → IsShown b → IsShown (run es b)
unfolding run
run-IsShown [] b s = s
run-IsShown (e ∷ es) b s = run-IsShown es (step e b) (step-IsShown e b s)

-- A breaker closes only by a call that succeeds while it is half open.
pub step-closed :
    (e : Event) (b : CircuitBreaker)
    → (step e b).state ≡ closed
    → (b.state ≡ closed) ⊎ ((b.state ≡ half_open) × ((now : ℕ) × (e ≡ settles now success)))
unfolding step enter settle
step-closed (enters now) b h = ground arith
step-closed (settles now success) b h = elim (Bool-cases (is_half_open b.state)) [
  | inl half ↦ inr (ground arith, (now, refl))
  | inr other ↦ inl (ground arith)
]
step-closed (settles now failure) b h = ground arith
step-closed (settles now nested) b h = inl h

-- A call from before the breaker opened that succeeds while it is open clears the failures. With a
-- threshold above 1 a failed probe then leaves the breaker half open, and the next call goes through.
pub late_success_disarms :
    (b : CircuitBreaker) (late now end next : ℕ)
    → b.state ≡ open_
    → 1 < b.threshold
    → b.reset_ms ≤ now - b.opened_at
    → let after = run (settles late success ∷ enters now ∷ settles end failure ∷ []) b in
      (after.state ≡ half_open) × (enter next after ≡ some after)
unfolding run step enter settle
late_success_disarms b late now end next e h elapsed = ground arith
