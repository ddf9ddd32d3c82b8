-- ===== src/CircuitBreaker/Registry.antt =====
-- The breakers by provider and model, in src/providers/circuit-breaker.ts.
use ai_model_arena.Common.{
  ℕ, ◌-◌, ◌≤◌, ◌≡◌, refl, inl, inr, Option, none, some, [], ◌∷◌, arith, String, Bool-cases, All,
}
use ai_model_arena.Common.Dict.{Dict, get, get-put_self}
use ai_model_arena.CircuitBreaker.{
  CircuitBreaker, open_, is_stale, stale_after_ms, cleanup, pick_breaker, for_model, breaker_key,
}

-- What `cleanup` keeps: breakers that opened at most `stale_after_ms` ago.
abbrev pub IsKept : ℕ → CircuitBreaker → Type 0
IsKept now b = (b.state ≡ open_) × (now - b.opened_at ≤ stale_after_ms)

-- Each breaker that a cleanup leaves is open, and was opened at most an hour ago.
pub cleanup-IsKept : (now : ℕ) (m : Dict CircuitBreaker) → All (λ e. IsKept now e.1) (cleanup now m)
unfolding cleanup
cleanup-IsKept now [] = tt
cleanup-IsKept now ((key, b) ∷ m) = elim (Bool-cases (is_stale now b)) [
  | inl stale ↦ rw stale (cleanup-IsKept now m)
  | inr fresh ↦ rw fresh ((ground arith, ground arith), cleanup-IsKept now m)
]

pick_breaker-again :
    (key : String) (fresh : CircuitBreaker) (o : Option CircuitBreaker) (m : Dict CircuitBreaker)
    → get key m ≡ o
    → let (b, m') = pick_breaker key fresh o m in pick_breaker key fresh (get key m') m' ≡ (b, m')
unfolding pick_breaker
pick_breaker-again key fresh none m e = rw (get-put_self key fresh m) refl
pick_breaker-again key fresh (some b) m e = rw e refl

-- Asking again for a provider and a model gives the same breaker and leaves the map as it is,
-- whatever the configuration.
pub for_model-again :
    (provider model : String) (failure_threshold reset_timeout_ms : Option ℕ)
    (m : Dict CircuitBreaker)
    → let (b, m') = for_model provider model failure_threshold reset_timeout_ms m in
      for_model provider model failure_threshold reset_timeout_ms m' ≡ (b, m')
unfolding for_model
for_model-again provider model failure_threshold reset_timeout_ms m =
    pick_breaker-again (breaker_key provider model) _ (get (breaker_key provider model) m) m refl
