-- ===== src/CircuitBreaker/Examples.antt =====
-- The theorems on src/providers/circuit-breaker.ts at concrete breakers.
use ai_model_arena.Common.{◌≡◌, refl, none, some, [], ◌∷◌, arith}
use ai_model_arena.CircuitBreaker.{
  CircuitBreaker, closed, open_, half_open, enter, settle, exec, success, failure, enters, settles,
  run,
}
use ai_model_arena.CircuitBreaker.Sequential.{fail_all}
use ai_model_arena.CircuitBreaker.Interleaved.{late_success_disarms}

abbrev fresh : CircuitBreaker
fresh = record {
  state = closed;
  failures = 0;
  opened_at = 0;
  threshold = 2;
  reset_ms = 100;
  labels = some (record { provider = "openai"; model = "gpt-4o" });
  gauge = none;
}

abbrev tripped : CircuitBreaker
tripped = record fresh { state = open_; failures = 2; opened_at = 50; gauge = some 1 }

trips : fail_all ((1, 2) ∷ (3, 50) ∷ []) fresh ≡ tripped
unfolding fail_all exec enter settle
trips = refl

late_success_disarms_test :
    let after = run (settles 60 success ∷ enters 150 ∷ settles 151 failure ∷ []) tripped in
    (after.state ≡ half_open) × (enter 152 after ≡ some after)
late_success_disarms_test =
    late_success_disarms tripped 60 150 151 152 refl (omega arith) (omega arith)
