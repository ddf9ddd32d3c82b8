-- ===== src/Runner/Examples.antt =====
-- The theorems on src/runner.ts at one delivered task, and tests.
use ai_model_arena.Common.{◌≡◌, refl, false, none, some, [], ◌∷◌}
use ai_model_arena.Queue.{Task, empty}
use ai_model_arena.RunLifecycle.{fresh_row, registered}
use ai_model_arena.Runner.{RunnerState, RunLimits, evaluate_run_limits, max_execution_time_exceeded}

-- The last of five attempts.
abbrev task : Task
task = record {
  task_id = "run-1-a";
  attempts = 4;
  due_at = none;
  idempotency_key = none;
  body = record {
    session_id = "run-1-a";
    prompt_id = none;
    prompt_version = none;
    provider = "openai";
    model = "a";
    scenario = "todo";
    config = [];
    enqueued_at = "2026-01-01T00:00:00.000Z";
  };
}

abbrev state : RunnerState
state = record {
  tables = record { run = some (registered 1000 0 (fresh_row "a" ∷ [])); cancelled = false };
  queue = record empty { in_flight = ("run-1-a", task) ∷ [] };
}

abbrev limits : RunLimits
limits = record { max_execution_sec = 60; max_cost_usd = 0 }

no_cost_limit : evaluate_run_limits limits 60_000 1000 ≡ none
unfolding evaluate_run_limits
no_cost_limit = refl

too_long : evaluate_run_limits limits 60_001 0 ≡ some max_execution_time_exceeded
unfolding evaluate_run_limits
too_long = refl
