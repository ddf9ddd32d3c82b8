-- ===== src/Runner.antt =====
-- What the runner's loop in src/runner.ts does to the tables of the run and to the in-memory queue
-- for one delivered task. The tables at the end are an argument of their own, since other processes
-- write them while the agent loop runs. A database error, which the code only logs, is left out.
-- The loop over fallback targets is in Fallback, the agent loop in TurnLoop, and the
-- finalization that a runner may start at the end in Finalize.
pub mod Endings
mod Examples
use ai_model_arena.Common.{
  ℕ, ◌+◌, ◌-◌, ◌*◌, Bool, true, false, not, ◌&&◌, ◌||◌, Option, none, some, String, List, [], ◌∷◌,
  if◌then◌else◌, leb, ltb, max,
}
use ai_model_arena.Queue.{Task, Queue, is_terminal_attempt, default_max_attempts, ack, nack}
use ai_model_arena.Runs.{
  RunStatus, claimed, running, stopped, failed, completed, Run, RunTables, same_status,
  transition_task_state,
}
use ai_model_arena.RunLifecycle.{acknowledge_stop}

pub record RunnerState : Type 0 where
  pub tables : RunTables
  pub queue : Queue

abbrev is_stopped_found : Option Run → Bool
is_stopped_found none = false
is_stopped_found (some r) = same_status r.status stopped

-- `isRunCancelled(runId) || getRunRecord(runId)?.status === 'stopped'`
unfoldable pub is_run_stopped : RunTables → Bool
is_run_stopped t = t.cancelled || is_stopped_found t.run

-- `isTerminalFailure`
abbrev pub is_last : Task → Bool
is_last t = is_terminal_attempt t.attempts default_max_attempts

-- A task whose run is cancelled before it starts: the row is stopped and the task is done with.
unfoldable pub skip_cancelled : ℕ → String → Task → RunnerState → RunnerState
skip_cancelled now runner_id t s = record {
  tables =
      acknowledge_stop (transition_task_state now t.body.model stopped (some runner_id) s.tables);
  queue = ack t.task_id s.queue;
}

-- The row of a task that starts.
unfoldable pub claim_task : ℕ → String → Task → RunTables → RunTables
claim_task now runner_id t tables =
    transition_task_state now t.body.model claimed (some runner_id) tables

unfoldable pub start_task : ℕ → String → Task → RunTables → RunTables
start_task now runner_id t tables =
    transition_task_state now t.body.model running (some runner_id) tables

-- A model that is not in the catalog: on the last attempt its row fails.
unfoldable pub miss_model : ℕ → String → Task → RunnerState → RunnerState
miss_model now runner_id t s = record {
  tables =
      if is_last t
      then acknowledge_stop
          (transition_task_state now t.body.model failed (some runner_id) s.tables)
      else s.tables;
  queue = nack now t.task_id s.queue;
}

-- An API key that is not set: the last attempt ends the row and the task, another one is nacked.
unfoldable pub miss_key : ℕ → String → Task → RunnerState → RunnerState
miss_key now runner_id t s =
    if is_last t
    then record {
      tables =
          acknowledge_stop
            (transition_task_state now t.body.model failed (some runner_id) s.tables);
      queue = ack t.task_id s.queue;
    }
    else record s { queue = nack now t.task_id s.queue }

-- The status of a task whose agent loop came to an end.
abbrev pub final_task_status : Bool → Bool → RunStatus
final_task_status run_stopped has_errors =
    if run_stopped then stopped else if has_errors then failed else completed

unfoldable pub finish_task : ℕ → String → Bool → Task → RunnerState → RunnerState
finish_task now runner_id has_errors t s =
    let run_stopped = is_run_stopped s.tables in
    let written =
      transition_task_state now t.body.model (final_task_status run_stopped has_errors)
        (some runner_id) s.tables in
    record {
      tables = if run_stopped then acknowledge_stop written else written;
      queue = ack t.task_id s.queue;
    }

-- The `catch` branch: only the last attempt ends the row.
unfoldable pub fail_task : ℕ → String → Task → RunnerState → RunnerState
fail_task now runner_id t s = record {
  tables =
      if is_last t
      then acknowledge_stop (
          transition_task_state now t.body.model
            (if is_run_stopped s.tables then stopped else failed) (some runner_id) s.tables)
      else s.tables;
  queue = nack now t.task_id s.queue;
}

-- The nack of `shutdown`: it leaves the row as it is.
unfoldable pub abandon_task : ℕ → Task → RunnerState → RunnerState
abandon_task now t s = record s { queue = nack now t.task_id s.queue }

-- How the execution of a task ends; `abandoned` is a shutdown that waited for it in vain.
pub data Ending : Type 0 where
  missing_model missing_key throws : Ending
  finishes : (has_errors : Bool) → Ending
  abandoned : Ending

unfoldable pub end_task : ℕ → String → Ending → Task → RunnerState → RunnerState
end_task now runner_id missing_model t s = miss_model now runner_id t s
end_task now runner_id missing_key t s = miss_key now runner_id t s
end_task now runner_id throws t s = fail_task now runner_id t s
end_task now runner_id (finishes has_errors) t s = finish_task now runner_id has_errors t s
end_task now runner_id abandoned t s = abandon_task now t s

pub record RunLimits : Type 0 where
  pub max_execution_sec : ℕ
  pub max_cost_usd : ℕ

pub data RunLimitStopReason : Type 0 where
  max_execution_time_exceeded max_cost_exceeded : RunLimitStopReason

-- `evaluateRunLimits` of src/runner/limits.ts.
unfoldable pub evaluate_run_limits : RunLimits → ℕ → ℕ → Option RunLimitStopReason
evaluate_run_limits limits elapsed_ms run_cost =
    if ltb 0 limits.max_execution_sec && ltb (limits.max_execution_sec * 1000) elapsed_ms
    then some max_execution_time_exceeded
    else if ltb 0 limits.max_cost_usd && ltb limits.max_cost_usd run_cost
    then some max_cost_exceeded
    else none

-- The cost of each prior call, of which `sumPriorRunSpend` takes the greatest.
pub sum_prior_run_spend : List ℕ → ℕ
sum_prior_run_spend [] = 0
sum_prior_run_spend (cost ∷ costs) = max cost (sum_prior_run_spend costs)

-- What the runner has spent: the seed of the attempt, the cost of the attempt, and the greatest sum
-- that it saw.
pub record Spent : Type 0 where
  pub seeded_run_cost : ℕ
  pub attempt_run_cost : ℕ
  pub prev_run_cost : ℕ

unfoldable pub add_turn_cost : ℕ → Spent → Spent
add_turn_cost cost s =
    let attempt = s.attempt_run_cost + cost in
    record s {
      attempt_run_cost = attempt;
      prev_run_cost = max s.prev_run_cost (s.seeded_run_cost + attempt);
    }

-- A fallback hop starts its attempt from nothing.
unfoldable pub hop : Spent → Spent
hop s = record s { attempt_run_cost = 0 }
