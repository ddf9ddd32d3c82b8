-- ===== src/Finalize.antt =====
-- Finalization of a run: `aggregate` and `buildPerModelEntries` of
-- src/orchestrator/finalize/aggregate.ts, the ledger write of src/db/query/costs.ts, and
-- `finalizeCore`, `finalizeRunByRunId` and the watcher's and the runner's calls of it in
-- src/orchestrator/run-lifecycle.ts, src/dashboard-server/live.ts and src/runner.ts. `read_result` is
-- the worker's result file of a model, if it can be read. The analysis, judge and notification jobs
-- write none of this state; the comparison report is its pair of paths.
pub mod CostLedger
pub mod Verdict
pub mod Once
pub mod Retry
mod Examples
use ai_model_arena.Common.{
  ℕ, Bool, true, false, not, ◌&&◌, ◌||◌, Option, none, some, String, str_eq, List, [], ◌∷◌, ◌++◌,
  map, if◌then◌else◌, ltb, ◌==◌,
}
use ai_model_arena.Ledger.{Now, BudgetState}
use ai_model_arena.Budget.{release_run_reservations}
use ai_model_arena.Runs.{
  RunStatus, completed, errored, RunOutcome, RunModel, Run, RunTables, ModelEntry,
  finalize_stale_ms, claim_run_finalization, complete_run_finalization, patch_index_after_finalize,
}
use ai_model_arena.RunLifecycle.{prepare_run_finalization, reconcile_stale_running_run}

-- What `result.json` holds: the cost is `none` where it is not a number.
pub record RunResult : Type 0 where
  pub cost : Option ℕ
  pub outcome : RunOutcome

-- A row of `cost_ledger`; its key is the model and the attempt.
pub record CostRow : Type 0 where
  pub model : String
  pub attempt : ℕ
  pub cost : ℕ
  pub recorded_at : ℕ

abbrev pub has_key : String → ℕ → List CostRow → Bool
has_key model attempt [] = false
has_key model attempt (c ∷ cs) =
    (str_eq c.model model && c.attempt == attempt) || has_key model attempt cs

-- INSERT ... ON CONFLICT DO NOTHING.
unfoldable pub insert_cost_ledger_entry : CostRow → List CostRow → List CostRow
insert_cost_ledger_entry row cs = if has_key row.model row.attempt cs then cs else cs ++ row ∷ []

abbrev pub aggregate :
    (String → Option RunResult) → List RunModel → List (String × Option RunResult)
aggregate read_result [] = []
aggregate read_result (m ∷ ms) = (m.model, read_result m.model) ∷ aggregate read_result ms

-- `entries.find((x) => x.model === m.model)?.result`
pub result_of : String → List (String × Option RunResult) → Option RunResult
result_of model [] = none
result_of model ((k, r) ∷ es) = if str_eq k model then r else result_of model es

abbrev pub cost_of : Option RunResult → ℕ
cost_of none = 0
cost_of (some r) = elim r.cost [ none ↦ 0 | some usd ↦ usd ]

-- The ledger write of one model, if its cost is positive.
abbrev pub record_cost : ℕ → ℕ → String → Option RunResult → List CostRow → List CostRow
record_cost now attempt model result cs =
    if ltb 0 (cost_of result)
    then insert_cost_ledger_entry
        (record { model = model; attempt = attempt; cost = cost_of result; recorded_at = now }) cs
    else cs

abbrev outcome_of_result : Option RunResult → Option RunOutcome
outcome_of_result none = none
outcome_of_result (some r) = some r.outcome

abbrev pub entry_of : List (String × Option RunResult) → RunModel → ModelEntry
entry_of entries m = record {
  model = m.model;
  outcome = outcome_of_result (result_of m.model entries);
}

-- The ledger writes, in the order of the rows.
unfoldable pub record_costs :
    ℕ → ℕ → List (String × Option RunResult) → List RunModel → List CostRow → List CostRow
record_costs now attempt entries [] cs = cs
record_costs now attempt entries (m ∷ ms) cs =
    record_costs now attempt entries ms
      (record_cost now attempt m.model (result_of m.model entries) cs)

abbrev pub build_per_model_entries :
    ℕ
    → ℕ
    → List (String × Option RunResult)
    → List RunModel
    → List CostRow
    → List ModelEntry × List CostRow
build_per_model_entries now attempt entries ms cs =
    (map (entry_of entries) ms, record_costs now attempt entries ms cs)

-- The tables of one run, the ledger rows of it, and the budget state file.
pub record ArenaState : Type 0 where
  pub tables : RunTables
  pub cost_ledger : List CostRow
  pub budget : BudgetState

abbrev pub any_completed : List ModelEntry → Bool
any_completed [] = false
any_completed (e ∷ es) = elim e.outcome [ none ↦ any_completed es | some o ↦ true ]

abbrev is_set : Option ℕ → Bool
is_set none = false
is_set (some at) = true

abbrev pub final_status : Option ℕ → List ModelEntry → RunStatus
final_status reaped_at es =
    if is_set reaped_at && not (any_completed es) then errored else completed

-- `entry.result?.costUsd ?? 0`
abbrev pub actual_costs : List (String × Option RunResult) → List (String × ℕ)
actual_costs [] = []
actual_costs ((model, r) ∷ es) = (model, cost_of r) ∷ actual_costs es

-- The steps of `finalizeCore` on the record that it reads.
unfoldable pub finalize_record :
    Now
    → String
    → String × String
    → ℕ
    → List (String × Option RunResult)
    → Run
    → ArenaState
    → ArenaState × Bool
finalize_record now run_id paths attempt entries r s =
    let built = build_per_model_entries now.ms attempt entries r.per_model s.cost_ledger in
    let patched = patch_index_after_finalize now.ms paths built.0 s.tables in
    let done = complete_run_finalization (final_status r.reaped_at built.0) patched in
    (
      record {
        tables = done.0;
        cost_ledger = built.1;
        budget = release_run_reservations now run_id (actual_costs entries) s.budget;
      },
      done.1,
    )

abbrev pub core_found :
    Now
    → String
    → String × String
    → ℕ
    → List (String × Option RunResult)
    → Option Run
    → ArenaState
    → ArenaState × Bool
core_found now run_id paths attempt entries none s = (s, false)
core_found now run_id paths attempt entries (some r) s =
    finalize_record now run_id paths attempt entries r s

-- The error that the run is not found leaves the state as it is; the caller logs it.
unfoldable pub finalize_core :
    Now
    → String
    → String × String
    → ℕ
    → List (String × Option RunResult)
    → ArenaState
    → ArenaState × Bool
finalize_core now run_id paths attempt entries s =
    core_found now run_id paths attempt entries s.tables.run s

abbrev pub claimed_core :
    Now
    → String
    → String × String
    → List (String × Option RunResult)
    → RunTables × Option ℕ
    → ArenaState
    → ArenaState × Bool
claimed_core now run_id paths entries (t, none) s = (record s { tables = t }, false)
claimed_core now run_id paths entries (t, some attempt) s =
    finalize_core now run_id paths attempt entries (record s { tables = t })

abbrev pub by_run_id_found :
    Now
    → String
    → String × String
    → (String → Option RunResult)
    → Option Run
    → ArenaState
    → ArenaState × Bool
by_run_id_found now run_id paths read_result none s = (s, false)
by_run_id_found now run_id paths read_result (some r) s =
    claimed_core now run_id paths (aggregate read_result r.per_model)
      (claim_run_finalization now.ms finalize_stale_ms s.tables) s

-- Whether this call won the claim and the run reached its end.
unfoldable pub finalize_run_by_run_id :
    Now → String → String × String → (String → Option RunResult) → ArenaState → ArenaState × Bool
finalize_run_by_run_id now run_id paths read_result s =
    by_run_id_found now run_id paths read_result s.tables.run s

abbrev gated :
    Now
    → String
    → String × String
    → (String → Option RunResult)
    → RunTables × Bool
    → ArenaState
    → ArenaState × Bool
gated now run_id paths read_result (t, true) s =
    finalize_run_by_run_id now run_id paths read_result (record s { tables = t })
gated now run_id paths read_result (t, false) s = (record s { tables = t }, false)

-- The runner's finalization of its own run.
unfoldable pub maybe_finalize_run :
    Now → String → String × String → (String → Option RunResult) → ArenaState → ArenaState × Bool
maybe_finalize_run now run_id paths read_result s =
    gated now run_id paths read_result (prepare_run_finalization now.ms s.tables) s

-- One tick of the watcher for the record that it read.
unfoldable pub attempt_finalize_candidate :
    ℕ
    → Now
    → String
    → String × String
    → (String → Option RunResult)
    → Run
    → ArenaState
    → ArenaState × Bool
attempt_finalize_candidate stale_after now run_id paths read_result seen s =
    maybe_finalize_run now run_id paths read_result
      (record s { tables = (reconcile_stale_running_run stale_after now.ms seen s.tables).0 })
