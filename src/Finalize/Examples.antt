-- ===== src/Finalize/Examples.antt =====
-- The theorems on finalization at a run of two models, of which one has a result.
use ai_model_arena.Common.{
  ◌≡◌, refl, ◌⊎◌, true, false, Option, none, some, String, [], ◌∷◌, arith, str_eq, if◌then◌else◌,
}
use ai_model_arena.Ledger.{Now, empty_state}
use ai_model_arena.Runs.{
  Run, RunStatus, next_attempt, status_code, can_claim, finalize_stale_ms, claim_run_finalization,
  complete_run_finalization, patch_index_after_finalize,
}
use ai_model_arena.RunLifecycle.{fresh_row, registered}
use ai_model_arena.Finalize.{
  RunResult, ArenaState, finalize_run_by_run_id, finalize_core, finalize_record,
}
use ai_model_arena.RunLifecycle.Settled.{outcome_of}
use ai_model_arena.Finalize.Verdict.{IsVerdict}
use ai_model_arena.Finalize.Once.{EndsAs, finalize-EndsAs, finalize-again}
use ai_model_arena.Finalize.Retry.{crashed, finalize-crashed}

abbrev now : Now
now = record { ms = 5000; day = "2026-01-02"; month = "2026-01" }

abbrev later : Now
later = record { ms = 500_000; day = "2026-01-02"; month = "2026-01" }

abbrev paths : String × String
paths = ("r.md", "r.json")

abbrev result : RunResult
result = record {
  cost = some 7;
  outcome = record {
    success = true;
    turns_used = 3;
    total_tool_calls = 2;
    stop_reason = "task_complete";
    duration_ms = 1000;
  };
}

abbrev read_result : String → Option RunResult
read_result model = if str_eq model "a" then some result else none

abbrev going : Run
going = registered 1000 0 (fresh_row "a" ∷ fresh_row "b" ∷ [])

abbrev arena : ArenaState
arena = record {
  tables = record { run = some going; cancelled = false };
  cost_ledger = [];
  budget = empty_state "2026-01-01";
}

finalize-EndsAs_example :
    (can_claim 5000 finalize_stale_ms going ≡ true
      × EndsAs now "run-1" read_result going arena
          (finalize_run_by_run_id now "run-1" paths read_result arena))
    ⊎ (can_claim 5000 finalize_stale_ms going ≡ false
        × finalize_run_by_run_id now "run-1" paths read_result arena ≡ (arena, false))
finalize-EndsAs_example = finalize-EndsAs now "run-1" paths read_result going arena refl

finalizes : (finalize_run_by_run_id now "run-1" paths read_result arena).1 ≡ true
unfolding finalize_run_by_run_id finalize_core finalize_record claim_run_finalization
    complete_run_finalization patch_index_after_finalize status_code
finalizes = refl

finalize-again_example :
    finalize_run_by_run_id later "run-1" paths read_result
      (finalize_run_by_run_id now "run-1" paths read_result arena).0
    ≡ ((finalize_run_by_run_id now "run-1" paths read_result arena).0, false)
finalize-again_example =
    finalize-again now later "run-1" paths paths read_result read_result arena finalizes

can : can_claim 5000 finalize_stale_ms going ≡ true
unfolding status_code
can = refl

finalize-crashed_example :
    let again =
      finalize_run_by_run_id later "run-1" paths read_result
        (crashed now read_result going arena) in
    (again.1 ≡ true)
    × ((status : RunStatus) × (outcome_of again.0.tables ≡ some (status, next_attempt going))
        × IsVerdict read_result going status)
    × (again.0.cost_ledger ≡ (crashed now read_result going arena).cost_ledger)
finalize-crashed_example =
    finalize-crashed now later "run-1" paths read_result going arena refl can (omega arith)
