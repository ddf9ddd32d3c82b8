-- ===== src/Finalize/Retry.antt =====
-- The retry of a finalization that crashed: src/orchestrator/finalize/aggregate.ts with
-- src/orchestrator/run-lifecycle.ts.
use ai_model_arena.Common.{
  ℕ, ◌+◌, ◌≤◌, ◌≡◌, refl, sym, ◌∙◌, inl, inr, true, Option, some, String, arith,
}
use mathlib.Core.Bool.{false≢true}
use ai_model_arena.Ledger.{Now}
use ai_model_arena.Runs.{
  RunStatus, Run, status_code, can_claim, set_claim, next_attempt, finalize_stale_ms,
  claim_run_finalization,
}
use ai_model_arena.Finalize.{
  RunResult, ArenaState, aggregate, build_per_model_entries, record_costs, finalize_run_by_run_id,
}
use ai_model_arena.Finalize.CostLedger.{record_costs-again}
use ai_model_arena.RunLifecycle.Settled.{outcome_of}
use ai_model_arena.Finalize.Verdict.{IsVerdict}
use ai_model_arena.Finalize.Once.{claimed, claim-found, finalize-EndsAs}

-- What a finalizer leaves that claims the run, writes its costs and crashes.
abbrev pub crashed : Now → (String → Option RunResult) → Run → ArenaState → ArenaState
crashed now read_result r s =
    let claim = claim_run_finalization now.ms finalize_stale_ms s.tables in
    let built =
      build_per_model_entries now.ms (next_attempt r) (aggregate read_result r.per_model)
        r.per_model s.cost_ledger in
    record s { tables = claim.0; cost_ledger = built.1 }

can-reclaim :
    (now later : ℕ) (r : Run)
    → now + finalize_stale_ms ≤ later
    → can_claim later finalize_stale_ms (set_claim now r) ≡ true
unfolding status_code
can-reclaim now later r past = ground arith

next_attempt-claim : (now : ℕ) (r : Run) → next_attempt (set_claim now r) ≡ next_attempt r
unfolding status_code
next_attempt-claim now r = refl

-- If a finalizer claims a run, writes its costs and crashes, then the finalization that retries it
-- after the stale window, with the same results, ends the run as its results say, under the
-- attempt number of the crashed claim, and leaves the
-- ledger as it stands: no cost is written twice.
pub finalize-crashed :
    (now later : Now) (run_id : String) (paths : String × String)
    (read_result : String → Option RunResult) (r : Run) (s : ArenaState)
    → s.tables.run ≡ some r
    → can_claim now.ms finalize_stale_ms r ≡ true
    → now.ms + finalize_stale_ms ≤ later.ms
    → let again =
        finalize_run_by_run_id later run_id paths read_result (crashed now read_result r s) in
      (again.1 ≡ true)
      × ((status : RunStatus) × (outcome_of again.0.tables ≡ some (status, next_attempt r))
          × IsVerdict read_result r status)
      × (again.0.cost_ledger ≡ (crashed now read_result r s).cost_ledger)
unfolding status_code
finalize-crashed now later run_id paths read_result r s e can past =
    rw (claim-found now.ms r s.tables e can)
      (elim (finalize-EndsAs later run_id paths read_result claimed_run left refl) [
        | inl (can, ends) ↦ (ends.0, ends.1, ends.3 ∙ same_costs)
        | inr (cannot, same) ↦ absurd (false≢true (sym cannot ∙ can-reclaim now.ms later.ms r past))
      ])
  where
    claimed_run : Run
    claimed_run = set_claim now.ms r

    left : ArenaState
    left = record s {
      tables = claimed now.ms r s.tables;
      cost_ledger =
          record_costs now.ms (next_attempt r) (aggregate read_result r.per_model) r.per_model
            s.cost_ledger;
    }

    same_costs :
        record_costs later.ms
          (next_attempt claimed_run)
          (aggregate read_result r.per_model)
          r.per_model
          left.cost_ledger
        ≡ left.cost_ledger
    same_costs = rw (next_attempt-claim now.ms r) (
        record_costs-again now.ms later.ms (next_attempt r) (aggregate read_result r.per_model)
          r.per_model s.cost_ledger)
