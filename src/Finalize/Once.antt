-- ===== src/Finalize/Once.antt =====
-- What a finalization of src/orchestrator/run-lifecycle.ts leaves, and that it takes effect once.
use ai_model_arena.Common.{
  ℕ, ◌≡◌, refl, sym, ap, ◌∙◌, ◌⊎◌, inl, inr, Bool, true, false, Option, none, some, String, List,
  arith, Bool-cases, Option-cases, map, All, subst, ◌+◌,
}
use mathlib.Core.Bool.{false≢true}
use ai_model_arena.Common.Dict.{get, get_or, get-del_self}
use ai_model_arena.Ledger.{Now, is_safe_model, no_spend}
use ai_model_arena.Ledger.Balance.{day_spend}
use ai_model_arena.Budget.Runs.{sum_for, release_run-spend}
use ai_model_arena.Finalize.CostLedger.Billed.{IsBilled, record_costs-AreBilled}
use ai_model_arena.Budget.{release_run_reservations}
use ai_model_arena.Runs.{
  RunStatus, finalizing, Run, RunTables, status_code, can_claim, set_claim, next_attempt,
  finalize_stale_ms, claim_run_finalization, claim_found, complete_run_finalization,
  patch_index_after_finalize,
}
use ai_model_arena.RunLifecycle.Settled.{settled, outcome_of}
use ai_model_arena.Finalize.{
  RunResult, ArenaState, aggregate, actual_costs, entry_of, record_costs, final_status,
  finalize_record, finalize_core, claimed_core, by_run_id_found, finalize_run_by_run_id,
}
use ai_model_arena.Finalize.Verdict.{IsVerdict, final_status-IsVerdict}

-- The tables of a run that a finalization claimed at `now`.
abbrev pub claimed : ℕ → Run → RunTables → RunTables
claimed now r t = record t { run = some (set_claim now r) }

pub claim-found :
    (now : ℕ) (r : Run) (t : RunTables)
    → t.run ≡ some r
    → can_claim now finalize_stale_ms r ≡ true
    → claim_run_finalization now finalize_stale_ms t ≡ (claimed now r t, some (next_attempt r))
unfolding claim_run_finalization
claim-found now r t e can = ap (λ o. claim_found now finalize_stale_ms o t) e ∙ rw can refl

claim-missed :
    (now : ℕ) (r : Run) (t : RunTables)
    → t.run ≡ some r
    → can_claim now finalize_stale_ms r ≡ false
    → claim_run_finalization now finalize_stale_ms t ≡ (t, none)
unfolding claim_run_finalization
claim-missed now r t e cannot = ap (λ o. claim_found now finalize_stale_ms o t) e ∙ rw cannot refl

-- The state that the winner of the claim works on.
abbrev pub won : Now → Run → ArenaState → ArenaState
won now r s = record s { tables = claimed now.ms r s.tables }

finalize-found :
    (now : Now) (run_id : String) (paths : String × String)
    (read_result : String → Option RunResult) (r : Run) (s : ArenaState)
    → s.tables.run ≡ some r
    → can_claim now.ms finalize_stale_ms r ≡ true
    → finalize_run_by_run_id now run_id paths read_result s
      ≡ finalize_record now run_id paths
          (next_attempt r)
          (aggregate read_result r.per_model)
          (set_claim now.ms r)
          (won now r s)
unfolding finalize_run_by_run_id finalize_core
finalize-found now run_id paths read_result r s e can =
    ap (λ o. by_run_id_found now run_id paths read_result o s) e
    ∙ ap (λ c. claimed_core now run_id paths (aggregate read_result r.per_model) c s)
        (claim-found now.ms r s.tables e can)

-- A finalization that cannot claim the run changes nothing.
pub finalize-missed :
    (now : Now) (run_id : String) (paths : String × String)
    (read_result : String → Option RunResult) (r : Run) (s : ArenaState)
    → s.tables.run ≡ some r
    → can_claim now.ms finalize_stale_ms r ≡ false
    → finalize_run_by_run_id now run_id paths read_result s ≡ (s, false)
unfolding finalize_run_by_run_id
finalize-missed now run_id paths read_result r s e cannot =
    ap (λ o. by_run_id_found now run_id paths read_result o s) e
    ∙ ap (λ c. claimed_core now run_id paths (aggregate read_result r.per_model) c s)
        (claim-missed now.ms r s.tables e cannot)

record-settled :
    (now : Now) (run_id : String) (paths : String × String) (n : ℕ)
    (entries : List (String × Option RunResult)) (r : Run) (s : ArenaState)
    → s.tables.run ≡ some r
    → r.status ≡ finalizing
    → let after = finalize_record now run_id paths n entries r s in
      (after.1 ≡ true)
      × (outcome_of after.0.tables
          ≡ some (
            final_status r.reaped_at (map (entry_of entries) r.per_model),
            r.finalization_attempt,
          ))
unfolding finalize_record patch_index_after_finalize complete_run_finalization status_code
record-settled now run_id paths n entries r s e status = rw (e, status) (refl, refl)

record-released :
    (now : Now) (run_id : String) (paths : String × String) (n : ℕ)
    (entries : List (String × Option RunResult)) (r : Run) (s : ArenaState)
    → let after = finalize_record now run_id paths n entries r s in
      (get run_id after.0.budget.run_reservations ≡ none)
      × (after.0.cost_ledger ≡ record_costs now.ms n entries r.per_model s.cost_ledger)
unfolding finalize_record release_run_reservations
record-released now run_id paths n entries r s = (get-del_self run_id _, refl)

-- What the day's spend of a model has more: its actual cost.
abbrev pub IsBooked :
    Now → String → List (String × Option RunResult) → ArenaState → ArenaState → Type 0
IsBooked now model entries s s' =
    day_spend now.day (get_or model s'.budget.models no_spend)
    ≡ day_spend now.day (get_or model s.budget.models no_spend)
      + sum_for model (actual_costs entries)

record-IsBooked :
    (now : Now) (run_id : String) (paths : String × String) (n : ℕ)
    (entries : List (String × Option RunResult)) (r : Run) (s : ArenaState) (model : String)
    → is_safe_model model ≡ true
    → IsBooked now model entries s (finalize_record now run_id paths n entries r s).0
unfolding finalize_record
record-IsBooked now run_id paths n entries r s model safe =
    (release_run-spend now run_id model (actual_costs entries) s.budget safe).0

-- The end of a run whose claim at `now` wins.
abbrev pub EndsAs :
    Now → String → (String → Option RunResult) → Run → ArenaState → ArenaState × Bool → Type 0
EndsAs now run_id read_result r s after =
    let entries = aggregate read_result r.per_model in
    (after.1 ≡ true)
    × ((status : RunStatus) × (outcome_of after.0.tables ≡ some (status, next_attempt r))
        × IsVerdict read_result r status)
    × (get run_id after.0.budget.run_reservations ≡ none)
    × (after.0.cost_ledger ≡ record_costs now.ms (next_attempt r) entries r.per_model s.cost_ledger)
    × All (IsBilled (next_attempt r) entries s.cost_ledger after.0.cost_ledger) r.per_model
    × ((model : String) → is_safe_model model ≡ true → IsBooked now model entries s after.0)

-- A finalization of a run that can be claimed ends it as completed, or as errored if it was reaped
-- and no model has a result, under the next attempt number; it forgets what was recorded as reserved for the run, books
-- each safe model's actual cost on the day, and the cost ledger then has each positive cost under
-- that attempt, if it had none. If the run cannot be claimed, the call changes nothing.
pub finalize-EndsAs :
    (now : Now) (run_id : String) (paths : String × String)
    (read_result : String → Option RunResult) (r : Run) (s : ArenaState)
    → s.tables.run ≡ some r
    → (can_claim now.ms finalize_stale_ms r ≡ true
        × EndsAs now run_id read_result r s (finalize_run_by_run_id now run_id paths read_result s))
      ⊎ (can_claim now.ms finalize_stale_ms r ≡ false
          × finalize_run_by_run_id now run_id paths read_result s ≡ (s, false))
finalize-EndsAs now run_id paths read_result r s e =
    elim (Bool-cases (can_claim now.ms finalize_stale_ms r)) [
      | inl can ↦
          let entries = aggregate read_result r.per_model in
          let over =
            record-settled now run_id paths (next_attempt r) entries (set_claim now.ms r)
              (won now r s) refl refl in
          let released =
            record-released now run_id paths (next_attempt r) entries (set_claim now.ms r)
              (won now r s) in
          inl (
            can,
            rw (finalize-found now run_id paths read_result r s e can) (
              over.0,
              (
                final_status r.reaped_at (map (entry_of entries) r.per_model),
                over.1,
                final_status-IsVerdict read_result r,
              ),
              released.0,
              released.1,
              subst (λ cs. All (IsBilled (next_attempt r) entries s.cost_ledger cs) r.per_model)
                  (sym released.1)
                  (record_costs-AreBilled now.ms (next_attempt r) entries r.per_model
                    s.cost_ledger),
              record-IsBooked now run_id paths (next_attempt r) entries (set_claim now.ms r)
                  (won now r s),
            ),
          )
      | inr cannot ↦ inr (cannot, finalize-missed now run_id paths read_result r s e cannot)
    ]

verdict_settled :
    (read_result : String → Option RunResult) (r : Run) (status : RunStatus)
    → IsVerdict read_result r status
    → settled status ≡ true
verdict_settled read_result r status (inl bad) = rw bad.0 refl
verdict_settled read_result r status (inr good) = rw good.0 refl

settled-can_claim :
    (now : ℕ) (r : Run) → settled r.status ≡ true → can_claim now finalize_stale_ms r ≡ false
unfolding status_code
settled-can_claim now r h = ground arith

not_found-missed :
    (now : Now) (run_id : String) (paths : String × String)
    (read_result : String → Option RunResult) (s : ArenaState)
    → s.tables.run ≡ none
    → finalize_run_by_run_id now run_id paths read_result s ≡ (s, false)
unfolding finalize_run_by_run_id
not_found-missed now run_id paths read_result s e =
    ap (λ o. by_run_id_found now run_id paths read_result o s) e

settled-missed :
    (now : Now) (run_id : String) (paths : String × String)
    (read_result : String → Option RunResult) (status : RunStatus) (n : ℕ) (s : ArenaState)
    → settled status ≡ true
    → outcome_of s.tables ≡ some (status, n)
    → finalize_run_by_run_id now run_id paths read_result s ≡ (s, false)
settled-missed now run_id paths read_result status n s over h = elim (Option-cases s.tables.run) [
  | inl missing ↦ not_found-missed now run_id paths read_result s missing
  | inr (r, e) ↦
      let same : r.status ≡ status = ground (arith, e, h) in
      finalize-missed now run_id paths read_result r s e (settled-can_claim now.ms r (rw same over))
]

-- If a finalization of a run reports success, then any later one, by whichever caller and with
-- whatever result files, changes nothing: neither the tables nor the cost ledger nor the budget.
pub finalize-again :
    (now later : Now) (run_id : String) (paths later_paths : String × String)
    (read_result later_result : String → Option RunResult) (s : ArenaState)
    → (finalize_run_by_run_id now run_id paths read_result s).1 ≡ true
    → let after = (finalize_run_by_run_id now run_id paths read_result s).0 in
      finalize_run_by_run_id later run_id later_paths later_result after ≡ (after, false)
finalize-again now later run_id paths later_paths read_result later_result s h =
    elim (Option-cases s.tables.run) [
      | inl missing ↦ absurd (
          false≢true
            (sym (ap (λ p. p.1) (not_found-missed now run_id paths read_result s missing)) ∙ h))
      | inr (r, e) ↦ elim (finalize-EndsAs now run_id paths read_result r s e) [
        | inl (can, ends) ↦
            settled-missed later run_id later_paths later_result ends.1.0 (next_attempt r) _
              (verdict_settled read_result r ends.1.0 ends.1.2) ends.1.1
        | inr (cannot, same) ↦ absurd (false≢true (sym (ap (λ p. p.1) same) ∙ h))
      ]
    ]
