-- ===== src/RunLifecycle/Gate.antt =====
-- The gate before a finalization in src/orchestrator/run-lifecycle.ts: what it waits for, and the
-- recovery of a run whose runner died.
use ai_model_arena.Common.{
  ℕ, ◌-◌, ◌≤◌, ◌≡◌, ◌≢◌, refl, ap, ◌∙◌, ◌⊎◌, inl, inr, Bool, true, false, not, ◌&&◌, Option, none,
  some, List, [], ◌∷◌, arith, Bool-cases, Option-cases, ltb, All,
}
use ai_model_arena.Runs.{
  RunStatus, stopped, RunModel, Run, RunTables, is_terminal, status_code, same_status, update_rows,
}
use ai_model_arena.RunLifecycle.{
  all_rows, all_terminal, row_is_terminal, is_complete_found, is_run_complete_by_run_id,
  is_stop_awaiting_runner, is_stop_grace_elapsed, stop_finalize_grace_ms,
  force_stop_non_terminal_models, set_status, prepare_found, prepare_run_finalization,
}

abbrev rows_found : Option Run → List RunModel
rows_found none = []
rows_found (some r) = r.per_model

abbrev pub rows_of : RunTables → List RunModel
rows_of t = rows_found t.run

abbrev pub AreTerminal : List RunModel → Type 0
AreTerminal rows = All (λ m. is_terminal m.status ≡ true) rows

all_rows-AreTerminal : (ms : List RunModel) → all_rows row_is_terminal ms ≡ true → AreTerminal ms
all_rows-AreTerminal [] h = tt
all_rows-AreTerminal (m ∷ ms) h = (ground arith, all_rows-AreTerminal ms (ground arith))

complete_found-AreTerminal :
    (o : Option Run) → is_complete_found o ≡ true → AreTerminal (rows_found o)
complete_found-AreTerminal none h = tt
complete_found-AreTerminal (some r) h = of_rows r.per_model h
  where
    of_rows : (ms : List RunModel) → all_terminal ms ≡ true → AreTerminal ms
    of_rows [] h = tt
    of_rows (m ∷ ms) h = all_rows-AreTerminal (m ∷ ms) h

-- Forcing the rows that are not terminal to a terminal status makes all terminal.
pub forced-AreTerminal :
    (s : RunStatus) (ms : List RunModel)
    → is_terminal s ≡ true
    → AreTerminal (update_rows (λ m. not (row_is_terminal m)) (set_status s) ms)
forced-AreTerminal s [] h = tt
forced-AreTerminal s (m ∷ ms) h = (ground arith, forced-AreTerminal s ms h)

complete-AreTerminal :
    (t : RunTables) → is_run_complete_by_run_id t ≡ true → AreTerminal (rows_of t)
unfolding is_run_complete_by_run_id
complete-AreTerminal t h = complete_found-AreTerminal t.run h

-- No live runner is waited for: the run is not stopped, or its signal is cleared, or it was stopped
-- at no known time or before the grace window.
abbrev pub IsReleased : ℕ → Bool → Run → Type 0
IsReleased now cancelled r =
    (r.status ≢ stopped)
    ⊎ ((cancelled ≡ false)
        ⊎ ((r.finished_at ≡ none)
            ⊎ ((at : ℕ) × (r.finished_at ≡ some at) × (stop_finalize_grace_ms ≤ now - at))))

not_awaiting-IsReleased :
    (now : ℕ) (c : Bool) (r : Run) → is_stop_awaiting_runner now c r ≡ false → IsReleased now c r
unfolding is_stop_awaiting_runner status_code
not_awaiting-IsReleased now c r h = elim (Option-cases r.finished_at) [
  | inl missing ↦ inr (inr (inl missing))
  | inr (at, e) ↦ elim (Bool-cases c) [
    | inl on ↦ elim (Bool-cases (ltb (now - at) stop_finalize_grace_ms)) [
      | inl inside ↦ inl (ground (arith, e, on, inside, h))
      | inr past ↦ inr (inr (inr (at, e, ground arith)))
    ]
    | inr off ↦ inr (inl off)
  ]
]

-- The four outcomes of the gate.
pub prepare-cases :
    (now : ℕ) (r : Run) (t : RunTables)
    → t.run ≡ some r
    → (prepare_run_finalization now t ≡ (t, false))
      ⊎ ((is_stop_awaiting_runner now t.cancelled r ≡ false)
          × ((prepare_run_finalization now t ≡ (t, true) × is_run_complete_by_run_id t ≡ true)
              ⊎ (prepare_run_finalization now t ≡ (force_stop_non_terminal_models t, true)
                  × is_stop_grace_elapsed now r ≡ true)))
unfolding prepare_run_finalization
prepare-cases now r t e = elim (Bool-cases (is_stop_awaiting_runner now t.cancelled r)) [
  | inl wait ↦ inl (found ∙ rw wait refl)
  | inr free ↦ elim (Bool-cases (is_run_complete_by_run_id t)) [
    | inl done ↦ inr (free, inl (found ∙ rw (free, done) refl, done))
    | inr more ↦ elim (Bool-cases (same_status r.status stopped && is_stop_grace_elapsed now r)) [
      | inl past ↦ inr (free, inr (found ∙ rw (free, more, past) refl, ground arith))
      | inr held ↦ inl (found ∙ rw (free, more, held) refl)
    ]
  ]
]
  where
    found : prepare_run_finalization now t ≡ prepare_found now (some r) t
    found = ap (λ o. prepare_found now o t) e

forced_found-AreTerminal :
    (t : RunTables) → AreTerminal (rows_of (force_stop_non_terminal_models t))
unfolding force_stop_non_terminal_models
forced_found-AreTerminal t = elim (Option-cases t.run) [
  | inl missing ↦ rw missing tt
  | inr (r, e) ↦ rw e (forced-AreTerminal stopped r.per_model refl)
]

-- If the gate admits the finalization of a run, then every row of the run is terminal afterwards,
-- and the run is not a stopped one whose signal is set inside the grace window.
pub prepare-IsReady :
    (now : ℕ) (r : Run) (t : RunTables)
    → t.run ≡ some r
    → (prepare_run_finalization now t).1 ≡ true
    → AreTerminal (rows_of (prepare_run_finalization now t).0) × IsReleased now t.cancelled r
prepare-IsReady now r t e h = elim (prepare-cases now r t e) [
  | inl refused ↦ ground (arith, refused)
  | inr (free, inl (same, done)) ↦
      (rw same (complete-AreTerminal t done), not_awaiting-IsReleased now t.cancelled r free)
  | inr (free, inr (forced, past)) ↦
      (rw forced (forced_found-AreTerminal t), not_awaiting-IsReleased now t.cancelled r free)
]
