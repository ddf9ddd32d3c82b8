-- ===== src/Finalize/Verdict.antt =====
-- The status that a finalization of src/orchestrator/run-lifecycle.ts settles on.
use ai_model_arena.Common.{
  ◌≡◌, ◌≢◌, refl, sym, ap, ◌∙◌, ◌⊎◌, inl, inr, Bool, true, false, ◌||◌, Option, none, some, String,
  str_eq, eq_iff, eq_refl, List, [], ◌∷◌, map, arith, Bool-cases, Option-cases, All,
}
use mathlib.Core.Bool.{true≢false}
use ai_model_arena.Runs.{RunStatus, completed, errored, Run, RunModel}
use ai_model_arena.Finalize.{RunResult, aggregate, result_of, entry_of, any_completed, final_status}

-- No model of the rows has a result file that can be read.
abbrev pub HaveNoResult : (String → Option RunResult) → List RunModel → Type 0
HaveNoResult read_result ms = All (λ m. read_result m.model ≡ none) ms

-- Errored is for a reaped run without a result, and completed for every other run.
abbrev pub IsVerdict : (String → Option RunResult) → Run → RunStatus → Type 0
IsVerdict read_result r s =
    ((s ≡ errored) × (r.reaped_at ≢ none) × HaveNoResult read_result r.per_model)
    ⊎ ((s ≡ completed) × ((r.reaped_at ≡ none) ⊎ (HaveNoResult read_result r.per_model → ⊥)))

abbrev has_model : String → List RunModel → Bool
has_model k [] = false
has_model k (m ∷ ms) = str_eq m.model k || has_model k ms

result_of-aggregate :
    (read_result : String → Option RunResult) (k : String) (ms : List RunModel)
    → has_model k ms ≡ true
    → result_of k (aggregate read_result ms) ≡ read_result k
unfolding result_of
result_of-aggregate read_result k [] h = cc
result_of-aggregate read_result k (m ∷ ms) h = elim (Bool-cases (str_eq m.model k)) [
  | inl hit ↦
      let same : m.model ≡ k = ground (arith, eq_iff m.model k, hit) in rw hit (ap read_result same)
  | inr miss ↦ rw miss (result_of-aggregate read_result k ms (ground (arith, miss, h)))
]

module _ (read_result : String → Option RunResult) (all : List RunModel) where
  -- The rows of a part of the run.
  AreRows : List RunModel → Type 0
  AreRows ms = All (λ m. has_model m.model all ≡ true) ms

  no_result-none_completed :
      (ms : List RunModel)
      → AreRows ms
      → HaveNoResult read_result ms
      → any_completed (map (entry_of (aggregate read_result all)) ms) ≡ false
  unfolding AreRows
  no_result-none_completed [] rows missing = refl
  no_result-none_completed (m ∷ ms) rows missing =
      rw (result_of-aggregate read_result m.model all rows.0, missing.0)
        (no_result-none_completed ms rows.1 missing.1)

  any_completed-some :
      (m : RunModel) (ms : List RunModel) (r : RunResult)
      → result_of m.model (aggregate read_result all) ≡ some r
      → any_completed (map (entry_of (aggregate read_result all)) (m ∷ ms)) ≡ true
  any_completed-some m ms r e = rw e refl

  any_completed-none :
      (m : RunModel) (ms : List RunModel)
      → result_of m.model (aggregate read_result all) ≡ none
      → any_completed (map (entry_of (aggregate read_result all)) (m ∷ ms))
        ≡ any_completed (map (entry_of (aggregate read_result all)) ms)
  any_completed-none m ms e = rw e refl

  none_completed-no_result :
      (ms : List RunModel)
      → AreRows ms
      → any_completed (map (entry_of (aggregate read_result all)) ms) ≡ false
      → HaveNoResult read_result ms
  unfolding AreRows
  none_completed-no_result [] rows h = tt
  none_completed-no_result (m ∷ ms) rows h = elim (Option-cases (read_result m.model)) [
    | inl missing ↦
        let found = result_of-aggregate read_result m.model all rows.0 ∙ missing in
        (missing, none_completed-no_result ms rows.1 (sym (any_completed-none m ms found) ∙ h))
    | inr (r, e) ↦
        let found = result_of-aggregate read_result m.model all rows.0 ∙ e in
        absurd (true≢false (sym (any_completed-some m ms r found) ∙ h))
  ]

rows-weaken :
    (m : RunModel) (all ms : List RunModel)
    → All (λ k. has_model k.model all ≡ true) ms
    → All (λ k. has_model k.model (m ∷ all) ≡ true) ms
rows-weaken m all [] h = tt
rows-weaken m all (k ∷ ms) h = (ground (arith, h.0), rows-weaken m all ms h.1)

own_rows : (ms : List RunModel) → All (λ m. has_model m.model ms ≡ true) ms
own_rows [] = tt
own_rows (m ∷ ms) = (ground (arith, eq_refl m.model), rows-weaken m ms ms (own_rows ms))

-- The status that is computed from the entries of a run is the verdict on it.
pub final_status-IsVerdict :
    (read_result : String → Option RunResult) (r : Run)
    → IsVerdict read_result r
        (final_status r.reaped_at (map (entry_of (aggregate read_result r.per_model)) r.per_model))
unfolding AreRows
final_status-IsVerdict read_result r = elim (Option-cases r.reaped_at) [
  | inl alive ↦ inr (rw alive refl, inl alive)
  | inr (at, e) ↦
      elim (Bool-cases
        (any_completed (map (entry_of (aggregate read_result r.per_model)) r.per_model))) [
          | inl some_result ↦ inr (
            rw (e, some_result) refl,
            inr (λ missing. true≢false (
                sym some_result
                ∙ no_result-none_completed read_result r.per_model r.per_model
                    (own_rows r.per_model) missing)),
          )
          | inr none_result ↦ inl (
            rw (e, none_result) refl,
            (λ gone. ground (arith, e, gone)),
            none_completed-no_result read_result r.per_model r.per_model (own_rows r.per_model)
                none_result,
          )
        ]
]
