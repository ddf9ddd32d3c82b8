-- ===== src/Finalize/CostLedger.antt =====
-- The rows of the cost ledger that finalizations write, in src/orchestrator/finalize/aggregate.ts and
-- src/db/query/costs.ts.
pub mod Billed
use ai_model_arena.Common.{
  ℕ, ◌≡◌, ◌⊎◌, ◌&&◌, ◌==◌, if◌then◌else◌, none, some, str_eq, ◌∙◌, subst, sym, eq_iff, refl, inl,
  inr, true, false, ◌||◌, Option, String, eq_refl, List, [], ◌∷◌, ◌++◌, arith, Bool-cases, All, ltb,
}
use ai_model_arena.Runs.{RunModel}
use ai_model_arena.Finalize.{
  RunResult, CostRow, has_key, insert_cost_ledger_entry, result_of, cost_of, record_cost,
  record_costs,
}

has_key-append :
    (k : String) (n : ℕ) (cs ds : List CostRow)
    → has_key k n (cs ++ ds) ≡ has_key k n cs || has_key k n ds
has_key-append k n [] ds = refl
has_key-append k n (c ∷ cs) ds = ground (arith, has_key-append k n cs ds)

has_key-insert :
    (k : String) (n : ℕ) (row : CostRow) (cs : List CostRow)
    → has_key k n cs ≡ true
    → has_key k n (insert_cost_ledger_entry row cs) ≡ true
unfolding insert_cost_ledger_entry
has_key-insert k n row cs h = ground (arith, has_key-append k n cs (row ∷ []))

insert-has_key :
    (row : CostRow) (cs : List CostRow)
    → has_key row.model row.attempt (insert_cost_ledger_entry row cs) ≡ true
unfolding insert_cost_ledger_entry
insert-has_key row cs =
    ground (arith, eq_refl row.model, has_key-append row.model row.attempt cs (row ∷ []))

has_key-record_cost :
    (k : String) (n now attempt : ℕ) (model : String) (r : Option RunResult) (cs : List CostRow)
    → has_key k n cs ≡ true
    → has_key k n (record_cost now attempt model r cs) ≡ true
has_key-record_cost k n now attempt model r cs h = elim (Bool-cases (ltb 0 (cost_of r))) [
  | inl positive ↦ rw positive (has_key-insert k n _ cs h)
  | inr nothing ↦ rw nothing h
]

has_key-record_costs :
    (k : String) (n now attempt : ℕ) (es : List (String × Option RunResult)) (ms : List RunModel)
    (cs : List CostRow)
    → has_key k n cs ≡ true
    → has_key k n (record_costs now attempt es ms cs) ≡ true
unfolding record_costs
has_key-record_costs k n now attempt es [] cs h = h
has_key-record_costs k n now attempt es (m ∷ ms) cs h =
    has_key-record_costs k n now attempt es ms _
      (has_key-record_cost k n now attempt m.model (result_of m.model es) cs h)

-- A positive cost of a row is in the ledger under the attempt.
abbrev pub IsRecorded : ℕ → List (String × Option RunResult) → List CostRow → RunModel → Type 0
IsRecorded attempt es cs m =
    ltb 0 (cost_of (result_of m.model es)) ≡ true → has_key m.model attempt cs ≡ true

pub record_costs-AreRecorded :
    (now attempt : ℕ) (es : List (String × Option RunResult)) (ms : List RunModel)
    (cs : List CostRow)
    → All (IsRecorded attempt es (record_costs now attempt es ms cs)) ms
unfolding record_costs
record_costs-AreRecorded now attempt es [] cs = tt
record_costs-AreRecorded now attempt es (m ∷ ms) cs = (
  (λ positive.
      has_key-record_costs m.model attempt now attempt es ms _ (rw positive (insert-has_key _ cs))),
  record_costs-AreRecorded now attempt es ms _,
)

record_costs-skip :
    (now attempt : ℕ) (es : List (String × Option RunResult)) (ms : List RunModel)
    (cs : List CostRow)
    → All (IsRecorded attempt es cs) ms
    → record_costs now attempt es ms cs ≡ cs
unfolding record_costs insert_cost_ledger_entry
record_costs-skip now attempt es [] cs h = refl
record_costs-skip now attempt es (m ∷ ms) cs h =
    elim (Bool-cases (ltb 0 (cost_of (result_of m.model es)))) [
      | inl positive ↦ rw (positive, h.0 positive) (record_costs-skip now attempt es ms cs h.1)
      | inr nothing ↦ rw nothing (record_costs-skip now attempt es ms cs h.1)
    ]

-- Writing the costs of the same results again under the same attempt, at any later time, changes
-- nothing in the ledger.
pub record_costs-again :
    (now later attempt : ℕ) (es : List (String × Option RunResult)) (ms : List RunModel)
    (cs : List CostRow)
    → record_costs later attempt es ms (record_costs now attempt es ms cs)
      ≡ record_costs now attempt es ms cs
record_costs-again now later attempt es ms cs =
    record_costs-skip later attempt es ms (record_costs now attempt es ms cs)
      (record_costs-AreRecorded now attempt es ms cs)

-- No key stands twice.
abbrev pub IsKeyed : List CostRow → Type 0
IsKeyed [] = Unit
IsKeyed (c ∷ cs) = (has_key c.model c.attempt cs ≡ false) × IsKeyed cs
