-- ===== src/Finalize/CostLedger/Billed.antt =====
-- The costs that the writes of a finalization bring into the ledger, in
-- src/orchestrator/finalize/aggregate.ts.
use ai_model_arena.Common.{
  ℕ, ◌≡◌, ◌⊎◌, ◌&&◌, ◌==◌, if◌then◌else◌, none, some, str_eq, ◌∙◌, subst, sym, eq_iff, refl, inl,
  inr, true, false, Option, String, eq_refl, List, [], ◌∷◌, ◌++◌, arith, Bool-cases, All, ltb,
}
use ai_model_arena.Runs.{RunModel}
use ai_model_arena.Finalize.{
  RunResult, CostRow, has_key, insert_cost_ledger_entry, result_of, cost_of, record_cost,
  record_costs,
}
use ai_model_arena.Finalize.CostLedger.{has_key-append}

-- The cost that the ledger has for a model under an attempt.
pub billed_cost : String → ℕ → List CostRow → Option ℕ
billed_cost model attempt [] = none
billed_cost model attempt (c ∷ cs) =
    if str_eq c.model model && c.attempt == attempt
    then some c.cost
    else billed_cost model attempt cs

-- A positive cost of a row is in the ledger under the attempt, if the ledger had none there before.
abbrev pub IsBilled :
    ℕ → List (String × Option RunResult) → List CostRow → List CostRow → RunModel → Type 0
IsBilled attempt es before cs m =
    ltb 0 (cost_of (result_of m.model es)) ≡ true
    → has_key m.model attempt before ≡ false
    → billed_cost m.model attempt cs ≡ some (cost_of (result_of m.model es))

-- No cost of the model yet, or the right one.
IsRight : ℕ → List (String × Option RunResult) → String → List CostRow → Type 0
IsRight attempt es k cs =
    (has_key k attempt cs ≡ false) ⊎ (billed_cost k attempt cs ≡ some (cost_of (result_of k es)))

billed_cost-has_key :
    (k : String) (n usd : ℕ) (cs : List CostRow)
    → billed_cost k n cs ≡ some usd
    → has_key k n cs ≡ true
unfolding billed_cost
billed_cost-has_key k n usd [] h = cc
billed_cost-has_key k n usd (c ∷ cs) h = ground (arith, billed_cost-has_key k n usd cs)

billed_cost-append :
    (k : String) (n : ℕ) (cs : List CostRow) (row : CostRow)
    → has_key k n cs ≡ false
    → billed_cost k n (cs ++ row ∷ []) ≡ billed_cost k n (row ∷ [])
unfolding billed_cost
billed_cost-append k n [] row h = refl
billed_cost-append k n (c ∷ cs) row h = ground (arith, billed_cost-append k n cs row)

billed_cost-kept :
    (k : String) (n usd : ℕ) (cs ds : List CostRow)
    → billed_cost k n cs ≡ some usd
    → billed_cost k n (cs ++ ds) ≡ some usd
unfolding billed_cost
billed_cost-kept k n usd [] ds h = cc
billed_cost-kept k n usd (c ∷ cs) ds h = ground (arith, billed_cost-kept k n usd cs ds)

record_cost-kept :
    (k : String) (n usd now attempt : ℕ) (model : String) (r : Option RunResult) (cs : List CostRow)
    → billed_cost k n cs ≡ some usd
    → billed_cost k n (record_cost now attempt model r cs) ≡ some usd
unfolding insert_cost_ledger_entry
record_cost-kept k n usd now attempt model r cs h = elim (Bool-cases (ltb 0 (cost_of r))) [
  | inl positive ↦ elim (Bool-cases (has_key model attempt cs)) [
    | inl there ↦ rw (positive, there) h
    | inr new ↦ rw (positive, new) (billed_cost-kept k n usd cs _ h)
  ]
  | inr nothing ↦ rw nothing h
]

record_costs-kept :
    (k : String) (n usd now attempt : ℕ) (es : List (String × Option RunResult))
    (ms : List RunModel) (cs : List CostRow)
    → billed_cost k n cs ≡ some usd
    → billed_cost k n (record_costs now attempt es ms cs) ≡ some usd
unfolding record_costs
record_costs-kept k n usd now attempt es [] cs h = h
record_costs-kept k n usd now attempt es (m ∷ ms) cs h =
    record_costs-kept k n usd now attempt es ms _
      (record_cost-kept k n usd now attempt m.model (result_of m.model es) cs h)

-- The row of a positive cost, if there was none.
record_cost-own :
    (now attempt : ℕ) (es : List (String × Option RunResult)) (k : String) (cs : List CostRow)
    → ltb 0 (cost_of (result_of k es)) ≡ true
    → IsRight attempt es k cs
    → billed_cost k attempt (record_cost now attempt k (result_of k es) cs)
      ≡ some (cost_of (result_of k es))
unfolding insert_cost_ledger_entry IsRight
record_cost-own now attempt es k cs positive (inl new) =
    rw (positive, new) (billed_cost-append k attempt cs _ new ∙ own)
  where
    own :
        billed_cost k attempt (
          (record {
            model = k;
            attempt = attempt;
            cost = cost_of (result_of k es);
            recorded_at = now;
          })
          ∷ [])
        ≡ some (cost_of (result_of k es))
    own = unfold billed_cost in ground (arith, eq_refl k)
record_cost-own now attempt es k cs positive (inr right) =
    rw (positive, billed_cost-has_key k attempt _ cs right) right

has_key-other :
    (now attempt : ℕ) (model k : String) (r : Option RunResult) (cs : List CostRow)
    → str_eq model k ≡ false
    → has_key k attempt cs ≡ false
    → has_key k attempt (record_cost now attempt model r cs) ≡ false
unfolding insert_cost_ledger_entry
has_key-other now attempt model k r cs other new = elim (Bool-cases (ltb 0 (cost_of r))) [
  | inl positive ↦ elim (Bool-cases (has_key model attempt cs)) [
    | inl there ↦ rw (positive, there) new
    | inr free ↦ rw (positive, free, has_key-append k attempt cs _, new, other) refl
  ]
  | inr nothing ↦ rw nothing new
]

record_cost-other :
    (now attempt : ℕ) (es : List (String × Option RunResult)) (model k : String) (cs : List CostRow)
    → str_eq model k ≡ false
    → IsRight attempt es k cs
    → IsRight attempt es k (record_cost now attempt model (result_of model es) cs)
unfolding IsRight
record_cost-other now attempt es model k cs other (inr right) =
    inr (record_cost-kept k attempt _ now attempt model (result_of model es) cs right)
record_cost-other now attempt es model k cs other (inl new) =
    inl (has_key-other now attempt model k (result_of model es) cs other new)

record_cost-IsRight :
    (now attempt : ℕ) (es : List (String × Option RunResult)) (model k : String) (cs : List CostRow)
    → ltb 0 (cost_of (result_of k es)) ≡ true
    → IsRight attempt es k cs
    → IsRight attempt es k (record_cost now attempt model (result_of model es) cs)
record_cost-IsRight now attempt es model k cs positive h = elim (Bool-cases (str_eq model k)) [
  | inl same ↦
      subst (λ (m : String). IsRight attempt es k (record_cost now attempt m (result_of m es) cs))
        (sym ((eq_iff model k).0 same))
        (unfold IsRight in inr (record_cost-own now attempt es k cs positive h))
  | inr other ↦ record_cost-other now attempt es model k cs other h
]

abbrev IsDue :
    ℕ → List (String × Option RunResult) → List CostRow → List CostRow → RunModel → Type 0
IsDue attempt es cs cs' m =
    ltb 0 (cost_of (result_of m.model es)) ≡ true
    → IsRight attempt es m.model cs
    → billed_cost m.model attempt cs' ≡ some (cost_of (result_of m.model es))

IsDue-earlier :
    (now attempt : ℕ) (es : List (String × Option RunResult)) (model : String)
    (cs cs' : List CostRow) (ms : List RunModel)
    → All (IsDue attempt es (record_cost now attempt model (result_of model es) cs) cs') ms
    → All (IsDue attempt es cs cs') ms
IsDue-earlier now attempt es model cs cs' [] h = tt
IsDue-earlier now attempt es model cs cs' (m ∷ ms) h = (
  (λ positive right.
      h.0 positive (record_cost-IsRight now attempt es model m.model cs positive right)),
  IsDue-earlier now attempt es model cs cs' ms h.1,
)

record_costs-AreDue :
    (now attempt : ℕ) (es : List (String × Option RunResult)) (ms : List RunModel)
    (cs : List CostRow)
    → All (IsDue attempt es cs (record_costs now attempt es ms cs)) ms
unfolding record_costs
record_costs-AreDue now attempt es [] cs = tt
record_costs-AreDue now attempt es (m ∷ ms) cs = (
  (λ positive right.
      record_costs-kept m.model attempt _ now attempt es ms _
        (record_cost-own now attempt es m.model cs positive right)),
  IsDue-earlier now attempt es m.model cs _ ms (record_costs-AreDue now attempt es ms _),
)

IsDue-IsBilled :
    (attempt : ℕ) (es : List (String × Option RunResult)) (cs cs' : List CostRow)
    (ms : List RunModel)
    → All (IsDue attempt es cs cs') ms
    → All (IsBilled attempt es cs cs') ms
unfolding IsRight
IsDue-IsBilled attempt es cs cs' [] h = tt
IsDue-IsBilled attempt es cs cs' (m ∷ ms) h =
    ((λ positive new. h.0 positive (inl new)), IsDue-IsBilled attempt es cs cs' ms h.1)

-- After the writes, the ledger has each positive cost for which it had no row of the model and the attempt.
pub record_costs-AreBilled :
    (now attempt : ℕ) (es : List (String × Option RunResult)) (ms : List RunModel)
    (cs : List CostRow)
    → All (IsBilled attempt es cs (record_costs now attempt es ms cs)) ms
record_costs-AreBilled now attempt es ms cs =
    IsDue-IsBilled attempt es cs _ ms (record_costs-AreDue now attempt es ms cs)
