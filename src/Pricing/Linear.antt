-- ===== src/Pricing/Linear.antt =====
-- Where the billing of src/cost-tracking/pricing.ts per request agrees with that of the sum.
use ai_model_arena.Common.{
  ℕ, ◌+◌, ◌≤◌, ◌≡◌, refl, ap, false, Option, none, some, String, List, [], ◌∷◌, All, arith,
}
use ai_model_arena.Common.Dict.{or_default}
use ai_model_arena.Chat.{TokenUsage}
use ai_model_arena.Pricing.{
  PricingRow, Catalog, CostTokenUsage, CostBreakdown, Prices, no_cost, prices_for, priced_tokens,
  priced_cost, input_tokens, cost_at, is_over_200k, to_cost_usage, add_cost, cost_of_row,
  compute_cost, add_calls, compute_total_cost,
}

-- The cached tokens are among the prompt's.
abbrev pub IsSubset : CostTokenUsage → Type 0
IsSubset u = u.cached + u.cache_write ≤ u.prompt

abbrev pub add_tokens : CostTokenUsage → CostTokenUsage → CostTokenUsage
add_tokens u v = record {
  prompt = u.prompt + v.prompt;
  completion = u.completion + v.completion;
  cached = u.cached + v.cached;
  cache_write = u.cache_write + v.cache_write;
}

abbrev pub no_tokens : CostTokenUsage
no_tokens = record { prompt = 0; completion = 0; cached = 0; cache_write = 0 }

abbrev pub sum_tokens : List TokenUsage → CostTokenUsage
sum_tokens [] = no_tokens
sum_tokens (u ∷ us) = add_tokens (to_cost_usage u) (sum_tokens us)

-- Each token is billed once: the tokens at the input price and those at a price of their own make up the prompt.
pub input_tokens-priced :
    (p : Prices) (u : CostTokenUsage)
    → IsSubset u
    → input_tokens p u
        + priced_tokens p.cache_read u.cached
        + priced_tokens p.cache_write u.cache_write
      ≡ u.prompt
input_tokens-priced p u h = ground arith

input_tokens-add :
    (p : Prices) (u v : CostTokenUsage)
    → IsSubset u
    → IsSubset v
    → input_tokens p (add_tokens u v) ≡ input_tokens p u + input_tokens p v
input_tokens-add p u v h k = ground arith

priced_cost-add :
    (price : Option ℕ) (m n : ℕ)
    → priced_cost price (m + n) ≡ priced_cost price m + priced_cost price n
priced_cost-add none m n = omega arith
priced_cost-add (some price) m n = omega arith

cost_at-add :
    (p : Prices) (u v : CostTokenUsage)
    → IsSubset u
    → IsSubset v
    → (cost_at p (add_tokens u v)).total ≡ (cost_at p u).total + (cost_at p v).total
cost_at-add p u v h k =
    rw
      (
        input_tokens-add p u v h k,
        priced_cost-add p.cache_read u.cached v.cached,
        priced_cost-add p.cache_write u.cache_write v.cache_write,
      )
      (omega arith)

-- A call that is billed at `model`, by its tag or without one, and whose cached tokens are among the prompt's.
abbrev pub IsBilled : String → TokenUsage → Type 0
IsBilled model u = or_default u.model model ≡ model × IsSubset (to_cost_usage u)

-- The request tokens that decide the tier.
abbrev pub request_size : CostTokenUsage → ℕ
request_size u = u.prompt + u.completion

sum_tokens-IsSubset :
    (model : String) (us : List TokenUsage) → All (IsBilled model) us → IsSubset (sum_tokens us)
sum_tokens-IsSubset model [] h = omega arith
sum_tokens-IsSubset model (u ∷ us) h = omega (arith, h.0.1, sum_tokens-IsSubset model us h.1)

is_over_200k-small : (u : CostTokenUsage) → request_size u ≤ 200_000 → is_over_200k u ≡ false
is_over_200k-small u h = ground arith

module _ (c : Catalog) where
  cost_of_row-add :
      (row : Option PricingRow) (u v : CostTokenUsage)
      → IsSubset u
      → IsSubset v
      → request_size (add_tokens u v) ≤ 200_000
      → (cost_of_row c row (add_tokens u v)).total
        ≡ (cost_of_row c row u).total + (cost_of_row c row v).total
  cost_of_row-add none u v h k small = refl
  cost_of_row-add (some row) u v h k small =
      rw
        (
          is_over_200k-small (add_tokens u v) small,
          is_over_200k-small u (omega (arith, small)),
          is_over_200k-small v (omega (arith, small)),
        )
        (cost_at-add (prices_for none row) u v h k)

  priced_cost-zero : (price : Option ℕ) → priced_cost price 0 ≡ 0
  priced_cost-zero none = refl
  priced_cost-zero (some price) = omega arith

  cost_of_row-no_tokens : (row : Option PricingRow) → (cost_of_row c row no_tokens).total ≡ 0
  cost_of_row-no_tokens none = refl
  cost_of_row-no_tokens (some row) =
      let p = prices_for none row in
      let none_left : input_tokens p no_tokens ≡ 0 = omega arith in
      rw (none_left, priced_cost-zero p.cache_read, priced_cost-zero p.cache_write) (omega arith)

  add_calls-total :
      (model : String) (acc : CostBreakdown) (us : List TokenUsage)
      → All (IsBilled model) us
      → request_size (sum_tokens us) ≤ 200_000
      → (add_calls c model acc us).total ≡ acc.total + (compute_cost c model (sum_tokens us)).total
  add_calls-total model acc [] h small =
      omega (arith, cost_of_row-no_tokens (c.model_pricing model))
  add_calls-total model acc (u ∷ us) h small =
      let one = compute_cost c (or_default u.model model) (to_cost_usage u) in
      let rest = add_calls-total model (add_cost acc one) us h.1 (omega (arith, small)) in
      let both =
        cost_of_row-add (c.model_pricing model) (to_cost_usage u) (sum_tokens us) h.0.1
          (sum_tokens-IsSubset model us h.1) small in
      let same = ap (λ m. (compute_cost c m (to_cost_usage u)).total) h.0.0 in
      omega (arith, rest, both, same)

  -- Pricing the requests of a run one by one costs the same as pricing their sum, if all are billed at one model,
  -- the cached tokens are among each prompt's, and the sum is no larger than the tier's bound.
  pub compute_total_cost-compute_cost :
      (model : String) (us : List TokenUsage) (aggregate : TokenUsage)
      → or_default aggregate.model model ≡ model
      → to_cost_usage aggregate ≡ sum_tokens us
      → All (IsBilled model) us
      → request_size (sum_tokens us) ≤ 200_000
      → (compute_total_cost c model us aggregate).total
        ≡ (compute_cost c model (to_cost_usage aggregate)).total
  compute_total_cost-compute_cost model [] aggregate e sum h small = rw e (omega arith)
  compute_total_cost-compute_cost model (u ∷ us) aggregate e sum h small =
      rw sum (omega (arith, add_calls-total model no_cost (u ∷ us) h small))
