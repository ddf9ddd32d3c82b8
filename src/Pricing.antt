-- ===== src/Pricing.antt =====
-- The billing of src/cost-tracking/pricing.ts. The catalog's rows are a parameter. A price is a natural number of one
-- unit for a million tokens, and a cost is in millionths of that unit, so nothing is divided.
pub mod Linear
pub mod Runs
mod Examples
use ai_model_arena.Common.{
  ℕ, ◌+◌, ◌-◌, ◌*◌, Bool, Option, none, some, String, List, [], ◌∷◌, if◌then◌else◌, ltb,
}
use ai_model_arena.Common.Dict.{or_default}
use ai_model_arena.Chat.{TokenUsage}

pub record PricingRow : Type 0 where
  pub input : Option ℕ
  pub output : Option ℕ
  pub cache_read : Option ℕ
  pub cache_write : Option ℕ
  pub resolved_model_id : String

-- The prices of requests above 200000 tokens.
pub record TieredPricing : Type 0 where
  pub input : ℕ
  pub output : ℕ
  pub cache_read : Option ℕ
  pub cache_write : Option ℕ

-- What the database answers: `getModelPricing` and `getTieredPricing`.
pub record Catalog : Type 0 where
  pub model_pricing : String → Option PricingRow
  pub tiered_pricing : String → Option TieredPricing

pub record CostTokenUsage : Type 0 where
  pub prompt : ℕ
  pub completion : ℕ
  pub cached : ℕ
  pub cache_write : ℕ

pub record CostBreakdown : Type 0 where
  pub input_cost : ℕ
  pub output_cost : ℕ
  pub cached_cost : ℕ
  pub total : ℕ

-- The four prices that one request is billed at.
pub record Prices : Type 0 where
  pub input : ℕ
  pub output : ℕ
  pub cache_read : Option ℕ
  pub cache_write : Option ℕ

abbrev pub no_cost : CostBreakdown
no_cost = record { input_cost = 0; output_cost = 0; cached_cost = 0; total = 0 }

-- `a ?? b`
abbrev pub or_else : Option ℕ → Option ℕ → Option ℕ
or_else none b = b
or_else (some a) b = some a

abbrev pub prices_for : Option TieredPricing → PricingRow → Prices
prices_for none row = record {
  input = or_default row.input 0;
  output = or_default row.output 0;
  cache_read = or_else row.cache_read row.cache_write;
  cache_write = row.cache_write;
}
prices_for (some t) row = record {
  input = t.input;
  output = t.output;
  cache_read = or_else t.cache_read (or_else row.cache_read row.cache_write);
  cache_write = or_else t.cache_write row.cache_write;
}

-- The tokens that have a price of their own, and what they cost.
abbrev pub priced_tokens : Option ℕ → ℕ → ℕ
priced_tokens none tokens = 0
priced_tokens (some price) tokens = tokens

abbrev pub priced_cost : Option ℕ → ℕ → ℕ
priced_cost none tokens = 0
priced_cost (some price) tokens = tokens * price

abbrev pub input_tokens : Prices → CostTokenUsage → ℕ
input_tokens p u =
    u.prompt - priced_tokens p.cache_read u.cached - priced_tokens p.cache_write u.cache_write

abbrev pub cost_at : Prices → CostTokenUsage → CostBreakdown
cost_at p u =
    let input_cost = input_tokens p u * p.input in
    let output_cost = u.completion * p.output in
    let cached_cost = priced_cost p.cache_read u.cached in
    let cache_write_cost = priced_cost p.cache_write u.cache_write in
    record {
      input_cost = input_cost;
      output_cost = output_cost;
      cached_cost = cached_cost + cache_write_cost;
      total = input_cost + output_cost + cached_cost + cache_write_cost;
    }

abbrev pub is_over_200k : CostTokenUsage → Bool
is_over_200k u = ltb 200_000 (u.prompt + u.completion)

abbrev pub to_cost_usage : TokenUsage → CostTokenUsage
to_cost_usage u = record {
  prompt = or_default u.prompt 0;
  completion = or_default u.completion 0;
  cached = or_default u.cache_read_tokens 0;
  cache_write = or_default u.cache_write_tokens 0;
}

abbrev pub add_cost : CostBreakdown → CostBreakdown → CostBreakdown
add_cost a b = record {
  input_cost = a.input_cost + b.input_cost;
  output_cost = a.output_cost + b.output_cost;
  cached_cost = a.cached_cost + b.cached_cost;
  total = a.total + b.total;
}

module _ (c : Catalog) where
  abbrev pub cost_of_row : Option PricingRow → CostTokenUsage → CostBreakdown
  cost_of_row none u = no_cost
  cost_of_row (some row) u =
      let tiered : Option TieredPricing =
        if is_over_200k u then c.tiered_pricing row.resolved_model_id else none in
      cost_at (prices_for tiered row) u

  abbrev pub compute_cost : String → CostTokenUsage → CostBreakdown
  compute_cost model u = cost_of_row (c.model_pricing model) u

  abbrev pub add_calls : String → CostBreakdown → List TokenUsage → CostBreakdown
  add_calls model total [] = total
  add_calls model total (u ∷ us) =
      add_calls model (add_cost total (compute_cost (or_default u.model model) (to_cost_usage u)))
        us

  -- `perCallUsage` that is missing is the empty list.
  abbrev pub compute_total_cost : String → List TokenUsage → TokenUsage → CostBreakdown
  compute_total_cost model [] aggregate = add_calls model no_cost (aggregate ∷ [])
  compute_total_cost model (u ∷ us) aggregate = add_calls model no_cost (u ∷ us)
