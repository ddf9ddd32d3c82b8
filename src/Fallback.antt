-- ===== src/Fallback.antt =====
-- The chain of models to fall back on, src/providers/fallback.ts. Parsing the environment's texts is left out.
use ai_model_arena.Common.{
  ℕ, ◌≡◌, Bool, false, ◌&&◌, Option, none, some, String, str_eq, eq_refl, List, [], ◌∷◌, ◌++◌,
  if◌then◌else◌, arith, min,
}

pub record Target : Type 0 where
  pub provider : String
  pub model : String

pub record FallbackConfig : Type 0 where
  pub primary : Target
  pub fallbacks : List Target

abbrev pub same_target : Target → Target → Bool
same_target a b = str_eq a.provider b.provider && str_eq a.model b.model

abbrev pub first_of : List Target → Option Target
first_of [] = none
first_of (t ∷ ts) = some t

-- The target after the first one that is `current`.
pub next_of : Target → List Target → Option Target
next_of current [] = none
next_of current (t ∷ ts) = if same_target t current then first_of ts else next_of current ts

pub resolve_fallback : Target → FallbackConfig → Option Target
resolve_fallback current chain = next_of current (chain.primary ∷ chain.fallbacks)

-- The number that the environment's text parses to, if it does; a negative one counts as zero.
pub resolve_max_fallback_hops : Option ℕ → ℕ
resolve_max_fallback_hops none = 3
resolve_max_fallback_hops (some parsed) = min 10 parsed

-- `current` stands nowhere in the list.
abbrev pub IsAbsent : Target → List Target → Type 0
IsAbsent current [] = Unit
IsAbsent current (t ∷ ts) = same_target t current ≡ false × IsAbsent current ts

-- From a target, the chain goes to the one after its first place.
pub next_of-append :
    (current next : Target) (before after : List Target)
    → IsAbsent current before
    → next_of current (before ++ current ∷ next ∷ after) ≡ some next
unfolding next_of
next_of-append current next [] after h =
    ground (arith, eq_refl current.provider, eq_refl current.model)
next_of-append current next (t ∷ ts) after h = rw h.0 (next_of-append current next ts after h.1)
