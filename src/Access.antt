-- ===== src/Access.antt =====
-- The roles of src/auth/rbac.ts. A user's role is a text; the names that every JavaScript object inherits are left out.
pub mod Gates
mod Examples
use ai_model_arena.Common.{
  ℕ, Bool, true, false, not, ◌&&◌, ◌||◌, Option, none, some, String, str_eq, List, [], ◌∷◌,
  if◌then◌else◌, leb, ltb,
}
use ai_model_arena.Common.Dict.{Dict, get}

pub data Role : Type 0 where
  viewer editor admin : Role

abbrev pub role_order : Role → ℕ
role_order viewer = 0
role_order editor = 1
role_order admin = 2

-- The keys of `ROLE_ORDER`.
abbrev pub named_roles : Dict Role
named_roles = ("viewer", viewer) ∷ ("editor", editor) ∷ ("admin", admin) ∷ []

abbrev pub permission_to_role : Dict Role
permission_to_role =
    ("models:write", editor)
    ∷ ("scenarios:write", editor)
    ∷ ("runs:write", editor)
    ∷ ("cache:write", editor)
    ∷ ("anomalies:write", editor)
    ∷ ("analytics:write", editor)
    ∷ ("regression:execute", editor)
    ∷ ("schedules:write", admin)
    ∷ ("prompts:write", admin)
    ∷ ("output_mappings:write", admin)
    ∷ ("sessions:write", admin)
    ∷ ("secrets:write", admin)
    ∷ ("users:write", admin)
    ∷ ("webhooks:write", admin)
    ∷ ("providers:write", admin)
    ∷ ("runners:write", admin)
    ∷ ("queues:write", admin)
    ∷ ("ops:admin", admin)
    ∷ []

abbrev pub raise : Role → Option Role → Role
raise max none = max
raise max (some r) = if ltb (role_order max) (role_order r) then r else max

pub implied_from : Role → List String → Role
implied_from max [] = max
implied_from max (p ∷ ps) = implied_from (raise max (get p permission_to_role)) ps

-- `apiKeyImpliedRole`; a key without permissions is the empty list, and no key is none.
pub api_key_implied_role : Option (List String) → Option Role
api_key_implied_role none = none
api_key_implied_role (some []) = none
api_key_implied_role (some (p ∷ ps)) = some (implied_from viewer (p ∷ ps))

pub includes : String → List String → Bool
includes name [] = false
includes name (p ∷ ps) = str_eq p name || includes name ps

pub api_key_is_admin : Option (List String) → Bool
api_key_is_admin none = false
api_key_is_admin (some ps) = includes "ops:admin" ps

abbrev pub reaches_role : Role → Option Role → Bool
reaches_role min none = false
reaches_role min (some r) = leb (role_order min) (role_order r)

-- Whether the gate lets a request on: the user's role if there is a user, otherwise the key's.
pub require_role : Role → Option String → Option (List String) → Bool
require_role min (some role) api_key = reaches_role min (get role named_roles)
require_role min none api_key = reaches_role min (api_key_implied_role api_key)

abbrev pub is_admin_role : Option String → Bool
is_admin_role none = false
is_admin_role (some role) = str_eq role "admin"

abbrev pub is_owner : Option String → Option String → Bool
is_owner none owner = false
is_owner (some sub) none = false
is_owner (some sub) (some owner) = not (str_eq owner "") && str_eq sub owner

unfoldable pub is_owner_allowed : Option String → Option String → Option String → Bool
is_owner_allowed sub role owner_id = if is_admin_role role then true else is_owner sub owner_id
