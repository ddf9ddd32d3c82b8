-- ===== src/Access/Examples.antt =====
-- The theorems on src/auth/rbac.ts at small requests, and tests.
use ai_model_arena.Common.{◌≡◌, refl, true, false, [], ◌∷◌}
use ai_model_arena.Common.Dict.{get}
use ai_model_arena.Access.{editor, admin}
use ai_model_arena.Access.Gates.{any_grants}

-- A key that may write runs is an editor's.
any_grants_test : any_grants editor ("runs:read" ∷ "runs:write" ∷ []) ≡ true
unfolding get
any_grants_test = refl

any_grants_admin_test : any_grants admin ("runs:read" ∷ "runs:write" ∷ []) ≡ false
unfolding get
any_grants_admin_test = refl
