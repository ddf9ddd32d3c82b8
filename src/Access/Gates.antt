-- ===== src/Access/Gates.antt =====
-- Whom the gates of src/auth/rbac.ts let on.
use ai_model_arena.Common.{
  or_assoc, ◌≡◌, ◌≢◌, ◌↔◌, refl, ◌∙◌, ◌⊎◌, inl, inr, Bool, true, false, ◌||◌, Option, none, some,
  String, List, [], ◌∷◌, leb, arith, eq_iff, eq_refl, ap, Bool-cases,
}
use ai_model_arena.Common.Dict.{get}
use ai_model_arena.Access.{
  Role, viewer, role_order, permission_to_role, raise, implied_from, api_key_implied_role,
  reaches_role, require_role, is_admin_role, is_owner, is_owner_allowed,
}

-- Some permission stands for a role from `min` on.
abbrev pub any_grants : Role → List String → Bool
any_grants min [] = false
any_grants min (p ∷ ps) = reaches_role min (get p permission_to_role) || any_grants min ps

reaches-raise :
    (min max : Role) (r : Option Role)
    → reaches_role min (some (raise max r)) ≡ (reaches_role min (some max) || reaches_role min r)
reaches-raise min max none = ground arith
reaches-raise min max (some r) = ground arith

reaches-implied_from :
    (min max : Role) (ps : List String)
    → reaches_role min (some (implied_from max ps))
      ≡ (reaches_role min (some max) || any_grants min ps)
unfolding implied_from
reaches-implied_from min max [] = ground arith
reaches-implied_from min max (p ∷ ps) =
    reaches-implied_from min (raise max (get p permission_to_role)) ps
    ∙ rw (reaches-raise min max (get p permission_to_role)) (
        or_assoc (reaches_role min (some max)) (reaches_role min (get p permission_to_role))
          (any_grants min ps))

-- A request with a key and no user passes a gate exactly when the gate asks for a viewer or one of the key's
-- permissions stands for a role from the gate's on; permissions that are not in the table count for nothing.
pub require_role-any_grants :
    (min : Role) (p : String) (ps : List String)
    → require_role min none (some (p ∷ ps)) ≡ (leb (role_order min) 0 || any_grants min (p ∷ ps))
unfolding require_role api_key_implied_role
require_role-any_grants min p ps = reaches-implied_from min viewer (p ∷ ps)

-- The owner is there, is not empty, and is the actor.
abbrev pub Owns : Option String → Option String → Type 0
Owns sub owner_id = (owner : String) × (owner_id ≡ some owner × owner ≢ "" × sub ≡ some owner)

is_owner-Owns : (sub owner_id : Option String) → is_owner sub owner_id ≡ true → Owns sub owner_id
is_owner-Owns none owner_id h = ground arith
is_owner-Owns (some sub) none h = ground arith
is_owner-Owns (some sub) (some owner) h = (
  owner,
  (refl, ground (arith, eq_iff owner "", h), ap some ((eq_iff sub owner).0 (ground (arith, h)))),
)

Owns-is_owner : (sub owner_id : Option String) → Owns sub owner_id → is_owner sub owner_id ≡ true
Owns-is_owner sub owner_id (owner, (e, present, same)) =
    rw (e, same) (ground (arith, eq_iff owner "", eq_refl owner))

admin-only : (role : Option String) → (is_admin_role role ≡ true) ↔ (role ≡ some "admin")
admin-only none = ((λ h. ground arith), (λ h. ground arith))
admin-only (some role) =
    ((λ h. ap some ((eq_iff role "admin").0 h)), (λ h. ground (arith, eq_iff role "admin", h)))

-- Access to a run is given exactly to admins and to the actor that its owner, which is there and not empty, names.
pub is_owner_allowed_iff :
    (sub role owner_id : Option String)
    → (is_owner_allowed sub role owner_id ≡ true) ↔ ((role ≡ some "admin") ⊎ Owns sub owner_id)
unfolding is_owner_allowed
is_owner_allowed_iff sub role owner_id = elim (Bool-cases (is_admin_role role)) [
  | inl e ↦ rw e (λ h. inl ((admin-only role).0 e), λ h. refl)
  | inr e ↦ rw e (
    λ h. inr (is_owner-Owns sub owner_id h),
    (λ h. elim h [
      | inl is_admin ↦ ground (arith, e, (admin-only role).1 is_admin)
      | inr owns ↦ Owns-is_owner sub owner_id owns
    ]),
  )
]
