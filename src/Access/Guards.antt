-- ===== src/Access/Guards.antt =====
-- common/guards: the decisions of the guards. What the reflector reads from a handler's decorators
-- is an argument, and `none` where there is no decorator.
use trackora.Base.{
  Bool, true, false, Option, none, some, List, [], ◌∷◌, ◌&&◌, ◌||◌, any, ◌≡◌, refl, is_some,
}
use trackora.Model.Enums.{UserRole, user_role_enum, includes}
use trackora.Access.Permissions.{Permission, permission_enum, role_permissions, is_platform_role}
use trackora.Access.Session.{AuthenticatedRequestUser}

-- `JwtAuthGuard`, where `authenticated` is the answer of passport's guard.
abbrev pub jwt_auth_guard : Bool → Bool → Bool
jwt_auth_guard is_public authenticated = is_public || authenticated

unfoldable pub roles_guard : Bool → Option (List UserRole) → UserRole → Bool
roles_guard true required role = true
roles_guard false none role = true
roles_guard false (some required) role = includes required role

abbrev pub every : {A : Type 0} → (A → Bool) → List A → Bool
every q [] = true
every q (x ∷ xs) = q x && every q xs

abbrev pub has_required : List Permission → Option (List Permission) → Bool
has_required held none = true
has_required held (some required) = every (λ permission. includes held permission) required

abbrev pub has_any : List Permission → Option (List Permission) → Bool
has_any held none = true
has_any held (some wanted) = any (λ permission. includes held permission) wanted

-- The early return without decorators gives what the tests give then.
unfoldable pub permissions_guard :
    Option (List Permission) → Option (List Permission) → Option AuthenticatedRequestUser → Bool
permissions_guard required wanted none = has_required [] required && has_any [] wanted
permissions_guard required wanted (some user) =
    has_required user.permissions required && has_any user.permissions wanted

pub data Decision : Type 0 where
  allowed unauthorized forbidden : Decision

unfoldable pub platform_only_guard : Option AuthenticatedRequestUser → Decision
platform_only_guard none = Decision.unauthorized
platform_only_guard (some user) = elim (is_platform_role user.role) [
  | true ↦ Decision.allowed
  | false ↦ Decision.forbidden
]

unfoldable pub dangerous_action_guard : Bool → Option AuthenticatedRequestUser → Decision
dangerous_action_guard false user = Decision.allowed
dangerous_action_guard true none = Decision.allowed
dangerous_action_guard true (some user) = elim (is_some user.impersonation_context) [
  | true ↦ Decision.forbidden
  | false ↦ Decision.allowed
]

-- A permission is held only by platform roles.
held_by_platform :
    (role : UserRole) (q : Permission)
    → includes (role_permissions role) q ≡ true
    → is_platform_role role ≡ true
unfolding role_permissions is_platform_role
held_by_platform UserRole.platform_owner q h = refl
held_by_platform UserRole.platform_admin q h = refl
held_by_platform UserRole.platform_support q h = refl
held_by_platform UserRole.platform_finance q h = refl
held_by_platform UserRole.super_admin q h = cc
held_by_platform UserRole.operations_manager q h = cc
held_by_platform UserRole.finance_admin q h = cc
held_by_platform UserRole.merchant q h = cc
held_by_platform UserRole.courier q h = cc

first_of_and : (a b : Bool) → (a && b) ≡ true → a ≡ true
first_of_and true b h = refl
first_of_and false b h = cc

-- A handler that asks for at least one permission of a user whose permissions are those of the role
-- is open to platform roles only: whom this guard lets in, `PlatformOnlyGuard` lets in too.
pub permissions_guard_platform :
    (q : Permission) (qs : List Permission) (wanted : Option (List Permission))
    (user : AuthenticatedRequestUser)
    → user.permissions ≡ role_permissions user.role
    → permissions_guard (some (q ∷ qs)) wanted (some user) ≡ true
    → platform_only_guard (some user) ≡ Decision.allowed
unfolding permissions_guard platform_only_guard
permissions_guard_platform q qs wanted user e h =
    let rest = every (λ permission. includes user.permissions permission) qs in
    let held =
      first_of_and (includes user.permissions q) rest
        (first_of_and (includes user.permissions q && rest) (has_any user.permissions wanted) h) in
    rw (held_by_platform user.role q (rw e at held), platform_only_guard) refl
