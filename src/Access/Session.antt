-- ===== src/Access/Session.antt =====
-- `validate` of modules/auth/strategies/jwt.strategy.ts, and `resolveEffectiveTenantId` of
-- common/tenant/effective-tenant.ts. Ids are natural numbers, and none of them is empty.
use trackora.Base.{
  ℕ, Bool, Option, none, some, List, Action, pure, gets, or_throw, modify, throw, throw_if, ◌>>=◌,
  ◌>>◌, ◌==◌, ◌||◌, not, leb, is_just, if◌then◌else◌,
}
use trackora.Prisma.{Prisma}
use trackora.Model.Enums.{UserRole}
use trackora.Access.Permissions.{Permission, role_permissions, is_platform_role}

pub data ImpersonationStatus : Type 0 where
  active ended expired : ImpersonationStatus

abbrev pub is_active_status : ImpersonationStatus → Bool
is_active_status active = Bool.true
is_active_status ended = Bool.false
is_active_status expired = Bool.false

pub record User : Type 0 where
  pub id : ℕ
  pub tenant_id : Option ℕ
  pub role : UserRole
  pub is_active : Bool
  pub phone : ℕ
  pub email : Option ℕ
  pub password_hash : Option ℕ

pub record ImpersonationSession : Type 0 where
  pub id : ℕ
  pub actor_user_id : ℕ
  pub target_user_id : ℕ
  pub tenant_id : ℕ
  pub status : ImpersonationStatus
  pub expires_at : ℕ
  pub ended_at : Option ℕ

pub record Accounts : Type 0 where
  pub users : List User
  pub sessions : List ImpersonationSession

pub record ImpersonationContext : Type 0 where
  pub session_id : ℕ
  pub actor_user_id : ℕ
  pub target_user_id : ℕ
  pub tenant_id : ℕ

-- What a token carries: TokenPayload, of type `access`, or RefreshTokenPayload, of type `refresh`.
pub data Claims : Type 0 where
  access : ℕ → UserRole → Option ImpersonationContext → Claims
  refresh : ℕ → Claims

pub record JwtPayload : Type 0 where
  pub sub : ℕ
  pub impersonation_context : Option ImpersonationContext

-- The strategy reads the claims of any token as a JwtPayload.
abbrev pub jwt_payload : Claims → JwtPayload
jwt_payload (access sub role context) = record { sub = sub; impersonation_context = context }
jwt_payload (refresh sub) = record { sub = sub; impersonation_context = none }

pub record AuthenticatedRequestUser : Type 0 where
  pub user_id : ℕ
  pub role : UserRole
  pub permissions : List Permission
  pub tenant_id : Option ℕ
  pub impersonation_context : Option ImpersonationContext

pub data Error : Type 0 where
  user_not_found session_not_active session_expired invalid_context : Error
  not_authenticated impersonation_required tenant_required : Error
  record_not_found : Error

abbrev pub by_id : ℕ → User → Bool
by_id id u = u.id == id

abbrev pub session_by_id : ℕ → ImpersonationSession → Bool
session_by_id id x = x.id == id

abbrev pub expire_session : ℕ → ImpersonationSession → ImpersonationSession
expire_session now x = record x { status = expired; ended_at = some now }

-- The disjunction of `!==` tests on the session.
abbrev pub mismatch : JwtPayload → ImpersonationContext → User → ImpersonationSession → Bool
mismatch payload context user session =
    not (session.actor_user_id == context.actor_user_id)
    || (not (session.target_user_id == payload.sub)
        || (not (session.target_user_id == context.target_user_id)
            || (not (session.tenant_id == context.tenant_id)
                || not (is_just session.tenant_id user.tenant_id))))

-- The user of a request without impersonation, and with it.
abbrev pub plain_user : User → AuthenticatedRequestUser
plain_user user = record {
  user_id = user.id;
  role = user.role;
  permissions = role_permissions user.role;
  tenant_id = user.tenant_id;
  impersonation_context = none;
}

abbrev pub impersonated_user : User → ImpersonationContext → AuthenticatedRequestUser
impersonated_user user context = record {
  user_id = user.id;
  role = user.role;
  permissions = role_permissions user.role;
  tenant_id = some context.tenant_id;
  impersonation_context = some context;
}

-- The end of the context, by its tenant and that of the user.
unfoldable pub resolve_effective_tenant_id :
    Option AuthenticatedRequestUser → Action Accounts Error ℕ
resolve_effective_tenant_id none = throw not_authenticated
resolve_effective_tenant_id (some user) = elim user.impersonation_context [
  | some context ↦ do
    throw_if (not (is_just context.tenant_id user.tenant_id)) invalid_context
    pure context.tenant_id
  | none ↦ do
    throw_if (is_platform_role user.role) impersonation_required
    or_throw user.tenant_id tenant_required
]

module _ (p : Prisma) where
  -- The branch for a session that is over: it is marked, and the request is refused.
  unfoldable pub refuse_expired : ℕ → ImpersonationSession → Action Accounts Error (Unit {0})
  refuse_expired now session = do
    found ← gets (λ db. p.update (session_by_id session.id) (expire_session now) db.sessions)
    written ← or_throw found record_not_found
    modify (λ db. record db { sessions = written.1 })
    throw session_expired

  unfoldable pub check_context :
      ℕ
      → JwtPayload
      → User
      → Option ImpersonationContext
      → Action Accounts Error AuthenticatedRequestUser
  unfolding refuse_expired
  check_context now payload user none = pure (plain_user user)
  check_context now payload user (some context) = do
    found ← gets (λ db. p.find_first (session_by_id context.session_id) db.sessions)
    session ← or_throw found session_not_active
    throw_if (not (is_active_status session.status)) session_not_active
    if leb session.expires_at now then refuse_expired now session else pure tt
    throw_if (mismatch payload context user session) invalid_context
    pure (impersonated_user user context)

  unfoldable pub validate : ℕ → JwtPayload → Action Accounts Error AuthenticatedRequestUser
  unfolding check_context
  validate now payload = do
    found ← gets (λ db. p.find_first (by_id payload.sub) db.users)
    user ← or_throw found user_not_found
    throw_if (not user.is_active) user_not_found
    check_context now payload user payload.impersonation_context

  -- A request to a tenant's data: the strategy, then the resolver.
  unfoldable pub effective_tenant : ℕ → JwtPayload → Action Accounts Error ℕ
  unfolding validate resolve_effective_tenant_id
  effective_tenant now payload = do
    user ← validate now payload
    resolve_effective_tenant_id (some user)
