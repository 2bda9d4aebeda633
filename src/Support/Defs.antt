-- ===== src/Support/Defs.antt =====
-- modules/platform/support/services/platform-support.service.ts with its repository, and
-- `writeAuditLog` of modules/platform/audit-logs: the calls that change rows. Times are in
-- milliseconds.
use trackora.Base.{
  ℕ, ◌+◌, ◌*◌, ◌/◌, ◌-◌, Bool, Option, none, some, List, [], ◌∷◌, Action, pure, gets, or_throw,
  modify, throw, throw_if, ◌>>=◌, ◌>>◌, ◌==◌, ◌&&◌, not, leb, ltb, is_just, or_else, if◌then◌else◌,
}
use trackora.Prisma.{Prisma}
use trackora.External.{Jwt}
use trackora.Model.Enums.{
  TenantStatus, tenant_status_enum, UserRole, user_role_enum, ◌===◌, includes,
}
use trackora.Access.Session.{
  User, ImpersonationSession, ImpersonationStatus, Accounts, ImpersonationContext, Claims,
  AuthenticatedRequestUser, is_active_status, session_by_id,
}

pub record Tenant : Type 0 where
  pub id : ℕ
  pub status : TenantStatus

pub data AuditAction : Type 0 where
  impersonation_started impersonation_ended : AuditAction

pub record AuditLog : Type 0 where
  pub actor_user_id : ℕ
  pub actor_role : UserRole
  pub tenant_id : ℕ
  pub action : AuditAction
  pub resource_id : ℕ

pub record Desk : Type 0 where
  pub tenants : List Tenant
  pub accounts : Accounts
  pub audit_logs : List AuditLog

pub record StartImpersonationDto : Type 0 where
  pub target_user_id : Option ℕ
  pub duration_minutes : Option ℕ

pub data Error : Type 0 where
  tenant_not_found owner_only duration_exceeded target_not_found : Error
  session_not_found not_own_session session_not_active session_expired record_not_found : Error
  -- thrown by the client, for an Invalid Date
  invalid_date : Error

abbrev pub default_duration_minutes : ℕ
default_duration_minutes = 30

abbrev pub max_duration_minutes : ℕ
max_duration_minutes = 60

-- The last time of a `Date`, in milliseconds; later ones are Invalid Dates.
abbrev pub max_time : ℕ
max_time = 8640000000000000

-- `signOptions.expiresIn` of the JWT module: '15m'.
abbrev pub access_lifetime : ℕ
access_lifetime = 900

abbrev pub is_owner : AuthenticatedRequestUser → Bool
is_owner user = user.role === UserRole.platform_owner

-- The `where` clauses of findTenantUser, findDefaultTenantUser and findActiveSessionForActor.
abbrev pub tenant_user : ℕ → ℕ → User → Bool
tenant_user tenant id u = (u.id == id) && (is_just tenant u.tenant_id && u.is_active)

abbrev pub default_tenant_user : ℕ → User → Bool
default_tenant_user tenant u =
    is_just tenant u.tenant_id
    && (u.is_active
        && includes
            (UserRole.super_admin ∷ UserRole.operations_manager ∷ UserRole.finance_admin
              ∷ UserRole.merchant ∷ [])
            u.role)

abbrev pub active_for_actor : ℕ → ImpersonationSession → Bool
active_for_actor actor x = (x.actor_user_id == actor) && is_active_status x.status

abbrev pub closed : ImpersonationStatus → ℕ → ImpersonationSession → ImpersonationSession
closed status now x = record x { status = status; ended_at = some now }

abbrev pub duration : StartImpersonationDto → ℕ
duration dto = or_else dto.duration_minutes default_duration_minutes

abbrev pub new_session : ℕ → ℕ → ℕ → ℕ → ℕ → StartImpersonationDto → ImpersonationSession
new_session fresh now actor tenant target dto = record {
  id = fresh;
  actor_user_id = actor;
  target_user_id = target;
  tenant_id = tenant;
  status = ImpersonationStatus.active;
  expires_at = now + duration dto * 60 * 1000;
  ended_at = none;
}

abbrev pub context_of : ImpersonationSession → ImpersonationContext
context_of x = record {
  session_id = x.id;
  actor_user_id = x.actor_user_id;
  target_user_id = x.target_user_id;
  tenant_id = x.tenant_id;
}

-- What `startImpersonation` returns, with the type of tokens.
pub record Impersonation (Token : Type 0) : Type 0 where
  pub access_token : Token
  pub expires_in : ℕ
  pub impersonation : ImpersonationSession

pub record Ended : Type 0 where
  pub impersonation : ImpersonationSession
  pub already_ended : Bool

module _ (p : Prisma) where
  abbrev pub put_sessions : List ImpersonationSession → Desk → Desk
  put_sessions t d = record d { accounts = record d.accounts { sessions = t } }

  unfoldable pub write_audit_log :
      AuthenticatedRequestUser → ℕ → AuditAction → ℕ → Action Desk Error (Unit {0})
  write_audit_log user tenant action resource = modify (λ d. record d {
    audit_logs =
        p.create
          (record {
            actor_user_id = user.user_id;
            actor_role = user.role;
            tenant_id = tenant;
            action = action;
            resource_id = resource;
          })
          d.audit_logs;
  })

  unfoldable pub end_active_sessions_for_actor : ℕ → ℕ → Action Desk Error (Unit {0})
  end_active_sessions_for_actor now actor = modify (λ d.
      put_sessions
        (p.update_many (active_for_actor actor) (closed ImpersonationStatus.ended now)
          d.accounts.sessions)
        d)

  unfoldable pub create_impersonation_session : ImpersonationSession → Action Desk Error (Unit {0})
  create_impersonation_session x = do
    throw_if (ltb max_time x.expires_at) invalid_date
    modify (λ d. put_sessions (p.create x d.accounts.sessions) d)

  unfoldable pub end_session : ℕ → ℕ → ImpersonationStatus → Action Desk Error ImpersonationSession
  end_session now id status = do
    found ← gets (λ d. p.update (session_by_id id) (closed status now) d.accounts.sessions)
    written ← or_throw found record_not_found
    modify (put_sessions written.1)
    pure written.0

  -- The user to impersonate: the one that is asked for, or a default one.
  abbrev pub find_target : ℕ → Option ℕ → Desk → Option User
  find_target tenant none d = p.find_first (default_tenant_user tenant) d.accounts.users
  find_target tenant (some id) d = p.find_first (tenant_user tenant id) d.accounts.users

  unfoldable pub start_impersonation :
      (jwt : Jwt Claims)
      → ℕ
      → ℕ
      → ℕ
      → StartImpersonationDto
      → AuthenticatedRequestUser
      → Action Desk Error (Impersonation jwt.Token)
  start_impersonation jwt now fresh tenant_id dto user = do
    known ← gets (λ d. p.find_first (λ (t : Tenant). t.id == tenant_id) d.tenants)
    tenant ← or_throw known tenant_not_found
    throw_if ((tenant.status === TenantStatus.cancelled) && not (is_owner user)) owner_only
    throw_if (ltb max_duration_minutes (duration dto) && not (is_owner user)) duration_exceeded
    found ← gets (find_target tenant_id dto.target_user_id)
    target ← or_throw found target_not_found
    end_active_sessions_for_actor now user.user_id
    let session = new_session fresh now user.user_id tenant_id target.id dto
    create_impersonation_session session
    write_audit_log user tenant_id AuditAction.impersonation_started fresh
    pure (record {
      access_token =
          jwt.sign (Claims.access target.id target.role (some (context_of session))) now
            access_lifetime;
      expires_in = (session.expires_at - now) / 1000;
      impersonation = session;
    })

  -- The session to end: the one that is asked for, or the active one of the user.
  abbrev pub find_session : Option ℕ → ℕ → Desk → Option ImpersonationSession
  find_session none actor d = p.find_first (active_for_actor actor) d.accounts.sessions
  find_session (some id) actor d = p.find_first (session_by_id id) d.accounts.sessions

  unfoldable pub end_active :
      ℕ → AuthenticatedRequestUser → ImpersonationSession → Action Desk Error Ended
  end_active now user session = do
    ended ← end_session now session.id ImpersonationStatus.ended
    write_audit_log user ended.tenant_id AuditAction.impersonation_ended ended.id
    pure (record { impersonation = ended; already_ended = Bool.false })

  unfoldable pub end_impersonation :
      ℕ → Option ℕ → AuthenticatedRequestUser → Action Desk Error Ended
  end_impersonation now session_id user = do
    found ← gets (find_session session_id user.user_id)
    session ← or_throw found session_not_found
    throw_if (not (session.actor_user_id == user.user_id) && not (is_owner user)) not_own_session
    if not (is_active_status session.status)
        then pure (record { impersonation = session; already_ended = Bool.true })
        else end_active now user session

  unfoldable pub assert_active_impersonation_session :
      ℕ → ℕ → Action Desk Error ImpersonationSession
  assert_active_impersonation_session now id = do
    found ← gets (λ d. p.find_first (session_by_id id) d.accounts.sessions)
    session ← or_throw found session_not_active
    throw_if (not (is_active_status session.status)) session_not_active
    if leb session.expires_at now
        then (end_session now session.id ImpersonationStatus.expired >> throw session_expired)
        else pure session
