-- ===== src/Support/Tests.antt =====
-- Impersonation on small tables: a tenant with its administrator, and a member of the support staff
-- with an older session.
use trackora.Base.{ℕ, ◌≡◌, refl, true, none, some, [], ◌∷◌, ok, Ensures, reached, arith, ◌==◌}
use trackora.External.{Jwt, plain_jwt, plain_same}
use trackora.Prisma.Memory.{memory}
use trackora.Model.Enums.{UserRole, TenantStatus}
use trackora.Access.Session.{
  User, ImpersonationSession, ImpersonationStatus, Claims, jwt_payload, plain_user,
  effective_tenant, access, refresh,
}
use trackora.Support.Defs.{
  Desk, StartImpersonationDto, start_impersonation, end_active_sessions_for_actor,
  create_impersonation_session, write_audit_log,
}
use trackora.Support.Sessions.{IsValid, Started, Refused, start_impersonation-Started}
use trackora.Support.Runs.{Good, here, next, start, Reach-one_session}
use trackora.Support.Tokens.{start_impersonation-effective_tenant}

abbrev admin : User
admin = record {
  id = 4;
  tenant_id = some 5;
  role = UserRole.super_admin;
  is_active = true;
  phone = 71;
  email = none;
  password_hash = none;
}

abbrev supporter : User
supporter = record {
  id = 9;
  tenant_id = none;
  role = UserRole.platform_support;
  is_active = true;
  phone = 72;
  email = none;
  password_hash = none;
}

abbrev older : ImpersonationSession
older = record {
  id = 1;
  actor_user_id = 9;
  target_user_id = 8;
  tenant_id = 6;
  status = ImpersonationStatus.active;
  expires_at = 100000;
  ended_at = none;
}

abbrev desk : Desk
desk = record {
  tenants = record { id = 5; status = TenantStatus.active } ∷ [];
  accounts = record { users = admin ∷ supporter ∷ []; sessions = older ∷ [] };
  audit_logs = [];
}

-- Tokens are told apart by the user that they are for.
abbrev subject : Claims → ℕ
subject (access sub role context) = sub
subject (refresh sub) = sub

abbrev tokens : Jwt Claims
tokens = plain_jwt Claims (λ c d. subject c == subject d) (λ c. plain_same (subject c))

abbrev asked : StartImpersonationDto
asked = record { target_user_id = some 4; duration_minutes = none }

abbrev desk_valid : IsValid desk.accounts.sessions
desk_valid = record { ids = (tt, tt); one_active = (λ _. tt, tt) }

start_impersonation-Started_example :
    Ensures
      (Started memory tokens 1000 2 5 asked (plain_user supporter) desk)
      (Refused memory 1000 asked (plain_user supporter) desk)
      (start_impersonation memory tokens 1000 2 5 asked (plain_user supporter) desk)
start_impersonation-Started_example =
    start_impersonation-Started memory tokens 1000 2 5 asked (plain_user supporter) desk

abbrev after : Desk
after = reached (start_impersonation memory tokens 1000 2 5 asked (plain_user supporter) desk)

abbrev token : tokens.Token
token =
    tokens.sign
      (access 4 UserRole.super_admin
        (some (record { session_id = 2; actor_user_id = 9; target_user_id = 4; tenant_id = 5 })))
      1000 900

Reach-one_session_example : Good after
Reach-one_session_example =
    Reach-one_session memory tokens desk_valid
      (next here (start 1000 2 5 asked (plain_user supporter) ((λ e. ground arith), tt)))

started :
    start_impersonation memory tokens 1000 2 5 asked (plain_user supporter) desk
    ≡ ok
        (record {
          access_token = token;
          expires_in = 1800;
          impersonation = record {
            id = 2;
            actor_user_id = 9;
            target_user_id = 4;
            tenant_id = 5;
            status = ImpersonationStatus.active;
            expires_at = 1801000;
            ended_at = none;
          };
        })
        after
unfolding start_impersonation end_active_sessions_for_actor create_impersonation_session
    write_audit_log
started = refl

start_impersonation-effective_tenant_example :
    (c : Claims) × (tokens.verify 2000 token ≡ some c)
    × (effective_tenant memory 2000 (jwt_payload c) after.accounts ≡ ok 5 after.accounts)
start_impersonation-effective_tenant_example =
    start_impersonation-effective_tenant memory tokens 1000 2 5 2000 asked (plain_user supporter)
      desk after _ (((λ e. ground arith), tt), (tt, tt)) desk_valid ((λ e. ground arith), tt)
      started (omega arith) (omega arith)
