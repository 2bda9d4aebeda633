-- ===== src/Access/Tests.antt =====
-- Requests on small tables: the administrator of a tenant, and a session that impersonates him.
use trackora.Base.{◌≡◌, refl, true, none, some, [], ◌∷◌, ok, Ensures, ℕ, false, Option, err}
use trackora.External.{memory_cache}
use trackora.Access.Otp.{OtpRecord, otp_ttl, already_used, Accepts, verify_otp, verify_otp_once}
use trackora.Prisma.Memory.{memory}
use trackora.Model.Enums.{UserRole}
use trackora.Access.Permissions.{Permission, role_permissions}
use trackora.Access.Session.{
  Accounts, User, ImpersonationContext, ImpersonationStatus, JwtPayload, plain_user,
  effective_tenant, validate, check_context, refuse_expired, resolve_effective_tenant_id,
}
use trackora.Access.Guards.{
  Decision, platform_only_guard, permissions_guard, permissions_guard_platform,
}
use trackora.Access.Scope.{Scoped, effective_tenant-Scoped}

abbrev admin : User
admin = record {
  id = 4;
  tenant_id = some 5;
  role = UserRole.super_admin;
  is_active = true;
  phone = 71;
  email = none;
  password_hash = none;
}

abbrev support : User
support = record {
  id = 9;
  tenant_id = none;
  role = UserRole.platform_support;
  is_active = true;
  phone = 72;
  email = none;
  password_hash = none;
}

abbrev context : ImpersonationContext
context = record { session_id = 1; actor_user_id = 9; target_user_id = 4; tenant_id = 5 }

abbrev accounts : Accounts
accounts = record {
  users = admin ∷ support ∷ [];
  sessions =
      record {
        id = 1;
        actor_user_id = 9;
        target_user_id = 4;
        tenant_id = 5;
        status = ImpersonationStatus.active;
        expires_at = 100;
        ended_at = none;
      }
      ∷ [];
}

abbrev token : JwtPayload
token = record { sub = 4; impersonation_context = some context }

-- While the session lasts, the request reaches the data of its tenant.
reaches : effective_tenant memory 50 token accounts ≡ ok 5 accounts
unfolding effective_tenant validate check_context refuse_expired resolve_effective_tenant_id
reaches = refl

effective_tenant-Scoped_example :
    Ensures
      (Scoped memory 50 token accounts)
      (λ e s'. s'.users ≡ accounts.users)
      (effective_tenant memory 50 token accounts)
effective_tenant-Scoped_example = effective_tenant-Scoped memory 50 token accounts

lets_in :
    permissions_guard (some (Permission.view_audit_logs ∷ [])) none (some (plain_user support))
    ≡ true
unfolding permissions_guard role_permissions
lets_in = refl

permissions_guard_platform_example :
    platform_only_guard (some (plain_user support)) ≡ Decision.allowed
permissions_guard_platform_example =
    permissions_guard_platform Permission.view_audit_logs [] none (plain_user support) refl lets_in

abbrev sent : ℕ → Option OtpRecord
sent =
    (memory_cache OtpRecord).set (λ k. none) 77
      (record { code = 1234; attempts = 0; verified = false }) otp_ttl

-- The password is accepted at the first attempt.
accepted :
    verify_otp (memory_cache OtpRecord) 77 1234 sent
    ≡ ok tt (
        (memory_cache OtpRecord).set
          ((memory_cache OtpRecord).set sent 77
            (record { code = 1234; attempts = 1; verified = false })
            otp_ttl)
          77
          (record { code = 1234; attempts = 1; verified = true })
          otp_ttl)
unfolding verify_otp
accepted = refl

verify_otp_once_example :
    Ensures
      (λ _ s'.
        Accepts (memory_cache OtpRecord) 77 1234 sent
        × (verify_otp (memory_cache OtpRecord) 77 1234 s' ≡ err already_used s'))
      (λ _ _. Unit {0})
      (verify_otp (memory_cache OtpRecord) 77 1234 sent)
verify_otp_once_example = verify_otp_once (memory_cache OtpRecord) 77 1234 1234 sent
