-- ===== src/Support/Tokens.antt =====
-- The token that `startImpersonation` of
-- modules/platform/support/services/platform-support.service.ts issues, as a request of
-- modules/auth/strategies/jwt.strategy.ts and common/tenant/effective-tenant.ts reads it.
use mathlib.Core.List.{Memᴰ}
use trackora.Base.{
  Bool, ℕ, ◌+◌, ◌*◌, ◌/◌, ◌<◌, ◌≡◌, ◌≢◌, refl, true, Option, none, some, All, arith, ok, is_just,
  is_just-true, Ensures-ok, or_throw, throw_if, ◌>>=◌, ◌>>◌, leb, pure, ==_iff,
}
use trackora.Prisma.{Prisma}
use trackora.Prisma.Rows.{IsUnique, find_first_unique}
use trackora.External.{Jwt}
use trackora.Access.Session.{
  validate, check_context, refuse_expired, resolve_effective_tenant_id, by_id, session_by_id,
  Accounts, mismatch, is_active_status, User, ImpersonationSession, Claims, jwt_payload,
  AuthenticatedRequestUser, effective_tenant,
}
use trackora.Support.Defs.{
  new_session, context_of, Desk, StartImpersonationDto, Impersonation, access_lifetime, duration,
  find_target, tenant_user, default_tenant_user, start_impersonation,
}
use trackora.Support.Sessions.{
  IsValid, session_id, switched, switched-IsValid, Started, Refused, start_impersonation-Started,
}

abbrev pub user_id : User → ℕ
user_id u = u.id

module _ (p : Prisma) where
  find_target-Mem :
      (tenant : ℕ) (id : Option ℕ) (d : Desk) (u : User)
      → find_target p tenant id d ≡ some u
      → Memᴰ u d.accounts.users × (u.tenant_id ≡ some tenant) × (u.is_active ≡ true)
  find_target-Mem tenant none d u h =
      let (m, e) = p.find_first-some (default_tenant_user tenant) d.accounts.users u h in
      (m, is_just-true tenant u.tenant_id (ground (arith, e)), ground (arith, e))
  find_target-Mem tenant (some id) d u h =
      let (m, e) = p.find_first-some (tenant_user tenant id) d.accounts.users u h in
      (m, is_just-true tenant u.tenant_id (ground (arith, e)), ground (arith, e))

  same_is_just : (t : ℕ) → is_just t (some t) ≡ true
  same_is_just t = (==_iff t t).1 refl

  -- The request of the user whom an open session of impersonation is for.
  effective_tenant-open :
      (later : ℕ) (x : ImpersonationSession) (u : User) (s : Accounts)
      → p.find_first (by_id u.id) s.users ≡ some u
      → u.is_active ≡ true
      → u.tenant_id ≡ some x.tenant_id
      → p.find_first (session_by_id x.id) s.sessions ≡ some x
      → x.target_user_id ≡ u.id
      → is_active_status x.status ≡ true
      → later < x.expires_at
      → effective_tenant p later
          (record { sub = u.id; impersonation_context = some (context_of x) })
          s
        ≡ ok x.tenant_id s
  unfolding effective_tenant validate check_context refuse_expired resolve_effective_tenant_id
  effective_tenant-open later x u s known on belongs found target active_still soon =
      let same : is_just x.tenant_id u.tenant_id ≡ true = rw belongs (same_is_just x.tenant_id) in
      let alive : leb x.expires_at later ≡ Bool.false = ground (arith, soon) in
      let fits : mismatch (record { sub = u.id; impersonation_context = some (context_of x) })
            (context_of x) u x
          ≡ Bool.false =
        ground (arith, target, same) in
      rw
        (
          known,
          or_throw,
          ◌>>◌,
          ◌>>=◌,
          on,
          throw_if,
          found,
          active_still,
          alive,
          pure,
          fits,
          same_is_just x.tenant_id,
        )
        refl

  -- In the first fifteen minutes after the start of a session of impersonation, and before the
  -- session expires, its token is accepted by its signature, and a request with it reaches the data
  -- of the tenant of the session and changes nothing, where nothing has changed the accounts since.
  -- Ids of users and of sessions are unique, and the new session has an id that no session has.
  pub start_impersonation-effective_tenant :
      (jwt : Jwt Claims) (now fresh tenant later : ℕ) (dto : StartImpersonationDto)
      (user : AuthenticatedRequestUser) (d d' : Desk) (i : Impersonation jwt.Token)
      → IsUnique user_id d.accounts.users
      → IsValid d.accounts.sessions
      → All (λ (y : ImpersonationSession). y.id ≢ fresh) d.accounts.sessions
      → start_impersonation p jwt now fresh tenant dto user d ≡ ok i d'
      → later / 1000 < now / 1000 + access_lifetime
      → later < now + duration dto * 60 * 1000
      → (c : Claims) × (jwt.verify later i.access_token ≡ some c)
        × (effective_tenant p later (jwt_payload c) d'.accounts ≡ ok tenant d'.accounts)
  start_impersonation-effective_tenant jwt now fresh tenant later dto user d d' i uu v new h soon
        in_time =
      let r =
        Ensures-ok (Started p jwt now fresh tenant dto user d) (Refused p now dto user d) _ h
          (start_impersonation-Started p jwt now fresh tenant dto user d) in
      let (m, belongs, on) = find_target-Mem tenant dto.target_user_id d r.target r.found in
      let x = new_session fresh now user.user_id tenant r.target.id dto in
      let valid = switched-IsValid now x d.accounts.sessions new v in
      (
        Claims.access r.target.id r.target.role (some (context_of i.impersonation)),
        rw r.token (jwt.verify-sign _ now access_lifetime later soon),
        rw r.session (
            effective_tenant-open later x r.target d'.accounts
              (rw r.users (find_first_unique p user_id r.target d.accounts.users uu m)) on belongs
              (rw r.sessions (
                find_first_unique p session_id x (switched now x d.accounts.sessions) valid.ids
                  (Memᴰ.head refl)))
              refl refl in_time),
      )
