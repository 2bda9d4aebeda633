-- ===== src/Access/Scope.antt =====
-- The tenant of a request, by modules/auth/strategies/jwt.strategy.ts and then
-- common/tenant/effective-tenant.ts.
use trackora.Base.{
  is_just-true, ℕ, ◌<◌, ◌≡◌, ◌⊎◌, inl, inr, refl, sym, subst, true, false, Option, none, some,
  Ensures, Ensures-or_throw, Ensures-throw_if, Ensures-bind, Bool-cases, arith, ◌==◌, not, is_just,
  leb, if◌then◌else◌, pure, Ensures-mono, or_throw,
}
use trackora.Prisma.{Prisma}
use trackora.Prisma.Rows.{not-false}
use trackora.Access.Permissions.{is_platform_role}
use trackora.Access.Session.{
  User, ImpersonationSession, Accounts, ImpersonationContext, JwtPayload, AuthenticatedRequestUser,
  Error, tenant_required, by_id, session_by_id, is_active_status, mismatch, plain_user,
  impersonated_user, resolve_effective_tenant_id, refuse_expired, check_context, validate,
  effective_tenant, expire_session,
}

mismatch-false :
    (payload : JwtPayload) (c : ImpersonationContext) (u : User) (x : ImpersonationSession)
    → mismatch payload c u x ≡ false
    → (x.actor_user_id ≡ c.actor_user_id)
      × (x.target_user_id ≡ payload.sub)
      × (x.tenant_id ≡ c.tenant_id)
      × (is_just x.tenant_id u.tenant_id ≡ true)
mismatch-false payload c u x h = ground arith

-- A throw leaves the users as they are.
abbrev SameUsers : Accounts → Error → Accounts → Type 0
SameUsers s e s' = s'.users ≡ s.users

module _ (p : Prisma) (now : ℕ) (payload : JwtPayload) (s : Accounts) where
  -- An open session of impersonation of this user, in the tenant.
  pub record Impersonates (tenant : ℕ) : Type 0 where
    pub context : ImpersonationContext
    pub session : ImpersonationSession
    pub given : payload.impersonation_context ≡ some context
    pub found : p.find_first (session_by_id context.session_id) s.sessions ≡ some session
    pub open_still : is_active_status session.status ≡ true
    pub unexpired : now < session.expires_at
    pub by_actor : session.actor_user_id ≡ context.actor_user_id
    pub of_user : session.target_user_id ≡ payload.sub
    pub in_tenant : session.tenant_id ≡ tenant

  -- What stands behind a request that reaches the data of a tenant.
  pub record Scoped (tenant : ℕ) (s' : Accounts) : Type 0 where
    pub user : User
    pub known : p.find_first (by_id payload.sub) s.users ≡ some user
    pub is_on : user.is_active ≡ true
    pub belongs : user.tenant_id ≡ some tenant
    pub allowed :
        ((payload.impersonation_context ≡ none) × (is_platform_role user.role ≡ false))
        ⊎ Impersonates tenant
    pub unchanged : s' ≡ s

  -- What `check_context` makes of the user.
  abbrev Checked : User → AuthenticatedRequestUser → Accounts → Type 0
  Checked user u s' =
      (s' ≡ s)
      × (((payload.impersonation_context ≡ none) × (u ≡ plain_user user))
          ⊎ ((i : (t : ℕ) × Impersonates t) × (u ≡ impersonated_user user i.1.context)
              × (i.1.context.tenant_id ≡ i.0)
              × (user.tenant_id ≡ some i.0)))

  refuse_expired-Ensures :
      (x : ImpersonationSession) → Ensures (λ _ _. ⊥) (SameUsers s) (refuse_expired p now x s)
  unfolding refuse_expired
  refuse_expired-Ensures x =
      Ensures-or_throw _ _ (p.update (session_by_id x.id) (expire_session now) s.sessions) _ s _
        (λ _. refl) λ written _. refl

  unexpired_step :
      (x : ImpersonationSession)
      → Ensures
          (λ _ s'. (s' ≡ s) × (leb x.expires_at now ≡ false))
          (SameUsers s)
          ((if leb x.expires_at now then refuse_expired p now x else pure tt) s)
  unexpired_step x = elim (Bool-cases (leb x.expires_at now)) [
    | inl e ↦ rw e (
        Ensures-mono _ _ _ (refuse_expired p now x s) (λ _ _ h. absurd h)
          (refuse_expired-Ensures x))
    | inr e ↦ rw e (refl, refl)
  ]

  check_context-Ensures :
      (user : User) (c : Option ImpersonationContext)
      → payload.impersonation_context ≡ c
      → Ensures (Checked user) (SameUsers s) (check_context p now payload user c s)
  unfolding check_context
  check_context-Ensures user none e = (refl, inl (e, refl))
  check_context-Ensures user (some c) e =
      Ensures-or_throw _ _ (p.find_first (session_by_id c.session_id) s.sessions) _ s _ (λ _. refl)
        λ x found.
          Ensures-throw_if _ _ (not (is_active_status x.status)) _ s _ (λ _. refl)
            λ on.
              Ensures-bind _ _ (λ _ s'. (s' ≡ s) × (leb x.expires_at now ≡ false))
                (if leb x.expires_at now then refuse_expired p now x else pure tt) _ s
                (unexpired_step x)
                λ _ s' h. rw h.0 (
                  Ensures-throw_if _ _ (mismatch payload c user x) _ s _ (λ _. refl)
                    λ fits.
                      let (a, b, t, u) = mismatch-false payload c user x fits in
                      (
                        refl,
                        inr (
                          (
                            x.tenant_id,
                            record {
                              context = c;
                              session = x;
                              given = e;
                              found = found;
                              open_still = not-false _ on;
                              unexpired = ground (arith, h.1);
                              by_actor = a;
                              of_user = b;
                              in_tenant = refl;
                            },
                          ),
                          refl,
                          sym t,
                          is_just-true _ _ u,
                        ),
                      ))

  abbrev Valid : AuthenticatedRequestUser → Accounts → Type 0
  Valid u s' =
      (user : User) × (p.find_first (by_id payload.sub) s.users ≡ some user)
      × (user.is_active ≡ true)
      × Checked user u s'

  validate-Ensures : Ensures Valid (SameUsers s) (validate p now payload s)
  unfolding validate
  validate-Ensures =
      Ensures-or_throw _ _ (p.find_first (by_id payload.sub) s.users) _ s _ (λ _. refl)
        λ user found.
          Ensures-throw_if _ _ (not user.is_active) _ s _ (λ _. refl)
            λ on.
              Ensures-mono (Checked user) Valid (SameUsers s)
                (check_context p now payload user payload.impersonation_context s)
                (λ _ _ h. (user, found, not-false _ on, h))
                (check_context-Ensures user payload.impersonation_context refl)

  resolve-plain :
      (user : User)
      → p.find_first (by_id payload.sub) s.users ≡ some user
      → user.is_active ≡ true
      → payload.impersonation_context ≡ none
      → Ensures Scoped (SameUsers s) (resolve_effective_tenant_id (some (plain_user user)) s)
  unfolding resolve_effective_tenant_id
  resolve-plain user found on no_context =
      Ensures-throw_if _ _ (is_platform_role user.role) _ s _ (λ _. refl)
        λ plain. last user.tenant_id refl plain
    where
      last :
          (o : Option ℕ)
          → user.tenant_id ≡ o
          → is_platform_role user.role ≡ false
          → Ensures Scoped (SameUsers s) (or_throw o tenant_required s)
      last none e plain = refl
      last (some t) e plain = record {
        user = user;
        known = found;
        is_on = on;
        belongs = e;
        allowed = inl (no_context, plain);
        unchanged = refl;
      }

  resolve-impersonated :
      (user : User)
      → p.find_first (by_id payload.sub) s.users ≡ some user
      → user.is_active ≡ true
      → (t : ℕ) (i : Impersonates t) → i.context.tenant_id ≡ t
      → user.tenant_id ≡ some t
      → Ensures Scoped
          (SameUsers s)
          (resolve_effective_tenant_id (some (impersonated_user user i.context)) s)
  unfolding resolve_effective_tenant_id
  resolve-impersonated user found on t i ct ut =
      Ensures-throw_if Scoped (SameUsers s) (not (i.context.tenant_id == i.context.tenant_id)) _ s _
        (λ _. refl)
        λ _.
          subst (λ k. Scoped k s) (sym ct)
            (record {
              user = user;
              known = found;
              is_on = on;
              belongs = ut;
              allowed = inr i;
              unchanged = refl;
            })

  resolve-Scoped :
      (u : AuthenticatedRequestUser) (s' : Accounts)
      → Valid u s'
      → Ensures Scoped (SameUsers s) (resolve_effective_tenant_id (some u) s')
  resolve-Scoped u s' (user, found, on, (same, inl (no_context, e))) =
      rw (same, e) (resolve-plain user found on no_context)
  resolve-Scoped u s' (user, found, on, (same, inr ((t, i), e, ct, ut))) =
      rw (same, e) (resolve-impersonated user found on t i ct ut)

  -- A request reaches the data of a tenant only for a user who is on record, active and of that
  -- tenant, and who either has no platform role and is not impersonated, or is the target of a
  -- session of impersonation in that tenant, which is active and has not expired, and which the
  -- actor that the token names has opened. The accounts are then unchanged; a request that is
  -- refused leaves the users unchanged.
  pub effective_tenant-Scoped : Ensures Scoped (SameUsers s) (effective_tenant p now payload s)
  unfolding effective_tenant
  effective_tenant-Scoped =
      Ensures-bind _ _ Valid (validate p now payload) _ s validate-Ensures resolve-Scoped
