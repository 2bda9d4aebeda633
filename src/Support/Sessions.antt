-- ===== src/Support/Sessions.antt =====
-- The sessions of impersonation under the calls of
-- modules/platform/support/services/platform-support.service.ts and the check of a token by
-- modules/auth/strategies/jwt.strategy.ts.
use trackora.Base.{
  ℕ, ◌+◌, ◌*◌, ◌<◌, ◌≤◌, ◌≡◌, ◌≢◌, ◌⊎◌, inl, inr, refl, Bool, true, false, some, List, ◌∷◌, All,
  All-mono, Ensures, Ensures-or_throw, Ensures-throw_if, Bool-cases, arith, not, ltb, ◌&&◌, ◌==◌,
}
use trackora.Prisma.{Prisma, change}
use trackora.Prisma.Rows.{IsUnique, change-IsUnique, change-All}
use trackora.Prisma.Rivals.{AtMostOne, change-AtMostOne, All-change}
use trackora.External.{Jwt}
use trackora.Model.Enums.{TenantStatus, tenant_status_enum, ◌===◌}
use trackora.Access.Session.{
  User, ImpersonationSession, ImpersonationStatus, Claims, AuthenticatedRequestUser,
  is_active_status,
}
use trackora.Support.Defs.{
  Error, max_time, put_sessions, invalid_date, Tenant, Desk, StartImpersonationDto, access_lifetime,
  max_duration_minutes, duration, is_owner, active_for_actor, closed, new_session, context_of,
  Impersonation, write_audit_log, end_active_sessions_for_actor, create_impersonation_session,
  find_target, start_impersonation,
}

abbrev pub session_id : ImpersonationSession → ℕ
session_id x = x.id

abbrev pub actor_key : ImpersonationSession → ℕ
actor_key x = x.actor_user_id

abbrev pub is_on : ImpersonationSession → Bool
is_on x = is_active_status x.status

-- Ids of sessions are unique, and no actor has two active sessions.
pub record IsValid (t : List ImpersonationSession) : Type 0 where
  pub ids : IsUnique session_id t
  pub one_active : AtMostOne is_on actor_key t

-- The status of a session that is closed is not ACTIVE.
pub closed-IsValid :
    (q : ImpersonationSession → Bool) (status : ImpersonationStatus) (now : ℕ)
    → is_active_status status ≡ false
    → (t : List ImpersonationSession) → IsValid t
    → IsValid (change q (closed status now) t)
closed-IsValid q status now off t v = record {
  ids = change-IsUnique session_id q (closed status now) t (λ _. refl) v.ids;
  one_active =
      change-AtMostOne is_on actor_key q (closed status now) (λ _. refl) (λ _ on. cc (off, on)) t
        v.one_active;
}

-- Once the active sessions of an actor are ended, he has none.
ended_for_actor :
    (actor now : ℕ) (t : List ImpersonationSession)
    → All
        (λ y. active_for_actor actor y ≡ false)
        (change (active_for_actor actor) (closed ImpersonationStatus.ended now) t)
ended_for_actor actor now t =
    All-change (active_for_actor actor) (closed ImpersonationStatus.ended now)
      (λ y. active_for_actor actor y ≡ false) t
      λ y _. elim (Bool-cases (active_for_actor actor y)) [
        | inl e ↦ rw e (ground arith)
        | inr e ↦ rw e e
      ]

-- What a start leaves: the sessions of the actor are ended, and the new one is added.
abbrev pub switched :
    ℕ → ImpersonationSession → List ImpersonationSession → List ImpersonationSession
switched now x t =
    x ∷ change (active_for_actor x.actor_user_id) (closed ImpersonationStatus.ended now) t

pub switched-IsValid :
    (now : ℕ) (x : ImpersonationSession) (t : List ImpersonationSession)
    → All (λ (y : ImpersonationSession). y.id ≢ x.id) t
    → IsValid t
    → IsValid (switched now x t)
switched-IsValid now x t new v =
    let q = active_for_actor x.actor_user_id in
    let f = closed ImpersonationStatus.ended now in
    let rest = closed-IsValid q ImpersonationStatus.ended now refl t v in
    record {
      ids = (
        change-All (λ (y : ImpersonationSession). y.id ≢ x.id) q f t (λ _ _ _ h. h) new,
        rest.ids,
      );
      one_active = (
        λ _.
            All-mono (λ y. q y ≡ false) (λ y. is_on y ≡ true → actor_key y ≢ actor_key x)
              (change q f t) (λ y e on k. ground (arith, e, on, k))
              (ended_for_actor x.actor_user_id now t),
        rest.one_active,
      );
    }

module _ (p : Prisma) where
  -- What a start has found and written.
  pub record Started (jwt : Jwt Claims) (now fresh tenant : ℕ) (dto : StartImpersonationDto)
      (user : AuthenticatedRequestUser) (d : Desk) (i : Impersonation jwt.Token) (d' : Desk)
      : Type 0 where
    pub row : Tenant
    pub target : User
    pub known : p.find_first (λ (t : Tenant). t.id == tenant) d.tenants ≡ some row
    pub open_tenant : (row.status === TenantStatus.cancelled) && not (is_owner user) ≡ false
    pub in_time : (is_owner user ≡ true) ⊎ (duration dto ≤ max_duration_minutes)
    pub found : find_target p tenant dto.target_user_id d ≡ some target
    pub session : i.impersonation ≡ new_session fresh now user.user_id tenant target.id dto
    pub token :
        i.access_token
        ≡ jwt.sign
            (Claims.access target.id target.role (some (context_of i.impersonation)))
            now
            access_lifetime
    pub sessions :
        d'.accounts.sessions
        ≡ switched now (new_session fresh now user.user_id tenant target.id dto) d.accounts.sessions
    pub users : d'.accounts.users ≡ d.accounts.users

  -- What a start that throws leaves: all as it was, or, where the expiry is past the last date, the
  -- active sessions of the actor ended.
  abbrev pub Refused :
      ℕ → StartImpersonationDto → AuthenticatedRequestUser → Desk → Error → Desk → Type 0
  Refused now dto user d e d' =
      (d' ≡ d)
      ⊎ ((e ≡ invalid_date)
          × (max_time < now + duration dto * 60 * 1000)
          × (d'
              ≡ put_sessions p
                  (change (active_for_actor user.user_id) (closed ImpersonationStatus.ended now)
                    d.accounts.sessions)
                  d))

  -- A session of impersonation is started only in a tenant on record, which is not cancelled, and for
  -- at most 60 minutes, unless a platform owner asks; and for an active user of that tenant. All
  -- active sessions of the actor are ended then, and the token names the new one. Where the database
  -- carries out the writes, a start that throws changes nothing, but for one whose expiry is past the
  -- last date of JavaScript, which has ended the active sessions of the actor by then.
  pub start_impersonation-Started :
      (jwt : Jwt Claims) (now fresh tenant : ℕ) (dto : StartImpersonationDto)
      (user : AuthenticatedRequestUser) (d : Desk)
      → Ensures
          (Started jwt now fresh tenant dto user d)
          (Refused now dto user d)
          (start_impersonation p jwt now fresh tenant dto user d)
  unfolding start_impersonation end_active_sessions_for_actor create_impersonation_session
      write_audit_log
  start_impersonation-Started jwt now fresh tenant dto user d =
      Ensures-or_throw _ _ (p.find_first (λ (t : Tenant). t.id == tenant) d.tenants) _ d _
        (λ _. inl refl)
        λ row known.
          Ensures-throw_if _ _ ((row.status === TenantStatus.cancelled) && not (is_owner user)) _ d
            _ (λ _. inl refl)
            λ open_tenant.
              Ensures-throw_if _ _ (ltb max_duration_minutes (duration dto) && not (is_owner user))
                _ d _ (λ _. inl refl)
                λ in_time.
                  Ensures-or_throw _ _ (find_target p tenant dto.target_user_id d) _ d _
                    (λ _. inl refl)
                    λ target found.
                      rw (p.update_many-eq)
                        (elim (Bool-cases (ltb max_time (now + duration dto * 60 * 1000))) [
                          | inl late ↦ rw late (inr (refl, ground (arith, late), refl))
                          | inr valid ↦ rw valid (record {
                            row = row;
                            target = target;
                            known = known;
                            open_tenant = open_tenant;
                            in_time = ground (arith, in_time);
                            found = found;
                            session = refl;
                            token = refl;
                            sessions = rw p.create-eq refl;
                            users = refl;
                          })
                        ])
