-- ===== src/Support/Runs.antt =====
-- Runs of the calls of modules/platform/support/services/platform-support.service.ts, and of the
-- check of a token by modules/auth/strategies/jwt.strategy.ts.
use trackora.Base.{
  ℕ, ◌≡◌, ◌≢◌, inl, inr, refl, false, Option, none, some, All, Ensures-or_throw, Ensures-throw_if,
  Ensures-bind, Ensures-map, Option-cases, Leaves, Leaves-reached, reached, Bool-cases, not, leb,
  ◌&&◌, ◌==◌, if◌then◌else◌, pure,
}
use trackora.Prisma.{Prisma}
use trackora.External.{Jwt}
use trackora.Model.Enums.{tenant_status_enum}
use trackora.Access.Session.{
  User, ImpersonationSession, ImpersonationStatus, Claims, AuthenticatedRequestUser,
  is_active_status, session_by_id, Accounts, JwtPayload, ImpersonationContext, refuse_expired,
  check_context, validate, expire_session, by_id, mismatch,
}
use trackora.Support.Defs.{
  active_for_actor, Desk, StartImpersonationDto, is_owner, closed, new_session, write_audit_log,
  end_session, find_session, start_impersonation, end_active, end_impersonation,
  assert_active_impersonation_session,
}
use trackora.Support.Sessions.{
  IsValid, closed-IsValid, switched-IsValid, Started, Refused, start_impersonation-Started,
}

abbrev pub Good : Desk → Type 0
Good d = IsValid d.accounts.sessions

abbrev GoodAccounts : Accounts → Type 0
GoodAccounts s = IsValid s.sessions

module _ (p : Prisma) where
  start_impersonation-IsValid :
      (jwt : Jwt Claims) (now fresh tenant : ℕ) (dto : StartImpersonationDto)
      (user : AuthenticatedRequestUser) (d : Desk)
      → All (λ (y : ImpersonationSession). y.id ≢ fresh) d.accounts.sessions
      → Good d
      → Leaves Good (start_impersonation p jwt now fresh tenant dto user d)
  start_impersonation-IsValid jwt now fresh tenant dto user d new v =
      Ensures-map (Started p jwt now fresh tenant dto user d) (λ _ d'. Good d')
        (Refused p now dto user d) (λ _ d'. Good d')
        (start_impersonation p jwt now fresh tenant dto user d)
        (λ i d' s. rw s.sessions (
          switched-IsValid now (new_session fresh now user.user_id tenant s.target.id dto)
            d.accounts.sessions new v))
        (λ e d' r. elim r [
          | inl same ↦ rw same v
          | inr (_, _, reached) ↦ rw reached (
              closed-IsValid (active_for_actor user.user_id) ImpersonationStatus.ended now refl
                d.accounts.sessions v)
        ])
        (start_impersonation-Started p jwt now fresh tenant dto user d)

  end_session-IsValid :
      (now id : ℕ) (status : ImpersonationStatus) (d : Desk)
      → is_active_status status ≡ false
      → Good d
      → Leaves Good (end_session p now id status d)
  unfolding end_session
  end_session-IsValid now id status d off v =
      elim (Option-cases (p.find_first (session_by_id id) d.accounts.sessions)) [
        | inl e ↦ rw (p.update-none (session_by_id id) (closed status now) _ e) v
        | inr (x, e) ↦
            rw (p.update-some (session_by_id id) (closed status now) _ x e)
              (closed-IsValid (session_by_id id) status now off d.accounts.sessions v)
      ]

  end_active-IsValid :
      (now : ℕ) (user : AuthenticatedRequestUser) (x : ImpersonationSession) (d : Desk)
      → Good d
      → Leaves Good (end_active p now user x d)
  unfolding end_active write_audit_log
  end_active-IsValid now user x d v =
      Ensures-bind _ _ (λ _ d'. Good d') (end_session p now x.id ImpersonationStatus.ended) _ d
        (end_session-IsValid now x.id ImpersonationStatus.ended d refl v) λ _ d' w. w

  end_impersonation-IsValid :
      (now : ℕ) (id : Option ℕ) (user : AuthenticatedRequestUser) (d : Desk)
      → Good d
      → Leaves Good (end_impersonation p now id user d)
  unfolding end_impersonation
  end_impersonation-IsValid now id user d v =
      Ensures-or_throw _ _ (find_session p id user.user_id d) _ d _ (λ _. v)
        λ x found.
          Ensures-throw_if _ _ (not (x.actor_user_id == user.user_id) && not (is_owner user)) _ d _
            (λ _. v)
            λ allowed. elim (Bool-cases (is_active_status x.status)) [
              | inl e ↦ rw e (end_active-IsValid now user x d v)
              | inr e ↦ rw e v
            ]

  assert_active_impersonation_session-IsValid :
      (now id : ℕ) (d : Desk)
      → Good d
      → Leaves Good (assert_active_impersonation_session p now id d)
  unfolding assert_active_impersonation_session
  assert_active_impersonation_session-IsValid now id d v =
      Ensures-or_throw _ _ (p.find_first (session_by_id id) d.accounts.sessions) _ d _ (λ _. v)
        λ x found.
          Ensures-throw_if _ _ (not (is_active_status x.status)) _ d _ (λ _. v)
            λ on. elim (Bool-cases (leb x.expires_at now)) [
              | inl e ↦ rw e (
                  Ensures-bind _ _ (λ _ d'. Good d')
                    (end_session p now x.id ImpersonationStatus.expired) _ d
                    (end_session-IsValid now x.id ImpersonationStatus.expired d refl v) λ _ d' w. w)
              | inr e ↦ rw e v
            ]

  refuse_expired-IsValid :
      (now : ℕ) (x : ImpersonationSession) (s : Accounts)
      → GoodAccounts s
      → Leaves GoodAccounts (refuse_expired p now x s)
  unfolding refuse_expired
  refuse_expired-IsValid now x s v =
      elim (Option-cases (p.find_first (session_by_id x.id) s.sessions)) [
        | inl e ↦ rw (p.update-none (session_by_id x.id) (expire_session now) _ e) v
        | inr (y, e) ↦
            rw (p.update-some (session_by_id x.id) (expire_session now) _ y e) (
              closed-IsValid (session_by_id x.id) ImpersonationStatus.expired now refl s.sessions v)
      ]

  check_context-IsValid :
      (now : ℕ) (payload : JwtPayload) (user : User) (c : Option ImpersonationContext)
      (s : Accounts)
      → GoodAccounts s
      → Leaves GoodAccounts (check_context p now payload user c s)
  unfolding check_context
  check_context-IsValid now payload user none s v = v
  check_context-IsValid now payload user (some c) s v =
      Ensures-or_throw _ _ (p.find_first (session_by_id c.session_id) s.sessions) _ s _ (λ _. v)
        λ x found.
          Ensures-throw_if _ _ (not (is_active_status x.status)) _ s _ (λ _. v)
            λ on.
              Ensures-bind _ _ (λ _ s'. GoodAccounts s')
                (if leb x.expires_at now then refuse_expired p now x else pure tt) _ s
                (elim (Bool-cases (leb x.expires_at now)) [
                  | inl e ↦ rw e (refuse_expired-IsValid now x s v)
                  | inr e ↦ rw e v
                ])
                λ _ s' w. Ensures-throw_if _ _ (mismatch payload c user x) _ s' _ (λ _. w) (λ _. w)

  validate-IsValid :
      (now : ℕ) (payload : JwtPayload) (s : Accounts)
      → GoodAccounts s
      → Leaves GoodAccounts (validate p now payload s)
  unfolding validate
  validate-IsValid now payload s v =
      Ensures-or_throw _ _ (p.find_first (by_id payload.sub) s.users) _ s _ (λ _. v)
        λ user found.
          Ensures-throw_if _ _ (not user.is_active) _ s _ (λ _. v)
            λ on. check_context-IsValid now payload user payload.impersonation_context s v

module _ (p : Prisma) (jwt : Jwt Claims) where
  -- One call, whether it returns or throws. The database gives a new session an id that no session
  -- has.
  pub data Step (d : Desk) : Desk → Type 0 where
    start :
        (now fresh tenant : ℕ) (dto : StartImpersonationDto) (user : AuthenticatedRequestUser)
        → All (λ (y : ImpersonationSession). y.id ≢ fresh) d.accounts.sessions
        → Step d (reached (start_impersonation p jwt now fresh tenant dto user d))
    end :
        (now : ℕ) (id : Option ℕ) (user : AuthenticatedRequestUser)
        → Step d (reached (end_impersonation p now id user d))
    check : (now id : ℕ) → Step d (reached (assert_active_impersonation_session p now id d))
    request :
        (now : ℕ) (payload : JwtPayload)
        → Step d (record d { accounts = reached (validate p now payload d.accounts) })

  pub data Reach (d : Desk) : Desk → Type 0 where
    here : Reach d d
    next : {c e : Desk} → Reach d c → Step c e → Reach d e

  Step-IsValid : {d e : Desk} → Good d → Step d e → Good e
  Step-IsValid {d} v (start now fresh tenant dto user new) =
      Leaves-reached Good _ (start_impersonation-IsValid p jwt now fresh tenant dto user d new v)
  Step-IsValid {d} v (end now id user) =
      Leaves-reached Good _ (end_impersonation-IsValid p now id user d v)
  Step-IsValid {d} v (check now id) =
      Leaves-reached Good _ (assert_active_impersonation_session-IsValid p now id d v)
  Step-IsValid {d} v (request now payload) =
      Leaves-reached GoodAccounts _ (validate-IsValid p now payload d.accounts v)

  -- From sessions with unique ids of which no actor has two active ones, after any calls that start
  -- and end sessions, check them and check the tokens of requests, whether the calls return or
  -- throw, no actor has two active sessions.
  pub Reach-one_session : {d e : Desk} → Good d → Reach d e → Good e
  Reach-one_session v here = v
  Reach-one_session v (next r s) = Step-IsValid (Reach-one_session v r) s
