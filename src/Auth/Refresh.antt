-- ===== src/Auth/Refresh.antt =====
-- The exchange of a refresh token by `refreshTokens` of modules/auth/services/auth.service.ts, and
-- what a log in and an exchange issue.
use mathlib.Core.List.{Memᴰ}
use trackora.Base.{
  if◌then◌else◌, ℕ, ◌+◌, ◌*◌, ◌/◌, ◌<◌, ◌≡◌, refl, ap, ◌∙◌, true, none, some, List, Outcome, ok,
  err, Ensures, Ensures-or_throw, Ensures-throw_if, Ensures-ok, Action, gets, arith, ◌==◌, not,
  or_throw, throw_if, ◌>>=◌, ◌>>◌, ==_iff, pure,
}
use trackora.Prisma.{Prisma}
use trackora.Prisma.Rows.{
  IsUnique, Unchanged, not-false, mem_eq, find_first_unique, find_first-only,
}
use trackora.External.{Cache, Bcrypt, Jwt}
use trackora.Model.Enums.{user_role_enum}
use trackora.Access.Session.{User, Claims}
use trackora.Auth.Defs.{
  AuthState, Tokens, Login, access_lifetime, active_by_phone, active_by_id, to_auth_user, catch_all,
  refresh_subject, login, refresh_body, refresh_tokens, invalid_refresh_token,
}
use trackora.Access.Session.{ImpersonationSession, jwt_payload, plain_user, validate, check_context}
use trackora.Auth.Issue.{
  and_left, and_right, issued, stored, generate_tokens_lem, LoggedIn, login-LoggedIn,
}

abbrev pub user_id : User → ℕ
user_id u = u.id

refresh_subject-some : (c : Claims) (id : ℕ) → refresh_subject c ≡ some id → c ≡ Claims.refresh id
refresh_subject-some (Claims.access sub role context) id h = cc
refresh_subject-some (Claims.refresh sub) id h = cc

Ensures-catch_all :
    {S E A : Type 0} (Q : A → S → Type 0) (s : S) (m : Action S E A) (e : E)
    → Ensures Q (Unchanged s) (m s)
    → Ensures Q (Unchanged s) (catch_all m e s)
Ensures-catch_all {S = S} {E = E} {A = A} Q s m e h = after (m s) h
  where
    after :
        (o : Outcome S E A)
        → Ensures Q (Unchanged s) o
        → Ensures Q (Unchanged s) (elim o [ ok a s' ↦ ok a s' | err x s' ↦ err e s' ])
    after (ok a s') q = q
    after (err x s') q = q

module _ (p : Prisma) (jwt : Jwt Claims) (cache : Cache jwt.Token) (bcrypt : Bcrypt)
    (days : ℕ) where
  abbrev State : Type 0
  State = AuthState cache.Store

  refresh_body_lem :
      (now id : ℕ) (token on_record : jwt.Token) (u : User) (s : State)
      → jwt.verify now token ≡ some (Claims.refresh id)
      → cache.get s.store id ≡ some on_record
      → jwt.same on_record token ≡ true
      → p.find_first (active_by_id id) s.users ≡ some u
      → refresh_body p jwt cache bcrypt days now token s
        ≡ ok
            (issued p jwt cache bcrypt days now u.id u.role)
            (stored p jwt cache bcrypt days now u.id s)
  unfolding refresh_body
  refresh_body_lem now id token on_record u s valid kept same found =
      let (m, c) = p.find_first-some (active_by_id id) s.users u found in
      let on = and_left u.is_active (u.id == id) c in
      rw
        (
          valid,
          or_throw,
          ◌>>◌,
          ◌>>=◌,
          gets,
          refresh_subject,
          kept,
          same,
          throw_if,
          found,
          on,
          generate_tokens_lem p jwt cache bcrypt days now u.id u.role s,
        )
        refl

  -- A refresh token that is valid, on record and of an active user is exchanged.
  pub refresh_tokens_lem :
      (now id : ℕ) (token on_record : jwt.Token) (u : User) (s : State)
      → jwt.verify now token ≡ some (Claims.refresh id)
      → cache.get s.store id ≡ some on_record
      → jwt.same on_record token ≡ true
      → p.find_first (active_by_id id) s.users ≡ some u
      → refresh_tokens p jwt cache bcrypt days now token s
        ≡ ok
            (issued p jwt cache bcrypt days now u.id u.role)
            (stored p jwt cache bcrypt days now u.id s)
  unfolding refresh_tokens
  refresh_tokens_lem now id token on_record u s valid kept same found =
      rw (refresh_body_lem now id token on_record u s valid kept same found, catch_all) refl

  -- What an exchange that returns has found and done.
  pub record Refreshed (now : ℕ) (token : jwt.Token) (s : State) (t : Tokens jwt.Token) (s' : State)
      : Type 0 where
    pub id : ℕ
    pub on_record : jwt.Token
    pub row : User
    pub valid : jwt.verify now token ≡ some (Claims.refresh id)
    pub kept : cache.get s.store id ≡ some on_record
    pub same : jwt.same on_record token ≡ true
    pub found : p.find_first (active_by_id id) s.users ≡ some row
    pub tokens : t ≡ issued p jwt cache bcrypt days now row.id row.role
    pub state : s' ≡ stored p jwt cache bcrypt days now row.id s

  refresh_body-Refreshed :
      (now : ℕ) (token : jwt.Token) (s : State)
      → Ensures
          (Refreshed now token s)
          (Unchanged s)
          (refresh_body p jwt cache bcrypt days now token s)
  unfolding refresh_body
  refresh_body-Refreshed now token s =
      Ensures-or_throw _ _ (jwt.verify now token) _ s _ (λ _. refl)
        λ claims valid.
          Ensures-or_throw _ _ (refresh_subject claims) _ s _ (λ _. refl)
            λ id of_type.
              Ensures-or_throw _ _ (cache.get s.store id) _ s _ (λ _. refl)
                λ on_record kept.
                  Ensures-throw_if _ _ (not (jwt.same on_record token)) _ s _ (λ _. refl)
                    λ same.
                      Ensures-or_throw _ _ (p.find_first (active_by_id id) s.users) _ s _
                        (λ _. refl)
                        λ u found.
                          Ensures-throw_if _ _ (not u.is_active) _ s _ (λ _. refl)
                            λ _.
                              rw (generate_tokens_lem p jwt cache bcrypt days now u.id u.role s)
                                (record {
                                  id = id;
                                  on_record = on_record;
                                  row = u;
                                  valid = valid ∙ ap some (refresh_subject-some claims id of_type);
                                  kept = kept;
                                  same = not-false _ same;
                                  found = found;
                                  tokens = refl;
                                  state = refl;
                                })

  pub refresh_tokens-Refreshed :
      (now : ℕ) (token : jwt.Token) (s : State)
      → Ensures
          (Refreshed now token s)
          (Unchanged s)
          (refresh_tokens p jwt cache bcrypt days now token s)
  unfolding refresh_tokens
  refresh_tokens-Refreshed now token s =
      Ensures-catch_all (Refreshed now token s) s (refresh_body p jwt cache bcrypt days now token)
        invalid_refresh_token (refresh_body-Refreshed now token s)

  -- What a log in or an exchange has put on record.
  pub get-stored :
      (now id j : ℕ) (s : State)
      → cache.get (stored p jwt cache bcrypt days now id s).store j ≡ (
          if id == j
          then some (jwt.sign (Claims.refresh id) now (days * 86400))
          else cache.get s.store j)
  get-stored now id j s =
      cache.get-set s.store id (jwt.sign (Claims.refresh id) now (days * 86400)) (days * 86400) j

  kept_own :
      (now id : ℕ) (s : State)
      → cache.get (stored p jwt cache bcrypt days now id s).store id
        ≡ some (jwt.sign (Claims.refresh id) now (days * 86400))
  kept_own now id s = rw (get-stored now id id s, (==_iff id id).1 refl) refl

  found_by_id :
      (u : User) (t : List User)
      → IsUnique user_id t
      → Memᴰ u t
      → u.is_active ≡ true
      → p.find_first (active_by_id u.id) t ≡ some u
  found_by_id u t unique m on =
      find_first-only p (active_by_id u.id) u t m (ground (arith, on, (==_iff u.id u.id).1 refl))
        λ x n c.
          mem_eq user_id u x t unique m n
            ((==_iff x.id u.id).0 (and_right x.is_active (x.id == u.id) c))

  -- The tokens of a log in that returns: until the refresh token expires, and while the user is on
  -- record, it is exchanged for new tokens, and the access token of these is accepted, as that of the
  -- user who has logged in. Ids of users are unique.
  pub login-refresh_tokens :
      (now phone password later : ℕ) (s s' : State) (l : Login jwt.Token)
      (sessions : List ImpersonationSession)
      → IsUnique user_id s.users
      → login p jwt cache bcrypt days now phone password s ≡ ok l s'
      → later / 1000 < now / 1000 + days * 86400
      → (t : Tokens jwt.Token) × (s'' : State) × (c : Claims) × (u : User) × (refresh_tokens p jwt
            cache bcrypt days later l.tokens.refresh_token s'
          ≡ ok t s'')
        × (jwt.verify later t.access_token ≡ some c)
        × (validate p later (jwt_payload c) (record { users = s.users; sessions = sessions })
            ≡ ok (plain_user u) (record { users = s.users; sessions = sessions }))
        × (l.user ≡ to_auth_user u none)
  unfolding validate check_context
  login-refresh_tokens now phone password later s s' l sessions unique h soon =
      let r =
        Ensures-ok (LoggedIn p jwt cache bcrypt days now phone password s) (Unchanged s) _ h
          (login-LoggedIn p jwt cache bcrypt days now phone password s) in
      let (m, c) = p.find_first-some (active_by_phone phone) s.users r.row r.found in
      let on = and_left r.row.is_active (r.row.phone == phone) c in
      let token = jwt.sign (Claims.refresh r.row.id) now (days * 86400) in
      let by = find_first_unique p user_id r.row s.users unique m in
      (
        issued p jwt cache bcrypt days later r.row.id r.row.role,
        stored p jwt cache bcrypt days later r.row.id s',
        Claims.access r.row.id r.row.role none,
        r.row,
        rw r.tokens (
            refresh_tokens_lem later r.row.id token token r.row s'
              (jwt.verify-sign (Claims.refresh r.row.id) now (days * 86400) later soon)
              (rw r.state (kept_own now r.row.id s)) (jwt.same-refl token)
              (rw r.state (found_by_id r.row s.users unique m on))),
        jwt.verify-sign (Claims.access r.row.id r.row.role none) later access_lifetime later
            (omega arith),
        rw (by, or_throw, ◌>>◌, ◌>>=◌, on, throw_if, pure) refl,
        r.user,
      )
