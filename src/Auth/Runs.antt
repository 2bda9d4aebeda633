-- ===== src/Auth/Runs.antt =====
-- Runs of modules/auth/services/auth.service.ts, and the sessions of users as the tokens that were
-- issued and revoked last.
use trackora.Base.{
  ◌*◌, ==_iff, ℕ, ◌≡◌, ◌↔◌, refl, sym, ◌∙◌, true, Option, none, some, List, [], ◌∷◌, ok, Ensures-ok,
  ◌==◌, if◌then◌else◌, reached,
}
use trackora.Prisma.{Prisma}
use trackora.Prisma.Rows.{Unchanged}
use trackora.External.{Cache, Bcrypt, Jwt}
use trackora.Model.Enums.{UserRole}
use trackora.Access.Session.{User, Claims}
use trackora.Auth.Defs.{
  AuthState, Tokens, Login, active_by_id, register, login, refresh_tokens, logout,
}
use trackora.Auth.Issue.{
  and_right, issued, stored, Registered, register-Registered, LoggedIn, login-LoggedIn,
}
use trackora.Auth.Refresh.{refresh_tokens_lem, Refreshed, refresh_tokens-Refreshed, get-stored}

-- What happens to the session of a user: a refresh token is issued, or the user logs out.
pub data Event (Token : Type 0) : Type 0 where
  issue : ℕ → Token → Event Token
  revoke : ℕ → Event Token

-- The refresh token of a user after the events, the last one first.
abbrev pub current : {Token : Type 0} → ℕ → List (Event Token) → Option Token
current id [] = none
current id (issue k t ∷ es) = if k == id then some t else current id es
current id (revoke k ∷ es) = if k == id then none else current id es

refresh_id : {a b : ℕ} → some (Claims.refresh a) ≡ some (Claims.refresh b) → a ≡ b
refresh_id h = cc

module _ (p : Prisma) (jwt : Jwt Claims) (cache : Cache jwt.Token) (bcrypt : Bcrypt)
    (days : ℕ) where
  abbrev State : Type 0
  State = AuthState cache.Store

  -- Calls from a store without tokens, and the events of those that return. Other services change
  -- the users; a call that throws changes nothing.
  pub data Run : List (Event jwt.Token) → State → Type 0 where
    start : (s : State) → ((id : ℕ) → cache.get s.store id ≡ none) → Run [] s
    registration :
        {es : List (Event jwt.Token)} {s s' : State} (now fresh salt phone password : ℕ)
        (role : UserRole) (t : Tokens jwt.Token)
        → Run es s
        → register p jwt cache bcrypt days now fresh salt phone password role s ≡ ok t s'
        → Run (issue fresh t.refresh_token ∷ es) s'
    log_in :
        {es : List (Event jwt.Token)} {s s' : State} (now phone password : ℕ) (l : Login jwt.Token)
        → Run es s
        → login p jwt cache bcrypt days now phone password s ≡ ok l s'
        → Run (issue l.user.id l.tokens.refresh_token ∷ es) s'
    exchange :
        {es : List (Event jwt.Token)} {s s' : State} (now id : ℕ) (token : jwt.Token)
        (t : Tokens jwt.Token)
        → Run es s
        → jwt.verify now token ≡ some (Claims.refresh id)
        → refresh_tokens p jwt cache bcrypt days now token s ≡ ok t s'
        → Run (issue id t.refresh_token ∷ es) s'
    log_out :
        {es : List (Event jwt.Token)} {s : State} (id : ℕ)
        → Run es s
        → Run (revoke id ∷ es) (reached (logout p jwt cache bcrypt days id s))
    others :
        {es : List (Event jwt.Token)} {s : State} (users : List User)
        → Run es s
        → Run es (record s { users = users })

  -- The state of a token's issue agrees with the events, if the state before it did.
  issue_agrees :
      (now id j : ℕ) (es : List (Event jwt.Token)) (s : State)
      → cache.get s.store j ≡ current j es
      → cache.get (stored p jwt cache bcrypt days now id s).store j
        ≡ current j (issue id (jwt.sign (Claims.refresh id) now (days * 86400)) ∷ es)
  issue_agrees now id j es s h = get-stored p jwt cache bcrypt days now id j s ∙ rw h refl

  found_id :
      (id : ℕ) (u : User) (s : State) → p.find_first (active_by_id id) s.users ≡ some u → u.id ≡ id
  found_id id u s found =
      let (m, c) = p.find_first-some (active_by_id id) s.users u found in
      (==_iff u.id id).0 (and_right u.is_active (u.id == id) c)

  -- The store holds for each user the token that was issued to him last, unless he has logged out
  -- since.
  Run-current :
      {es : List (Event jwt.Token)} {s : State}
      → Run es s
      → (j : ℕ) → cache.get s.store j ≡ current j es
  unfolding logout
  Run-current (start s empty) j = empty j
  Run-current (registration {es} {s} {s'} now fresh salt phone password role t run h) j =
      let r =
        Ensures-ok (Registered p jwt cache bcrypt days now fresh salt phone password role s)
          (Unchanged s) _ h
          (register-Registered p jwt cache bcrypt days now fresh salt phone password role s) in
      rw (r.state, r.tokens) (issue_agrees now fresh j es s (Run-current run j))
  Run-current (log_in {es} {s} {s'} now phone password l run h) j =
      let r =
        Ensures-ok (LoggedIn p jwt cache bcrypt days now phone password s) (Unchanged s) _ h
          (login-LoggedIn p jwt cache bcrypt days now phone password s) in
      rw (r.state, r.tokens, r.user) (issue_agrees now r.row.id j es s (Run-current run j))
  Run-current (exchange {es} {s} {s'} now id token t run valid h) j =
      let r =
        Ensures-ok (Refreshed p jwt cache bcrypt days now token s) (Unchanged s) _ h
          (refresh_tokens-Refreshed p jwt cache bcrypt days now token s) in
      let same : id ≡ r.row.id =
        refresh_id (sym valid ∙ r.valid) ∙ sym (found_id r.id r.row s r.found) in
      rw (r.state, r.tokens, same) (issue_agrees now r.row.id j es s (Run-current run j))
  Run-current (log_out {es} {s} id run) j = cache.get-del s.store id j ∙ rw (Run-current run j) refl
  Run-current (others users run) j = Run-current run j

  -- What makes a refresh token good, by the events alone: it is valid, the last one that was issued
  -- to its user, who has not logged out since, and he is active.
  pub record IsCurrent (now : ℕ) (token : jwt.Token) (es : List (Event jwt.Token)) (s : State)
      : Type 0 where
    pub id : ℕ
    pub last : jwt.Token
    pub row : User
    pub valid : jwt.verify now token ≡ some (Claims.refresh id)
    pub issued_last : current id es ≡ some last
    pub same : jwt.same last token ≡ true
    pub found : p.find_first (active_by_id id) s.users ≡ some row

  abbrev pub Accepts : ℕ → jwt.Token → State → Type 0
  Accepts now token s =
      (t : Tokens jwt.Token) × (s' : State) × (refresh_tokens p jwt cache bcrypt days now token s
        ≡ ok t s')

  -- After any calls that return, from a store without tokens and with the users changed in between
  -- by other services, a refresh token is exchanged exactly if it is valid and the last one that was
  -- issued to its user by a registration, a log in or an exchange, the user has not logged out since,
  -- and is active.
  pub refresh_tokens_iff :
      {es : List (Event jwt.Token)} {s : State} (now : ℕ) (token : jwt.Token)
      → Run es s
      → Accepts now token s ↔ IsCurrent now token es s
  refresh_tokens_iff {es} {s} now token run = (
    λ a.
        let r =
          Ensures-ok (Refreshed p jwt cache bcrypt days now token s) (Unchanged s) _ a.2
            (refresh_tokens-Refreshed p jwt cache bcrypt days now token s) in
        record {
          id = r.id;
          last = r.on_record;
          row = r.row;
          valid = r.valid;
          issued_last = sym (Run-current run r.id) ∙ r.kept;
          same = r.same;
          found = r.found;
        },
    λ c. (
      issued p jwt cache bcrypt days now c.row.id c.row.role,
      stored p jwt cache bcrypt days now c.row.id s,
      refresh_tokens_lem p jwt cache bcrypt days now c.id token c.last c.row s c.valid
          (Run-current run c.id ∙ c.issued_last) c.same c.found,
    ),
  )
