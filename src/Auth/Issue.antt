-- ===== src/Auth/Issue.antt =====
-- The tokens that a log in of modules/auth/services/auth.service.ts issues, and what they are
-- accepted for.
use mathlib.Core.List.{Memᴰ}
use trackora.Base.{
  ℕ, ◌*◌, ◌≡◌, refl, ap, Bool, true, false, none, some, List, ◌∷◌, All, ok, Ensures,
  Ensures-or_throw, Ensures-throw_if, Ensures-bind, Ensures-ok, Ensures-step, arith, ◌==◌, ◌&&◌,
  not, is_some, or_throw, throw_if, ◌>>=◌, ◌>>◌, ==_iff,
}
use trackora.Prisma.{Prisma}
use trackora.Prisma.Rows.{All-mem, Unchanged, is_some-false, not-false, find_first-only}
use trackora.External.{Cache, Bcrypt, Jwt}
use trackora.Model.Enums.{UserRole, user_role_enum, includes}
use trackora.Access.Session.{User, Claims}
use trackora.Auth.Defs.{
  AuthState, Tokens, Login, registerable_roles, access_lifetime, active_by_phone, new_user,
  to_auth_user, generate_tokens, create_user, register, login,
}

pub and_right : (a b : Bool) → a && b ≡ true → b ≡ true
and_right a b h = ground arith

pub and_left : (a b : Bool) → a && b ≡ true → a ≡ true
and_left a b h = ground arith

module _ (p : Prisma) (jwt : Jwt Claims) (cache : Cache jwt.Token) (bcrypt : Bcrypt)
    (days : ℕ) where
  abbrev State : Type 0
  State = AuthState cache.Store

  abbrev pub issued : ℕ → ℕ → UserRole → Tokens jwt.Token
  issued now id role = record {
    access_token = jwt.sign (Claims.access id role none) now access_lifetime;
    refresh_token = jwt.sign (Claims.refresh id) now (days * 86400);
    expires_in = access_lifetime;
  }

  abbrev pub stored : ℕ → ℕ → State → State
  stored now id s = record s {
    store = cache.set s.store id (jwt.sign (Claims.refresh id) now (days * 86400)) (days * 86400);
  }

  pub generate_tokens_lem :
      (now id : ℕ) (role : UserRole) (s : State)
      → generate_tokens p jwt cache bcrypt days now id role s
        ≡ ok (issued now id role) (stored now id s)
  unfolding generate_tokens
  generate_tokens_lem now id role s = refl

  abbrev Created : User → State → Unit {0} → State → Type 0
  Created u s _ s' =
      (s' ≡ record s { users = u ∷ s.users })
      × All (λ (x : User). (x.phone == u.phone) ≡ false) s.users

  create_user_lem :
      (u : User) (s : State)
      → Ensures (Created u s) (Unchanged s) (create_user p jwt cache bcrypt days u s)
  unfolding create_user
  create_user_lem u s =
      Ensures-throw_if _ _ (is_some (p.find_first (λ (x : User). x.phone == u.phone) s.users)) _ s _
        (λ _. refl)
        λ free. (
          ap (λ t. record s { users = t }) (p.create-eq u s.users),
          p.find_first-none (λ (x : User). x.phone == u.phone) s.users (is_some-false _ free),
        )

  -- What a registration that returns has done.
  pub record Registered (now fresh salt phone password : ℕ) (role : UserRole) (s : State)
      (t : Tokens jwt.Token) (s' : State) : Type 0 where
    pub tokens : t ≡ issued now fresh role
    pub state :
        s'
        ≡ stored now fresh
            (record s { users = new_user fresh phone (bcrypt.hash salt password) role ∷ s.users })
    pub free : All (λ (u : User). (u.phone == phone) ≡ false) s.users
    pub registerable : includes registerable_roles role ≡ true

  pub register-Registered :
      (now fresh salt phone password : ℕ) (role : UserRole) (s : State)
      → Ensures
          (Registered now fresh salt phone password role s)
          (Unchanged s)
          (register p jwt cache bcrypt days now fresh salt phone password role s)
  unfolding register
  register-Registered now fresh salt phone password role s =
      let u = new_user fresh phone (bcrypt.hash salt password) role in
      Ensures-throw_if _ _ (not (includes registerable_roles role)) _ s _ (λ _. refl)
        λ allowed.
          Ensures-throw_if _ _ (is_some (p.find_first (active_by_phone phone) s.users)) _ s _
            (λ _. refl)
            λ _.
              Ensures-bind _ _ (Created u s) (create_user p jwt cache bcrypt days u) _ s
                (create_user_lem u s)
                λ _ s' c.
                  rw (c.0, generate_tokens_lem now fresh role)
                    (record {
                      tokens = refl;
                      state = refl;
                      free = c.1;
                      registerable = not-false _ allowed;
                    })

  -- A row that is the only one with its phone is found by it.
  found_by_phone :
      (u : User) (t : List User)
      → u.is_active ≡ true
      → All (λ (x : User). (x.phone == u.phone) ≡ false) t
      → p.find_first (active_by_phone u.phone) (u ∷ t) ≡ some u
  found_by_phone u t on free =
      find_first-only p (active_by_phone u.phone) u (u ∷ t) (Memᴰ.head refl)
        (ground (arith, on, (==_iff u.phone u.phone).1 refl))
        λ x m c. elim m [
          | Memᴰ.head same ↦ same
          | Memᴰ.tail n ↦ absurd (
              cc (
                All-mem (λ (y : User). (y.phone == u.phone) ≡ false) t free n,
                and_right x.is_active (x.phone == u.phone) c,
              ))
        ]

  login_lem :
      (now phone password hashed : ℕ) (u : User) (s : State)
      → p.find_first (active_by_phone phone) s.users ≡ some u
      → u.password_hash ≡ some hashed
      → bcrypt.compare password hashed ≡ true
      → login p jwt cache bcrypt days now phone password s
        ≡ ok
            (record { user = to_auth_user u none; tokens = issued now u.id u.role })
            (stored now u.id s)
  unfolding login
  login_lem now phone password hashed u s found has fits =
      rw (found, or_throw, ◌>>◌, ◌>>=◌, has, fits, throw_if, generate_tokens_lem now u.id u.role s)
        refl

  -- A user who has been registered can log in with the phone and password of the registration, as
  -- the user that was registered, and gets tokens.
  pub register-login :
      (now fresh salt phone password later : ℕ) (role : UserRole) (s s' : State)
      (t : Tokens jwt.Token)
      → register p jwt cache bcrypt days now fresh salt phone password role s ≡ ok t s'
      → (l : Login jwt.Token) × (s'' : State) × (login p jwt cache bcrypt days later phone password
            s'
          ≡ ok l s'')
        × (l.user.id ≡ fresh)
        × (l.user.role ≡ role)
        × (s''.users ≡ s'.users)
  register-login now fresh salt phone password later role s s' t h =
      let r =
        Ensures-ok (Registered now fresh salt phone password role s) (Unchanged s) _ h
          (register-Registered now fresh salt phone password role s) in
      let u = new_user fresh phone (bcrypt.hash salt password) role in
      (
        record { user = to_auth_user u none; tokens = issued later fresh role },
        stored later fresh s',
        login_lem later phone password (bcrypt.hash salt password) u s'
            (rw r.state (found_by_phone u s.users refl r.free)) refl
            (bcrypt.compare-hash salt password),
        refl,
        refl,
        refl,
      )

  -- What a log in that returns has found and done.
  pub record LoggedIn (now phone password : ℕ) (s : State) (l : Login jwt.Token) (s' : State)
      : Type 0 where
    pub row : User
    pub hashed : ℕ
    pub found : p.find_first (active_by_phone phone) s.users ≡ some row
    pub has : row.password_hash ≡ some hashed
    pub fits : bcrypt.compare password hashed ≡ true
    pub user : l.user ≡ to_auth_user row none
    pub tokens : l.tokens ≡ issued now row.id row.role
    pub state : s' ≡ stored now row.id s

  pub login-LoggedIn :
      (now phone password : ℕ) (s : State)
      → Ensures
          (LoggedIn now phone password s)
          (Unchanged s)
          (login p jwt cache bcrypt days now phone password s)
  unfolding login
  login-LoggedIn now phone password s =
      Ensures-or_throw _ _ (p.find_first (active_by_phone phone) s.users) _ s _ (λ _. refl)
        λ u found.
          Ensures-or_throw _ _ u.password_hash _ s _ (λ _. refl)
            λ hashed has.
              Ensures-throw_if _ _ (not (bcrypt.compare password hashed)) _ s _ (λ _. refl)
                λ fits.
                  Ensures-step _ _ (generate_tokens p jwt cache bcrypt days now u.id u.role) _ s _ _
                    (generate_tokens_lem now u.id u.role s)
                    (record {
                      row = u;
                      hashed = hashed;
                      found = found;
                      has = has;
                      fits = not-false _ fits;
                      user = refl;
                      tokens = refl;
                      state = refl;
                    })
