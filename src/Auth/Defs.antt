-- ===== src/Auth/Defs.antt =====
-- modules/auth/services/auth.service.ts with auth.repository.ts. The secret and the life time of
-- refresh tokens in days are configuration; times are in milliseconds.
use trackora.Base.{
  ℕ, ◌*◌, Bool, Option, none, some, List, [], ◌∷◌, ok, err, Action, pure, gets, or_throw, modify,
  throw_if, ◌>>=◌, ◌>>◌, ◌==◌, ◌&&◌, not, is_some, if◌then◌else◌,
}
use trackora.Prisma.{Prisma}
use trackora.External.{Cache, Bcrypt, Jwt}
use trackora.Model.Enums.{UserRole, user_role_enum, includes}
use trackora.Access.Permissions.{Permission, role_permissions, is_platform_role}
use trackora.Access.Session.{User, Claims, ImpersonationContext}

pub record AuthState (Store : Type 0) : Type 0 where
  pub users : List User
  pub store : Store

pub record Tokens (Token : Type 0) : Type 0 where
  pub access_token : Token
  pub refresh_token : Token
  pub expires_in : ℕ

-- The user as the client sees him.
pub record AuthUser : Type 0 where
  pub id : ℕ
  pub role : UserRole
  pub permissions : List Permission
  pub tenant_id : Option ℕ
  pub is_platform_user : Bool
  pub impersonation_context : Option ImpersonationContext

pub record Login (Token : Type 0) : Type 0 where
  pub user : AuthUser
  pub tokens : Tokens Token

pub data Error : Type 0 where
  role_not_registerable phone_registered unique_violation invalid_credentials : Error
  invalid_signature invalid_token_type token_revoked user_inactive invalid_refresh_token : Error

abbrev pub registerable_roles : List UserRole
registerable_roles = UserRole.merchant ∷ UserRole.courier ∷ []

abbrev pub access_lifetime : ℕ
access_lifetime = 900

-- The repository looks among active users only.
abbrev pub active_by_phone : ℕ → User → Bool
active_by_phone phone u = u.is_active && (u.phone == phone)

abbrev pub active_by_id : ℕ → User → Bool
active_by_id id u = u.is_active && (u.id == id)

abbrev pub new_user : ℕ → ℕ → ℕ → UserRole → User
new_user fresh phone hashed role = record {
  id = fresh;
  tenant_id = none;
  role = role;
  is_active = Bool.true;
  phone = phone;
  email = none;
  password_hash = some hashed;
}

abbrev pub to_auth_user : User → Option ImpersonationContext → AuthUser
to_auth_user user context = record {
  id = user.id;
  role = user.role;
  permissions = role_permissions user.role;
  tenant_id = if is_platform_role user.role then none else user.tenant_id;
  is_platform_user = is_platform_role user.role;
  impersonation_context = context;
}

-- `try { … } catch { throw e }`
abbrev pub catch_all : {S E A : Type 0} → Action S E A → E → Action S E A
catch_all m e s = elim (m s) [ ok a s' ↦ ok a s' | err x s' ↦ err e s' ]

-- The user of a refresh token.
abbrev pub refresh_subject : Claims → Option ℕ
refresh_subject (Claims.access sub role context) = none
refresh_subject (Claims.refresh sub) = some sub

module _ (p : Prisma) (jwt : Jwt Claims) (cache : Cache jwt.Token) (bcrypt : Bcrypt)
    (days : ℕ) where
  abbrev pub State : Type 0
  State = AuthState cache.Store

  unfoldable pub generate_tokens : ℕ → ℕ → UserRole → Action State Error (Tokens jwt.Token)
  generate_tokens now user_id role = do
    let access_token = jwt.sign (Claims.access user_id role none) now access_lifetime
    let refresh_token = jwt.sign (Claims.refresh user_id) now (days * 86400)
    modify (λ s. record s { store = cache.set s.store user_id refresh_token (days * 86400) })
    pure (record {
      access_token = access_token;
      refresh_token = refresh_token;
      expires_in = access_lifetime;
    })

  -- The column `phone` is unique.
  unfoldable pub create_user : User → Action State Error (Unit {0})
  create_user user = do
    same ← gets (λ s. p.find_first (λ (u : User). u.phone == user.phone) s.users)
    throw_if (is_some same) unique_violation
    modify (λ s. record s { users = p.create user s.users })

  unfoldable pub register : ℕ → ℕ → ℕ → ℕ → ℕ → UserRole → Action State Error (Tokens jwt.Token)
  register now fresh salt phone password role = do
    throw_if (not (includes registerable_roles role)) role_not_registerable
    existing ← gets (λ s. p.find_first (active_by_phone phone) s.users)
    throw_if (is_some existing) phone_registered
    create_user (new_user fresh phone (bcrypt.hash salt password) role)
    generate_tokens now fresh role

  unfoldable pub login : ℕ → ℕ → ℕ → Action State Error (Login jwt.Token)
  login now phone password = do
    found ← gets (λ s. p.find_first (active_by_phone phone) s.users)
    user ← or_throw found invalid_credentials
    hashed ← or_throw user.password_hash invalid_credentials
    throw_if (not (bcrypt.compare password hashed)) invalid_credentials
    tokens ← generate_tokens now user.id user.role
    pure (record { user = to_auth_user user none; tokens = tokens })

  unfoldable pub refresh_body : ℕ → jwt.Token → Action State Error (Tokens jwt.Token)
  refresh_body now token = do
    claims ← or_throw (jwt.verify now token) invalid_signature
    sub ← or_throw (refresh_subject claims) invalid_token_type
    found ← gets (λ s. cache.get s.store sub)
    stored ← or_throw found token_revoked
    throw_if (not (jwt.same stored token)) token_revoked
    known ← gets (λ s. p.find_first (active_by_id sub) s.users)
    user ← or_throw known user_inactive
    throw_if (not user.is_active) user_inactive
    generate_tokens now user.id user.role

  unfoldable pub refresh_tokens : ℕ → jwt.Token → Action State Error (Tokens jwt.Token)
  refresh_tokens now token = catch_all (refresh_body now token) invalid_refresh_token

  unfoldable pub logout : ℕ → Action State Error (Unit {0})
  logout user_id = modify (λ s. record s { store = cache.del s.store user_id })

  unfoldable pub get_me : ℕ → Option ImpersonationContext → Action State Error AuthUser
  get_me user_id context = do
    found ← gets (λ s. p.find_first (active_by_id user_id) s.users)
    user ← or_throw found user_inactive
    pure (to_auth_user user context)
