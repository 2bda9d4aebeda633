-- ===== src/Auth/Tests.antt =====
-- Registration, log in and refresh tokens from empty tables.
use trackora.Base.{◌+◌, ◌*◌, ◌↔◌, ◌≡◌, refl, none, some, [], ◌∷◌, ok, arith, ◌==◌, ℕ}
use trackora.External.{Jwt, Cache, memory_cache, plain_jwt, plain_bcrypt, plain_same}
use trackora.Prisma.Memory.{memory}
use trackora.Model.Enums.{UserRole}
use trackora.Access.Session.{User, Claims, access, refresh, jwt_payload, plain_user, validate}
use trackora.Auth.Defs.{
  AuthState, Tokens, Login, new_user, to_auth_user, generate_tokens, create_user, register, login,
  refresh_tokens,
}
use trackora.Auth.Issue.{issued, stored, register-login}
use trackora.Auth.Refresh.{login-refresh_tokens}
use trackora.Auth.Runs.{Accepts, IsCurrent, start, registration, issue, refresh_tokens_iff}

-- Tokens are told apart by their kind, their user and their times.
abbrev code : Claims → ℕ
code (access sub role context) = 2 * sub
code (refresh sub) = 2 * sub + 1

abbrev tokens : Jwt Claims
tokens = plain_jwt Claims (λ c d. code c == code d) (λ c. plain_same (code c))

abbrev cache : Cache tokens.Token
cache = memory_cache tokens.Token

abbrev State : Type 0
State = AuthState cache.Store

abbrev nobody : State
nobody = record { users = []; store = λ id. none }

abbrev merchant : User
merchant = new_user 7 100 1234 UserRole.merchant

abbrev registered : State
registered =
    stored memory tokens cache plain_bcrypt 7 1000 7
      (record { users = merchant ∷ []; store = nobody.store })

registers :
    register memory tokens cache plain_bcrypt 7 1000 7 1 100 1234 UserRole.merchant nobody
    ≡ ok (issued memory tokens cache plain_bcrypt 7 1000 7 UserRole.merchant) registered
unfolding register create_user generate_tokens
registers = refl

register-login_example :
    (l : Login tokens.Token) × (s : State) × (login memory tokens cache plain_bcrypt 7 2000 100 1234
        registered
      ≡ ok l s)
    × (l.user.id ≡ 7)
    × (l.user.role ≡ UserRole.merchant)
    × (s.users ≡ registered.users)
register-login_example =
    register-login memory tokens cache plain_bcrypt 7 1000 7 1 100 1234 2000 UserRole.merchant
      nobody registered _ registers

abbrev logged_in : State
logged_in = stored memory tokens cache plain_bcrypt 7 2000 7 registered

abbrev session : Login tokens.Token
session = record {
  user = to_auth_user merchant none;
  tokens = issued memory tokens cache plain_bcrypt 7 2000 7 UserRole.merchant;
}

logs_in : login memory tokens cache plain_bcrypt 7 2000 100 1234 registered ≡ ok session logged_in
unfolding login generate_tokens
logs_in = refl

login-refresh_tokens_example :
    (t : Tokens tokens.Token) × (s : State) × (c : Claims) × (u : User) × (refresh_tokens memory
        tokens cache plain_bcrypt 7 3000 session.tokens.refresh_token logged_in
      ≡ ok t s)
    × (tokens.verify 3000 t.access_token ≡ some c)
    × (validate memory 3000 (jwt_payload c) (record { users = registered.users; sessions = [] })
        ≡ ok (plain_user u) (record { users = registered.users; sessions = [] }))
    × (session.user ≡ to_auth_user u none)
login-refresh_tokens_example =
    login-refresh_tokens memory tokens cache plain_bcrypt 7 2000 100 1234 3000 registered logged_in
      session [] (tt, tt) logs_in (omega arith)

abbrev token : tokens.Token
token = tokens.sign (refresh 7) 1000 (7 * 86400)

refresh_tokens_iff_example :
    Accepts memory tokens cache plain_bcrypt 7 2000 token registered
    ↔ IsCurrent memory tokens cache plain_bcrypt 7 2000 token (issue 7 token ∷ []) registered
refresh_tokens_iff_example =
    refresh_tokens_iff memory tokens cache plain_bcrypt 7 2000 token
      (registration 1000 7 1 100 1234 UserRole.merchant _ (start nobody (λ id. refl)) registers)
