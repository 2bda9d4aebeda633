-- ===== src/External.antt =====
-- Other packages and services that the program calls, as interfaces with the documented behaviour
-- on which it relies: Redis behind infrastructure/cache/redis.service.ts (for the keys of one
-- prefix; a value is what `setJson` writes and `getJson` reads back), and bcryptjs.
use trackora.Base.{
  ℕ, suc, ◌+◌, ◌/◌, ◌<◌, ◌≡◌, Bool, true, Option, some, none, or_else, if◌then◌else◌, ◌==◌, ltb,
  refl, ==_iff, ◌&&◌, arith,
}

-- Values with a time to live that has not passed between the calls that a statement is about.
pub record Cache (V : Type 0) : Type 1 where
  pub Store : Type 0
  pub get : Store → ℕ → Option V
  pub set : Store → ℕ → V → ℕ → Store
  pub del : Store → ℕ → Store
  pub get-set :
      (s : Store) (k : ℕ) (v : V) (ttl j : ℕ)
      → get (set s k v ttl) j ≡ (if k == j then some v else get s j)
  pub get-del : (s : Store) (k j : ℕ) → get (del s k) j ≡ (if k == j then none else get s j)

-- Counters: `INCR` starts from 0, and `EXPIRE` keeps the value until the time has passed.
pub record Counters : Type 1 where
  pub Store : Type 0
  pub get : Store → ℕ → Option ℕ
  pub increment : Store → ℕ → Store
  pub expire : Store → ℕ → ℕ → Store
  pub get-increment :
      (s : Store) (k j : ℕ)
      → get (increment s k) j ≡ (if k == j then some (suc (or_else (get s k) 0)) else get s j)
  pub get-expire : (s : Store) (k ttl j : ℕ) → get (expire s k ttl) j ≡ get s j

-- Password hashes: `hash` takes the salt that it draws, and `compare` accepts what was hashed.
pub record Bcrypt : Type 0 where
  pub hash : ℕ → ℕ → ℕ
  pub compare : ℕ → ℕ → Bool
  pub compare-hash : (salt text : ℕ) → compare text (hash salt text) ≡ true

-- Signed tokens (@nestjs/jwt), with the secret of the configuration: `sign` takes the claims, the
-- time in milliseconds and the life time in seconds, and `verify` a time and a token. Expiry goes
-- by whole seconds. `same` is `===` on tokens.
pub record Jwt (P : Type 0) : Type 1 where
  pub Token : Type 0
  pub same : Token → Token → Bool
  pub sign : P → ℕ → ℕ → Token
  pub verify : ℕ → Token → Option P
  pub same-refl : (t : Token) → same t t ≡ true
  pub verify-sign :
      (claims : P) (now life later : ℕ)
      → later / 1000 < now / 1000 + life
      → verify later (sign claims now life) ≡ some claims

-- Implementations over functions, for tests and witnesses.
abbrev pub memory_cache : (V : Type 0) → Cache V
memory_cache V = record {
  Store = ℕ → Option V;
  get = λ s k. s k;
  set = λ s k v ttl j. if k == j then some v else s j;
  del = λ s k j. if k == j then none else s j;
  get-set = λ s k v ttl j. refl;
  get-del = λ s k j. refl;
}

abbrev pub memory_counters : Counters
memory_counters = record {
  Store = ℕ → Option ℕ;
  get = λ s k. s k;
  increment = λ s k j. if k == j then some (suc (or_else (s k) 0)) else s j;
  expire = λ s k ttl. s;
  get-increment = λ s k j. refl;
  get-expire = λ s k ttl j. refl;
}

pub plain_same : (text : ℕ) → (text == text) ≡ true
plain_same text = (==_iff text text).1 refl

abbrev pub plain_bcrypt : Bcrypt
plain_bcrypt = record {
  hash = λ salt text. text;
  compare = λ text hashed. text == hashed;
  compare-hash = λ salt text. plain_same text;
}

abbrev pub plain_verify : {P : Type 0} → ℕ → P × ℕ × ℕ → Option P
plain_verify later t = if ltb (later / 1000) (t.1 / 1000 + t.2) then some t.0 else none

pub plain_verify-sign :
    {P : Type 0} (claims : P) (now life later : ℕ)
    → later / 1000 < now / 1000 + life
    → plain_verify later (claims, now, life) ≡ some claims
plain_verify-sign claims now life later h = ground (arith, h)

-- Tokens that carry their claims and times in the clear, given an equality of claims.
abbrev pub plain_jwt : (P : Type 0) (eq : P → P → Bool) → ((c : P) → eq c c ≡ true) → Jwt P
plain_jwt P eq eq-refl = record {
  Token = P × ℕ × ℕ;
  same = λ t u. eq t.0 u.0 && ((t.1 == u.1) && (t.2 == u.2));
  sign = λ claims now life. (claims, now, life);
  verify = λ later t. plain_verify later t;
  same-refl = λ t. rw (eq-refl t.0, plain_same t.1, plain_same t.2) refl;
  verify-sign = λ claims now life later h. plain_verify-sign claims now life later h;
}
