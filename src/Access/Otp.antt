-- ===== src/Access/Otp.antt =====
-- modules/auth/services/otp.service.ts: the one-time passwords of phone numbers, in Redis. The key of
-- a phone number is the number itself, and the code that is drawn is an argument.
use trackora.Base.{
  ℕ, ◌+◌, ◌≡◌, ◌≤◌, refl, Bool, true, false, some, err, Action, pure, gets, or_throw, modify, throw,
  throw_if, ◌>>=◌, ◌>>◌, ◌==◌, ==_iff, not, leb, if◌then◌else◌, Ensures, Ensures-or_throw,
  Ensures-throw_if, Ensures-bind, Bool-cases, inl, inr, arith,
}
use trackora.External.{Cache}
use trackora.Prisma.Rows.{not-false}

pub record OtpRecord : Type 0 where
  pub code : ℕ
  pub attempts : ℕ
  pub verified : Bool

pub data Error : Type 0 where
  expired already_used too_many_attempts invalid_otp : Error

abbrev pub otp_ttl : ℕ
otp_ttl = 300

abbrev pub max_attempts : ℕ
max_attempts = 3

module _ (otps : Cache OtpRecord) where
  unfoldable pub send_otp : ℕ → ℕ → Action otps.Store Error ℕ
  send_otp drawn phone = do
    modify (λ s. otps.set s phone (record { code = drawn; attempts = 0; verified = false }) otp_ttl)
    pure drawn

  -- The branch for a password without attempts left.
  unfoldable pub drop_otp : ℕ → Action otps.Store Error (Unit {0})
  drop_otp phone = do modify (λ s. otps.del s phone); throw too_many_attempts

  unfoldable pub verify_otp : ℕ → ℕ → Action otps.Store Error (Unit {0})
  unfolding drop_otp
  verify_otp phone code = do
    found ← gets (λ s. otps.get s phone)
    otp ← or_throw found expired
    throw_if otp.verified already_used
    if leb max_attempts otp.attempts then drop_otp phone else pure tt
    modify (λ s. otps.set s phone (record otp { attempts = otp.attempts + 1 }) otp_ttl)
    throw_if (not (otp.code == code)) invalid_otp
    modify (λ s.
        otps.set s phone (record { code = otp.code; attempts = otp.attempts + 1; verified = true })
          otp_ttl)

  unfoldable pub resend_otp : ℕ → ℕ → Action otps.Store Error ℕ
  unfolding send_otp
  resend_otp drawn phone = do modify (λ s. otps.del s phone); send_otp drawn phone

  used_up :
      (phone guess : ℕ) (otp : OtpRecord) (s : otps.Store)
      → otps.get s phone ≡ some otp
      → otp.verified ≡ true
      → verify_otp phone guess s ≡ err already_used s
  unfolding verify_otp
  used_up phone guess otp s found used = rw (found, or_throw, ◌>>=◌, used, throw_if) refl

  same_key :
      (s : otps.Store) (phone ttl : ℕ) (v : OtpRecord)
      → otps.get (otps.set s phone v ttl) phone ≡ some v
  same_key s phone ttl v = rw (otps.get-set s phone v ttl phone, (==_iff phone phone).1 refl) refl

  -- The code on record, with an attempt left.
  abbrev pub Accepts : ℕ → ℕ → otps.Store → Type 0
  Accepts phone code s =
      (otp : OtpRecord) × (otps.get s phone ≡ some otp)
      × (otp.code ≡ code)
      × (otp.attempts + 1 ≤ max_attempts)
      × (otp.verified ≡ false)

  -- A verification that returns was given the code on record, of a password that was unused and had
  -- an attempt left, and after it every further verification for that phone is refused.
  pub verify_otp_once :
      (phone code guess : ℕ) (s : otps.Store)
      → Ensures
          (λ _ s'. Accepts phone code s × (verify_otp phone guess s' ≡ err already_used s'))
          (λ _ _. Unit {0})
          (verify_otp phone code s)
  unfolding verify_otp
  verify_otp_once phone code guess s =
      Ensures-or_throw _ _ (otps.get s phone) _ s _ (λ _. tt)
        λ otp found.
          Ensures-throw_if _ _ otp.verified _ s _ (λ _. tt)
            λ unused.
              Ensures-bind _ _ (λ _ s'. leb max_attempts otp.attempts ≡ false)
                (if leb max_attempts otp.attempts then drop_otp phone else pure tt) _ s
                (attempt_left otp.attempts)
                λ _ s1 left.
                  Ensures-throw_if _ _ (not (otp.code == code)) _ _ _ (λ _. tt)
                    λ same. (
                      (
                        otp,
                        found,
                        (==_iff otp.code code).0 (not-false _ same),
                        ground (arith, left),
                        unused,
                      ),
                      used_up phone guess _ _ (same_key _ phone otp_ttl _) refl,
                    )
    where
      attempt_left :
          (n : ℕ)
          → Ensures
              (λ _ s'. leb max_attempts n ≡ false)
              (λ _ _. Unit {0})
              ((if leb max_attempts n then drop_otp phone else pure tt) s)
      attempt_left n = elim (Bool-cases (leb max_attempts n)) [
        | inl e ↦ rw e tt
        | inr e ↦ rw e refl
      ]
