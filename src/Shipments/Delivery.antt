-- ===== src/Shipments/Delivery.antt =====
-- Deliveries by `updateStatus` of modules/shipments/services/shipments.service.ts: their passwords,
-- their cash, and a second delivery of one shipment.
use trackora.Base.{
  ℕ, zero, suc, ◌+◌, ◌-◌, ◌*◌, ◌≤◌, ◌<◌, ◌≡◌, refl, ap, subst, ◌∙◌, Bool, true, false, Option, none,
  some, List, [], ◌∷◌, ok, err, any, take, or_else, leb, arith, if◌then◌else◌, ==_iff, Bool-cases,
  inl, inr, ◌&&◌, Ensures-ok, ◌>>=◌, throw_if,
}
use Prim.Native.Nat.{max}
use trackora.Base.Int.{ℤ, pos, ◌-ℤ◌, pos_part, abs, max0}
use trackora.Prisma.{Prisma}
use trackora.External.{Cache, Counters, Bcrypt}
use trackora.Model.{Shipment}
use trackora.Model.Enums.{ShipmentStatus, ShipmentType, UserRole}
use trackora.Shipments.StateMachine.{validate_transition}
use trackora.Shipments.Status.{
  UpdateShipmentStatusDto, delivered, status_changed, World, by_id, is_cod, no_cash,
  out_of_tolerance, verify_delivery_otp, update_status, otp_max_attempts, otp_attempt_ttl,
  too_many_attempts, invalid_otp, courier_updated, touches_courier,
}
use trackora.Shipments.Status.Effects.{
  couriers_after, announced, Checked, Done, is_delivery, Untouched, update_status-Ensures,
}
use trackora.Shipments.Status.Total.{HasCourier, update_status_total}

module _ (p : Prisma) (otps : Cache ℕ) (counters : Counters) (bcrypt : Bcrypt) where
  abbrev pub attempts_of : ℕ → World p otps counters bcrypt → ℕ
  attempts_of id w = or_else (counters.get w.otp_attempts id) 0

  -- Passwords offered one after the other for one shipment, until one is accepted.
  pub accepts_one : ℕ → ℕ → List ℕ → World p otps counters bcrypt → Bool
  accepts_one id hashed [] w = false
  accepts_one id hashed (guess ∷ guesses) w =
      elim (verify_delivery_otp p otps counters bcrypt id (some hashed) (some guess) w) [
        | ok _ w' ↦ true
        | err e w' ↦ accepts_one id hashed guesses w'
      ]

  attempts_kept :
      (id ttl : ℕ) (w : World p otps counters bcrypt)
      → or_else (counters.get (counters.expire (counters.increment w.otp_attempts id) id ttl) id) 0
        ≡ suc (attempts_of id w)
  attempts_kept id ttl w =
      rw
        (
          counters.get-expire (counters.increment w.otp_attempts id) id ttl id,
          counters.get-increment w.otp_attempts id id,
          (==_iff id id).1 refl,
        )
        refl

  -- The counter after one more comparison.
  abbrev counted : ℕ → World p otps counters bcrypt → World p otps counters bcrypt
  counted id w = record w {
    otp_attempts = counters.expire (counters.increment w.otp_attempts id) id otp_attempt_ttl;
  }

  verify_locked :
      (id hashed guess : ℕ) (w : World p otps counters bcrypt)
      → otp_max_attempts ≤ attempts_of id w
      → verify_delivery_otp p otps counters bcrypt id (some hashed) (some guess) w
        ≡ err too_many_attempts w
  unfolding verify_delivery_otp
  verify_locked id hashed guess w h =
      let full : leb otp_max_attempts (attempts_of id w) ≡ true = ground arith in
      rw (full, ◌>>=◌, throw_if) refl

  verify_compared :
      (id hashed guess : ℕ) (w : World p otps counters bcrypt) (c : Bool)
      → attempts_of id w < otp_max_attempts
      → bcrypt.compare guess hashed ≡ c
      → verify_delivery_otp p otps counters bcrypt id (some hashed) (some guess) w
        ≡ (if c then ok tt (counted id w) else err invalid_otp (counted id w))
  unfolding verify_delivery_otp
  verify_compared id hashed guess w true h e =
      let free : leb otp_max_attempts (attempts_of id w) ≡ false = ground arith in
      rw (free, ◌>>=◌, throw_if, e) refl
  verify_compared id hashed guess w false h e =
      let free : leb otp_max_attempts (attempts_of id w) ≡ false = ground arith in
      rw (free, ◌>>=◌, throw_if, e) refl

  locked :
      (id hashed : ℕ) (guesses : List ℕ) (w : World p otps counters bcrypt)
      → otp_max_attempts ≤ attempts_of id w
      → accepts_one id hashed guesses w ≡ false
  unfolding accepts_one
  locked id hashed [] w h = refl
  locked id hashed (g ∷ gs) w h =
      rw (verify_locked id hashed g w h, accepts_one) (locked id hashed gs w h)

  limited :
      (n id hashed : ℕ) (guesses : List ℕ) (w : World p otps counters bcrypt)
      → n + attempts_of id w ≡ otp_max_attempts
      → accepts_one id hashed guesses w ≡ any (λ g. bcrypt.compare g hashed) (take n guesses)
  unfolding accepts_one
  limited zero id hashed guesses w e = locked id hashed guesses w (omega arith)
  limited (suc n) id hashed [] w e = refl
  limited (suc n) id hashed (g ∷ gs) w e = elim (Bool-cases (bcrypt.compare g hashed)) [
    | inl same ↦ rw (verify_compared id hashed g w true (omega arith) same, accepts_one, same) refl
    | inr other ↦
        rw (verify_compared id hashed g w false (omega arith) other, accepts_one, other)
          (limited n id hashed gs (counted id w)
            (omega (arith, attempts_kept id otp_attempt_ttl w)))
  ]

  -- Of the passwords that are offered for the delivery of a shipment, one after the other within the
  -- life of the counter, exactly as many are compared as attempts are left of the three: one of a
  -- list of guesses is accepted if and only if one of those first guesses is right.
  pub accepts_one_limit :
      (id hashed : ℕ) (guesses : List ℕ) (w : World p otps counters bcrypt)
      → accepts_one id hashed guesses w
        ≡ any (λ g. bcrypt.compare g hashed) (take (otp_max_attempts - attempts_of id w) guesses)
  accepts_one_limit id hashed guesses w =
      elim (Bool-cases (leb (attempts_of id w) otp_max_attempts)) [
        | inl e ↦ limited (otp_max_attempts - attempts_of id w) id hashed guesses w (ground arith)
        | inr e ↦
            let none_left : otp_max_attempts - attempts_of id w ≡ 0 = ground arith in
            rw none_left (locked id hashed guesses w (ground arith))
      ]

  same_shipment : (a b : Shipment) (o : Option Shipment) → o ≡ some a → o ≡ some b → a ≡ b
  same_shipment a b o h k = cc

  paid_some : (o : Option ℤ) → no_cash o ≡ false → (a : ℤ) × (o ≡ some a)
  paid_some none h = cc
  paid_some (some a) h = (a, refl)

  tolerated :
      (o : Option ℤ) (a b : ℤ)
      → o ≡ some a
      → out_of_tolerance (or_else o (pos 0)) b ≡ false
      → 20 * pos_part (abs (a -ℤ b)) ≤ max (pos_part (max0 b)) 2000
  tolerated o a b e h = ground arith

  below : (n : ℕ) → leb otp_max_attempts n ≡ false → n < otp_max_attempts
  below n h = ground arith

  second : (a b : Bool) → (a && b) ≡ true → b ≡ true
  second true b h = h
  second false b h = cc

  checked_old :
      (now salt drawn id tenant : ℕ) (dto : UpdateShipmentStatusDto) (override : Bool)
      (w w' : World p otps counters bcrypt) (x : Shipment)
      (d : Done p otps counters bcrypt now salt drawn id tenant dto override w x w')
      → d.old.type ≡ ShipmentType.cod
      → dto.new_status ≡ ShipmentStatus.delivered
      → (cash : ℤ) × (hashed provided : ℕ) × (dto.collected_cash ≡ some cash)
        × (20 * pos_part (abs (cash -ℤ d.old.cod_amount))
            ≤ max (pos_part (max0 d.old.cod_amount)) 2000)
        × (d.old.customer_otp ≡ some hashed)
        × (dto.otp ≡ some provided)
        × (bcrypt.compare provided hashed ≡ true)
        × (attempts_of id w < otp_max_attempts)
        × (x.status ≡ ShipmentStatus.delivered)
  checked_old now salt drawn id tenant dto override w w' x d cod is_delivered =
      let (v, e, c) = d.checked (rw (cod, is_delivered)) in
      let (cash, ec) = paid_some dto.collected_cash c.paid in
      (
        cash,
        c.hashed,
        c.provided,
        ec,
        tolerated dto.collected_cash cash d.old.cod_amount ec c.in_tolerance,
        c.has_otp,
        c.has_provided,
        c.accepted,
        below _ (
            subst
              (λ (t : counters.Store). leb otp_max_attempts (or_else (counters.get t id) 0) ≡ false)
              e c.attempts_left),
        ap (λ (y : Shipment). y.status) d.returned ∙ is_delivered,
      )

  -- A COD shipment is delivered only against cash within five per cent (or 1 EGP) of its amount,
  -- and a password that fits the hash on record, with an attempt left.
  pub cod_delivery_checked :
      (now salt drawn id tenant : ℕ) (dto : UpdateShipmentStatusDto) (user : Option ℕ)
      (role : Option UserRole) (override : Bool) (w w' : World p otps counters bcrypt)
      (s x : Shipment)
      → p.find_first (by_id id tenant) w.db.shipments ≡ some s
      → s.type ≡ ShipmentType.cod
      → dto.new_status ≡ ShipmentStatus.delivered
      → update_status p otps counters bcrypt now salt drawn id tenant dto user role override w
        ≡ ok x w'
      → (cash : ℤ) × (hashed provided : ℕ) × (dto.collected_cash ≡ some cash)
        × (20 * pos_part (abs (cash -ℤ s.cod_amount)) ≤ max (pos_part (max0 s.cod_amount)) 2000)
        × (s.customer_otp ≡ some hashed)
        × (dto.otp ≡ some provided)
        × (bcrypt.compare provided hashed ≡ true)
        × (attempts_of id w < otp_max_attempts)
        × (x.status ≡ ShipmentStatus.delivered)
  cod_delivery_checked now salt drawn id tenant dto user role override w w' s x found cod
        is_delivered h =
      of_done (
        Ensures-ok (Done p otps counters bcrypt now salt drawn id tenant dto override w)
          (λ _ v. Untouched p otps counters bcrypt w v) _ h
          (update_status-Ensures p otps counters bcrypt now salt drawn id tenant dto user role
            override w))
    where
      of_done :
          Done p otps counters bcrypt now salt drawn id tenant dto override w x w'
          → (cash : ℤ) × (hashed provided : ℕ) × (dto.collected_cash ≡ some cash)
            × (20 * pos_part (abs (cash -ℤ s.cod_amount)) ≤ max (pos_part (max0 s.cod_amount)) 2000)
            × (s.customer_otp ≡ some hashed)
            × (dto.otp ≡ some provided)
            × (bcrypt.compare provided hashed ≡ true)
            × (attempts_of id w < otp_max_attempts)
            × (x.status ≡ ShipmentStatus.delivered)
      of_done d =
          let same : d.old ≡ s = same_shipment d.old s _ d.found found in
          subst
            (λ (y : Shipment).
              (cash : ℤ) × (hashed provided : ℕ) × (dto.collected_cash ≡ some cash)
              × (20 * pos_part (abs (cash -ℤ y.cod_amount))
                  ≤ max (pos_part (max0 y.cod_amount)) 2000)
              × (y.customer_otp ≡ some hashed)
              × (dto.otp ≡ some provided)
              × (bcrypt.compare provided hashed ≡ true)
              × (attempts_of id w < otp_max_attempts)
              × (x.status ≡ ShipmentStatus.delivered))
            same
            (checked_old now salt drawn id tenant dto override w w' x d (rw same cod) is_delivered)

  -- What the redelivery of a shipment does.
  pub record Redelivered (id tenant : ℕ) (dto : UpdateShipmentStatusDto) (s : Shipment)
      (w w' : World p otps counters bcrypt) : Type 0 where
    pub sent :
        w'.events
        ≡ status_changed id tenant ShipmentStatus.delivered ShipmentStatus.delivered
          ∷ delivered (record {
            shipment_id = id;
            tenant_id = tenant;
            merchant_id = s.merchant_id;
            courier_id = s.assigned_courier_id;
            cod_amount = s.cod_amount;
            collected_cash = or_else dto.collected_cash (pos 0);
            type = s.type;
          })
          ∷ w.events
    pub courier :
        w'.db.couriers
        ≡ couriers_after p s.assigned_courier_id tenant true (courier_updated s dto) w.db.couriers

  -- A shipment that is DELIVERED already is delivered once more by the same request: the transition
  -- to the same status passes, the counter of the courier goes up again, and 'shipment.delivered'
  -- (which credits the merchant's wallet) is sent again.
  pub redelivery :
      (now salt drawn id tenant : ℕ) (dto : UpdateShipmentStatusDto) (user : Option ℕ)
      (role : Option UserRole) (w : World p otps counters bcrypt) (s : Shipment)
      → p.find_first (by_id id tenant) w.db.shipments ≡ some s
      → s.status ≡ ShipmentStatus.delivered
      → dto.new_status ≡ ShipmentStatus.delivered
      → (is_cod s ≡ true → Checked p otps counters bcrypt id s dto w)
      → HasCourier p s.assigned_courier_id tenant w.db.couriers
      → (x : Shipment) × (w' : World p otps counters bcrypt) × (update_status p otps counters bcrypt
            now salt drawn id tenant dto user role false w
          ≡ ok x w')
        × Redelivered id tenant dto s w w'
  unfolding validate_transition
  redelivery now salt drawn id tenant dto user role w s found was again checks courier =
      let (x, w', e, d) =
        update_status_total p otps counters bcrypt now salt drawn id tenant dto user role false w s
          found (same_status s.status dto.new_status was again)
          (λ h. checks (second (is_delivery dto) (is_cod s) h)) courier in
      (x, w', e, of_done x w' d)
    where
      same_status :
          (a b : ShipmentStatus)
          → a ≡ ShipmentStatus.delivered
          → b ≡ ShipmentStatus.delivered
          → validate_transition a b false ≡ true
      same_status a b h k = rw (h, k) refl

      announced_again :
          (y : Shipment)
          → y ≡ s
          → announced id tenant y dto w.events
            ≡ status_changed id tenant ShipmentStatus.delivered ShipmentStatus.delivered
              ∷ delivered (record {
                shipment_id = id;
                tenant_id = tenant;
                merchant_id = s.merchant_id;
                courier_id = s.assigned_courier_id;
                cod_amount = s.cod_amount;
                collected_cash = or_else dto.collected_cash (pos 0);
                type = s.type;
              })
              ∷ w.events
      announced_again y e = rw (e, was, again) refl

      touched :
          (y : Shipment)
          → y ≡ s
          → couriers_after p y.assigned_courier_id tenant
              (touches_courier dto.new_status)
              (courier_updated y dto)
              w.db.couriers
            ≡ couriers_after p s.assigned_courier_id tenant true
                (courier_updated s dto)
                w.db.couriers
      touched y e = rw e (
          ap
            (λ (b : Bool).
              couriers_after p s.assigned_courier_id tenant b (courier_updated s dto) w.db.couriers)
            (rw again refl))

      of_done :
          (x : Shipment) (w' : World p otps counters bcrypt)
          → Done p otps counters bcrypt now salt drawn id tenant dto false w x w'
          → Redelivered id tenant dto s w w'
      of_done x w' d =
          let same : d.old ≡ s = same_shipment d.old s _ d.found found in
          record {
            sent = d.sent ∙ announced_again d.old same;
            courier = d.couriers ∙ touched d.old same;
          }
