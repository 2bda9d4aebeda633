-- ===== src/Shipments/Create/Writes.antt =====
-- What `create` of modules/shipments/services/shipments.service.ts has found and written.
use trackora.Base.{
  ℕ, zero, suc, ◌≡◌, ◌≢◌, refl, true, false, Option, none, some, ◌∷◌, All, All-mono, is_just,
  Ensures, Ensures-or_throw, Ensures-bind, Ensures-map, Ensures-throw_if, Bool, Option-cases,
  Bool-cases, inl, inr, ==_iff, is_just-true, arith, ◌⊎◌,
}
use trackora.Prisma.{Prisma}
use trackora.Prisma.Rows.{Unchanged}
use trackora.Model.{Merchant, Shipment}
use trackora.Model.Enums.{UserRole, ◌===◌, shipment_type_enum, user_role_enum}
use trackora.Shipments.Create.{
  Error, write_failed, CreateShipmentDto, World, max_attempts, generate, numbered, merchant_for,
  new_shipment, creation_log, created_event, attempts_left, generate_unique, create,
}

module _ (p : Prisma) where
  Unused : World → ℕ → World → Type 0
  Unused w number w' = (w' ≡ w) × All (λ (s : Shipment). s.tracking_number ≢ number) w.db.shipments

  attempts_left-Ensures :
      (date : ℕ) (draw : ℕ → ℕ) (i k : ℕ) (w : World)
      → Ensures (Unused w) (Unchanged w) (attempts_left p date draw i k w)
  unfolding attempts_left Unused
  attempts_left-Ensures date draw i zero w = refl
  attempts_left-Ensures date draw i (suc k) w =
      elim (Option-cases (p.find_first (numbered (generate date (draw i))) w.db.shipments)) [
        | inl e ↦
            rw (e, attempts_left)
              (
                refl,
                All-mono (λ s. numbered (generate date (draw i)) s ≡ false)
                    (λ (s : Shipment). s.tracking_number ≢ generate date (draw i)) w.db.shipments
                    (λ s no same.
                      cc (no, (==_iff s.tracking_number (generate date (draw i))).1 same))
                    (p.find_first-none _ w.db.shipments e),
              )
        | inr (s, e) ↦ rw (e, attempts_left) (attempts_left-Ensures date draw (suc i) k w)
      ]

  -- What a creation has found and written.
  pub record IsCreated (now fresh : ℕ) (dto : CreateShipmentDto) (tenant actor : ℕ)
      (role : UserRole) (w : World) (s : Shipment) (w' : World) : Type 0 where
    pub merchant : Merchant
    pub number : ℕ
    pub found :
        p.find_first (merchant_for dto.merchant_id tenant actor role) w.db.merchants ≡ some merchant
    pub of_tenant : merchant.tenant_id ≡ some tenant
    pub is_on : merchant.is_active ≡ true
    pub own : ((role === UserRole.merchant) ≡ false) ⊎ (merchant.user_id ≡ actor)
    pub unused : All (λ (x : Shipment). x.tracking_number ≢ number) w.db.shipments
    pub shipment : s ≡ new_shipment now fresh number tenant merchant.id dto
    pub state : w' ≡ record {
      db = record w.db {
        shipments = s ∷ w.db.shipments;
        status_logs = creation_log fresh ∷ w.db.status_logs;
      };
      events = created_event tenant s ∷ w.events;
    }

  merchant_for-own :
      (requested : Option ℕ) (tenant actor : ℕ) (role : UserRole) (m : Merchant)
      → merchant_for requested tenant actor role m ≡ true
      → (is_just tenant m.tenant_id ≡ true)
        × (m.is_active ≡ true)
        × (((role === UserRole.merchant) ≡ false) ⊎ (m.user_id ≡ actor))
  merchant_for-own none tenant actor role m h = elim (Bool-cases (role === UserRole.merchant)) [
    | inl e ↦ (ground (arith, h, e), ground (arith, h, e), inr (ground (arith, h, e)))
    | inr e ↦ (ground (arith, h, e), ground (arith, h, e), inl e)
  ]
  merchant_for-own (some id) tenant actor role m h =
      elim (Bool-cases (role === UserRole.merchant)) [
        | inl e ↦ (ground (arith, h, e), ground (arith, h, e), inr (ground (arith, h, e)))
        | inr e ↦ (ground (arith, h, e), ground (arith, h, e), inl e)
      ]

  generate_unique-Ensures :
      (date : ℕ) (draw : ℕ → ℕ) (w : World)
      → Ensures (Unused w) (Unchanged w) (generate_unique p date draw w)
  unfolding generate_unique
  generate_unique-Ensures date draw w = attempts_left-Ensures date draw 0 max_attempts w

  -- What a creation that throws leaves: all as it was, or, where the write of the log has failed, a
  -- shipment with a number that no shipment had, without a row of the log and without an event.
  abbrev pub Abandoned : Bool → World → Error → World → Type 0
  Abandoned log_fails w e w' =
      (w' ≡ w)
      ⊎ ((log_fails ≡ true)
          × (e ≡ write_failed)
          × (s : Shipment) × All (λ (x : Shipment). x.tracking_number ≢ s.tracking_number)
              w.db.shipments
          × (w' ≡ record w { db = record w.db { shipments = s ∷ w.db.shipments } }))

  -- A shipment is created only for an active merchant of the tenant, who is the actor himself where
  -- the actor has the role of a merchant; it has a tracking number that no shipment has, is PENDING,
  -- and stands with one row of the log and one event. A creation that throws changes nothing, unless
  -- the write of the log has failed, which leaves the shipment alone.
  pub create-IsCreated :
      (shipment_fails log_fails : Bool) (now date : ℕ) (draw : ℕ → ℕ) (fresh : ℕ)
      (dto : CreateShipmentDto) (tenant actor : ℕ) (role : UserRole) (w : World)
      → Ensures
          (IsCreated now fresh dto tenant actor role w)
          (Abandoned log_fails w)
          (create p shipment_fails log_fails now date draw fresh dto tenant actor role w)
  unfolding create Unused
  create-IsCreated shipment_fails log_fails now date draw fresh dto tenant actor role w =
      let q = merchant_for dto.merchant_id tenant actor role in
      Ensures-or_throw _ _ (p.find_first q w.db.merchants) _ w _ (λ _. inl refl)
        λ m found.
          let (_, e) = p.find_first-some q w.db.merchants m found in
          let (of, on, own) = merchant_for-own dto.merchant_id tenant actor role m e in
          Ensures-bind _ _ (Unused w) (generate_unique p date draw) _ w
            (Ensures-map _ _ (Unchanged w) _ (generate_unique p date draw w) (λ _ _ h. h)
              (λ _ _ h. inl h) (generate_unique-Ensures date draw w))
            λ number w' u. rw u.0 (
              Ensures-throw_if _ _ shipment_fails _ w _ (λ _. inl refl)
                λ _.
                  rw (p.create-eq (new_shipment now fresh number tenant m.id dto) w.db.shipments) (
                    Ensures-throw_if _ _ log_fails _ _ _
                      (λ failed.
                        inr
                          (failed, refl, new_shipment now fresh number tenant m.id dto, u.1, refl))
                      λ _. record {
                        merchant = m;
                        number = number;
                        found = found;
                        of_tenant = is_just-true tenant m.tenant_id of;
                        is_on = on;
                        own = own;
                        unused = u.1;
                        shipment = refl;
                        state = rw (p.create-eq (creation_log fresh) w.db.status_logs) refl;
                      }))
