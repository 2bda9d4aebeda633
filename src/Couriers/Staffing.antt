-- ===== src/Couriers/Staffing.antt =====
-- Users and couriers under the calls of modules/couriers/services/couriers.service.ts.
use trackora.Base.{
  ℕ, ◌≡◌, ◌≢◌, refl, Bool, false, Option, none, some, List, All, All-mono, Ensures,
  Ensures-or_throw, Ensures-throw_if, Ensures-throw_if_last, Ensures-bind, Ensures-map, Leaves,
  Leaves-reached, reached, ==_iff, ◌==◌, not, is_some, is_just, length,
}
use trackora.Prisma.{Prisma}
use trackora.Prisma.Rows.{IsUnique, change-IsUnique, Unchanged, transaction-Ensures, is_some-false}
use trackora.Model.{Courier}
use trackora.Access.Session.{User}
use trackora.Couriers.Roster.{
  Staff, CreateCourierDto, by_phone, by_id, new_user, new_courier, check_email, invalid_zone_codes,
  create_body, create, update_for_tenant, update_zones, update_availability, remove,
}

abbrev pub phone_of : User → ℕ
phone_of u = u.phone

abbrev pub user_key : Courier → ℕ
user_key c = c.user_id

abbrev pub courier_key : Courier → ℕ
courier_key c = c.id

-- No phone number is registered twice, no user is two couriers, and ids of couriers are unique.
pub record IsStaffed (s : Staff) : Type 0 where
  pub phones : IsUnique phone_of s.users
  pub couriers : IsUnique user_key s.couriers
  pub ids : IsUnique courier_key s.couriers

module _ (p : Prisma) where
  check_email-Ensures :
      (email : Option ℕ) (s : Staff)
      → Ensures (λ _ s'. s' ≡ s) (λ _ _. Unit {0}) (check_email p email s)
  unfolding check_email
  check_email-Ensures none s = refl
  check_email-Ensures (some email) s =
      Ensures-throw_if_last _ _
        (is_some (p.find_first (λ (u : User). is_just email u.email) s.users)) _ s (λ _. tt)
        (λ _. refl)

  create_body-IsStaffed :
      (fresh_user fresh : ℕ) (dto : CreateCourierDto) (tenant : ℕ) (s : Staff)
      → All (λ (c : Courier). c.user_id ≢ fresh_user) s.couriers
      → All (λ (c : Courier). c.id ≢ fresh) s.couriers
      → IsStaffed s
      → Ensures
          (λ _ s'. IsStaffed s')
          (λ _ _. Unit {0})
          (create_body p fresh_user fresh dto tenant s)
  unfolding create_body
  create_body-IsStaffed fresh_user fresh dto tenant s new_key new v =
      Ensures-throw_if _ _ (is_some (p.find_first (by_phone dto.phone) s.users)) _ s _ (λ _. tt)
        λ free.
          Ensures-bind _ _ (λ _ s'. s' ≡ s) (check_email p dto.email) _ s
            (check_email-Ensures dto.email s)
            λ _ s' same. rw same (
              Ensures-throw_if _ _ (not (length (invalid_zone_codes p dto.zone_codes s) == 0)) _ s _
                (λ _. tt)
                λ _.
                  rw
                    (
                      p.create-eq (new_user fresh_user tenant dto) s.users,
                      p.create-eq (new_courier fresh fresh_user tenant dto) s.couriers,
                    )
                    (record {
                      phones = (
                        All-mono (λ u. by_phone dto.phone u ≡ false)
                            (λ (u : User). u.phone ≢ dto.phone) s.users
                            (λ u no same'. cc (no, (==_iff u.phone dto.phone).1 same'))
                            (p.find_first-none (by_phone dto.phone) s.users (is_some-false _ free)),
                        v.phones,
                      );
                      couriers = (new_key, v.couriers);
                      ids = (new, v.ids);
                    }))

  create-IsStaffed :
      (fresh_user fresh : ℕ) (dto : CreateCourierDto) (tenant : ℕ) (s : Staff)
      → All (λ (c : Courier). c.user_id ≢ fresh_user) s.couriers
      → All (λ (c : Courier). c.id ≢ fresh) s.couriers
      → IsStaffed s
      → Leaves IsStaffed (create p fresh_user fresh dto tenant s)
  unfolding create
  create-IsStaffed fresh_user fresh dto tenant s new_key new v =
      Ensures-map _ _ (Unchanged s) _ (p.transaction (create_body p fresh_user fresh dto tenant) s)
        (λ _ _ h. h) (λ _ _ h. rw h v)
        (transaction-Ensures p (λ _ s'. IsStaffed s') (create_body p fresh_user fresh dto tenant) s
          (create_body-IsStaffed fresh_user fresh dto tenant s new_key new v))

  update_for_tenant-IsStaffed :
      (id tenant : ℕ) (f : Courier → Courier) (s : Staff)
      → ((c : Courier) → (f c).user_id ≡ c.user_id)
      → ((c : Courier) → (f c).id ≡ c.id)
      → IsStaffed s
      → Leaves IsStaffed (update_for_tenant p id tenant f s)
  unfolding update_for_tenant
  update_for_tenant-IsStaffed id tenant f s users ids v =
      Ensures-or_throw _ _ (p.find_first (by_id id tenant) s.couriers) _ s _ (λ _. v)
        λ c found. rw (p.update-some (by_id id tenant) f s.couriers c found) (record {
          phones = v.phones;
          couriers = change-IsUnique user_key (by_id id tenant) f s.couriers users v.couriers;
          ids = change-IsUnique courier_key (by_id id tenant) f s.couriers ids v.ids;
        })

  remove-IsStaffed :
      (id tenant : ℕ) (s : Staff) → IsStaffed s → Leaves IsStaffed (remove p id tenant s)
  unfolding remove
  remove-IsStaffed id tenant s v =
      Ensures-bind _ _ (λ _ s'. IsStaffed s') (update_for_tenant p id tenant _) _ s
        (update_for_tenant-IsStaffed id tenant _ s (λ _. refl) (λ _. refl) v) (λ _ _ h. h)

  -- One call, whether it returns or throws. The database gives new rows ids that are not in use.
  pub data Step (s : Staff) : Staff → Type 0 where
    creation :
        (fresh_user fresh : ℕ) (dto : CreateCourierDto) (tenant : ℕ)
        → All (λ (c : Courier). c.user_id ≢ fresh_user) s.couriers
        → All (λ (c : Courier). c.id ≢ fresh) s.couriers
        → Step s (reached (create p fresh_user fresh dto tenant s))
    zoning :
        (id : ℕ) (codes : List ℕ) (tenant : ℕ) → Step s (reached (update_zones p id codes tenant s))
    rostering :
        (id : ℕ) (available : Bool) (tenant : ℕ)
        → Step s (reached (update_availability p id available tenant s))
    removal : (id tenant : ℕ) → Step s (reached (remove p id tenant s))

  pub data Reach (s : Staff) : Staff → Type 0 where
    here : Reach s s
    next : {t u : Staff} → Reach s t → Step t u → Reach s u

  Step-IsStaffed : {s t : Staff} → IsStaffed s → Step s t → IsStaffed t
  unfolding update_zones update_availability
  Step-IsStaffed {s} v (creation fresh_user fresh dto tenant new_key new) =
      Leaves-reached IsStaffed _ (create-IsStaffed fresh_user fresh dto tenant s new_key new v)
  Step-IsStaffed {s} v (zoning id codes tenant) =
      Leaves-reached IsStaffed _
        (update_for_tenant-IsStaffed id tenant _ s (λ _. refl) (λ _. refl) v)
  Step-IsStaffed {s} v (rostering id available tenant) =
      Leaves-reached IsStaffed _
        (update_for_tenant-IsStaffed id tenant _ s (λ _. refl) (λ _. refl) v)
  Step-IsStaffed {s} v (removal id tenant) =
      Leaves-reached IsStaffed _ (remove-IsStaffed id tenant s v)

  -- From tables in which no phone number is registered twice, no user is two couriers and ids of
  -- couriers are unique, that holds after any calls that create couriers, change their zones and
  -- availability and remove them, whether they return or throw.
  pub Reach-IsStaffed : {s t : Staff} → IsStaffed s → Reach s t → IsStaffed t
  Reach-IsStaffed v here = v
  Reach-IsStaffed v (next r st) = Step-IsStaffed (Reach-IsStaffed v r) st
