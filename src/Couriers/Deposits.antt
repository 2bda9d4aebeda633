-- ===== src/Couriers/Deposits.antt =====
-- The cash of couriers under `logDeposit` of modules/couriers/services/courier-app.service.ts.
use mathlib.Core.List.{Memᴰ}
use trackora.Base.{
  ℕ, ◌≡◌, refl, sym, subst, ◌∙◌, true, false, Option, none, some, List, ◌∷◌, All, Ensures,
  Ensures-or_throw, Ensures-throw_if, Ensures-throw_if_last, Ensures-bind, arith, ==_iff, not,
  is_some,
}
use trackora.Base.Int.{ℤ, pos, ◌+ℤ◌, ◌-ℤ◌, ◌≤ℤ◌, ltb_ℤ, sum_by, int_laws, -ℤ_parts}
use trackora.Prisma.{Prisma, change}
use trackora.Prisma.Rows.{
  IsUnique, change-All, change-IsUnique, sum_by-change, mem_eq, find_first-only, Unchanged,
  transaction-Ensures,
}
use trackora.Numbers.{Numbers}
use trackora.External.{Cache, Counters, Bcrypt}
use trackora.Model.{Courier}
use trackora.Couriers.App.{
  AppState, CourierCashDeposit, CourierDepositDto, courier_of_user, courier_by_id, recipient,
  paid_in, get_courier_for_user, check_recipient, deposit_body, log_deposit,
}

abbrev pub courier_id : Courier → ℕ
courier_id c = c.id

abbrev pub cash_held : Courier → ℤ
cash_held c = c.cash_held

abbrev pub deposited : CourierCashDeposit → ℤ
deposited d = d.amount

-- Ids of couriers are unique, and no courier holds less than nothing.
pub record IsSound (t : List Courier) : Type 0 where
  pub ids : IsUnique courier_id t
  pub covered : All (λ (c : Courier). pos 0 ≤ℤ c.cash_held) t

not_less : (a b : ℤ) → ltb_ℤ a b ≡ false → b ≤ℤ a
not_less a b h = ground arith

-- The cash is less by an amount.
abbrev pub taken : ℤ → Courier → Courier
taken amount c = record c { cash_held = c.cash_held -ℤ amount }

paid_in-whole : (n : Numbers) (a : ℤ) → paid_in n (n.of_cents a) ≡ taken a
paid_in-whole n a = λ i c. record c { cash_held = n.decremented-of_cents c.cash_held a i }

-- The row of the courier who pays in.
module _ (c : Courier) (amount : ℤ) (tenant : ℕ) (t : List Courier) (v : IsSound t) (m : Memᴰ c t)
    (own : courier_by_id c.id tenant c ≡ true) (enough : ltb_ℤ c.cash_held amount ≡ false) where
  only_row : (x : Courier) → Memᴰ x t → courier_by_id c.id tenant x ≡ true → x ≡ c
  only_row x n e = mem_eq courier_id c x t v.ids m n (ground (arith, e))

  taken-IsSound : IsSound (change (courier_by_id c.id tenant) (taken amount) t)
  taken-IsSound = record {
    ids = change-IsUnique courier_id _ _ t (λ _. refl) v.ids;
    covered =
        change-All (λ (x : Courier). pos 0 ≤ℤ x.cash_held) (courier_by_id c.id tenant)
          (taken amount) t
          (λ x n e h.
            rw (only_row x n e)
              (omega (arith, -ℤ_parts c.cash_held amount, not_less c.cash_held amount enough)))
          v.covered;
  }

  taken_moves :
      sum_by cash_held (change (courier_by_id c.id tenant) (taken amount) t)
      ≡ sum_by cash_held t -ℤ amount
  taken_moves =
      sum_by-change courier_id (courier_by_id c.id tenant) (taken amount) cash_held c t own
        (λ x e. ground (arith, e)) v.ids m
      ∙ omega int_laws

module _ (p : Prisma) (otps : Cache ℕ) (counters : Counters) (bcrypt : Bcrypt) (n : Numbers) where
  abbrev State : Type 0
  State = AppState p otps counters bcrypt

  abbrev couriers : State → List Courier
  couriers s = s.world.db.couriers

  -- What a deposit that returns has found and moved.
  pub record Deposited (user : ℕ) (dto : CourierDepositDto n) (tenant : ℕ) (cents : ℤ) (s : State)
      (d : CourierCashDeposit) (s' : State) : Type 0 where
    pub courier : Courier
    pub found : p.find_first (courier_of_user user tenant) (couriers s) ≡ some courier
    pub enough : cents ≤ℤ courier.cash_held
    pub row :
        d
        ≡ record { courier_id = courier.id; amount = cents; verified_by_user_id = dto.deposited_to }
    pub deposits : s'.deposits ≡ d ∷ s.deposits
    pub cash : couriers s' ≡ change (courier_by_id courier.id tenant) (taken cents) (couriers s)
    pub sound : IsSound (couriers s')
    pub balance :
        sum_by cash_held (couriers s') +ℤ sum_by deposited s'.deposits
        ≡ sum_by cash_held (couriers s) +ℤ sum_by deposited s.deposits

  deposit_body-Deposited :
      (user : ℕ) (dto : CourierDepositDto n) (tenant : ℕ) (cents : ℤ) (s : State) (c : Courier)
      → dto.amount ≡ n.of_cents cents
      → IsSound (couriers s)
      → p.find_first (courier_of_user user tenant) (couriers s) ≡ some c
      → n.less (n.of_cents c.cash_held) dto.amount ≡ false
      → Ensures
          (Deposited user dto tenant cents s)
          (λ _ _. Unit {0})
          (deposit_body p otps counters bcrypt n c dto tenant s)
  unfolding deposit_body
  deposit_body-Deposited user dto tenant cents s c whole v found less =
      let enough : ltb_ℤ c.cash_held cents ≡ false =
        sym (n.less-of_cents c.cash_held cents)
        ∙ subst (λ m. n.less (n.of_cents c.cash_held) m ≡ false) whole less in
      let (m, e) = p.find_first-some (courier_of_user user tenant) (couriers s) c found in
      let q = courier_by_id c.id tenant in
      let own : courier_by_id c.id tenant c ≡ true = ground (arith, e, (==_iff c.id c.id).1 refl) in
      let row : p.find_first q (couriers s) ≡ some c =
        find_first-only p q c (couriers s) m own
          (only_row c cents tenant (couriers s) v m own enough) in
      rw (whole, n.to_cents-of_cents cents, paid_in-whole n cents)
        (rw (p.update-some q (taken cents) (couriers s) c row) (record {
          courier = c;
          found = found;
          enough = not_less c.cash_held cents enough;
          row = refl;
          deposits = p.create-eq _ s.deposits;
          cash = refl;
          sound = taken-IsSound c cents tenant (couriers s) v m own enough;
          balance =
              rw (p.create-eq, taken_moves c cents tenant (couriers s) v m own enough)
                (omega int_laws);
        }))

  check_recipient-Ensures :
      (to : Option ℕ) (tenant : ℕ) (s : State)
      → Ensures (λ _ s'. s' ≡ s) (Unchanged s) (check_recipient p otps counters bcrypt to tenant s)
  unfolding check_recipient
  check_recipient-Ensures none tenant s = refl
  check_recipient-Ensures (some id) tenant s =
      Ensures-throw_if_last _ _ (not (is_some (p.find_first (recipient id tenant) s.users))) _ s
        (λ _. refl) (λ _. refl)

  -- Where ids of couriers are unique and no courier holds less than nothing: a deposit of whole cents
  -- that returns is of the active courier of the user, is no more than the cash that he holds, stands
  -- with a row, and takes its amount from his cash and nothing from the others', so that the cash of
  -- all couriers and what they have deposited are together what they were, and no courier holds less
  -- than nothing. A deposit of whole cents that throws changes nothing.
  pub log_deposit-Deposited :
      (user : ℕ) (dto : CourierDepositDto n) (tenant : ℕ) (cents : ℤ) (s : State)
      → dto.amount ≡ n.of_cents cents
      → IsSound (couriers s)
      → Ensures
          (Deposited user dto tenant cents s)
          (Unchanged s)
          (log_deposit p otps counters bcrypt n user dto tenant s)
  unfolding log_deposit get_courier_for_user
  log_deposit-Deposited user dto tenant cents s whole v =
      Ensures-or_throw _ _ (p.find_first (courier_of_user user tenant) (couriers s)) _ s _
        (λ _. refl)
        λ c found.
          Ensures-bind _ _ (λ _ s'. s' ≡ s)
            (check_recipient p otps counters bcrypt dto.deposited_to tenant) _ s
            (check_recipient-Ensures dto.deposited_to tenant s)
            λ _ s' same. rw same (
              Ensures-throw_if _ _ (n.less (n.of_cents c.cash_held) dto.amount) _ s _ (λ _. refl)
                λ enough.
                  transaction-Ensures p (Deposited user dto tenant cents s)
                    (deposit_body p otps counters bcrypt n c dto tenant) s
                    (deposit_body-Deposited user dto tenant cents s c whole v found enough))
