-- ===== src/Wallets/Credit.antt =====
-- modules/wallets/listeners/shipment-delivered.listener.ts: the credit of a wallet when a COD
-- shipment has been delivered. `fresh` is the id that the database gives to a new wallet, and
-- `others i` is what the other sessions commit during the attempt i.
use trackora.Base.{
  ℕ, Bool, Option, none, some, List, Action, pure, gets, or_throw, modify, ◌>>=◌, ◌>>◌, ◌==◌, ◌&&◌,
  ◌+◌, is_some, throw_if, is_just, if◌then◌else◌,
}
use trackora.Base.Int.{ℤ, pos, ◌+ℤ◌, ◌-ℤ◌, neg, ltb_ℤ}
use trackora.Prisma.{Prisma}
use trackora.Model.{Db, Merchant, Wallet, Transaction}
use trackora.Model.Enums.{TransactionType, ShipmentType, ◌===◌, shipment_type_enum}
use trackora.Wallets.Fees.{FeeBreakdown, calculate_net_credit}
use trackora.Wallets.Locking.{
  Error, merchant_not_found, wallet_exists, update_versioned, retry, max_retries,
}

pub record ShipmentDeliveredEvent : Type 0 where
  pub shipment_id : ℕ
  pub tenant_id : ℕ
  pub merchant_id : ℕ
  pub cod_amount : ℤ
  pub type : ShipmentType

abbrev pub by_id : ℕ → ℕ → Merchant → Bool
by_id id tenant m = m.id == id && is_just tenant m.tenant_id

abbrev pub of_merchant : ℕ → ℕ → Wallet → Bool
of_merchant merchant tenant w = w.merchant_id == merchant && is_just tenant w.tenant_id

abbrev pub new_wallet : ℕ → ShipmentDeliveredEvent → Wallet
new_wallet fresh event = record {
  id = fresh;
  tenant_id = some event.tenant_id;
  merchant_id = event.merchant_id;
  balance = pos 0;
  pending_balance = pos 0;
  total_credited = pos 0;
  total_debited = pos 0;
  version = 0;
}

-- The data of the update.
abbrev pub credited : FeeBreakdown → Wallet → Wallet → Wallet
credited b read w = record w {
  balance = read.balance +ℤ b.net_credit;
  total_credited = read.total_credited +ℤ b.gross_cod;
  total_debited = read.total_debited +ℤ b.commission +ℤ b.fee;
  version = read.version + 1;
}

-- `runningBalance` after each of the rows.
abbrev pub after_gross : FeeBreakdown → Wallet → ℤ
after_gross b wallet = wallet.balance +ℤ b.gross_cod

abbrev pub after_commission : FeeBreakdown → Wallet → ℤ
after_commission b wallet =
    if ltb_ℤ (pos 0) b.commission
    then after_gross b wallet -ℤ b.commission
    else after_gross b wallet

abbrev pub entry : Wallet → ℕ → TransactionType → ℤ → ℤ → Transaction
entry wallet shipment type amount running_balance = record {
  wallet_id = wallet.id;
  shipment_id = some shipment;
  type = type;
  amount = amount;
  running_balance = running_balance;
}

module _ (p : Prisma) where
  -- The rows that are created, the last one first.
  unfoldable pub commission_entries :
      FeeBreakdown → Wallet → ℕ → List Transaction → List Transaction
  commission_entries b wallet shipment t =
      if ltb_ℤ (pos 0) b.commission
      then p.create
          (entry wallet shipment TransactionType.commission_debit (neg b.commission)
            (after_gross b wallet -ℤ b.commission))
          t
      else t

  unfoldable pub fee_entries : FeeBreakdown → Wallet → ℕ → List Transaction → List Transaction
  fee_entries b wallet shipment t =
      if ltb_ℤ (pos 0) b.fee
      then p.create
          (entry wallet shipment TransactionType.fee_debit (neg b.fee)
            (after_commission b wallet -ℤ b.fee))
          t
      else t

  unfoldable pub ledger_entries : FeeBreakdown → Wallet → ℕ → List Transaction → List Transaction
  ledger_entries b wallet shipment t = fee_entries b wallet shipment (
      commission_entries b wallet shipment (
        p.create
          (entry wallet shipment TransactionType.cod_credit b.gross_cod (after_gross b wallet)) t))

  -- `if (!wallet) wallet = await tx.wallet.create(…)`; merchantId is a unique column.
  unfoldable pub open_wallet : ℕ → ShipmentDeliveredEvent → Option Wallet → Action Db Error Wallet
  open_wallet fresh event none = do
    taken ←
        gets (λ db. p.find_first (λ (w : Wallet). w.merchant_id == event.merchant_id) db.wallets)
    throw_if (is_some taken) wallet_exists
    modify (λ db. record db { wallets = p.create (new_wallet fresh event) db.wallets })
    pure (new_wallet fresh event)
  open_wallet fresh event (some w) = pure w

  unfoldable pub credit_body :
      ℕ → ShipmentDeliveredEvent → FeeBreakdown → Option Wallet → Action Db Error (Unit {0})
  unfolding open_wallet update_versioned
  credit_body fresh event b found = do
    wallet ← open_wallet fresh event found
    update_versioned p wallet.id wallet.version (credited b wallet)
    modify (λ db. record db {
      transactions = ledger_entries b wallet event.shipment_id db.transactions;
    })

  unfoldable pub credit_attempt :
      (ℤ → ℤ) → ℕ → (Db → Db) → ShipmentDeliveredEvent → Action Db Error (Unit {0})
  credit_attempt to_fixed fresh others event = do
    owner ← gets (λ db. p.find_first (by_id event.merchant_id event.tenant_id) db.merchants)
    merchant ← or_throw owner merchant_not_found
    found ← gets (λ db. p.find_first (of_merchant event.merchant_id event.tenant_id) db.wallets)
    modify others
    p.transaction (
        credit_body fresh event
          (calculate_net_credit to_fixed event.cod_amount (record {
            commission_rate = merchant.commission_rate;
            fee_per_shipment = merchant.fee_per_shipment;
          }))
          found)

  unfoldable pub process_cod_credit_atomic :
      (ℤ → ℤ) → ℕ → (ℕ → Db → Db) → ShipmentDeliveredEvent → Action Db Error (Unit {0})
  process_cod_credit_atomic to_fixed fresh others event =
      retry max_retries 0 (λ i. credit_attempt to_fixed fresh (others i) event)

  unfoldable pub handle_shipment_delivered :
      (ℤ → ℤ) → ℕ → (ℕ → Db → Db) → ShipmentDeliveredEvent → Action Db Error (Unit {0})
  unfolding process_cod_credit_atomic
  handle_shipment_delivered to_fixed fresh others event =
      if event.type === ShipmentType.cod
      then process_cod_credit_atomic to_fixed fresh others event
      else pure tt
