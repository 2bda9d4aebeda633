-- ===== src/Wallets/Locking.antt =====
-- modules/wallets/services/transactions.service.ts: `createTransaction`. A transaction reads what
-- is committed, and other sessions commit between its read of the wallet and its write:
-- `others i` is what they commit during the attempt i.
use trackora.Base.{
  ℕ, zero, suc, Bool, true, false, Option, none, some, ok, err, Action, pure, gets, or_throw,
  modify, throw_if, ◌>>=◌, ◌>>◌, ◌==◌, ◌&&◌, ◌+◌, not, is_some,
}
use trackora.Base.Int.{ℤ, pos, ◌+ℤ◌, ◌-ℤ◌, neg, ltb_ℤ, abs}
use trackora.Prisma.{Prisma}
use trackora.Model.{Db, Wallet, Transaction, Shipment}
use trackora.Model.Enums.{TransactionType}

pub data Error : Type 0 where
  wallet_not_found shipment_not_found insufficient_balance version_conflict retries_exhausted :
      Error
  merchant_not_found : Error
  -- thrown by the client, for the unique column merchantId
  wallet_exists : Error

pub data Direction : Type 0 where
  credit debit : Direction

pub record CreateTransactionInput : Type 0 where
  pub wallet_id : ℕ
  pub shipment_id : Option ℕ
  pub type : TransactionType
  pub amount : ℤ

-- `error.message === 'VERSION_CONFLICT'`
abbrev pub is_conflict : Error → Bool
is_conflict version_conflict = true
is_conflict e = false

abbrev pub max_retries : ℕ
max_retries = 3

-- The amount that the balance gains.
abbrev pub signed : Direction → ℤ → ℤ
signed credit amount = amount
signed debit amount = neg amount

abbrev pub new_balance : Direction → ℤ → Wallet → ℤ
new_balance credit amount w = w.balance +ℤ amount
new_balance debit amount w = w.balance -ℤ amount

abbrev pub overdrawn : Direction → ℤ → Bool
overdrawn credit balance = false
overdrawn debit balance = ltb_ℤ balance (pos 0)

-- The data of the update: all of it is computed from the wallet that was read.
abbrev pub moved : Direction → ℤ → Wallet → Wallet → Wallet
moved credit amount read w = record w {
  balance = new_balance credit amount read;
  total_credited = read.total_credited +ℤ amount;
  total_debited = read.total_debited;
  version = read.version + 1;
}
moved debit amount read w = record w {
  balance = new_balance debit amount read;
  total_credited = read.total_credited;
  total_debited = read.total_debited +ℤ amount;
  version = read.version + 1;
}

-- `where: { id, version }`
abbrev pub at_version : ℕ → ℕ → Wallet → Bool
at_version id version w = w.id == id && w.version == version

-- `where: { id: shipmentId, tenantId: wallet.tenantId }`
abbrev pub same_tenant : Option ℕ → Option ℕ → Bool
same_tenant none none = true
same_tenant none (some b) = false
same_tenant (some a) none = false
same_tenant (some a) (some b) = a == b

abbrev pub ledger_row : CreateTransactionInput → Direction → Wallet → Transaction
ledger_row input direction wallet = record {
  wallet_id = input.wallet_id;
  shipment_id = input.shipment_id;
  type = input.type;
  amount = signed direction (abs input.amount);
  running_balance = new_balance direction (abs input.amount) wallet;
}

-- The loop over the attempts: `left` of them are left, and the next one is number `i`.
unfoldable pub retry : {A : Type 0} → ℕ → ℕ → (ℕ → Action Db Error A) → Action Db Error A
retry zero i step s = err retries_exhausted s
retry (suc left) i step s = elim (step i s) [
  | ok t s' ↦ ok t s'
  | err e s' ↦ elim (is_conflict e) [ true ↦ retry left (suc i) step s' | false ↦ err e s' ]
]

module _ (p : Prisma) where
  abbrev pub shipment_known : Option ℕ → Wallet → Db → Bool
  shipment_known none wallet db = true
  shipment_known (some id) wallet db = is_some (
      p.find_first (λ (x : Shipment). x.id == id && same_tenant x.tenant_id wallet.tenant_id)
        db.shipments)

  -- `updateMany`, and the test of its count.
  unfoldable pub update_versioned : ℕ → ℕ → (Wallet → Wallet) → Action Db Error (Unit {0})
  update_versioned id version f = do
    updated ← gets (λ db. p.count (at_version id version) db.wallets)
    modify (λ db. record db { wallets = p.update_many (at_version id version) f db.wallets })
    throw_if (updated == 0) version_conflict

  -- The writes of the transaction.
  unfoldable pub write_body :
      CreateTransactionInput → Direction → Wallet → Action Db Error Transaction
  unfolding update_versioned
  write_body input direction wallet = do
    update_versioned input.wallet_id wallet.version (moved direction (abs input.amount) wallet)
    modify (λ db. record db {
      transactions = p.create (ledger_row input direction wallet) db.transactions;
    })
    pure (ledger_row input direction wallet)

  unfoldable pub attempt :
      (Db → Db) → CreateTransactionInput → Direction → Action Db Error Transaction
  attempt others input direction = do
    found ← gets (λ db. p.find_first (λ (w : Wallet). w.id == input.wallet_id) db.wallets)
    wallet ← or_throw found wallet_not_found
    known ← gets (shipment_known input.shipment_id wallet)
    throw_if (not known) shipment_not_found
    throw_if (overdrawn direction (new_balance direction (abs input.amount) wallet))
        insufficient_balance
    modify others
    p.transaction (write_body input direction wallet)

  unfoldable pub create_transaction :
      (ℕ → Db → Db) → CreateTransactionInput → Direction → Action Db Error Transaction
  create_transaction others input direction =
      retry max_retries 0 (λ i. attempt (others i) input direction)
