-- ===== src/Payouts/Defs.antt =====
-- modules/payouts/services/payouts.service.ts, one definition for each method, on the interface of the Prisma client.
-- `fresh` is the id that the database gives to a new row, and `now` the time of `new Date()`.
use trackora.Base.{
  ℕ, Bool, none, some, List, [], ◌∷◌, Action, pure, gets, or_throw, modify, throw_if, ◌>>=◌, ◌>>◌,
  ◌==◌, ◌&&◌, ◌+◌, not, is_just, or_else, is_some,
}
use trackora.Base.Int.{ℤ, pos, ◌+ℤ◌}
use trackora.Prisma.{Prisma}
use trackora.Numbers.{Numbers}
use trackora.Model.{Db, Merchant, Wallet, Payout}
use trackora.Model.Enums.{PayoutStatus, TransactionType, ◌===◌, includes, payout_status_enum}

pub data Error : Type 0 where
  not_linked below_minimum wallet_not_found insufficient_balance already_pending : Error
  payout_not_found not_pending not_completable not_rejectable : Error
  -- thrown by the client, when an update finds no record
  record_not_found : Error

abbrev pub min_payout_amount : ℤ
min_payout_amount = pos 50000

abbrev pub open_payout_statuses : List PayoutStatus
open_payout_statuses = PayoutStatus.pending ∷ PayoutStatus.approved ∷ PayoutStatus.processing ∷ []

abbrev pub completable_statuses : List PayoutStatus
completable_statuses = PayoutStatus.approved ∷ PayoutStatus.processing ∷ []

abbrev pub rejectable_statuses : List PayoutStatus
rejectable_statuses = PayoutStatus.pending ∷ PayoutStatus.approved ∷ PayoutStatus.processing ∷ []

-- The `where` clauses: `{ userId, tenantId }`, `{ merchantId, tenantId }`, `{ id, tenantId }`,
-- and `{ merchantId, tenantId, status: { in: OPEN_PAYOUT_STATUSES } }`.
abbrev pub of_user : ℕ → ℕ → Merchant → Bool
of_user user tenant m = m.user_id == user && is_just tenant m.tenant_id

abbrev pub of_merchant : ℕ → ℕ → Wallet → Bool
of_merchant merchant tenant w = w.merchant_id == merchant && is_just tenant w.tenant_id

abbrev pub by_id : ℕ → ℕ → Payout → Bool
by_id id tenant x = x.id == id && is_just tenant x.tenant_id

abbrev pub is_open : ℕ → ℕ → Payout → Bool
is_open merchant tenant x =
    x.merchant_id == merchant
    && is_just tenant x.tenant_id
    && includes open_payout_statuses x.status

pub record CreatePayoutDto (n : Numbers) : Type 0 where
  pub amount : n.Number
  pub method : ℕ

-- The body of the transaction of `requestPayout`: what it checks, and the rows that it writes.
abbrev pub new_payout : (n : Numbers) → ℕ → ℕ → ℕ → CreatePayoutDto n → Payout
new_payout n fresh merchant tenant dto = record {
  id = fresh;
  tenant_id = some tenant;
  merchant_id = merchant;
  amount = n.to_cents (n.magnitude dto.amount);
  status = PayoutStatus.pending;
  method = dto.method;
  approved_by_user_id = none;
  processed_at = none;
  completed_at = none;
  reference_number = none;
}

-- The data of a wallet's update: the new balance is computed from the wallet that was read, and
-- the version is incremented in the row.
abbrev pub debit : (n : Numbers) → Wallet → n.Number → Wallet → Wallet
debit n read amount = λ w. record w {
  balance = n.to_cents (n.minus (n.of_cents read.balance) amount);
  total_debited = n.to_cents (n.plus (n.of_cents read.total_debited) amount);
  version = w.version + 1;
}

abbrev pub credit : Wallet → ℤ → Wallet → Wallet
credit read amount w = record w {
  balance = read.balance +ℤ amount;
  total_credited = read.total_credited +ℤ amount;
  version = w.version + 1;
}

-- The data of the updates of `approve`, `complete` and `reject`.
abbrev pub approved : ℕ → Payout → Payout
approved admin x = record x { status = PayoutStatus.approved; approved_by_user_id = some admin }

abbrev pub completed : ℕ → ℕ → Payout → Payout → Payout
completed now reference read x = record x {
  status = PayoutStatus.completed;
  reference_number = some reference;
  completed_at = some now;
  processed_at = some (or_else read.processed_at now);
}

abbrev pub rejected : Payout → Payout
rejected x = record x { status = PayoutStatus.rejected }

module _ (p : Prisma) where
  unfoldable pub get_merchant_id_for_user : ℕ → ℕ → Action Db Error ℕ
  get_merchant_id_for_user user tenant = do
    found ← gets (λ db. p.find_first (of_user user tenant) db.merchants)
    merchant ← or_throw found not_linked
    pure merchant.id

  unfoldable pub find_wallet : ℕ → ℕ → Action Db Error Wallet
  find_wallet merchant tenant = do
    found ← gets (λ db. p.find_first (of_merchant merchant tenant) db.wallets)
    or_throw found wallet_not_found

  unfoldable pub find_payout : ℕ → ℕ → Action Db Error Payout
  find_payout id tenant = do
    found ← gets (λ db. p.find_first (by_id id tenant) db.payouts)
    or_throw found payout_not_found

  unfoldable pub update_payout : ℕ → ℕ → (Payout → Payout) → Action Db Error Payout
  update_payout id tenant f = do
    found ← gets (λ db. p.update (by_id id tenant) f db.payouts)
    written ← or_throw found record_not_found
    modify (λ db. record db { payouts = written.1 })
    pure written.0

  unfoldable pub update_wallet : ℕ → (Wallet → Wallet) → Action Db Error (Unit {0})
  update_wallet id f = do
    found ← gets (λ db. p.update (λ (w : Wallet). w.id == id) f db.wallets)
    written ← or_throw found record_not_found
    modify (λ db. record db { wallets = written.1 })

  unfoldable pub create_transaction : ℕ → TransactionType → ℤ → ℤ → Action Db Error (Unit {0})
  create_transaction wallet_id type amount running_balance = modify λ db. record db {
    transactions =
        p.create
          (record {
            wallet_id = wallet_id;
            shipment_id = none;
            type = type;
            amount = amount;
            running_balance = running_balance;
          })
          db.transactions;
  }

  unfoldable pub approve : ℕ → ℕ → ℕ → Action Db Error Payout
  unfolding find_payout update_payout
  approve id admin tenant = do
    payout ← find_payout id tenant
    throw_if (not (payout.status === PayoutStatus.pending)) not_pending
    update_payout id tenant (approved admin)

  unfoldable pub complete : ℕ → ℕ → ℕ → ℕ → Action Db Error Payout
  unfolding find_payout update_payout
  complete now id reference tenant = do
    payout ← find_payout id tenant
    throw_if (not (includes completable_statuses payout.status)) not_completable
    update_payout id tenant (completed now reference payout)

  unfoldable pub reject_body : Payout → ℕ → ℕ → Action Db Error Payout
  unfolding find_wallet update_wallet create_transaction update_payout
  reject_body payout id tenant = do
    wallet ← find_wallet payout.merchant_id tenant
    changed ← update_payout id tenant rejected
    update_wallet wallet.id (credit wallet payout.amount)
    create_transaction wallet.id TransactionType.adjustment_credit payout.amount
        (wallet.balance +ℤ payout.amount)
    pure changed

  unfoldable pub reject : ℕ → ℕ → Action Db Error Payout
  unfolding find_payout
  reject id tenant = do
    payout ← find_payout id tenant
    throw_if (not (includes rejectable_statuses payout.status)) not_rejectable
    p.transaction (reject_body payout id tenant)

module _ (p : Prisma) (n : Numbers) where
  unfoldable pub request_body : ℕ → ℕ → ℕ → CreatePayoutDto n → Action Db Error Payout
  unfolding find_wallet update_wallet create_transaction
  request_body fresh merchant tenant dto = do
    wallet ← find_wallet p merchant tenant
    let amount = n.magnitude dto.amount
    throw_if (n.less (n.of_cents wallet.balance) amount) insufficient_balance
    existing ← gets (λ db. p.find_first (is_open merchant tenant) db.payouts)
    throw_if (is_some existing) already_pending
    let created = new_payout n fresh merchant tenant dto
    modify (λ db. record db { payouts = p.create created db.payouts })
    update_wallet p wallet.id (debit n wallet amount)
    create_transaction p wallet.id TransactionType.payout_debit (n.to_cents (n.negated amount))
        (n.to_cents (n.minus (n.of_cents wallet.balance) amount))
    pure created

  unfoldable pub request_payout : ℕ → ℕ → CreatePayoutDto n → ℕ → Action Db Error Payout
  unfolding get_merchant_id_for_user
  request_payout fresh user dto tenant = do
    merchant ← get_merchant_id_for_user p user tenant
    throw_if (n.less dto.amount (n.of_cents min_payout_amount)) below_minimum
    p.transaction (request_body fresh merchant tenant dto)
