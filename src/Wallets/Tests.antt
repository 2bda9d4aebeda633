-- ===== src/Wallets/Tests.antt =====
-- The wallets on a small database: one merchant with a commission of 2 % and a fee of 10 EGP.
use trackora.Base.{ℕ, ◌+◌, ◌/◌, ◌≡◌, ◌↔◌, refl, true, none, some, [], ◌∷◌, err, Ensures}
use trackora.Base.Int.{ℤ, pos, negsuc, neg, max0, ◌+ℤ◌, ◌-ℤ◌}
use trackora.Prisma.Memory.{memory}
use trackora.Prisma.Rows.{mem_eq}
use trackora.Model.{Db, Merchant, Wallet}
use trackora.Model.Enums.{TransactionType, ShipmentType}
use trackora.Wallets.Fees.{FeeStructure, FeeBreakdown}
use trackora.Wallets.Locking.{
  CreateTransactionInput, debit, create_transaction, attempt, retry, insufficient_balance,
}
use trackora.Wallets.Versions.{Versioned, Later, Written, wallet_id, create_transaction_isolated}
use trackora.Wallets.Credit.{
  ShipmentDeliveredEvent, credited, ledger_entries, process_cod_credit_atomic,
}
use trackora.Wallets.Ledger.{last_balance, ledger_agrees_iff, Credited, process_cod_credit_isolated}

abbrev to_cents : ℤ → ℤ
to_cents (pos n) = pos ((n + 5000) / 10000)
to_cents (negsuc n) = neg (pos ((n + 5001) / 10000))

abbrev two_percent : FeeStructure
two_percent = record { commission_rate = pos 200; fee_per_shipment = pos 1000 }

abbrev merchant_row : Merchant
merchant_row = record {
  id = 1;
  tenant_id = some 5;
  user_id = 10;
  commission_rate = pos 200;
  fee_per_shipment = pos 1000;
  is_active = true;
}

abbrev wallet_row : Wallet
wallet_row = record {
  id = 7;
  tenant_id = some 5;
  merchant_id = 1;
  balance = pos 100000;
  pending_balance = pos 0;
  total_credited = pos 150000;
  total_debited = pos 50000;
  version = 3;
}

abbrev start : Db
start = record {
  merchants = merchant_row ∷ [];
  couriers = [];
  shipments = [];
  status_logs = [];
  assignments = [];
  wallets = wallet_row ∷ [];
  transactions = [];
  payouts = [];
}

abbrev withdrawal : CreateTransactionInput
withdrawal = record {
  wallet_id = 7;
  shipment_id = none;
  type = TransactionType.adjustment_debit;
  amount = pos 100001;
}

abbrev delivery : ShipmentDeliveredEvent
delivery = record {
  shipment_id = 3;
  tenant_id = 5;
  merchant_id = 1;
  cod_amount = pos 20000;
  type = ShipmentType.cod;
}

abbrev alone : ℕ → Db → Db
alone i db = db

alone-Versioned : Versioned alone
alone-Versioned i s k = (k, λ w v m n e _. mem_eq wallet_id w v s.wallets k m n e)

-- A debit beyond the balance is refused.
refuses_overdraft :
    create_transaction memory alone withdrawal debit start ≡ err insufficient_balance start
unfolding create_transaction attempt retry ◌-ℤ◌
refuses_overdraft = refl

create_transaction_isolated_example :
    Ensures
      (λ t s'. (u : Db) × Later alone 0 start u × Written memory withdrawal debit u t s')
      (λ _ s'. Later alone 0 start s')
      (create_transaction memory alone withdrawal debit start)
create_transaction_isolated_example =
    create_transaction_isolated memory alone alone-Versioned withdrawal debit start (tt, tt)

-- A fee of -10 EGP, which the amount of a merchant may be, raises the credit above the amount of the
-- shipment, and has no row: the ledger ends below the wallet.
abbrev rebate : FeeBreakdown
rebate = record {
  gross_cod = pos 10000;
  commission = pos 0;
  fee = neg (pos 1000);
  net_credit = pos 11000;
}

ledger_agrees_iff_example :
    (last_balance (ledger_entries memory rebate wallet_row 3 [])
      ≡ (credited rebate wallet_row wallet_row).balance)
    ↔ (rebate.net_credit +ℤ max0 rebate.commission +ℤ max0 rebate.fee ≡ rebate.gross_cod)
ledger_agrees_iff_example = ledger_agrees_iff memory rebate wallet_row 3 []

process_cod_credit_isolated_example :
    Ensures
      (λ d s'. (u : Db) × Later alone 0 start u × Credited memory to_cents 100 delivery u d s')
      (λ _ s'. Later alone 0 start s')
      (process_cod_credit_atomic memory to_cents 100 alone delivery start)
process_cod_credit_isolated_example =
    process_cod_credit_isolated memory to_cents 100 delivery alone alone-Versioned start (tt, tt)
