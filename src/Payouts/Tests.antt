-- ===== src/Payouts/Tests.antt =====
-- The payout service on a small database: one merchant with 1000 EGP, who asks for 600.
use mathlib.Core.List.{Memᴰ}
use trackora.Base.{◌≡◌, refl, true, some, [], ◌∷◌, ok, err, arith}
use trackora.Base.Int.{pos, ◌+ℤ◌, ◌-ℤ◌}
use trackora.Prisma.Memory.{memory}
use trackora.Numbers.{with_tenths}
use trackora.Model.{Db, Merchant, Wallet}
use trackora.Payouts.Defs.{
  Error, CreatePayoutDto, new_payout, below_minimum, request_payout, request_body,
}
use trackora.Payouts.Invariant.{IsValid, total}
use trackora.Payouts.Writes.{requested}
use trackora.Payouts.Runs.{Reach, Reach-Kept, here, next, request, request_payout_twice}

abbrev merchant_row : Merchant
merchant_row = record {
  id = 1;
  tenant_id = some 5;
  user_id = 10;
  commission_rate = pos 200;
  fee_per_shipment = pos 1000;
  is_active = true;
}

abbrev wallet_row : Wallet
wallet_row = record {
  id = 7;
  tenant_id = some 5;
  merchant_id = 1;
  balance = pos 100000;
  pending_balance = pos 0;
  total_credited = pos 150000;
  total_debited = pos 50000;
  version = 3;
}

abbrev start : Db
start = record {
  merchants = merchant_row ∷ [];
  couriers = [];
  shipments = [];
  status_logs = [];
  assignments = [];
  wallets = wallet_row ∷ [];
  transactions = [];
  payouts = [];
}

abbrev asked : CreatePayoutDto with_tenths
asked = record { amount = with_tenths.of_cents (pos 60000); method = 0 }

abbrev after_request : Db
after_request = requested memory with_tenths 100 1 5 asked wallet_row start

start-IsValid : IsValid start
unfolding ◌+ℤ◌
start-IsValid = record {
  wallet_ids = (tt, tt);
  payout_ids = tt;
  balanced = ((refl, omega arith), tt);
  amounts = tt;
  one_open = tt;
}

requests :
    request_payout memory with_tenths 100 10 asked 5 start
    ≡ ok (new_payout with_tenths 100 1 5 asked) after_request
unfolding request_payout request_body ◌-ℤ◌ ◌+ℤ◌
requests = refl

-- Too small a request is refused.
refuses_small :
    request_payout memory with_tenths 100 10
      (record { amount = with_tenths.of_cents (pos 49999); method = 0 })
      5
      start
    ≡ err below_minimum start
unfolding request_payout request_body ◌-ℤ◌ ◌+ℤ◌
refuses_small = refl

requested_reached : Reach memory with_tenths start after_request
requested_reached =
    next here
      (request 100 10 asked 5 (new_payout with_tenths 100 1 5 asked) (pos 60000) refl tt requests)

Reach-Kept_example : IsValid after_request × (total after_request ≡ total start)
Reach-Kept_example = Reach-Kept memory with_tenths start-IsValid requested_reached

request_payout_twice_example :
    (e : Error) × (request_payout memory with_tenths 101 10 asked 5 after_request
      ≡ err e after_request)
request_payout_twice_example =
    request_payout_twice memory with_tenths 101 10 asked 5 after_request merchant_row
      (new_payout with_tenths 100 1 5 asked)
      (Reach-Kept memory with_tenths start-IsValid requested_reached).0 refl (Memᴰ.head refl) refl
