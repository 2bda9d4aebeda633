-- ===== src/Wallets/Fees.antt =====
-- modules/wallets/services/fee-calculator.service.ts. An amount is in cents and a rate in
-- ten-thousandths, so a product of the two is in ten-thousandths of a cent; `to_fixed` is the
-- rounding of such a number to cents by `parseFloat(x.toFixed(2))`. The numbers of JavaScript are
-- binary, so which way a tie goes is left open. The rate and the fee of a merchant may be negative.
use trackora.Base.{◌≡◌, ◌⊎◌}
use trackora.Base.Int.{ℤ, pos, pos_part, max0, times, ◌+ℤ◌, ◌-ℤ◌, ◌≤ℤ◌}

pub record FeeStructure : Type 0 where
  pub commission_rate : ℤ
  pub fee_per_shipment : ℤ

pub record FeeBreakdown : Type 0 where
  pub gross_cod : ℤ
  pub commission : ℤ
  pub fee : ℤ
  pub net_credit : ℤ

unfoldable pub calculate_net_credit : (ℤ → ℤ) → ℤ → FeeStructure → FeeBreakdown
calculate_net_credit to_fixed cod_amount fees =
    let gross_cod = max0 cod_amount in
    let commission = times (pos_part gross_cod) fees.commission_rate in
    let fee = fees.fee_per_shipment in
    let net_credit = times 10000 gross_cod -ℤ commission -ℤ times 10000 fee in
    record {
      gross_cod = gross_cod;
      commission = to_fixed commission;
      fee = fee;
      net_credit = to_fixed (max0 net_credit);
    }

-- `toFixed` gives a nearest number of cents.
abbrev pub Rounds : (ℤ → ℤ) → Type 0
Rounds to_fixed =
    (x : ℤ)
    → (times 10000 (to_fixed x) ≤ℤ x +ℤ pos 5000) × (x ≤ℤ times 10000 (to_fixed x) +ℤ pos 5000)

-- The sum of the parts that the gross amount is split into.
abbrev pub parts : FeeBreakdown → ℤ
parts b = b.net_credit +ℤ b.commission +ℤ b.fee

abbrev pub SplitsUp : (ℤ → ℤ) → ℤ → FeeStructure → Type 0
SplitsUp to_fixed cod_amount fees =
    let b = calculate_net_credit to_fixed cod_amount fees in
    let deducted = times (pos_part b.gross_cod) fees.commission_rate +ℤ times 10000 b.fee in
    (pos 0 ≤ℤ b.net_credit)
    × ((deducted ≤ℤ pos 0) ⊎ (b.net_credit ≤ℤ b.gross_cod))
    × ((deducted ≤ℤ times 10000 b.gross_cod)
          × (b.gross_cod ≤ℤ parts b +ℤ pos 1)
          × (parts b ≤ℤ b.gross_cod +ℤ pos 1)
        ⊎ (times 10000 b.gross_cod ≤ℤ deducted) × (b.net_credit ≡ pos 0))
