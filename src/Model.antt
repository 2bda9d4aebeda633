-- ===== src/Model.antt =====
-- The rows of the tables that the services read and write (the types that @prisma/client generates
-- from prisma/schema.prisma), without the columns that no modelled service reads or computes:
-- creation and update times, free text, and display data. Ids, phone numbers and other keys are
-- compared only, so they are numbers. Money (Decimal(10, 2)) is in whole cents.
pub mod Enums
use trackora.Base.{ℕ, Bool, Option, List}
use trackora.Base.Int.{ℤ}
use Enums.{
  ShipmentStatus, ShipmentType, AssignmentStatus, AssignmentType, TransactionType, PayoutStatus,
  UserRole,
}

pub record Merchant : Type 0 where
  pub id : ℕ
  pub tenant_id : Option ℕ
  pub user_id : ℕ
  pub commission_rate : ℤ  -- Decimal(5, 4), in ten-thousandths
  pub fee_per_shipment : ℤ
  pub is_active : Bool

pub record Courier : Type 0 where
  pub id : ℕ
  pub tenant_id : Option ℕ
  pub user_id : ℕ
  pub zone_codes : List ℕ
  pub max_daily_capacity : ℕ
  pub cash_held : ℤ
  pub is_active : Bool
  pub is_available : Bool
  pub total_delivered : ℕ
  pub total_failed : ℕ
  pub total_returned : ℕ

pub record Shipment : Type 0 where
  pub id : ℕ
  pub tenant_id : Option ℕ
  pub tracking_number : ℕ
  pub merchant_id : ℕ
  pub status : ShipmentStatus
  pub type : ShipmentType
  pub cod_amount : ℤ
  pub delivery_attempts : ℕ
  pub assigned_courier_id : Option ℕ
  pub collected_cash : Option ℤ
  pub customer_otp : Option ℕ
  pub delivered_at : Option ℕ
  pub returned_at : Option ℕ
  pub cancelled_at : Option ℕ
  pub risk_score : ℕ
  pub created_at : ℕ

pub record ShipmentStatusLog : Type 0 where
  pub shipment_id : ℕ
  pub previous_status : Option ShipmentStatus
  pub new_status : ShipmentStatus
  pub changed_by_user_id : Option ℕ
  pub changed_by_role : Option UserRole

pub record Assignment : Type 0 where
  pub id : ℕ
  pub shipment_id : ℕ
  pub courier_id : ℕ
  pub assigned_by_user_id : Option ℕ
  pub assignment_type : AssignmentType
  pub status : AssignmentStatus
  pub completed_at : Option ℕ
  pub cancelled_at : Option ℕ

pub record Wallet : Type 0 where
  pub id : ℕ
  pub tenant_id : Option ℕ
  pub merchant_id : ℕ
  pub balance : ℤ
  pub pending_balance : ℤ
  pub total_credited : ℤ
  pub total_debited : ℤ
  pub version : ℕ

pub record Transaction : Type 0 where
  pub wallet_id : ℕ
  pub shipment_id : Option ℕ
  pub type : TransactionType
  pub amount : ℤ
  pub running_balance : ℤ

pub record Payout : Type 0 where
  pub id : ℕ
  pub tenant_id : Option ℕ
  pub merchant_id : ℕ
  pub amount : ℤ
  pub status : PayoutStatus
  pub method : ℕ
  pub approved_by_user_id : Option ℕ
  pub processed_at : Option ℕ
  pub completed_at : Option ℕ
  pub reference_number : Option ℕ

pub record Db : Type 0 where
  pub merchants : List Merchant
  pub couriers : List Courier
  pub shipments : List Shipment
  pub status_logs : List ShipmentStatusLog
  pub assignments : List Assignment
  pub wallets : List Wallet
  pub transactions : List Transaction
  pub payouts : List Payout
