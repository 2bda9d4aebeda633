-- ===== src/Model/Enums.antt =====
-- The enumerations of prisma/schema.prisma (as @prisma/client generates them), with `===` on the
-- values of an enumeration, which compares their positions in it, and `includes` on a list of them.
use trackora.Base.{ℕ, Bool, List, ◌==◌, any}

pub data ShipmentStatus : Type 0 where
  pending picked_up in_warehouse out_for_delivery delivered failed postponed returned cancelled :
      ShipmentStatus

pub data ShipmentType : Type 0 where
  cod prepaid return : ShipmentType

pub data AssignmentStatus : Type 0 where
  active completed cancelled rejected : AssignmentStatus

pub data AssignmentType : Type 0 where
  manual auto_dispatch : AssignmentType

pub data TransactionType : Type 0 where
  cod_credit fee_debit commission_debit return_fee_debit cancellation_fee_debit payout_debit
        adjustment_credit adjustment_debit bonus_credit :
      TransactionType

pub data PayoutStatus : Type 0 where
  pending approved processing completed rejected : PayoutStatus

pub data UserRole : Type 0 where
  platform_owner platform_admin platform_support platform_finance super_admin operations_manager
        finance_admin merchant courier :
      UserRole

pub data SubscriptionStatus : Type 0 where
  trialing active past_due paused cancelled expired : SubscriptionStatus

pub data TenantStatus : Type 0 where
  trial active past_due suspended cancelled : TenantStatus

pub data PaymentStatus : Type 0 where
  not_required pending paid failed past_due : PaymentStatus

pub data FeatureFlagKey : Type 0 where
  smart_dispatch fraud_detection cod_wallet bulk_upload whatsapp_notifications api_access
        public_tracking advanced_reports :
      FeatureFlagKey

pub record Enum (A : Type 0) : Type 0 where
  pub index : A → ℕ

infix 50 ◌===◌
abbrev pub ◌===◌ : {A : Type 0} ⦃e : Enum A⦄ → A → A → Bool
◌===◌ ⦃e⦄ a b = e.index a == e.index b

abbrev pub includes : {A : Type 0} ⦃e : Enum A⦄ → List A → A → Bool
includes xs a = any (λ x. x === a) xs

instance abbrev pub shipment_status_enum : Enum ShipmentStatus
shipment_status_enum = record {
  index = elim [
    | ShipmentStatus.pending ↦ 0
    | ShipmentStatus.picked_up ↦ 1
    | ShipmentStatus.in_warehouse ↦ 2
    | ShipmentStatus.out_for_delivery ↦ 3
    | ShipmentStatus.delivered ↦ 4
    | ShipmentStatus.failed ↦ 5
    | ShipmentStatus.postponed ↦ 6
    | ShipmentStatus.returned ↦ 7
    | ShipmentStatus.cancelled ↦ 8
  ];
}

instance abbrev pub shipment_type_enum : Enum ShipmentType
shipment_type_enum = record {
  index = elim [ ShipmentType.cod ↦ 0 | ShipmentType.prepaid ↦ 1 | ShipmentType.return ↦ 2 ];
}

instance abbrev pub assignment_status_enum : Enum AssignmentStatus
assignment_status_enum = record {
  index = elim [
    | AssignmentStatus.active ↦ 0
    | AssignmentStatus.completed ↦ 1
    | AssignmentStatus.cancelled ↦ 2
    | AssignmentStatus.rejected ↦ 3
  ];
}

instance abbrev pub payout_status_enum : Enum PayoutStatus
payout_status_enum = record {
  index = elim [
    | PayoutStatus.pending ↦ 0
    | PayoutStatus.approved ↦ 1
    | PayoutStatus.processing ↦ 2
    | PayoutStatus.completed ↦ 3
    | PayoutStatus.rejected ↦ 4
  ];
}

instance abbrev pub user_role_enum : Enum UserRole
user_role_enum = record {
  index = elim [
    | UserRole.platform_owner ↦ 0
    | UserRole.platform_admin ↦ 1
    | UserRole.platform_support ↦ 2
    | UserRole.platform_finance ↦ 3
    | UserRole.super_admin ↦ 4
    | UserRole.operations_manager ↦ 5
    | UserRole.finance_admin ↦ 6
    | UserRole.merchant ↦ 7
    | UserRole.courier ↦ 8
  ];
}

instance abbrev pub subscription_status_enum : Enum SubscriptionStatus
subscription_status_enum = record {
  index = elim [
    | SubscriptionStatus.trialing ↦ 0
    | SubscriptionStatus.active ↦ 1
    | SubscriptionStatus.past_due ↦ 2
    | SubscriptionStatus.paused ↦ 3
    | SubscriptionStatus.cancelled ↦ 4
    | SubscriptionStatus.expired ↦ 5
  ];
}

instance abbrev pub tenant_status_enum : Enum TenantStatus
tenant_status_enum = record {
  index = elim [
    | TenantStatus.trial ↦ 0
    | TenantStatus.active ↦ 1
    | TenantStatus.past_due ↦ 2
    | TenantStatus.suspended ↦ 3
    | TenantStatus.cancelled ↦ 4
  ];
}

instance abbrev pub feature_flag_key_enum : Enum FeatureFlagKey
feature_flag_key_enum = record {
  index = elim [
    | FeatureFlagKey.smart_dispatch ↦ 0
    | FeatureFlagKey.fraud_detection ↦ 1
    | FeatureFlagKey.cod_wallet ↦ 2
    | FeatureFlagKey.bulk_upload ↦ 3
    | FeatureFlagKey.whatsapp_notifications ↦ 4
    | FeatureFlagKey.api_access ↦ 5
    | FeatureFlagKey.public_tracking ↦ 6
    | FeatureFlagKey.advanced_reports ↦ 7
  ];
}
