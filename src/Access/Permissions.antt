-- ===== src/Access/Permissions.antt =====
-- common/constants/permissions.constant.ts.
use trackora.Base.{Bool, List, [], ◌∷◌}
use trackora.Model.Enums.{Enum, UserRole, user_role_enum, includes}
use UserRole.{
  platform_owner, platform_admin, platform_support, platform_finance, super_admin,
  operations_manager, finance_admin, merchant, courier,
}

pub data Permission : Type 0 where
  shipments_create shipments_read_all shipments_read_own shipments_update_status : Permission
  shipments_update_status_override couriers_read couriers_create merchants_read : Permission
  merchants_approve wallets_read_all wallets_read_own payouts_request payouts_approve : Permission
  manage_tenants manage_plans manage_subscriptions view_platform_analytics : Permission
  manage_feature_flags view_audit_logs impersonate_tenant_admin view_billing : Permission
  suspend_tenants view_demo_requests manage_demo_requests : Permission

instance abbrev pub permission_enum : Enum Permission
permission_enum = record {
  index = elim [
    | shipments_create ↦ 0
    | shipments_read_all ↦ 1
    | shipments_read_own ↦ 2
    | shipments_update_status ↦ 3
    | shipments_update_status_override ↦ 4
    | couriers_read ↦ 5
    | couriers_create ↦ 6
    | merchants_read ↦ 7
    | merchants_approve ↦ 8
    | wallets_read_all ↦ 9
    | wallets_read_own ↦ 10
    | payouts_request ↦ 11
    | payouts_approve ↦ 12
    | manage_tenants ↦ 13
    | manage_plans ↦ 14
    | manage_subscriptions ↦ 15
    | view_platform_analytics ↦ 16
    | manage_feature_flags ↦ 17
    | view_audit_logs ↦ 18
    | impersonate_tenant_admin ↦ 19
    | view_billing ↦ 20
    | suspend_tenants ↦ 21
    | view_demo_requests ↦ 22
    | manage_demo_requests ↦ 23
  ];
}

abbrev pub platform_roles : List UserRole
platform_roles = platform_owner ∷ platform_admin ∷ platform_support ∷ platform_finance ∷ []

abbrev pub platform_permissions : List Permission
platform_permissions =
    manage_tenants ∷ manage_plans ∷ manage_subscriptions ∷ view_platform_analytics
    ∷ manage_feature_flags ∷ view_audit_logs ∷ impersonate_tenant_admin ∷ view_billing
    ∷ suspend_tenants ∷ view_demo_requests ∷ manage_demo_requests ∷ []

unfoldable pub role_permissions : UserRole → List Permission
role_permissions platform_owner = platform_permissions
role_permissions platform_admin =
    manage_tenants ∷ manage_plans ∷ manage_subscriptions ∷ view_platform_analytics
    ∷ manage_feature_flags ∷ view_audit_logs ∷ view_billing ∷ suspend_tenants ∷ view_demo_requests
    ∷ manage_demo_requests ∷ []
role_permissions platform_support =
    view_platform_analytics ∷ view_audit_logs ∷ impersonate_tenant_admin ∷ []
role_permissions platform_finance = view_billing ∷ view_platform_analytics ∷ view_audit_logs ∷ []
role_permissions super_admin = []
role_permissions operations_manager = []
role_permissions finance_admin = []
role_permissions merchant = []
role_permissions courier = []

unfoldable pub is_platform_role : UserRole → Bool
is_platform_role role = includes platform_roles role
