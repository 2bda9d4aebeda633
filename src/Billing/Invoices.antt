-- ===== src/Billing/Invoices.antt =====
-- `createInvoice` and `updateInvoice` of modules/platform/billing/services/platform-billing.service.ts
-- with those of its repository. Amounts are in cents; the notes and the metadata are left out.
use trackora.Base.{
  ℕ, Bool, Option, none, some, List, Action, pure, gets, or_throw, modify, throw_if, ◌>>=◌, ◌>>◌,
  ◌==◌, ltb, or_else,
}
use trackora.Base.Int.{ℤ, pos, leb_ℤ}
use trackora.Prisma.{Prisma}
use trackora.Model.Enums.{PaymentStatus}
use trackora.Subscriptions.Defs.{Subscription, Tenant, Tables, else_null}

pub record ManualInvoice : Type 0 where
  pub id : ℕ
  pub tenant_id : ℕ
  pub subscription_id : Option ℕ
  pub amount : ℤ
  pub currency : ℕ
  pub status : PaymentStatus
  pub period_start : Option ℕ
  pub period_end : Option ℕ
  pub due_at : Option ℕ
  pub paid_at : Option ℕ

pub data AuditAction : Type 0 where
  invoice_created invoice_updated : AuditAction

pub record AuditLog : Type 0 where
  pub tenant_id : ℕ
  pub action : AuditAction
  pub resource_id : ℕ

pub record Books : Type 0 where
  pub tables : Tables
  pub invoices : List ManualInvoice
  pub audit_logs : List AuditLog

pub record CreateManualInvoiceDto : Type 0 where
  pub tenant_id : ℕ
  pub amount : ℤ
  pub currency : Option ℕ
  pub billing_period_start : Option ℕ
  pub billing_period_end : Option ℕ
  pub due_date : Option ℕ

pub record UpdateManualInvoiceDto : Type 0 where
  pub amount : Option ℤ
  pub status : Option PaymentStatus
  pub payment_status : Option PaymentStatus
  pub due_date : Option ℕ
  pub paid_at : Option ℕ

pub data Error : Type 0 where
  bad_period amount_not_positive tenant_not_found invoice_not_found record_not_found : Error

-- `start && end && end < start`
abbrev pub is_bad_period : Option ℕ → Option ℕ → Bool
is_bad_period (some start) (some end) = ltb end start
is_bad_period start end = Bool.false

abbrev pub to_positive_decimal : ℤ → Action Books Error ℤ
to_positive_decimal value = throw_if (leb_ℤ value (pos 0)) amount_not_positive >> pure value

abbrev pub invoice_by_id : ℕ → ManualInvoice → Bool
invoice_by_id id i = i.id == id

abbrev pub id_of : Option Subscription → Option ℕ
id_of none = none
id_of (some s) = some s.id

-- `egp` is the code of 'EGP'.
abbrev pub new_invoice : ℕ → ℕ → CreateManualInvoiceDto → Option ℕ → ManualInvoice
new_invoice egp fresh dto subscription = record {
  id = fresh;
  tenant_id = dto.tenant_id;
  subscription_id = subscription;
  amount = dto.amount;
  currency = or_else dto.currency egp;
  status = PaymentStatus.pending;
  period_start = dto.billing_period_start;
  period_end = dto.billing_period_end;
  due_at = dto.due_date;
  paid_at = none;
}

-- A value that is not given leaves the column as it is.
abbrev pub updated : UpdateManualInvoiceDto → ManualInvoice → ManualInvoice
updated dto i = record i {
  amount = or_else dto.amount i.amount;
  status = or_else (else_null dto.payment_status dto.status) i.status;
  due_at = else_null dto.due_date i.due_at;
  paid_at = else_null dto.paid_at i.paid_at;
}

-- The check of an amount, where one is given.
abbrev pub check_amount : Option ℤ → Action Books Error (Unit {0})
check_amount none = pure tt
check_amount (some value) = throw_if (leb_ℤ value (pos 0)) amount_not_positive

module _ (p : Prisma) where
  unfoldable pub write_audit_log : ℕ → AuditAction → ℕ → Action Books Error (Unit {0})
  write_audit_log tenant action resource = modify (λ b. record b {
    audit_logs =
        p.create (record { tenant_id = tenant; action = action; resource_id = resource })
          b.audit_logs;
  })

  unfoldable pub create_body : ℕ → ℕ → CreateManualInvoiceDto → Action Books Error ManualInvoice
  create_body egp fresh dto = do
    found ← gets (λ b. p.find_first (λ (t : Tenant). t.id == dto.tenant_id) b.tables.tenants)
    tenant ← or_throw found tenant_not_found
    subscription ← gets (λ b.
        p.find_first (λ (s : Subscription). s.tenant_id == dto.tenant_id) b.tables.subscriptions)
    let invoice = new_invoice egp fresh dto (id_of subscription)
    modify (λ b. record b { invoices = p.create invoice b.invoices })
    pure invoice

  unfoldable pub create_invoice : ℕ → ℕ → CreateManualInvoiceDto → Action Books Error ManualInvoice
  create_invoice egp fresh dto = do
    throw_if (is_bad_period dto.billing_period_start dto.billing_period_end) bad_period
    amount ← to_positive_decimal dto.amount
    invoice ← p.transaction (create_body egp fresh dto)
    write_audit_log invoice.tenant_id AuditAction.invoice_created invoice.id
    pure invoice

  unfoldable pub update_body : ℕ → UpdateManualInvoiceDto → Action Books Error ManualInvoice
  update_body id dto = do
    existing ← gets (λ b. p.find_first (invoice_by_id id) b.invoices)
    row ← or_throw existing invoice_not_found
    found ← gets (λ b. p.update (invoice_by_id id) (updated dto) b.invoices)
    written ← or_throw found record_not_found
    modify (λ b. record b { invoices = written.1 })
    pure written.0

  unfoldable pub update_invoice : ℕ → UpdateManualInvoiceDto → Action Books Error ManualInvoice
  update_invoice id dto = do
    check_amount dto.amount
    before ← gets (λ b. p.find_first (invoice_by_id id) b.invoices)
    row ← or_throw before invoice_not_found
    invoice ← p.transaction (update_body id dto)
    write_audit_log invoice.tenant_id AuditAction.invoice_updated id
    pure invoice
