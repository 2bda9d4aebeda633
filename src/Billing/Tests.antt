-- ===== src/Billing/Tests.antt =====
-- An invoice, and the export of a row with a quote and a comma in its name.
use trackora.Base.{◌≡◌, false, none, some, [], ◌∷◌, reached, arith}
use trackora.Base.Int.{pos}
use trackora.Prisma.Memory.{memory}
use trackora.Model.Enums.{PaymentStatus}
use trackora.Billing.Csv.{InvoiceRow, values_of, to_csv}
use trackora.Billing.RoundTrip.{read_csv, read_csv-to_csv}
use trackora.Billing.Invoices.{
  Books, CreateManualInvoiceDto, UpdateManualInvoiceDto, create_invoice, update_invoice,
}
use trackora.Billing.Amounts.{AllBilled, here, next, creation, edit, Reach-AllBilled}

-- The name is `a"b,c`.
abbrev exported : InvoiceRow
exported = record {
  tenant_id = 49 ∷ [];
  tenant_name = 97 ∷ 34 ∷ 98 ∷ 44 ∷ 99 ∷ [];
  tenant_slug = [];
  plan_name = none;
  billing_period_start = none;
  billing_period_end = some (50 ∷ 10 ∷ []);
  amount = 53 ∷ [];
  currency = 69 ∷ 71 ∷ 80 ∷ [];
  status = 80 ∷ [];
  renewal_date = none;
}

read_csv-to_csv_example :
    read_csv 13 (to_csv (exported ∷ exported ∷ []))
    ≡ some (values_of exported ∷ values_of exported ∷ [])
read_csv-to_csv_example = read_csv-to_csv 13 (exported ∷ exported ∷ []) (omega arith)

abbrev books : Books
books = record {
  tables = record {
    tenants = record { id = 5; is_cancelled = false; current_plan_id = none } ∷ [];
    plans = [];
    subscriptions = [];
  };
  invoices = [];
  audit_logs = [];
}

abbrev may : CreateManualInvoiceDto
may = record {
  tenant_id = 5;
  amount = pos 10000;
  currency = none;
  billing_period_start = some 10;
  billing_period_end = some 20;
  due_date = none;
}

abbrev settled : UpdateManualInvoiceDto
settled = record {
  amount = some (pos 9000);
  status = none;
  payment_status = some PaymentStatus.paid;
  due_date = none;
  paid_at = some 30;
}

abbrev created : Books
created = reached (create_invoice memory 1 7 may books)

Reach-AllBilled_example : AllBilled (reached (update_invoice memory 7 settled created))
Reach-AllBilled_example =
    Reach-AllBilled memory {b = books} tt (next (next here (creation 1 7 may)) (edit 7 settled))
