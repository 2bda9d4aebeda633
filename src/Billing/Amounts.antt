-- ===== src/Billing/Amounts.antt =====
-- Amounts and periods of invoices under `createInvoice` and `updateInvoice` of
-- modules/platform/billing/services/platform-billing.service.ts.
use trackora.Base.{
  ℕ, ◌≡◌, refl, false, Option, none, some, All, Ensures, Ensures-or_throw, Ensures-throw_if,
  Ensures-throw_if_last, Ensures-bind, Ensures-map, Leaves, Leaves-reached, reached, or_else, ◌==◌,
}
use trackora.Base.Int.{ℤ, pos, leb_ℤ}
use trackora.Prisma.{Prisma}
use trackora.Prisma.Rows.{change-All, Unchanged, transaction-Ensures}
use trackora.Subscriptions.Defs.{Tenant}
use trackora.Billing.Invoices.{
  ManualInvoice, Books, CreateManualInvoiceDto, UpdateManualInvoiceDto, is_bad_period,
  invoice_by_id, updated, to_positive_decimal, write_audit_log, create_body, create_invoice,
  update_body, check_amount, update_invoice,
}

-- The amount is positive, and the period does not end before it starts.
abbrev pub IsBilled : ManualInvoice → Type 0
IsBilled i = (leb_ℤ i.amount (pos 0) ≡ false) × (is_bad_period i.period_start i.period_end ≡ false)

abbrev pub AllBilled : Books → Type 0
AllBilled b = All IsBilled b.invoices

abbrev Positive : Option ℤ → Type 0
Positive none = Unit
Positive (some a) = leb_ℤ a (pos 0) ≡ false

updated-IsBilled :
    (dto : UpdateManualInvoiceDto) (i : ManualInvoice)
    → Positive dto.amount
    → IsBilled i
    → IsBilled (updated dto i)
updated-IsBilled dto i h v = (amount dto.amount h, v.1)
  where
    amount : (a : Option ℤ) → Positive a → leb_ℤ (or_else a i.amount) (pos 0) ≡ false
    amount none h = v.0
    amount (some a) h = h

module _ (p : Prisma) where
  create_body-AllBilled :
      (egp fresh : ℕ) (dto : CreateManualInvoiceDto) (b : Books)
      → leb_ℤ dto.amount (pos 0) ≡ false
      → is_bad_period dto.billing_period_start dto.billing_period_end ≡ false
      → AllBilled b
      → Ensures (λ _ b'. AllBilled b') (λ _ _. Unit {0}) (create_body p egp fresh dto b)
  unfolding create_body
  create_body-AllBilled egp fresh dto b positive good v =
      Ensures-or_throw _ _ (p.find_first (λ (t : Tenant). t.id == dto.tenant_id) b.tables.tenants) _
        b _ (λ _. tt) λ tenant _. rw (p.create-eq) ((positive, good), v)

  create_invoice-AllBilled :
      (egp fresh : ℕ) (dto : CreateManualInvoiceDto) (b : Books)
      → AllBilled b
      → Leaves AllBilled (create_invoice p egp fresh dto b)
  unfolding create_invoice write_audit_log
  create_invoice-AllBilled egp fresh dto b v =
      Ensures-throw_if _ _ (is_bad_period dto.billing_period_start dto.billing_period_end) _ b _
        (λ _. v)
        λ good.
          Ensures-bind _ _ (λ _ b'. (b' ≡ b) × (leb_ℤ dto.amount (pos 0) ≡ false))
            (to_positive_decimal dto.amount) _ b
            (Ensures-throw_if _ _ (leb_ℤ dto.amount (pos 0)) _ b _ (λ _. v) (λ e. (refl, e)))
            λ _ b' (same, positive). rw same (
              Ensures-bind _ _ (λ _ b''. AllBilled b'')
                (p.transaction (create_body p egp fresh dto)) _ b
                (Ensures-map _ _ (Unchanged b) _ (p.transaction (create_body p egp fresh dto) b)
                  (λ _ _ h. h) (λ _ _ h. rw h v)
                  (transaction-Ensures p (λ _ b''. AllBilled b'') (create_body p egp fresh dto) b
                    (create_body-AllBilled egp fresh dto b positive good v)))
                λ _ _ h. h)

  update_body-AllBilled :
      (id : ℕ) (dto : UpdateManualInvoiceDto) (b : Books)
      → Positive dto.amount
      → AllBilled b
      → Ensures (λ _ b'. AllBilled b') (λ _ _. Unit {0}) (update_body p id dto b)
  unfolding update_body
  update_body-AllBilled id dto b positive v =
      Ensures-or_throw _ _ (p.find_first (invoice_by_id id) b.invoices) _ b _ (λ _. tt)
        λ row found. rw (p.update-some (invoice_by_id id) (updated dto) b.invoices row found) (
          change-All IsBilled (invoice_by_id id) (updated dto) b.invoices
            (λ i _ _ h. updated-IsBilled dto i positive h) v)

  check_amount-Positive :
      (a : Option ℤ) (b : Books)
      → AllBilled b
      → Ensures (λ _ b'. (b' ≡ b) × Positive a) (λ _ b'. AllBilled b') (check_amount a b)
  check_amount-Positive none b v = (refl, tt)
  check_amount-Positive (some a) b v =
      Ensures-throw_if_last _ _ (leb_ℤ a (pos 0)) _ b (λ _. v) (λ e. (refl, e))

  update_invoice-AllBilled :
      (id : ℕ) (dto : UpdateManualInvoiceDto) (b : Books)
      → AllBilled b
      → Leaves AllBilled (update_invoice p id dto b)
  unfolding update_invoice write_audit_log
  update_invoice-AllBilled id dto b v =
      Ensures-bind _ _ (λ _ b'. (b' ≡ b) × Positive dto.amount) (check_amount dto.amount) _ b
        (check_amount-Positive dto.amount b v)
        λ _ b' (same, positive). rw same (
          Ensures-or_throw _ _ (p.find_first (invoice_by_id id) b.invoices) _ b _ (λ _. v)
            λ row found.
              Ensures-bind _ _ (λ _ b''. AllBilled b'') (p.transaction (update_body p id dto)) _ b
                (Ensures-map _ _ (Unchanged b) _ (p.transaction (update_body p id dto) b)
                  (λ _ _ h. h) (λ _ _ h. rw h v)
                  (transaction-Ensures p (λ _ b''. AllBilled b'') (update_body p id dto) b
                    (update_body-AllBilled id dto b positive v)))
                λ _ _ h. h)

  -- One call, whether it returns or throws.
  pub data Step (b : Books) : Books → Type 0 where
    creation :
        (egp fresh : ℕ) (dto : CreateManualInvoiceDto)
        → Step b (reached (create_invoice p egp fresh dto b))
    edit : (id : ℕ) (dto : UpdateManualInvoiceDto) → Step b (reached (update_invoice p id dto b))

  pub data Reach (b : Books) : Books → Type 0 where
    here : Reach b b
    next : {c d : Books} → Reach b c → Step c d → Reach b d

  Step-AllBilled : {b c : Books} → AllBilled b → Step b c → AllBilled c
  Step-AllBilled {b} v (creation egp fresh dto) =
      Leaves-reached AllBilled _ (create_invoice-AllBilled egp fresh dto b v)
  Step-AllBilled {b} v (edit id dto) =
      Leaves-reached AllBilled _ (update_invoice-AllBilled id dto b v)

  -- From books in which every invoice has a positive amount and a period that does not end before it
  -- starts, that holds after any creations and updates of invoices, whether they return or throw.
  pub Reach-AllBilled : {b c : Books} → AllBilled b → Reach b c → AllBilled c
  Reach-AllBilled v here = v
  Reach-AllBilled v (next r s) = Step-AllBilled (Reach-AllBilled v r) s
