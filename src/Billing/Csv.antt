-- ===== src/Billing/Csv.antt =====
-- `exportInvoices` of modules/platform/billing/services/platform-billing.service.ts as CSV: `toCsv`
-- and `csvValue`. A text is the list of its UTF-16 code units, and a date stands as `toISOString`
-- writes it.
use trackora.Base.{ℕ, Option, none, some, List, [], ◌∷◌, ◌++◌, map, ◌==◌, if◌then◌else◌}

abbrev pub Text : Type 0
Text = List ℕ

-- The characters `"`, `,` and the line feed.
abbrev pub quote : ℕ
quote = 34

abbrev pub comma : ℕ
comma = 44

abbrev pub line_feed : ℕ
line_feed = 10

pub record InvoiceRow : Type 0 where
  pub tenant_id : Text
  pub tenant_name : Text
  pub tenant_slug : Text
  pub plan_name : Option Text
  pub billing_period_start : Option Text
  pub billing_period_end : Option Text
  pub amount : Text
  pub currency : Text
  pub status : Text
  pub renewal_date : Option Text

-- `row[column]` for the columns in their order.
abbrev pub values_of : InvoiceRow → List (Option Text)
values_of row =
    some row.tenant_id
    ∷ some row.tenant_name
    ∷ some row.tenant_slug
    ∷ row.plan_name
    ∷ row.billing_period_start
    ∷ row.billing_period_end
    ∷ some row.amount
    ∷ some row.currency
    ∷ some row.status
    ∷ row.renewal_date
    ∷ []

abbrev pub columns : List Text
columns =
    (116 ∷ 101 ∷ 110 ∷ 97 ∷ 110 ∷ 116 ∷ 73 ∷ 100 ∷ [])
    ∷ (116 ∷ 101 ∷ 110 ∷ 97 ∷ 110 ∷ 116 ∷ 78 ∷ 97 ∷ 109 ∷ 101 ∷ [])
    ∷ (116 ∷ 101 ∷ 110 ∷ 97 ∷ 110 ∷ 116 ∷ 83 ∷ 108 ∷ 117 ∷ 103 ∷ [])
    ∷ (112 ∷ 108 ∷ 97 ∷ 110 ∷ 78 ∷ 97 ∷ 109 ∷ 101 ∷ [])
    ∷ (98 ∷ 105 ∷ 108 ∷ 108 ∷ 105 ∷ 110 ∷ 103 ∷ 80 ∷ 101 ∷ 114 ∷ 105 ∷ 111 ∷ 100 ∷ 83 ∷ 116 ∷ 97
        ∷ 114 ∷ 116 ∷ [])
    ∷ (98 ∷ 105 ∷ 108 ∷ 108 ∷ 105 ∷ 110 ∷ 103 ∷ 80 ∷ 101 ∷ 114 ∷ 105 ∷ 111 ∷ 100 ∷ 69 ∷ 110 ∷ 100
        ∷ [])
    ∷ (97 ∷ 109 ∷ 111 ∷ 117 ∷ 110 ∷ 116 ∷ [])
    ∷ (99 ∷ 117 ∷ 114 ∷ 114 ∷ 101 ∷ 110 ∷ 99 ∷ 121 ∷ [])
    ∷ (115 ∷ 116 ∷ 97 ∷ 116 ∷ 117 ∷ 115 ∷ [])
    ∷ (114 ∷ 101 ∷ 110 ∷ 101 ∷ 119 ∷ 97 ∷ 108 ∷ 68 ∷ 97 ∷ 116 ∷ 101 ∷ [])
    ∷ []

-- `value.replace(/"/g, '""')`
abbrev pub doubled : Text → Text
doubled [] = []
doubled (c ∷ cs) = let rest = doubled cs in if c == quote then quote ∷ quote ∷ rest else c ∷ rest

abbrev pub csv_value : Option Text → Text
csv_value none = []
csv_value (some text) = quote ∷ (doubled text ++ (quote ∷ []))

-- `texts.join(separator)`
abbrev pub join : ℕ → List Text → Text
join separator [] = []
join separator (t ∷ []) = t
join separator (t ∷ u ∷ ts) = t ++ (separator ∷ join separator (u ∷ ts))

abbrev pub csv_line : List (Option Text) → Text
csv_line values = join comma (map csv_value values)

unfoldable pub to_csv : List InvoiceRow → Text
to_csv rows = join line_feed (join comma columns ∷ map (λ row. csv_line (values_of row)) rows)
