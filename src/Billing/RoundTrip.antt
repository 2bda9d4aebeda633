-- ===== src/Billing/RoundTrip.antt =====
-- A reader of the CSV that modules/platform/billing/services/platform-billing.service.ts exports, by
-- the rules of RFC 4180 for quoted fields: a field without quotes is empty and stands for no value.
use trackora.Base.{
  ℕ, zero, suc, ◌+◌, ◌<◌, ◌≡◌, refl, ap, sym, ◌∙◌, Bool, true, false, Option, none, some, List, [],
  ◌∷◌, ◌++◌, map, length, append_assoc, ◌==◌, ◌||◌, if◌then◌else◌, Bool-cases, inl, inr, arith,
  ==_iff,
}
use trackora.Billing.Csv.{
  Text, quote, comma, line_feed, InvoiceRow, values_of, columns, doubled, csv_value, join, csv_line,
  to_csv,
}

-- One more character of the field that is read.
abbrev with_char : ℕ → Option (Text × Text) → Option (Text × Text)
with_char c none = none
with_char c (some (t, rest)) = some (c ∷ t, rest)

-- The rest of a quoted field; the flag says that the last character was a quote, which ends the
-- field unless another one follows.
unfoldable read_quoted : Bool → Text → Option (Text × Text)
read_quoted false [] = none
read_quoted true [] = some ([], [])
read_quoted false (c ∷ cs) =
    let at_quote = read_quoted true cs in
    let inside = read_quoted false cs in if c == quote then at_quote else with_char c inside
read_quoted true (c ∷ cs) =
    let inside = read_quoted false cs in
    if c == quote then with_char quote inside else some ([], c ∷ cs)

-- Where a field ends: at the end of the text, a comma or a line feed.
abbrev stops : Text → Bool
stops [] = true
stops (c ∷ cs) = (c == comma) || (c == line_feed)

abbrev as_value : Option (Text × Text) → Option (Option Text × Text)
as_value none = none
as_value (some (t, rest)) = some (some t, rest)

abbrev read_value : Text → Option (Option Text × Text)
read_value [] = some (none, [])
read_value (c ∷ cs) =
    if stops (c ∷ cs)
    then some (none, c ∷ cs)
    else (if c == quote then as_value (read_quoted false cs) else none)

-- After a value: the other values of the line, if a comma follows.
abbrev read_more :
    Option Text
    → Text
    → (Text → Option (List (Option Text) × Text))
    → Option (List (Option Text) × Text)
read_more v [] next = some (v ∷ [], [])
read_more v (c ∷ cs) next =
    if c == comma
    then (elim (next cs) [ none ↦ none | some (vs, rest) ↦ some (v ∷ vs, rest) ])
    else some (v ∷ [], c ∷ cs)

-- The values of a line, on fuel.
unfoldable read_line : ℕ → Text → Option (List (Option Text) × Text)
read_line zero text = none
read_line (suc fuel) text = elim (read_value text) [
  | none ↦ none
  | some (v, rest) ↦ read_more v rest (λ cs. read_line fuel cs)
]

-- The lines, each after a line feed.
unfoldable read_lines : ℕ → Text → Option (List (List (Option Text)))
read_lines zero text = none
read_lines (suc fuel) [] = some []
read_lines (suc fuel) (c ∷ cs) =
    if c == line_feed
    then (elim (read_line fuel cs) [
      | none ↦ none
      | some (vs, rest) ↦ elim (read_lines fuel rest) [ none ↦ none | some ls ↦ some (vs ∷ ls) ]
    ])
    else none

abbrev skip_line : Text → Text
skip_line [] = []
skip_line (c ∷ cs) = let rest = skip_line cs in if c == line_feed then c ∷ cs else rest

-- The lines after the header.
pub read_csv : ℕ → Text → Option (List (List (Option Text)))
read_csv fuel text = read_lines fuel (skip_line text)

read_quoted-doubled :
    (t rest : Text)
    → stops rest ≡ true
    → read_quoted false (doubled t ++ (quote ∷ rest)) ≡ some (t, rest)
unfolding read_quoted
read_quoted-doubled [] [] h = refl
read_quoted-doubled [] (c ∷ cs) h = ground (arith, h)
read_quoted-doubled (c ∷ t) rest h = elim (Bool-cases (c == quote)) [
  | inl e ↦
      rw (e, read_quoted-doubled t rest h)
        (ap (λ k. some (k ∷ t, rest)) (sym ((==_iff c quote).0 e)))
  | inr e ↦ rw (e, e, read_quoted-doubled t rest h) refl
]

read_value-csv_value :
    (v : Option Text) (rest : Text)
    → stops rest ≡ true
    → read_value (csv_value v ++ rest) ≡ some (v, rest)
read_value-csv_value none [] h = refl
read_value-csv_value none (c ∷ cs) h = rw h refl
read_value-csv_value (some t) rest h =
    rw (append_assoc (doubled t) (quote ∷ []) rest, read_quoted-doubled t rest h) refl

-- Where a line ends.
abbrev ends : Text → Bool
ends [] = true
ends (c ∷ cs) = c == line_feed

read_more-ends :
    (v : Option Text) (rest : Text) (next : Text → Option (List (Option Text) × Text))
    → ends rest ≡ true
    → read_more v rest next ≡ some (v ∷ [], rest)
read_more-ends v [] next h = refl
read_more-ends v (c ∷ cs) next h =
    let other : (c == comma) ≡ false = ground (arith, h) in rw other refl

ends-stops : (rest : Text) → ends rest ≡ true → stops rest ≡ true
ends-stops [] h = refl
ends-stops (c ∷ cs) h = ground (arith, h)

read_line-csv_line :
    (fuel : ℕ) (v : Option Text) (vs : List (Option Text)) (rest : Text)
    → ends rest ≡ true
    → length vs < fuel
    → read_line fuel (csv_line (v ∷ vs) ++ rest) ≡ some (v ∷ vs, rest)
unfolding read_line
read_line-csv_line zero v vs rest h l = absurd (omega (arith, l))
read_line-csv_line (suc fuel) v [] rest h l =
    rw (read_line, read_value-csv_value v rest (ends-stops rest h))
      (read_more-ends v rest (λ cs. read_line fuel cs) h)
read_line-csv_line (suc fuel) v (w ∷ vs) rest h l =
    rw
      (
        read_line,
        append_assoc (csv_value v) (comma ∷ csv_line (w ∷ vs)) rest,
        read_value-csv_value v (comma ∷ (csv_line (w ∷ vs) ++ rest)) refl,
        read_line-csv_line fuel w vs rest h (ground (arith, l)),
      )
      refl

-- The lines, each after a line feed.
abbrev lines : List InvoiceRow → Text
lines [] = []
lines (row ∷ rows) = line_feed ∷ (csv_line (values_of row) ++ lines rows)

ends-lines : (rows : List InvoiceRow) → ends (lines rows) ≡ true
ends-lines [] = refl
ends-lines (row ∷ rows) = refl

append-nil : (t : Text) → t ++ [] ≡ t
append-nil [] = refl
append-nil (c ∷ t) = ap (λ r. c ∷ r) (append-nil t)

join-lines :
    (t : Text) (rows : List InvoiceRow)
    → join line_feed (t ∷ map (λ row. csv_line (values_of row)) rows) ≡ t ++ lines rows
join-lines t [] = sym (append-nil t)
join-lines t (row ∷ rows) =
    ap (λ r. t ++ (line_feed ∷ r)) (join-lines (csv_line (values_of row)) rows)

read_lines-lines :
    (fuel : ℕ) (rows : List InvoiceRow)
    → length rows + 10 < fuel
    → read_lines fuel (lines rows) ≡ some (map values_of rows)
unfolding read_lines
read_lines-lines zero rows l = absurd (omega (arith, l))
read_lines-lines (suc fuel) [] l = refl
read_lines-lines (suc fuel) (row ∷ rows) l =
    let bound : 9 < fuel = omega (arith, l) in
    let line : read_line fuel (csv_line (values_of row) ++ lines rows)
        ≡ some (values_of row, lines rows) =
      read_line-csv_line fuel _ _ (lines rows) (ends-lines rows) bound in
    rw (line, read_lines-lines fuel rows (omega (arith, l))) refl

skip_header : (rows : List InvoiceRow) → skip_line (join comma columns ++ lines rows) ≡ lines rows
skip_header [] = refl
skip_header (row ∷ rows) = refl

-- The export reads back: with fuel for the rows and the ten columns, a reader of quoted fields finds
-- in the lines after the header the values of the rows that were exported, whatever quotes, commas
-- and line feeds stand in them, with a missing value told apart from an empty text.
pub read_csv-to_csv :
    (fuel : ℕ) (rows : List InvoiceRow)
    → length rows + 10 < fuel
    → read_csv fuel (to_csv rows) ≡ some (map values_of rows)
unfolding read_csv to_csv
read_csv-to_csv fuel rows l =
    ap (λ t. read_lines fuel (skip_line t)) (join-lines (join comma columns) rows)
    ∙ ap (λ t. read_lines fuel t) (skip_header rows)
    ∙ read_lines-lines fuel rows l
