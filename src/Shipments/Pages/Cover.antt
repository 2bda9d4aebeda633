-- ===== src/Shipments/Pages/Cover.antt =====
-- The pages of `findAllCursor` of modules/shipments/services/shipments.service.ts, one after the
-- other.
use mathlib.Core.List.{Memᴰ}
use trackora.Base.{
  ℕ, zero, suc, ◌+◌, ◌≤◌, ◌<◌, ◌≡◌, ◌≢◌, refl, sym, ap, ◌∙◌, Bool, true, false, ◌↔◌, Option, none,
  some, List, [], ◌∷◌, ◌++◌, length, length-append, take, drop, take-drop, append_assoc, take_whole,
  length-take, take-take, take-last, Option-cases, Bool-cases, inl, inr, ◌==◌, ==_iff, ◌&&◌,
  is_just, ltb, arith,
}
use trackora.Prisma.{Prisma}
use trackora.Prisma.Rows.{IsUnique, All-mem}
use trackora.Model.{Shipment}
use trackora.Shipments.Pages.{
  creation_time, shipment_id, behind, FindMany, last_id, where_of, find_with_cursor, page_of,
  find_all_cursor, all_pages, then_pages,
}

last_id-append : (ys : List Shipment) (x : Shipment) → last_id (ys ++ (x ∷ [])) ≡ some x.id
last_id-append [] x = refl
last_id-append (y ∷ []) x = refl
last_id-append (y ∷ z ∷ ys) x = last_id-append (z ∷ ys) x

Mem-append : (pre rest : List Shipment) (x : Shipment) → Memᴰ x (pre ++ (x ∷ rest))
Mem-append [] rest x = Memᴰ.head refl
Mem-append (y ∷ pre) rest x = Memᴰ.tail (Mem-append pre rest x)

behind-append :
    (pre rest : List Shipment) (x : Shipment)
    → IsUnique shipment_id (pre ++ (x ∷ rest))
    → behind x.id (pre ++ (x ∷ rest)) ≡ rest
behind-append [] rest x u = rw ((==_iff x.id x.id).1 refl) refl
behind-append (y ∷ pre) rest x u =
    let other = All-mem (λ z. z.id ≢ y.id) (pre ++ (x ∷ rest)) u.0 (Mem-append pre rest x) in
    elim (Bool-cases (y.id == x.id)) [
      | inl e ↦ absurd (other (sym ((==_iff y.id x.id).0 e)))
      | inr e ↦ rw e (behind-append pre rest x u.1)
    ]

-- The rows that a query takes are a whole page and one more exactly if there are that many.
full_page :
    (limit : ℕ) (rest : List Shipment)
    → limit < length rest
    → page_of limit (take (suc limit) rest)
      ≡ record { data_of = take limit rest; next_cursor = last_id (take limit rest); limit = limit }
full_page limit rest h =
    rw (length-take (suc limit) rest (ground (arith, h)), take-take limit rest) (ground arith)

last_page :
    (limit : ℕ) (rest : List Shipment)
    → length rest ≤ limit
    → page_of limit (take (suc limit) rest)
      ≡ record { data_of = rest; next_cursor = none; limit = limit }
last_page limit rest h =
    rw (take_whole (suc limit) rest (ground (arith, h)))
      (elim (Bool-cases (ltb limit (length rest))) [
        | inl e ↦ absurd (ground (arith, e, h))
        | inr e ↦ rw e refl
      ])

module _ (p : Prisma) (many : FindMany) (tenant : ℕ) (filters : Shipment → Bool) (n : ℕ)
    (t : List Shipment) (unique : IsUnique shipment_id t) (no_ties : IsUnique creation_time t) where
  abbrev rows : List Shipment
  rows = many.ordered (where_of tenant filters) t

  -- The query from the last row of a page gives the rows behind it.
  find_with_cursor-behind :
      (pre rest : List Shipment) (x : Shipment) (k : ℕ)
      → rows ≡ pre ++ (x ∷ rest)
      → find_with_cursor p many tenant filters (some x.id) k t ≡ take k rest
  unfolding find_with_cursor
  find_with_cursor-behind pre rest x k e =
      elim (Option-cases (p.find_first (λ s. (s.id == x.id) && is_just tenant s.tenant_id) t)) [
        | inl none_found ↦
            let (m, c) =
              many.ordered-Mem (where_of tenant filters) t x (rw e (Mem-append pre rest x)) in
            let off =
              All-mem (λ s. ((s.id == x.id) && is_just tenant s.tenant_id) ≡ false) t
                (p.find_first-none _ t none_found) m in
            absurd (ground (arith, off, (==_iff x.id x.id).1 refl, c))
        | inr (s, found) ↦
            rw
              (
                found,
                find_with_cursor,
                many.find_many-some (where_of tenant filters) x.id k t no_ties,
                e,
                behind-append pre rest x (rw (sym e) (many.ordered-IsUnique _ t unique)),
              )
              refl
      ]

  plus_one : suc n + 1 ≡ suc (suc n)
  plus_one = omega arith

  page_lem :
      (cursor : Option ℕ) (rest : List Shipment)
      → find_with_cursor p many tenant filters cursor (suc n + 1) t ≡ take (suc (suc n)) rest
      → find_all_cursor p many tenant filters cursor (suc n) t
        ≡ page_of (suc n) (take (suc (suc n)) rest)
  unfolding find_all_cursor
  page_lem cursor rest h = ap (page_of (suc n)) h

  abbrev from_next : ℕ → ℕ → Option (List Shipment)
  from_next fuel next = all_pages p many fuel tenant filters (some next) (suc n) t

  -- A page with a next one, before the pages that follow.
  page_before :
      (fuel : ℕ) (cursor : Option ℕ) (rest ys after : List Shipment) (x : Shipment)
      → find_with_cursor p many tenant filters cursor (suc n + 1) t ≡ take (suc (suc n)) rest
      → suc n < length rest
      → take (suc n) rest ≡ ys ++ (x ∷ [])
      → all_pages p many fuel tenant filters (some x.id) (suc n) t ≡ some after
      → all_pages p many (suc fuel) tenant filters cursor (suc n) t
        ≡ some ((ys ++ (x ∷ [])) ++ after)
  unfolding all_pages
  page_before fuel cursor rest ys after x h more last ih =
      ap (λ page. then_pages page (from_next fuel))
        (page_lem cursor rest h ∙ full_page (suc n) rest more)
      ∙ rw (last, last_id-append ys x, then_pages, ih) (ap (λ z. some (z ++ after)) last)

  last_one :
      (fuel : ℕ) (cursor : Option ℕ) (rest : List Shipment)
      → find_with_cursor p many tenant filters cursor (suc n + 1) t ≡ take (suc (suc n)) rest
      → length rest ≤ suc n
      → all_pages p many (suc fuel) tenant filters cursor (suc n) t ≡ some rest
  unfolding all_pages
  last_one fuel cursor rest h done =
      ap (λ page. then_pages page (from_next fuel))
        (page_lem cursor rest h ∙ last_page (suc n) rest done)

  length-drop_lt :
      (k : ℕ) (xs : List Shipment) → suc k ≤ length xs → length (drop (suc k) xs) < length xs
  length-drop_lt k xs h = omega (
    arith,
    length-append (take (suc k) xs) (drop (suc k) xs),
    ap length (take-drop (suc k) xs),
    length-take (suc k) xs h,
    h,
  )

  -- From a query for the rows behind those that are given, the pages that follow.
  rest_of_pages :
      (fuel : ℕ) (cursor : Option ℕ) (pre rest : List Shipment)
      → rows ≡ pre ++ rest
      → find_with_cursor p many tenant filters cursor (suc n + 1) t ≡ take (suc (suc n)) rest
      → length rest < fuel
      → all_pages p many fuel tenant filters cursor (suc n) t ≡ some rest
  rest_of_pages zero cursor pre rest e h l = absurd (ground (arith, l))
  rest_of_pages (suc fuel) cursor pre rest e h l = elim (Bool-cases (ltb (suc n) (length rest))) [
    | inl more ↦
        let lt : suc n < length rest = ground (arith, more) in
        let (ys, x, last) = take-last n rest (omega arith) in
        let after = drop (suc n) rest in
        let whole : rows ≡ (pre ++ (ys ++ (x ∷ []))) ++ after =
          e
          ∙ ap (λ z. pre ++ z) (sym (take-drop (suc n) rest))
          ∙ ap (λ z. pre ++ (z ++ after)) last
          ∙ sym (append_assoc pre (ys ++ (x ∷ [])) after) in
        let from_last =
          find_with_cursor-behind (pre ++ ys) after x (suc n + 1) (
            whole
            ∙ ap (λ z. z ++ after) (sym (append_assoc pre ys (x ∷ [])))
            ∙ append_assoc (pre ++ ys) (x ∷ []) after)
          ∙ ap (λ k. take k after) plus_one in
        let shorter : length after < fuel = omega (arith, length-drop_lt n rest (omega arith), l) in
        page_before fuel cursor rest ys after x h lt last
          (rest_of_pages fuel (some x.id) (pre ++ (ys ++ (x ∷ []))) after whole from_last shorter)
        ∙ ap some (ap (λ z. z ++ after) (sym last) ∙ take-drop (suc n) rest)
    | inr done ↦ last_one fuel cursor rest h (ground (arith, done))
  ]

  -- Where ids are unique, no two shipments were created at one time and a page has room for a row, the
  -- pages, from the first one to the one that names no next, are together the rows of the query in
  -- its order, which are the shipments of the tenant that match the filters: none is left out or
  -- given twice, and there are no more pages than rows and one.
  pub all_pages-ordered :
      (all_pages p many (suc (length rows)) tenant filters none (suc n) t ≡ some rows)
      × ((x : Shipment) → Memᴰ x rows ↔ (Memᴰ x t × (where_of tenant filters x ≡ true)))
      × IsUnique shipment_id rows
  unfolding find_with_cursor
  all_pages-ordered = (
    rest_of_pages (suc (length rows)) none [] rows refl
        (many.find_many-none (where_of tenant filters) (suc n + 1) t no_ties
          ∙ ap (λ k. take k rows) plus_one)
        (omega arith),
    λ x. (
      many.ordered-Mem (where_of tenant filters) t x,
      λ m. many.Mem-ordered (where_of tenant filters) t x m.0 m.1,
    ),
    many.ordered-IsUnique (where_of tenant filters) t unique,
  )
