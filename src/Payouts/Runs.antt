-- ===== src/Payouts/Runs.antt =====
-- Any sequence of calls of the payout service that return, one after the other.
use mathlib.Core.List.{Memᴰ}
use trackora.Base.{
  ℕ, ◌≡◌, ◌≢◌, refl, ◌∙◌, true, some, Ensures-ok, ok, err, All, Ensures, Outcome, ap,
}
use trackora.Prisma.{Prisma}
use trackora.Prisma.Rows.{Unchanged, All-mem}
use trackora.Base.Int.{ℤ}
use trackora.Numbers.{Numbers}
use trackora.Model.{Db, Merchant, Payout}
use trackora.Payouts.Defs.{
  Error, CreatePayoutDto, request_payout, approve, complete, reject, of_user, is_open,
}
use trackora.Payouts.Invariant.{IsValid, total}
use trackora.Payouts.Writes.{Requested, request_payout_lem}
use trackora.Payouts.Safety.{Kept, request_payout-Kept, approve-Kept, complete-Kept, reject-Kept}

module _ (p : Prisma) (n : Numbers) where
  -- One call that returns. The database gives a new payout an id that no payout has, and a payout is
  -- asked for in whole cents.
  pub data Step (s t : Db) : Type 0 where
    request :
        (fresh user : ℕ) (dto : CreatePayoutDto n) (tenant : ℕ) (x : Payout) (c : ℤ)
        → dto.amount ≡ n.of_cents c
        → All (λ (y : Payout). y.id ≢ fresh) s.payouts
        → request_payout p n fresh user dto tenant s ≡ ok x t
        → Step s t
    approval : (id admin tenant : ℕ) (x : Payout) → approve p id admin tenant s ≡ ok x t → Step s t
    completion :
        (now id reference tenant : ℕ) (x : Payout)
        → complete p now id reference tenant s ≡ ok x t
        → Step s t
    rejection : (id tenant : ℕ) (x : Payout) → reject p id tenant s ≡ ok x t → Step s t

  pub data Reach (s : Db) : Db → Type 0 where
    here : Reach s s
    next : {t u : Db} → Reach s t → Step t u → Reach s u

  Step-Kept : (s t : Db) → IsValid s → Step s t → IsValid t × (total t ≡ total s)
  Step-Kept s t v (request fresh user dto tenant x c cents new h) =
      Ensures-ok (Kept s) (Unchanged s) _ h
        (request_payout-Kept p n fresh user dto tenant c s cents v new)
  Step-Kept s t v (approval id admin tenant x h) =
      Ensures-ok (Kept s) (Unchanged s) _ h (approve-Kept p id admin tenant s v)
  Step-Kept s t v (completion now id reference tenant x h) =
      Ensures-ok (Kept s) (Unchanged s) _ h (complete-Kept p now id reference tenant s v)
  Step-Kept s t v (rejection id tenant x h) =
      Ensures-ok (Kept s) (Unchanged s) _ h (reject-Kept p id tenant s v)

  -- From a valid database, after any number of requests of whole cents, approvals, completions and rejections:
  -- no wallet is overdrawn, every wallet holds what was credited less what was debited, no merchant
  -- has two open payouts, and the money in the wallets together with the payouts that are not
  -- rejected is what it was.
  pub Reach-Kept : {s t : Db} → IsValid s → Reach s t → IsValid t × (total t ≡ total s)
  Reach-Kept v here = (v, refl)
  Reach-Kept v (next r st) =
      let (v', e) = Reach-Kept v r in let (v'', e') = Step-Kept _ _ v' st in (v'', e' ∙ e)

  -- A merchant with an open payout is refused another, and nothing changes.
  pub request_payout_twice :
      (fresh user : ℕ) (dto : CreatePayoutDto n) (tenant : ℕ) (db : Db) (m : Merchant) (x : Payout)
      → IsValid db
      → p.find_first (of_user user tenant) db.merchants ≡ some m
      → Memᴰ x db.payouts
      → is_open m.id tenant x ≡ true
      → (e : Error) × (request_payout p n fresh user dto tenant db ≡ err e db)
  request_payout_twice fresh user dto tenant db m x v linked mem is_open_x =
      refused (request_payout p n fresh user dto tenant db)
        (request_payout_lem p n fresh user dto tenant db v.wallet_ids)
    where
      refused :
          (o : Outcome Db Error Payout)
          → Ensures (Requested p n fresh user dto tenant db) (Unchanged db) o
          → (e : Error) × (o ≡ err e db)
      refused (ok y s) r = absurd (
          cc (
            All-mem _ db.payouts (p.find_first-none _ _ r.none_open) mem,
            is_open_x,
            r.is_linked,
            linked,
          ))
      refused (err e s) r = (e, ap (err e) r)
