-- ===== src/Jobs/Exclusion.antt =====
-- A claim excludes every other claim of its item until its lease ends.
use reconciliation_workbench.Common.{
  ℕ, suc, ◌+◌, ◌≡◌, ◌≢◌, ◌≤◌, refl, inl, inr, Bool, true, some, none, Result, ok, raise, List, [],
  ◌∷◌, All, All-find, ◌∙◌, sym, ap, and_then, Option-cases, Bool-cases, find, find-eq-some, ◌==◌,
  ◌&&◌, not, arith, ◌>>=◌, pure, any_of, settle, Action, subst, and_then-eq-ok, settle-eq-ok,
}
use reconciliation_workbench.Workspaces.Tables.{WorkItem, Database, JobKind, item_of}
use reconciliation_workbench.Jobs.Services.{
  ClaimedWork, claim_row, claim_rows, claimable_row, candidates, claim_batch, claim_one,
}
use reconciliation_workbench.Jobs.Claims.{claim_one-eq-some, claim_one-none}
use reconciliation_workbench.Jobs.Leases.{
  IsHeld, IsHeldRow, IsOther, held-other, claim_row-eq-ok, claim_rows-IsHeld, claim_row-holds,
  candidates-IsOther, leased_rows-hold,
}
use reconciliation_workbench.Jobs.Standing.{Claimed, Claims, Claims-Stands}

-- None of the work that the call returned is of the item.
abbrev pub Spares : (item : ℕ) → Result (List ClaimedWork) → Type 0
Spares item (ok works) = All (λ w. w.work_item.id ≢ item) works
Spares item (raise e) = Unit

module _ (item until : ℕ) where
  -- A call for an item that is held returns nothing.
  claim_one-held :
      (locked : ℕ → Bool) (token now duration : ℕ) (db : Database)
      → now ≤ until
      → IsHeld item until db
      → claim_one locked token item now duration db ≡ (ok none, db)
  claim_one-held locked token now duration db le h =
      elim (Option-cases
        (find (λ i. i.id == item && not (locked i.id) && claimable_row now i) db.work_items)) [
          | inl e ↦ claim_one-none locked token item now duration db e
          | inr (i, e) ↦
              let claimable = find-eq-some _ db.work_items i e in
              absurd (
                held-other item until now i le (ground arith)
                  (All-find (IsHeldRow item until) _ db.work_items i h e) (ground arith))
        ]

  work-Spares :
      (token now duration : ℕ) (i : WorkItem) (m : Result ClaimedWork × Database)
      (k : Action Database (List ClaimedWork))
      → ((work : ClaimedWork) (db' : Database) → m ≡ (ok work, db') → work.work_item.id ≡ i.id)
      → i.id ≢ item
      → ((db : Database) → Spares item (k db).0)
      → Spares item (and_then m (λ work. do rest ← k; pure (work ∷ rest))).0
  work-Spares token now duration i (raise e, db) k named other rest = tt
  work-Spares token now duration i (ok work, db) k named other rest = after (k db) (rest db)
    where
      after :
          (r : Result (List ClaimedWork) × Database)
          → Spares item r.0
          → Spares item (and_then r (λ rest. pure (work ∷ rest))).0
      after (raise e, db') h = tt
      after (ok works, db') h = (λ e. other (sym (named work db refl) ∙ e), h)

  claim_rows-Spares :
      (draw : ℕ → ℕ) (n now duration : ℕ) (is : List WorkItem) (db : Database)
      → IsOther item is
      → Spares item (claim_rows draw n now duration is db).0
  unfolding claim_rows
  claim_rows-Spares draw n now duration [] db other = tt
  claim_rows-Spares draw n now duration (i ∷ is) db (other, others) =
      work-Spares (draw n) now duration i (claim_row (draw n) now duration i db)
        (claim_rows draw (suc n) now duration is)
        (λ work db' e. claim_row-eq-ok (draw n) now duration i db db' work e) other
        (λ db'. claim_rows-Spares draw (suc n) now duration is db' others)

  settle-Spares :
      (db : Database) (r : Result (List ClaimedWork) × Database)
      → Spares item r.0
      → Spares item (settle db r).0
  settle-Spares db (ok works, db') h = h
  settle-Spares db (raise e, db') h = tt

  claim_batch-held :
      (locked : ℕ → Bool) (draw : ℕ → ℕ) (kind : JobKind) (now duration n : ℕ) (db : Database)
      → now ≤ until
      → IsHeld item until db
      → Spares item (claim_batch locked draw kind now duration n db).0
  unfolding claim_batch
  claim_batch-held locked draw kind now duration n db le h = settle-Spares db _ (
      claim_rows-Spares draw 0 now duration _ db
        (candidates-IsOther item until locked kind now n db le h))

  claim_rows-holds :
      (draw : ℕ → ℕ) (n now duration : ℕ) (is : List WorkItem) (db db' : Database)
      (works : List ClaimedWork)
      → now + duration ≡ until
      → claim_rows draw n now duration is db ≡ (ok works, db')
      → any_of (λ w. w.work_item.id == item) works ≡ true
      → IsHeld item until db'
  unfolding claim_rows
  claim_rows-holds draw n now duration [] db db' works e h has = absurd (ground arith)
  claim_rows-holds draw n now duration (i ∷ is) db db' works e h has =
      let (work, db₁, first, others) =
        and_then-eq-ok (claim_row (draw n) now duration i db)
          (λ work. do rest ← claim_rows draw (suc n) now duration is; pure (work ∷ rest)) works db'
          h in
      let (rest, db₂, second, last) =
        and_then-eq-ok (claim_rows draw (suc n) now duration is db₁) (λ rest. pure (work ∷ rest))
          works db' others in
      let named = claim_row-eq-ok (draw n) now duration i db db₁ work first in
      let second' : claim_rows draw (suc n) now duration is db₁ ≡ (ok rest, db') = ground arith in
      elim (Bool-cases (i.id == item)) [
        | inl q ↦
            let kept = claim_rows-IsHeld item until draw (suc n) now duration is e db₁ (
              subst (IsHeld item until) (ap (λ r. r.1) first)
                (claim_row-holds item until (draw n) now duration i db (ground arith) e)) in
            subst (IsHeld item until) (ap (λ r. r.1) second') kept
        | inr q ↦
            claim_rows-holds draw (suc n) now duration is db₁ db' rest e second' (ground arith)
      ]

  claim_one-holds :
      (locked : ℕ → Bool) (token now duration : ℕ) (work : ClaimedWork) (db db' : Database)
      → now + duration ≡ until
      → claim_one locked token item now duration db ≡ (ok (some work), db')
      → IsHeld item until db'
  claim_one-holds locked token now duration work db db' e h =
      let (i, found, _, after, _) =
        claim_one-eq-some locked token item now duration db db' work h in
      let same : i.id ≡ item = ground (arith, find-eq-some _ db.work_items i found) in
      rw (after, e) (leased_rows-hold item until token now i.id db.work_items same)

  claim_batch-holds :
      (locked : ℕ → Bool) (draw : ℕ → ℕ) (kind : JobKind) (now duration n : ℕ)
      (works : List ClaimedWork) (db db' : Database)
      → now + duration ≡ until
      → claim_batch locked draw kind now duration n db ≡ (ok works, db')
      → any_of (λ w. w.work_item.id == item) works ≡ true
      → IsHeld item until db'
  unfolding claim_batch
  claim_batch-holds locked draw kind now duration n works db db' e h has =
      claim_rows-holds draw 0 now duration (candidates locked kind now n db) db db' works e
        (settle-eq-ok db _ works db' h) has

  Claimed-IsHeld : {db db' : Database} → Claimed item until db db' → IsHeld item until db'
  Claimed-IsHeld (Claimed.one locked token now duration work e h) =
      claim_one-holds locked token now duration work _ _ e h
  Claimed-IsHeld (Claimed.batch locked draw kind now duration n works e h has) =
      claim_batch-holds locked draw kind now duration n works _ _ e h has

-- Once a call of either kind has claimed an item, and after any row of other claims none of which is
-- later than the end of that lease, the row of the item is still the one that the claim left, and
-- neither kind of call, at a time not later than that end, claims the item: the call for the item
-- returns nothing and changes nothing, and no work that a batch returns is of the item.
pub lease_exclusive :
    (item until : ℕ) (locked : ℕ → Bool) (draw : ℕ → ℕ) (kind : JobKind)
    (token now duration batch_size : ℕ) (db db' db'' : Database)
    → Claimed item until db db'
    → Claims until db' db''
    → now ≤ until
    → (item_of item db'' ≡ item_of item db')
      × (claim_one locked token item now duration db'' ≡ (ok none, db''))
      × Spares item (claim_batch locked draw kind now duration batch_size db'').0
lease_exclusive item until locked draw kind token now duration batch_size db db' db'' c cs le =
    let stands =
      Claims-Stands item until (item_of item db') cs
        (record { held = Claimed-IsHeld item until c; same = refl }) in
    (
      stands.same,
      claim_one-held item until locked token now duration db'' le stands.held,
      claim_batch-held item until locked draw kind now duration batch_size db'' le stands.held,
    )
