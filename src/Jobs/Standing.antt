-- ===== src/Jobs/Standing.antt =====
-- What a row of claims leaves of an item whose lease lasts.
use reconciliation_workbench.Common.{
  ℕ, suc, ◌+◌, ◌≡◌, ◌≢◌, ◌≤◌, refl, inl, inr, Bool, true, Option, some, ok, List, [], ◌∷◌, All-find,
  Keeps, and_then_keeps, ◌∙◌, atomic-Keeps, Option-cases, Bool-cases, find, find-eq-some, ◌==◌,
  ◌&&◌, not, arith, ◌>>=◌, pure, any_of,
}
use reconciliation_workbench.Workspaces.Tables.{WorkItem, Database, JobKind, item_of}
use reconciliation_workbench.Jobs.Services.{
  ClaimedWork, update_item, leased_row, claim_row, claim_rows, claimable_row, candidates,
  claim_batch, claim_one, claim_found,
}
use reconciliation_workbench.Jobs.Rows.{item_of-update_item}
use reconciliation_workbench.Jobs.Leases.{
  IsHeld, IsHeldRow, IsOther, held-other, claim_row-items, candidates-IsOther, other-IsHeldRow,
}

-- A call of either kind has claimed the item, with a lease that ends at the given time.
pub data Claimed (item until : ℕ) (db db' : Database) : Type 0 where
  one :
      (locked : ℕ → Bool) (token now duration : ℕ) (work : ClaimedWork)
      → now + duration ≡ until
      → claim_one locked token item now duration db ≡ (ok (some work), db')
      → Claimed item until db db'
  batch :
      (locked : ℕ → Bool) (draw : ℕ → ℕ) (kind : JobKind) (now duration batch_size : ℕ)
      (works : List ClaimedWork)
      → now + duration ≡ until
      → claim_batch locked draw kind now duration batch_size db ≡ (ok works, db')
      → any_of (λ w. w.work_item.id == item) works ≡ true
      → Claimed item until db db'

-- Claims of any items, in any order, none of them later than the given time.
pub data Claims (until : ℕ) (db : Database) : Database → Type 0 where
  here : Claims until db db
  one :
      {db' db'' : Database}
      → Claims until db db'
      → (locked : ℕ → Bool) (token item now duration : ℕ) → now ≤ until
      → db'' ≡ (claim_one locked token item now duration db').1
      → Claims until db db''
  batch :
      {db' db'' : Database}
      → Claims until db db'
      → (locked : ℕ → Bool) (draw : ℕ → ℕ) (kind : JobKind) (now duration batch_size : ℕ)
      → now ≤ until
      → db'' ≡ (claim_batch locked draw kind now duration batch_size db').1
      → Claims until db db''

-- An update of another item leaves the row of this one.
item_of-update_other :
    (item k : ℕ) (f : WorkItem → WorkItem) (db : Database)
    → k ≢ item
    → ((w : WorkItem) → (f w).id ≡ w.id)
    → item_of item (update_item k f db) ≡ item_of item db
unfolding item_of
item_of-update_other item k f db other same =
    let moved = item_of-update_item item k f db same in
    elim (Option-cases (item_of item db)) [
      | inl e ↦ ground arith
      | inr (w, e) ↦
          let own = find-eq-some (λ w. w.id == item) db.work_items w e in
          elim (Bool-cases (w.id == k)) [
            | inl q ↦ absurd (other (ground arith))
            | inr q ↦ ground arith
          ]
    ]

module _ (item until : ℕ) (row : Option WorkItem) where
  -- The rows of the item are held, and the query for it answers the same row as before.
  pub record Stands (db : Database) : Type 0 where
    pub held : IsHeld item until db
    pub same : item_of item db ≡ row

  -- A claim of another item's row touches no row of this one.
  claim_row-Stands :
      (token now duration : ℕ) (i : WorkItem)
      → i.id ≢ item
      → Keeps Stands (claim_row token now duration i)
  unfolding item_of
  claim_row-Stands token now duration i other db h = record {
    held = rw (claim_row-items token now duration i db) (
        other-IsHeldRow item until i.id (leased_row token (now + duration) now) db.work_items other
          (λ w. refl) h.held);
    same = rw (claim_row-items token now duration i db) (
        item_of-update_other item i.id (leased_row token (now + duration) now) db other (λ w. refl)
        ∙ h.same);
  }

  claim_rows-Stands :
      (draw : ℕ → ℕ) (n now duration : ℕ) (is : List WorkItem)
      → IsOther item is
      → Keeps Stands (claim_rows draw n now duration is)
  unfolding claim_rows
  claim_rows-Stands draw n now duration [] other db h = h
  claim_rows-Stands draw n now duration (i ∷ is) (other, others) db h =
      and_then_keeps Stands (claim_row (draw n) now duration i db)
        (λ work. do rest ← claim_rows draw (suc n) now duration is; pure (work ∷ rest))
        (claim_row-Stands (draw n) now duration i other db h)
        λ work db' h'.
          and_then_keeps Stands (claim_rows draw (suc n) now duration is db')
            (λ rest. pure (work ∷ rest))
            (claim_rows-Stands draw (suc n) now duration is others db' h') (λ _ _ k. k)

  claim_batch-Stands :
      (locked : ℕ → Bool) (draw : ℕ → ℕ) (kind : JobKind) (now duration n : ℕ)
      → now ≤ until
      → Keeps Stands (claim_batch locked draw kind now duration n)
  unfolding claim_batch
  claim_batch-Stands locked draw kind now duration n le =
      atomic-Keeps Stands
        (λ db. claim_rows draw 0 now duration (candidates locked kind now n db) db)
        (λ db h.
          claim_rows-Stands draw 0 now duration _
            (candidates-IsOther item until locked kind now n db le h.held) db h)

  claim_found-Stands :
      (locked : ℕ → Bool) (token k now duration : ℕ) (db : Database)
      → now ≤ until
      → Stands db
      → Stands
          (claim_found token now duration
            (find (λ i. i.id == k && not (locked i.id) && claimable_row now i) db.work_items)
            db).1
  unfolding claim_found
  claim_found-Stands locked token k now duration db le h =
      elim (Option-cases
        (find (λ i. i.id == k && not (locked i.id) && claimable_row now i) db.work_items)) [
          | inl e ↦ rw e h
          | inr (i, e) ↦
              let claimable = find-eq-some _ db.work_items i e in
              rw e (
                and_then_keeps Stands (claim_row token now duration i db) (λ work. pure (some work))
                  (claim_row-Stands token now duration i
                    (held-other item until now i le (ground arith)
                      (All-find (IsHeldRow item until) _ db.work_items i h.held e))
                    db h)
                  (λ _ _ k. k))
        ]

  claim_one-Stands :
      (locked : ℕ → Bool) (token k now duration : ℕ)
      → now ≤ until
      → Keeps Stands (claim_one locked token k now duration)
  unfolding claim_one
  claim_one-Stands locked token k now duration le =
      atomic-Keeps Stands
        (λ db.
          claim_found token now duration
            (find (λ i. i.id == k && not (locked i.id) && claimable_row now i) db.work_items) db)
        (λ db. claim_found-Stands locked token k now duration db le)

  pub Claims-Stands : {db db' : Database} → Claims until db db' → Stands db → Stands db'
  Claims-Stands Claims.here h = h
  Claims-Stands (Claims.one c locked token k now duration le e) h =
      rw e (claim_one-Stands locked token k now duration le _ (Claims-Stands c h))
  Claims-Stands (Claims.batch c locked draw kind now duration n le e) h =
      rw e (claim_batch-Stands locked draw kind now duration n le _ (Claims-Stands c h))
