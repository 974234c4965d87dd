-- ===== src/Jobs/Leases.antt =====
-- What claims leave of the rows of an item whose lease lasts.
use reconciliation_workbench.Common.{
  ℕ, zero, suc, ◌+◌, ◌≡◌, ◌≢◌, ◌≤◌, refl, ◌⊎◌, inl, inr, Bool, true, some, ok, List, [], ◌∷◌, All,
  All-update_where_if, Keeps, and_then_keeps, Bool-cases, select, take, ◌==◌, arith, ◌>>=◌, pure,
  leb, sym, ◌∙◌, update_where,
}
use reconciliation_workbench.Workspaces.Tables.{WorkItem, Database, JobKind, JobState}
use reconciliation_workbench.Jobs.Services.{
  ClaimedWork, update_item, leased_row, claim_row, claim_rows, create_attempt, claimable_row,
  candidates, order_by_available, insert_by_available,
}

-- The row is of another item, or leased until the given time.
abbrev pub IsHeldRow : (item until : ℕ) → WorkItem → Type 0
IsHeldRow item until j =
    (j.id ≢ item) ⊎ ((j.state ≡ JobState.leased) × (j.lease_until ≡ some until))

-- Each row of the item is leased until the given time.
abbrev pub IsHeld : (item until : ℕ) → Database → Type 0
IsHeld item until db = All (IsHeldRow item until) db.work_items

-- Each row is of another item.
abbrev pub IsOther : (item : ℕ) → List WorkItem → Type 0
IsOther item rows = All (λ j. j.id ≢ item) rows

module _ {A : Type 0} where
  pub All-take : (P : A → Type 0) (n : ℕ) (xs : List A) → All P xs → All P (take n xs)
  All-take P zero xs h = tt
  All-take P (suc n) [] h = tt
  All-take P (suc n) (x ∷ xs) (h, hs) = (h, All-take P n xs hs)

  pub All-select :
      (P Q : A → Type 0) (q : A → Bool) (xs : List A)
      → ((x : A) → q x ≡ true → P x → Q x)
      → All P xs
      → All Q (select q xs)
  unfolding select
  All-select P Q q [] h k = tt
  All-select P Q q (x ∷ xs) h (k, ks) = elim (Bool-cases (q x)) [
    | inl e ↦ rw e (h x e k, All-select P Q q xs h ks)
    | inr e ↦ rw e (All-select P Q q xs h ks)
  ]

module _ (P : WorkItem → Type 0) where
  All-insert_by_available :
      (i : WorkItem) (is : List WorkItem) → P i → All P is → All P (insert_by_available i is)
  unfolding insert_by_available
  All-insert_by_available i [] h k = (h, tt)
  All-insert_by_available i (j ∷ js) h (k, ks) =
      elim (Bool-cases (leb i.available_at j.available_at)) [
        | inl e ↦ rw e (h, (k, ks))
        | inr e ↦ rw e (k, All-insert_by_available i js h ks)
      ]

  pub All-order_by_available : (is : List WorkItem) → All P is → All P (order_by_available is)
  unfolding order_by_available
  All-order_by_available [] k = tt
  All-order_by_available (i ∷ is) (k, ks) =
      All-insert_by_available i (order_by_available is) k (All-order_by_available is ks)

-- Both outcomes of a claim of one row leave its update in the table.
pub claim_row-items :
    (token now duration : ℕ) (i : WorkItem) (db : Database)
    → (claim_row token now duration i db).1.work_items
      ≡ (update_item i.id (leased_row token (now + duration) now) db).work_items
unfolding claim_row create_attempt
claim_row-items token now duration i db = ground arith

pub claim_row-eq-ok :
    (token now duration : ℕ) (i : WorkItem) (db db' : Database) (work : ClaimedWork)
    → claim_row token now duration i db ≡ (ok work, db')
    → work.work_item.id ≡ i.id
unfolding claim_row create_attempt
claim_row-eq-ok token now duration i db db' work h = ground arith

module _ (item until : ℕ) where
  leased_row-IsHeldRow :
      (token now : ℕ) (w : WorkItem) → IsHeldRow item until (leased_row token until now w)
  leased_row-IsHeldRow token now w = inr (refl, refl)

  pub other-IsHeldRow :
      (k : ℕ) (f : WorkItem → WorkItem) (rows : List WorkItem)
      → k ≢ item
      → ((w : WorkItem) → (f w).id ≡ w.id)
      → All (IsHeldRow item until) rows
      → All (IsHeldRow item until) (update_where (λ w. w.id == k) f rows)
  other-IsHeldRow k f rows other same h =
      All-update_where_if (IsHeldRow item until) _ f rows
        (λ w q held.
          let moved = same w in
          let here : w.id ≡ k = ground arith in inl (λ e. other (sym here ∙ sym moved ∙ e)))
        (λ w q held. held) h

  -- A row of the item that is held cannot be claimed before its lease ends.
  pub held-other :
      (now : ℕ) (j : WorkItem)
      → now ≤ until
      → claimable_row now j ≡ true
      → IsHeldRow item until j
      → j.id ≢ item
  unfolding claimable_row
  held-other now j le claimable (inl other) = other
  held-other now j le claimable (inr (leased, lease)) = absurd (ground arith)

  -- A claim with the same end of its lease holds its rows too.
  pub claim_row-IsHeld :
      (token now duration : ℕ) (i : WorkItem)
      → now + duration ≡ until
      → Keeps (IsHeld item until) (claim_row token now duration i)
  claim_row-IsHeld token now duration i e db h =
      rw (claim_row-items token now duration i db, e)
        (All-update_where_if (IsHeldRow item until) _ _ db.work_items
          (λ w q k. leased_row-IsHeldRow token now w) (λ w q k. k) h)

  pub claim_rows-IsHeld :
      (draw : ℕ → ℕ) (n now duration : ℕ) (is : List WorkItem)
      → now + duration ≡ until
      → Keeps (IsHeld item until) (claim_rows draw n now duration is)
  unfolding claim_rows
  claim_rows-IsHeld draw n now duration [] e db h = h
  claim_rows-IsHeld draw n now duration (i ∷ is) e db h =
      and_then_keeps (IsHeld item until) (claim_row (draw n) now duration i db)
        (λ work. do rest ← claim_rows draw (suc n) now duration is; pure (work ∷ rest))
        (claim_row-IsHeld (draw n) now duration i e db h)
        λ work db' h'.
          and_then_keeps (IsHeld item until) (claim_rows draw (suc n) now duration is db')
            (λ rest. pure (work ∷ rest)) (claim_rows-IsHeld draw (suc n) now duration is e db' h')
            (λ _ _ k. k)

  pub leased_rows-hold :
      (token now k : ℕ) (rows : List WorkItem)
      → k ≡ item
      → All (IsHeldRow item until) (update_where (λ w. w.id == k) (leased_row token until now) rows)
  unfolding update_where
  leased_rows-hold token now k [] same = tt
  leased_rows-hold token now k (w ∷ ws) same = elim (Bool-cases (w.id == k)) [
    | inl e ↦ rw e (leased_row-IsHeldRow token now w, leased_rows-hold token now k ws same)
    | inr e ↦ rw e (inl (ground arith), leased_rows-hold token now k ws same)
  ]

  -- The claim of a row holds each row of that item.
  pub claim_row-holds :
      (token now duration : ℕ) (i : WorkItem) (db : Database)
      → i.id ≡ item
      → now + duration ≡ until
      → IsHeld item until (claim_row token now duration i db).1
  claim_row-holds token now duration i db same e =
      rw (claim_row-items token now duration i db, e)
        (leased_rows-hold token now i.id db.work_items same)

  -- The query of `claim_batch` leaves out the rows that are held.
  pub candidates-IsOther :
      (locked : ℕ → Bool) (kind : JobKind) (now n : ℕ) (db : Database)
      → now ≤ until
      → IsHeld item until db
      → IsOther item (candidates locked kind now n db)
  unfolding candidates
  candidates-IsOther locked kind now n db le h =
      All-take (λ j. j.id ≢ item) n _
        (All-order_by_available (λ j. j.id ≢ item) _
          (All-select (IsHeldRow item until) (λ j. j.id ≢ item) _ db.work_items
            (λ j q k. held-other now j le (ground arith) k) h))
