-- ===== src/Jobs/ClaimConstraints.antt =====
-- Updates of the job tables and claims keep the constraints.
use reconciliation_workbench.Common.{
  modify, ◌≢◌, false, guard, is_none, ◌+◌, ◌&&◌, not, ℕ, suc, ◌≡◌, refl, Bool, true, Option, some,
  none, Error, arith, inl, inr, List, [], ◌∷◌, All-append, All-update_where, Keeps, and_then_keeps,
  ◌>>=◌, atomic-Keeps, ltb, Bool-cases, find, ◌==◌, pure, All, All-weaken, All-both,
  All-update_where_if, find-append, find-update_where, update_where, map_option, ◌<◌, ◌++◌,
  if◌then◌else◌,
}
use reconciliation_workbench.Workspaces.Domain.{QuotaAmounts}
use reconciliation_workbench.Workspaces.Tables.{
  WorkItem, JobAttempt, Database, JobKind, JobState, attempt_of, lease_shape, attempt_shape,
}
use reconciliation_workbench.Jobs.Services.{
  update_item, write_attempt, is_shaped, leased_row, finished_row, create_attempt, granted,
  claim_row, claim_rows, claim_batch, claim_one, claimable_row, claim_found, candidates,
}
use reconciliation_workbench.Jobs.Constraints.{IsItem, IsGrant, IsOnly, IsSound}

module _ (limits : QuotaAmounts) where
  pub update_item-Keeps :
      (i : ℕ) (f : WorkItem → WorkItem)
      → ((w : WorkItem) → IsItem w → IsItem (f w))
      → Keeps (IsSound limits) (modify (update_item i f))
  update_item-Keeps i f keep db h = record {
    items = All-update_where IsItem _ f db.work_items keep h.items;
    workspaces = h.workspaces;
    grants = h.grants;
    tokens = h.tokens;
  }

  find-update_token :
      (k t : ℕ) (f : JobAttempt → JobAttempt) (rows : List JobAttempt)
      → ((a : JobAttempt) → (f a).token ≡ a.token)
      → find (λ b. b.token == k) (update_where (λ b. b.token == t) f rows)
        ≡ map_option (λ b. if b.token == t then f b else b) (find (λ b. b.token == k) rows)
  find-update_token k t f rows same =
      find-update_where (λ b. b.token == k) (λ b. b.token == t) f rows (λ b. rw (same b))

  -- The rows of a token that an update leaves are the only ones with their tokens.
  update-IsOnly :
      (t : ℕ) (f : JobAttempt → JobAttempt) (rows : List JobAttempt)
      → ((a : JobAttempt) → (f a).token ≡ a.token)
      → All (IsOnly rows) rows
      → All
          (IsOnly (update_where (λ a. a.token == t) f rows))
          (update_where (λ a. a.token == t) f rows)
  update-IsOnly t f rows same =
      All-update_where_if (IsOnly rows) _ f rows
        (λ a q only. ground (arith, find-update_token a.token t f rows same, same a))
        (λ a q only. ground (arith, find-update_token a.token t f rows same, same a))

  -- An update of a token's attempt is refused, or leaves a row of the required shape.
  pub write_attempt-Keeps :
      (t : ℕ) (f : JobAttempt → JobAttempt)
      → ((a : JobAttempt) → (f a).token ≡ a.token)
      → ((a : JobAttempt) → a.leased_at < a.lease_until → (f a).leased_at < (f a).lease_until)
      → Keeps (IsSound limits) (write_attempt t f)
  unfolding write_attempt attempt_of
  write_attempt-Keeps t f same lease db h =
      elim (Bool-cases (is_shaped (map_option f (attempt_of t db)))) [
        | inr bad ↦ rw (bad, guard) h
        | inl good ↦
            rw (good, guard)
              (record {
                items = h.items;
                workspaces = h.workspaces;
                grants =
                    All-update_where_if (λ a. IsGrant a × IsOnly db.job_attempts a) _ f
                      db.job_attempts
                      (λ a q (g, only). record { lease = lease a g.lease; outcome = ground arith })
                      (λ a q (g, only). g)
                      (All-both IsGrant (IsOnly db.job_attempts) db.job_attempts h.grants h.tokens);
                tokens = update-IsOnly t f db.job_attempts same h.tokens;
              })
      ]

  pub leased_row-IsItem :
      (token lease_until now : ℕ) (w : WorkItem)
      → IsItem w
      → IsItem (leased_row token lease_until now w)
  unfolding lease_shape
  leased_row-IsItem token lease_until now w h = record { lease = refl; target = h.target }

  pub finished_row-IsItem :
      (state : JobState) (at now : ℕ) (w : WorkItem)
      → state ≢ JobState.leased
      → IsItem w
      → IsItem (finished_row state at now w)
  unfolding lease_shape
  finished_row-IsItem state at now w other h = record { lease = ground arith; target = h.target }

  pub guard-Keeps : (b : Bool) (e : Error) → Keeps (IsSound limits) (guard b e)
  guard-Keeps true e db h = h
  guard-Keeps false e db h = h

  granted-IsGrant :
      (token now lease_until : ℕ) (item : WorkItem)
      → now < lease_until
      → IsGrant (granted token now lease_until item)
  unfolding attempt_shape
  granted-IsGrant token now lease_until item later = record { lease = later; outcome = refl }

  -- A row with a new token, and the rows before it, are the only ones with their tokens.
  append-IsOnly :
      (a : JobAttempt) (rows : List JobAttempt)
      → is_none (find (λ b. b.token == a.token) rows) ≡ true
      → All (IsOnly rows) rows
      → All (IsOnly (rows ++ a ∷ [])) (rows ++ a ∷ [])
  unfolding find
  append-IsOnly a rows free only =
      All-append (IsOnly (rows ++ a ∷ [])) rows (a ∷ [])
        (All-weaken (IsOnly rows) rows
          (λ b e. ground (arith, find-append (λ c. c.token == b.token) rows (a ∷ []))) only)
        (ground (arith, find-append (λ c. c.token == a.token) rows (a ∷ [])), tt)

  pub create_attempt-Keeps :
      (item : WorkItem) (token now lease_until : ℕ)
      → Keeps (IsSound limits) (create_attempt item token now lease_until)
  unfolding create_attempt attempt_of
  create_attempt-Keeps item token now lease_until db h =
      elim (Bool-cases (is_none (attempt_of token db))) [
        | inr used ↦ rw (used, guard) h
        | inl free ↦ elim (Bool-cases (ltb now lease_until)) [
          | inr early ↦ rw (free, early, guard) h
          | inl later ↦
              rw (free, later, guard)
                (record {
                  items = h.items;
                  workspaces = h.workspaces;
                  grants =
                      All-append IsGrant db.job_attempts (granted token now lease_until item ∷ [])
                        h.grants (granted-IsGrant token now lease_until item (ground arith), tt);
                  tokens =
                      append-IsOnly (granted token now lease_until item) db.job_attempts free
                        h.tokens;
                })
        ]
      ]

  pub claim_row-state :
      (token now lease_duration : ℕ) (i : WorkItem) (db : Database)
      → (claim_row token now lease_duration i db).1
        ≡ (create_attempt i token now
            (now + lease_duration)
            (update_item i.id (leased_row token (now + lease_duration) now) db)).1
  unfolding claim_row
  claim_row-state token now lease_duration i db = ground arith

  pub claim_row-Keeps :
      (token now lease_duration : ℕ) (i : WorkItem)
      → Keeps (IsSound limits) (claim_row token now lease_duration i)
  claim_row-Keeps token now lease_duration i db h =
      rw (claim_row-state token now lease_duration i db) (
        create_attempt-Keeps i token now (now + lease_duration) _
          (update_item-Keeps i.id _ (leased_row-IsItem token (now + lease_duration) now) db h))

  pub claim_rows-Keeps :
      (draw : ℕ → ℕ) (n now lease_duration : ℕ) (is : List WorkItem)
      → Keeps (IsSound limits) (claim_rows draw n now lease_duration is)
  unfolding claim_rows
  claim_rows-Keeps draw n now lease_duration [] db h = h
  claim_rows-Keeps draw n now lease_duration (i ∷ is) db h =
      and_then_keeps (IsSound limits) (claim_row (draw n) now lease_duration i db)
        (λ work. do rest ← claim_rows draw (suc n) now lease_duration is; pure (work ∷ rest))
        (claim_row-Keeps (draw n) now lease_duration i db h)
        λ work db' h'.
          and_then_keeps (IsSound limits) (claim_rows draw (suc n) now lease_duration is db')
            (λ rest. pure (work ∷ rest))
            (claim_rows-Keeps draw (suc n) now lease_duration is db' h') (λ _ _ k. k)

  pub claim_batch-Keeps :
      (locked : ℕ → Bool) (draw : ℕ → ℕ) (kind : JobKind) (now lease_duration batch_size : ℕ)
      → Keeps (IsSound limits) (claim_batch locked draw kind now lease_duration batch_size)
  unfolding claim_batch
  claim_batch-Keeps locked draw kind now lease_duration batch_size =
      atomic-Keeps (IsSound limits)
        (λ db. claim_rows draw 0 now lease_duration (candidates locked kind now batch_size db) db)
        (λ db. claim_rows-Keeps draw 0 now lease_duration _ db)

  pub claim_found-Keeps :
      (token now lease_duration : ℕ) (found : Option WorkItem)
      → Keeps (IsSound limits) (claim_found token now lease_duration found)
  unfolding claim_found
  claim_found-Keeps token now lease_duration none db h = h
  claim_found-Keeps token now lease_duration (some i) db h =
      and_then_keeps (IsSound limits) (claim_row token now lease_duration i db)
        (λ work. pure (some work)) (claim_row-Keeps token now lease_duration i db h) (λ _ _ k. k)

  pub claim_one-Keeps :
      (locked : ℕ → Bool) (token item now lease_duration : ℕ)
      → Keeps (IsSound limits) (claim_one locked token item now lease_duration)
  unfolding claim_one
  claim_one-Keeps locked token item now lease_duration =
      atomic-Keeps (IsSound limits)
        (λ db.
          claim_found token now lease_duration
            (find (λ i. i.id == item && not (locked i.id) && claimable_row now i) db.work_items) db)
        (λ db. claim_found-Keeps token now lease_duration _ db)
