-- ===== src/Workspaces/Access.antt =====
-- What `require_active`, `reserve` and `release` answer, on every branch.
use reconciliation_workbench.Common.{
  ℕ, leb, Bool-cases, ◌≤◌, ◌<◌, ◌≡◌, refl, ◌⊎◌, ◌↔◌, false, settle_cases, inl, inr, Option-cases,
  some, ok, raise, Error, arith, Result, settle, subst, sym, find-update_where, find-eq-some,
  map_option, ◌==◌, if◌then◌else◌,
}
use reconciliation_workbench.Workspaces.Domain.{
  Datetime, WorkspaceState, QuotaAmounts, plus, reserve_amounts, evaluate, evaluate_at,
}
use reconciliation_workbench.Workspaces.Tables.{Workspace, Database, workspace_of}
use reconciliation_workbench.Workspaces.Lifecycle.{
  require_active, enforce, expire, revoke, revocation_time,
}
use reconciliation_workbench.Workspaces.Quotas.{
  reserve, release, usage, persist, with_usage, exceeds, minus, locked_workspace,
}

-- The workspace can be entered: it is active, and its expiry lies ahead.
pub record IsOpen (w : Workspace) (clock : ℕ) : Type 0 where
  pub active : w.state ≡ WorkspaceState.active
  pub ahead : clock < w.expires_at

-- Each amount lies within its limit.
pub record IsWithin (limits amounts : QuotaAmounts) : Type 0 where
  pub retained_bytes : amounts.retained_bytes ≤ limits.retained_bytes
  pub books : amounts.books ≤ limits.books
  pub active_jobs : amounts.active_jobs ≤ limits.active_jobs

-- The row of the workspace `k` carries the amounts as its usage. Its other columns, the rows of the
-- other workspaces and the other tables are as they were.
pub record IsWritten (k : ℕ) (amounts : QuotaAmounts) (db db' : Database) : Type 0 where
  pub rows :
      (j : ℕ)
      → workspace_of j db' ≡ (
          if j == k
          then map_option {A = Workspace}
              (λ w. record w {
                retained_bytes = amounts.retained_bytes;
                book_count = amounts.books;
                active_job_count = amounts.active_jobs;
              })
              (workspace_of k db)
          else workspace_of j db)
  pub cleanup_requests : db'.cleanup_requests ≡ db.cleanup_requests
  pub work_items : db'.work_items ≡ db.work_items
  pub job_attempts : db'.job_attempts ≡ db.job_attempts

persist-IsWritten :
    (k : ℕ) (amounts : QuotaAmounts) (db : Database) → IsWritten k amounts db (persist k amounts db)
unfolding persist workspace_of
persist-IsWritten k amounts db = record {
  rows = λ j.
      let moved =
        find-update_where (λ w. w.id == j) (λ w. w.id == k) (with_usage amounts) db.workspaces
          (λ w. refl) in
      elim (Option-cases (workspace_of j db)) [
        | inl e ↦ ground arith
        | inr (w, e) ↦ let own = find-eq-some (λ w. w.id == j) db.workspaces w e in ground arith
      ];
  cleanup_requests = refl;
  work_items = refl;
  job_attempts = refl;
}

IsWritten-persist :
    (k : ℕ) (amounts : QuotaAmounts) (db db' : Database)
    → db' ≡ persist k amounts db
    → IsWritten k amounts db db'
IsWritten-persist k amounts db db' e =
    subst (IsWritten k amounts db) (sym e) (persist-IsWritten k amounts db)

pub reserve_amounts-eq-ok :
    (limits before requested r : QuotaAmounts)
    → reserve_amounts limits before requested ≡ ok r
    → (r ≡ plus before requested) × IsWithin limits r
unfolding reserve_amounts
reserve_amounts-eq-ok limits before requested r h = ground arith

reserve_amounts_within :
    (limits before requested r : QuotaAmounts)
    → r ≡ plus before requested
    → IsWithin limits r
    → reserve_amounts limits before requested ≡ ok r
unfolding reserve_amounts
reserve_amounts_within limits before requested r e h = ground arith

plus-minus :
    (released before : QuotaAmounts)
    → exceeds released before ≡ false
    → plus (minus before released) released ≡ before
unfolding plus exceeds
plus-minus released before h = ground arith

not_exceeds :
    (released r before : QuotaAmounts)
    → plus r released ≡ before
    → (exceeds released before ≡ false) × (minus before released ≡ r)
unfolding plus exceeds
not_exceeds released r before h = ground arith

module _ (m u : ℕ) where
  -- `require_active` lets an open workspace pass with nothing changed, and refuses any other.
  enforce_cases :
      (state : WorkspaceState) (k expiry clock : ℕ) (db : Database)
      → (state ≡ WorkspaceState.active)
          × (clock < expiry)
          × (enforce m u k (Datetime.aware clock) (evaluate_at state expiry clock) db ≡ (ok tt, db))
        ⊎ ((enforce m u k (Datetime.aware clock) (evaluate_at state expiry clock) db).0
            ≡ raise Error.workspace_unavailable)
  unfolding enforce evaluate_at expire revoke revocation_time
  enforce_cases WorkspaceState.deleted k expiry clock db = inr refl
  enforce_cases WorkspaceState.revoked k expiry clock db = inr refl
  enforce_cases WorkspaceState.active k expiry clock db = elim (Bool-cases (leb expiry clock)) [
    | inl late ↦ inr (elim (Option-cases (workspace_of k db)) [
      | inl e ↦ ground arith
      | inr (w, e) ↦ ground arith
    ])
    | inr early ↦ inl (refl, ground arith, ground arith)
  ]

  require_active_open :
      (w : Workspace) (clock : ℕ) (db : Database)
      → IsOpen w clock
      → require_active m u w (Datetime.aware clock) db ≡ (ok tt, db)
  unfolding require_active evaluate enforce evaluate_at
  require_active_open w clock db h = ground arith

  pub require_active_cases :
      (w : Workspace) (clock : ℕ) (db : Database)
      → IsOpen w clock × (require_active m u w (Datetime.aware clock) db ≡ (ok tt, db))
        ⊎ ((require_active m u w (Datetime.aware clock) db).0 ≡ raise Error.workspace_unavailable)
  unfolding require_active evaluate
  require_active_cases w clock db = elim (enforce_cases w.state w.id w.expires_at clock db) [
    | inl (a, b, c) ↦ inl (record { active = a; ahead = b }, ground arith)
    | inr e ↦ inr (ground arith)
  ]

  module _ (limits : QuotaAmounts) (clock : ℕ) where
    reserve-eq-ok :
        (k : ℕ) (requested r : QuotaAmounts) (db db' : Database)
        → reserve m u limits clock k requested db ≡ (ok r, db')
        → (w : Workspace) × (workspace_of k db ≡ some w)
          × IsOpen w clock
          × (r ≡ plus (usage w) requested)
          × IsWithin limits r
          × (db' ≡ persist k r db)
    unfolding reserve locked_workspace
    reserve-eq-ok k requested r db db' h = elim (Option-cases (workspace_of k db)) [
      | inl e ↦ absurd (ground arith)
      | inr (w, e) ↦ elim (require_active_cases w clock db) [
        | inl (opened, p) ↦
            let fits = reserve_amounts-eq-ok limits (usage w) requested r in
            (w, e, opened, ground arith, ground arith, ground arith)
        | inr p ↦ absurd (ground arith)
      ]
    ]

    release-eq-ok :
        (k : ℕ) (released r : QuotaAmounts) (db db' : Database)
        → release m u limits clock k released db ≡ (ok r, db')
        → (w : Workspace) × (workspace_of k db ≡ some w)
          × IsOpen w clock
          × (plus r released ≡ usage w)
          × (db' ≡ persist k r db)
    unfolding release locked_workspace
    release-eq-ok k released r db db' h = elim (Option-cases (workspace_of k db)) [
      | inl e ↦ absurd (ground arith)
      | inr (w, e) ↦ elim (require_active_cases w clock db) [
        | inl (opened, p) ↦
            let sum = plus-minus released (usage w) in (w, e, opened, ground arith, ground arith)
        | inr p ↦ absurd (ground arith)
      ]
    ]

    -- A reservation returns exactly when the workspace is there, is open, and holds the requested
    -- amounts within every limit. It then returns the sums and writes them to the three usage
    -- columns of that workspace; every other column, row and table stays as it was.
    pub reserve-ok_iff :
        (k : ℕ) (requested r : QuotaAmounts) (db db' : Database)
        → (reserve m u limits clock k requested db ≡ (ok r, db')) ↔ (
            (w : Workspace) × (workspace_of k db ≡ some w)
            × IsOpen w clock
            × (r ≡ plus (usage w) requested)
            × IsWithin limits r
            × (db' ≡ persist k r db)
            × IsWritten k r db db')
    unfolding reserve locked_workspace
    reserve-ok_iff k requested r db db' = (
      λ h.
          let (w, e, opened, sum, fits, after) = reserve-eq-ok k requested r db db' h in
          (w, e, opened, sum, fits, after, IsWritten-persist k r db db' after),
      λ (w, e, opened, sum, fits, after, _).
          let entered = require_active_open w clock db opened in
          let held = reserve_amounts_within limits (usage w) requested r sum fits in ground arith,
    )

    -- A release returns exactly when the workspace is there, is open, and uses at least the released
    -- amounts. It then returns the differences and writes them to the three usage columns of that
    -- workspace; every other column, row and table stays as it was.
    pub release-ok_iff :
        (k : ℕ) (released r : QuotaAmounts) (db db' : Database)
        → (release m u limits clock k released db ≡ (ok r, db')) ↔ (
            (w : Workspace) × (workspace_of k db ≡ some w)
            × IsOpen w clock
            × (plus r released ≡ usage w)
            × (db' ≡ persist k r db)
            × IsWritten k r db db')
    unfolding release locked_workspace
    release-ok_iff k released r db db' = (
      λ h.
          let (w, e, opened, sum, after) = release-eq-ok k released r db db' h in
          (w, e, opened, sum, after, IsWritten-persist k r db db' after),
      λ (w, e, opened, sum, after, _).
          let entered = require_active_open w clock db opened in
          let held = not_exceeds released r (usage w) sum in ground arith,
    )

    -- The answers of a transaction on the usage of a workspace: it raises and leaves the database as
    -- it was, or it returns amounts and has written them to that workspace, and nothing else.
    abbrev pub Transactional : (k : ℕ) → Database → Result QuotaAmounts × Database → Type 0
    Transactional k db answer =
        ((e : Error) × (answer ≡ (raise e, db)))
        ⊎ ((r : QuotaAmounts) × (db' : Database) × (answer ≡ (ok r, db')) × IsWritten k r db db')

    transactional :
        (k : ℕ) (db : Database) (r : Result QuotaAmounts × Database)
        → ((x : QuotaAmounts) (db' : Database) → settle db r ≡ (ok x, db') → IsWritten k x db db')
        → Transactional k db (settle db r)
    transactional k db r written = elim (settle_cases db r) [
      | inl raised ↦ inl raised
      | inr (x, db', e) ↦ inr (x, db', e, written x db' e)
    ]

    reserve-Transactional :
        (k : ℕ) (amounts : QuotaAmounts) (db : Database)
        → Transactional k db (reserve m u limits clock k amounts db)
    unfolding reserve
    reserve-Transactional k amounts db =
        transactional k db _ λ r db' e.
          let (_, _, _, _, _, _, wrote) = (reserve-ok_iff k amounts r db db').0 e in wrote

    release-Transactional :
        (k : ℕ) (amounts : QuotaAmounts) (db : Database)
        → Transactional k db (release m u limits clock k amounts db)
    unfolding release
    release-Transactional k amounts db =
        transactional k db _
          λ r db' e. let (_, _, _, _, _, wrote) = (release-ok_iff k amounts r db db').0 e in wrote

    -- A reservation and a release each either raise and leave the database as it was, also where
    -- they met an expired workspace on the way, or return amounts that they have written to the
    -- usage columns of the workspace; every other column, row and table stays as it was.
    pub quota-Transactional :
        (k : ℕ) (amounts : QuotaAmounts) (db : Database)
        → Transactional k db (reserve m u limits clock k amounts db)
          × Transactional k db (release m u limits clock k amounts db)
    quota-Transactional k amounts db =
        (reserve-Transactional k amounts db, release-Transactional k amounts db)
