-- ===== src/Resolutions/Stale.antt =====
-- Commands that name an old generation of their book, in resolutions/services.py.
use reconciliation_workbench.Common.{
  ℕ, ◌≡◌, ◌≤◌, ◌+◌, refl, sym, ◌∙◌, ap, subst, true, false, ◌⊎◌, inl, inr, Option, none, some, List,
  ◌==◌, arith, map_option, find, find-eq-some, find-update_where, Bool-cases, Option-cases, Result,
  ok, raise, Error, if◌then◌else◌,
}
use reconciliation_workbench.Workspaces.Tables.{Database}
use reconciliation_workbench.Resolutions.Tables.{
  ReconciliationBook, Store, TransactionObservation, book_at,
}
use reconciliation_workbench.Resolutions.Checks.{find_book}
use reconciliation_workbench.Resolutions.Commands.{advance, initial_changes, lifecycle_changes}
use reconciliation_workbench.Resolutions.Runs.{
  lifecycle_changes-LifecycleRun, initial_changes-InitialRun,
}
use reconciliation_workbench.Resolutions.Generations.{
  generation_of, Advanced, lifecycle_changes-Advanced, initial_changes-Advanced,
}
use reconciliation_workbench.Resolutions.Transactions.{
  rebased, Committed, commit_initial-cases, commit_change-cases, preview_replacement-rebased,
}
use reconciliation_workbench.Resolutions.Steps.{Step, Reach, Method, Call, commit}

abbrev pub counted_up : (b c : ℕ) → ℕ → ℕ
counted_up b c g = if c == b then g + 1 else g

generation_of-advance :
    (w b c : ℕ) (s : Store)
    → generation_of c (advance w b s) ≡ map_option (counted_up b c) (generation_of c s)
unfolding advance book_at
generation_of-advance w b c s =
    ap (map_option (λ x. x.resolution_generation)) (
      find-update_where (λ x. x.id == c) (λ x. x.id == b)
        (λ x. record x { resolution_generation = x.resolution_generation + 1 }) s.books (λ x. refl))
    ∙ counted (find (λ x. x.id == c) s.books) (λ x e. find-eq-some (λ x. x.id == c) s.books x e)
  where
    counted :
        (f : Option ReconciliationBook)
        → ((x : ReconciliationBook) → f ≡ some x → (x.id == c) ≡ true)
        → map_option
            (λ x. x.resolution_generation)
            (map_option
              (λ x.
                if x.id == b
                then record x { resolution_generation = x.resolution_generation + 1 }
                else x)
              f)
          ≡ map_option (counted_up b c) (map_option (λ x. x.resolution_generation) f)
    counted none h = refl
    counted (some x) h =
        let found = h x refl in
        elim (Bool-cases (x.id == b)) [
          | inl own ↦ let own' : (c == b) ≡ true = ground arith in rw (own, own') refl
          | inr other ↦ let other' : (c == b) ≡ false = ground arith in rw (other, other') refl
        ]

-- Two stores with the same books have the same generations.
generation_of-books :
    (s s' : Store) (c : ℕ) → s.books ≡ s'.books → generation_of c s ≡ generation_of c s'
unfolding book_at
generation_of-books s s' c e =
    ap (λ bs. map_option (λ x. x.resolution_generation) (find (λ x. x.id == c) bs)) e

-- The changes met the book at the expected generation, and left it at the next.
pub record IsCounted (b expected : ℕ) (s s' : Store) : Type 0 where
  pub before : generation_of b s ≡ some expected
  pub after : (c : ℕ) → generation_of c s' ≡ map_option (counted_up b c) (generation_of c s)

find_book-generation_of :
    (w b g : ℕ) (s : Store) (bk : ReconciliationBook)
    → find_book w b s ≡ ok bk
    → (bk.resolution_generation == g) ≡ true
    → generation_of b s ≡ some g
unfolding find_book
find_book-generation_of w b g s bk e c = elim (Option-cases (book_at b s)) [
  | inl missing ↦ absurd (ground arith)
  | inr (x, at) ↦ elim (Bool-cases (x.workspace == w)) [
    | inr foreign ↦ absurd (ground arith)
    | inl own ↦ rw at (ground arith)
  ]
]

Advanced-IsCounted :
    (w b g : ℕ) (s s' : Store) (bk : ReconciliationBook)
    → find_book w b s ≡ ok bk
    → (bk.resolution_generation == g) ≡ true
    → Advanced w b s s'
    → IsCounted b g s s'
Advanced-IsCounted w b g s s' bk e c h = record {
  before = find_book-generation_of w b g s bk e c;
  after = λ c. sym (generation_of-books (advance w b s) s' c h) ∙ generation_of-advance w b c s;
}

Committed-IsCounted :
    (b g : ℕ) (changes : Store → Result Store) (s : Store) (answer : Result (Unit {0}) × Store)
    → ((base : Database) (s' : Store)
        → changes (rebased base s) ≡ ok s'
        → IsCounted b g (rebased base s) s')
    → Committed changes s answer
    → ((e : Error) × (answer ≡ (raise e, s))) ⊎ IsCounted b g s answer.1
unfolding book_at
Committed-IsCounted b g changes s answer h (inr refused) = inl refused
Committed-IsCounted b g changes s answer h (inl (base, s', e, a)) =
    let counted = h base s' e in
    inr (
      subst (IsCounted b g s) (sym (ap (λ r. r.1) a))
        (record { before = counted.before; after = counted.after }))

module _ (m : ℕ) (strip : ℕ → ℕ) (digest : List TransactionObservation → ℕ) where
  -- A commit raises and changes nothing, or it met its book at the generation that its command expects
  -- and leaves it at the next, the generations of the other books as they were.
  pub commit-IsCounted :
      (f : Method) (x : Call) (s : Store)
      → ((e : Error) × (commit m strip digest f x s ≡ (raise e, s)))
        ⊎ IsCounted x.book x.command.expected_resolution_generation s
            (commit m strip digest f x s).1
  commit-IsCounted Method.initial x s =
      elim (commit_initial-cases m x.uuid strip digest x.now x.decision x.revision x.workspace
        x.book x.command s) [
          | inl refused ↦ inl refused
          | inr (a, i, given, done) ↦
              Committed-IsCounted x.book x.command.expected_resolution_generation
                (initial_changes strip digest x.now x.decision x.revision x.workspace x.book
                  x.command a)
                s _
                (λ base s' e.
                  let r =
                    initial_changes-InitialRun strip digest x.now x.decision x.revision x.workspace
                      x.book x.command (rebased base s) s' a e in
                  Advanced-IsCounted x.workspace x.book x.command.expected_resolution_generation
                    (rebased base s) s' r.book r.found r.generation
                    (initial_changes-Advanced strip digest x.now x.decision x.revision x.workspace
                      x.book x.command (rebased base s) s' a e))
                done
        ]
  commit-IsCounted Method.change x s =
      elim (commit_change-cases m x.uuid strip digest x.now x.revision x.workspace x.book x.command
        s) [
          | inl refused ↦ inl refused
          | inr (t, i, given, done) ↦
              Committed-IsCounted x.book x.command.expected_resolution_generation
                (lifecycle_changes strip digest x.now 0 x.revision x.workspace x.book x.command t) s
                _
                (λ base s' e.
                  let r =
                    lifecycle_changes-LifecycleRun strip digest x.now 0 x.revision x.workspace
                      x.book x.command (rebased base s) s' t e in
                  Advanced-IsCounted x.workspace x.book x.command.expected_resolution_generation
                    (rebased base s) s' r.book r.found r.generation
                    (lifecycle_changes-Advanced strip digest x.now 0 x.revision x.workspace x.book
                      x.command (rebased base s) s' t e))
                done
        ]

  -- The book is at a generation, or past it.
  abbrev pub IsPast : (b g : ℕ) → Store → Type 0
  IsPast b g s = (g' : ℕ) × (generation_of b s ≡ some g') × (g ≤ g')

  Counted-IsPast : (b c g h : ℕ) (s s' : Store) → IsCounted c h s s' → IsPast b g s → IsPast b g s'
  Counted-IsPast b c g h s s' counted (g', e, le) =
      (counted_up c b g', counted.after b ∙ rw e refl, grown)
    where
      grown : g ≤ counted_up c b g'
      grown = ground arith

  commit-IsPast :
      (f : Method) (x : Call) (b g : ℕ) (s : Store)
      → IsPast b g s
      → IsPast b g (commit m strip digest f x s).1
  commit-IsPast f x b g s h = elim (commit-IsCounted f x s) [
    | inl (e, same) ↦ subst (λ r. IsPast b g r.1) (sym same) h
    | inr counted ↦
        Counted-IsPast b x.book g x.command.expected_resolution_generation s
          (commit m strip digest f x s).1 counted h
  ]

  Step-IsPast : (b g : ℕ) (s s' : Store) → Step m strip digest s s' → IsPast b g s → IsPast b g s'
  unfolding book_at
  Step-IsPast b g s s' (Step.committed f x fresh e) h =
      subst (IsPast b g) (sym e) (commit-IsPast f x b g s h)
  Step-IsPast b g s s' (Step.previewed uuid now w k target a e) h =
      let (base, same) = preview_replacement-rebased m uuid now w k target a s in
      subst (IsPast b g) (sym (e ∙ same)) h

  Reach-IsPast : (b g : ℕ) (s s' : Store) → Reach m strip digest s s' → IsPast b g s → IsPast b g s'
  Reach-IsPast b g s s' Reach.here h = h
  Reach-IsPast b g s s' (Reach.next {s' = t} r step) h =
      Step-IsPast b g t s' step (Reach-IsPast b g s t r h)

  -- Once a commit has returned, a commit on the same book that expects the generation that it expected,
  -- or an earlier one, raises and changes nothing, after any previews, and any commits that draw new
  -- identities, between the two.
  pub stale_commit :
      (s s' : Store) (f f' : Method) (x y : Call)
      → (commit m strip digest f x s).0 ≡ ok tt
      → Reach m strip digest (commit m strip digest f x s).1 s'
      → y.book ≡ x.book
      → y.command.expected_resolution_generation ≤ x.command.expected_resolution_generation
      → (e : Error) × (commit m strip digest f' y s' ≡ (raise e, s'))
  stale_commit s s' f f' x y done r same old = elim (commit-IsCounted f' y s') [
    | inl refused ↦ refused
    | inr again ↦ elim (commit-IsCounted f x s) [
      | inl (e, failed) ↦
          let never : raise e ≡ ok tt = sym (ap (λ r. r.0) failed) ∙ done in absurd (ground arith)
      | inr first ↦
          let self : (x.book == x.book) ≡ true = ground arith in
          let next : generation_of x.book (commit m strip digest f x s).1
              ≡ some (x.command.expected_resolution_generation + 1) =
            first.after x.book ∙ rw (first.before, self) refl in
          let (g, at, le) =
            Reach-IsPast x.book (x.command.expected_resolution_generation + 1)
              (commit m strip digest f x s).1 s' r (_, next, ground arith) in
          let met : generation_of x.book s' ≡ some y.command.expected_resolution_generation =
            subst (λ b. generation_of b s' ≡ some y.command.expected_resolution_generation) same
              again.before in
          let both : some g ≡ some y.command.expected_resolution_generation = sym at ∙ met in
          absurd (ground arith)
    ]
  ]
