-- ===== src/Resolutions/Reachable.antt =====
-- The stores that the command service of resolutions/services.py reaches.
use reconciliation_workbench.Common.{
  ℕ, ◌≡◌, refl, sym, ◌∙◌, ap, subst, inl, inr, Option, none, some, List, Result, ok,
}
use reconciliation_workbench.Workspaces.Tables.{Database}
use reconciliation_workbench.Resolutions.Tables.{
  ActiveDecisionClaim, DecisionRevision, Store, TransactionObservation, decision_at, revision_at,
}
use reconciliation_workbench.Resolutions.Checks.{is_superseded}
use reconciliation_workbench.Resolutions.Commands.{initial_changes, lifecycle_changes}
use reconciliation_workbench.Resolutions.Consistency.{IsConsistent, authorised, entitled_by}
use reconciliation_workbench.Resolutions.Writes.{IsFresh}
use reconciliation_workbench.Resolutions.Soundness.{
  initial_changes-IsConsistent, lifecycle_changes-IsConsistent,
}
use reconciliation_workbench.Resolutions.Transactions.{
  rebased, Committed, commit_initial-cases, commit_change-cases, preview_replacement-rebased,
}
use reconciliation_workbench.Resolutions.Steps.{Step, Reach, Method}

module _ (base : Database) (s : Store) where
  entitled_by-rebased :
      (c : ActiveDecisionClaim) (o : Option DecisionRevision)
      → entitled_by c s o ≡ entitled_by c (rebased base s) o
  unfolding decision_at is_superseded
  entitled_by-rebased c none = refl
  entitled_by-rebased c (some r) = refl

  authorised-rebased : (c : ActiveDecisionClaim) → authorised c s ≡ authorised c (rebased base s)
  unfolding authorised revision_at
  authorised-rebased c = entitled_by-rebased c (revision_at c.decision_revision s)

  rebased-IsConsistent : IsConsistent s → IsConsistent (rebased base s)
  unfolding decision_at revision_at
  rebased-IsConsistent h = record {
    exact = λ c. h.exact c ∙ authorised-rebased c;
    single = h.single;
    owned = h.owned;
  }

  rebased-IsFresh : (n : ℕ) → IsFresh n s → IsFresh n (rebased base s)
  unfolding revision_at is_superseded
  rebased-IsFresh n h = record { revision = h.revision; supersession = h.supersession }

Committed-IsConsistent :
    (changes : Store → Result Store) (s : Store) (answer : Result (Unit {0}) × Store)
    → ((base : Database) (s' : Store) → changes (rebased base s) ≡ ok s' → IsConsistent s')
    → IsConsistent s
    → Committed changes s answer
    → IsConsistent answer.1
Committed-IsConsistent changes s answer sound h (inl (base, s', e, a)) =
    subst IsConsistent (sym (ap (λ r. r.1) a)) (sound base s' e)
Committed-IsConsistent changes s answer sound h (inr (x, a)) =
    subst IsConsistent (sym (ap (λ r. r.1) a)) h

module _ (m : ℕ) (strip : ℕ → ℕ) (digest : List TransactionObservation → ℕ) where
  Step-IsConsistent : (s s' : Store) → IsConsistent s → Step m strip digest s s' → IsConsistent s'
  unfolding decision_at
  Step-IsConsistent s s' h (Step.committed Method.initial x drawn e) =
      subst IsConsistent (sym e)
        (elim (commit_initial-cases m x.uuid strip digest x.now x.decision x.revision x.workspace
          x.book x.command s) [
            | inl (u, same) ↦ subst IsConsistent (sym (ap (λ r. r.1) same)) h
            | inr (a, i, given, done) ↦
                Committed-IsConsistent
                  (initial_changes strip digest x.now x.decision x.revision x.workspace x.book
                    x.command a)
                  s _
                  (λ base t made.
                    initial_changes-IsConsistent strip digest x.now x.decision x.revision
                      x.workspace x.book x.command (rebased base s) (rebased-IsConsistent base s h)
                      (rebased-IsFresh base s x.revision drawn.revision) a t i drawn.decision made)
                  h done
          ])
  Step-IsConsistent s s' h (Step.committed Method.change x drawn e) =
      subst IsConsistent (sym e)
        (elim (commit_change-cases m x.uuid strip digest x.now x.revision x.workspace x.book
          x.command s) [
            | inl (u, same) ↦ subst IsConsistent (sym (ap (λ r. r.1) same)) h
            | inr (t, i, given, done) ↦
                Committed-IsConsistent
                  (lifecycle_changes strip digest x.now 0 x.revision x.workspace x.book x.command t)
                  s _
                  (λ base t' made.
                    lifecycle_changes-IsConsistent strip digest x.now 0 x.revision x.workspace
                      x.book x.command (rebased base s) (rebased-IsConsistent base s h)
                      (rebased-IsFresh base s x.revision drawn.revision) t t' i made)
                  h done
          ])
  Step-IsConsistent s s' h (Step.previewed uuid now w b target a e) =
      let (base, same) = preview_replacement-rebased m uuid now w b target a s in
      subst IsConsistent (sym (e ∙ same)) (rebased-IsConsistent base s h)

  -- From a store where the claims are exactly the endpoints of the live decisions, no endpoint of a book
  -- is claimed twice, and a current revision is one of its decision's own, every store that any sequence
  -- of previews, and of commits that draw new identities, reaches has these too, whatever returned and
  -- whatever raised.
  pub Reach-IsConsistent :
      (s s' : Store) → IsConsistent s → Reach m strip digest s s' → IsConsistent s'
  Reach-IsConsistent s s' h Reach.here = h
  Reach-IsConsistent s s' h (Reach.next {s' = t} r step) =
      Step-IsConsistent t s' (Reach-IsConsistent s t h r) step
