-- ===== src/Collect/Attempts/Branches.antt =====
-- internal/collect/attempts.go: the branches of one pass.
use mathlib.Core.Path.{subst}
use cirewind.Base.{
  ℕ, suc, ◌≡◌, refl, true, false, none, some, [], ◌∷◌, arith, Option-cases, Bool-cases, inl, inr,
}
use cirewind.Base.Int.{ℤ, pos, pos_part, is_positive, same_ℤ}
use cirewind.Base.Order.{nat_order}
use cirewind.Github.{CallError, Outcome, WorkflowRun, RunObject}
use cirewind.Collect.Gaps.{Gap, material_gap, gap_from_error, malformed_response, cancelled}
use cirewind.Collect.Enumerate.{RepositoryTarget}
use cirewind.Collect.Attempts.{
  AttemptApi, AttemptSnapshot, Collecting, Snapshotted, interrupted, collected, add_gaps,
  same_run_snapshot, collect_attempts, identity_gap,
}
use cirewind.Collect.Attempts.Snapshot.{add_responses, unread, stable_snapshot, stabilize}
use cirewind.Collect.Attempts.Sound.{Inv}
use cirewind.Collect.Attempts.Pass.{Inv-collect_attempts, collect_attempts_reach}
use cirewind.Collect.Attempts.Faithful.{
  IsFaithful, Reports, IsFaithful-gap, IsFaithful-by_attempt, same_run_attempt,
}

module _ (api : AttemptApi) (repository : RepositoryTarget) (run : ℤ) (left : ℕ)
    (current : WorkflowRun) (c : Collecting) where
  abbrev after : Collecting
  after = collect_attempts api repository run (pos_part current.run_attempt) 1 c

  abbrev next : Outcome RunObject
  next = api.get_workflow_run after.calls run

  abbrev read : AttemptSnapshot
  read = add_responses next.value.responses after.snapshot

  abbrev cut : Gap
  cut = material_gap cancelled "workflow_run" repository.id run false "attempt collection cancelled"

  abbrev no_attempt : Gap
  no_attempt =
      material_gap malformed_response "workflow_run" repository.id run false
        "run_attempt must be positive"

  abbrev other_run : Gap
  other_run =
      identity_gap "workflow_run_stabilization" repository.id run (pos 0)
        "stabilization response contradicted the requested run ID" next.value.responses

  abbrev unanswered : CallError → Gap
  unanswered e = gap_from_error "workflow_run_stabilization" repository.id run (pos 0) e

  abbrev again : Collecting
  again = record {
    snapshot = record read { final_parent = next.value.run };
    collected = after.collected;
    calls = suc after.calls;
  }

  abbrev pass : Snapshotted
  pass = stabilize api repository run (suc left) current c

  pass-cut : api.cancelled c.calls ≡ true → interrupted (add_gaps (cut ∷ []) c.snapshot) ≡ pass
  unfolding stabilize
  pass-cut h = ground arith

  pass-no_attempt :
      api.cancelled c.calls ≡ false
      → is_positive current.run_attempt ≡ false
      → collected (add_gaps (no_attempt ∷ []) c.snapshot) ≡ pass
  unfolding stabilize
  pass-no_attempt h k = ground arith

  pass-unread :
      (e : CallError)
      → api.cancelled c.calls ≡ false
      → is_positive current.run_attempt ≡ true
      → next.failure ≡ some e
      → unread api (suc after.calls) (unanswered e) read ≡ pass
  unfolding stabilize
  pass-unread e h k f = ground arith

  pass-other_run :
      api.cancelled c.calls ≡ false
      → is_positive current.run_attempt ≡ true
      → next.failure ≡ none
      → same_ℤ next.value.run.id run ≡ false
      → collected (add_gaps (other_run ∷ []) (record read { final_parent = next.value.run })) ≡ pass
  unfolding stabilize
  pass-other_run h k f m = ground arith

  pass-stable :
      api.cancelled c.calls ≡ false
      → is_positive current.run_attempt ≡ true
      → next.failure ≡ none
      → same_ℤ next.value.run.id run ≡ true
      → same_run_snapshot current next.value.run ≡ true
      → collected (stable_snapshot next.value.run read) ≡ pass
  unfolding stabilize
  pass-stable h k f m q = ground arith

  pass-again :
      api.cancelled c.calls ≡ false
      → is_positive current.run_attempt ≡ true
      → next.failure ≡ none
      → same_ℤ next.value.run.id run ≡ true
      → same_run_snapshot current next.value.run ≡ false
      → stabilize api repository run left next.value.run again ≡ pass
  unfolding stabilize
  pass-again h k f m q = ground arith

  Inv-again : Inv run c → Inv run again
  Inv-again i =
      let j = Inv-collect_attempts api repository run (pos_part current.run_attempt) 1 c i in
      record {
        sound = j.sound;
        known = j.known;
        once = j.once;
        accounted = j.accounted;
        unsettled = j.unsettled;
      }

  IsFaithful-stable :
      same_run_snapshot current next.value.run ≡ true
      → Inv run c
      → IsFaithful run (record read { final_parent = next.value.run; stable = true })
  IsFaithful-stable q i =
      let j = Inv-again i in
      record {
        sound = j.sound;
        once = j.once;
        complete = λ h a l k. j.accounted a (
            collect_attempts_reach api repository run (pos_part current.run_attempt) 1 c a l
              (rw (same_run_attempt current next.value.run q) (omega (arith, k))));
        visible = λ h. cc;
      }

  Reports-unread :
      (e : CallError)
      → Inv run c
      → Reports (IsFaithful run) (unread api (suc after.calls) (unanswered e) read)
  Reports-unread e i = elim (Bool-cases (api.cancelled (suc after.calls))) [
    | inl h ↦
        rw h
          (IsFaithful-gap run again read (unanswered e) (Inv-again i) refl (Inv-again i).unsettled)
    | inr h ↦
        rw h
          (IsFaithful-gap run again read (unanswered e) (Inv-again i) refl (Inv-again i).unsettled)
  ]

  -- One pass, of what the passes after it promise.
  pub Reports-pass :
      Inv run c
      → (Inv run again
          → Reports (IsFaithful run) (stabilize api repository run left next.value.run again))
      → Reports (IsFaithful run) (stabilize api repository run (suc left) current c)
  Reports-pass i later = elim (Bool-cases (api.cancelled c.calls)) [
    | inl h ↦
        subst (Reports (IsFaithful run)) (pass-cut h)
          (IsFaithful-gap run c c.snapshot cut i refl i.unsettled)
    | inr h ↦ elim (Bool-cases (is_positive current.run_attempt)) [
      | inr k ↦
          subst (Reports (IsFaithful run)) (pass-no_attempt h k)
            (IsFaithful-gap run c c.snapshot no_attempt i refl i.unsettled)
      | inl k ↦ elim (Option-cases next.failure) [
        | inr (e, f) ↦ subst (Reports (IsFaithful run)) (pass-unread e h k f) (Reports-unread e i)
        | inl f ↦ elim (Bool-cases (same_ℤ next.value.run.id run)) [
          | inr m ↦ subst (Reports (IsFaithful run)) (pass-other_run h k f m) (
              IsFaithful-gap run again (record read { final_parent = next.value.run }) other_run
                (Inv-again i) refl (Inv-again i).unsettled)
          | inl m ↦ elim (Bool-cases (same_run_snapshot current next.value.run)) [
            | inl q ↦ subst (Reports (IsFaithful run)) (pass-stable h k f m q) (
                IsFaithful-by_attempt run
                  (record read { final_parent = next.value.run; stable = true })
                  (IsFaithful-stable q i))
            | inr q ↦ subst (Reports (IsFaithful run)) (pass-again h k f m q) (later (Inv-again i))
          ]
        ]
      ]
    ]
  ]
