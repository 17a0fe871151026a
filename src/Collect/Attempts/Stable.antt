-- ===== src/Collect/Attempts/Stable.antt =====
-- internal/collect/attempts.go: every snapshot that is returned is faithful.
use mathlib.Core.Path.{subst}
use cirewind.Base.{
  ℕ, zero, suc, ◌≡◌, refl, sym, Bool, true, false, ◌||◌, not, none, some, [], ◌∷◌, arith, is_nil,
  All, Option-cases, Bool-cases, inl, inr,
}
use cirewind.Base.Int.{ℤ, pos, is_positive, same_ℤ}
use cirewind.Base.Order.{nat_order}
use cirewind.Github.{CallError, Outcome, WorkflowRun, RunObject}
use cirewind.Collect.Gaps.{Gap, material_gap, gap_from_error, live_state_race}
use cirewind.Collect.Enumerate.{RepositoryTarget, positive_or}
use cirewind.Collect.Attempts.{
  AttemptApi, AttemptSnapshot, Collecting, refused, collected, add_gaps, identity_gap,
}
use cirewind.Collect.Attempts.Snapshot.{
  AttemptCollector, add_responses, unread, stabilize, empty_snapshot, after_parent, snapshot,
}
use cirewind.Collect.Attempts.Sound.{IsBundleOf, Inv}
use cirewind.Collect.Attempts.Faithful.{IsFaithful, Reports, IsFaithful-gap, IsFaithful-by_attempt}
use cirewind.Collect.Attempts.Branches.{Reports-pass}

race_gap : RepositoryTarget → ℤ → Gap
race_gap repository run =
    material_gap live_state_race "workflow_run" repository.id run true
      "run changed throughout the stabilization budget"

Reports-stabilize :
    (api : AttemptApi) (repository : RepositoryTarget) (run : ℤ) (left : ℕ) (current : WorkflowRun)
    (c : Collecting)
    → Inv run c
    → Reports (IsFaithful run) (stabilize api repository run left current c)
unfolding stabilize race_gap
Reports-stabilize api repository run (suc left) current c i =
    Reports-pass api repository run left current c i (Reports-stabilize api repository run left _ _)
Reports-stabilize api repository run zero current c i =
    let s = record c.snapshot { final_parent = current } in
    IsFaithful-by_attempt run (add_gaps (race_gap repository run ∷ []) s)
      (IsFaithful-gap run c s (race_gap repository run) i refl i.unsettled)

-- Before any attempt is read.
Inv-start :
    (run : ℤ) (s : AttemptSnapshot)
    → s.attempts ≡ []
    → s.stable ≡ false
    → Inv run (record { snapshot = s; collected = []; calls = 1 })
Inv-start run s e f = record {
  sound = subst (All (IsBundleOf run)) (sym e) tt;
  known = λ a h. rw e refl;
  once = λ a. rw e (omega arith);
  accounted = λ a h. cc;
  unsettled = f;
}

module _ (api : AttemptApi) (repository : RepositoryTarget) (run : ℤ) (passes : ℕ)
    (parent : Outcome RunObject) where
  abbrev heard : AttemptSnapshot
  heard = add_responses parent.value.responses empty_snapshot

  abbrev started : AttemptSnapshot
  started = record heard { initial_parent = parent.value.run }

  abbrev other_run : Gap
  other_run =
      identity_gap "workflow_run" repository.id run (pos 0)
        "parent response contradicted the requested run ID" parent.value.responses

  abbrev unanswered : CallError → Gap
  unanswered e = gap_from_error "workflow_run" repository.id run (pos 0) e

  start : AttemptSnapshot → Collecting
  start s = record { snapshot = s; collected = []; calls = 1 }

  Reports-unread : (e : CallError) → Reports (IsFaithful run) (unread api 1 (unanswered e) heard)
  Reports-unread e = elim (Bool-cases (api.cancelled 1)) [
    | inl h ↦
        rw h (IsFaithful-gap run _ heard (unanswered e) (Inv-start run heard refl refl) refl refl)
    | inr h ↦
        rw h (IsFaithful-gap run _ heard (unanswered e) (Inv-start run heard refl refl) refl refl)
  ]

  unread-after_parent :
      (e : CallError)
      → parent.failure ≡ some e
      → unread api 1 (unanswered e) heard ≡ after_parent api repository run passes parent
  unread-after_parent e h = ground arith

  other_run-after_parent :
      parent.failure ≡ none
      → same_ℤ parent.value.run.id run ≡ false
      → collected (add_gaps (other_run ∷ []) started)
        ≡ after_parent api repository run passes parent
  other_run-after_parent h k = ground arith

  stabilize-after_parent :
      parent.failure ≡ none
      → same_ℤ parent.value.run.id run ≡ true
      → stabilize api repository run passes parent.value.run
          (record { snapshot = started; collected = []; calls = 1 })
        ≡ after_parent api repository run passes parent
  stabilize-after_parent h k = ground arith

  Reports-after_parent : Reports (IsFaithful run) (after_parent api repository run passes parent)
  Reports-after_parent = elim (Option-cases parent.failure) [
    | inr (e, h) ↦ subst (Reports (IsFaithful run)) (unread-after_parent e h) (Reports-unread e)
    | inl h ↦ elim (Bool-cases (same_ℤ parent.value.run.id run)) [
      | inr k ↦
          subst (Reports (IsFaithful run)) (other_run-after_parent h k)
            (IsFaithful-gap run _ started other_run (Inv-start run started refl refl) refl refl)
      | inl k ↦ subst (Reports (IsFaithful run)) (stabilize-after_parent h k) (
          Reports-stabilize api repository run passes parent.value.run _
            (Inv-start run started refl refl))
    ]
  ]

abbrev is_bad_target : RepositoryTarget → ℤ → Bool
is_bad_target repository run =
    not (is_positive repository.id)
    || is_nil repository.owner
    || is_nil repository.name
    || not (is_positive run)

refused-no_api :
    (c : AttemptCollector) (repository : RepositoryTarget) (run : ℤ)
    → c.api ≡ none
    → refused "attempt API is nil" ≡ snapshot c repository run
unfolding snapshot
refused-no_api c repository run h = ground arith

refused-bad_target :
    (c : AttemptCollector) (repository : RepositoryTarget) (run : ℤ) (api : AttemptApi)
    → c.api ≡ some api
    → is_bad_target repository run ≡ true
    → refused "repository target or run ID is invalid" ≡ snapshot c repository run
unfolding snapshot
refused-bad_target c repository run api h k = ground arith

after_parent-snapshot :
    (c : AttemptCollector) (repository : RepositoryTarget) (run : ℤ) (api : AttemptApi)
    → c.api ≡ some api
    → is_bad_target repository run ≡ false
    → after_parent api repository run
        (positive_or c.max_stabilization_passes 3)
        (api.get_workflow_run 0 run)
      ≡ snapshot c repository run
unfolding snapshot
after_parent-snapshot c repository run api h k = ground arith

-- Whatever GitHub answers and whenever the context is cancelled, `Snapshot` ends with a refusal of
-- its arguments or with a snapshot in which every bundle names the run and its own attempt, every
-- job of a bundle has a positive id and names the run (a job has no attempt number of its own), no
-- attempt has two bundles, and nothing is left out in silence: a stable snapshot has a bundle or a
-- gap for every attempt from 1 up to the run's last, and any other has a gap.
pub snapshot-IsFaithful :
    (c : AttemptCollector) (repository : RepositoryTarget) (run : ℤ)
    → Reports (IsFaithful run) (snapshot c repository run)
snapshot-IsFaithful c repository run = elim (Option-cases c.api) [
  | inl h ↦ subst (Reports (IsFaithful run)) (refused-no_api c repository run h) tt
  | inr (api, h) ↦ elim (Bool-cases (is_bad_target repository run)) [
    | inl k ↦ subst (Reports (IsFaithful run)) (refused-bad_target c repository run api h k) tt
    | inr k ↦ subst (Reports (IsFaithful run)) (after_parent-snapshot c repository run api h k) (
        Reports-after_parent api repository run (positive_or c.max_stabilization_passes 3)
          (api.get_workflow_run 0 run))
  ]
]
