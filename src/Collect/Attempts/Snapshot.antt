-- ===== src/Collect/Attempts/Snapshot.antt =====
-- internal/collect/attempts.go: `Snapshot`, which reads the attempts of a run in passes until two
-- readings of the run agree, within a budget of passes.
use cirewind.Base.{
  ℕ, zero, suc, true, false, ◌||◌, not, Option, none, some, [], ◌∷◌, ◌++◌, if◌then◌else◌, is_nil,
  List, same_text,
}
use cirewind.Base.Int.{ℤ, pos, pos_part, is_positive, same_ℤ}
use cirewind.Github.{Outcome, WorkflowRun, RunObject, ResponseMeta}
use cirewind.Collect.Gaps.{
  Gap, material_gap, gap_from_error, malformed_response, live_state_race, cancelled,
}
use cirewind.Collect.Enumerate.{RepositoryTarget, positive_or}
use cirewind.Collect.Attempts.{
  AttemptApi, AttemptSnapshot, Collecting, Snapshotted, refused, interrupted, collected, no_run,
  identity_gap, add_gaps, by_attempt, same_run_snapshot, collect_attempts,
}

abbrev pub add_responses : List ResponseMeta → AttemptSnapshot → AttemptSnapshot
add_responses rs s = record s { parent_responses = s.parent_responses ++ rs }

-- Out of passes.
abbrev pub race : RepositoryTarget → ℤ → WorkflowRun → AttemptSnapshot → AttemptSnapshot
race repository run current s = by_attempt (
    add_gaps
      (material_gap live_state_race "workflow_run" repository.id run true
          "run changed throughout the stabilization budget"
        ∷ [])
      (record s { final_parent = current }))

-- A failed reading of the run, with the gap that it leaves.
abbrev pub unread : AttemptApi → ℕ → Gap → AttemptSnapshot → Snapshotted
unread api calls gap s =
    if api.cancelled calls
    then interrupted (add_gaps (gap ∷ []) s)
    else collected (add_gaps (gap ∷ []) s)

abbrev pub stable_snapshot : WorkflowRun → AttemptSnapshot → AttemptSnapshot
stable_snapshot next s = by_attempt (record s { final_parent = next; stable = true })

-- The loop over the passes, with `left` passes to go; `current` is the last reading of the run.
unfoldable pub stabilize :
    AttemptApi → RepositoryTarget → ℤ → ℕ → WorkflowRun → Collecting → Snapshotted
unfolding gap_from_error collect_attempts same_text
stabilize api repository run zero current c = collected (race repository run current c.snapshot)
stabilize api repository run (suc left) current c = elim (api.cancelled c.calls) [
  | true ↦ interrupted (
      add_gaps
        (material_gap cancelled "workflow_run" repository.id run false
            "attempt collection cancelled"
          ∷ [])
        c.snapshot)
  | false ↦ elim (is_positive current.run_attempt) [
    | false ↦ collected (
        add_gaps
          (material_gap malformed_response "workflow_run" repository.id run false
              "run_attempt must be positive"
            ∷ [])
          c.snapshot)
    | true ↦
        (let d = collect_attempts api repository run (pos_part current.run_attempt) 1 c in
          let next = api.get_workflow_run d.calls run in
          let s = add_responses next.value.responses d.snapshot in
          elim next.failure [
            | some e ↦
                unread api (suc d.calls)
                  (gap_from_error "workflow_run_stabilization" repository.id run (pos 0) e) s
            | none ↦ elim (same_ℤ next.value.run.id run) [
              | false ↦ collected (
                  add_gaps
                    (identity_gap "workflow_run_stabilization" repository.id run (pos 0)
                        "stabilization response contradicted the requested run ID"
                        next.value.responses
                      ∷ [])
                    (record s { final_parent = next.value.run }))
              | true ↦ elim (same_run_snapshot current next.value.run) [
                | true ↦ collected (stable_snapshot next.value.run s)
                | false ↦ stabilize api repository run left next.value.run (record {
                  snapshot = record s { final_parent = next.value.run };
                  collected = d.collected;
                  calls = suc d.calls;
                })
              ]
            ]
          ])
  ]
]

abbrev pub empty_snapshot : AttemptSnapshot
empty_snapshot = record {
  initial_parent = no_run;
  final_parent = no_run;
  parent_responses = [];
  attempts = [];
  gaps = [];
  stable = false;
}

-- After the first reading of the run, which is the first call.
abbrev pub after_parent : AttemptApi → RepositoryTarget → ℤ → ℕ → Outcome RunObject → Snapshotted
after_parent api repository run passes parent =
    let s = add_responses parent.value.responses empty_snapshot in
    elim parent.failure [
      | some e ↦ unread api 1 (gap_from_error "workflow_run" repository.id run (pos 0) e) s
      | none ↦
          (let started = record s { initial_parent = parent.value.run } in
            if not (same_ℤ parent.value.run.id run)
            then collected (
                add_gaps
                  (identity_gap "workflow_run" repository.id run (pos 0)
                      "parent response contradicted the requested run ID" parent.value.responses
                    ∷ [])
                  started)
            else stabilize api repository run passes parent.value.run
                (record { snapshot = started; collected = []; calls = 1 }))
    ]

-- `API` is an interface and may be nil.
pub record AttemptCollector : Type 0 where
  pub api : Option AttemptApi
  pub max_stabilization_passes : ℤ

unfoldable pub snapshot : AttemptCollector → RepositoryTarget → ℤ → Snapshotted
unfolding stabilize gap_from_error
snapshot c repository run = elim c.api [
  | none ↦ refused "attempt API is nil"
  | some api ↦
      if not (is_positive repository.id)
        || is_nil repository.owner
        || is_nil repository.name
        || not (is_positive run)
      then refused "repository target or run ID is invalid"
      else after_parent api repository run (positive_or c.max_stabilization_passes 3)
          (api.get_workflow_run 0 run)
]
