-- ===== src/Collect/Enumerate.antt =====
-- internal/collect/window.go: `Enumerate`, which walks the cover of the requested window and keeps
-- each run once.
pub mod Kept
pub mod Complete
use cirewind.Base.{
  ℕ, suc, ◌+◌, ◌-◌, String, Bool, true, false, ◌&&◌, ◌||◌, not, Option, none, some, List, [], ◌∷◌,
  ◌++◌, if◌then◌else◌, Text, is_nil, any, Result, ok, err,
}
use cirewind.Base.Int.{ℤ, pos, negsuc, is_positive, same_ℤ}
use cirewind.Base.Order.{pair_order, nat_order, int_order}
use cirewind.Base.Sort.{sort_by}
use cirewind.Base.Time.{Time, second, is_zero}
use cirewind.Github.{WorkflowRun}
use cirewind.Collect.Gaps.{Gap, material_gap, malformed_response}
use cirewind.Collect.Windows.{Interval, new_interval, contains, second_cover}
use cirewind.Collect.Partition.{
  RunWindowApi, PartitionNode, Progress, Walked, walk, count_overlap_rows,
}

pub record RepositoryTarget : Type 0 where
  pub id : ℤ
  pub owner : Text
  pub name : Text

-- `API` is an interface and may be nil.
pub record Partitioner : Type 0 where
  pub api : Option RunWindowApi
  pub max_partitions : ℤ
  pub min_bucket : ℤ

pub record PartitionResult : Type 0 where
  pub requested : Interval
  pub queried : Interval
  pub root : PartitionNode
  pub runs : List WorkflowRun
  pub gaps : List Gap
  pub duplicate_observations : ℕ
  pub overlap_observations : ℕ

-- The loop that fills `seen`. The map is a list of the runs in the order of their entry; the sort
-- below takes the place of Go's order of iteration.
pub record Collected : Type 0 where
  pub seen : List WorkflowRun
  pub gaps : List Gap
  pub duplicates : ℕ

abbrev pub has_id : ℤ → WorkflowRun → Bool
has_id k run = same_ℤ run.id k

unfoldable pub observe : Interval → ℤ → WorkflowRun → Collected → Collected
observe requested repository run c =
    if not (is_positive run.id) || is_zero run.created_at
    then record c {
      gaps =
          c.gaps
          ++ material_gap malformed_response "workflow_run" repository run.id false
              "workflow run omitted a stable ID or created_at"
            ∷ [];
    }
    else if not (contains requested run.created_at)
    then c
    else if any (has_id run.id) c.seen
    then record c { duplicates = c.duplicates + 1 }
    else record c { seen = c.seen ++ run ∷ [] }

unfoldable pub collect_rows : Interval → ℤ → List WorkflowRun → Collected → Collected
collect_rows requested repository [] c = c
collect_rows requested repository (run ∷ rest) c =
    collect_rows requested repository rest (observe requested repository run c)

abbrev pub run_key : WorkflowRun → Time × ℤ
run_key run = (run.created_at, run.id)

-- An error with no result, an error beside what was found so far, or a result.
pub data Enumerated : Type 0 where
  refused : String → Enumerated
  interrupted : PartitionResult → Enumerated
  enumerated : PartitionResult → Enumerated

finish : RunWindowApi → ℤ → Interval → Walked → Enumerated
unfolding collect_rows observe sort_by count_overlap_rows contains is_zero
finish api repository requested walked =
    let found : PartitionResult = record {
      requested = requested;
      queried = second_cover requested;
      root = walked.root;
      runs = [];
      gaps = walked.progress.gaps;
      duplicate_observations = 0;
      overlap_observations = count_overlap_rows walked.root;
    } in
    if walked.stopped && api.cancelled walked.progress.work
    then interrupted found
    else (let c =
          collect_rows requested repository walked.runs
            (record { seen = []; gaps = walked.progress.gaps; duplicates = 0 }) in
        enumerated (record found {
          runs = sort_by run_key c.seen;
          gaps = c.gaps;
          duplicate_observations = c.duplicates;
        }))

abbrev pub positive_or : ℤ → ℕ → ℕ
positive_or (pos n) d = if is_positive (pos n) then n else d
positive_or (negsuc n) d = d

abbrev length_of : Interval → ℕ
length_of w = w.to - w.from

-- `none` would be a walk that its fuel, one more than the length of its window, cuts short.
walk_cover : RunWindowApi → ℕ → ℕ → ℤ → Interval → Option Walked
unfolding walk second_cover
walk_cover api max_partitions min_bucket repository requested =
    let queried = second_cover requested in
    walk api max_partitions min_bucket repository (suc (length_of queried)) queried
      (record { gaps = []; work = 0 })

unfoldable pub enumerate : Partitioner → RepositoryTarget → Interval → Option Enumerated
unfolding walk_cover finish new_interval
enumerate p repository requested = elim p.api [
  | none ↦ some (refused "run-window API is nil")
  | some api ↦ elim (new_interval requested.from requested.to) [
    | err e ↦ some (refused e)
    | ok _ ↦
        elim (not (is_positive repository.id)
          || is_nil repository.owner
          || is_nil repository.name) [
            | true ↦ some (refused "repository target is incomplete")
            | false ↦
                elim (walk_cover api (positive_or p.max_partitions 8192)
                  (positive_or p.min_bucket second) repository.id requested) [
                    | none ↦ none
                    | some walked ↦ some (finish api repository.id requested walked)
                  ]
          ]
  ]
]
