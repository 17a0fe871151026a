-- ===== src/Collect/Enumerate/Complete.antt =====
-- `Enumerate` returns, and what its result says about the runs of the requested window.
use mathlib.Core.Path.{subst}
use cirewind.Base.{
  ℕ, suc, ◌-◌, ◌≤◌, ◌<◌, ◌≡◌, ap, ◌∙◌, sym, true, false, none, some, [], arith, any, All, count_of,
  length, is_some, Option-cases, inl, inr, ok,
}
use cirewind.Base.Int.{ℤ, is_positive}
use cirewind.Base.Order.{pair_order, nat_order, int_order}
use cirewind.Base.Sort.{
  sort_by, IsSorted, sort_by-IsSorted, All-sort_by, any-sort_by, count_of-sort_by,
}
use cirewind.Base.Time.{second, is_zero}
use cirewind.Github.{WorkflowRun}
use cirewind.Collect.Windows.{Interval, new_interval, contains, second_cover}
use cirewind.Collect.Covering.{second_cover_tight}
use cirewind.Collect.Partition.{RunWindowApi, Progress, Walked}
use cirewind.Collect.Partition.Rule.{OnSome}
use cirewind.Collect.Partition.Totality.{walk_total}
use cirewind.Collect.Partition.Windowed.{is_row, Serves, Contract}
use cirewind.Collect.Partition.Found.{walk-Contract}
use cirewind.Collect.Enumerate.{
  RepositoryTarget, Partitioner, PartitionResult, Collected, has_id, collect_rows, run_key,
  enumerated, finish, positive_or, walk_cover, enumerate,
}
use cirewind.Collect.Enumerate.Kept.{
  IsKept, collect_rows-IsKept, grows-collect_rows, found-collect_rows,
}

walk_cover_total :
    (api : RunWindowApi) (max_partitions min_bucket : ℕ) (repository : ℤ) (requested : Interval)
    → is_some (walk_cover api max_partitions min_bucket repository requested) ≡ true
unfolding walk_cover
walk_cover_total api max_partitions min_bucket repository requested =
    let queried = second_cover requested in
    walk_total api max_partitions min_bucket repository (suc (queried.to - queried.from)) queried
      (record { gaps = []; work = 0 }) (omega arith)

-- `Enumerate` returns whatever the service answers: the walk of the cover ends.
pub enumerate_total :
    (p : Partitioner) (repository : RepositoryTarget) (requested : Interval)
    → is_some (enumerate p repository requested) ≡ true
unfolding enumerate
enumerate_total p repository requested = elim (Option-cases p.api) [
  | inl e ↦ rw (e, enumerate)
  | inr (api, e) ↦ ground (
    arith,
    walk_cover_total api (positive_or p.max_partitions 8192) (positive_or p.min_bucket second)
        repository.id requested,
  )
]

new_interval-order :
    (requested : Interval) (i : Interval)
    → new_interval requested.from requested.to ≡ ok i
    → requested.from < requested.to
unfolding new_interval
new_interval-order requested i h = ground arith

-- The walk behind a result.
record Behind (p : Partitioner) (repository : RepositoryTarget) (requested : Interval)
    (result : PartitionResult) : Type 0 where
  api : RunWindowApi
  walked : Walked
  given : p.api ≡ some api
  ordered : requested.from < requested.to
  walk_done :
      walk_cover api
        (positive_or p.max_partitions 8192)
        (positive_or p.min_bucket second)
        repository.id
        requested
      ≡ some walked
  finished : finish api repository.id requested walked ≡ enumerated result

behind :
    (p : Partitioner) (repository : RepositoryTarget) (requested : Interval)
    (result : PartitionResult)
    → enumerate p repository requested ≡ some (enumerated result)
    → Behind p repository requested result
unfolding enumerate
behind p repository requested result h = elim (Option-cases p.api) [
  | inl e ↦ absurd (no_api e)
  | inr (api, e) ↦ with_api api e
]
  where
    no_api : p.api ≡ none → ⊥
    no_api e = ground arith

    with_api : (api : RunWindowApi) → p.api ≡ some api → Behind p repository requested result
    with_api api e =
        let found =
          walk_cover api (positive_or p.max_partitions 8192) (positive_or p.min_bucket second)
            repository.id requested in
        elim (Option-cases found) [
          | inl q ↦ cc (
            q,
            walk_cover_total api (positive_or p.max_partitions 8192)
                (positive_or p.min_bucket second) repository.id requested,
          )
          | inr (walked, q) ↦ record {
            api = api;
            walked = walked;
            given = e;
            ordered = ground arith;
            walk_done = q;
            finished = ground arith;
          }
        ]

module _ (api : RunWindowApi) (repository : ℤ) (requested : Interval) (walked : Walked)
    (result : PartitionResult)
    (finished : finish api repository requested walked ≡ enumerated result) where
  abbrev start : Collected
  start = record { seen = []; gaps = walked.progress.gaps; duplicates = 0 }

  abbrev kept : Collected
  kept = collect_rows requested repository walked.runs start

  runs-finish : result.runs ≡ sort_by run_key kept.seen
  unfolding finish
  runs-finish = ground arith

  gaps-finish : result.gaps ≡ kept.gaps
  unfolding finish
  gaps-finish = ground arith

  start-IsKept : IsKept requested start
  start-IsKept = record { inside = tt; identified = tt; distinct = λ k. omega arith }

  kept-IsKept : IsKept requested kept
  kept-IsKept = collect_rows-IsKept requested repository walked.runs start start-IsKept

-- A result holds only runs of the requested window with a positive id, sorted by time of creation
-- and then id, and no two with one id.
pub enumerate_sound :
    (p : Partitioner) (repository : RepositoryTarget) (requested : Interval)
    (result : PartitionResult)
    → enumerate p repository requested ≡ some (enumerated result)
    → All (λ x. contains requested x.created_at ≡ true) result.runs
      × All (λ x. is_positive x.id ≡ true) result.runs
      × ((k : ℤ) → count_of (has_id k) result.runs ≤ 1)
      × IsSorted run_key result.runs
enumerate_sound p repository requested result h =
    let b = behind p repository requested result h in
    let sorted = runs-finish b.api repository.id requested b.walked result b.finished in
    let k = kept-IsKept b.api repository.id requested b.walked result b.finished in
    let seen = kept b.api repository.id requested b.walked result b.finished in
    (
      rw sorted
          (All-sort_by run_key (λ x. contains requested x.created_at ≡ true) seen.seen k.inside),
      rw sorted (All-sort_by run_key (λ x. is_positive x.id ≡ true) seen.seen k.identified),
      λ i. rw (sorted, count_of-sort_by run_key (has_id i) seen.seen) (k.distinct i),
      rw sorted (sort_by-IsSorted run_key seen.seen),
    )

cover-Contract :
    (api : RunWindowApi) (max_partitions min_bucket : ℕ) (repository : ℤ) (requested : Interval)
    (r : WorkflowRun) (walked : Walked)
    → Serves api r
    → walk_cover api max_partitions min_bucket repository requested ≡ some walked
    → Contract r (second_cover requested) (record { gaps = []; work = 0 }) walked
unfolding walk_cover
cover-Contract api max_partitions min_bucket repository requested r walked serves h =
    let queried = second_cover requested in
    let begin : Progress = record { gaps = []; work = 0 } in
    subst (OnSome (Contract r queried begin)) h (
      walk-Contract api max_partitions min_bucket repository r serves
        (suc (queried.to - queried.from)) queried begin)

contains-second_cover :
    (w : Interval) (t : ℕ)
    → w.from < w.to
    → contains w t ≡ true
    → contains (second_cover w) t ≡ true
unfolding contains
contains-second_cover w t o h = ground (arith, second_cover_tight w o)

-- No run is lost silently: where the service shows the run `r`, once or more often, in every
-- full search of a range that holds its creation, and the result reports no gap, `r` is among the runs of the result if
-- it was created in the requested window and has a positive id and a date.
pub enumerate_complete :
    (p : Partitioner) (repository : RepositoryTarget) (requested : Interval)
    (result : PartitionResult) (r : WorkflowRun)
    → ((api : RunWindowApi) → p.api ≡ some api → Serves api r)
    → is_positive r.id ≡ true
    → is_zero r.created_at ≡ false
    → contains requested r.created_at ≡ true
    → enumerate p repository requested ≡ some (enumerated result)
    → result.gaps ≡ []
    → any (has_id r.id) result.runs ≡ true
enumerate_complete p repository requested result r serves positive dated inside h no_gap =
    let b = behind p repository requested result h in
    let seen = kept b.api repository.id requested b.walked result b.finished in
    let contract =
      cover-Contract b.api (positive_or p.max_partitions 8192) (positive_or p.min_bucket second)
        repository.id requested r b.walked (serves b.api b.given) b.walk_done in
    let quiet : length seen.gaps ≡ 0 =
      ap length
        (sym (gaps-finish b.api repository.id requested b.walked result b.finished) ∙ no_gap) in
    let grown =
      grows-collect_rows requested repository.id b.walked.runs
        (start b.api repository.id requested b.walked result b.finished) in
    let row : any (is_row r) b.walked.runs ≡ true =
      contract.found (second_cover_tight requested b.ordered).0
        (contains-second_cover requested r.created_at b.ordered inside)
        (omega (arith, quiet, grown)) in
    rw
      (
        runs-finish b.api repository.id requested b.walked result b.finished,
        any-sort_by run_key (has_id r.id) seen.seen,
      )
      (found-collect_rows requested repository.id r positive dated inside b.walked.runs
        (start b.api repository.id requested b.walked result b.finished) row)
