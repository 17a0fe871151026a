-- ===== src/Collect/Partition/Windowed.antt =====
-- What a walk promises about one run of the repository: it is found unless a gap is reported, and
-- everything found lies in the window.
use cirewind.Base.{
  ℕ, suc, ◌≤◌, ◌<◌, ◌≡◌, Bool, true, false, ◌&&◌, List, [], ◌∷◌, ◌++◌, arith, length, length-append,
  keep, any, All, ap, ◌∙◌, Bool-cases, inl, inr, ◌==◌, if◌then◌else◌,
}
use cirewind.Base.Int.{pos, ltb_ℤ, same_ℤ}
use cirewind.Github.{WorkflowRun}
use cirewind.Collect.Gaps.{Gap}
use cirewind.Collect.Windows.{Interval, contains}
use cirewind.Collect.Covering.{IsAligned}
use cirewind.Collect.Partition.{Filter, RunWindowApi, Progress, Walked, add_gap}
use cirewind.Collect.Partition.Rule.{IsUsable}

-- The row is the run: same id and same time of creation.
abbrev pub is_row : WorkflowRun → WorkflowRun → Bool
is_row r x = same_ℤ x.id r.id && x.created_at == r.created_at

-- The service on one run `r` of the repository. A search that succeeds, is not cut and has no fewer
-- rows than its total has every run that was created in its range, both ends included. A search may
-- have a run more than once.
pub record Serves (api : RunWindowApi) (r : WorkflowRun) : Type 0 where
  pub shows :
      (n : ℕ) (f : Filter)
      → IsUsable (api.list_runs n f)
      → ltb_ℤ (pos (length (api.list_runs n f).value.runs)) (api.list_runs n f).value.total_count
        ≡ false
      → f.lo ≤ r.created_at
      → r.created_at ≤ f.hi
      → any (is_row r) (api.list_runs n f).value.runs ≡ true

pub record Contract (r : WorkflowRun) (w : Interval) (p : Progress) (out : Walked) : Type 0 where
  pub within : All (λ x. contains w x.created_at ≡ true) out.runs
  pub grows : length p.gaps ≤ length out.progress.gaps
  pub stopping : out.stopped ≡ true → length p.gaps < length out.progress.gaps
  pub found :
      IsAligned w
      → contains w r.created_at ≡ true
      → length out.progress.gaps ≡ length p.gaps
      → any (is_row r) out.runs ≡ true

pub length-add_gap :
    (p p' : Progress) (g : Gap)
    → p'.gaps ≡ p.gaps
    → length (add_gap p' g).gaps ≡ suc (length p.gaps)
length-add_gap p p' g e = rw e (omega (arith, length-append p.gaps (g ∷ [])))

pub any-append_left :
    (f : WorkflowRun → Bool) (xs ys : List WorkflowRun) → any f xs ≡ true → any f (xs ++ ys) ≡ true
any-append_left f [] ys h = cc
any-append_left f (x ∷ xs) ys h = ground (arith, any-append_left f xs ys)

pub any-append_right :
    (f : WorkflowRun → Bool) (xs ys : List WorkflowRun) → any f ys ≡ true → any f (xs ++ ys) ≡ true
any-append_right f [] ys h = h
any-append_right f (x ∷ xs) ys h = ground (arith, any-append_right f xs ys)

module _ (r : WorkflowRun) where
  is_row-created : (x : WorkflowRun) → is_row r x ≡ true → x.created_at ≡ r.created_at
  is_row-created x q = ground arith

  pub contains-is_row :
      (w : Interval) (x : WorkflowRun)
      → is_row r x ≡ true
      → contains w x.created_at ≡ contains w r.created_at
  contains-is_row w x q = ap (contains w) (is_row-created x q)

  pub keep-inside_any :
      (w : Interval) (xs : List WorkflowRun)
      → contains w r.created_at ≡ true
      → any (is_row r) xs ≡ true
      → any (is_row r) (keep (λ x. contains w x.created_at) xs) ≡ true
  keep-inside_any w [] e h = cc
  keep-inside_any w (x ∷ xs) e h = elim (Bool-cases (is_row r x)) [
    | inl q ↦ rw (contains-is_row w x q ∙ e) (rw q)
    | inr q ↦ later (contains w x.created_at) q (keep-inside_any w xs e (rw q at h))
  ]
    where
      later :
          (b : Bool)
          → is_row r x ≡ false
          → any (is_row r) (keep (λ x. contains w x.created_at) xs) ≡ true
          → any (is_row r) (
              if b
              then x ∷ keep (λ x. contains w x.created_at) xs
              else keep (λ x. contains w x.created_at) xs)
            ≡ true
      later true q k = rw q k
      later false q k = k
