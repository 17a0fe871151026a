-- ===== src/Collect/Attempts/Faithful.antt =====
-- internal/collect/attempts.go: what a snapshot promises, whichever way it ends.
use mathlib.Core.Path.{subst}
use cirewind.Base.{
  ℕ, ◌≤◌, ◌≡◌, refl, sym, true, false, List, [], ◌∷◌, ◌++◌, arith, is_nil, count_of, All,
}
use cirewind.Base.Int.{ℤ, pos_part}
use cirewind.Base.Order.{nat_order}
use cirewind.Base.Sort.{All-sort_by, any-sort_by, count_of-sort_by}
use cirewind.Github.{WorkflowRun}
use cirewind.Collect.Gaps.{Gap}
use cirewind.Collect.Attempts.{
  AttemptSnapshot, Collecting, Snapshotted, refused, interrupted, collected, add_gaps, by_attempt,
  same_run_snapshot,
}
use cirewind.Collect.Attempts.Sound.{IsBundleOf, has_attempt, is_accounted, Inv}

-- Each bundle names the run and its attempt, and its jobs have positive ids and name the run; no
-- attempt has two bundles; when the snapshot is stable, every attempt from 1 up to the run's last
-- has a bundle or a gap; when it is not, it has a gap.
pub record IsFaithful (run : ℤ) (s : AttemptSnapshot) : Type 0 where
  pub sound : All (IsBundleOf run) s.attempts
  pub once : (a : ℕ) → count_of (has_attempt a) s.attempts ≤ 1
  pub complete :
      s.stable ≡ true
      → (a : ℕ) → 1 ≤ a
      → a ≤ pos_part s.final_parent.run_attempt
      → is_accounted a s ≡ true
  pub visible : s.stable ≡ false → is_nil s.gaps ≡ false

abbrev pub Reports : (AttemptSnapshot → Type 0) → Snapshotted → Type 0
Reports P (refused message) = Unit
Reports P (interrupted s) = P s
Reports P (collected s) = P s

append_not_nil : (xs : List Gap) (g : Gap) → is_nil (xs ++ g ∷ []) ≡ false
append_not_nil [] g = refl
append_not_nil (x ∷ xs) g = refl

pub IsFaithful-gap :
    (run : ℤ) (c : Collecting) (s : AttemptSnapshot) (gap : Gap)
    → Inv run c
    → s.attempts ≡ c.snapshot.attempts
    → s.stable ≡ false
    → IsFaithful run (add_gaps (gap ∷ []) s)
IsFaithful-gap run c s gap i e f = record {
  sound = subst (All (IsBundleOf run)) (sym e) i.sound;
  once = λ a. rw e (i.once a);
  complete = λ h. cc;
  visible = λ h. append_not_nil s.gaps gap;
}

pub IsFaithful-by_attempt :
    (run : ℤ) (s : AttemptSnapshot) → IsFaithful run s → IsFaithful run (by_attempt s)
IsFaithful-by_attempt run s f = record {
  sound = All-sort_by (λ b. b.attempt) (IsBundleOf run) s.attempts f.sound;
  once = λ a. rw (count_of-sort_by (λ b. b.attempt) (has_attempt a) s.attempts) (f.once a);
  complete =
      λ h a l k. rw (any-sort_by (λ b. b.attempt) (has_attempt a) s.attempts) (f.complete h a l k);
  visible = f.visible;
}

pub same_run_attempt :
    (a b : WorkflowRun) → same_run_snapshot a b ≡ true → a.run_attempt ≡ b.run_attempt
same_run_attempt a b h = ground arith
