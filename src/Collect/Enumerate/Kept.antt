-- ===== src/Collect/Enumerate/Kept.antt =====
-- The rows that `Enumerate` keeps: inside the window, each id once, and none of them lost.
use mathlib.Core.Path.{subst}
use cirewind.Base.{
  ◌≤◌, ◌≡◌, refl, ap, ◌∙◌, Bool, true, false, ◌||◌, not, List, [], ◌∷◌, ◌++◌, arith, any, All,
  All-append, count_of, count_of-append, length, length-append, Bool-cases, inl, inr,
}
use cirewind.Base.Int.{ℤ, is_positive, same_ℤ_iff, same_ℤ_refl}
use cirewind.Base.Time.{is_zero}
use cirewind.Github.{WorkflowRun}
use cirewind.Collect.Windows.{Interval, contains}
use cirewind.Collect.Enumerate.{Collected, has_id, observe, collect_rows}
use cirewind.Collect.Partition.Windowed.{is_row, any-append_left, any-append_right}

pub record IsKept (requested : Interval) (c : Collected) : Type 0 where
  pub inside : All (λ x. contains requested x.created_at ≡ true) c.seen
  pub identified : All (λ x. is_positive x.id ≡ true) c.seen
  pub distinct : (k : ℤ) → count_of (has_id k) c.seen ≤ 1

module _ (requested : Interval) (repository : ℤ) where
  not_counted :
      (k : ℤ) (xs : List WorkflowRun) → any (has_id k) xs ≡ false → count_of (has_id k) xs ≡ 0
  not_counted k [] h = refl
  not_counted k (x ∷ xs) h = ground (arith, not_counted k xs)

  keep_new :
      (c : Collected) (run : WorkflowRun)
      → IsKept requested c
      → is_positive run.id ≡ true
      → contains requested run.created_at ≡ true
      → any (has_id run.id) c.seen ≡ false
      → IsKept requested (record c { seen = c.seen ++ run ∷ [] })
  keep_new c run h i e n = record {
    inside =
        All-append (λ x. contains requested x.created_at ≡ true) c.seen (run ∷ []) h.inside (e, tt);
    identified = All-append (λ x. is_positive x.id ≡ true) c.seen (run ∷ []) h.identified (i, tt);
    distinct = λ k. rw count_of-append (elim (Bool-cases (has_id k run)) [
      | inl q ↦ rw q (omega (arith, new_id k q))
      | inr q ↦ rw q (omega (arith, h.distinct k))
    ]);
  }
    where
      new_id : (k : ℤ) → has_id k run ≡ true → count_of (has_id k) c.seen ≡ 0
      new_id k q = rw (← (same_ℤ_iff run.id k).0 q) (not_counted run.id c.seen n)

  abbrev unusable : WorkflowRun → Bool
  unusable run = not (is_positive run.id) || is_zero run.created_at

  observe-IsKept :
      (run : WorkflowRun) (c : Collected)
      → IsKept requested c
      → IsKept requested (observe requested repository run c)
  unfolding observe
  observe-IsKept run c h = elim (Bool-cases (unusable run)) [
    | inl u ↦
        rw (u, observe)
          (record { inside = h.inside; identified = h.identified; distinct = h.distinct })
    | inr u ↦ elim (Bool-cases (contains requested run.created_at)) [
      | inr e ↦ rw (u, e, observe) h
      | inl e ↦ elim (Bool-cases (any (has_id run.id) c.seen)) [
        | inl d ↦
            rw (u, e, d, observe)
              (record { inside = h.inside; identified = h.identified; distinct = h.distinct })
        | inr d ↦ rw (u, e, d, observe) (keep_new c run h (ground arith) e d)
      ]
    ]
  ]

  pub collect_rows-IsKept :
      (rows : List WorkflowRun) (c : Collected)
      → IsKept requested c
      → IsKept requested (collect_rows requested repository rows c)
  unfolding collect_rows
  collect_rows-IsKept [] c h = h
  collect_rows-IsKept (run ∷ rest) c h =
      collect_rows-IsKept rest (observe requested repository run c) (observe-IsKept run c h)

  grows-observe :
      (run : WorkflowRun) (c : Collected)
      → length c.gaps ≤ length (observe requested repository run c).gaps
  unfolding observe
  grows-observe run c = grind (arith, length-append)

  pub grows-collect_rows :
      (rows : List WorkflowRun) (c : Collected)
      → length c.gaps ≤ length (collect_rows requested repository rows c).gaps
  unfolding collect_rows
  grows-collect_rows [] c = omega arith
  grows-collect_rows (run ∷ rest) c =
      omega
        (arith, grows-observe run c, grows-collect_rows rest (observe requested repository run c))

  observe_keeps :
      (k : ℤ) (run : WorkflowRun) (c : Collected)
      → any (has_id k) c.seen ≡ true
      → any (has_id k) (observe requested repository run c).seen ≡ true
  unfolding observe
  observe_keeps k run c h = ground (arith, any-append_left (has_id k) c.seen (run ∷ []) h)

  collect_rows_keeps :
      (k : ℤ) (rows : List WorkflowRun) (c : Collected)
      → any (has_id k) c.seen ≡ true
      → any (has_id k) (collect_rows requested repository rows c).seen ≡ true
  unfolding collect_rows
  collect_rows_keeps k [] c h = h
  collect_rows_keeps k (run ∷ rest) c h =
      collect_rows_keeps k rest (observe requested repository run c) (observe_keeps k run c h)

  observe_usable :
      (run : WorkflowRun) (c : Collected)
      → unusable run ≡ false
      → contains requested run.created_at ≡ true
      → any (has_id run.id) (observe requested repository run c).seen ≡ true
  unfolding observe
  observe_usable run c u e =
      ground (arith, same_ℤ_refl run.id, any-append_right (has_id run.id) c.seen (run ∷ []))

  module _ (r : WorkflowRun) (positive : is_positive r.id ≡ true)
      (dated : is_zero r.created_at ≡ false)
      (requested_r : contains requested r.created_at ≡ true) where
    unusable-row :
        (run : WorkflowRun) → run.id ≡ r.id → run.created_at ≡ r.created_at → unusable run ≡ false
    unusable-row run i t = rw (i, t, positive, dated)

    observe_row :
        (run : WorkflowRun) (c : Collected)
        → is_row r run ≡ true
        → any (has_id r.id) (observe requested repository run c).seen ≡ true
    observe_row run c q =
        let same_id : run.id ≡ r.id = ground (arith, same_ℤ_iff run.id r.id) in
        let same_time : run.created_at ≡ r.created_at = ground arith in
        subst (λ k. any (has_id k) (observe requested repository run c).seen ≡ true) same_id
          (observe_usable run c (unusable-row run same_id same_time)
            (ap (contains requested) same_time ∙ requested_r))

    -- A row of the run leaves its id among the kept runs.
    pub found-collect_rows :
        (rows : List WorkflowRun) (c : Collected)
        → any (is_row r) rows ≡ true
        → any (has_id r.id) (collect_rows requested repository rows c).seen ≡ true
    unfolding collect_rows
    found-collect_rows [] c h = cc
    found-collect_rows (run ∷ rest) c h = elim (Bool-cases (is_row r run)) [
      | inl q ↦
          collect_rows_keeps r.id rest (observe requested repository run c) (observe_row run c q)
      | inr q ↦ found-collect_rows rest (observe requested repository run c) (rw q at h)
    ]
