-- ===== src/Exposure/Order.antt =====
-- internal/exposure/exposure.go: which steps `HappensBefore` orders.
use cirewind.Base.{
  ℕ, ◌≤◌, ◌<◌, ◌≡◌, ◌⊎◌, ◌↔◌, true, false, ◌||◌, some, List, [], ◌∷◌, arith, any, Text, is_nil,
  same_text_refl, same_text_sound, Option-cases, Bool-cases, inl, inr, Bool, refl,
}
use cirewind.Base.Time.{is_zero}
use cirewind.Exposure.Types.{StepInterval, SynchronizationEdge}
use cirewind.Exposure.Analyze.{find_interval, ends_before, synchronizes, happens_before}

-- The end of the first and the start of the second are known, and every instant up to the end of
-- the first is before every instant from the start of the second on.
pub record Precedes (from to : StepInterval) : Type 0 where
  pub ended : is_zero from.end ≡ false
  pub begun : is_zero to.start ≡ false
  pub apart : (t u : ℕ) → t ≤ from.end → to.start ≤ u → t < u

-- An edge of the list from the one step to the other, with evidence.
pub data HasEdge (from to : Text) : List SynchronizationEdge → Type 0 where
  here :
      (edge : SynchronizationEdge) (rest : List SynchronizationEdge)
      → edge.from_step ≡ from
      → edge.to_step ≡ to
      → is_nil edge.evidence_ids ≡ false
      → HasEdge from to (edge ∷ rest)
  later :
      (edge : SynchronizationEdge) (rest : List SynchronizationEdge)
      → HasEdge from to rest
      → HasEdge from to (edge ∷ rest)

module _ (from to : Text) where
  edge_found :
      (edges : List SynchronizationEdge)
      → any (synchronizes from to) edges ≡ true
      → HasEdge from to edges
  edge_found [] h = absurd (cc h)
  edge_found (e ∷ rest) h = elim (Bool-cases (synchronizes from to e)) [
    | inl q ↦
        here e rest (same_text_sound e.from_step from (ground arith))
          (same_text_sound e.to_step to (ground arith)) (ground arith)
    | inr q ↦ later e rest (edge_found rest (rw q at h))
  ]

  meets :
      (rest : List SynchronizationEdge) (e : SynchronizationEdge)
      → e.from_step ≡ from
      → e.to_step ≡ to
      → is_nil e.evidence_ids ≡ false
      → any (synchronizes from to) (e ∷ rest) ≡ true
  meets rest e a b c = rw (a, b, c, same_text_refl from, same_text_refl to) refl

  edge_counts :
      (edges : List SynchronizationEdge)
      → HasEdge from to edges
      → any (synchronizes from to) edges ≡ true
  edge_counts edges (here e rest a b c) = meets rest e a b c
  edge_counts edges (later e rest h) = ground (arith, edge_counts rest h)

-- The intervals that the two steps have, the first of which precedes the second.
pub record Separate (from to : Text) (intervals : List (Text × StepInterval)) : Type 0 where
  pub first : StepInterval
  pub second : StepInterval
  pub first_found : find_interval from intervals ≡ some first
  pub second_found : find_interval to intervals ≡ some second
  pub precedes : Precedes first second

before-Precedes : (i j : StepInterval) → ends_before (some i) (some j) ≡ true → Precedes i j
unfolding is_zero
before-Precedes i j h = record {
  ended = ground arith;
  begun = ground arith;
  apart = λ t u l k. ground arith;
}

Precedes-before : (i j : StepInterval) → Precedes i j → ends_before (some i) (some j) ≡ true
Precedes-before i j p =
    ground (arith, p.ended, p.begun, p.apart i.end j.start (omega arith) (omega arith))

module _ (from to : Text) (intervals : List (Text × StepInterval)) where
  Separate-given :
      ends_before (find_interval from intervals) (find_interval to intervals) ≡ true
      → Separate from to intervals
  Separate-given h = elim (Option-cases (find_interval from intervals)) [
    | inl e ↦ absurd (cc (rw e at h))
    | inr (i, e) ↦ elim (Option-cases (find_interval to intervals)) [
      | inl f ↦ absurd (cc (rw (e, f) at h))
      | inr (j, f) ↦ record {
        first = i;
        second = j;
        first_found = e;
        second_found = f;
        precedes = before-Precedes i j (rw (e, f) at h);
      }
    ]
  ]

  Separate-counts :
      Separate from to intervals
      → ends_before (find_interval from intervals) (find_interval to intervals) ≡ true
  Separate-counts s =
      rw (s.first_found, s.second_found) (Precedes-before s.first s.second s.precedes)

  either : (a b : Bool) → (a || b) ≡ true → (a ≡ true) ⊎ (b ≡ true)
  either true b h = inl refl
  either false b h = inr h

  -- `HappensBefore` holds of two steps exactly when the two have intervals, of which the first
  -- one's end and the second one's start are known, and every instant up to that end is before
  -- every instant from that start on; or when an edge with evidence leads from the first step to
  -- the second. So overlapping steps without such an edge are unordered.
  pub happens_before_iff :
      (edges : List SynchronizationEdge)
      → (happens_before from to intervals edges ≡ true)
        ↔ (Separate from to intervals ⊎ HasEdge from to edges)
  unfolding happens_before
  happens_before_iff edges = (needs, given)
    where
      needs :
          happens_before from to intervals edges ≡ true
          → Separate from to intervals ⊎ HasEdge from to edges
      needs h =
          elim (either (ends_before (find_interval from intervals) (find_interval to intervals))
            (any (synchronizes from to) edges) h) [
              | inl e ↦ inl (Separate-given e)
              | inr e ↦ inr (edge_found from to edges e)
            ]

      given :
          Separate from to intervals ⊎ HasEdge from to edges
          → happens_before from to intervals edges ≡ true
      given (inl s) = rw (Separate-counts s) refl
      given (inr e) = ground (arith, edge_counts from to edges e)
