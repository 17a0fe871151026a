-- ===== src/Collect/Covering.antt =====
-- The whole-second cover of a window, and the halves of a split window.
use cirewind.Base.{ℕ, ◌+◌, ◌%◌, ◌≤◌, ◌<◌, ◌≡◌, false, ◌&&◌, ◌||◌, none, some, arith, ◌↔◌}
use cirewind.Base.Time.{Time, second}
use cirewind.Collect.Windows.{Interval, contains, second_cover, split_window}

-- Both ends are whole seconds.
abbrev pub IsAligned : Interval → Type 0
IsAligned w = (w.from % second ≡ 0) × (w.to % second ≡ 0)

-- The cover of a non-empty window has whole seconds for its ends, is not empty, holds every instant
-- of the window, and exceeds it by less than a second at each end.
pub second_cover_tight :
    (w : Interval)
    → w.from < w.to
    → IsAligned (second_cover w)
      × ((second_cover w).from ≤ w.from)
      × (w.from < (second_cover w).from + second)
      × (w.to ≤ (second_cover w).to)
      × ((second_cover w).to < w.to + second)
      × ((second_cover w).from < (second_cover w).to)
unfolding second_cover
second_cover_tight w h = ground arith

module _ (w l r : Interval) (minimum : ℕ) (split : split_window w minimum ≡ some (l, r)) where
  pub split_window_ends :
      (l.from ≡ w.from)
      × (l.to ≡ r.from)
      × (r.to ≡ w.to)
      × (l.from < l.to)
      × (r.from < r.to)
      × (r.from % second ≡ 0)
  unfolding split_window
  split_window_ends = ground arith

  -- The two halves have no instant in common, and together hold the instants of the window.
  pub split_window_exact :
      (t : Time)
      → (contains w t ≡ (contains l t || contains r t)) × ((contains l t && contains r t) ≡ false)
  unfolding contains
  split_window_exact t = ground (arith, split_window_ends)

-- A window of whole seconds is not split at one second exactly when it is at most a second long.
pub split_window_saturates :
    (w : Interval) → IsAligned w → (split_window w second ≡ none) ↔ (w.to ≤ w.from + second)
unfolding split_window
split_window_saturates w h = ((λ e. ground arith), (λ e. ground arith))
