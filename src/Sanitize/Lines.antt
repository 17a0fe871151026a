-- ===== src/Sanitize/Lines.antt =====
-- internal/sanitize/text.go: the number of lines that `WrapDisplay` gives.
use cirewind.Base.{
  ℕ, zero, suc, ◌≤◌, ◌≡◌, refl, Bool, true, false, not, ◌||◌, List, [], ◌∷◌, length, take, drop,
  if◌then◌else◌, Text, arith,
}
use cirewind.Base.Int.{ℤ, is_positive, pos_part}
use cirewind.Sanitize.Runes.{trim_left}
use cirewind.Sanitize.Display.{
  wrap_display, wrap_lines, measure, next_line, some_line, mark_last, marked, unavailable, runes_of,
  at_least_one,
}

wrap_lines-length : (n max_units : ℕ) (runes : List ℕ) → length (wrap_lines n max_units runes).0 ≤ n
unfolding wrap_lines
wrap_lines-length zero max_units runes = omega arith
wrap_lines-length (suc n) max_units [] = omega arith
wrap_lines-length (suc n) max_units (r ∷ rest) = one_more (
    wrap_lines-length n max_units
      (trim_left (drop (next_line (measure max_units (r ∷ rest)) (r ∷ rest)).1 (r ∷ rest))))
  where
    one_more : {a : ℕ} → a ≤ n → suc a ≤ suc n
    one_more h = omega arith

mark_last-length :
    (max_units : ℕ) (lines : List (List ℕ)) → length (mark_last max_units lines) ≡ length lines
mark_last-length max_units [] = refl
mark_last-length max_units (line ∷ []) = refl
mark_last-length max_units (line ∷ after ∷ rest) =
    omega (arith, mark_last-length max_units (after ∷ rest))

abbrev IsCounted : ℕ → List (List ℕ) → Type 0
IsCounted max lines = (1 ≤ length lines) × (length lines ≤ at_least_one max)

some_line-IsCounted :
    (max : ℕ) (lines : List (List ℕ)) → length lines ≤ max → IsCounted max (some_line lines)
some_line-IsCounted zero [] h = (omega arith, omega arith)
some_line-IsCounted (suc max) [] h = (omega arith, omega arith)
some_line-IsCounted zero (line ∷ rest) h = absurd (omega arith)
some_line-IsCounted (suc max) (line ∷ rest) h = (omega arith, h)

marked-IsCounted :
    (max max_units : ℕ) (truncated : Bool) (lines : List (List ℕ))
    → length lines ≤ max
    → IsCounted max (marked max_units truncated lines).0
marked-IsCounted max max_units true lines h =
    let c = some_line-IsCounted max lines h in
    let m = mark_last-length max_units (some_line lines) in
    (omega (arith, c.0, m), omega (arith, c.1, m))
marked-IsCounted max max_units false lines h = some_line-IsCounted max lines h

-- `WrapDisplay` gives one line at least, and no more lines than it is asked for, or one where it is
-- asked for none.
pub wrap_display_lem :
    (value : Text) (max_runes max_units max_lines : ℤ)
    → (1 ≤ length (wrap_display value max_runes max_units max_lines).0)
      × (length (wrap_display value max_runes max_units max_lines).0
          ≤ at_least_one (pos_part max_lines))
unfolding wrap_display
wrap_display_lem value max_runes max_units max_lines =
    counted_if
      (not (is_positive max_runes) || not (is_positive max_units) || not (is_positive max_lines)) _
      _ (one_line (pos_part max_lines))
      (marked-IsCounted (pos_part max_lines) (pos_part max_units) _ _ (
        wrap_lines-length (pos_part max_lines) (pos_part max_units)
          (take (pos_part max_runes) (runes_of value))))
  where
    one_line : (n : ℕ) → IsCounted n (unavailable ∷ [])
    one_line zero = (omega arith, omega arith)
    one_line (suc n) = (omega arith, omega arith)

    counted_if :
        (b : Bool) (x y : List (List ℕ) × Bool)
        → IsCounted (pos_part max_lines) x.0
        → IsCounted (pos_part max_lines) y.0
        → IsCounted (pos_part max_lines) (if b then x else y).0
    counted_if true x y h k = h
    counted_if false x y h k = k
