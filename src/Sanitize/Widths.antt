-- ===== src/Sanitize/Widths.antt =====
-- internal/sanitize/text.go: the room that displayed text takes.
use cirewind.Base.{
  ℕ, zero, suc, ◌+◌, ◌-◌, ◌≤◌, ◌≡◌, refl, Bool, true, false, not, ◌||◌, List, [], ◌∷◌, ◌++◌, length,
  length-append, ltb, if◌then◌else◌, Text, arith,
}
use cirewind.Base.Int.{ℤ, is_positive, pos_part}
use cirewind.Sanitize.Runes.{trim_left, trim_right, trim_space, is_space}
use cirewind.Sanitize.Fits.{kept_if, kept_when, not_over}
use cirewind.Sanitize.Presentation.{shorten, drop_last}
use cirewind.Sanitize.Presented.{shorten_short}
use cirewind.Sanitize.Display.{
  truncate_display, fill, ended, append_display_ellipsis, units_of, display_units, ellipsis,
  too_wide, runes_of,
}

-- At most so many runes, of at most so many units together.
abbrev pub IsWithin : ℕ → ℕ → List ℕ → Type 0
IsWithin runes units out = (length out ≤ runes) × (units_of out ≤ units)

fill-IsWithin : (runes units : ℕ) (value : List ℕ) → IsWithin runes units (fill runes units value).0
fill-IsWithin runes units [] = (omega arith, omega arith)
fill-IsWithin zero units (r ∷ rest) = (omega arith, omega arith)
fill-IsWithin (suc n) units (r ∷ rest) =
    ground (arith, fill-IsWithin n (units - display_units r) rest)

trim_left-IsWithin :
    (runes units : ℕ) (out : List ℕ)
    → IsWithin runes units out
    → IsWithin runes units (trim_left out)
trim_left-IsWithin runes units [] h = h
trim_left-IsWithin runes units (r ∷ rest) h =
    kept_if (IsWithin runes units) (is_space r) (trim_left rest) (r ∷ rest)
      (trim_left-IsWithin runes units rest (omega (arith, h.0), omega (arith, h.1))) h

trim_right_within :
    (out : List ℕ)
    → (length (trim_right out) ≤ length out) × (units_of (trim_right out) ≤ units_of out)
trim_right_within [] = (omega arith, omega arith)
trim_right_within (r ∷ rest) = ground (arith, trim_right_within rest)

trim_space-IsWithin :
    (runes units : ℕ) (out : List ℕ)
    → IsWithin runes units out
    → IsWithin runes units (trim_space out)
unfolding trim_space
trim_space-IsWithin runes units out h =
    let l = trim_left-IsWithin runes units out h in
    let t = trim_right_within (trim_left out) in (omega (arith, l.0, t.0), omega (arith, l.1, t.1))

drop_last_within :
    (out : List ℕ)
    → (length (drop_last out) ≤ length out) × (units_of (drop_last out) ≤ units_of out)
drop_last_within [] = (omega arith, omega arith)
drop_last_within (r ∷ []) = (omega arith, omega arith)
drop_last_within (r ∷ q ∷ rest) =
    let h = drop_last_within (q ∷ rest) in (omega (arith, h.0), omega (arith, h.1))

shorten-IsWithin :
    (runes units n : ℕ) (long : List ℕ → Bool) (value : List ℕ)
    → IsWithin runes units value
    → IsWithin runes units (shorten n long value)
unfolding shorten
shorten-IsWithin runes units zero long value h = h
shorten-IsWithin runes units (suc n) long value h =
    kept_if (IsWithin runes units) (long value) (shorten n long (trim_space (drop_last value)))
      value
      (shorten-IsWithin runes units n long (trim_space (drop_last value))
        (trim_space-IsWithin runes units (drop_last value) dropped))
      h
  where
    dropped : IsWithin runes units (drop_last value)
    dropped = let d = drop_last_within value in (omega (arith, d.0, h.0), omega (arith, d.1, h.1))

units_of-append : (xs ys : List ℕ) → units_of (xs ++ ys) ≡ units_of xs + units_of ys
units_of-append [] ys = omega arith
units_of-append (x ∷ xs) ys = omega (arith, units_of-append xs ys)

room_for_ellipsis :
    (max_units : ℕ) (value : List ℕ)
    → ltb max_units (units_of ellipsis) ≡ false
    → too_wide max_units value ≡ false
    → units_of value + units_of ellipsis ≤ max_units
room_for_ellipsis max_units [] h k = not_over max_units (units_of ellipsis) h
room_for_ellipsis max_units (r ∷ rest) h k =
    not_over max_units (units_of (r ∷ rest) + units_of ellipsis) k

ellipsis-IsWithin :
    (runes max_units : ℕ) (value : List ℕ)
    → ltb max_units (units_of ellipsis) ≡ false
    → length value ≤ runes
    → too_wide max_units value ≡ false
    → IsWithin (suc runes) max_units (value ++ ellipsis)
ellipsis-IsWithin runes max_units value h l k = (
  omega (arith, length-append value ellipsis),
  omega (arith, units_of-append value ellipsis, room_for_ellipsis max_units value h k),
)

-- Text that the ellipsis is added to keeps to the units, and has one rune more at most.
pub append_display_ellipsis-IsWithin :
    (runes max_units : ℕ) (value : List ℕ)
    → length value ≤ runes
    → IsWithin (suc runes) max_units (append_display_ellipsis value max_units)
unfolding append_display_ellipsis
append_display_ellipsis-IsWithin runes max_units value h =
    kept_when (IsWithin (suc runes) max_units) (ltb max_units (units_of ellipsis)) [] _
      (λ e. (omega arith, omega arith))
      (λ e.
        ellipsis-IsWithin runes max_units
          (shorten (length (trim_space value)) (too_wide max_units) (trim_space value)) e
          (shorten-IsWithin runes (units_of value) (length (trim_space value)) (too_wide max_units)
            (trim_space value)
            (trim_space-IsWithin runes (units_of value) value (h, omega arith))).0
          (shorten_short (too_wide max_units) refl (length (trim_space value)) (trim_space value)
            (omega arith)))

abbrev pub extra : Bool → ℕ
extra true = 1
extra false = 0

ended-IsWithin :
    (max_runes max_units : ℕ) (filled : List ℕ × Bool)
    → IsWithin max_runes max_units filled.0
    → IsWithin (max_runes + extra filled.1) max_units (ended max_units filled).0
ended-IsWithin max_runes max_units (out, true) h =
    let w =
      append_display_ellipsis-IsWithin max_runes max_units (trim_space out)
        (trim_space-IsWithin max_runes max_units out h).0 in
    (omega (arith, w.0), w.1)
ended-IsWithin max_runes max_units (out, false) h =
    let w = trim_space-IsWithin max_runes max_units out h in (omega (arith, w.0), w.1)

-- What `TruncateDisplay` returns takes no more than the given units, and no more than the given
-- runes and the ellipsis, which is there only where it reports that it cut something off.
pub truncate_display_lem :
    (value : Text) (max_runes max_units : ℤ)
    → (length (truncate_display value max_runes max_units).0
        ≤ pos_part max_runes + extra (truncate_display value max_runes max_units).1)
      × (units_of (truncate_display value max_runes max_units).0 ≤ pos_part max_units)
unfolding truncate_display
truncate_display_lem value max_runes max_units =
    within_if (not (is_positive max_runes) || not (is_positive max_units)) _ _
      (omega arith, omega arith)
      (ended-IsWithin (pos_part max_runes) (pos_part max_units)
        (fill (pos_part max_runes) (pos_part max_units) (runes_of value))
        (fill-IsWithin (pos_part max_runes) (pos_part max_units) (runes_of value)))
  where
    Bounded : List ℕ × Bool → Type 0
    Bounded x = IsWithin (pos_part max_runes + extra x.1) (pos_part max_units) x.0

    within_if :
        (b : Bool) (x y : List ℕ × Bool) → Bounded x → Bounded y → Bounded (if b then x else y)
    within_if true x y h k = h
    within_if false x y h k = k
