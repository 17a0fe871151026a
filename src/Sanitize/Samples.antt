-- ===== src/Sanitize/Samples.antt =====
-- Hostile texts; the first is the one of text_test.go.
use cirewind.Base.{◌+◌, ◌≤◌, ◌≡◌, refl, true, false, [], ◌∷◌, ◌++◌, length, Text, text, All, arith}
use cirewind.Base.Int.{pos, pos_part}
use cirewind.Sanitize.Scan.{scan, scan_ends}
use cirewind.Sanitize.Runes.{size_of}
use cirewind.Sanitize.Terminal.{terminal, terminal_step}
use cirewind.Sanitize.Safe.{is_shown, terminal-Fits}
use cirewind.Sanitize.Moving.{terminal_ends}
use cirewind.Sanitize.Presentation.{presentation, presentation_safe_rune}
use cirewind.Sanitize.Presented.{presentation-Fits}
use cirewind.Sanitize.Csv.{csv_cell}
use cirewind.Sanitize.Formula.{
  Opens, sign, hides, Sign, low, byte_order_mark, IsVisible, csv_cell-Opens,
}
use cirewind.Sanitize.Display.{truncate_display, wrap_display, units_of}
use cirewind.Sanitize.Widths.{truncate_display_lem, extra}

abbrev escape : Text → Text
escape s = 0x1b ∷ s

abbrev hostile : Text
hostile =
    text "safe"
    ++ escape (text "[2J")
    ++ escape (text "]8;;https://evil.invalid" ++ 7 ∷ [])
    ++ text "evil"
    ++ escape (text "]8;;" ++ 7 ∷ [])
    ++ 13 ∷ 10 ∷ text "next"
    ++ 0xe2 ∷ 0x80 ∷ 0xae ∷ []

terminal-hostile : terminal hostile (pos 1024) ≡ text "safeevil next"
unfolding terminal
terminal-hostile = refl

presentation-hostile : presentation hostile (pos 1024) ≡ (text "safeevil next", false)
unfolding presentation
presentation-hostile = refl

-- One rune more than asked for.
truncate_display-four :
    truncate_display (text "abcd") (pos 3) (pos 100) ≡ (text "abc" ++ 0x2026 ∷ [], true)
unfolding truncate_display
truncate_display-four = refl

csv_cell-formula : csv_cell (32 ∷ text "=1+1") ≡ text "' =1+1"
unfolding csv_cell
csv_cell-formula = refl

wrap_display-words :
    wrap_display (text "two words") (pos 100) (pos 5) (pos 3)
    ≡ (text "two" ∷ text "words" ∷ [], false)
unfolding wrap_display
wrap_display-words = refl

terminal-Fits_example :
    (size_of (terminal hostile (pos 9)) ≤ pos_part (pos 9))
    × All (λ r. is_shown r ≡ true) (terminal hostile (pos 9))
terminal-Fits_example = terminal-Fits hostile (pos 9)

terminal_ends_example :
    (scan_ends (terminal_step 9) 101 hostile [] ≡ true)
    × (scan (terminal_step 9) (length hostile) hostile [] ≡ scan (terminal_step 9) 100 hostile [])
terminal_ends_example = terminal_ends hostile 9 100 (omega arith)

presentation-Fits_example :
    (size_of (presentation hostile (pos 20)).0 ≤ pos_part (pos 20))
    × All (λ r. presentation_safe_rune r ≡ true) (presentation hostile (pos 20)).0
presentation-Fits_example = presentation-Fits hostile (pos 20)

-- A byte order mark and a space before the sign.
abbrev marked : Text
marked = (0xef ∷ 0xbb ∷ 0xbf ∷ []) ++ (32 ∷ []) ++ text "@cmd"

marked-Opens : Opens marked
marked-Opens =
    hides (0xef ∷ 0xbb ∷ 0xbf ∷ []) (32 ∷ text "@cmd") byte_order_mark
      (hides (32 ∷ []) (text "@cmd") (low 32 (omega arith)) (sign b'@' (text "cmd") Sign.at))

marked_quoted : csv_cell marked ≡ b'\'' ∷ marked
marked_quoted = (csv_cell-Opens marked).0 marked-Opens

csv_cell-Opens_example :
    (Opens marked → csv_cell marked ≡ b'\'' ∷ marked)
    × (IsVisible marked → csv_cell marked ≡ marked)
    × (Opens (csv_cell marked) → ⊥)
csv_cell-Opens_example = csv_cell-Opens marked

truncate_display_lem_example :
    (length (truncate_display (text "abcd") (pos 3) (pos 100)).0
      ≤ pos_part (pos 3) + extra (truncate_display (text "abcd") (pos 3) (pos 100)).1)
    × (units_of (truncate_display (text "abcd") (pos 3) (pos 100)).0 ≤ pos_part (pos 100))
truncate_display_lem_example = truncate_display_lem (text "abcd") (pos 3) (pos 100)
