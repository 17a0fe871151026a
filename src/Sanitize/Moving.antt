-- ===== src/Sanitize/Moving.antt =====
-- internal/sanitize/text.go: every iteration of the loops moves on, so they end.
use cirewind.Base.{
  ℕ, suc, zero, ◌+◌, ◌≤◌, ◌<◌, ◌≡◌, refl, Bool, true, false, ◌||◌, List, [], ◌∷◌, length, drop, ltb,
  leb, ◌==◌, if◌then◌else◌, Text, arith,
}
use cirewind.Sanitize.Scan.{
  done, scan, scan-enough, scan_ends, scan_ends-shorter, IsShorter, IsShorter-if,
}
use cirewind.Sanitize.Runes.{Rune, decode_rune, decode_rune-positive, is_invalid, size_of}
use cirewind.Sanitize.Terminal.{
  terminal_step, write_rune, is_unsafe_rune, skip_escape, past_final, past_string, opens_string,
}

drop-length : (n : ℕ) (xs : Text) → length (drop n xs) ≤ length xs
drop-length zero xs = omega arith
drop-length (suc n) [] = omega arith
drop-length (suc n) (x ∷ xs) = omega (arith, drop-length n xs)

pub drop-moves : (n c : ℕ) (rest : Text) → 1 ≤ n → length (drop n (c ∷ rest)) < length (c ∷ rest)
drop-moves zero c rest h = absurd (omega arith)
drop-moves (suc n) c rest h = omega (arith, drop-length n rest)

past_final-length : (xs : Text) → length (past_final xs) ≤ length xs
unfolding past_final
past_final-length [] = omega arith
past_final-length (c ∷ rest) = ground (arith, past_final-length rest)

past_string-length : (xs : Text) → length (past_string xs) ≤ length xs
unfolding past_string
past_string-length [] = omega arith
past_string-length (c ∷ []) = omega arith
past_string-length (c ∷ d ∷ rest) = ground (arith, past_string-length (d ∷ rest))

-- An escape sequence takes a byte at least.
pub skip_escape-moves : (c : ℕ) (rest : Text) → length (skip_escape (c ∷ rest)) < length (c ∷ rest)
unfolding skip_escape
skip_escape-moves c [] = omega arith
skip_escape-moves c (d ∷ rest) = within_if (d == b'[') (opens_string d)
  where
    within_if :
        (a b : Bool)
        → length (if a then past_final rest else if b then past_string rest else rest)
          < length (c ∷ d ∷ rest)
    within_if true b = omega (arith, past_final-length rest)
    within_if false true = omega (arith, past_string-length rest)
    within_if false false = omega arith

write_rune-IsShorter :
    (max c : ℕ) (rest : Text) (out : List ℕ) (d : Rune)
    → 1 ≤ d.size
    → IsShorter (c ∷ rest) (write_rune max (c ∷ rest) out d)
write_rune-IsShorter max c rest out d h =
    IsShorter-if (c ∷ rest) (is_invalid d) _ _
      (IsShorter-if (c ∷ rest) (ltb max (size_of out + 3)) _ _ tt (omega arith))
      (IsShorter-if (c ∷ rest) (is_unsafe_rune d.rune) _ _ (drop-moves d.size c rest h) (
        IsShorter-if (c ∷ rest) (ltb max (size_of out + d.size)) _ _ tt
          (drop-moves d.size c rest h)))

terminal_step-IsShorter :
    (max : ℕ) (rest : Text) (out : List ℕ) → IsShorter rest (terminal_step max rest out)
unfolding terminal_step
terminal_step-IsShorter max [] out = tt
terminal_step-IsShorter max (c ∷ rest) out =
    IsShorter-if (c ∷ rest) (leb max (size_of out)) _ _ tt (
      IsShorter-if (c ∷ rest) (c == 0x1b) _ _ (skip_escape-moves c rest) (
        IsShorter-if (c ∷ rest) (ltb c 0x20 || c == 0x7f) _ _ (omega arith) (
          write_rune-IsShorter max c rest out (decode_rune (c ∷ rest))
            (decode_rune-positive c rest))))

terminal_step_ends : (max : ℕ) (out : List ℕ) → terminal_step max [] out ≡ done out
unfolding terminal_step
terminal_step_ends max out = refl

-- The loop of `Terminal` ends by itself within one iteration more
-- than the value has bytes; and what it leaves is the same for any number of iterations from the
-- number of bytes up, so the model, which runs as many as there are bytes, cuts nothing off.
pub terminal_ends :
    (value : Text) (max_bytes n : ℕ)
    → length value ≤ n
    → (scan_ends (terminal_step max_bytes) (suc n) value [] ≡ true)
      × (scan (terminal_step max_bytes) (length value) value []
          ≡ scan (terminal_step max_bytes) n value [])
terminal_ends value max_bytes n h = (
  scan_ends-shorter (terminal_step max_bytes) (terminal_step_ends max_bytes)
      (terminal_step-IsShorter max_bytes) (suc n) value [] (omega arith),
  scan-enough (terminal_step max_bytes) (terminal_step_ends max_bytes)
      (terminal_step-IsShorter max_bytes) (length value) n value [] (omega arith) h,
)
