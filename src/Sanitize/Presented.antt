-- ===== src/Sanitize/Presented.antt =====
-- internal/sanitize/text.go: what `Presentation` lets through, and how much.
use cirewind.Base.{
  ℕ, suc, zero, ◌+◌, ◌≤◌, ◌≡◌, refl, Bool, true, false, not, ◌&&◌, List, [], ◌∷◌, ◌++◌, length,
  drop, ltb, ◌==◌, if◌then◌else◌, Text, arith, All, All-append, Bool-cases, inl, inr,
}
use cirewind.Base.Int.{ℤ, is_positive, pos_part}
use cirewind.Sanitize.Scan.{scan, scan-keeps, Leaves, Leaves-if}
use cirewind.Sanitize.Runes.{
  decode_rune, rune_size, size_of, size_of-append, trim_left, trim_right, trim_space,
}
use cirewind.Sanitize.Fits.{
  Fits, AllSafe, Fits-append, kept_if, kept_when, not_over, trim_space-Fits,
}
use cirewind.Sanitize.Presentation.{
  presentation, presentation_step, presentation_safe_rune, Shown, show_rune, spaced, is_line_break,
  finish, nothing_shown, append_byte_truncation_suffix, truncation_suffix, drop_last, too_long,
  shorten,
}

abbrev IsShownWithin : ℕ → Shown → Type 0
IsShownWithin max s = Fits presentation_safe_rune max s.out

spaced-Fits :
    (max : ℕ) (s : Shown)
    → (s.pending && ltb max (size_of s.out + 1)) ≡ false
    → IsShownWithin max s
    → Fits presentation_safe_rune max (spaced s)
spaced-Fits max s h f = elim (Bool-cases s.pending) [
  | inl e ↦ rw e (
      Fits-append presentation_safe_rune max s.out 0x20
        (not_over max (size_of s.out + 1) (second s.pending _ e h)) refl f)
  | inr e ↦ rw e f
]
  where
    second : (a b : Bool) → a ≡ true → (a && b) ≡ false → b ≡ false
    second a b e k = ground arith

show_rune-Fits :
    (max : ℕ) (rest : Text) (s : Shown) (r : ℕ)
    → presentation_safe_rune r ≡ true
    → IsShownWithin max s
    → Leaves (IsShownWithin max) (show_rune max rest s r)
show_rune-Fits max rest s r safe f =
    Leaves-if (IsShownWithin max) (s.pending && ltb max (size_of s.out + 1)) _ _ (λ e. f)
      (λ e.
        Leaves-if (IsShownWithin max) (ltb max (size_of (spaced s) + rune_size r)) _ _
          (λ o. spaced-Fits max s e f)
          (λ o.
            Fits-append presentation_safe_rune max (spaced s) r
              (not_over max (size_of (spaced s) + rune_size r) o) safe (spaced-Fits max s e f)))

presentation_step-Fits :
    (max : ℕ) (rest : Text) (s : Shown)
    → IsShownWithin max s
    → Leaves (IsShownWithin max) (presentation_step max rest s)
unfolding presentation_step
presentation_step-Fits max [] s f = f
presentation_step-Fits max (c ∷ rest) s f =
    Leaves-if (IsShownWithin max) (c == 0x1b) _ _ (λ e. f)
      (λ e.
        Leaves-if (IsShownWithin max) (is_line_break (decode_rune (c ∷ rest)).rune) _ _ (λ g. f)
          (λ g.
            Leaves-if (IsShownWithin max)
              (not (presentation_safe_rune (decode_rune (c ∷ rest)).rune)) _ _ (λ h. f)
              (λ h.
                show_rune-Fits max (drop (decode_rune (c ∷ rest)).size (c ∷ rest)) s
                  (decode_rune (c ∷ rest)).rune
                  (twice (presentation_safe_rune (decode_rune (c ∷ rest)).rune) h) f)))
  where
    twice : (b : Bool) → not b ≡ false → b ≡ true
    twice b h = ground arith

trim_left-length : (xs : List ℕ) → length (trim_left xs) ≤ length xs
trim_left-length [] = omega arith
trim_left-length (r ∷ rest) = ground (arith, trim_left-length rest)

trim_right-length : (xs : List ℕ) → length (trim_right xs) ≤ length xs
trim_right-length [] = omega arith
trim_right-length (r ∷ rest) = ground (arith, trim_right-length rest)

pub trim_space-length : (xs : List ℕ) → length (trim_space xs) ≤ length xs
unfolding trim_space
trim_space-length xs = omega (arith, trim_right-length (trim_left xs), trim_left-length xs)

drop_last-length : (r : ℕ) (xs : List ℕ) → length (drop_last (r ∷ xs)) ≡ length xs
drop_last-length r [] = refl
drop_last-length r (x ∷ xs) = omega (arith, drop_last-length x xs)

drop_last-AllSafe : (safe : ℕ → Bool) (xs : List ℕ) → AllSafe safe xs → AllSafe safe (drop_last xs)
drop_last-AllSafe safe [] h = tt
drop_last-AllSafe safe (r ∷ []) h = tt
drop_last-AllSafe safe (r ∷ q ∷ rest) h = (h.0, drop_last-AllSafe safe (q ∷ rest) h.1)

-- The loop ends with a value that is not too long.
pub shorten_short :
    (long : List ℕ → Bool)
    → long [] ≡ false
    → (n : ℕ) (value : List ℕ) → length value ≤ n
    → long (shorten n long value) ≡ false
unfolding shorten
shorten_short long e zero [] h = e
shorten_short long e zero (r ∷ value) h = absurd (omega arith)
shorten_short long e (suc n) value h = elim (Bool-cases (long value)) [
  | inr f ↦ rw (f, f) refl
  | inl f ↦ rw f (shorten_short long e n (trim_space (drop_last value)) (less value f h))
]
  where
    less : (v : List ℕ) → long v ≡ true → length v ≤ suc n → length (trim_space (drop_last v)) ≤ n
    less [] f k = omega (arith, trim_space-length [])
    less (r ∷ v) f k = omega (arith, trim_space-length (drop_last (r ∷ v)), drop_last-length r v)

module _ (safe : ℕ → Bool) where
  pub trim_space-safe :
      (xs : List ℕ)
      → AllSafe safe xs
      → (size_of (trim_space xs) ≤ size_of xs) × AllSafe safe (trim_space xs)
  trim_space-safe xs h = trim_space-Fits safe (size_of xs) xs (omega arith, h)

  shorten-AllSafe :
      (n : ℕ) (long : List ℕ → Bool) (value : List ℕ)
      → AllSafe safe value
      → AllSafe safe (shorten n long value)
  unfolding shorten
  shorten-AllSafe zero long value h = h
  shorten-AllSafe (suc n) long value h =
      kept_if (AllSafe safe) (long value) (shorten n long (trim_space (drop_last value))) value
        (shorten-AllSafe n long (trim_space (drop_last value))
          (trim_space-safe (drop_last value) (drop_last-AllSafe safe value h)).1)
        h

room_for_suffix :
    (max : ℕ) (value : List ℕ)
    → ltb max (size_of truncation_suffix) ≡ false
    → too_long max value ≡ false
    → size_of value + size_of truncation_suffix ≤ max
room_for_suffix max [] h k = not_over max (size_of truncation_suffix) h
room_for_suffix max (r ∷ rest) h k = not_over max (size_of (r ∷ rest) + size_of truncation_suffix) k

suffixed-Fits :
    (max : ℕ) (value : List ℕ)
    → size_of value + size_of truncation_suffix ≤ max
    → AllSafe presentation_safe_rune value
    → Fits presentation_safe_rune max (trim_space value ++ truncation_suffix)
suffixed-Fits max value h s =
    let t = trim_space-safe presentation_safe_rune value s in
    (
      sized (size_of (trim_space value)) (size_of value) _ _ t.0 h
          (size_of-append (trim_space value) truncation_suffix),
      All-append (λ r. presentation_safe_rune r ≡ true) (trim_space value) truncation_suffix t.1
          suffix_safe,
    )
  where
    sized : (a b c d : ℕ) → a ≤ b → b + c ≤ max → d ≡ a + c → d ≤ max
    sized a b c d k l e = omega arith

    suffix_safe : AllSafe presentation_safe_rune truncation_suffix
    suffix_safe = search tt

append_suffix-Fits :
    (value : List ℕ) (max : ℕ)
    → AllSafe presentation_safe_rune value
    → Fits presentation_safe_rune max (append_byte_truncation_suffix value max)
unfolding append_byte_truncation_suffix
append_suffix-Fits value max s =
    kept_when (Fits presentation_safe_rune max) (ltb max (size_of truncation_suffix)) [] _
      (λ e. (omega arith, tt))
      (λ e.
        suffixed-Fits max (shorten (length (trim_space value)) (too_long max) (trim_space value))
          (room_for_suffix max
            (shorten (length (trim_space value)) (too_long max) (trim_space value)) e
            (shorten_short (too_long max) refl (length (trim_space value)) (trim_space value)
              (omega arith)))
          (shorten-AllSafe presentation_safe_rune (length (trim_space value)) (too_long max)
            (trim_space value) (trim_space-safe presentation_safe_rune value s).1))

finish-Fits :
    (max : ℕ) (s : Shown) → IsShownWithin max s → Fits presentation_safe_rune max (finish max s).0
finish-Fits max s f = trim_space-Fits presentation_safe_rune max _ (
    kept_if (Fits presentation_safe_rune max) s.truncated
      (append_byte_truncation_suffix (trim_space s.out) max) (trim_space s.out)
      (append_suffix-Fits (trim_space s.out) max
        (trim_space-Fits presentation_safe_rune max s.out f).1)
      (trim_space-Fits presentation_safe_rune max s.out f))

-- What `Presentation` returns, with the suffix that marks what was cut off, takes no more than the
-- given number of bytes, and each rune of it is one that it holds to be safe, whatever bytes it is
-- given.
pub presentation-Fits :
    (value : Text) (max_bytes : ℤ)
    → (size_of (presentation value max_bytes).0 ≤ pos_part max_bytes)
      × All (λ r. presentation_safe_rune r ≡ true) (presentation value max_bytes).0
unfolding presentation
presentation-Fits value max_bytes =
    shown_if (not (is_positive max_bytes)) _ _ (omega arith, tt)
      (finish-Fits (pos_part max_bytes)
        (scan (presentation_step (pos_part max_bytes)) (length value) value nothing_shown)
        (scan-keeps (presentation_step (pos_part max_bytes)) (IsShownWithin (pos_part max_bytes))
          (presentation_step-Fits (pos_part max_bytes)) (length value) value nothing_shown
          (omega arith, tt)))
  where
    shown_if :
        (b : Bool) (x y : List ℕ × Bool)
        → Fits presentation_safe_rune (pos_part max_bytes) x.0
        → Fits presentation_safe_rune (pos_part max_bytes) y.0
        → Fits presentation_safe_rune (pos_part max_bytes) (if b then x else y).0
    shown_if true x y h k = h
    shown_if false x y h k = k
