-- ===== src/Sanitize/Fits.antt =====
-- internal/sanitize/text.go: lists of runes of a safe class within a number of bytes.
use cirewind.Base.{
  ℕ, ◌+◌, ◌≤◌, ◌≡◌, refl, Bool, true, false, ◌&&◌, List, [], ◌∷◌, ◌++◌, is_nil, ltb, leb,
  if◌then◌else◌, arith, All, All-append,
}
use cirewind.Sanitize.Runes.{
  rune_size, size_of, size_of-append, is_space, trim_left, trim_right, trim_space,
}

pub kept_if : (P : List ℕ → Type 0) (b : Bool) (x y : List ℕ) → P x → P y → P (if b then x else y)
kept_if P true x y h k = h
kept_if P false x y h k = k

pub kept_when :
    (P : List ℕ → Type 0) (b : Bool) (x y : List ℕ)
    → (b ≡ true → P x)
    → (b ≡ false → P y)
    → P (if b then x else y)
kept_when P true x y h k = h refl
kept_when P false x y h k = k refl

pub room_for_one : (max n : ℕ) → leb max n ≡ false → n + 1 ≤ max
room_for_one max n h = ground arith

pub not_over : (max n : ℕ) → ltb max n ≡ false → n ≤ max
not_over max n h = ground arith

module _ (safe : ℕ → Bool) where
  abbrev pub AllSafe : List ℕ → Type 0
  AllSafe out = All (λ r. safe r ≡ true) out

  abbrev pub Fits : ℕ → List ℕ → Type 0
  Fits max out = (size_of out ≤ max) × AllSafe out

  pub Fits-append :
      (max : ℕ) (out : List ℕ) (r : ℕ)
      → size_of out + rune_size r ≤ max
      → safe r ≡ true
      → Fits max out
      → Fits max (out ++ r ∷ [])
  Fits-append max out r h e f = (
    omega (arith, size_of-append out (r ∷ [])),
    All-append (λ q. safe q ≡ true) out (r ∷ []) f.1 (e, tt),
  )

  kept_first : (max a n : ℕ) → a + n ≤ max → n ≤ max
  kept_first max a n h = omega arith

  pub trim_left-Fits : (max : ℕ) (out : List ℕ) → Fits max out → Fits max (trim_left out)
  trim_left-Fits max [] f = f
  trim_left-Fits max (r ∷ rest) f =
      kept_if (Fits max) (is_space r) (trim_left rest) (r ∷ rest)
        (trim_left-Fits max rest (kept_first max (rune_size r) (size_of rest) f.0, f.1.1)) f

  trim_right_size : (out : List ℕ) → size_of (trim_right out) ≤ size_of out
  trim_right_size [] = omega arith
  trim_right_size (r ∷ rest) = ground (arith, trim_right_size rest)

  trim_right-AllSafe : (out : List ℕ) → AllSafe out → AllSafe (trim_right out)
  trim_right-AllSafe [] h = tt
  trim_right-AllSafe (r ∷ rest) h =
      kept_if AllSafe (is_nil (trim_right rest) && is_space r) [] (r ∷ trim_right rest) tt
        (h.0, trim_right-AllSafe rest h.1)

  pub trim_space-Fits : (max : ℕ) (out : List ℕ) → Fits max out → Fits max (trim_space out)
  unfolding trim_space
  trim_space-Fits max out f =
      let g = trim_left-Fits max out f in
      (omega (arith, trim_right_size (trim_left out), g.0), trim_right-AllSafe (trim_left out) g.1)
