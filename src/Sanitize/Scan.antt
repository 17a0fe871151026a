-- ===== src/Sanitize/Scan.antt =====
-- The loops of internal/sanitize/text.go over the bytes of a string: each iteration moves on by some
-- bytes or ends the loop. The fuel is the number of bytes.
use cirewind.Base.{
  Bool, true, false, if◌then◌else◌, ℕ, zero, suc, ◌≤◌, ◌<◌, ◌≡◌, refl, [], ◌∷◌, length, Text, arith,
}

pub data Progress (S : Type 0) : Type 0 where
  done : S → Progress S
  next : Text → S → Progress S

abbrev pub scan_on : {S : Type 0} → (Text → S → S) → Progress S → S
scan_on loop (done s) = s
scan_on loop (next rest s) = loop rest s

unfoldable pub scan : {S : Type 0} → (Text → S → Progress S) → ℕ → Text → S → S
scan step zero rest s = s
scan step (suc n) rest s = scan_on (scan step n) (step rest s)

-- The loop comes to the iteration that ends it within so many iterations.
abbrev pub ends_on : {S : Type 0} → (Text → S → Bool) → Progress S → Bool
ends_on loop (done s) = true
ends_on loop (next rest s) = loop rest s

unfoldable pub scan_ends : {S : Type 0} → (Text → S → Progress S) → ℕ → Text → S → Bool
scan_ends step zero rest s = false
scan_ends step (suc n) rest s = ends_on (scan_ends step n) (step rest s)

module _ {S : Type 0} where
  abbrev pub Leaves : (S → Type 0) → Progress S → Type 0
  Leaves P (done s) = P s
  Leaves P (next rest s) = P s

  -- An iteration that does not end the loop uses up a byte.
  abbrev pub IsShorter : Text → Progress S → Type 0
  IsShorter rest (done t) = Unit
  IsShorter rest (next more t) = length more < length rest

  pub Leaves-if :
      (P : S → Type 0) (b : Bool) (x y : Progress S)
      → (b ≡ true → Leaves P x)
      → (b ≡ false → Leaves P y)
      → Leaves P (if b then x else y)
  Leaves-if P true x y h k = h refl
  Leaves-if P false x y h k = k refl

  pub IsShorter-if :
      (rest : Text) (b : Bool) (x y : Progress S)
      → IsShorter rest x
      → IsShorter rest y
      → IsShorter rest (if b then x else y)
  IsShorter-if rest true x y h k = h
  IsShorter-if rest false x y h k = k

module _ {S : Type 0} (step : Text → S → Progress S) where
  keeps_on :
      (P : S → Type 0) (loop : Text → S → S)
      → ((rest : Text) (s : S) → P s → P (loop rest s))
      → (r : Progress S) → Leaves P r
      → P (scan_on loop r)
  keeps_on P loop h (done t) q = q
  keeps_on P loop h (next more t) q = h more t q

  -- A property of the state that every iteration keeps.
  pub scan-keeps :
      (P : S → Type 0)
      → ((rest : Text) (s : S) → P s → Leaves P (step rest s))
      → (n : ℕ) (rest : Text) (s : S) → P s
      → P (scan step n rest s)
  unfolding scan
  scan-keeps P keeps zero rest s p = p
  scan-keeps P keeps (suc n) rest s p =
      keeps_on P (scan step n) (λ more t q. scan-keeps P keeps n more t q) (step rest s)
        (keeps rest s p)

  same_on :
      (loop other : Text → S → S) (rest : Text) (r : Progress S)
      → IsShorter rest r
      → ((more : Text) (t : S) → length more < length rest → loop more t ≡ other more t)
      → scan_on loop r ≡ scan_on other r
  same_on loop other rest (done t) h k = refl
  same_on loop other rest (next more t) h k = k more t h

  -- Any fuel from the number of bytes up gives the same state.
  pub scan-enough :
      ((s : S) → step [] s ≡ done s)
      → ((rest : Text) (s : S) → IsShorter rest (step rest s))
      → (m n : ℕ) (rest : Text) (s : S) → length rest ≤ m
      → length rest ≤ n
      → scan step m rest s ≡ scan step n rest s
  unfolding scan
  scan-enough ends shorter zero zero rest s h k = refl
  scan-enough ends shorter zero (suc n) [] s h k = rw (ends s) refl
  scan-enough ends shorter (suc m) zero [] s h k = rw (ends s) refl
  scan-enough ends shorter zero (suc n) (c ∷ rest) s h k = absurd (omega arith)
  scan-enough ends shorter (suc m) zero (c ∷ rest) s h k = absurd (omega arith)
  scan-enough ends shorter (suc m) (suc n) rest s h k =
      same_on (scan step m) (scan step n) rest (step rest s) (shorter rest s)
        (λ more t l. scan-enough ends shorter m n more t (omega arith) (omega arith))

  ends_after :
      (n : ℕ) (rest : Text) (r : Progress S)
      → IsShorter rest r
      → ((more : Text) (t : S) → length more < length rest → scan_ends step n more t ≡ true)
      → ends_on (scan_ends step n) r ≡ true
  ends_after n rest (done t) h k = refl
  ends_after n rest (next more t) h k = k more t h

  -- A loop whose iterations use up bytes ends by itself, one iteration after the last byte or
  -- sooner.
  pub scan_ends-shorter :
      ((s : S) → step [] s ≡ done s)
      → ((rest : Text) (s : S) → IsShorter rest (step rest s))
      → (n : ℕ) (rest : Text) (s : S) → length rest < n
      → scan_ends step n rest s ≡ true
  unfolding scan_ends
  scan_ends-shorter ends shorter zero rest s h = absurd (omega arith)
  scan_ends-shorter ends shorter (suc n) rest s h =
      ends_after n rest (step rest s) (shorter rest s)
        (λ more t l. scan_ends-shorter ends shorter n more t (omega arith))
