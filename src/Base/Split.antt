-- ===== src/Base/Split.antt =====
-- A loop that appends each element to one of two slices keeps every element.
use mathlib.Core.List.{Perm, perm_middle}
use mathlib.Core.List.Perm
use cirewind.Base.{◌≡◌, refl, Bool, true, false, not, List, [], ◌∷◌, ◌++◌, if◌then◌else◌, All, keep}

module _ {ℓ} {A : Type ℓ} (p : A → Bool) where
  abbrev drop : A → Bool
  drop x = not (p x)

  pub keep-Perm : (xs : List A) → Perm (keep p xs ++ keep drop xs) xs
  keep-Perm [] = Perm.refl []
  keep-Perm (x ∷ xs) = go (p x) (keep-Perm xs)
    where
      go :
          (b : Bool)
          → Perm (keep p xs ++ keep drop xs) xs
          → Perm
              ((if b then x ∷ keep p xs else keep p xs)
                ++ (if not b then x ∷ keep drop xs else keep drop xs))
              (x ∷ xs)
      go true h = Perm.cons x h
      go false h = Perm.trans (perm_middle (keep p xs) (keep drop xs)) (Perm.cons x h)

  pub All-keep_not : (xs : List A) → All (λ x. p x ≡ false) (keep drop xs)
  All-keep_not [] = tt
  All-keep_not (x ∷ xs) = go (p x) refl (All-keep_not xs)
    where
      go :
          (b : Bool)
          → p x ≡ b
          → All (λ y. p y ≡ false) (keep drop xs)
          → All (λ y. p y ≡ false) (if not b then x ∷ keep drop xs else keep drop xs)
      go true e h = h
      go false e h = (e, h)
