-- ===== src/Base/Apart.antt =====
-- Slices in which no two elements have one key, and their sorts.
use cirewind.Base.{
  Option, none, some, ◌≡◌, refl, ◌∙◌, Bool, true, false, List, [], ◌∷◌, arith, if◌then◌else◌, All,
  All-map,
}
use cirewind.Base.Order.{Order}
use cirewind.Base.Sort.{sort_by, insert_by, All-insert_by, All-sort_by, IsSorted, sort_by-IsSorted}

module _ {ℓ κ} {A : Type ℓ} {K : Type κ} (key : A → K) ⦃o : Order K⦄ where
  abbrev pub IsApart : List A → Type 0
  IsApart [] = Unit
  IsApart (x ∷ xs) = All (λ y. o.same (key x) (key y) ≡ false) xs × IsApart xs

  abbrev pub IsAscending : List A → Type 0
  IsAscending [] = Unit
  IsAscending (x ∷ xs) = All (λ y. o.less (key x) (key y) ≡ true) xs × IsAscending xs

  pub same_sym : (x y : K) → o.same x y ≡ false → o.same y x ≡ false
  same_sym x y h = ground (arith, o.same_sound y x, o.same_refl x)

  insert_by-IsApart :
      (x : A) (ys : List A)
      → All (λ y. o.same (key x) (key y) ≡ false) ys
      → IsApart ys
      → IsApart (insert_by key x ys)
  unfolding insert_by
  insert_by-IsApart x [] h k = (tt, tt)
  insert_by-IsApart x (y ∷ ys) h k = go (o.less (key y) (key x)) (insert_by-IsApart x ys h.1 k.1)
    where
      go :
          (b : Bool)
          → IsApart (insert_by key x ys)
          → IsApart (if b then y ∷ insert_by key x ys else x ∷ y ∷ ys)
      go true r = (
        All-insert_by key (λ z. o.same (key y) (key z) ≡ false) x ys (same_sym (key x) (key y) h.0)
            k.0,
        r,
      )
      go false r = (h, k)

  pub sort_by-IsApart : (xs : List A) → IsApart xs → IsApart (sort_by key xs)
  unfolding sort_by
  sort_by-IsApart [] h = tt
  sort_by-IsApart (x ∷ xs) h =
      insert_by-IsApart x (sort_by key xs)
        (All-sort_by key (λ y. o.same (key x) (key y) ≡ false) xs h.0) (sort_by-IsApart xs h.1)

  strictly : (x y : K) → (o.less y x ≡ false) × (o.same x y ≡ false) → o.less x y ≡ true
  strictly x y h = ground (arith, o.less_total x y, o.same_refl x)

  All-both {μ ν} :
      (P : A → Type μ) (Q : A → Type ν) (xs : List A)
      → All P xs
      → All Q xs
      → All (λ x. P x × Q x) xs
  All-both P Q [] h k = tt
  All-both P Q (x ∷ xs) h k = ((h.0, k.0), All-both P Q xs h.1 k.1)

  IsAscending-of_sorted : (xs : List A) → IsSorted key xs → IsApart xs → IsAscending xs
  IsAscending-of_sorted [] h k = tt
  IsAscending-of_sorted (x ∷ xs) h k = (
    All-map (λ y. (o.less (key y) (key x) ≡ false) × (o.same (key x) (key y) ≡ false))
        (λ y. o.less (key x) (key y) ≡ true) (λ y. strictly (key x) (key y)) xs
        (All-both (λ y. o.less (key y) (key x) ≡ false) (λ y. o.same (key x) (key y) ≡ false) xs h.0
          k.0),
    IsAscending-of_sorted xs h.1 k.1,
  )

  pub sort_by-IsAscending : (xs : List A) → IsApart xs → IsAscending (sort_by key xs)
  sort_by-IsAscending xs h =
      IsAscending-of_sorted (sort_by key xs) (sort_by-IsSorted key xs) (sort_by-IsApart xs h)

  apart : (x y : K) → o.less x y ≡ true → o.same x y ≡ false
  apart x y h = ground (arith, o.same_sound x y, o.less_irrefl x)

  pub IsAscending-IsApart : (xs : List A) → IsAscending xs → IsApart xs
  IsAscending-IsApart [] h = tt
  IsAscending-IsApart (x ∷ xs) h = (
    All-map (λ y. o.less (key x) (key y) ≡ true) (λ y. o.same (key x) (key y) ≡ false)
        (λ y. apart (key x) (key y)) xs h.0,
    IsAscending-IsApart xs h.1,
  )

  insert_first :
      (x : A) (ys : List A)
      → All (λ y. o.less (key x) (key y) ≡ true) ys
      → insert_by key x ys ≡ x ∷ ys
  unfolding insert_by
  insert_first x [] h = refl
  insert_first x (y ∷ ys) h = rw (not_above (key x) (key y) h.0) refl
    where
      not_above : (a b : K) → o.less a b ≡ true → o.less b a ≡ false
      not_above a b l = ground (arith, o.less_trans a b a, o.less_irrefl a)

  -- An ascending slice is left as it is.
  pub sort_by-fixed : (xs : List A) → IsAscending xs → sort_by key xs ≡ xs
  unfolding sort_by
  sort_by-fixed [] h = refl
  sort_by-fixed (x ∷ xs) h = rw (sort_by-fixed xs h.1) (insert_first x xs h.0)

  -- The first element with a key.
  abbrev pub find_by : K → List A → Option A
  find_by k [] = none
  find_by k (x ∷ xs) = let found = find_by k xs in if o.same (key x) k then some x else found

  pub find_by-missing :
      (x : A) (k : K) (ys : List A)
      → All (λ y. o.same (key x) (key y) ≡ false) ys
      → o.same (key x) k ≡ true
      → find_by k ys ≡ none
  find_by-missing x k [] h e = refl
  find_by-missing x k (y ∷ ys) h e = ground (
    arith,
    find_by-missing x k ys h.1 e,
    h.0,
    o.same_sound (key x) k,
    o.same_sound (key y) k,
    o.same_refl k,
  )

  find_by-insert_by :
      (k : K) (x : A) (ys : List A)
      → All (λ y. o.same (key x) (key y) ≡ false) ys
      → find_by k (insert_by key x ys) ≡ (if o.same (key x) k then some x else find_by k ys)
  unfolding insert_by
  find_by-insert_by k x [] h = refl
  find_by-insert_by k x (y ∷ ys) h = ground (
    arith,
    find_by-insert_by k x ys h.1,
    h.0,
    o.same_sound (key x) k,
    o.same_sound (key y) k,
    o.same_refl k,
  )

  pub find_by-sort_by :
      (k : K) (xs : List A) → IsApart xs → find_by k (sort_by key xs) ≡ find_by k xs
  unfolding sort_by
  find_by-sort_by k [] h = refl
  find_by-sort_by k (x ∷ xs) h =
      find_by-insert_by k x (sort_by key xs)
        (All-sort_by key (λ y. o.same (key x) (key y) ≡ false) xs h.0)
      ∙ rw (find_by-sort_by k xs h.1) refl
