-- ===== src/Exposure/Entries.antt =====
-- internal/exposure/exposure.go: the map of `effectivePermissions` where no two of its slices have
-- one array.
use mathlib.Core.Path.{subst}
use mathlib.Core.Option
use cirewind.Base.{
  ℕ, ◌≤◌, ◌≡◌, refl, sym, ◌∙◌, ap, true, false, some, List, [], ◌∷◌, map, All, take, ◌==◌, arith,
  Text, Bool-cases, inl, inr,
}
use cirewind.Exposure.Permissions.{find_permission, put_permission}
use cirewind.Exposure.Stored.{Store, Stored, read, is_called, find_stored, put_stored}
use cirewind.Exposure.Unshared.{IsHeld}

abbrev pub IsOff : ℕ → Stored → Type 0
IsOff a q = (q.evidence.array == a) ≡ false

abbrev pub Apart : ℕ → List Stored → Type 0
Apart a entries = All (IsOff a) entries

abbrev pub Separate : List Stored → Type 0
Separate [] = Unit
Separate (p ∷ rest) = Apart p.evidence.array rest × Separate rest

-- No entry has the array but the one that an entry of the name would replace.
pub data Clear (a : ℕ) (name : Text) : List Stored → Type 0 where
  nowhere : Clear a name []
  hit :
      (q : Stored) (rest : List Stored)
      → is_called name q ≡ true
      → Apart a rest
      → Clear a name (q ∷ rest)
  miss :
      (q : Stored) (rest : List Stored)
      → is_called name q ≡ false
      → IsOff a q
      → Clear a name rest
      → Clear a name (q ∷ rest)

pub off_sym : (a b : ℕ) → (a == b) ≡ false → (b == a) ≡ false
off_sym a b h = ground arith

pub Clear-of_Apart :
    (a : ℕ) (name : Text) (entries : List Stored) → Apart a entries → Clear a name entries
Clear-of_Apart a name [] h = nowhere
Clear-of_Apart a name (q ∷ rest) h = elim (Bool-cases (is_called name q)) [
  | inl e ↦ hit q rest e h.1
  | inr e ↦ miss q rest e h.0 (Clear-of_Apart a name rest h.1)
]

find_stored-hit :
    (name : Text) (q : Stored) (rest : List Stored)
    → is_called name q ≡ true
    → find_stored name (q ∷ rest) ≡ some q
unfolding find_stored
find_stored-hit name q rest e = rw e refl

find_stored-miss :
    (name : Text) (q : Stored) (rest : List Stored)
    → is_called name q ≡ false
    → find_stored name (q ∷ rest) ≡ find_stored name rest
unfolding find_stored
find_stored-miss name q rest e = rw e refl

some-injective : (p q : Stored) → some p ≡ some q → p ≡ q
some-injective p q h = cc

find_stored-nil : (name : Text) (q : Stored) → find_stored name [] ≡ some q → ⊥
unfolding find_stored
find_stored-nil name q h = cc

-- What holds of every entry holds of the one that is found.
pub find_stored-All :
    (P : Stored → Type 0) (name : Text) (entries : List Stored) (q : Stored)
    → find_stored name entries ≡ some q
    → All P entries
    → P q
find_stored-All P name [] q h k = absurd (find_stored-nil name q h)
find_stored-All P name (p ∷ rest) q h k = elim (Bool-cases (is_called name p)) [
  | inl e ↦ subst P (some-injective p q (sym (find_stored-hit name p rest e) ∙ h)) k.0
  | inr e ↦ find_stored-All P name rest q (sym (find_stored-miss name p rest e) ∙ h) k.1
]

pub Clear-of_found :
    (name : Text) (entries : List Stored) (q : Stored)
    → find_stored name entries ≡ some q
    → Separate entries
    → Clear q.evidence.array name entries
Clear-of_found name [] q h s = nowhere
Clear-of_found name (p ∷ rest) q h s = elim (Bool-cases (is_called name p)) [
  | inl e ↦ hit p rest e (
      subst (λ r. Apart r.evidence.array rest)
        (some-injective p q (sym (find_stored-hit name p rest e) ∙ h)) s.0)
  | inr e ↦
      let found = sym (find_stored-miss name p rest e) ∙ h in
      miss p rest e
        (off_sym q.evidence.array p.evidence.array
          (find_stored-All (IsOff p.evidence.array) name rest q found s.0))
        (Clear-of_found name rest q found s.1)
]

put_stored-nil : (p : Stored) → put_stored p [] ≡ p ∷ []
unfolding put_stored
put_stored-nil p = refl

put_stored-hit :
    (p q : Stored) (rest : List Stored)
    → is_called p.name q ≡ true
    → put_stored p (q ∷ rest) ≡ p ∷ rest
unfolding put_stored
put_stored-hit p q rest e = rw e refl

put_stored-miss :
    (p q : Stored) (rest : List Stored)
    → is_called p.name q ≡ false
    → put_stored p (q ∷ rest) ≡ q ∷ put_stored p rest
unfolding put_stored
put_stored-miss p q rest e = rw e refl

-- What holds of the new entry and, but for the one that it replaces, of the others after the call.
pub put_stored-All :
    (P Q : Stored → Type 0) (p : Stored) (entries : List Stored)
    → Clear p.evidence.array p.name entries
    → ((q : Stored) → IsOff p.evidence.array q → P q → Q q)
    → Q p
    → All P entries
    → All Q (put_stored p entries)
put_stored-All P Q p entries nowhere f h k = subst (All Q) (sym (put_stored-nil p)) (h, tt)
put_stored-All P Q p entries (hit q rest e a) f h k =
    subst (All Q) (sym (put_stored-hit p q rest e)) (h, All-off rest a k.1)
  where
    All-off : (xs : List Stored) → Apart p.evidence.array xs → All P xs → All Q xs
    All-off [] b l = tt
    All-off (x ∷ xs) b l = (f x b.0 l.0, All-off xs b.1 l.1)
put_stored-All P Q p entries (miss q rest e o c) f h k =
    subst (All Q) (sym (put_stored-miss p q rest e))
      (f q o k.0, put_stored-All P Q p rest c f h k.1)

pub put_stored-Separate :
    (p : Stored) (entries : List Stored)
    → Clear p.evidence.array p.name entries
    → Separate entries
    → Separate (put_stored p entries)
put_stored-Separate p entries nowhere s = subst Separate (sym (put_stored-nil p)) (tt, tt)
put_stored-Separate p entries (hit q rest e a) s =
    subst Separate (sym (put_stored-hit p q rest e)) (a, s.1)
put_stored-Separate p entries (miss q rest e o c) s =
    subst Separate (sym (put_stored-miss p q rest e)) (
      put_stored-All (IsOff q.evidence.array) (IsOff q.evidence.array) p rest c (λ x a b. b)
          (off_sym q.evidence.array p.evidence.array o) s.0,
      put_stored-Separate p rest c s.1,
    )

module _ (before after : Store) (a : ℕ)
    (others : (b : ℕ) → (b == a) ≡ false → after.arrays b ≡ before.arrays b) where
  read_off : (q : Stored) → IsOff a q → read after q ≡ read before q
  read_off q h =
      ap
        (λ l. record {
          name = q.name;
          access = q.access;
          basis = q.basis;
          evidence_ids = take q.evidence.count l;
        })
        (others q.evidence.array h)

  pub reads_off :
      (entries : List Stored)
      → Apart a entries
      → map (read after) entries ≡ map (read before) entries
  reads_off [] h = refl
  reads_off (q ∷ rest) h = rw (read_off q h.0, reads_off rest h.1) refl

  pub IsHeld-off :
      before.fresh ≤ after.fresh
      → (q : Stored) → IsOff a q
      → IsHeld before q.evidence
      → IsHeld after q.evidence
  IsHeld-off g q o h = record {
    used = omega (arith, h.used, g);
    fits = rw (others q.evidence.array o) h.fits;
  }

  pub put_stored-read :
      (p : Stored) (entries : List Stored)
      → p.evidence.array ≡ a
      → Clear p.evidence.array p.name entries
      → map (read after) (put_stored p entries)
        ≡ put_permission (read after p) (map (read before) entries)
  unfolding put_permission put_stored
  put_stored-read p entries q nowhere = refl
  put_stored-read p entries q (hit x rest e c) =
      rw (e, reads_off rest (subst (λ b. Apart b rest) q c)) refl
  put_stored-read p entries q (miss x rest e o c) =
      rw (e, read_off x (subst (λ b. IsOff b x) q o), put_stored-read p rest q c) refl

-- Looking a name up before or after reading.
pub find_permission-read :
    (store : Store) (name : Text) (entries : List Stored)
    → find_permission name (map (read store) entries)
      ≡ Option.map (read store) (find_stored name entries)
unfolding find_permission find_stored
find_permission-read store name [] = refl
find_permission-read store name (q ∷ rest) = elim (Bool-cases (is_called name q)) [
  | inl e ↦ rw e refl
  | inr e ↦ rw e (find_permission-read store name rest)
]
