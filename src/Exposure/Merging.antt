-- ===== src/Exposure/Merging.antt =====
-- internal/exposure/exposure.go: one permission of the loop of `effectivePermissions`, on slices that
-- share no array.
use mathlib.Core.Path.{subst}
use mathlib.Core.Option
use cirewind.Base.{
  ℕ, ◌≡◌, refl, sym, ◌∙◌, ap, Option, none, some, List, [], ◌∷◌, ◌++◌, map, All, All-map, arith,
  Text, to_lower, inl, inr,
}
use cirewind.Base.Order.{text_order}
use cirewind.Exposure.Permissions.{unique_evidence, evidence_of, put_permission, merged}
use cirewind.Exposure.Stored.{
  Slice, Store, Stored, read, values, find_stored, put_stored, merged_slice, lowered,
}
use cirewind.Exposure.Unshared.{
  IsHeld, Wrote, Stands, merged_slice-Stands, merged_slice-Wrote, HeldBefore, read_before,
}
use cirewind.Exposure.Entries.{
  IsOff, Apart, Separate, Clear, off_sym, Clear-of_Apart, Clear-of_found, find_stored-All,
  put_stored-All, put_stored-Separate, reads_off, IsHeld-off, put_stored-read, find_permission-read,
}

abbrev Held : Store → List Stored → Type 0
Held store entries = All (λ (q : Stored). IsHeld store q.evidence) entries

-- What the loop keeps: no array is that of two slices, of the permissions to come or of the map.
pub record IsUnshared (store : Store) (rest by_name : List Stored) : Type 0 where
  pub separate_rest : Separate rest
  pub separate_map : Separate by_name
  pub apart : All (λ (p : Stored). Apart p.evidence.array by_name) rest
  pub held_rest : Held store rest
  pub held_map : Held store by_name

fresh-IsOff : (store : Store) (q : Stored) → IsHeld store q.evidence → IsOff store.fresh q
fresh-IsOff store q h = let u = h.used in ground arith

Held-fresh :
    (store : Store) (entries : List Stored) → Held store entries → Apart store.fresh entries
Held-fresh store entries h =
    All-map (λ (q : Stored). IsHeld store q.evidence) (IsOff store.fresh)
      (λ q k. fresh-IsOff store q k) entries h

module _ (store : Store) (p : Stored) (rest by_name : List Stored)
    (u : IsUnshared store (p ∷ rest) by_name) where
  -- The array that is written is clear of the others.
  target-Clear :
      (name : Text) (previous : Option Stored) (a : ℕ)
      → find_stored name by_name ≡ previous
      → Stands previous p.evidence store a
      → Clear a name by_name × Apart a rest
  target-Clear name none a f h = (
    subst (λ b. Clear b name by_name) (sym h)
        (Clear-of_Apart p.evidence.array name by_name u.apart.0),
    subst (λ b. Apart b rest) (sym h) u.separate_rest.0,
  )
  target-Clear name (some q) a f (inl h) = (
    subst (λ b. Clear b name by_name) (sym h) (Clear-of_found name by_name q f u.separate_map),
    subst (λ b. Apart b rest) (sym h)
        (All-map (λ (x : Stored). Apart x.evidence.array by_name) (IsOff q.evidence.array)
          (λ x k.
            off_sym q.evidence.array x.evidence.array
              (find_stored-All (IsOff x.evidence.array) name by_name q f k))
          rest u.apart.1),
  )
  target-Clear name (some q) a f (inr h) = (
    subst (λ b. Clear b name by_name) (sym h)
        (Clear-of_Apart store.fresh name by_name (Held-fresh store by_name u.held_map)),
    subst (λ b. Apart b rest) (sym h) (Held-fresh store rest u.held_rest.1),
  )

  held_before :
      (name : Text) (previous : Option Stored)
      → find_stored name by_name ≡ previous
      → HeldBefore store previous
  held_before name none f = tt
  held_before name (some q) f =
      find_stored-All (λ (x : Stored). IsHeld store x.evidence) name by_name q f u.held_map

  module _ (grow : List Text → List Text) where
    abbrev name : Text
    name = to_lower p.name

    abbrev pub after : Slice × Store
    after = merged_slice grow (find_stored name by_name) p.evidence store

    abbrev pub entry : Stored
    entry = lowered p after.0

    wrote :
        Wrote store after (
          unique_evidence (read_before store (find_stored name by_name) ++ values store p.evidence))
    wrote =
        merged_slice-Wrote grow (find_stored name by_name) p.evidence store u.held_rest.0
          (held_before name (find_stored name by_name) refl)

    clear : Clear after.0.array name by_name × Apart after.0.array rest
    clear =
        target-Clear name (find_stored name by_name) after.0.array refl
          (merged_slice-Stands grow (find_stored name by_name) p.evidence store)

    pub keeps : IsUnshared after.1 rest (put_stored entry by_name)
    keeps = record {
      separate_rest = u.separate_rest.1;
      separate_map = put_stored-Separate entry by_name clear.0 u.separate_map;
      apart = apart_all rest u.apart.1 clear.1;
      held_rest = held_all rest clear.1 u.held_rest.1;
      held_map =
          put_stored-All (λ (q : Stored). IsHeld store q.evidence)
            (λ (q : Stored). IsHeld after.1 q.evidence) entry by_name clear.0
            (λ q o h. IsHeld-off store after.1 after.0.array wrote.others wrote.grows q o h)
            wrote.held u.held_map;
    }
      where
        apart_all :
            (xs : List Stored)
            → All (λ (x : Stored). Apart x.evidence.array by_name) xs
            → Apart after.0.array xs
            → All (λ (x : Stored). Apart x.evidence.array (put_stored entry by_name)) xs
        apart_all [] h k = tt
        apart_all (x ∷ xs) h k = (
          put_stored-All (IsOff x.evidence.array) (IsOff x.evidence.array) entry by_name clear.0
              (λ q a b. b) (off_sym x.evidence.array after.0.array k.0) h.0,
          apart_all xs h.1 k.1,
        )

        held_all : (xs : List Stored) → Apart after.0.array xs → Held store xs → Held after.1 xs
        held_all [] h k = tt
        held_all (x ∷ xs) h k = (
          IsHeld-off store after.1 after.0.array wrote.others wrote.grows x h.0 k.0,
          held_all xs h.1 k.1,
        )

    evidence_read :
        (previous : Option Stored)
        → read_before store previous ≡ evidence_of (Option.map (read store) previous)
    evidence_read none = refl
    evidence_read (some q) = refl

    entry-read : read after.1 entry ≡ merged (read store p) (map (read store) by_name)
    entry-read =
        ap
          (λ e. record {
            name = name;
            access = to_lower p.access;
            basis = p.basis;
            evidence_ids = e;
          })
          (wrote.reads
            ∙ ap (λ l. unique_evidence (l ++ values store p.evidence))
                (evidence_read (find_stored name by_name)
                  ∙ ap evidence_of (sym (find_permission-read store name by_name))))

    -- The map after the permission, read, is what the values give.
    pub map-read :
        map (read after.1) (put_stored entry by_name)
        ≡ put_permission
            (merged (read store p) (map (read store) by_name))
            (map (read store) by_name)
    map-read =
        put_stored-read store after.1 after.0.array wrote.others entry by_name refl clear.0
        ∙ ap (λ e. put_permission e (map (read store) by_name)) entry-read

    pub rest_read : map (read after.1) rest ≡ map (read store) rest
    rest_read = reads_off store after.1 after.0.array wrote.others rest clear.1
