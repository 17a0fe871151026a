-- ===== src/Exposure/Refinement.antt =====
-- internal/exposure/exposure.go: `effectivePermissions` on slices that share no array does what it
-- does on the values of the slices.
use mathlib.Core.Path.{ap₂}
use cirewind.Base.{
  ◌≡◌, refl, sym, ◌∙◌, ap, true, false, List, [], ◌∷◌, map, any, All, Text, to_lower, Bool,
  Bool-cases, inl, inr,
}
use cirewind.Base.Sort.{sort_by}
use cirewind.Base.Order.{text_order}
use cirewind.Exposure.Types.{Permission}
use cirewind.Exposure.Permissions.{
  put_permission, merged, is_considered, is_runtime, merge_permissions, effective_permissions,
}
use cirewind.Exposure.Stored.{
  Store, Stored, read, find_stored, put_stored, merged_slice, lowered, merge_stored,
  effective_stored,
}
use cirewind.Exposure.Unshared.{IsHeld}
use cirewind.Exposure.Entries.{Apart, Separate}
use cirewind.Exposure.Merging.{IsUnshared, after, entry, keeps, map-read, rest_read}

module _ (grow : List Text → List Text) (has_runtime : Bool) where
  merge_stored-skipped :
      (p : Stored) (rest by_name : List Stored) (store : Store)
      → is_considered has_runtime (read store p) ≡ false
      → merge_stored grow has_runtime (p ∷ rest) by_name store
        ≡ merge_stored grow has_runtime rest by_name store
  unfolding merge_stored
  merge_stored-skipped p rest by_name store e = rw (e, merge_stored) refl

  merge_stored-merged :
      (p : Stored) (rest by_name : List Stored) (store : Store)
      → is_considered has_runtime (read store p) ≡ true
      → merge_stored grow has_runtime (p ∷ rest) by_name store
        ≡ merge_stored grow has_runtime rest
            (put_stored
              (lowered p
                (merged_slice grow (find_stored (to_lower p.name) by_name) p.evidence store).0)
              by_name)
            (merged_slice grow (find_stored (to_lower p.name) by_name) p.evidence store).1
  unfolding merge_stored
  merge_stored-merged p rest by_name store e = rw (e, merge_stored) refl

  merge_permissions-skipped :
      (p : Permission) (rest by_name : List Permission)
      → is_considered has_runtime p ≡ false
      → merge_permissions has_runtime (p ∷ rest) by_name
        ≡ merge_permissions has_runtime rest by_name
  unfolding merge_permissions
  merge_permissions-skipped p rest by_name e = rw e refl

  merge_permissions-merged :
      (p : Permission) (rest by_name : List Permission)
      → is_considered has_runtime p ≡ true
      → merge_permissions has_runtime (p ∷ rest) by_name
        ≡ merge_permissions has_runtime rest (put_permission (merged p by_name) by_name)
  unfolding merge_permissions
  merge_permissions-merged p rest by_name e = rw e refl

  abbrev result_read : List Stored × Store → List Permission
  result_read m = map (read m.1) m.0

  skip-IsUnshared :
      (store : Store) (p : Stored) (rest by_name : List Stored)
      → IsUnshared store (p ∷ rest) by_name
      → IsUnshared store rest by_name
  skip-IsUnshared store p rest by_name u = record {
    separate_rest = u.separate_rest.1;
    separate_map = u.separate_map;
    apart = u.apart.1;
    held_rest = u.held_rest.1;
    held_map = u.held_map;
  }

  merge_stored-read :
      (rest by_name : List Stored) (store : Store)
      → IsUnshared store rest by_name
      → result_read (merge_stored grow has_runtime rest by_name store)
        ≡ merge_permissions has_runtime (map (read store) rest) (map (read store) by_name)
  unfolding merge_stored merge_permissions
  merge_stored-read [] by_name store u = refl
  merge_stored-read (p ∷ rest) by_name store u =
      elim (Bool-cases (is_considered has_runtime (read store p))) [
        | inr e ↦
            ap result_read (merge_stored-skipped p rest by_name store e)
            ∙ merge_stored-read rest by_name store (skip-IsUnshared store p rest by_name u)
            ∙ sym (
                merge_permissions-skipped (read store p) (map (read store) rest)
                  (map (read store) by_name) e)
        | inl e ↦
            ap result_read (merge_stored-merged p rest by_name store e)
            ∙ merge_stored-read rest (put_stored (entry store p rest by_name u grow) by_name)
                (after store p rest by_name u grow).1 (keeps store p rest by_name u grow)
            ∙ ap₂ (merge_permissions has_runtime) (rest_read store p rest by_name u grow)
                (map-read store p rest by_name u grow)
            ∙ sym (
                merge_permissions-merged (read store p) (map (read store) rest)
                  (map (read store) by_name) e)
      ]

All-nothing : (xs : List Stored) → All (λ (p : Stored). Apart p.evidence.array []) xs
All-nothing [] = tt
All-nothing (x ∷ xs) = (tt, All-nothing xs)

-- Where no two permissions of the input have slices on one array, and each slice is within its
-- array, which is one in use, `effectivePermissions` on slices,
-- with its sort and compaction in place and its appends into spare capacity, reports exactly the
-- permissions that it reports on the values of these slices, whatever lies behind the slices in
-- their arrays and whatever capacity a growing append adds.
pub effective_stored-read :
    (grow : List Text → List Text) (store : Store) (input : List Stored)
    → Separate input
    → All (λ (p : Stored). IsHeld store p.evidence) input
    → effective_stored grow input store ≡ effective_permissions (map (read store) input)
unfolding effective_stored effective_permissions
effective_stored-read grow store input separate held =
    ap (λ l. sort_by (λ (p : Permission). p.name) l)
      (merge_stored-read grow (any is_runtime (map (read store) input)) input [] store (record {
        separate_rest = separate;
        separate_map = tt;
        apart = All-nothing input;
        held_rest = held;
        held_map = tt;
      }))
