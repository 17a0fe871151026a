-- ===== src/Ledger/Clean.antt =====
-- internal/ledger/ledger.go: no prohibited field in a record.
use mathlib.Core.Path.{subst}
use cirewind.Base.{
  ◌≡◌, refl, Bool, true, false, not, ◌&&◌, ◌||◌, List, [], ◌∷◌, String, Text, arith, ok, passes,
  Checked, ok->>, passes->>, ok-injective, ◌>>◌, ◌>>=◌, is_nil, refuse_if, if◌then◌else◌, All,
  All-append, &&-eq_true, ok->>=,
}
use cirewind.Ledger.Json.{
  Json, null, boolean, number, string, array, object, Items, no_items, item, Fields, no_fields,
  field, is_forbidden, has_key, walk, walk_items, walk_fields,
}
use cirewind.Ledger.Writer.{Disk, Record, Writer}
use cirewind.Ledger.Operations.{Payload, admit, marshalled, clean, inspect}
use cirewind.Ledger.Steps.{Reached, created, appended, refused, synced, closed, append_ok, Framed}

-- Some object at some depth has a field with such a key.
unfoldable mutual
  pub mentions : (Text → Bool) → Json → Bool
  mentions bad null = false
  mentions bad (boolean b) = false
  mentions bad (number n) = false
  mentions bad (string s) = false
  mentions bad (array items) = mentions_items bad items
  mentions bad (object fields) = mentions_fields bad fields

  pub mentions_items : (Text → Bool) → Items → Bool
  mentions_items bad no_items = false
  mentions_items bad (item v rest) = mentions bad v || mentions_items bad rest

  pub mentions_fields : (Text → Bool) → Fields → Bool
  mentions_fields bad no_fields = false
  mentions_fields bad (field k v rest) = bad k || mentions bad v || mentions_fields bad rest

-- No object at any depth has two fields with one key.
unfoldable mutual
  pub is_distinct : Json → Bool
  is_distinct null = true
  is_distinct (boolean b) = true
  is_distinct (number n) = true
  is_distinct (string s) = true
  is_distinct (array items) = is_distinct_items items
  is_distinct (object fields) = is_distinct_fields fields

  pub is_distinct_items : Items → Bool
  is_distinct_items no_items = true
  is_distinct_items (item v rest) = is_distinct v && is_distinct_items rest

  pub is_distinct_fields : Fields → Bool
  is_distinct_fields no_fields = true
  is_distinct_fields (field k v rest) =
      not (has_key k rest) && is_distinct v && is_distinct_fields rest

both_pass :
    (a b : Checked) (x y : Bool)
    → passes a ≡ not x
    → passes b ≡ not y
    → passes (a >> b) ≡ not (x || y)
both_pass a b x y h k = ground arith

field_passes :
    (message : String) (shadowed bad x y : Bool) (a b : Checked)
    → shadowed ≡ false
    → passes a ≡ not x
    → passes b ≡ not y
    → passes ((if shadowed then ok tt else refuse_if bad message >> a) >> b) ≡ not (bad || x || y)
field_passes message shadowed bad x y a b e h k = ground arith

distinct_parts :
    (shadowed a b : Bool)
    → (not shadowed && a && b) ≡ true
    → (shadowed ≡ false) × (a ≡ true) × (b ≡ true)
distinct_parts shadowed a b h = ground arith

mutual
  unfolding mentions is_distinct walk

  passes-walk' : (j : Json) → is_distinct j ≡ true → passes (walk j) ≡ not (mentions is_forbidden j)
  passes-walk' null h = refl
  passes-walk' (boolean b) h = refl
  passes-walk' (number n) h = refl
  passes-walk' (string s) h = refl
  passes-walk' (array items) h = passes-walk_items items h
  passes-walk' (object fields) h = passes-walk_fields fields h

  passes-walk_items :
      (items : Items)
      → is_distinct_items items ≡ true
      → passes (walk_items items) ≡ not (mentions_items is_forbidden items)
  passes-walk_items no_items h = refl
  passes-walk_items (item v rest) h =
      both_pass (walk v) (walk_items rest) (mentions is_forbidden v)
        (mentions_items is_forbidden rest)
        (passes-walk' v (&&-eq_true (is_distinct v) (is_distinct_items rest) h).0)
        (passes-walk_items rest (&&-eq_true (is_distinct v) (is_distinct_items rest) h).1)

  passes-walk_fields :
      (fields : Fields)
      → is_distinct_fields fields ≡ true
      → passes (walk_fields fields) ≡ not (mentions_fields is_forbidden fields)
  passes-walk_fields no_fields h = refl
  passes-walk_fields (field k v rest) h =
      let parts : (has_key k rest ≡ false)
          × (is_distinct v ≡ true)
          × (is_distinct_fields rest ≡ true) =
        distinct_parts (has_key k rest) (is_distinct v) (is_distinct_fields rest) h in
      field_passes "ledger payload contains prohibited field" (has_key k rest) (is_forbidden k)
        (mentions is_forbidden v) (mentions_fields is_forbidden rest) (walk v) (walk_fields rest)
        parts.0 (passes-walk' v parts.1) (passes-walk_fields rest parts.2)

-- The walk over a payload passes exactly when no object at any depth of it has a prohibited field,
-- where no object of it has two fields with one key.
pub passes-walk :
    (j : Json) → is_distinct j ≡ true → passes (walk j) ≡ not (mentions is_forbidden j)
passes-walk j h = passes-walk' j h

-- What the payload of a record is free of.
abbrev pub is_clean : Json → Bool
is_clean j = not (is_distinct j && mentions is_forbidden j)

walked_clean : (j : Json) → passes (walk j) ≡ true → is_clean j ≡ true
walked_clean j h = ground (arith, passes-walk' j)

admitted_walk :
    (w : Writer) (t : Text) (p : Payload) (raw : Json)
    → admit w t p ≡ ok raw
    → passes (walk raw) ≡ true
unfolding admit
admitted_walk w t p raw h =
    let framed =
      ok->>
        (refuse_if w.closed "evidence ledger is closed"
          >> refuse_if (is_nil t) "ledger record type is required")
        (marshalled p.encoded >>= clean p) raw h in
    let decoded = ok->>= (marshalled p.encoded) (clean p) raw framed.1 in
    let walked =
      ok->> (inspect p.is_read decoded.0)
        (refuse_if (not p.is_framed) "encode ledger record" >> ok decoded.0) raw decoded.1.1 in
    let kept =
      ok->> (refuse_if (not p.is_framed) "encode ledger record") (ok decoded.0) raw walked.1 in
    subst (λ j. passes (walk j) ≡ true) (ok-injective decoded.0 raw kept.1)
      (passes->> (refuse_if (not p.is_read) "inspect ledger payload") (walk decoded.0) walked.0).1

not_both : {b : Bool} → not b ≡ true → b ≡ false
not_both h = ground arith

module _ (disk : Disk) (encode : Record → Text) where
  Framed-clean :
      (w : Writer) (t : Text) (p : Payload) (r : Record)
      → Framed disk encode w t p r
      → is_clean r.payload ≡ true
  Framed-clean w t p r framed =
      subst (λ a. is_clean a.payload ≡ true) framed.framed
        (walked_clean framed.raw (admitted_walk w t p framed.raw framed.admitted))

  -- No record that `Append` ever returned has a prohibited field in an object at any depth of its
  -- payload, unless some object of the payload has two fields with one key.
  pub Reached-All_clean :
      {session : Text}
      → {records : List Record} → {w : Writer} → Reached disk encode session records w
      → All (λ r. (is_distinct r.payload && mentions is_forbidden r.payload) ≡ false) records
  Reached-All_clean (created w h) = tt
  Reached-All_clean (appended t p r before h) =
      All-append (λ a. (is_distinct a.payload && mentions is_forbidden a.payload) ≡ false) _
        (r ∷ []) (Reached-All_clean before)
        (not_both (Framed-clean _ t p r (append_ok disk encode _ t p r h)), tt)
  Reached-All_clean (refused t p m before h) = Reached-All_clean before
  Reached-All_clean (synced before) = Reached-All_clean before
  Reached-All_clean (closed before) = Reached-All_clean before
