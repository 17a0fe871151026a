-- ===== src/Ledger/Kept.antt =====
-- internal/ledger/ledger.go: what the buffer and the file hold of the records, after each write.
use mathlib.Core.Path.{subst}
use mathlib.Core.List.{append-nil}
use cirewind.Base.{
  ◌≤◌, ◌≡◌, refl, sym, ◌∙◌, ap, true, Option, none, is_some, All, List, [], ◌∷◌, ◌++◌, String,
  length, Text, arith, Option-cases, inl, inr,
}
use cirewind.Ledger.Writer.{Disk, Buffer, Record, flush, write_buffer}
use cirewind.Ledger.Operations.{line}
use cirewind.Ledger.Bytes.{Holds, flush-Holds, flush_failed}
use cirewind.Ledger.Writes.{write-Holds, write_failed}
use cirewind.Ledger.Steps.{lines, lines-append}

-- A record whose write failed, if there is one.
abbrev pub IsTorn : List Record → Option String → Type 0
IsTorn [] failure = Unit
IsTorn (r ∷ []) failure = is_some failure ≡ true
IsTorn (r ∷ q ∷ rest) failure = ⊥

pub IsTorn-none :
    (last : List Record) (failure : Option String)
    → failure ≡ none
    → IsTorn last failure
    → last ≡ []
IsTorn-none [] failure e t = refl
IsTorn-none (r ∷ []) failure e t = absurd (cc)
IsTorn-none (r ∷ q ∷ rest) failure e t = absurd t

pub IsTorn-length :
    (last : List Record) (failure : Option String) → IsTorn last failure → length last ≤ 1
IsTorn-length [] failure t = omega arith
IsTorn-length (r ∷ []) failure t = omega arith
IsTorn-length (r ∷ q ∷ rest) failure t = absurd t

-- `P` is what holds of a record whose write failed, after the records that were returned.
module _ (encode : Record → Text) (P : List Record → Record → Type 0) where
  pub record Kept (records : List Record) (b : Buffer) : Type 0 where
    pub last : List Record
    pub is_torn : IsTorn last b.failure
    pub last_failed : All (P records) last
    pub holds : Holds (lines encode (records ++ last)) b

  pub Kept-exact :
      (records : List Record) (b : Buffer)
      → b.failure ≡ none
      → Kept records b
      → Holds (lines encode records) b
  Kept-exact records b e k =
      subst (λ l. Holds (lines encode l) b)
        (ap (λ l. records ++ l) (IsTorn-none k.last b.failure e k.is_torn) ∙ append-nil records)
        k.holds

module _ (disk : Disk) (encode : Record → Text) (P : List Record → Record → Type 0) where
  pub flush-Kept :
      (records : List Record) (b : Buffer)
      → Kept encode P records b
      → Kept encode P records (flush disk b)
  flush-Kept records b k = elim (Option-cases b.failure) [
    | inr (message, e) ↦ subst (Kept encode P records) (sym (flush_failed disk b message e)) k
    | inl e ↦ record {
      last = [];
      is_torn = tt;
      last_failed = tt;
      holds =
          subst (λ l. Holds (lines encode l) (flush disk b)) (sym (append-nil records))
            (flush-Holds disk (lines encode records) b (Kept-exact encode P records b e k));
    }
  ]

  -- After a write of one record's line.
  written-Holds-line :
      (records : List Record) (b : Buffer) (r : Record)
      → b.failure ≡ none
      → Kept encode P records b
      → Holds (lines encode (records ++ r ∷ [])) (write_buffer disk b (line encode r))
  written-Holds-line records b r e k =
      subst (λ t. Holds t (write_buffer disk b (line encode r)))
        (ap (λ l. lines encode records ++ l) (sym (append-nil (line encode r)))
          ∙ sym (lines-append encode records (r ∷ [])))
        (write-Holds disk (lines encode records) (line encode r) b e
          (Kept-exact encode P records b e k))

  pub appended-Kept :
      (records : List Record) (b : Buffer) (r : Record)
      → (write_buffer disk b (line encode r)).failure ≡ none
      → Kept encode P records b
      → Kept encode P (records ++ r ∷ []) (write_buffer disk b (line encode r))
  appended-Kept records b r f k = elim (Option-cases b.failure) [
    | inr (message, e) ↦ absurd (cc (write_failed disk b (line encode r) message e))
    | inl e ↦ record {
      last = [];
      is_torn = tt;
      last_failed = tt;
      holds =
          subst (λ l. Holds (lines encode l) (write_buffer disk b (line encode r)))
            (sym (append-nil (records ++ r ∷ []))) (written-Holds-line records b r e k);
    }
  ]

  pub torn-Kept :
      (records : List Record) (b : Buffer) (r : Record)
      → is_some (write_buffer disk b (line encode r)).failure ≡ true
      → (b.failure ≡ none → P records r)
      → Kept encode P records b
      → Kept encode P records (write_buffer disk b (line encode r))
  torn-Kept records b r f p k = elim (Option-cases b.failure) [
    | inr (message, e) ↦
        subst (Kept encode P records) (sym (write_failed disk b (line encode r) message e)) k
    | inl e ↦ record {
      last = r ∷ [];
      is_torn = f;
      last_failed = (p e, tt);
      holds = written-Holds-line records b r e k;
    }
  ]
