-- ===== src/Ledger/Steps.antt =====
-- internal/ledger/ledger.go: the calls on a writer in any order, with the records that `Append`
-- returned.
use mathlib.Core.Path.{subst}
use mathlib.Core.List.{append_assoc}
use cirewind.Base.{
  ℕ, ◌≡◌, ◌⊎◌, refl, sym, ap, ◌∙◌, true, List, [], ◌∷◌, ◌++◌, none, some, Option, is_some, Text, ok,
  err, String, Result-cases, ok-injective, Bool-cases, is_nil, inl, inr,
}
use cirewind.Ledger.Json.{Json}
use cirewind.Ledger.Writer.{Disk, Record, Writer, create, fresh}
use cirewind.Ledger.Operations.{
  Payload, append, sync, close, line, admit, frame, written_line, after_write, failed, numbered,
}

-- The bytes of records, in order.
abbrev pub lines : (Record → Text) → List Record → Text
lines encode [] = []
lines encode (r ∷ rest) = line encode r ++ lines encode rest

pub create_ok : (session : Text) (w : Writer) → create none session ≡ ok w → fresh session ≡ w
unfolding create
create_ok session w h = elim (Bool-cases (is_nil session)) [
  | inl e ↦ absurd (cc e)
  | inr e ↦ ok-injective (fresh session) w (sym (rw e refl) ∙ h)
]

pub lines-append :
    (encode : Record → Text) (xs ys : List Record)
    → lines encode (xs ++ ys) ≡ lines encode xs ++ lines encode ys
lines-append encode [] ys = refl
lines-append encode (x ∷ xs) ys =
    rw (append_assoc (line encode x) (lines encode xs) (lines encode ys), lines-append encode xs ys)
      refl

module _ (disk : Disk) (encode : Record → Text) where
  pub data Reached (session : Text) : List Record → Writer → Type 0 where
    created : (w : Writer) → create none session ≡ ok w → Reached session [] w
    appended :
        {records : List Record}
        → {w : Writer} → (record_type : Text) → (payload : Payload) → (r : Record)
        → Reached session records w
        → (append disk encode w record_type payload).1 ≡ ok r
        → Reached session (records ++ r ∷ []) (append disk encode w record_type payload).0
    refused :
        {records : List Record}
        → {w : Writer} → (record_type : Text) → (payload : Payload) → (message : String)
        → Reached session records w
        → (append disk encode w record_type payload).1 ≡ err message
        → Reached session records (append disk encode w record_type payload).0
    synced :
        {records : List Record}
        → {w : Writer} → Reached session records w
        → Reached session records (sync disk w).0
    closed :
        {records : List Record}
        → {w : Writer} → Reached session records w
        → Reached session records (close disk w).0

  append_refused :
      (w : Writer) (record_type : Text) (payload : Payload) (message : String)
      → admit w record_type payload ≡ err message
      → append disk encode w record_type payload ≡ (w, err message)
  unfolding append
  append_refused w record_type payload message e = rw (e, append) refl

  append_framed :
      (w : Writer) (record_type : Text) (payload : Payload) (raw : Json)
      → admit w record_type payload ≡ ok raw
      → append disk encode w record_type payload
        ≡ after_write disk encode w (frame w record_type raw)
  unfolding append
  append_framed w record_type payload raw e = rw (e, append) refl

  -- The writer after a record was framed and written without an error.
  abbrev pub advanced : Writer → Record → Writer
  advanced w r = record w { buffer = written_line disk encode w r; sequence = r.sequence }

  -- What an `Append` that returned a record did.
  pub record Framed (w : Writer) (record_type : Text) (payload : Payload) (r : Record)
      : Type 0 where
    pub raw : Json
    pub admitted : admit w record_type payload ≡ ok raw
    pub framed : frame w record_type raw ≡ r
    pub sound : (written_line disk encode w r).failure ≡ none
    pub after : (append disk encode w record_type payload).0 ≡ advanced w r

  failed_ok :
      (label : String) (failure : Option String) (a b : Record)
      → failed label failure (ok a) ≡ ok b
      → (failure ≡ none) × (a ≡ b)
  failed_ok label none a b h = (refl, ok-injective a b h)
  failed_ok label (some message) a b h = cc

  written_ok :
      (w : Writer) (record_type : Text) (payload : Payload) (r : Record) (raw : Json)
      → admit w record_type payload ≡ ok raw
      → ((written_line disk encode w (frame w record_type raw)).failure ≡ none)
        × (frame w record_type raw ≡ r)
      → Framed w record_type payload r
  written_ok w record_type payload r raw e (f, q) = record {
    raw = raw;
    admitted = e;
    framed = q;
    sound = subst (λ a. (written_line disk encode w a).failure ≡ none) q f;
    after = ap (λ a. a.0) (append_framed w record_type payload raw e) ∙ after_frame;
  }
    where
      after_frame : (after_write disk encode w (frame w record_type raw)).0 ≡ advanced w r
      after_frame =
          subst (λ a. (after_write disk encode w (frame w record_type raw)).0 ≡ advanced w a) q
            (rw f refl)

  pub append_ok :
      (w : Writer) (record_type : Text) (payload : Payload) (r : Record)
      → (append disk encode w record_type payload).1 ≡ ok r
      → Framed w record_type payload r
  append_ok w record_type payload r h = elim (Result-cases (admit w record_type payload)) [
    | inl (message, e) ↦ absurd (cc (append_refused w record_type payload message e))
    | inr (raw, e) ↦ written_ok w record_type payload r raw e (
        failed_ok "append evidence ledger"
          (written_line disk encode w (frame w record_type raw)).failure (frame w record_type raw) r
          (ap (λ a. a.1) (sym (append_framed w record_type payload raw e)) ∙ h))
  ]

  -- The writer after a record was framed and its write failed.
  abbrev pub torn : Writer → Record → Writer
  torn w r = record w { buffer = written_line disk encode w r }

  failed_err :
      (label message : String) (failure : Option String) (a : Record)
      → failed label failure (ok a) ≡ err message
      → is_some failure ≡ true
  failed_err label message none a h = cc
  failed_err label message (some m) a h = refl

  numbered_failed :
      (failure : Option String) (next old : ℕ)
      → is_some failure ≡ true
      → numbered failure next old ≡ old
  numbered_failed none next old h = cc
  numbered_failed (some m) next old h = refl

  -- The record of an `Append` whose write failed.
  pub record IsBroken (w : Writer) (record_type : Text) (payload : Payload) (r : Record)
      : Type 0 where
    pub raw : Json
    pub admitted : admit w record_type payload ≡ ok raw
    pub framed : frame w record_type raw ≡ r
    pub failed : is_some (written_line disk encode w r).failure ≡ true

  -- An `Append` that returned an error did nothing, or its write failed.
  pub append_err :
      (w : Writer) (record_type : Text) (payload : Payload) (message : String)
      → (append disk encode w record_type payload).1 ≡ err message
      → ((append disk encode w record_type payload).0 ≡ w)
        ⊎ ((r : Record) × IsBroken w record_type payload r
            × ((append disk encode w record_type payload).0 ≡ torn w r))
  append_err w record_type payload message h = elim (Result-cases (admit w record_type payload)) [
    | inl (m, e) ↦ inl (ap (λ a. a.0) (append_refused w record_type payload m e))
    | inr (raw, e) ↦ inr (
      frame w record_type raw,
      record { raw = raw; admitted = e; framed = refl; failed = broken raw e },
      stays raw e,
    )
  ]
    where
      broken :
          (raw : Json)
          → admit w record_type payload ≡ ok raw
          → is_some (written_line disk encode w (frame w record_type raw)).failure ≡ true
      broken raw e =
          failed_err "append evidence ledger" message
            (written_line disk encode w (frame w record_type raw)).failure (frame w record_type raw)
            (ap (λ a. a.1) (sym (append_framed w record_type payload raw e)) ∙ h)

      stays :
          (raw : Json)
          → admit w record_type payload ≡ ok raw
          → (append disk encode w record_type payload).0 ≡ torn w (frame w record_type raw)
      stays raw e =
          ap (λ a. a.0) (append_framed w record_type payload raw e)
          ∙ rw
              (numbered_failed (written_line disk encode w (frame w record_type raw)).failure
                (frame w record_type raw).sequence w.sequence (broken raw e))
              refl

  -- In some state of this session with the same records returned, whose writer has no error, the
  -- write of the record fails.
  pub record IsFailed (session : Text) (records : List Record) (r : Record) : Type 0 where
    pub writer : Writer
    pub reached : Reached session records writer
    pub sound : writer.buffer.failure ≡ none
    pub record_type : Text
    pub payload : Payload
    pub broken : IsBroken writer record_type payload r
