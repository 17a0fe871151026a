-- ===== src/Ledger/Sequence.antt =====
-- internal/ledger/ledger.go: the numbers of the records.
use mathlib.Core.Path.{subst}
use cirewind.Base.{
  ℕ, suc, ◌+◌, ◌%◌, ◌^◌, ◌≡◌, refl, sym, ◌∙◌, ap, none, List, [], ◌∷◌, ◌++◌, String, length, Text,
  arith, ok, err, Bool-cases, Option-cases, inl, inr, length-append,
}
use cirewind.Ledger.Writer.{Disk, Buffer, Record, Writer, create, flush}
use cirewind.Ledger.Operations.{Payload, append, sync, close, sync_flushed}
use cirewind.Ledger.Durable.{
  sync_closed, sync_open, flushed_ok, flushed_failed, close_open, close_closed,
}
use cirewind.Ledger.Steps.{
  Reached, created, appended, refused, synced, closed, create_ok, append_ok, append_err, Framed,
}

-- The numbers that follow `before`, and one session.
abbrev pub IsNumbered : Text → ℕ → List Record → Type 0
IsNumbered session before [] = Unit
IsNumbered session before (r ∷ rest) =
    (r.sequence ≡ suc before % 2 ^ 64)
    × (r.session_id ≡ session)
    × IsNumbered session (suc before) rest

IsNumbered-append :
    (session : Text) (before : ℕ) (records : List Record) (r : Record)
    → IsNumbered session before records
    → r.sequence ≡ suc (before + length records) % 2 ^ 64
    → r.session_id ≡ session
    → IsNumbered session before (records ++ r ∷ [])
IsNumbered-append session before [] r h e f = (e ∙ ap (λ n. suc n % 2 ^ 64) (omega arith), f, tt)
IsNumbered-append session before (q ∷ rest) r h e f = (
  h.0,
  h.1,
  IsNumbered-append session (suc before) rest r h.2 (e ∙ ap (λ n. suc n % 2 ^ 64) (omega arith)) f,
)

record IsCounted (session : Text) (records : List Record) (w : Writer) : Type 0 where
  numbers : IsNumbered session 0 records
  count : w.sequence ≡ length records % 2 ^ 64
  of_session : w.session_id ≡ session

next_number : (n : ℕ) → (n % 2 ^ 64 + 1) % 2 ^ 64 ≡ suc n % 2 ^ 64
next_number n = omega arith

same-IsCounted :
    (session : Text) (records : List Record) (w v : Writer)
    → v.sequence ≡ w.sequence
    → v.session_id ≡ w.session_id
    → IsCounted session records w
    → IsCounted session records v
same-IsCounted session records w v e f c = record {
  numbers = c.numbers;
  count = e ∙ c.count;
  of_session = f ∙ c.of_session;
}

module _ (disk : Disk) (encode : Record → Text) where
  created-IsCounted :
      (session : Text) (w : Writer) → create none session ≡ ok w → IsCounted session [] w
  created-IsCounted session w h =
      subst (IsCounted session []) (create_ok session w h)
        record { numbers = tt; count = refl; of_session = refl }

  Framed-IsCounted :
      (session : Text) (records : List Record) (w : Writer) (t : Text) (p : Payload) (r : Record)
      → Framed disk encode w t p r
      → IsCounted session records w
      → IsCounted session (records ++ r ∷ []) (append disk encode w t p).0
  Framed-IsCounted session records w t p r framed c =
      subst (IsCounted session (records ++ r ∷ [])) (sym framed.after) record {
        numbers =
            IsNumbered-append session 0 records r c.numbers from_zero
              (sym (ap (λ a. a.session_id) framed.framed) ∙ c.of_session);
        count = number ∙ ap (λ n. n % 2 ^ 64) counted;
        of_session = c.of_session;
      }
    where
      number : r.sequence ≡ suc (length records) % 2 ^ 64
      number =
          sym (ap (λ a. a.sequence) framed.framed)
          ∙ ap (λ n. (n + 1) % 2 ^ 64) c.count
          ∙ next_number (length records)

      from_zero : r.sequence ≡ suc (0 + length records) % 2 ^ 64
      from_zero = number ∙ ap (λ n. suc n % 2 ^ 64) (omega arith)

      counted : suc (length records) ≡ length (records ++ r ∷ [])
      counted = omega (arith, length-append records (r ∷ []))

  refused-IsCounted :
      (session : Text) (records : List Record) (w : Writer) (t : Text) (p : Payload) (m : String)
      → (append disk encode w t p).1 ≡ err m
      → IsCounted session records w
      → IsCounted session records (append disk encode w t p).0
  refused-IsCounted session records w t p m h c = elim (append_err disk encode w t p m h) [
    | inl e ↦ subst (IsCounted session records) (sym e) c
    | inr (r, f, e) ↦
        subst (IsCounted session records) (sym e) (same-IsCounted session records w _ refl refl c)
  ]

  synced-IsCounted :
      (session : Text) (records : List Record) (w : Writer)
      → IsCounted session records w
      → IsCounted session records (sync disk w).0
  synced-IsCounted session records w c = elim (Bool-cases w.closed) [
    | inl e ↦ subst (λ a. IsCounted session records a.0) (sym (sync_closed disk w e)) c
    | inr e ↦
        subst (λ a. IsCounted session records a.0) (sym (sync_open disk w e))
          (flushed (flush disk w.buffer))
  ]
    where
      flushed : (b : Buffer) → IsCounted session records (sync_flushed disk w b).0
      flushed b = elim (Option-cases b.failure) [
        | inl e ↦
            subst (λ a. IsCounted session records a.0) (sym (flushed_ok disk w b e))
              (same-IsCounted session records w _ refl refl c)
        | inr (m, e) ↦
            subst (λ a. IsCounted session records a.0) (sym (flushed_failed disk w b m e))
              (same-IsCounted session records w _ refl refl c)
      ]

  close-IsCounted :
      (session : Text) (records : List Record) (w : Writer)
      → IsCounted session records w
      → IsCounted session records (close disk w).0
  close-IsCounted session records w c = elim (Bool-cases w.closed) [
    | inl e ↦ subst (IsCounted session records) (sym (close_closed disk w e)) c
    | inr e ↦
        subst (λ a. IsCounted session records a.0) (sym (close_open disk w e))
          (same-IsCounted session records w _ refl refl c)
  ]

  Reached-IsCounted :
      {session : Text}
      → {records : List Record} → {w : Writer} → Reached disk encode session records w
      → IsCounted session records w
  Reached-IsCounted (created w h) = created-IsCounted _ w h
  Reached-IsCounted (appended t p r before h) =
      Framed-IsCounted _ _ _ t p r (append_ok disk encode _ t p r h) (Reached-IsCounted before)
  Reached-IsCounted (refused t p m before h) =
      refused-IsCounted _ _ _ t p m h (Reached-IsCounted before)
  Reached-IsCounted (synced before) = synced-IsCounted _ _ _ (Reached-IsCounted before)
  Reached-IsCounted (closed before) = close-IsCounted _ _ _ (Reached-IsCounted before)

  -- Whatever calls fail, the records that `Append` returned have the numbers 1, 2, 3 and so on, modulo
  -- 2^64, without a gap, and the session that the ledger was created for; the writer's own number is
  -- that of the last one.
  pub Reached-IsNumbered :
      {session : Text}
      → {records : List Record} → {w : Writer} → Reached disk encode session records w
      → IsNumbered session 0 records
        × (w.sequence ≡ length records % 2 ^ 64)
        × (w.session_id ≡ session)
  Reached-IsNumbered reached =
      let c = Reached-IsCounted reached in (c.numbers, c.count, c.of_session)
