-- ===== src/Ledger/Synced.antt =====
-- internal/ledger/ledger.go: what a `Sync` or a `Close` without an error makes durable.
use mathlib.Core.Path.{subst}
use mathlib.Core.List.{append-nil}
use cirewind.Base.{
  ◌≡◌, refl, sym, ◌∙◌, ap, false, Option, none, some, List, [], ◌∷◌, ◌++◌, String, Text, ok,
  Bool-cases, Option-cases, inl, inr,
}
use cirewind.Ledger.Writer.{Disk, Buffer, File, Record, Writer, flush}
use cirewind.Ledger.Operations.{sync, close, sync_flushed, sync_failure, sync_file, failed, joined}
use cirewind.Ledger.Bytes.{Holds-ok, flush_empties}
use cirewind.Ledger.Kept.{Kept, Kept-exact, flush-Kept}
use cirewind.Ledger.Durable.{
  Reached-Kept, sync_closed, sync_open, flushed_ok, flushed_failed, close_open,
}
use cirewind.Ledger.Steps.{Reached, lines}

module _ (disk : Disk) (encode : Record → Text) where
  -- After a flush that succeeded the file has every line.
  flushed_content :
      {P : List Record → Record → Type 0}
      → (records : List Record) (b : Buffer) → (flush disk b).failure ≡ none
      → Kept encode P records b
      → (flush disk b).file.content ≡ lines encode records
  flushed_content {P = P} records b e k =
      sym (append-nil (flush disk b).file.content)
      ∙ ap (λ l. (flush disk b).file.content ++ l) (sym (flush_empties disk b e))
      ∙ Holds-ok (lines encode records) (flush disk b) e
          (Kept-exact encode P records (flush disk b) e (flush-Kept disk encode P records b k))

  failed-none :
      (label : String) (failure : Option String)
      → failed label failure (ok (tt {0})) ≡ ok tt
      → failure ≡ none
  failed-none label none h = refl
  failed-none label (some message) h = cc

  abbrev IsDurable : List Record → File → Type 0
  IsDurable records file =
      (file.content ≡ lines encode records) × (file.durable ≡ lines encode records)

  synced-IsDurable :
      (records : List Record) (file : File)
      → file.content ≡ lines encode records
      → sync_failure disk file ≡ none
      → IsDurable records (sync_file disk file)
  synced-IsDurable records file e f = (e, rw f e)

  flushed-IsDurable :
      {P : List Record → Record → Type 0}
      → (records : List Record) (w : Writer) → (sync_flushed disk w (flush disk w.buffer)).1 ≡ ok tt
      → Kept encode P records w.buffer
      → IsDurable records (sync_flushed disk w (flush disk w.buffer)).0.buffer.file
  flushed-IsDurable records w h k = elim (Option-cases (flush disk w.buffer).failure) [
    | inr (message, e) ↦ absurd (not_ok message e)
    | inl e ↦
        subst (λ a. IsDurable records a.0.buffer.file)
          (sym (flushed_ok disk w (flush disk w.buffer) e))
          (synced-IsDurable records (flush disk w.buffer).file
            (flushed_content records w.buffer e k) (synced_ok e))
  ]
    where
      not_ok : (message : String) → (flush disk w.buffer).failure ≡ some message → ⊥
      not_ok message e = cc (ap (λ a. a.1) (flushed_failed disk w (flush disk w.buffer) message e))

      synced_ok :
          (flush disk w.buffer).failure ≡ none → sync_failure disk (flush disk w.buffer).file ≡ none
      synced_ok e =
          failed-none "sync evidence ledger" (sync_failure disk (flush disk w.buffer).file)
            (ap (λ a. a.1) (sym (flushed_ok disk w (flush disk w.buffer) e)) ∙ h)

  -- If `Sync` returns no error, then every record that `Append` has returned by then is whole on the
  -- medium, in order and with nothing after it.
  pub sync-IsDurable :
      {session : Text}
      → {records : List Record} → {w : Writer} → Reached disk encode session records w
      → (sync disk w).1 ≡ ok tt
      → ((sync disk w).0.buffer.file.content ≡ lines encode records)
        × ((sync disk w).0.buffer.file.durable ≡ lines encode records)
  sync-IsDurable {records = records} {w = w} reached h = elim (Bool-cases w.closed) [
    | inl e ↦ absurd (cc (sync_closed disk w e))
    | inr e ↦
        subst (λ a. IsDurable records a.0.buffer.file) (sym (sync_open disk w e))
          (flushed-IsDurable records w (ap (λ a. a.1) (sym (sync_open disk w e)) ∙ h)
            (Reached-Kept disk encode reached))
  ]

  joined-none : (a b c : Option String) → joined (a ∷ b ∷ c ∷ []) ≡ [] → (a ≡ none) × (b ≡ none)
  joined-none none none c h = (refl, refl)
  joined-none none (some m) c h = cc
  joined-none (some m) b c h = cc

  -- If `Close` of a writer that is not closed joins no error, then every record that `Append` has
  -- returned is whole on the medium, in order and with nothing after it.
  pub close-IsDurable :
      {session : Text}
      → {records : List Record} → {w : Writer} → Reached disk encode session records w
      → w.closed ≡ false
      → (close disk w).1 ≡ []
      → ((close disk w).0.buffer.file.content ≡ lines encode records)
        × ((close disk w).0.buffer.file.durable ≡ lines encode records)
  close-IsDurable {records = records} {w = w} reached e h =
      subst (λ a. IsDurable records a.0.buffer.file) (sym (close_open disk w e))
        (synced-IsDurable records (flush disk w.buffer).file
          (flushed_content records w.buffer no_failure.0 (Reached-Kept disk encode reached))
          no_failure.1)
    where
      no_failure :
          ((flush disk w.buffer).failure ≡ none)
          × (sync_failure disk (flush disk w.buffer).file ≡ none)
      no_failure =
          joined-none (flush disk w.buffer).failure (sync_failure disk (flush disk w.buffer).file)
            (disk.close_call (sync_file disk (flush disk w.buffer).file).calls)
            (ap (λ a. a.1) (sym (close_open disk w e)) ∙ h)
