-- ===== src/Ledger/Durable.antt =====
-- internal/ledger/ledger.go: the lines that the file has in any state of the writer.
use mathlib.Core.Path.{subst}
use cirewind.Base.{
  ◌≤◌, ◌≡◌, refl, sym, true, false, Option, none, some, List, [], ◌∷◌, ◌++◌, String, length, Text,
  All, ok, err, within, Bool-cases, Option-cases, inl, inr,
}
use cirewind.Ledger.Writer.{Disk, Buffer, Record, Writer, flush, fresh, create}
use cirewind.Ledger.Operations.{
  Payload, append, sync, close, sync_flushed, close_flushed, sync_failure, sync_file, close_file,
  with_file, failed,
}
use cirewind.Ledger.Bytes.{HoldsAs, Holds-prefix, IsPrefix}
use cirewind.Ledger.Kept.{Kept, IsTorn-length, IsTorn-none, flush-Kept, appended-Kept, torn-Kept}
use cirewind.Ledger.Steps.{
  Reached, created, appended, refused, synced, closed, lines, create_ok, Framed, IsBroken, IsFailed,
  append_ok, append_err,
}

module _ (disk : Disk) where
  pub sync_closed :
      (w : Writer) → w.closed ≡ true → sync disk w ≡ (w, err "evidence ledger is closed")
  unfolding sync
  sync_closed w e = rw (e, sync) refl

  pub sync_open :
      (w : Writer) → w.closed ≡ false → sync disk w ≡ sync_flushed disk w (flush disk w.buffer)
  unfolding sync
  sync_open w e = rw (e, sync) refl

  pub flushed_failed :
      (w : Writer) (b : Buffer) (message : String)
      → b.failure ≡ some message
      → sync_flushed disk w b
        ≡ (record w { buffer = b }, within "flush evidence ledger" (err message))
  flushed_failed w b message e = rw e refl

  pub flushed_ok :
      (w : Writer) (b : Buffer)
      → b.failure ≡ none
      → sync_flushed disk w b ≡ (
        record w { buffer = with_file b (sync_file disk b.file) },
        failed "sync evidence ledger" (sync_failure disk b.file) (ok tt),
      )
  flushed_ok w b e = rw e refl

  pub close_closed : (w : Writer) → w.closed ≡ true → (close disk w).0 ≡ w
  unfolding close
  close_closed w e = rw (e, close) refl

  pub close_open :
      (w : Writer) → w.closed ≡ false → close disk w ≡ close_flushed disk w (flush disk w.buffer)
  unfolding close
  close_open w e = rw (e, close) refl

module _ (disk : Disk) (encode : Record → Text) where
  synced_as :
      (failure : Option String) (total : Text) (b : Buffer)
      → HoldsAs failure total b
      → HoldsAs failure total (with_file b (sync_file disk b.file))
  synced_as none total b h = h
  synced_as (some message) total b h = h

  module _ (P : List Record → Record → Type 0) where
    synced-Kept :
        (records : List Record) (b : Buffer)
        → Kept encode P records b
        → Kept encode P records (with_file b (sync_file disk b.file))
    synced-Kept records b k = record {
      last = k.last;
      is_torn = k.is_torn;
      last_failed = k.last_failed;
      holds = synced_as b.failure (lines encode (records ++ k.last)) b k.holds;
    }

    fresh-Kept : (session : Text) → Kept encode P [] (fresh session).buffer
    fresh-Kept session = record { last = []; is_torn = tt; last_failed = tt; holds = refl }

    created-Kept :
        (session : Text) (w : Writer) → create none session ≡ ok w → Kept encode P [] w.buffer
    created-Kept session w h =
        subst (λ v. Kept encode P [] v.buffer) (create_ok session w h) (fresh-Kept session)

    flushed-Kept :
        (records : List Record) (w : Writer) (b : Buffer)
        → Kept encode P records b
        → Kept encode P records (sync_flushed disk w b).0.buffer
    flushed-Kept records w b k = elim (Option-cases b.failure) [
      | inl e ↦
          subst (λ a. Kept encode P records a.0.buffer) (sym (flushed_ok disk w b e))
            (synced-Kept records b k)
      | inr (message, e) ↦
          subst (λ a. Kept encode P records a.0.buffer) (sym (flushed_failed disk w b message e)) k
    ]

    sync-Kept :
        (records : List Record) (w : Writer)
        → Kept encode P records w.buffer
        → Kept encode P records (sync disk w).0.buffer
    sync-Kept records w k = elim (Bool-cases w.closed) [
      | inl e ↦ subst (λ a. Kept encode P records a.0.buffer) (sym (sync_closed disk w e)) k
      | inr e ↦
          subst (λ a. Kept encode P records a.0.buffer) (sym (sync_open disk w e))
            (flushed-Kept records w (flush disk w.buffer)
              (flush-Kept disk encode P records w.buffer k))
    ]

    closed_as :
        (failure : Option String) (total : Text) (b : Buffer)
        → HoldsAs failure total b
        → HoldsAs failure total (with_file b (close_file (sync_file disk b.file)))
    closed_as none total b h = h
    closed_as (some message) total b h = h

    closed-Kept :
        (records : List Record) (b : Buffer)
        → Kept encode P records b
        → Kept encode P records (with_file b (close_file (sync_file disk b.file)))
    closed-Kept records b k = record {
      last = k.last;
      is_torn = k.is_torn;
      last_failed = k.last_failed;
      holds = closed_as b.failure (lines encode (records ++ k.last)) b k.holds;
    }

    close-Kept :
        (records : List Record) (w : Writer)
        → Kept encode P records w.buffer
        → Kept encode P records (close disk w).0.buffer
    close-Kept records w k = elim (Bool-cases w.closed) [
      | inl e ↦ subst (λ v. Kept encode P records v.buffer) (sym (close_closed disk w e)) k
      | inr e ↦
          subst (λ a. Kept encode P records a.0.buffer) (sym (close_open disk w e))
            (closed-Kept records (flush disk w.buffer)
              (flush-Kept disk encode P records w.buffer k))
    ]

    append-Kept :
        (records : List Record) (w : Writer) (t : Text) (p : Payload) (r : Record)
        → Framed disk encode w t p r
        → Kept encode P records w.buffer
        → Kept encode P (records ++ r ∷ []) (append disk encode w t p).0.buffer
    append-Kept records w t p r framed k =
        subst (λ v. Kept encode P (records ++ r ∷ []) v.buffer) (sym framed.after)
          (appended-Kept disk encode P records w.buffer r framed.sound k)

    refuse-Kept :
        (records : List Record) (w : Writer) (t : Text) (p : Payload) (m : String)
        → (append disk encode w t p).1 ≡ err m
        → ((r : Record) → IsBroken disk encode w t p r → w.buffer.failure ≡ none → P records r)
        → Kept encode P records w.buffer
        → Kept encode P records (append disk encode w t p).0.buffer
    refuse-Kept records w t p m h p_holds k = elim (append_err disk encode w t p m h) [
      | inl e ↦ subst (λ v. Kept encode P records v.buffer) (sym e) k
      | inr (r, f, e) ↦
          subst (λ v. Kept encode P records v.buffer) (sym e)
            (torn-Kept disk encode P records w.buffer r f.failed (λ s. p_holds r f s) k)
    ]

  pub Reached-Kept :
      {session : Text}
      → {records : List Record} → {w : Writer} → Reached disk encode session records w
      → Kept encode (IsFailed disk encode session) records w.buffer
  Reached-Kept {session = session} (created w h) = created-Kept (IsFailed disk encode session) _ w h
  Reached-Kept {session = session} (appended t p r before h) =
      append-Kept (IsFailed disk encode session) _ _ t p r (append_ok disk encode _ t p r h)
        (Reached-Kept before)
  Reached-Kept {session = session} (refused t p m before h) =
      refuse-Kept (IsFailed disk encode session) _ _ t p m h
        (λ r b s. record {
          writer = _;
          reached = before;
          sound = s;
          record_type = t;
          payload = p;
          broken = b;
        })
        (Reached-Kept before)
  Reached-Kept {session = session} (synced before) =
      sync-Kept (IsFailed disk encode session) _ _ (Reached-Kept before)
  Reached-Kept {session = session} (closed before) =
      close-Kept (IsFailed disk encode session) _ _ (Reached-Kept before)

  -- In every state that calls of `Append`, `Sync` and `Close` can reach, whatever the operating
  -- system does, the bytes that the file has accepted begin the lines of the records that `Append`
  -- returned, in their order, followed by at most one more line. That line is there only if the
  -- buffer has met an error, and it is of a record that an `Append` framed right after the returned
  -- ones, while there was no error, and whose write failed.
  pub Reached-IsPrefix :
      {session : Text}
      → {records : List Record} → {w : Writer} → Reached disk encode session records w
      → (last : List Record) × (length last ≤ 1)
        × (w.buffer.failure ≡ none → last ≡ [])
        × All (IsFailed disk encode session records) last
        × IsPrefix w.buffer.file.content (lines encode (records ++ last))
  Reached-IsPrefix {session = session} {records = records} {w = w} reached =
      let k : Kept encode (IsFailed disk encode session) records w.buffer = Reached-Kept reached in
      (
        k.last,
        IsTorn-length k.last w.buffer.failure k.is_torn,
        λ e. IsTorn-none k.last w.buffer.failure e k.is_torn,
        k.last_failed,
        Holds-prefix (lines encode (records ++ k.last)) w.buffer k.holds,
      )
