-- ===== src/Ledger/Bytes.antt =====
-- internal/ledger/ledger.go: what the buffer and the file hold together.
use mathlib.Core.Path.{subst}
use mathlib.Core.List.{append-nil, append_assoc}
use cirewind.Base.{
  ◌≤◌, ◌≡◌, refl, sym, ◌∙◌, ap, Bool, true, false, Option, none, some, [], ◌∷◌, ◌++◌, String,
  length, take, drop, take-drop, take_all, is_nil, ltb, arith, Text, Bool-cases, Option-cases, inl,
  inr,
}
use cirewind.Ledger.Writer.{
  Disk, File, Buffer, flush, flush_pending, accepted, write_failure, short_write, write_file, left,
}

abbrev pub IsPrefix : Text → Text → Type 0
IsPrefix xs ys = (rest : Text) × (xs ++ rest ≡ ys)

-- Without a failure the file and the buffer make up the bytes given; after one the file has the first
-- of them.
abbrev pub HoldsAs : Option String → Text → Buffer → Type 0
HoldsAs none total b = b.file.content ++ b.pending ≡ total
HoldsAs (some message) total b = IsPrefix b.file.content total

abbrev pub Holds : Text → Buffer → Type 0
Holds total b = HoldsAs b.failure total b

pub Holds-ok :
    (total : Text) (b : Buffer)
    → b.failure ≡ none
    → Holds total b
    → b.file.content ++ b.pending ≡ total
Holds-ok total b e h = subst (λ f. HoldsAs f total b) e h

pub Holds-of_exact :
    (total : Text) (b : Buffer)
    → b.failure ≡ none
    → b.file.content ++ b.pending ≡ total
    → Holds total b
Holds-of_exact total b e h = subst (λ f. HoldsAs f total b) (sym e) h

HoldsAs-prefix :
    (failure : Option String) (total : Text) (b : Buffer)
    → HoldsAs failure total b
    → IsPrefix b.file.content total
HoldsAs-prefix none total b h = (b.pending, h)
HoldsAs-prefix (some message) total b h = h

pub Holds-prefix : (total : Text) (b : Buffer) → Holds total b → IsPrefix b.file.content total
Holds-prefix total b h = HoldsAs-prefix b.failure total b h

-- After a failure the bytes to come do not matter.
pub Holds-failed :
    (total more : Text) (b : Buffer) (message : String)
    → b.failure ≡ some message
    → Holds total b
    → Holds (total ++ more) b
Holds-failed total more b message e h =
    subst (λ f. HoldsAs f (total ++ more) b) (sym e) (longer (Holds-prefix total b h))
  where
    longer : IsPrefix b.file.content total → IsPrefix b.file.content (total ++ more)
    longer (rest, p) = (rest ++ more, rw (← append_assoc b.file.content rest more, p) refl)

short_write-none :
    (short : Bool) (failure : Option String) → short_write short failure ≡ none → short ≡ false
short_write-none true none e = cc
short_write-none true (some message) e = cc
short_write-none false failure e = refl

pub is_nil-nil : (xs : Text) → is_nil xs ≡ true → xs ≡ []
is_nil-nil [] e = refl
is_nil-nil (x ∷ xs) e = cc

module _ (disk : Disk) where
  accepted_all :
      (file : File) (bytes : Text)
      → write_failure disk file bytes ≡ none
      → length bytes ≤ accepted disk file bytes
  accepted_all file bytes e = not_short (
      short_write-none (ltb (accepted disk file bytes) (length bytes))
        (disk.write_call file.calls bytes).1 e)
    where
      not_short :
          ltb (accepted disk file bytes) (length bytes) ≡ false
          → length bytes ≤ accepted disk file bytes
      not_short f = ground arith

  -- A write to the file, of bytes that come after the ones it has.
  pub written-Holds :
      (file : File) (bytes pending total : Text)
      → file.content ++ bytes ≡ total
      → (write_failure disk file bytes ≡ none → pending ≡ [])
      → Holds total record {
        file = write_file disk file bytes;
        pending = pending;
        failure = write_failure disk file bytes;
      }
  written-Holds file bytes pending total h q = elim (Option-cases (write_failure disk file bytes)) [
    | inl e ↦
        rw
          (
            e,
            q e,
            append-nil (file.content ++ take (accepted disk file bytes) bytes),
            take_all (accepted disk file bytes) bytes (accepted_all file bytes e),
          )
          h
    | inr (message, e) ↦ rw e (
      drop (accepted disk file bytes) bytes,
      rw
          (
            append_assoc file.content (take (accepted disk file bytes) bytes)
                (drop (accepted disk file bytes) bytes),
            take-drop (accepted disk file bytes) bytes,
          )
          h,
    )
  ]

  pub flush_failed : (b : Buffer) (message : String) → b.failure ≡ some message → flush disk b ≡ b
  unfolding flush
  flush_failed b message e = rw e refl

  flush_nothing : (b : Buffer) → b.failure ≡ none → is_nil b.pending ≡ true → flush disk b ≡ b
  unfolding flush
  flush_nothing b e f = rw (e, f) refl

  flush_some :
      (b : Buffer)
      → b.failure ≡ none
      → is_nil b.pending ≡ false
      → flush disk b ≡ flush_pending disk b
  unfolding flush
  flush_some b e f = rw (e, f) refl

  pub flush-Holds : (total : Text) (b : Buffer) → Holds total b → Holds total (flush disk b)
  flush-Holds total b h = elim (Option-cases b.failure) [
    | inr (message, e) ↦ rw (flush_failed b message e) h
    | inl e ↦ elim (Bool-cases (is_nil b.pending)) [
      | inl f ↦ rw (flush_nothing b e f) h
      | inr f ↦ subst (Holds total) (sym (flush_some b e f)) (
          written-Holds b.file b.pending
            (left (write_failure disk b.file b.pending) (accepted disk b.file b.pending) b.pending)
            total (Holds-ok total b e h) (λ g. rw g refl))
    ]
  ]

  -- A flush that succeeds leaves nothing in the buffer.
  pub flush_empties : (b : Buffer) → (flush disk b).failure ≡ none → (flush disk b).pending ≡ []
  flush_empties b h = elim (Option-cases b.failure) [
    | inr (message, e) ↦ absurd (cc (flush_failed b message e))
    | inl e ↦ elim (Bool-cases (is_nil b.pending)) [
      | inl f ↦ rw (flush_nothing b e f) (is_nil-nil b.pending f)
      | inr f ↦ rw (flush_some b e f) (flushed e f)
    ]
  ]
    where
      flushed : b.failure ≡ none → is_nil b.pending ≡ false → (flush_pending disk b).pending ≡ []
      flushed e f = rw (ap (λ c. c.failure) (sym (flush_some b e f)) ∙ h) refl
