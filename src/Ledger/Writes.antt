-- ===== src/Ledger/Writes.antt =====
-- internal/ledger/ledger.go: a write to the buffer, on each of its paths.
use mathlib.Core.Path.{subst}
use mathlib.Core.List.{append-nil, append_assoc}
use cirewind.Base.{
  ◌≡◌, refl, sym, ◌∙◌, ap, true, false, none, some, [], ◌++◌, String, take, drop, take-drop, is_nil,
  Text, Bool-cases, Option-cases, inl, inr,
}
use cirewind.Ledger.Writer.{
  Disk, Buffer, flush, write_buffer, put_or_write, put, fits, room, write_failure, write_file,
}
use cirewind.Ledger.Bytes.{
  Holds, Holds-ok, Holds-of_exact, Holds-failed, written-Holds, flush-Holds, flush_empties,
  is_nil-nil,
}

module _ (disk : Disk) where
  put-Holds :
      (total bytes : Text) (b : Buffer)
      → b.failure ≡ none
      → Holds total b
      → Holds (total ++ bytes) (put b bytes)
  put-Holds total bytes b e h =
      Holds-of_exact (total ++ bytes) (put b bytes) e
        (rw (← append_assoc b.file.content b.pending bytes, Holds-ok total b e h) refl)

  put_fitting :
      (b : Buffer) (bytes : Text)
      → b.failure ≡ none
      → fits b bytes ≡ true
      → put_or_write disk b bytes ≡ put b bytes
  put_fitting b bytes e f = rw (e, f) refl

  put_past :
      (b : Buffer) (bytes : Text)
      → b.failure ≡ none
      → fits b bytes ≡ false
      → put_or_write disk b bytes ≡ record b {
        file = write_file disk b.file bytes;
        failure = write_failure disk b.file bytes;
      }
  put_past b bytes e f = rw (e, f) refl

  put_failed :
      (b : Buffer) (bytes : Text) (message : String)
      → b.failure ≡ some message
      → put_or_write disk b bytes ≡ b
  put_failed b bytes message e = rw e refl

  put_or_write-Holds :
      (total bytes : Text) (b : Buffer)
      → (b.failure ≡ none → b.pending ≡ [])
      → Holds total b
      → Holds (total ++ bytes) (put_or_write disk b bytes)
  put_or_write-Holds total bytes b q h = elim (Option-cases b.failure) [
    | inr (message, e) ↦
        subst (Holds (total ++ bytes)) (sym (put_failed b bytes message e))
          (Holds-failed total bytes b message e h)
    | inl e ↦ elim (Bool-cases (fits b bytes)) [
      | inl f ↦
          subst (Holds (total ++ bytes)) (sym (put_fitting b bytes e f))
            (put-Holds total bytes b e h)
      | inr f ↦
          subst (Holds (total ++ bytes)) (sym (put_past b bytes e f))
            (written-Holds disk b.file bytes b.pending (total ++ bytes) (direct e) (λ g. q e))
    ]
  ]
    where
      direct : b.failure ≡ none → b.file.content ++ bytes ≡ total ++ bytes
      direct e =
          ap (λ c. c ++ bytes)
            (sym (append-nil b.file.content)
              ∙ ap (λ c. b.file.content ++ c) (sym (q e))
              ∙ Holds-ok total b e h)

  pub write_failed :
      (b : Buffer) (bytes : Text) (message : String)
      → b.failure ≡ some message
      → write_buffer disk b bytes ≡ b
  unfolding write_buffer
  write_failed b bytes message e = rw e refl

  write_fitting :
      (b : Buffer) (bytes : Text)
      → b.failure ≡ none
      → fits b bytes ≡ true
      → write_buffer disk b bytes ≡ put b bytes
  unfolding write_buffer
  write_fitting b bytes e f = rw (e, f) refl

  write_past :
      (b : Buffer) (bytes : Text)
      → b.failure ≡ none
      → fits b bytes ≡ false
      → is_nil b.pending ≡ true
      → write_buffer disk b bytes ≡ put_or_write disk b bytes
  unfolding write_buffer
  write_past b bytes e f g = rw (e, f, g) refl

  abbrev filled : Buffer → Text → Buffer
  filled b bytes = flush disk (put b (take (room b) bytes))

  write_filling :
      (b : Buffer) (bytes : Text)
      → b.failure ≡ none
      → fits b bytes ≡ false
      → is_nil b.pending ≡ false
      → write_buffer disk b bytes ≡ put_or_write disk (filled b bytes) (drop (room b) bytes)
  unfolding write_buffer
  write_filling b bytes e f g = rw (e, f, g) refl

  filling-Holds :
      (total bytes : Text) (b : Buffer)
      → b.failure ≡ none
      → Holds total b
      → Holds (total ++ bytes) (put_or_write disk (filled b bytes) (drop (room b) bytes))
  filling-Holds total bytes b e h =
      subst (λ t. Holds t (put_or_write disk (filled b bytes) (drop (room b) bytes)))
        (append_assoc total (take (room b) bytes) (drop (room b) bytes)
          ∙ ap (λ l. total ++ l) (take-drop (room b) bytes))
        (put_or_write-Holds (total ++ take (room b) bytes) (drop (room b) bytes) (filled b bytes)
          (flush_empties disk (put b (take (room b) bytes)))
          (flush-Holds disk (total ++ take (room b) bytes) (put b (take (room b) bytes))
            (put-Holds total (take (room b) bytes) b e h)))

  pub write-Holds :
      (total bytes : Text) (b : Buffer)
      → b.failure ≡ none
      → Holds total b
      → Holds (total ++ bytes) (write_buffer disk b bytes)
  write-Holds total bytes b e h = elim (Bool-cases (fits b bytes)) [
    | inl f ↦
        subst (Holds (total ++ bytes)) (sym (write_fitting b bytes e f))
          (put-Holds total bytes b e h)
    | inr f ↦ elim (Bool-cases (is_nil b.pending)) [
      | inl g ↦
          subst (Holds (total ++ bytes)) (sym (write_past b bytes e f g))
            (put_or_write-Holds total bytes b (λ i. is_nil-nil b.pending g) h)
      | inr g ↦
          subst (Holds (total ++ bytes)) (sym (write_filling b bytes e f g))
            (filling-Holds total bytes b e h)
    ]
  ]
