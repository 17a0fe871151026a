-- ===== src/Ledger/Operations.antt =====
-- internal/ledger/ledger.go: `Append`, `Sync` and `Close`. Each holds the writer's lock throughout,
-- so a step is a whole call.
use cirewind.Base.{
  ℕ, ◌+◌, ◌%◌, ◌^◌, true, Bool, not, Option, none, some, List, [], ◌∷◌, ◌++◌, String, is_nil,
  if◌then◌else◌, Text, Result, ok, err, ◌>>◌, ◌>>=◌, refuse_if, within, Checked,
}
use cirewind.Ledger.Json.{Json, walk}
use cirewind.Ledger.Writer.{Disk, File, Buffer, Record, Writer, version, flush, write_buffer}

abbrev pub newline : ℕ
newline = 10

-- A payload by what encoding/json makes of it in this call: the text of `json.Marshal(payload)`, as
-- a tree, or nothing when that fails; whether `json.Unmarshal` accepts that text, which it does not
-- where it nests too deep or has a number out of range; and whether `json.Marshal` accepts the
-- record with it.
pub record Payload : Type 0 where
  pub encoded : Option Json
  pub is_read : Bool
  pub is_framed : Bool

abbrev pub marshalled : Option Json → Result Json
marshalled none = err "encode ledger payload"
marshalled (some raw) = ok raw

-- `rejectSensitiveJSONKeys`
abbrev pub inspect : Bool → Json → Checked
inspect is_read raw = refuse_if (not is_read) "inspect ledger payload" >> walk raw

abbrev pub clean : Payload → Json → Result Json
clean p raw =
    inspect p.is_read raw >> (refuse_if (not p.is_framed) "encode ledger record" >> ok raw)

-- What `Append` does before it writes: the payload that it frames.
unfoldable pub admit : Writer → Text → Payload → Result Json
unfolding walk
admit w record_type payload =
    refuse_if w.closed "evidence ledger is closed"
    >> refuse_if (is_nil record_type) "ledger record type is required"
    >> (marshalled payload.encoded >>= clean payload)

abbrev pub frame : Writer → Text → Json → Record
frame w record_type raw = record {
  ledger_version = version;
  sequence = (w.sequence + 1) % 2 ^ 64;
  session_id = w.session_id;
  record_type = record_type;
  payload = raw;
}

abbrev pub failed {ℓ} : {T : Type ℓ} → String → Option String → Result T → Result T
failed label (some message) value = within label (err message)
failed label none value = value

-- Of a failed `Write` the sequence stays; the buffer keeps its error.
abbrev pub numbered : Option String → ℕ → ℕ → ℕ
numbered none next old = next
numbered (some message) next old = old

-- `encode` is `json.Marshal` on the records that it accepts.
abbrev pub line : (Record → Text) → Record → Text
line encode r = encode r ++ newline ∷ []

module _ (disk : Disk) (encode : Record → Text) where
  abbrev pub written_line : Writer → Record → Buffer
  written_line w r = write_buffer disk w.buffer (line encode r)

  abbrev pub after_write : Writer → Record → Writer × Result Record
  after_write w r = (
    record w {
      buffer = written_line w r;
      sequence = numbered (written_line w r).failure r.sequence w.sequence;
    },
    failed "append evidence ledger" (written_line w r).failure (ok r),
  )

  unfoldable pub append : Writer → Text → Payload → Writer × Result Record
  unfolding admit write_buffer
  append w record_type payload = elim (admit w record_type payload) [
    | err message ↦ (w, err message)
    | ok raw ↦ after_write w (frame w record_type raw)
  ]

-- `os.File.Sync`: after a success what the file holds is on the medium.
abbrev pub kept_after : Option String → File → Text
kept_after none file = file.content
kept_after (some message) file = file.durable

abbrev pub with_file : Buffer → File → Buffer
with_file b file = record b { file = file }

abbrev pub close_file : File → File
close_file file = record file { calls = file.calls + 1 }

-- `errors.Join` drops the errors that are nil.
abbrev pub joined : List (Option String) → List String
joined [] = []
joined (none ∷ rest) = joined rest
joined (some message ∷ rest) = message ∷ joined rest

module _ (disk : Disk) where
  abbrev pub sync_file : File → File
  sync_file file = record file {
    durable = kept_after (disk.sync_call file.calls) file;
    calls = file.calls + 1;
  }

  abbrev pub sync_failure : File → Option String
  sync_failure file = disk.sync_call file.calls

  abbrev pub sync_flushed : Writer → Buffer → Writer × Checked
  sync_flushed w b = elim b.failure [
    | some message ↦ (record w { buffer = b }, within "flush evidence ledger" (err message))
    | none ↦ (
      record w { buffer = with_file b (sync_file b.file) },
      failed "sync evidence ledger" (sync_failure b.file) (ok tt),
    )
  ]

  unfoldable pub sync : Writer → Writer × Checked
  unfolding flush
  sync w =
      if w.closed
      then (w, err "evidence ledger is closed")
      else sync_flushed w (flush disk w.buffer)

  abbrev pub close_flushed : Writer → Buffer → Writer × List String
  close_flushed w b = (
    record w { buffer = with_file b (close_file (sync_file b.file)); closed = true },
    joined (b.failure ∷ sync_failure b.file ∷ disk.close_call (sync_file b.file).calls ∷ []),
  )

  unfoldable pub close : Writer → Writer × List String
  unfolding flush
  close w = if w.closed then (w, []) else close_flushed w (flush disk w.buffer)
