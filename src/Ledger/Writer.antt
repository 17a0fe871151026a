-- ===== src/Ledger/Writer.antt =====
-- internal/ledger/ledger.go: the writer, its buffer and its file.
use cirewind.Base.{
  ℕ, ◌+◌, ◌-◌, Bool, true, false, Option, none, some, [], ◌++◌, String, length, take, drop, is_nil,
  ltb, leb, if◌then◌else◌, Text, text, Result, ok, err, ◌>>◌, refuse_if, within,
}
use cirewind.Ledger.Json.{Json}

-- The operating system: what each numbered call accepts of the bytes given, and its error.
pub record Disk : Type 0 where
  pub write_call : ℕ → Text → ℕ × Option String
  pub sync_call : ℕ → Option String
  pub close_call : ℕ → Option String

-- `content` is what the file's descriptor has accepted, `durable` what a successful sync found.
pub record File : Type 0 where
  pub content : Text
  pub durable : Text
  pub calls : ℕ

abbrev pub buffer_size : ℕ
buffer_size = 65_536

-- `bufio.Writer`, whose first error stays.
pub record Buffer : Type 0 where
  pub file : File
  pub pending : Text
  pub failure : Option String

pub record Record : Type 0 where
  pub ledger_version : Text
  pub sequence : ℕ
  pub session_id : Text
  pub record_type : Text
  pub payload : Json

pub record Writer : Type 0 where
  pub buffer : Buffer
  pub session_id : Text
  pub sequence : ℕ
  pub closed : Bool

abbrev pub version : Text
version = text "cirewind.ledger/v1alpha1"

abbrev pub fresh : Text → Writer
fresh session_id = record {
  buffer = record {
    file = record { content = []; durable = []; calls = 0 };
    pending = [];
    failure = none;
  };
  session_id = session_id;
  sequence = 0;
  closed = false;
}

-- `os.OpenFile` with `O_EXCL`; `opened` is its error.
unfoldable pub create : Option String → Text → Result Writer
create opened session_id =
    refuse_if (is_nil session_id) "ledger session ID is required" >> elim opened [
      | some message ↦ within "create evidence ledger" (err message)
      | none ↦ ok (fresh session_id)
    ]

-- Fewer bytes than given are an error.
abbrev pub short_write : Bool → Option String → Option String
short_write true none = some "short write"
short_write true (some message) = some message
short_write false failure = failure

-- What stays in the buffer after a flush that wrote `n` bytes of it.
abbrev pub left : Option String → ℕ → Text → Text
left none n pending = []
left (some message) n pending = drop n pending

abbrev pub fits : Buffer → Text → Bool
fits b bytes = leb (length b.pending + length bytes) buffer_size

abbrev pub put : Buffer → Text → Buffer
put b bytes = record b { pending = b.pending ++ bytes }

abbrev pub room : Buffer → ℕ
room b = buffer_size - length b.pending

module _ (disk : Disk) where
  -- `os.File.Write`
  abbrev pub accepted : File → Text → ℕ
  accepted file bytes = (disk.write_call file.calls bytes).0

  abbrev pub write_failure : File → Text → Option String
  write_failure file bytes =
      short_write (ltb (accepted file bytes) (length bytes)) (disk.write_call file.calls bytes).1

  abbrev pub write_file : File → Text → File
  write_file file bytes = record file {
    content = file.content ++ take (accepted file bytes) bytes;
    calls = file.calls + 1;
  }

  abbrev pub flush_pending : Buffer → Buffer
  flush_pending b = record {
    file = write_file b.file b.pending;
    pending = left (write_failure b.file b.pending) (accepted b.file b.pending) b.pending;
    failure = write_failure b.file b.pending;
  }

  -- `bufio.Writer.Flush`
  unfoldable pub flush : Buffer → Buffer
  flush b = elim b.failure [
    | some message ↦ b
    | none ↦ if is_nil b.pending then b else flush_pending b
  ]

  -- `bytes` beside an empty buffer: copied, or past its size written at once.
  abbrev pub put_or_write : Buffer → Text → Buffer
  put_or_write b bytes = elim b.failure [
    | some message ↦ b
    | none ↦
        if fits b bytes
        then put b bytes
        else record b { file = write_file b.file bytes; failure = write_failure b.file bytes }
  ]

  -- `bufio.Writer.Write`: the buffer is filled up and flushed first.
  unfoldable pub write_buffer : Buffer → Text → Buffer
  unfolding flush
  write_buffer b bytes = elim b.failure [
    | some message ↦ b
    | none ↦
        if fits b bytes
        then put b bytes
        else if is_nil b.pending
        then put_or_write b bytes
        else put_or_write (flush (put b (take (room b) bytes))) (drop (room b) bytes)
  ]
