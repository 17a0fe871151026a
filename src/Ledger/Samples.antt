-- ===== src/Ledger/Samples.antt =====
-- A ledger of two records, on a medium that takes all and on one that fails.
use cirewind.Base.{
  ◌≡◌, ◌≤◌, ◌%◌, ◌^◌, refl, true, false, not, ◌&&◌, none, some, List, [], ◌∷◌, ◌++◌, text, Text,
  length, ok, err, All, passes,
}
use cirewind.Ledger.Json.{
  Json, string, number, object, array, no_fields, field, item, no_items, is_forbidden, walk,
  has_key,
}
use cirewind.Ledger.Writer.{Disk, Record, Writer, version, fresh, create}
use cirewind.Ledger.Operations.{Payload, append, sync, close}
use cirewind.Ledger.Steps.{IsFailed, Reached, created, appended, refused, synced, lines}
use cirewind.Ledger.Bytes.{IsPrefix}
use cirewind.Ledger.Durable.{Reached-IsPrefix}
use cirewind.Ledger.Synced.{sync-IsDurable, close-IsDurable}
use cirewind.Ledger.Clean.{mentions, is_distinct, passes-walk, Reached-All_clean}
use cirewind.Ledger.Sequence.{IsNumbered, Reached-IsNumbered}

abbrev willing : Disk
willing = record {
  write_call = λ n bytes. (length bytes, none);
  sync_call = λ n. none;
  close_call = λ n. none;
}

abbrev failing : Disk
failing = record {
  write_call = λ n bytes. (2, some "no space left on device");
  sync_call = λ n. none;
  close_call = λ n. none;
}

abbrev encode : Record → Text
encode r = r.sequence ∷ r.record_type

abbrev session : Text
session = text "s1"

abbrev kind : Text
kind = text "run"

abbrev payload : Json
payload = object (field (text "id") (number (text "7")) no_fields)

abbrev secret : Json
secret = object (
    field (text "steps")
      (array (item (object (field (text "cookie") (string (text "x")) no_fields)) no_items))
      no_fields)

-- encoding/json has no error on it.
abbrev accepted : Json → Payload
accepted raw = record { encoded = some raw; is_read = true; is_framed = true }

abbrev first : Record
first = record {
  ledger_version = version;
  sequence = 1;
  session_id = session;
  record_type = kind;
  payload = payload;
}

abbrev begun : Disk → Writer
begun disk = (append disk encode (fresh session) kind (accepted payload)).0

first_appended :
    (disk : Disk) → (append disk encode (fresh session) kind (accepted payload)).1 ≡ ok first
unfolding append
first_appended disk = refl

created-Reached : (disk : Disk) → Reached disk encode session [] (fresh session)
unfolding create
created-Reached disk = created (fresh session) refl

begun-Reached : (disk : Disk) → Reached disk encode session (first ∷ []) (begun disk)
begun-Reached disk =
    appended kind (accepted payload) first (created-Reached disk) (first_appended disk)

abbrev refusal : Disk → Writer
refusal disk = (append disk encode (begun disk) kind (accepted secret)).0

-- `json.Unmarshal` refuses the text.
unreadable :
    (append willing encode
      (begun willing)
      kind
      (record { encoded = some payload; is_read = false; is_framed = true })).1
    ≡ err "inspect ledger payload"
unfolding append
unreadable = refl

secret_refused :
    (append willing encode (begun willing) kind (accepted secret)).1
    ≡ err "ledger payload contains prohibited field"
unfolding append
secret_refused = refl

refusal-Reached : Reached willing encode session (first ∷ []) (refusal willing)
refusal-Reached =
    refused kind (accepted secret) "ledger payload contains prohibited field"
      (begun-Reached willing) secret_refused

sync_succeeds : (sync willing (refusal willing)).1 ≡ ok tt
unfolding append sync
sync_succeeds = refl

close_succeeds : (close willing (refusal willing)).1 ≡ []
unfolding append close
close_succeeds = refl

still_open : (refusal willing).closed ≡ false
unfolding append
still_open = refl

sync-IsDurable_example :
    ((sync willing (refusal willing)).0.buffer.file.content ≡ lines encode (first ∷ []))
    × ((sync willing (refusal willing)).0.buffer.file.durable ≡ lines encode (first ∷ []))
sync-IsDurable_example = sync-IsDurable willing encode refusal-Reached sync_succeeds

close-IsDurable_example :
    ((close willing (refusal willing)).0.buffer.file.content ≡ lines encode (first ∷ []))
    × ((close willing (refusal willing)).0.buffer.file.durable ≡ lines encode (first ∷ []))
close-IsDurable_example = close-IsDurable willing encode refusal-Reached still_open close_succeeds

abbrev torn_ledger : Writer
torn_ledger = (sync failing (begun failing)).0

torn_content : torn_ledger.buffer.file.content ≡ 1 ∷ text "r"
unfolding append sync
torn_content = refl

Reached-IsPrefix_example :
    (last : List Record) × (length last ≤ 1)
    × (torn_ledger.buffer.failure ≡ none → last ≡ [])
    × All (IsFailed failing encode session (first ∷ [])) last
    × IsPrefix torn_ledger.buffer.file.content (lines encode (first ∷ [] ++ last))
Reached-IsPrefix_example = Reached-IsPrefix failing encode (synced (begun-Reached failing))

Reached-IsNumbered_example :
    IsNumbered session 0 (first ∷ [])
    × ((refusal willing).sequence ≡ length (first ∷ []) % 2 ^ 64)
    × ((refusal willing).session_id ≡ session)
Reached-IsNumbered_example = Reached-IsNumbered willing encode refusal-Reached

Reached-All_clean_example :
    All (λ r. (is_distinct r.payload && mentions is_forbidden r.payload) ≡ false) (first ∷ [])
Reached-All_clean_example = Reached-All_clean willing encode refusal-Reached

secret_distinct : is_distinct secret ≡ true
unfolding is_distinct has_key
secret_distinct = refl

passes-walk_example : passes (walk secret) ≡ not (mentions is_forbidden secret)
passes-walk_example = passes-walk secret secret_distinct
