-- ===== src/Outbox.antt =====
-- pkg/messengereventbridge/outbox.go: the results that wait to be published, one file for each event. The
-- mutex makes each method one action. JSON, SHA-256 and
-- `envelope.MaxContentBytes` are parameters.
pub mod Limits
pub mod OneResult
pub mod Listing
pub mod Receiving
use tos_ai.Prelude.{
  Bool, Option, Result, [], all, drop, err, false, if◌then◌else◌, leb, length, ltb, none, not, ok,
  some, take, true, ℕ, ◌&&◌, ◌++◌, ◌+◌, ◌==◌, ◌||◌, ◌∷◌,
}
use tos_ai.Prelude.Exec.{Exec, gets, lift, modify, pure, raise_if, ◌>>=◌, ◌>>◌}
use tos_ai.Prelude.Text.{
  Bytes, bytes_eq, codes, has_prefix, hex_encode, is_digest, is_lower_hex, sha256_prefix,
}

pub data ResultState : Type 0 where
  result_pending result_done : ResultState
  other_result_state : Bytes → ResultState

pub record ResultRecord : Type 0 where
  pub schema : Bytes
  pub source_event_id : Bytes
  pub conversation_id : Bytes
  pub sender_agent_id : Bytes
  pub source_created_at : ℕ  -- uint64
  pub result_kind : Bytes
  pub result_json : Bytes
  pub result_digest : Bytes
  pub state : ResultState

-- What `enqueue` uses of an envelope.Event.
pub record SourceEvent : Type 0 where
  pub event_id : Bytes
  pub conversation_id : Bytes
  pub sender_agent_id : Bytes
  pub created_at : ℕ  -- uint64

-- `decode` is strict: no unknown fields, and nothing behind the value.
pub record OutboxKit : Type 0 where
  pub sha256 : Bytes → Bytes
  pub max_content_bytes : ℕ
  pub encode : ResultRecord → Bytes
  pub decode : Bytes → Option ResultRecord

pub record ResultFile : Type 0 where
  pub regular : Bool
  pub perm : ℕ
  pub owned_single_link : Bool
  pub content : Bytes

pub record Outbox : Type 0 where
  pub has_lock : Bool
  pub files : Bytes → Option ResultFile

pub data OutboxError : Type 0 where
  invalid_entry encode_entry outbox_closed create_entry write_entry sync_outbox : OutboxError
  result_conflict invalid_result_record read_result_record : OutboxError
  invalid_result_completion result_mismatch create_temporary protect_temporary : OutboxError
  write_temporary rename_temporary list_outbox : OutboxError

pub record EnqueueFaults : Type 0 where
  pub create : Bool
  pub write : Bool
  pub written : ℕ
  pub sync : Bool
  pub remove : Bool
  pub read : Bool

pub record FinishFaults : Type 0 where
  pub read : Bool
  pub create : Bool
  pub chmod : Bool
  pub write : Bool
  pub rename : Bool
  pub sync : Bool

abbrev pub result_record_schema : Bytes
result_record_schema = codes "tos.service.messenger-result-outbox.v2"

-- the regular expression `^evt_[0-9a-f]{64}$`
unfoldable pub is_event_id : Bytes → Bool
is_event_id s = has_prefix (codes "evt_") s && (length s == 68) && all is_lower_hex (drop 4 s)

unfoldable pub is_result_kind : Bytes → Bool
is_result_kind kind = bytes_eq kind (codes "a2a.message") || bytes_eq kind (codes "mcp.result")

abbrev pub valid_result_state : ResultState → Bool
valid_result_state result_pending = true
valid_result_state result_done = true
valid_result_state (other_result_state t) = false

abbrev pub is_result_done : ResultState → Bool
is_result_done result_done = true
is_result_done _ = false

-- `o.path`, inside the root
unfoldable pub result_path : Bytes → Bytes
result_path event_id = drop 4 event_id ++ codes ".json"

abbrev pub set_result_file : Bytes → Option ResultFile → Outbox → Outbox
set_result_file name file o = record o {
  files = λ other. if bytes_eq other name then file else o.files other;
}

abbrev pub result_file : Bytes → Option ResultFile
result_file content =
    some (record { regular = true; perm = 0o600; owned_single_link = true; content = content })

-- `sameResult`
unfoldable pub same_result : ResultRecord → ResultRecord → Bool
same_result l r =
    bytes_eq l.source_event_id r.source_event_id
    && bytes_eq l.conversation_id r.conversation_id
    && bytes_eq l.sender_agent_id r.sender_agent_id
    && (l.source_created_at == r.source_created_at)
    && bytes_eq l.result_kind r.result_kind
    && bytes_eq l.result_digest r.result_digest
    && bytes_eq l.result_json r.result_json

-- `if err != nil { _ = os.Remove(path); return err }`
unfoldable pub retract_if : Bool → Bool → Bytes → OutboxError → Exec Outbox OutboxError (Unit {0})
retract_if true remove_fails name e o =
    (err e, if remove_fails then o else set_result_file name none o)
retract_if false remove_fails name e o = (ok tt, o)

module _ (kit : OutboxKit) where
  -- `resultDigest`
  unfoldable pub result_digest_of : Bytes → Bytes
  result_digest_of raw = sha256_prefix ++ hex_encode (kit.sha256 raw)

  -- maxResultBytes + 32<<10
  abbrev pub max_result_record_bytes : ℕ
  max_result_record_bytes = kit.max_content_bytes + 32768

  -- `validResultRecord`
  unfoldable pub valid_result_record : ResultRecord → Bool
  valid_result_record r =
      bytes_eq r.schema result_record_schema
      && is_event_id r.source_event_id
      && not (length r.conversation_id == 0)
      && not (length r.sender_agent_id == 0)
      && ltb 0 r.source_created_at
      && is_result_kind r.result_kind
      && ltb 0 (length r.result_json)
      && leb (length r.result_json) kit.max_content_bytes
      && is_digest r.result_digest
      && bytes_eq r.result_digest (result_digest_of r.result_json)
      && valid_result_state r.state

  -- `readResultRecord`
  unfoldable pub read_result_file : Bool → Option ResultFile → Result OutboxError ResultRecord
  read_result_file fault none = err invalid_result_record
  read_result_file fault (some f) =
      if not f.regular
        || not (f.perm == 0o600)
        || (length f.content == 0)
        || ltb max_result_record_bytes (length f.content)
        || not f.owned_single_link
      then err invalid_result_record
      else if fault
      then err read_result_record
      else elim (kit.decode f.content) [
        | none ↦ err invalid_result_record
        | some r ↦ if valid_result_record r then ok r else err invalid_result_record
      ]

  abbrev pub with_newline : Bytes → Bytes
  with_newline value = value ++ b'\n' ∷ []

  -- The record that `enqueue` makes.
  abbrev pub pending_record : SourceEvent → Bytes → Bytes → ResultRecord
  pending_record event kind value = record {
    schema = result_record_schema;
    source_event_id = event.event_id;
    conversation_id = event.conversation_id;
    sender_agent_id = event.sender_agent_id;
    source_created_at = event.created_at;
    result_kind = kind;
    result_json = value;
    result_digest = result_digest_of value;
    state = result_pending;
  }

  unfoldable pub invalid_entry_for : SourceEvent → Bytes → Bytes → Bool
  invalid_entry_for event kind value =
      not (is_event_id event.event_id)
      || (length event.conversation_id == 0)
      || (length event.sender_agent_id == 0)
      || (event.created_at == 0)
      || not (is_result_kind kind)
      || (length value == 0)
      || ltb kit.max_content_bytes (length value)

  -- The event has no file.
  unfoldable pub write_result :
      EnqueueFaults → Bytes → ResultRecord → Exec Outbox OutboxError (Unit {0})
  write_result io name r = do
    let content = with_newline (kit.encode r)
    modify
        (set_result_file name (result_file (if io.write then take io.written content else content)))
    retract_if io.write io.remove name write_entry
    retract_if io.sync io.remove name sync_outbox

  -- The event has a file.
  unfoldable pub compare_result :
      Bool → ResultRecord → Option ResultFile → Exec Outbox OutboxError (Unit {0})
  compare_result fault r file = do
    existing ← lift (read_result_file fault file)
    raise_if (not (same_result existing r)) result_conflict

  unfoldable pub place_result :
      EnqueueFaults → Bytes → ResultRecord → Option ResultFile → Exec Outbox OutboxError (Unit {0})
  place_result io name r none = write_result io name r
  place_result io name r (some f) = compare_result io.read r (some f)

  -- `enqueue`
  unfoldable pub enqueue :
      EnqueueFaults → SourceEvent → Bytes → Bytes → Exec Outbox OutboxError (Unit {0})
  enqueue io event kind value = do
    raise_if (invalid_entry_for event kind value) invalid_entry
    let r = pending_record event kind value
    raise_if (ltb max_result_record_bytes (length (kit.encode r))) encode_entry
    o ← gets (λ o. o)
    raise_if (not o.has_lock) outbox_closed
    raise_if io.create create_entry
    place_result io (result_path event.event_id) r (o.files (result_path event.event_id))

  abbrev pub done_record : ResultRecord → ResultRecord
  done_record r = record r { state = result_done }

  -- What `Complete` makes of the record that it reads: nothing to do, or the record to write.
  unfoldable pub finish_of :
      Bytes → Result OutboxError ResultRecord → Result OutboxError (Option ResultRecord)
  finish_of digest (err e) = err result_mismatch
  finish_of digest (ok r) =
      if not (bytes_eq r.result_digest digest)
      then err result_mismatch
      else if is_result_done r.state
      then ok none
      else ok (some (done_record r))

  unfoldable pub replace_result :
      FinishFaults → Bytes → Option ResultRecord → Exec Outbox OutboxError (Unit {0})
  replace_result io name none = pure tt
  replace_result io name (some r) = do
    raise_if io.create create_temporary
    raise_if io.chmod protect_temporary
    raise_if io.write write_temporary
    raise_if io.rename rename_temporary
    modify (set_result_file name (result_file (with_newline (kit.encode r))))
    raise_if io.sync sync_outbox

  -- `Complete`
  unfoldable pub complete_result : FinishFaults → Bytes → Bytes → Exec Outbox OutboxError (Unit {0})
  complete_result io event_id digest = do
    raise_if (not (is_event_id event_id) || not (is_digest digest)) invalid_result_completion
    o ← gets (λ o. o)
    raise_if (not o.has_lock) outbox_closed
    next ← lift (finish_of digest (read_result_file io.read (o.files (result_path event_id))))
    replace_result io (result_path event_id) next

-- `Close`
unfoldable pub close_outbox : Outbox → Outbox
close_outbox o = record o { has_lock = false }
