-- ===== src/Work/Journal.antt =====
-- pkg/softwarework/journal.go: one file for each execution, created with O_EXCL at the claim and
-- replaced at the completion. The mutex makes each method atomic, and the directory lock excludes other
-- processes. JSON encoding is a parameter, and so are the answers of the system calls.
use tos_ai.Prelude.{
  Bool, Option, Result, [], drop, err, false, if◌then◌else◌, length, ltb, none, not, ok, some, take,
  true, ℕ, ◌++◌, ◌+◌, ◌==◌, ◌||◌, ◌∷◌,
}
use tos_ai.Prelude.Exec.{Exec, gets, lift, modify, pure, raise_if, ◌>>=◌, ◌>>◌}
use tos_ai.Prelude.Int.{pos}
use tos_ai.Prelude.Text.{Bytes, bytes_eq, codes, is_digest}
use tos_ai.Work.Contract.{
  Descriptor, Outcome, WorkError, close_claim, close_completion, commit_completion, create_claim,
  create_completion, create_root, identity_conflict, invalid_claim, invalid_completion,
  invalid_record, invalid_root, journal_owned, not_completable, protect_completion, read_record,
  root_not_private, sync_claim, sync_completion, sync_journal, write_claim, write_completion,
}

pub data RecordState : Type 0 where
  running complete : RecordState
  other_state : Bytes → RecordState

pub record JournalRecord : Type 0 where
  pub schema : Bytes
  pub fingerprint : Bytes
  pub state : RecordState
  pub outcome : Outcome

-- encoding/json on a record.
pub record Codec : Type 0 where
  pub encode : JournalRecord → Bytes
  pub decode : Bytes → Option JournalRecord

-- What `Lstat` tells of a file, and its content.
pub record JournalFile : Type 0 where
  pub regular : Bool
  pub perm : ℕ
  pub content : Bytes

-- The files of the journal's directory by name, and the temporary files left behind.
pub record Journal : Type 0 where
  pub has_lock : Bool
  pub files : Bytes → Option JournalFile
  pub leftovers : ℕ

abbrev pub JournalMethod : Type 0 → Type 0
JournalMethod A = Exec Journal WorkError A

abbrev pub journal_schema : Bytes
journal_schema = codes "tos.service.software-work-journal.v1"

abbrev pub zero_descriptor : Descriptor
zero_descriptor = record { digest = []; media_type = []; size_bytes = 0 }

-- Outcome{}
abbrev pub zero_outcome : Outcome
zero_outcome = record {
  quote_commitment = [];
  execution_id = [];
  input_digest = [];
  result_digest = [];
  artifact = zero_descriptor;
  report = zero_descriptor;
  source_digest = [];
  toolchain_digest = [];
  sandbox_digest = [];
  exit_code = pos 0;
  completed_at = 0;
}

-- 32<<10
abbrev pub max_record_bytes : ℕ
max_record_bytes = 32768

-- `j.path`, inside the root
unfoldable pub path : Bytes → Bytes
path execution_id = drop 7 execution_id ++ codes ".json"

abbrev pub private_file : Bytes → Option JournalFile
private_file content = some (record { regular = true; perm = 0o600; content = content })

abbrev pub set_file : Bytes → Option JournalFile → Journal → Journal
set_file name file j = record j {
  files = λ other. if bytes_eq other name then file else j.files other;
}

abbrev pub valid_state : RecordState → Bool
valid_state running = true
valid_state complete = true
valid_state (other_state t) = false

pub record ClaimFaults : Type 0 where
  pub create : Bool
  pub write : Bool
  pub written : ℕ
  pub sync : Bool
  pub close : Bool
  pub sync_directory : Bool
  pub remove : Bool
  pub read : Bool

pub record CompleteFaults : Type 0 where
  pub read : Bool
  pub create : Bool
  pub chmod : Bool
  pub write : Bool
  pub sync : Bool
  pub close : Bool
  pub rename : Bool
  pub remove : Bool
  pub sync_directory : Bool

-- `if err != nil { _ = os.Remove(path); return err }`
unfoldable pub withdraw_if : Bool → Bool → Bytes → WorkError → JournalMethod (Unit {0})
withdraw_if true remove_fails name e j = (err e, if remove_fails then j else set_file name none j)
withdraw_if false remove_fails name e j = (ok tt, j)

-- `if err != nil { return err }` behind `defer os.Remove(name)` of the temporary file
unfoldable pub abandon_if : Bool → Bool → WorkError → JournalMethod (Unit {0})
abandon_if true remove_fails e j =
    (err e, if remove_fails then record j { leftovers = j.leftovers + 1 } else j)
abandon_if false remove_fails e j = (ok tt, j)

module _ (codec : Codec) where
  -- The bytes of a record's file.
  abbrev pub encoded : JournalRecord → Bytes
  encoded r = codec.encode r ++ b'\n' ∷ []

  -- `readJournalRecord`
  unfoldable pub read_journal_record : Bool → Option JournalFile → Result WorkError JournalRecord
  read_journal_record fault none = err invalid_record
  read_journal_record fault (some f) =
      if not f.regular
        || not (f.perm == 0o600)
        || (length f.content == 0)
        || ltb max_record_bytes (length f.content)
      then err invalid_record
      else if fault
      then err read_record
      else elim (codec.decode f.content) [
        | none ↦ err invalid_record
        | some r ↦
            if not (bytes_eq r.schema journal_schema)
              || not (is_digest r.fingerprint)
              || not (valid_state r.state)
            then err invalid_record
            else ok r
      ]

  abbrev pub running_record : Bytes → JournalRecord
  running_record fingerprint = record {
    schema = journal_schema;
    fingerprint = fingerprint;
    state = running;
    outcome = zero_outcome;
  }

  -- The claim of an execution that has no file. A failing write leaves a part of the record.
  unfoldable pub begin_claim :
      ClaimFaults → Bytes → JournalRecord → JournalMethod (Bool × JournalRecord)
  begin_claim io name claimed = do
    let content = if io.write then take io.written (encoded claimed) else encoded claimed
    modify (set_file name (private_file content))
    withdraw_if io.write io.remove name write_claim
    withdraw_if io.sync io.remove name sync_claim
    withdraw_if io.close io.remove name close_claim
    withdraw_if io.sync_directory io.remove name sync_journal
    pure (true, claimed)

  -- The claim of an execution that has a file.
  unfoldable pub join_claim :
      ClaimFaults → Bytes → Option JournalFile → JournalMethod (Bool × JournalRecord)
  join_claim io fingerprint file = do
    existing ← lift (read_journal_record io.read file)
    raise_if (not (bytes_eq existing.fingerprint fingerprint)) identity_conflict
    pure (false, existing)

  unfoldable pub open_claim :
      ClaimFaults → Bytes → Bytes → Option JournalFile → JournalMethod (Bool × JournalRecord)
  open_claim io name fingerprint none = begin_claim io name (running_record fingerprint)
  open_claim io name fingerprint (some f) = join_claim io fingerprint (some f)

  -- `Claim`
  unfoldable pub claim : ClaimFaults → Bytes → Bytes → JournalMethod (Bool × JournalRecord)
  claim io execution_id fingerprint = do
    j ← gets (λ j. j)
    raise_if (not j.has_lock || not (is_digest execution_id) || not (is_digest fingerprint))
        invalid_claim
    raise_if io.create create_claim
    open_claim io (path execution_id) fingerprint (j.files (path execution_id))

  abbrev pub completed_record : JournalRecord → Bytes → Outcome → JournalRecord
  completed_record existing fingerprint outcome = record {
    schema = existing.schema;
    fingerprint = fingerprint;
    state = complete;
    outcome = outcome;
  }

  abbrev pub is_running : RecordState → Bool
  is_running running = true
  is_running _ = false

  -- whether `Complete` may replace the record that it has read
  unfoldable pub completable :
      Bytes → Result WorkError JournalRecord → Result WorkError JournalRecord
  completable fingerprint (err e) = err not_completable
  completable fingerprint (ok existing) =
      if not (bytes_eq existing.fingerprint fingerprint) || not (is_running existing.state)
      then err not_completable
      else ok existing

  -- `Complete`
  unfoldable pub complete_claim :
      CompleteFaults → Bytes → Bytes → Outcome → JournalMethod (Unit {0})
  complete_claim io execution_id fingerprint outcome = do
    j ← gets (λ j. j)
    raise_if (not j.has_lock) invalid_completion
    let name = path execution_id
    existing ← lift (completable fingerprint (read_journal_record io.read (j.files name)))
    raise_if io.create create_completion
    abandon_if io.chmod io.remove protect_completion
    abandon_if io.write io.remove write_completion
    abandon_if io.sync io.remove sync_completion
    abandon_if io.close io.remove close_completion
    abandon_if io.rename io.remove commit_completion
    modify (set_file name (private_file (encoded (completed_record existing fingerprint outcome))))
    raise_if io.sync_directory sync_journal

-- What `OpenJournal` finds: the root's path is absolute and clean, or not; what `Lstat` tells of it
-- behind `MkdirAll`; and whether the directory lock is free.
pub record Root : Type 0 where
  pub absolute_clean : Bool
  pub mkdir_fails : Bool
  pub lstat_fails : Bool
  pub is_directory : Bool
  pub is_symlink : Bool
  pub perm : ℕ
  pub owned : Bool
  pub files : Bytes → Option JournalFile
  pub leftovers : ℕ

-- `OpenJournal`
unfoldable pub open_journal : Root → Result WorkError Journal
open_journal root =
    if not root.absolute_clean
    then err invalid_root
    else if root.mkdir_fails
    then err create_root
    else if root.lstat_fails || not root.is_directory || root.is_symlink || not (root.perm == 0o700)
    then err root_not_private
    else if root.owned
    then err journal_owned
    else ok (record { has_lock = true; files = root.files; leftovers = root.leftovers })
