-- ===== src/Examples/Working.antt =====
-- A worker of pkg/softwarework that runs one request, and answers it again after a restart.
use tos_ai.Executor.Spec.{Execution}
use tos_ai.Prelude.{
  List, [], arith, false, if◌then◌else◌, none, ok, refl, some, suc, true, zero, ℕ, ◌++◌, ◌==◌, ◌∷◌,
  ◌≡◌,
}
use tos_ai.Prelude.Exec.{◌>>=◌}
use tos_ai.Prelude.Int.{pos}
use tos_ai.Prelude.Text.{Bytes, bytes_eq, codes, hex_encode, is_digest}
use tos_ai.Work.AtMostOnce.{
  AreDistinct, Event, after_event, begins, completes, executes, restarts, run_events,
  run_events-AreDistinct,
}
use tos_ai.Work.Contract.{
  digest, Descriptor, Outcome, Request, Toolkit, is_quote_commitment, request_fingerprint,
  validate_request,
}
use tos_ai.Work.Journal.{
  Codec, Journal, JournalRecord, RecordState, Root, abandon_if, begin_claim, claim, completable,
  complete, complete_claim, journal_schema, open_claim, open_journal, path, read_journal_record,
  running, withdraw_if, zero_outcome,
}
use tos_ai.Work.Preset.{frozen_contract, frozen_image_digest, frozen_manifest_digest}
use tos_ai.Work.Publish.{Services, build_artifact, publish}
use tos_ai.Work.Replay.{Fits, execute_request-replay}
use tos_ai.Work.Runner.{RunFaults, Worker, execute_request, in_journal, run_claim, settle_claim}

abbrev zeros : ℕ → Bytes
zeros zero = []
zeros (suc n) = 0 ∷ zeros n

abbrev some_digest : Bytes
some_digest = codes "sha256:0000000000000000000000000000000000000000000000000000000000000000"

abbrev kit : Toolkit
kit = record {
  sha256 = λ text. zeros 32;
  path_clean = λ text. text;
  path_base = λ text. text;
  encode_identity = λ manifest quote_commitment execution input source. execution;
  encode_report = λ id result exit_code usage now. result;
  write_tar = λ entries. some (1 ∷ []);
}

abbrev request : Request
request = record {
  quote_commitment =
      codes "tvm-cell-sha256:0000000000000000000000000000000000000000000000000000000000000000";
  execution_id = some_digest;
  input_digest = some_digest;
  source_digest = some_digest;
  source_archive = codes "tar";
}

abbrev a_descriptor : Descriptor
a_descriptor = record { digest = some_digest; media_type = []; size_bytes = 1 }

abbrev result : Execution
result = record {
  exit_code = pos 0;
  output = codes "ok";
  usage = record { cpu_millis = 1; peak_memory = 1; disk_written = 1; duration = pos 1 };
}

abbrev services : Services
services = record {
  execute = λ id spec input. some result;
  put = λ media_type value. some a_descriptor;
}

abbrev expected : Outcome
expected = record {
  quote_commitment = request.quote_commitment;
  execution_id = some_digest;
  input_digest = some_digest;
  result_digest = some_digest;
  artifact = a_descriptor;
  report = a_descriptor;
  source_digest = some_digest;
  toolchain_digest = frozen_image_digest;
  sandbox_digest = frozen_manifest_digest;
  exit_code = pos 0;
  completed_at = 7;
}

abbrev stored : RecordState → Outcome → JournalRecord
stored state o = record {
  schema = journal_schema;
  fingerprint = some_digest;
  state = state;
  outcome = o;
}

-- JSON of the two records that occur.
abbrev codec : Codec
codec = record {
  encode = λ r. elim r.state [ running ↦ 1 ∷ [] | _ ↦ 2 ∷ [] ];
  decode = λ value. some (elim value [
    | [] ↦ stored running zero_outcome
    | x ∷ xs ↦ if x == 1 then stored running zero_outcome else stored complete expected
  ]);
}

abbrev no_faults : RunFaults
no_faults = record {
  nil_argument = false;
  claim = record {
    create = false;
    write = false;
    written = 0;
    sync = false;
    close = false;
    sync_directory = false;
    remove = false;
    read = false;
  };
  complete = record {
    read = false;
    create = false;
    chmod = false;
    write = false;
    sync = false;
    close = false;
    rename = false;
    remove = false;
    sync_directory = false;
  };
}

abbrev empty_journal : Journal
empty_journal = record { has_lock = true; files = λ name. none; leftovers = 0 }

abbrev idle_worker : Worker
idle_worker = record { journal = empty_journal; executed = [] }

abbrev good_root : Root
good_root = record {
  absolute_clean = true;
  mkdir_fails = false;
  lstat_fails = false;
  is_directory = true;
  is_symlink = false;
  perm = 0o700;
  owned = false;
  files = λ name. none;
  leftovers = 0;
}

abbrev one_call : Event
one_call = executes services frozen_contract no_faults request 7

-- A call comes while the executor runs for the same request, which is completed then.
abbrev overlapping : List Event
overlapping =
    begins frozen_contract false no_faults.claim request
    ∷ one_call
    ∷ completes no_faults.complete some_digest some_digest expected
    ∷ []

run_events-AreDistinct_example :
    AreDistinct
      (run_events kit codec idle_worker
        (overlapping ++ restarts good_root ∷ one_call ∷ [])).executed
run_events-AreDistinct_example =
    run_events-AreDistinct kit codec empty_journal
      (overlapping ++ restarts good_root ∷ one_call ∷ [])

readable : Fits kit codec frozen_contract request expected
unfolding request_fingerprint digest hex_encode
readable = record { decodes = refl; fits = omega arith }

returns :
    (execute_request kit codec services frozen_contract no_faults request 7 idle_worker).0
    ≡ ok expected
unfolding execute_request ◌>>=◌ in_journal settle_claim run_claim claim open_claim begin_claim
    withdraw_if publish build_artifact complete_claim completable read_journal_record abandon_if
    validate_request request_fingerprint digest is_quote_commitment is_digest bytes_eq path
    hex_encode
returns = refl

abbrev later : Worker
later =
    run_events kit codec
      (execute_request kit codec services frozen_contract no_faults request 7 idle_worker).1
      (restarts good_root ∷ [])

reopens : later.journal.has_lock ≡ true
unfolding run_events after_event open_journal
reopens = refl

execute_request-replay_example :
    execute_request kit codec services frozen_contract no_faults request 8 later
    ≡ (ok expected, later)
execute_request-replay_example =
    execute_request-replay kit codec frozen_contract request expected readable services services
      no_faults no_faults 7 8 idle_worker (restarts good_root ∷ []) returns reopens refl refl refl
