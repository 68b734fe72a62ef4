-- ===== src/Examples/Publishing.antt =====
-- An outbox of pkg/messengereventbridge with one result, and toy encodings of its two records.
use tos_ai.Outbox.{
  EnqueueFaults, FinishFaults, Outbox, OutboxKit, ResultRecord, ResultState, SourceEvent, enqueue,
  invalid_entry_for, is_event_id, is_result_kind, pending_record, place_result, read_result_file,
  result_digest_of, result_done, result_file, result_path, result_pending, result_record_schema,
  retract_if, same_result, valid_result_record, with_newline, write_result,
}
use tos_ai.Outbox.Limits.{enqueue-read_result_file}
use tos_ai.Outbox.OneResult.{
  IsDurable, IsHeld, OutboxCall, completes, enqueues, held_as_it_is, run_calls,
  run_calls-one_result,
}
use tos_ai.Prelude.{
  List, [], false, if◌then◌else◌, none, ok, refl, some, suc, true, zero, ℕ, ◌==◌, ◌∷◌, ◌≡◌,
}
use tos_ai.Prelude.Exec.{◌>>=◌}
use tos_ai.Prelude.Text.{Bytes, bytes_eq, codes, has_prefix, hex_encode, is_digest}

abbrev zeros : ℕ → Bytes
zeros zero = []
zeros (suc n) = 0 ∷ zeros n

abbrev pub event : SourceEvent
event = record {
  event_id = codes "evt_0000000000000000000000000000000000000000000000000000000000000000";
  conversation_id = codes "conversation";
  sender_agent_id = codes "agent";
  created_at = 7;
}

abbrev pub kind : Bytes
kind = codes "mcp.result"

abbrev pub value : Bytes
value = codes "{}"

abbrev pub stored : ResultState → ResultRecord
stored state = record {
  schema = result_record_schema;
  source_event_id = event.event_id;
  conversation_id = event.conversation_id;
  sender_agent_id = event.sender_agent_id;
  source_created_at = 7;
  result_kind = kind;
  result_json = value;
  result_digest = codes "sha256:0000000000000000000000000000000000000000000000000000000000000000";
  state = state;
}

abbrev pub kit : OutboxKit
kit = record {
  sha256 = λ raw. zeros 32;
  max_content_bytes = 1000;
  encode = λ r. elim r.state [ result_pending ↦ 1 ∷ [] | _ ↦ 2 ∷ [] ];
  decode = λ raw. some (elim raw [
    | [] ↦ stored result_pending
    | x ∷ xs ↦ if x == 1 then stored result_pending else stored result_done
  ]);
}

abbrev pub empty_outbox : Outbox
empty_outbox = record { has_lock = true; files = λ name. none }

abbrev pub no_enqueue_faults : EnqueueFaults
no_enqueue_faults = record {
  create = false;
  write = false;
  written = 0;
  sync = false;
  remove = false;
  read = false;
}

abbrev pub no_finish_faults : FinishFaults
no_finish_faults = record {
  read = false;
  create = false;
  chmod = false;
  write = false;
  rename = false;
  sync = false;
}

decodes :
    kit.decode (with_newline kit (kit.encode (pending_record kit event kind value)))
    ≡ some (pending_record kit event kind value)
unfolding result_digest_of hex_encode
decodes = refl

hashes : is_digest (result_digest_of kit value) ≡ true
unfolding result_digest_of hex_encode is_digest
hashes = refl

accepts : (enqueue kit no_enqueue_faults event kind value empty_outbox).0 ≡ ok tt
unfolding enqueue invalid_entry_for is_event_id is_result_kind place_result write_result retract_if
    bytes_eq has_prefix ◌>>=◌
accepts = refl

enqueue-read_result_file_example :
    read_result_file kit false (
      (enqueue kit no_enqueue_faults event kind value empty_outbox).1.files
        (result_path event.event_id))
    ≡ ok (pending_record kit event kind value)
enqueue-read_result_file_example =
    enqueue-read_result_file kit no_enqueue_faults event kind value empty_outbox decodes hashes refl
      accepts

abbrev pub holding : Outbox
holding = record { has_lock = true; files = λ name. result_file (1 ∷ b'\n' ∷ []) }

holds : IsHeld kit (result_path event.event_id) (stored result_pending) holding
unfolding read_result_file valid_result_record is_event_id is_result_kind is_digest bytes_eq
    result_digest_of hex_encode
holds = held_as_it_is refl

pub durable : IsDurable kit (stored result_pending)
unfolding read_result_file valid_result_record is_event_id is_result_kind is_digest bytes_eq
    result_digest_of hex_encode
durable = record { done = refl }

abbrev some_calls : List OutboxCall
some_calls =
    enqueues no_enqueue_faults event kind value
    ∷ completes no_finish_faults event.event_id (stored result_pending).result_digest
    ∷ []

run_calls-one_result_example :
    let later = run_calls kit holding some_calls in
    IsHeld kit (result_path event.event_id) (stored result_pending) later
    × ((enqueue kit no_enqueue_faults event kind value later).0 ≡ ok tt
        → same_result (stored result_pending) (pending_record kit event kind value) ≡ true)
run_calls-one_result_example =
    run_calls-one_result kit (stored result_pending) holding some_calls no_enqueue_faults event kind
      value durable holds
