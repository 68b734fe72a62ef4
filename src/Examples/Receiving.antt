-- ===== src/Examples/Receiving.antt =====
-- The outbox of Publishing: its listing of pending results, and a result that its journal receives.
use tos_ai.Examples.Publishing.{
  durable, empty_outbox, event, holding, kit, no_enqueue_faults, no_finish_faults, stored, value,
}
use tos_ai.Outbox.{
  Outbox, complete_result, enqueue, finish_of, invalid_entry_for, is_event_id, is_result_kind,
  place_result, read_result_file, replace_result, result_digest_of, result_path, result_pending,
  retract_if, valid_result_record, write_result,
}
use tos_ai.Outbox.Listing.{
  OutboxEntry, PendingResult, collect_pending, event_of, is_json_name, passes, pending,
  pending-lists, pending_result,
}
use tos_ai.Outbox.OneResult.{IsDurable}
use tos_ai.Outbox.Receiving.{IsDone, journal_result, journal_result-IsDone}
use tos_ai.Prelude.{Bool, List, [], any, false, ok, refl, subst, sym, true, ◌∙◌, ◌∷◌, ◌≡◌}
use tos_ai.Prelude.Exec.{◌>>=◌}
use tos_ai.Prelude.Results.{eq_of_ok}
use tos_ai.Prelude.Sorting.{insert_by, is_sorted, sort_by}
use tos_ai.Prelude.Text.{bytes_eq, codes, has_prefix, hex_encode, is_digest}

abbrev entry_of_event : OutboxEntry
entry_of_event = record {
  is_directory = false;
  name = codes "0000000000000000000000000000000000000000000000000000000000000000.json";
  read = false;
}

abbrev some_entries : List OutboxEntry
some_entries =
    entry_of_event ∷ record { is_directory = false; name = codes ".lock"; read = false } ∷ []

abbrev results : List PendingResult
results = pending_result (stored result_pending) ∷ []

lists_one : pending kit false some_entries holding ≡ ok results
unfolding pending collect_pending is_json_name sort_by insert_by read_result_file
    valid_result_record is_event_id is_result_kind is_digest result_digest_of hex_encode bytes_eq
    has_prefix
lists_one = refl

pending-lists_example :
    (is_sorted event_of results ≡ true)
    × ((p : PendingResult → Bool) → any p results ≡ any (passes kit holding.files p) some_entries)
pending-lists_example = pending-lists kit false some_entries holding results lists_one

receives :
    (journal_result kit no_enqueue_faults no_finish_faults event value empty_outbox).0 ≡ ok tt
unfolding journal_result enqueue invalid_entry_for place_result write_result retract_if
    complete_result finish_of replace_result read_result_file valid_result_record is_event_id
    is_result_kind is_digest result_digest_of hex_encode bytes_eq has_prefix result_path ◌>>=◌
receives = refl

abbrev behind_enqueue : Outbox
behind_enqueue = (enqueue kit no_enqueue_faults event (codes "mcp.result") value empty_outbox).1

reads_pending :
    read_result_file kit false (behind_enqueue.files (result_path event.event_id))
    ≡ ok (stored result_pending)
unfolding enqueue invalid_entry_for place_result write_result retract_if read_result_file
    valid_result_record is_event_id is_result_kind is_digest result_digest_of hex_encode bytes_eq
    has_prefix result_path ◌>>=◌
reads_pending = refl

journal_result-IsDone_example : IsDone kit (result_digest_of kit value) (
    (journal_result kit no_enqueue_faults no_finish_faults event value empty_outbox).1.files
      (result_path event.event_id))
journal_result-IsDone_example =
    journal_result-IsDone kit no_enqueue_faults no_finish_faults event value empty_outbox
      (λ r reads. subst (IsDurable kit) (eq_of_ok (sym reads_pending ∙ reads)) durable) receives
