-- ===== src/Outbox/Receiving.antt =====
-- pkg/messengereventbridge/outbox.go: the receivers of results, and the journal of MCP results, which completes
-- each result at once. JSON's encoding of a task or an output is an argument.
use tos_ai.Outbox.{
  EnqueueFaults, FinishFaults, Outbox, OutboxError, OutboxKit, ResultFile, ResultRecord,
  SourceEvent, complete_result, done_record, encode_entry, enqueue, finish_of, is_result_done,
  read_result_file, replace_result, result_digest_of, result_file, result_path, with_newline,
}
use tos_ai.Outbox.OneResult.{IsDurable}
use tos_ai.Prelude.{
  Bool, Bool-cases, Option, Result, ap, arith, err, false, inl, inr, none, ok, refl, some, subst,
  sym, true, ◌∙◌, ◌≡◌, ◌⊎◌,
}
use tos_ai.Prelude.Exec.{Exec, pure, raise, ◌>>=◌, ◌>>◌}
use tos_ai.Prelude.Results.{Result-cases}
use tos_ai.Prelude.Text.{Bytes, bytes_eq, bytes_eq_self, bytes_eq→eq, codes}

module _ (kit : OutboxKit) where
  -- `ReceiveA2AResult` with "a2a.message", and `ReceiveMCPResult` of the outbox with "mcp.result"
  unfoldable pub receive_result :
      EnqueueFaults → SourceEvent → Bytes → Option Bytes → Exec Outbox OutboxError (Unit {0})
  receive_result io event kind none = raise encode_entry
  receive_result io event kind (some raw) = enqueue kit io event kind raw

  -- `ReceiveMCPResult` of the journal
  unfoldable pub journal_result :
      EnqueueFaults → FinishFaults → SourceEvent → Bytes → Exec Outbox OutboxError (Unit {0})
  journal_result io finish event raw = do
    enqueue kit io event (codes "mcp.result") raw
    complete_result kit finish event.event_id (result_digest_of kit raw)

  finish_of-ok :
      (digest : Bytes) (found : Result OutboxError ResultRecord) (next : Option ResultRecord)
      → finish_of kit digest found ≡ ok next
      → (r : ResultRecord) × (found ≡ ok r)
        × (bytes_eq r.result_digest digest ≡ true)
        × (((is_result_done r.state ≡ true) × (next ≡ none)) ⊎ (next ≡ some (done_record kit r)))
  unfolding finish_of
  finish_of-ok digest (err e) next h = ground arith
  finish_of-ok digest (ok r) next h = elim (Bool-cases (is_result_done r.state)) [
    | inl done ↦ (r, refl, ground arith, inl (done, ground arith))
    | inr open_still ↦ (r, refl, ground arith, inr (ground arith))
  ]

  replace_result-ok :
      (io : FinishFaults) (name : Bytes) (r : ResultRecord) (o : Outbox)
      → (replace_result kit io name (some r) o).0 ≡ ok tt
      → (replace_result kit io name (some r) o).1.files name
        ≡ result_file (with_newline kit (kit.encode r))
  unfolding replace_result ◌>>=◌
  replace_result-ok io name r o h = ground (arith, bytes_eq_self name)

  complete_result-finishes :
      (io : FinishFaults) (event_id digest : Bytes) (o : Outbox)
      → let found = read_result_file kit io.read (o.files (result_path event_id)) in
        (complete_result kit io event_id digest o).0 ≡ ok tt
        → (next : Option ResultRecord) × (finish_of kit digest found ≡ ok next)
          × (complete_result kit io event_id digest o
              ≡ replace_result kit io (result_path event_id) next o)
  unfolding complete_result ◌>>=◌
  complete_result-finishes io event_id digest o h =
      let found = read_result_file kit io.read (o.files (result_path event_id)) in
      elim (Result-cases (finish_of kit digest found)) [
        | inl (e, refused) ↦ ground arith
        | inr (next, finished) ↦ (next, finished, ground arith)
      ]

  read_result_file-reads :
      (fault : Bool) (file : Option ResultFile) (r : ResultRecord)
      → read_result_file kit fault file ≡ ok r
      → read_result_file kit false file ≡ ok r
  unfolding read_result_file
  read_result_file-reads fault none r h = ground arith
  read_result_file-reads fault (some f) r h = ground arith

  -- The record of the event is done, with the digest.
  pub record IsDone (digest : Bytes) (file : Option ResultFile) : Type 0 where
    pub record_of : ResultRecord
    pub reads : read_result_file kit false file ≡ ok record_of
    pub done : is_result_done record_of.state ≡ true
    pub is_of : record_of.result_digest ≡ digest

  complete_result-IsDone :
      (io : FinishFaults) (event_id digest : Bytes) (o : Outbox)
      → ((r : ResultRecord)
          → read_result_file kit io.read (o.files (result_path event_id)) ≡ ok r
          → IsDurable kit r)
      → (complete_result kit io event_id digest o).0 ≡ ok tt
      → IsDone digest ((complete_result kit io event_id digest o).1.files (result_path event_id))
  unfolding replace_result pure
  complete_result-IsDone io event_id digest o durable h =
      let name = result_path event_id in
      let found = read_result_file kit io.read (o.files name) in
      let (next, finished, same) = complete_result-finishes io event_id digest o h in
      let (r, reads, of_digest, outcome) = finish_of-ok digest found next finished in
      let is_digest' = bytes_eq→eq r.result_digest digest of_digest in
      let own = λ (m : Result OutboxError (Unit {0}) × Outbox). m.1.files name in
      elim outcome [
        | inl (done', none_next) ↦
            let kept : own (complete_result kit io event_id digest o) ≡ o.files name =
              ap own same ∙ rw none_next refl in
            record {
              record_of = r;
              reads = rw kept (read_result_file-reads io.read (o.files name) r reads);
              done = done';
              is_of = is_digest';
            }
        | inr some_next ↦
            let replaced : complete_result kit io event_id digest o
                ≡ replace_result kit io name (some (done_record kit r)) o =
              same ∙ ap (λ n. replace_result kit io name n o) some_next in
            let stored =
              replace_result-ok io name (done_record kit r) o (sym (ap (λ m. m.0) replaced) ∙ h) in
            record {
              record_of = done_record kit r;
              reads = rw (ap own replaced ∙ stored) (durable r reads).done;
              done = refl;
              is_of = is_digest';
            }
      ]

  journal_result-ok :
      (io : EnqueueFaults) (finish : FinishFaults) (event : SourceEvent) (raw : Bytes) (o : Outbox)
      → (journal_result io finish event raw o).0 ≡ ok tt
      → let middle = (enqueue kit io event (codes "mcp.result") raw o).1 in
        let digest = result_digest_of kit raw in
        ((complete_result kit finish event.event_id digest middle).0 ≡ ok tt)
        × ((journal_result io finish event raw o).1
            ≡ (complete_result kit finish event.event_id digest middle).1)
  unfolding journal_result ◌>>=◌
  journal_result-ok io finish event raw o h =
      elim (Result-cases (enqueue kit io event (codes "mcp.result") raw o).0) [
        | inl (e, failed) ↦ ground arith
        | inr (_, done) ↦ (ground arith, ground arith)
      ]

  -- When the journal has received an MCP result, the record of its event is done, with the digest of the
  -- result, if the completed record can be read back.
  pub journal_result-IsDone :
      (io : EnqueueFaults) (finish : FinishFaults) (event : SourceEvent) (raw : Bytes) (o : Outbox)
      → let middle = (enqueue kit io event (codes "mcp.result") raw o).1 in
        let name = result_path event.event_id in
        ((r : ResultRecord)
          → read_result_file kit finish.read (middle.files name) ≡ ok r
          → IsDurable kit r)
        → (journal_result io finish event raw o).0 ≡ ok tt
        → IsDone (result_digest_of kit raw) ((journal_result io finish event raw o).1.files name)
  journal_result-IsDone io finish event raw o durable h =
      let middle = (enqueue kit io event (codes "mcp.result") raw o).1 in
      let (completed, after) = journal_result-ok io finish event raw o h in
      subst
        (λ (t : Outbox). IsDone (result_digest_of kit raw) (t.files (result_path event.event_id)))
        (sym after)
        (complete_result-IsDone finish event.event_id (result_digest_of kit raw) middle durable
          completed)
