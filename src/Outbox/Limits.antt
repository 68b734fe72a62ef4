-- ===== src/Outbox/Limits.antt =====
-- What a later read makes of a record that `enqueue` has accepted.
use tos_ai.Outbox.{
  EnqueueFaults, Outbox, OutboxKit, ResultRecord, SourceEvent, enqueue, invalid_entry_for,
  invalid_result_record, max_result_record_bytes, pending_record, place_result, read_result_file,
  result_digest_of, result_file, result_path, result_record_schema, retract_if, valid_result_record,
  with_newline, write_result,
}
use tos_ai.Prelude.{
  [], arith, err, false, if◌then◌else◌, leb, length, length-append, none, ok, some, true, ◌∷◌, ◌≡◌,
}
use tos_ai.Prelude.Exec.{◌>>=◌}
use tos_ai.Prelude.Text.{Bytes, bytes_eq_self, is_digest}

module _ (kit : OutboxKit) where
  pending-valid :
      (event : SourceEvent) (kind value : Bytes)
      → invalid_entry_for kit event kind value ≡ false
      → is_digest (result_digest_of kit value) ≡ true
      → valid_result_record kit (pending_record kit event kind value) ≡ true
  unfolding invalid_entry_for valid_result_record
  pending-valid event kind value h digest =
      ground (arith, bytes_eq_self result_record_schema, bytes_eq_self (result_digest_of kit value))

  write_result-writes :
      (io : EnqueueFaults) (name : Bytes) (r : ResultRecord) (o : Outbox)
      → (write_result kit io name r o).0 ≡ ok tt
      → (write_result kit io name r o).1.files name ≡ result_file (with_newline kit (kit.encode r))
  unfolding write_result retract_if ◌>>=◌
  write_result-writes io name r o h = ground (arith, bytes_eq_self name)

  enqueue-writes :
      (io : EnqueueFaults) (event : SourceEvent) (kind value : Bytes) (o : Outbox)
      → o.files (result_path event.event_id) ≡ none
      → (enqueue kit io event kind value o).0 ≡ ok tt
      → (invalid_entry_for kit event kind value ≡ false)
        × ((enqueue kit io event kind value o).1.files (result_path event.event_id)
            ≡ result_file (with_newline kit (kit.encode (pending_record kit event kind value))))
  unfolding enqueue place_result ◌>>=◌
  enqueue-writes io event kind value o absent h = ground (
    arith,
    absent,
    write_result-writes io (result_path event.event_id) (pending_record kit event kind value) o,
  )

  -- After `enqueue` has accepted the first result of an event, its record is read back if its encoding is
  -- shorter than the bound on records, and refused if it has exactly that length: `enqueue` admits it, and
  -- the newline behind it makes the file too long. JSON decodes what it encoded, and a digest has 64
  -- hexadecimal digits.
  pub enqueue-read_result_file :
      (io : EnqueueFaults) (event : SourceEvent) (kind value : Bytes) (o : Outbox)
      → let r = pending_record kit event kind value in
        kit.decode (with_newline kit (kit.encode r)) ≡ some r
        → is_digest (result_digest_of kit value) ≡ true
        → o.files (result_path event.event_id) ≡ none
        → (enqueue kit io event kind value o).0 ≡ ok tt
        → read_result_file kit false
            ((enqueue kit io event kind value o).1.files (result_path event.event_id))
          ≡ (if leb (max_result_record_bytes kit) (length (kit.encode r))
              then err invalid_result_record
              else ok r)
  unfolding read_result_file
  enqueue-read_result_file io event kind value o law digest absent h =
      let (valid, there) = enqueue-writes io event kind value o absent h in
      let r = pending_record kit event kind value in
      rw (there, law, pending-valid event kind value valid digest)
        (ground (arith, length-append (kit.encode r) (b'\n' ∷ [])))
