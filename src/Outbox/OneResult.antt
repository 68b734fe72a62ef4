-- ===== src/Outbox/OneResult.antt =====
-- An event names one result for its lifetime.
use tos_ai.Outbox.{
  EnqueueFaults, FinishFaults, Outbox, OutboxKit, ResultFile, ResultRecord, SourceEvent,
  close_outbox, compare_result, complete_result, done_record, enqueue, finish_of, is_event_id,
  is_result_done, pending_record, place_result, read_result_file, replace_result, result_file,
  result_path, retract_if, same_result, set_result_file, with_newline, write_result,
}
use tos_ai.Prelude.{
  Bool, Bool-cases, List, Option, Option-cases, [], ap, arith, false, inl, inr, none, not, ok, refl,
  some, subst, true, ◌||◌, ◌∙◌, ◌∷◌, ◌≡◌, ◌⊎◌,
}
use tos_ai.Prelude.Exec.{◌>>=◌}
use tos_ai.Prelude.Results.{Result-cases}
use tos_ai.Prelude.Text.{Bytes, bytes_eq, bytes_eq→eq, is_digest}

pub data OutboxCall : Type 0 where
  enqueues : EnqueueFaults → SourceEvent → Bytes → Bytes → OutboxCall
  completes : FinishFaults → Bytes → Bytes → OutboxCall
  closes : OutboxCall

module _ (kit : OutboxKit) where
  pub after_call : Outbox → OutboxCall → Outbox
  after_call o (enqueues io event kind value) = (enqueue kit io event kind value o).1
  after_call o (completes io event_id digest) = (complete_result kit io event_id digest o).1
  after_call o closes = close_outbox o

  pub run_calls : Outbox → List OutboxCall → Outbox
  run_calls o [] = o
  run_calls o (c ∷ cs) = run_calls (after_call o c) cs

  -- The file of a name holds the result, pending or done.
  pub data IsHeld (name : Bytes) (r : ResultRecord) (o : Outbox) : Type 0 where
    held_as_it_is : read_result_file kit false (o.files name) ≡ ok r → IsHeld name r o
    held_as_done :
        read_result_file kit false (o.files name) ≡ ok (done_record kit r) → IsHeld name r o

  -- Both records of a result are read back from their files.
  pub record IsDurable (r : ResultRecord) : Type 0 where
    pub done :
        read_result_file kit false (result_file (with_newline kit (kit.encode (done_record kit r))))
        ≡ ok (done_record kit r)

  read_result_file-fault :
      (fault : Bool) (file : Option ResultFile) (r s : ResultRecord)
      → read_result_file kit false file ≡ ok r
      → read_result_file kit fault file ≡ ok s
      → s ≡ r
  unfolding read_result_file
  read_result_file-fault true none r s h k = cc
  read_result_file-fault false none r s h k = cc
  read_result_file-fault false (some f) r s h k = ground arith
  read_result_file-fault true (some f) r s h k = ground arith

  read_result_file-some :
      (file : Option ResultFile) (r : ResultRecord)
      → read_result_file kit false file ≡ ok r
      → (f : ResultFile) × (file ≡ some f)
  unfolding read_result_file
  read_result_file-some none r h = cc
  read_result_file-some (some f) r h = (f, refl)

  write_result-other :
      (io : EnqueueFaults) (own : Bytes) (r : ResultRecord) (o : Outbox) (name : Bytes)
      → bytes_eq name own ≡ false
      → (write_result kit io own r o).1.files name ≡ o.files name
  unfolding write_result retract_if ◌>>=◌
  write_result-other io own r o name h = ground arith

  place_result-keeps :
      (io : EnqueueFaults) (own : Bytes) (r : ResultRecord) (o : Outbox) (name : Bytes)
      (f : ResultFile)
      → o.files name ≡ some f
      → (place_result kit io own r (o.files own) o).1.files name ≡ o.files name
  unfolding place_result compare_result ◌>>=◌
  place_result-keeps io own r o name f h = elim (Option-cases (o.files own)) [
    | inr (g, present) ↦ rw present (ground arith)
    | inl absent ↦ elim (Bool-cases (bytes_eq name own)) [
      | inl same ↦
          let there : o.files own ≡ some f =
            subst (λ n. o.files n ≡ some f) (bytes_eq→eq name own same) h in
          ground arith
      | inr differs ↦ rw absent (write_result-other io own r o name differs)
    ]
  ]

  -- `enqueue` changes no file that is there.
  pub enqueue-keeps :
      (io : EnqueueFaults) (event : SourceEvent) (kind value : Bytes) (o : Outbox) (name : Bytes)
      (f : ResultFile)
      → o.files name ≡ some f
      → (enqueue kit io event kind value o).1.files name ≡ o.files name
  unfolding enqueue ◌>>=◌
  enqueue-keeps io event kind value o name f h = ground (
    arith,
    place_result-keeps io (result_path event.event_id) (pending_record kit event kind value) o name
        f,
  )

  -- What `Complete` may do to the files.
  complete_result-cases :
      (io : FinishFaults) (event_id digest : Bytes) (o : Outbox)
      → let after = (complete_result kit io event_id digest o).1 in
        let file = o.files (result_path event_id) in
        (after.files ≡ o.files)
        ⊎ ((r : ResultRecord) × (read_result_file kit io.read file ≡ ok r)
            × (after.files
                ≡ (set_result_file
                    (result_path event_id)
                    (result_file (with_newline kit (kit.encode (done_record kit r))))
                    o).files))
  unfolding complete_result finish_of replace_result ◌>>=◌
  complete_result-cases io event_id digest o =
      elim (Result-cases (read_result_file kit io.read (o.files (result_path event_id)))) [
        | inl (e, refused) ↦ inl (ground arith)
        | inr (r, found) ↦
            elim (Bool-cases (
              not (is_event_id event_id)
              || not (is_digest digest)
              || not o.has_lock
              || not (bytes_eq r.result_digest digest)
              || is_result_done r.state
              || io.create
              || io.chmod
              || io.write
              || io.rename)) [
                | inl stopped ↦ inl (ground arith)
                | inr through ↦ inr (r, found, ground arith)
              ]
      ]

  module _ (name : Bytes) (r : ResultRecord) (durable : IsDurable r) where
    held_reads :
        (o : Outbox)
        → IsHeld name r o
        → (s : ResultRecord) × (read_result_file kit false (o.files name) ≡ ok s)
          × (done_record kit s ≡ done_record kit r)
    held_reads o (held_as_it_is h) = (r, h, refl)
    held_reads o (held_as_done h) = (done_record kit r, h, refl)

    IsHeld-same :
        (o o' : Outbox) → o'.files name ≡ o.files name → IsHeld name r o → IsHeld name r o'
    IsHeld-same o o' same (held_as_it_is h) = held_as_it_is (rw same h)
    IsHeld-same o o' same (held_as_done h) = held_as_done (rw same h)

    enqueue-IsHeld :
        (io : EnqueueFaults) (event : SourceEvent) (kind value : Bytes) (o : Outbox)
        → IsHeld name r o
        → IsHeld name r (enqueue kit io event kind value o).1
    enqueue-IsHeld io event kind value o h =
        let (s, found, _) = held_reads o h in
        let (f, there) = read_result_file-some _ s found in
        IsHeld-same o _ (enqueue-keeps io event kind value o name f there) h

    complete_result-IsHeld :
        (io : FinishFaults) (event_id digest : Bytes) (o : Outbox)
        → IsHeld name r o
        → IsHeld name r (complete_result kit io event_id digest o).1
    complete_result-IsHeld io event_id digest o h =
        elim (complete_result-cases io event_id digest o) [
          | inl same ↦ IsHeld-same o _ (ap (λ files. files name) same) h
          | inr (q, found, changed) ↦ elim (Bool-cases (bytes_eq name (result_path event_id))) [
            | inr other ↦ IsHeld-same o _ (ap (λ files. files name) changed ∙ rw other refl) h
            | inl own ↦
                let e = bytes_eq→eq name (result_path event_id) own in
                let (s, reads, same) = held_reads o h in
                let here : read_result_file kit false (o.files (result_path event_id)) ≡ ok s =
                  subst (λ n. read_result_file kit false (o.files n) ≡ ok s) e reads in
                let one : q ≡ s = read_result_file-fault io.read _ s q here found in
                let written : done_record kit q ≡ done_record kit r =
                  ap (λ (t : ResultRecord). done_record kit t) one ∙ same in
                held_as_done (rw (changed, own, written) durable.done)
          ]
        ]

    after_call-IsHeld :
        (o : Outbox) (c : OutboxCall) → IsHeld name r o → IsHeld name r (after_call o c)
    unfolding after_call close_outbox
    after_call-IsHeld o (enqueues io event kind value) h = enqueue-IsHeld io event kind value o h
    after_call-IsHeld o (completes io event_id digest) h =
        complete_result-IsHeld io event_id digest o h
    after_call-IsHeld o closes h = IsHeld-same o _ refl h

    run_calls-IsHeld :
        (o : Outbox) (cs : List OutboxCall) → IsHeld name r o → IsHeld name r (run_calls o cs)
    unfolding run_calls
    run_calls-IsHeld o [] h = h
    run_calls-IsHeld o (c ∷ cs) h = run_calls-IsHeld (after_call o c) cs (after_call-IsHeld o c h)

  compare_result-ok :
      (fault : Bool) (r : ResultRecord) (file : Option ResultFile) (o : Outbox)
      → (compare_result kit fault r file o).0 ≡ ok tt
      → (s : ResultRecord) × (read_result_file kit fault file ≡ ok s) × (same_result s r ≡ true)
  unfolding compare_result ◌>>=◌
  compare_result-ok fault r file o h = elim (Result-cases (read_result_file kit fault file)) [
    | inl (e, refused) ↦ ground arith
    | inr (s, found) ↦ (s, found, ground arith)
  ]

  enqueue-places :
      (io : EnqueueFaults) (event : SourceEvent) (kind value : Bytes) (o : Outbox)
      → (enqueue kit io event kind value o).0 ≡ ok tt
      → (place_result kit io
          (result_path event.event_id)
          (pending_record kit event kind value)
          (o.files (result_path event.event_id))
          o).0
        ≡ ok tt
  unfolding enqueue ◌>>=◌
  enqueue-places io event kind value o h = ground arith

  enqueue-matches :
      (io : EnqueueFaults) (event : SourceEvent) (kind value : Bytes) (o : Outbox)
      (s : ResultRecord)
      → read_result_file kit false (o.files (result_path event.event_id)) ≡ ok s
      → (enqueue kit io event kind value o).0 ≡ ok tt
      → same_result s (pending_record kit event kind value) ≡ true
  unfolding place_result
  enqueue-matches io event kind value o s reads h =
      let new = pending_record kit event kind value in
      let (f, there) = read_result_file-some _ s reads in
      let compared : (compare_result kit io.read new (some f) o).0 ≡ ok tt =
        subst (λ file. (place_result kit io (result_path event.event_id) new file o).0 ≡ ok tt)
          there (enqueue-places io event kind value o h) in
      let (q, found, same) = compare_result-ok io.read new (some f) o compared in
      let here : read_result_file kit false (some f) ≡ ok s =
        subst (λ file. read_result_file kit false file ≡ ok s) there reads in
      subst (λ t. same_result t new ≡ true) (read_result_file-fault io.read (some f) s q here found)
        same

  held-matches :
      (r new : ResultRecord) (name : Bytes) (o : Outbox)
      → IsHeld name r o
      → ((s : ResultRecord)
          → read_result_file kit false (o.files name) ≡ ok s
          → same_result s new ≡ true)
      → same_result r new ≡ true
  unfolding same_result
  held-matches r new name o (held_as_it_is h) matches = matches r h
  held-matches r new name o (held_as_done h) matches = matches (done_record kit r) h

  -- Once the outbox holds a result of an event, whatever calls and failures follow, it holds that result,
  -- pending or done; and a later `enqueue` for the event returns without an error only for the same result.
  -- The completed record is to be read back from its file.
  pub run_calls-one_result :
      (r : ResultRecord) (o : Outbox) (cs : List OutboxCall) (io : EnqueueFaults)
      (event : SourceEvent) (kind value : Bytes)
      → IsDurable r
      → IsHeld (result_path event.event_id) r o
      → let later = run_calls o cs in
        IsHeld (result_path event.event_id) r later
        × ((enqueue kit io event kind value later).0 ≡ ok tt
            → same_result r (pending_record kit event kind value) ≡ true)
  run_calls-one_result r o cs io event kind value durable h =
      let held = run_calls-IsHeld (result_path event.event_id) r durable o cs h in
      let new = pending_record kit event kind value in
      (
        held,
        λ accepted.
            held-matches r new (result_path event.event_id) _ held
              λ s reads. enqueue-matches io event kind value _ s reads accepted,
      )
