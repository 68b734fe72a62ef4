-- ===== src/Work/Replay.antt =====
-- A call of `Execute` that returned is answered again from the journal, without an execution.
use tos_ai.Prelude.{
  Bool, List, Result, [], ap, arith, false, inl, inr, ok, refl, subst, sym, true, ℕ, ◌∙◌, ◌∷◌, ◌≡◌,
}
use tos_ai.Prelude.Exec.{call, change, check, lift, modify, pure, raise, ◌>>=◌}
use tos_ai.Prelude.Results.{Result-cases}
use tos_ai.Prelude.Text.{Bytes, is_digest}
use tos_ai.Work.AtMostOnce.{
  open_journal-files, Event, after_event, begins, completes, executes, recall-same, reopened,
  restarts, run_events, stops_at_claim,
}
use tos_ai.Work.Contract.{
  Contract, Outcome, Request, Toolkit, WorkError, request_fingerprint, validate_request,
}
use tos_ai.Work.Journal.{
  ClaimFaults, Codec, CompleteFaults, Journal, JournalRecord, Root, claim, complete, complete_claim,
  completed_record, open_journal, path, read_journal_record, running_record,
}
use tos_ai.Work.Publish.{Services}
use tos_ai.Work.Runner.{
  RunFaults, Worker, begin_request, execute_request, hand_over, in_journal, recall, run_claim,
  settle_claim,
}
use tos_ai.Work.Settled.{
  IsReadable, IsSettled, claim-joined, claim-keeps, claim-settled, complete_claim-IsSettled,
  complete_claim-keeps, read_journal_record-has_file,
}

IsSettled-same :
    (codec : Codec) (id fingerprint : Bytes) (o : Outcome) (j j' : Journal)
    → j'.files (path id) ≡ j.files (path id)
    → IsSettled codec id fingerprint o j
    → IsSettled codec id fingerprint o j'
IsSettled-same codec id fingerprint o j j' same s = record {
  existing = s.existing;
  found = rw same s.found;
  belongs = s.belongs;
  finished = s.finished;
  outcome = s.outcome;
}

module _ (kit : Toolkit) (codec : Codec) where
  module _ (id fingerprint : Bytes) (o : Outcome) where
    abbrev Settled : Journal → Type 0
    Settled j = IsSettled codec id fingerprint o j

    claim-Settled :
        (io : ClaimFaults) (id' fingerprint' : Bytes) (j : Journal)
        → Settled j
        → Settled (claim codec io id' fingerprint' j).1
    claim-Settled io id' fingerprint' j s =
        let (f, present) = read_journal_record-has_file codec _ s.existing s.found in
        IsSettled-same codec id fingerprint o j _
          (claim-keeps codec io id' fingerprint' j (path id) f present ∙ sym present) s

    complete_claim-Settled :
        (io : CompleteFaults) (id' fingerprint' : Bytes) (o' : Outcome) (j : Journal)
        → Settled j
        → Settled (complete_claim codec io id' fingerprint' o' j).1
    complete_claim-Settled io id' fingerprint' o' j s =
        IsSettled-same codec id fingerprint o j _
          (complete_claim-keeps codec io id' fingerprint' o' j (path id) s.existing s.found
            s.finished)
          s

    abbrev Answered : {A : Type 0} → Result WorkError A × Worker → Type 0
    Answered r = Settled (r.1.journal)

    module _ (services : Services) (contract : Contract) (io : RunFaults) (r : Request)
        (now : ℕ) where
      run_claim-Settled :
          (w : Worker)
          → Settled w.journal
          → Settled (run_claim kit codec services contract io r now w).1.journal
      unfolding run_claim in_journal lift pure
      run_claim-Settled w s = change Answered _ _ w (
          call Answered _ _ _ (λ _ _. s)
            λ result _.
              call Answered _ _ _ (λ _ _. s)
                λ outcome _.
                  let kept =
                    complete_claim-Settled io.complete r.execution_id
                      (request_fingerprint kit contract r) outcome w.journal s in
                  call Answered _ _ _ (λ _ _. kept) λ _ _. kept)

      settle_claim-Settled :
          (w : Worker) (granted : Bool) (existing : JournalRecord)
          → Settled w.journal
          → Settled
              (settle_claim kit codec services contract io r now (granted, existing) w).1.journal
      unfolding settle_claim
      settle_claim-Settled w true existing s = run_claim-Settled w s
      settle_claim-Settled w false existing s =
          rw (recall-same kit codec services contract io r now existing w) s

      execute_request-Settled :
          (w : Worker)
          → Settled w.journal
          → Settled (execute_request kit codec services contract io r now w).1.journal
      unfolding execute_request in_journal lift
      execute_request-Settled w s =
          let kept =
            claim-Settled io.claim r.execution_id (request_fingerprint kit contract r) w.journal
              s in
          check Answered _ _ _ w (λ _. s)
            λ _.
              call Answered _ _ w (λ _ _. s)
                λ _ _.
                  call Answered _ _ w (λ _ _. kept)
                    λ answer _. settle_claim-Settled _ answer.0 answer.1 kept

    hand_over-journal :
        (id' : Bytes) (granted : Bool) (existing : JournalRecord) (w : Worker)
        → (hand_over id' (granted, existing) w).1.journal ≡ w.journal
    unfolding hand_over pure modify
    hand_over-journal id' true existing w = refl
    hand_over-journal id' false existing w = refl

    begin_request-Settled :
        (contract : Contract) (nil_argument : Bool) (io : ClaimFaults) (r : Request) (w : Worker)
        → Settled w.journal
        → Settled (begin_request kit codec contract nil_argument io r w).1.journal
    unfolding begin_request in_journal lift
    begin_request-Settled contract nil_argument io r w s =
        let kept =
          claim-Settled io r.execution_id (request_fingerprint kit contract r) w.journal s in
        check Answered _ _ _ w (λ _. s)
          λ _.
            call Answered _ _ w (λ _ _. s)
              λ _ _.
                call Answered _ _ w (λ _ _. kept)
                  λ answer _.
                    subst Settled (sym (hand_over-journal r.execution_id answer.0 answer.1 _)) kept

    reopened-Settled :
        (w : Worker) (root : Root)
        → Settled w.journal
        → Settled (reopened w (open_journal (record root { files = w.journal.files }))).journal
    reopened-Settled w root s =
        let found = record root { files = w.journal.files } in
        elim (Result-cases (open_journal found)) [
          | inl (e, refused) ↦ rw refused (IsSettled-same codec id fingerprint o w.journal _ refl s)
          | inr (j, opened) ↦ rw opened (
              IsSettled-same codec id fingerprint o w.journal j
                (ap (λ files. files (path id)) (open_journal-files found j opened)) s)
        ]

    after_event-Settled :
        (w : Worker) (e : Event) → Settled w.journal → Settled (after_event kit codec w e).journal
    unfolding after_event in_journal
    after_event-Settled w (executes services contract io r now) s =
        execute_request-Settled services contract io r now w s
    after_event-Settled w (begins contract nil_argument io r) s =
        begin_request-Settled contract nil_argument io r w s
    after_event-Settled w (completes io id' fingerprint' o') s =
        complete_claim-Settled io id' fingerprint' o' w.journal s
    after_event-Settled w (stops_at_claim io id' fingerprint') s =
        claim-Settled io id' fingerprint' w.journal s
    after_event-Settled w (restarts root) s = reopened-Settled w root s

    run_events-Settled :
        (w : Worker) (es : List Event)
        → Settled w.journal
        → Settled (run_events kit codec w es).journal
    unfolding run_events
    run_events-Settled w [] s = s
    run_events-Settled w (e ∷ es) s =
        run_events-Settled (after_event kit codec w e) es (after_event-Settled w e s)

  module _ (contract : Contract) (r : Request) (o : Outcome) where
    -- The record of the outcome is read back from its file.
    abbrev pub Fits : Type 0
    Fits =
        let fingerprint = request_fingerprint kit contract r in
        IsReadable codec (completed_record codec (running_record codec fingerprint) fingerprint o)

    abbrev Returned : Result WorkError Outcome × Worker → Type 0
    Returned a =
        a.0 ≡ ok o
        → IsSettled codec r.execution_id (request_fingerprint kit contract r) o a.1.journal

    module _ (fits : Fits) (services : Services) (io : RunFaults) (now : ℕ) where
      run_claim-Returned :
          (w : Worker) → Returned (run_claim kit codec services contract io r now w)
      unfolding run_claim in_journal lift pure
      run_claim-Returned w =
          let fingerprint = request_fingerprint kit contract r in
          change Returned _ _ w (
            call Returned _ _ _ (λ _ _ h. cc)
              λ result _.
                call Returned _ _ _ (λ _ _ h. cc)
                  λ outcome _.
                    call Returned _ _ _ (λ _ _ h. cc)
                      λ _ done same.
                        let e : outcome ≡ o = ground arith in
                        subst
                          (λ x.
                            IsSettled codec r.execution_id fingerprint x
                              (complete_claim codec io.complete r.execution_id fingerprint outcome
                                w.journal).1)
                          e
                          (complete_claim-IsSettled codec io.complete r.execution_id fingerprint
                            outcome w.journal
                            (subst
                              (λ x. IsReadable codec (
                                completed_record codec (running_record codec fingerprint)
                                  fingerprint x))
                              (sym e) fits)
                            done))

      recall-parts :
          (existing : JournalRecord) (w : Worker)
          → (recall kit codec services contract existing w).0 ≡ ok o
          → (existing.state ≡ complete) × (existing.outcome ≡ o)
      unfolding recall pure raise
      recall-parts existing w h = ground arith

      settle_claim-Returned :
          (w : Worker) (granted : Bool) (existing : JournalRecord)
          → (granted ≡ false
              → (read_journal_record codec false (w.journal.files (path r.execution_id))
                  ≡ ok existing)
                × (existing.fingerprint ≡ request_fingerprint kit contract r))
          → Returned (settle_claim kit codec services contract io r now (granted, existing) w)
      unfolding settle_claim
      settle_claim-Returned w true existing from = run_claim-Returned w
      settle_claim-Returned w false existing from = λ h.
          let (finished, same) = recall-parts existing w h in
          let (found, belongs) = from refl in
          rw (recall-same kit codec services contract io r now existing w) (record {
            existing = existing;
            found = found;
            belongs = belongs;
            finished = finished;
            outcome = same;
          })

      execute_request-Returned :
          (w : Worker) → Returned (execute_request kit codec services contract io r now w)
      unfolding execute_request in_journal lift
      execute_request-Returned w =
          let fingerprint = request_fingerprint kit contract r in
          check Returned _ _ _ w (λ _ h. cc)
            λ _.
              call Returned _ _ w (λ _ _ h. cc)
                λ _ _.
                  call Returned _ _ w (λ _ _ h. cc)
                    λ answer h. settle_claim-Returned _ answer.0 answer.1 λ joined.
                      claim-joined codec io.claim r.execution_id fingerprint w.journal answer.1 (
                        subst
                          (λ b.
                            (claim codec io.claim r.execution_id fingerprint w.journal).0
                            ≡ ok (b, answer.1))
                          joined h)

    valid-identity : validate_request kit contract r ≡ ok tt → is_digest r.execution_id ≡ true
    unfolding validate_request
    valid-identity h = ground arith

    module _ (services : Services) (io : RunFaults) (now : ℕ) where
      execute_request-valid :
          (w : Worker)
          → (execute_request kit codec services contract io r now w).0 ≡ ok o
          → validate_request kit contract r ≡ ok tt
      unfolding execute_request lift
      execute_request-valid w =
          let Q : Result WorkError Outcome × Worker → Type 0 =
            λ a. a.0 ≡ ok o → validate_request kit contract r ≡ ok tt in
          check Q _ _ _ w (λ _ h. cc) λ _. call Q _ _ w (λ _ _ h. cc) λ _ valid _. valid

      -- The answer from the journal.
      execute_request-answers :
          (w : Worker)
          → IsSettled codec r.execution_id (request_fingerprint kit contract r) o w.journal
          → validate_request kit contract r ≡ ok tt
          → w.journal.has_lock ≡ true
          → io.nil_argument ≡ false
          → io.claim.create ≡ false
          → io.claim.read ≡ false
          → execute_request kit codec services contract io r now w ≡ (ok o, w)
      unfolding execute_request in_journal settle_claim recall pure lift ◌>>=◌
      execute_request-answers w s valid locked no_nil no_create no_read =
          let answer =
            claim-settled codec io.claim r.execution_id (request_fingerprint kit contract r) o
              w.journal s locked no_create no_read (valid-identity valid) in
          rw (no_nil, valid, answer, s.finished, s.outcome) refl

    -- Once `Execute` has returned an outcome, whatever calls, overlapping or not, failures and restarts follow: a later call
    -- of the same request, if the journal is open and answers, returns that outcome and changes nothing,
    -- so nothing is executed. The record of the outcome is to be read back as it was encoded, and to have at
    -- most 32768 bytes.
    pub execute_request-replay :
        Fits
        → (services services' : Services) (io io' : RunFaults) (now now' : ℕ) (w : Worker)
          (es : List Event)
        → (execute_request kit codec services contract io r now w).0 ≡ ok o
        → let later =
            run_events kit codec (execute_request kit codec services contract io r now w).1 es in
          later.journal.has_lock ≡ true
          → io'.nil_argument ≡ false
          → io'.claim.create ≡ false
          → io'.claim.read ≡ false
          → execute_request kit codec services' contract io' r now' later ≡ (ok o, later)
    execute_request-replay fits services services' io io' now now' w es h =
        let returned = execute_request-Returned fits services io now w h in
        let settled =
          run_events-Settled r.execution_id (request_fingerprint kit contract r) o _ es returned in
        execute_request-answers services' io' now' _ settled
          (execute_request-valid services io now w h)
