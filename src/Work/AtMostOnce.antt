-- ===== src/Work/AtMostOnce.antt =====
-- No execution identity is executed twice: histories of the worker, with failing system calls and
-- services, crashes and restarts.
use tos_ai.Prelude.{
  Bool, List, Result, [], ap, arith, err, false, inl, inr, ok, refl, subst, sym, true, ℕ, ◌∷◌, ◌≡◌,
  ◌≢◌, ◌⊎◌,
}
use tos_ai.Prelude.Exec.{call, change, check, lift, modify, pure, raise}
use tos_ai.Prelude.Results.{Result-cases}
use tos_ai.Prelude.Text.{Bytes}
use tos_ai.Work.Claims.{claim-granted, claim-has_file, complete_claim-has_file, has_file, is_some}
use tos_ai.Work.Contract.{Contract, Outcome, Request, Toolkit, WorkError, request_fingerprint}
use tos_ai.Work.Journal.{
  ClaimFaults, Codec, CompleteFaults, Journal, JournalRecord, Root, claim, complete_claim,
  open_journal, path,
}
use tos_ai.Work.Publish.{Services}
use tos_ai.Work.Runner.{
  RunFaults, Worker, begin_request, execute_request, hand_over, in_journal, log_execution, recall,
  run_claim, settle_claim,
}

-- What may happen next: a call of `Execute` as a whole; one up to the executor's start, and the completion of
-- one with any outcome, between which other calls may come; a process that ends behind its claim; or a restart
-- that opens the journal's root again.
pub data Event : Type 0 where
  executes : Services → Contract → RunFaults → Request → ℕ → Event
  begins : Contract → Bool → ClaimFaults → Request → Event
  completes : CompleteFaults → Bytes → Bytes → Outcome → Event
  stops_at_claim : ClaimFaults → Bytes → Bytes → Event
  restarts : Root → Event

-- The files stay where they are, whatever the root is found to be.
abbrev pub reopened : Worker → Result WorkError Journal → Worker
reopened w (ok j) = record w { journal = j }
reopened w (err e) = record w { journal = record (w.journal) { has_lock = false } }

module _ (kit : Toolkit) (codec : Codec) where
  unfoldable pub after_event : Worker → Event → Worker
  after_event w (executes services contract io r now) =
      (execute_request kit codec services contract io r now w).1
  after_event w (begins contract nil_argument io r) =
      (begin_request kit codec contract nil_argument io r w).1
  after_event w (completes io id fingerprint outcome) =
      (in_journal (complete_claim codec io id fingerprint outcome) w).1
  after_event w (stops_at_claim io id fingerprint) =
      (in_journal (claim codec io id fingerprint) w).1
  after_event w (restarts root) =
      reopened w (open_journal (record root { files = w.journal.files }))

  unfoldable pub run_events : Worker → List Event → Worker
  run_events w [] = w
  run_events w (e ∷ es) = run_events (after_event w e) es

-- `x` is none of the texts.
abbrev pub IsAbsent : Bytes → List Bytes → Type 0
IsAbsent x [] = Unit {0}
IsAbsent x (y ∷ ys) = (x ≢ y) × IsAbsent x ys

abbrev pub AreDistinct : List Bytes → Type 0
AreDistinct [] = Unit {0}
AreDistinct (x ∷ xs) = IsAbsent x xs × AreDistinct xs

abbrev pub AreClaimed : Journal → List Bytes → Type 0
AreClaimed j [] = Unit {0}
AreClaimed j (x ∷ xs) = (has_file j (path x) ≡ true) × AreClaimed j xs

-- Every execution left a file, and none came twice.
pub record IsOnce (w : Worker) : Type 0 where
  pub claimed : AreClaimed w.journal w.executed
  pub distinct : AreDistinct w.executed

-- What one event may do: files stay, and an execution is one that had no file and has one.
record IsStep (w w' : Worker) : Type 0 where
  files : (name : Bytes) → has_file w.journal name ≡ true → has_file w'.journal name ≡ true
  log :
      (w'.executed ≡ w.executed)
      ⊎ ((id : Bytes) × (w'.executed ≡ id ∷ w.executed)
          × (has_file w.journal (path id) ≡ false)
          × (has_file w'.journal (path id) ≡ true))

abbrev Stepped : {A : Type 0} → Worker → Result WorkError A × Worker → Type 0
Stepped w r = IsStep w r.1

AreClaimed-grows :
    (j j' : Journal) (ids : List Bytes)
    → ((name : Bytes) → has_file j name ≡ true → has_file j' name ≡ true)
    → AreClaimed j ids
    → AreClaimed j' ids
AreClaimed-grows j j' [] grows h = tt
AreClaimed-grows j j' (x ∷ xs) grows (h, hs) = (grows (path x) h, AreClaimed-grows j j' xs grows hs)

unclaimed-IsAbsent :
    (j : Journal) (id : Bytes) (ids : List Bytes)
    → has_file j (path id) ≡ false
    → AreClaimed j ids
    → IsAbsent id ids
unclaimed-IsAbsent j id [] h hs = tt
unclaimed-IsAbsent j id (x ∷ xs) h (there, hs) = (
  λ same.
      let absent : has_file j (path x) ≡ false = subst (λ y. has_file j (path y) ≡ false) same h in
      ground arith,
  unclaimed-IsAbsent j id xs h hs,
)

IsStep-IsOnce : (w w' : Worker) → IsStep w w' → IsOnce w → IsOnce w'
IsStep-IsOnce w w' step once =
    let kept = AreClaimed-grows w.journal w'.journal w.executed step.files once.claimed in
    elim step.log [
      | inl same ↦ record { claimed = rw same kept; distinct = rw same once.distinct }
      | inr (id, e, fresh, there) ↦ record {
        claimed = rw e (there, kept);
        distinct =
            rw e (unclaimed-IsAbsent w.journal id w.executed fresh once.claimed, once.distinct);
      }
    ]

idle-IsStep : (w : Worker) → IsStep w w
idle-IsStep w = record { files = λ name h. h; log = inl refl }

module _ (kit : Toolkit) (codec : Codec) (services : Services) (contract : Contract)
    (io : RunFaults) (r : Request) (now : ℕ) where
  -- The run of a granted claim, from the worker `w` before the claim.
  run_claim-IsStep :
      (w v : Worker)
      → ((name : Bytes) → has_file w.journal name ≡ true → has_file v.journal name ≡ true)
      → (v.executed ≡ w.executed)
      → (has_file w.journal (path r.execution_id) ≡ false)
      → (has_file v.journal (path r.execution_id) ≡ true)
      → IsStep w (run_claim kit codec services contract io r now v).1
  unfolding run_claim in_journal lift pure
  run_claim-IsStep w v grows same fresh there =
      let ended : (u : Worker)
          → (u.executed ≡ r.execution_id ∷ v.executed)
          → ((name : Bytes) → has_file v.journal name ≡ true → has_file u.journal name ≡ true)
          → IsStep w u =
        λ u e more. record {
          files = λ name h. more name (grows name h);
          log = inr (r.execution_id, rw e (ap (◌∷◌ r.execution_id) same), fresh, more _ there);
        } in
      let unchanged = ended (log_execution r.execution_id v) refl (λ name h. h) in
      change (Stepped w) _ _ v (
        call (Stepped w) _ _ _ (λ _ _. unchanged)
          λ result _.
            call (Stepped w) _ _ _ (λ _ _. unchanged)
              λ outcome _.
                let finished = ended _ refl (λ name.
                  complete_claim-has_file codec io.complete r.execution_id
                    (request_fingerprint kit contract r) outcome v.journal name) in
                call (Stepped w) _ _ _ (λ _ _. finished) λ _ _. finished)

  pub recall-same :
      (existing : JournalRecord) (v : Worker)
      → (recall kit codec services contract existing v).1 ≡ v
  unfolding recall pure raise
  recall-same existing v = ground arith

  settle_claim-IsStep :
      (w v : Worker) (granted : Bool) (existing : JournalRecord)
      → ((name : Bytes) → has_file w.journal name ≡ true → has_file v.journal name ≡ true)
      → (v.executed ≡ w.executed)
      → (granted ≡ true
          → (has_file w.journal (path r.execution_id) ≡ false)
            × (has_file v.journal (path r.execution_id) ≡ true))
      → IsStep w (settle_claim kit codec services contract io r now (granted, existing) v).1
  unfolding settle_claim
  settle_claim-IsStep w v true existing grows same new =
      run_claim-IsStep w v grows same (new refl).0 (new refl).1
  settle_claim-IsStep w v false existing grows same new =
      rw (recall-same existing v) (record { files = grows; log = inl same })

  execute_request-IsStep :
      (w : Worker) → IsStep w (execute_request kit codec services contract io r now w).1
  unfolding execute_request in_journal lift
  execute_request-IsStep w =
      let fingerprint = request_fingerprint kit contract r in
      let grows = claim-has_file codec io.claim r.execution_id fingerprint w.journal in
      check (Stepped w) _ _ _ w (λ _. idle-IsStep w)
        λ _.
          call (Stepped w) _ _ w (λ _ _. idle-IsStep w)
            λ _ _.
              call (Stepped w) _ _ w (λ _ _. record { files = grows; log = inl refl })
                λ answer h. settle_claim-IsStep w _ answer.0 answer.1 grows refl λ granted.
                  claim-granted codec io.claim r.execution_id fingerprint w.journal answer.1 (
                    subst
                      (λ b.
                        (claim codec io.claim r.execution_id fingerprint w.journal).0
                        ≡ ok (b, answer.1))
                      granted h)

hand_over-IsStep :
    (w v : Worker) (id : Bytes) (granted : Bool) (existing : JournalRecord)
    → ((name : Bytes) → has_file w.journal name ≡ true → has_file v.journal name ≡ true)
    → (v.executed ≡ w.executed)
    → (granted ≡ true
        → (has_file w.journal (path id) ≡ false) × (has_file v.journal (path id) ≡ true))
    → IsStep w (hand_over id (granted, existing) v).1
unfolding hand_over pure modify
hand_over-IsStep w v id true existing grows same new = record {
  files = grows;
  log = inr (id, ap (◌∷◌ id) same, (new refl).0, (new refl).1);
}
hand_over-IsStep w v id false existing grows same new = record { files = grows; log = inl same }

begin_request-IsStep :
    (kit : Toolkit) (codec : Codec) (contract : Contract) (nil_argument : Bool) (io : ClaimFaults)
    (r : Request) (w : Worker)
    → IsStep w (begin_request kit codec contract nil_argument io r w).1
unfolding begin_request in_journal lift
begin_request-IsStep kit codec contract nil_argument io r w =
    let fingerprint = request_fingerprint kit contract r in
    let grows = claim-has_file codec io r.execution_id fingerprint w.journal in
    check (Stepped w) _ _ _ w (λ _. idle-IsStep w)
      λ _.
        call (Stepped w) _ _ w (λ _ _. idle-IsStep w)
          λ _ _.
            call (Stepped w) _ _ w (λ _ _. record { files = grows; log = inl refl })
              λ answer h.
                hand_over-IsStep w _ r.execution_id answer.0 answer.1 grows refl λ granted.
                  claim-granted codec io r.execution_id fingerprint w.journal answer.1 (
                    subst
                      (λ b.
                        (claim codec io r.execution_id fingerprint w.journal).0 ≡ ok (b, answer.1))
                      granted h)

pub open_journal-files :
    (root : Root) (j : Journal) → open_journal root ≡ ok j → j.files ≡ root.files
unfolding open_journal
open_journal-files root j h = ground arith

open_journal-IsStep :
    (w : Worker) (root : Root)
    → IsStep w (reopened w (open_journal (record root { files = w.journal.files })))
open_journal-IsStep w root =
    let found = record root { files = w.journal.files } in
    elim (Result-cases (open_journal found)) [
      | inl (e, refused) ↦ rw refused (record { files = λ name h. h; log = inl refl })
      | inr (j, opened) ↦ rw opened (record {
        files = λ name h.
            subst (λ files. is_some (files name) ≡ true) (sym (open_journal-files found j opened))
              h;
        log = inl refl;
      })
    ]

module _ (kit : Toolkit) (codec : Codec) where
  after_event-IsStep : (w : Worker) (e : Event) → IsStep w (after_event kit codec w e)
  unfolding after_event in_journal
  after_event-IsStep w (executes services contract io r now) =
      execute_request-IsStep kit codec services contract io r now w
  after_event-IsStep w (begins contract nil_argument io r) =
      begin_request-IsStep kit codec contract nil_argument io r w
  after_event-IsStep w (completes io id fingerprint outcome) = record {
    files = λ name. complete_claim-has_file codec io id fingerprint outcome w.journal name;
    log = inl refl;
  }
  after_event-IsStep w (stops_at_claim io id fingerprint) = record {
    files = claim-has_file codec io id fingerprint w.journal;
    log = inl refl;
  }
  after_event-IsStep w (restarts root) = open_journal-IsStep w root

  run_events-IsOnce : (w : Worker) (es : List Event) → IsOnce w → IsOnce (run_events kit codec w es)
  unfolding run_events
  run_events-IsOnce w [] h = h
  run_events-IsOnce w (e ∷ es) h =
      run_events-IsOnce (after_event kit codec w e) es
        (IsStep-IsOnce w _ (after_event-IsStep w e) h)

  -- From a worker that has executed nothing, with any files in its journal, no history of calls that may
  -- overlap, failures, crashes and restarts gives the executor one identity twice.
  pub run_events-AreDistinct :
      (j : Journal) (es : List Event)
      → AreDistinct (run_events kit codec (record { journal = j; executed = [] }) es).executed
  run_events-AreDistinct j es =
      (run_events-IsOnce _ es (record { claimed = tt; distinct = tt })).distinct
