-- ===== src/Commerce/Lifecycle.antt =====
-- From `Prepare` to `Start`: what was prepared can be started, and can be asked for again.
use tos_ai.Commerce.Admission.{
  InputFile, Launch, PrepareWorld, StartWorld, admit_preparation, admit_start, launch_of,
  open_bound_files, prepared_record, ticket_from,
}
use tos_ai.Commerce.Plan.{
  AuthorizedAction, Plan, PlanKit, Ticket, WriterFence, before_unix, stat_record,
}
use tos_ai.Commerce.Preparing.{authorized, prepare_plan, start_material}
use tos_ai.Commerce.Records.{
  CreateFaults, Gate, GateRecord, RecordCodec, ReplaceFaults, create_record, no_read_faults,
  private_file, read_record, record_name, replace_record, state_prepared,
}
use tos_ai.Commerce.Starting.{create_execution, prepare, settle_preparation, start}
use tos_ai.Prelude.{
  ==_self, Bool-cases, List, ap, arith, err, false, inl, inr, length, none, ok, refl, some, subst,
  sym, true, ◌==◌, ◌∙◌, ◌≡◌,
}
use tos_ai.Prelude.Exec.{raise, ◌>>=◌}
use tos_ai.Prelude.Int.{ℤ}
use tos_ai.Prelude.Results.{Result-cases, eq_of_ok}
use tos_ai.Prelude.Text.{Bytes, bytes_eq, bytes_eq_self, codes}

abbrev pub no_replace_faults : ReplaceFaults
no_replace_faults = record {
  create = false;
  chmod = false;
  write = false;
  sync = false;
  close = false;
  rename = false;
  sync_directory = false;
}

module _ (kit : PlanKit) (codec : RecordCodec) where
  create_record-ok :
      (io : CreateFaults) (own : Bytes) (r : GateRecord) (g : Gate)
      → (create_record codec io own r g).0 ≡ ok tt
      → (create_record codec io own r g).1.files own ≡ private_file (codec.encode r)
  unfolding create_record ◌>>=◌
  create_record-ok io own r g h = ground (arith, bytes_eq_self own)

  create_execution-ok :
      (world : PrepareWorld) (lifetime : ℤ) (fence : WriterFence) (action : AuthorizedAction)
      (p : Plan) (digest secret : Bytes) (g : Gate) (ticket : Ticket)
      → let r = prepared_record world.now lifetime fence action secret p digest in
        let after = create_execution codec world lifetime fence action p digest g in
        world.secret ≡ some secret
        → after.0 ≡ ok ticket
        → (ticket ≡ ticket_from r)
          × (after.1.files (record_name p.execution_id) ≡ private_file (codec.encode r))
  unfolding create_execution ◌>>=◌
  create_execution-ok world lifetime fence action p digest secret g ticket drawn h =
      let r = prepared_record world.now lifetime fence action secret p digest in
      elim (Result-cases (create_record codec world.create (record_name p.execution_id) r g).0) [
        | inl (e, failed) ↦ ground arith
        | inr (_, done) ↦
            let stored = create_record-ok world.create (record_name p.execution_id) r g done in
            (ground arith, ground (arith, stored))
      ]

  admit_preparation-ok :
      (world : PrepareWorld) (plan : Plan) (fence : WriterFence) (action : AuthorizedAction)
      (p : Plan × Bytes)
      → admit_preparation kit world plan fence action ≡ ok p
      → prepare_plan kit plan fence ≡ ok p
  unfolding admit_preparation
  admit_preparation-ok world plan fence action p h =
      elim (Result-cases (prepare_plan kit plan fence)) [
        | inl (e, refused) ↦ ground arith
        | inr (q, prepared) ↦ ground arith
      ]

  prepare-settles :
      (world : PrepareWorld) (plan : Plan) (fence : WriterFence) (lifetime : ℤ)
      (action : AuthorizedAction) (p : Plan) (digest : Bytes) (g : Gate) (ticket : Ticket)
      → prepare_plan kit plan fence ≡ ok (p, digest)
      → (prepare kit codec world plan fence lifetime action g).0 ≡ ok ticket
      → prepare kit codec world plan fence lifetime action g
        ≡ settle_preparation codec world lifetime fence action p digest
            (read_record codec world.read (g.files (record_name p.execution_id)))
            g
  unfolding prepare ◌>>=◌
  prepare-settles world plan fence lifetime action p digest g ticket is_plan h =
      elim (Result-cases (admit_preparation kit world plan fence action)) [
        | inl (e, refused) ↦ ground arith
        | inr (q, admitted) ↦
            let same : q ≡ (p, digest) =
              eq_of_ok (sym (admit_preparation-ok world plan fence action q admitted) ∙ is_plan) in
            let passed : admit_preparation kit world plan fence action ≡ ok (p, digest) =
              admitted ∙ ap ok same in
            ground arith
      ]

  -- What a ticket for an execution without a record tells: the record that was written.
  prepare-fresh :
      (world : PrepareWorld) (plan : Plan) (fence : WriterFence) (lifetime : ℤ)
      (action : AuthorizedAction) (p : Plan) (digest secret : Bytes) (g : Gate) (ticket : Ticket)
      → let after = prepare kit codec world plan fence lifetime action g in
        let name = record_name p.execution_id in
        let r = prepared_record world.now lifetime fence action secret p digest in
        prepare_plan kit plan fence ≡ ok (p, digest)
        → g.files name ≡ none
        → world.secret ≡ some secret
        → after.0 ≡ ok ticket
        → (ticket ≡ ticket_from r) × (after.1.files name ≡ private_file (codec.encode r))
  unfolding read_record settle_preparation raise
  prepare-fresh world plan fence lifetime action p digest secret g ticket is_plan fresh drawn h =
      let name = record_name p.execution_id in
      let is_settled =
        prepare-settles world plan fence lifetime action p digest g ticket is_plan h in
      let rest =
        settle_preparation codec world lifetime fence action p digest
          (read_record codec world.read (g.files name)) g in
      elim (Bool-cases world.read.stat) [
        | inl fault ↦ let stuck : rest.0 ≡ err stat_record = rw fault refl in ground arith
        | inr no_fault ↦
            let created : rest ≡ create_execution codec world lifetime fence action p digest g =
              rw (no_fault, fresh) refl in
            let same = is_settled ∙ created in
            let (is_ticket, stored) =
              create_execution-ok world lifetime fence action p digest secret g ticket drawn
                (sym (ap (λ m. m.0) same) ∙ h) in
            (is_ticket, ap (λ m. m.1.files name) same ∙ stored)
      ]

  -- What the world of a Start has to offer to a prepared execution: nothing fails, the fence and the action
  -- are verified, the writer is the plan's, the deadline is ahead, and the files are those of the plan.
  pub record IsReady (world : StartWorld) (ticket : Ticket) (fence : WriterFence)
      (action : AuthorizedAction) (p : Plan) (files : List InputFile) : Type 0 where
    pub no_read_fault : world.read ≡ no_read_faults
    pub no_replace_fault : world.replace ≡ no_replace_faults
    pub fence_verified :
        world.authority.verify_fence fence world.now (codes "execution.start") ≡ true
    pub fence_current : world.authority.confirm_current fence world.now ≡ true
    pub action_verified :
        authorized
          (codes "execution.start")
          world.authority
          world.now
          fence
          action
          (start_material kit p ticket)
        ≡ true
    pub writer : fence.writer_generation ≡ p.writer_generation
    pub in_time : before_unix world.now ticket.start_not_after_unix ≡ true
    pub identified : (length ticket.execution_id == 0) ≡ false
    pub secret : (length ticket.secret == 0) ≡ false
    pub opened : open_bound_files kit world.inputs p.files ≡ ok files

  admit_start-IsReady :
      (world : StartWorld) (ticket : Ticket) (fence : WriterFence) (action : AuthorizedAction)
      (r : GateRecord) (files : List InputFile)
      → ticket ≡ ticket_from r
      → r.state ≡ state_prepared
      → IsReady world ticket fence action r.plan files
      → admit_start kit world ticket fence action r ≡ ok files
  unfolding admit_start ticket_from
  admit_start-IsReady world ticket fence action r files is_ticket is_new ready =
      let same_digest : bytes_eq r.plan_digest ticket.plan_digest ≡ true =
        rw is_ticket (bytes_eq_self r.plan_digest) in
      let same_secret : bytes_eq r.ticket_secret ticket.secret ≡ true =
        rw is_ticket (bytes_eq_self r.ticket_secret) in
      let same_deadline : ticket.start_not_after_unix ≡ r.start_not_after_unix =
        rw is_ticket refl in
      let in_time : before_unix world.now r.start_not_after_unix ≡ true =
        subst (λ d. before_unix world.now d ≡ true) same_deadline ready.in_time in
      let verified = ready.action_verified in
      let deadline : (r.start_not_after_unix == ticket.start_not_after_unix) ≡ true =
        subst (λ d. (r.start_not_after_unix == d) ≡ true) (sym same_deadline)
          (==_self r.start_not_after_unix) in
      let writer : (r.plan.writer_generation == fence.writer_generation) ≡ true =
        subst (λ w. (r.plan.writer_generation == w) ≡ true) (sym ready.writer)
          (==_self r.plan.writer_generation) in
      rw (same_digest, same_secret, deadline, writer, verified, is_new, in_time) ready.opened

  start-IsReady :
      (world : StartWorld) (ticket : Ticket) (fence : WriterFence) (action : AuthorizedAction)
      (r : GateRecord) (files : List InputFile) (g : Gate)
      → g.has_lock ≡ true
      → read_record codec no_read_faults (g.files (record_name ticket.execution_id)) ≡ ok r
      → admit_start kit world ticket fence action r ≡ ok files
      → IsReady world ticket fence action r.plan files
      → (start kit codec world ticket fence action g).0 ≡ ok (launch_of r files)
  unfolding start replace_record ◌>>=◌
  start-IsReady world ticket fence action r files g locked reads admitted ready =
      let found : read_record codec world.read (g.files (record_name ticket.execution_id)) ≡ ok r =
        rw ready.no_read_fault reads in
      let no_fault = ready.no_replace_fault in
      rw
        (
          locked, ready.identified, ready.secret, ready.fence_verified, ready.fence_current, found,
          admitted, no_fault,
        )
        refl

  -- What Prepare has made a ticket of, for an execution without a record, Start starts: if the record can be
  -- read back, and the world is ready for it, Start returns the launch of the plan with its files.
  pub prepare-start :
      (world : PrepareWorld) (plan : Plan) (fence : WriterFence) (lifetime : ℤ)
      (action : AuthorizedAction) (p : Plan) (digest secret : Bytes) (g : Gate) (ticket : Ticket)
      (world' : StartWorld) (fence' : WriterFence) (action' : AuthorizedAction)
      (files : List InputFile)
      → let after = (prepare kit codec world plan fence lifetime action g).1 in
        let r = prepared_record world.now lifetime fence action secret p digest in
        prepare_plan kit plan fence ≡ ok (p, digest)
        → g.files (record_name p.execution_id) ≡ none
        → world.secret ≡ some secret
        → read_record codec no_read_faults (private_file (codec.encode r)) ≡ ok r
        → (prepare kit codec world plan fence lifetime action g).0 ≡ ok ticket
        → IsReady world' ticket fence' action' p files
        → after.has_lock ≡ true
        → (launch : Launch) × ((start kit codec world' ticket fence' action' after).0 ≡ ok launch)
          × (launch.execution_id ≡ p.execution_id)
          × (launch.files ≡ files)
          × (launch.effect_bindings ≡ p.effect_bindings)
  unfolding launch_of ticket_from prepared_record
  prepare-start world plan fence lifetime action p digest secret g ticket world' fence' action'
        files is_plan fresh drawn readable prepared ready locked =
      let after = (prepare kit codec world plan fence lifetime action g).1 in
      let (is_ticket, stored) =
        prepare-fresh world plan fence lifetime action p digest secret g ticket is_plan fresh drawn
          prepared in
      let r = prepared_record world.now lifetime fence action secret p digest in
      let named : ticket.execution_id ≡ p.execution_id =
        ap (λ (t : Ticket). t.execution_id) is_ticket in
      let reads : read_record codec no_read_faults (after.files (record_name ticket.execution_id))
          ≡ ok r =
        rw (named, stored) readable in
      let admitted =
        admit_start-IsReady world' ticket fence' action' r files is_ticket refl ready in
      (
        launch_of r files,
        start-IsReady world' ticket fence' action' r files after locked reads admitted ready,
        refl,
        refl,
        refl,
      )
