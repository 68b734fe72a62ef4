-- ===== src/Commerce/Startable.antt =====
-- What a launch guarantees: the record, the writer, the time and the input files of the start.
use tos_ai.Commerce.Admission.{
  InputFile, Launch, StartWorld, admit_start, admit_start-prepared, launch_of, open_bound_file,
  open_bound_files,
}
use tos_ai.Commerce.OneStart.{start-ok}
use tos_ai.Commerce.Phases.{is_prepared→eq}
use tos_ai.Commerce.Plan.{
  Authority, AuthorizedAction, FileBinding, Plan, PlanKit, Ticket, WriterFence, before_unix,
}
use tos_ai.Commerce.Preparing.{authorized, execution_fields, max_input_file_bytes, start_material}
use tos_ai.Commerce.Records.{
  Gate, GateRecord, RecordCodec, read_record, record_name, state_prepared,
}
use tos_ai.Commerce.Starting.{start}
use tos_ai.Prelude.{
  List, Option, Option-cases, [], ap, arith, inl, inr, none, ok, refl, some, subst, sym, take, true,
  ℕ, ◌*◌, ◌++◌, ◌+◌, ◌<◌, ◌∙◌, ◌∷◌, ◌≡◌,
}
use tos_ai.Prelude.Results.{Result-cases, eq_of_ok}
use tos_ai.Prelude.Text.{Bytes, bytes_eq→eq, codes, hex_encode, sha256_prefix}

module _ (kit : PlanKit) where
  -- The file is the one that the binding names by its size and its digest.
  pub record IsBound (binding : FileBinding) (f : InputFile) : Type 0 where
    pub regular : f.regular ≡ true
    pub size : f.size ≡ binding.size
    pub digest :
        sha256_prefix ++ hex_encode (kit.sha256 (take (max_input_file_bytes + 1) f.content))
        ≡ binding.digest

  -- The files are those of the bindings, one for each and in their order.
  abbrev pub AreBound : List FileBinding → List InputFile → Type 0
  AreBound [] [] = Unit
  AreBound (b ∷ bs) (f ∷ fs) = IsBound b f × AreBound bs fs
  AreBound _ _ = ⊥

  open_bound_file-IsBound :
      (b : FileBinding) (file : Option InputFile) (f : InputFile)
      → open_bound_file kit b file ≡ ok f
      → IsBound b f
  unfolding open_bound_file
  open_bound_file-IsBound b none f h = ground arith
  open_bound_file-IsBound b (some file) f h =
      let digest =
        sha256_prefix ++ hex_encode (kit.sha256 (take (max_input_file_bytes + 1) file.content)) in
      let same : file ≡ f = ground arith in
      subst (IsBound b) same (record {
        regular = ground arith;
        size = ground arith;
        digest = bytes_eq→eq digest b.digest (ground arith);
      })

  open_bound_files-AreBound :
      (inputs : Bytes → Option InputFile) (bs : List FileBinding) (files : List InputFile)
      → open_bound_files kit inputs bs ≡ ok files
      → AreBound bs files
  unfolding open_bound_files
  open_bound_files-AreBound inputs [] files h = subst (AreBound []) (eq_of_ok h) tt
  open_bound_files-AreBound inputs (b ∷ bs) files h =
      elim (Result-cases (open_bound_file kit b (inputs b.path))) [
        | inl (e, refused) ↦ ground arith
        | inr (f, opened) ↦ elim (Result-cases (open_bound_files kit inputs bs)) [
          | inl (e, refused) ↦ ground arith
          | inr (fs, rest) ↦
              let computed : open_bound_files kit inputs (b ∷ bs) ≡ ok (f ∷ fs) =
                rw (opened, rest) refl in
              subst (AreBound (b ∷ bs)) (eq_of_ok (sym computed ∙ h)) (
                open_bound_file-IsBound b (inputs b.path) f opened,
                open_bound_files-AreBound inputs bs fs rest,
              )
        ]
      ]

  -- The record of an execution that may start now, with these files.
  pub record IsStartable (world : StartWorld) (ticket : Ticket) (fence : WriterFence)
      (action : AuthorizedAction) (r : GateRecord) (files : List InputFile) : Type 0 where
    pub state : r.state ≡ state_prepared
    pub plan_digest : r.plan_digest ≡ ticket.plan_digest
    pub secret : r.ticket_secret ≡ ticket.secret
    pub writer : r.plan.writer_generation ≡ fence.writer_generation
    pub in_time : world.now < r.start_not_after_unix * 1000000000
    pub request : Bytes
    pub marshalled : kit.marshal_ticket ticket ≡ some request
    pub verified :
        world.authority.verify_action action (execution_fields r.plan) request fence world.now
        ≡ true
    pub inputs : AreBound r.plan.files files

  start_material-ok :
      (plan : Plan) (ticket : Ticket) (authority : Authority) (now : ℕ) (fence : WriterFence)
      (action : AuthorizedAction) (wanted : Bytes)
      → authorized wanted authority now fence action (start_material kit plan ticket) ≡ true
      → (request : Bytes) × (kit.marshal_ticket ticket ≡ some request)
        × (authority.verify_action action (execution_fields plan) request fence now ≡ true)
  unfolding authorized start_material
  start_material-ok plan ticket authority now fence action wanted h =
      elim (Option-cases (kit.marshal_ticket ticket)) [
        | inl missing ↦ ground arith
        | inr (request, marshalled) ↦ (request, marshalled, ground arith)
      ]

  admit_start-IsStartable :
      (world : StartWorld) (ticket : Ticket) (fence : WriterFence) (action : AuthorizedAction)
      (r : GateRecord) (files : List InputFile)
      → admit_start kit world ticket fence action r ≡ ok files
      → IsStartable world ticket fence action r files
  unfolding admit_start before_unix
  admit_start-IsStartable world ticket fence action r files h =
      let (request', marshalled', verified') =
        start_material-ok r.plan ticket world.authority world.now fence action
          (codes "execution.start") (ground arith) in
      record {
        state =
            is_prepared→eq r.state (admit_start-prepared kit world ticket fence action r files h);
        plan_digest = bytes_eq→eq r.plan_digest ticket.plan_digest (ground arith);
        secret = bytes_eq→eq r.ticket_secret ticket.secret (ground arith);
        writer = ground arith;
        in_time = ground arith;
        request = request';
        marshalled = marshalled';
        verified = verified';
        inputs = open_bound_files-AreBound world.inputs r.plan.files files (ground arith);
      }

  -- A launch that Start returns is of a PREPARED record with the ticket's digest and secret and the fence's
  -- writer, before its deadline, under an action verified for the marshalled ticket; and its files have the
  -- sizes and digests that the plan binds.
  pub start-IsStartable :
      (codec : RecordCodec) (world : StartWorld) (ticket : Ticket) (fence : WriterFence)
      (action : AuthorizedAction) (g : Gate) (launch : Launch)
      → (start kit codec world ticket fence action g).0 ≡ ok launch
      → (r : GateRecord) × (read_record codec world.read (g.files (record_name ticket.execution_id))
          ≡ ok r)
        × IsStartable world ticket fence action r launch.files
  unfolding launch_of
  start-IsStartable codec world ticket fence action g launch h =
      let (r, files, found, admitted, is_launch, _) =
        start-ok kit codec world ticket fence action g launch h in
      let startable = admit_start-IsStartable world ticket fence action r files admitted in
      (
        r,
        found,
        subst (IsStartable world ticket fence action r)
            (sym (ap (λ (l : Launch). l.files) is_launch)) startable,
      )
