-- ===== src/Commerce/Admission.antt =====
-- What `Prepare` and `Start` of pkg/commercegate/gate.go check, and the records that they make. Time is in
-- nanoseconds since 1970.
use Prim.Native.Nat.{min}
use tos_ai.Commerce.Plan.{
  Authority, AuthorizedAction, CredentialBinding, EffectBinding, FileBinding, GateError,
  LeaseLossPolicy, NetworkBinding, Plan, PlanKit, Ticket, WriterFence, already_started, before_unix,
  fence_not_current, fence_refused, identity_conflict, input_digest_changed, input_identity_changed,
  not_startable, open_input, preparation_not_authorized, seek_failed, start_ambiguous,
  start_mismatch, start_not_authorized, ticket_expired,
}
use tos_ai.Commerce.Preparing.{
  authorized, max_input_file_bytes, prepare_material, prepare_plan, start_material,
}
use tos_ai.Commerce.Records.{
  CreateFaults, GateRecord, ReadFaults, ReplaceFaults, gate_schema, is_prepared, is_running,
  is_starting, next_revision, state_prepared, state_starting,
}
use tos_ai.Prelude.{
  Bool, List, Option, Result, [], arith, err, if◌then◌else◌, leb, none, not, ok, reject_if, some,
  take, true, ℕ, ◌*◌, ◌++◌, ◌+◌, ◌/◌, ◌==◌, ◌||◌, ◌∷◌, ◌≡◌,
}
use tos_ai.Prelude.Int.{pos_part, ℤ}
use tos_ai.Prelude.Results.{◌>>=◌, ◌>>◌}
use tos_ai.Prelude.Text.{Bytes, bytes_eq, codes, hex_encode, sha256_prefix}

-- What opening one bound file finds: `Stat`, the bytes, and the steps that can fail.
pub record InputFile : Type 0 where
  pub stat_fails : Bool
  pub regular : Bool
  pub size : ℕ
  pub content : Bytes
  pub read_fails : Bool
  pub seek_fails : Bool

pub record Launch : Type 0 where
  pub execution_id : Bytes
  pub plan_digest : Bytes
  pub ticket_secret : Bytes
  pub lease_loss_policy : LeaseLossPolicy
  pub files : List InputFile
  pub network_bindings : List NetworkBinding
  pub credential_bindings : List CredentialBinding
  pub effect_bindings : List EffectBinding

-- What a call of `Prepare` meets: the clock, the authority, the secret that `rand.Read` yields, and failures.
pub record PrepareWorld : Type 0 where
  pub now : ℕ
  pub authority : Authority
  pub secret : Option Bytes
  pub read : ReadFaults
  pub create : CreateFaults

-- What a call of `Start` meets; `inputs` opens a path without following a symbolic link.
pub record StartWorld : Type 0 where
  pub now : ℕ
  pub authority : Authority
  pub inputs : Bytes → Option InputFile
  pub read : ReadFaults
  pub replace : ReplaceFaults

abbrev pub second : ℕ
second = 1000000000

-- now.Unix()
abbrev pub unix : ℕ → ℕ
unix now = now / second

-- 5 * time.Minute
abbrev pub max_start_ticket_lifetime : ℕ
max_start_ticket_lifetime = 300 * second

-- `ticketFrom`
unfoldable pub ticket_from : GateRecord → Ticket
ticket_from r = record {
  execution_id = r.plan.execution_id;
  secret = r.ticket_secret;
  start_not_after_unix = r.start_not_after_unix;
  plan_digest = r.plan_digest;
}

-- The earliest of the lifetime's end and the expiries of the fence and the action.
unfoldable pub start_deadline : ℕ → ℤ → WriterFence → AuthorizedAction → ℕ
start_deadline now lifetime fence action =
    min (min (unix (now + pos_part lifetime)) fence.expires_at_unix) action.expires_at_unix

unfoldable pub prepared_record :
    ℕ → ℤ → WriterFence → AuthorizedAction → Bytes → Plan → Bytes → GateRecord
prepared_record now lifetime fence action secret plan digest = record {
  schema = gate_schema;
  plan = plan;
  plan_digest = digest;
  ticket_secret = secret;
  start_not_after_unix = start_deadline now lifetime fence action;
  state = state_prepared;
  state_revision = 1;
  outcome_digest = [];
  prepare_action_id = action.stable_action_id;
  prepare_request_digest = action.exact_request_digest;
  start_action_id = [];
  start_request_digest = [];
  effects = [];
}

-- What `Prepare` answers when the execution has a record.
unfoldable pub prepare_again : ℕ → AuthorizedAction → Bytes → GateRecord → Result GateError Ticket
prepare_again now action digest existing =
    if not (bytes_eq existing.plan_digest digest)
      || not (bytes_eq existing.prepare_action_id action.stable_action_id)
      || not (bytes_eq existing.prepare_request_digest action.exact_request_digest)
    then err identity_conflict
    else if not (is_prepared existing.state)
    then err already_started
    else if leb existing.start_not_after_unix (unix now)
    then err ticket_expired
    else ok (ticket_from existing)

-- The record of an execution that starts.
unfoldable pub started : AuthorizedAction → GateRecord → GateRecord
started action r = record r {
  state = state_starting;
  state_revision = next_revision r.state_revision;
  start_action_id = action.stable_action_id;
  start_request_digest = action.exact_request_digest;
}

unfoldable pub launch_of : GateRecord → List InputFile → Launch
launch_of r files = record {
  execution_id = r.plan.execution_id;
  plan_digest = r.plan_digest;
  ticket_secret = r.ticket_secret;
  lease_loss_policy = r.plan.lease_loss_policy;
  files = files;
  network_bindings = r.plan.network_bindings;
  credential_bindings = r.plan.credential_bindings;
  effect_bindings = r.plan.effect_bindings;
}

module _ (kit : PlanKit) where
  -- The body of the loop of `openBoundFiles`. At most max_input_file_bytes + 1 bytes are hashed.
  unfoldable pub open_bound_file : FileBinding → Option InputFile → Result GateError InputFile
  open_bound_file binding none = err open_input
  open_bound_file binding (some f) = do
    reject_if (f.stat_fails || not f.regular || not (f.size == binding.size)) input_identity_changed
    let digest =
        sha256_prefix ++ hex_encode (kit.sha256 (take (max_input_file_bytes + 1) f.content))
    reject_if (f.read_fails || not (bytes_eq digest binding.digest)) input_digest_changed
    reject_if f.seek_fails seek_failed
    ok f

  -- `openBoundFiles`
  unfoldable pub open_bound_files :
      (Bytes → Option InputFile) → List FileBinding → Result GateError (List InputFile)
  open_bound_files inputs [] = ok []
  open_bound_files inputs (b ∷ bs) = do
    f ← open_bound_file b (inputs b.path)
    fs ← open_bound_files inputs bs
    ok (f ∷ fs)

  -- What `Prepare` checks before it looks for a record: the prepared plan and its digest.
  unfoldable pub admit_preparation :
      PrepareWorld → Plan → WriterFence → AuthorizedAction → Result GateError (Plan × Bytes)
  admit_preparation world plan fence action = do
    reject_if (not (world.authority.verify_fence fence world.now (codes "execution.prepare")))
        fence_refused
    reject_if (not (world.authority.confirm_current fence world.now)) fence_not_current
    plan_and_digest ← prepare_plan kit plan fence
    let material = prepare_material kit plan_and_digest.0
    reject_if
        (not
          (authorized (codes "execution.prepare") world.authority world.now fence action material))
        preparation_not_authorized
    ok plan_and_digest

  -- What `Start` checks of the record.
  unfoldable pub admit_start :
      StartWorld
      → Ticket
      → WriterFence
      → AuthorizedAction
      → GateRecord
      → Result GateError (List InputFile)
  admit_start world ticket fence action r = do
    reject_if
        (not (bytes_eq r.plan_digest ticket.plan_digest)
          || not (bytes_eq r.ticket_secret ticket.secret)
          || not (r.start_not_after_unix == ticket.start_not_after_unix)
          || not (r.plan.writer_generation == fence.writer_generation))
        start_mismatch
    let material = start_material kit r.plan ticket
    reject_if
        (not (authorized (codes "execution.start") world.authority world.now fence action material))
        start_not_authorized
    reject_if (is_starting r.state || is_running r.state) start_ambiguous
    reject_if (not (is_prepared r.state) || not (before_unix world.now r.start_not_after_unix))
        not_startable
    open_bound_files world.inputs r.plan.files

  -- A start is admitted from the state PREPARED only.
  pub admit_start-prepared :
      (world : StartWorld) (ticket : Ticket) (fence : WriterFence) (action : AuthorizedAction)
      (r : GateRecord) (files : List InputFile)
      → admit_start world ticket fence action r ≡ ok files
      → is_prepared r.state ≡ true
  unfolding admit_start
  admit_start-prepared world ticket fence action r files h = ground arith
