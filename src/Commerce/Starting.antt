-- ===== src/Commerce/Starting.antt =====
-- `Prepare` and `Start` of pkg/commercegate/gate.go.
use tos_ai.Commerce.Admission.{
  Launch, PrepareWorld, StartWorld, admit_preparation, admit_start, launch_of,
  max_start_ticket_lifetime, prepare_again, prepared_record, second, started, ticket_from,
}
use tos_ai.Commerce.Plan.{
  AuthorizedAction, GateError, Plan, PlanKit, Ticket, WriterFence, fence_not_current, fence_refused,
  invalid_preparation, invalid_start, no_secret, record_absent,
}
use tos_ai.Commerce.Preparing.{or_fail}
use tos_ai.Commerce.Records.{
  GateMethod, GateRecord, RecordCodec, create_record, read_record, record_name, replace_record,
}
use tos_ai.Prelude.{Bool, Result, err, false, if◌then◌else◌, length, not, ok, true, ◌==◌, ◌||◌}
use tos_ai.Prelude.Exec.{gets, lift, pure, raise, raise_if, ◌>>=◌, ◌>>◌}
use tos_ai.Prelude.Int.{leb_ℤ, pos, ℤ}
use tos_ai.Prelude.Text.{Bytes, codes}

abbrev pub is_absent : GateError → Bool
is_absent record_absent = true
is_absent _ = false

module _ (codec : RecordCodec) where
  -- The execution has no record.
  unfoldable pub create_execution :
      PrepareWorld → ℤ → WriterFence → AuthorizedAction → Plan → Bytes → GateMethod Ticket
  create_execution world lifetime fence action plan digest = do
    secret ← lift (or_fail no_secret world.secret)
    let r = prepared_record world.now lifetime fence action secret plan digest
    create_record codec world.create (record_name plan.execution_id) r
    pure (ticket_from r)

  -- What `Prepare` does when it has read the record of the execution, or an error.
  unfoldable pub settle_preparation :
      PrepareWorld
      → ℤ
      → WriterFence
      → AuthorizedAction
      → Plan
      → Bytes
      → Result GateError GateRecord
      → GateMethod Ticket
  settle_preparation world lifetime fence action plan digest (ok existing) =
      lift (prepare_again world.now action digest existing)
  settle_preparation world lifetime fence action plan digest (err e) =
      if is_absent e then create_execution world lifetime fence action plan digest else raise e

module _ (kit : PlanKit) (codec : RecordCodec) where
  -- `Prepare`
  unfoldable pub prepare :
      PrepareWorld → Plan → WriterFence → ℤ → AuthorizedAction → GateMethod Ticket
  prepare world plan fence lifetime action = do
    gate ← gets (λ gate. gate)
    raise_if
        (not gate.has_lock
          || not (leb_ℤ (pos second) lifetime)
          || not (leb_ℤ lifetime (pos max_start_ticket_lifetime)))
        invalid_preparation
    plan_and_digest ← lift (admit_preparation kit world plan fence action)
    let name = record_name plan_and_digest.0.execution_id
    settle_preparation codec world lifetime fence action plan_and_digest.0 plan_and_digest.1
        (read_record codec world.read (gate.files name))

  -- `Start`
  unfoldable pub start : StartWorld → Ticket → WriterFence → AuthorizedAction → GateMethod Launch
  start world ticket fence action = do
    gate ← gets (λ gate. gate)
    raise_if (not gate.has_lock || (length ticket.execution_id == 0) || (length ticket.secret == 0))
        invalid_start
    raise_if (not (world.authority.verify_fence fence world.now (codes "execution.start")))
        fence_refused
    raise_if (not (world.authority.confirm_current fence world.now)) fence_not_current
    let name = record_name ticket.execution_id
    r ← lift (read_record codec world.read (gate.files name))
    files ← lift (admit_start kit world ticket fence action r)
    replace_record codec world.replace name (started action r)
    pure (launch_of r files)
