-- ===== src/Executor/Supervisor.antt =====
-- pkg/executor/supervisor.go: the supervisor that bounds the calls of a backend driver. The critical
-- sections under its mutex are single actions, and what runs outside of them is an action of its own, so
-- that calls interleave. A driver's call runs between `begin_run` and `forget`.
use tos_ai.Prelude.{
  Bool, List, Result, [], any, err, false, if◌then◌else◌, ltb, not, ok, true, ℕ, ◌+◌, ◌-◌, ◌<◌,
  ◌==◌, ◌||◌, ◌∷◌, ◌≡◌,
}
use tos_ai.Prelude.Exec.{Exec, gets, modify, raise_if, ◌>>=◌, ◌>>◌}
use tos_ai.Prelude.Text.{Bytes, bytes_eq, is_digest}

pub data SupervisorError : Type 0 where
  invalid_supervisor nil_run_context run_cancelled invalid_execution_digest : SupervisorError
  supervisor_closed already_active capacity_exhausted : SupervisorError

-- How far `Close` is: not called, waiting for the probes, waiting for the runs, returned.
pub data Closing : Type 0 where
  serving waits_for_probes waits_for_runs returned_from_close : Closing

-- `slots_used` is the length of the channel, `probes` and `runs` are the wait groups' counters, and
-- `releasing` counts the calls that have deleted their identity and hold their slot, and `finishing` those that
-- have returned their slot and not counted down the wait group.
pub record Backend : Type 0 where
  pub max_active : ℕ
  pub slots_used : ℕ
  pub active : List Bytes
  pub releasing : ℕ
  pub finishing : ℕ
  pub runs : ℕ
  pub probes : ℕ
  pub is_closed : Bool
  pub closing : Closing

abbrev pub max_supervised_active_hard : ℕ
max_supervised_active_hard = 256

-- `NewSupervisedBackend`
unfoldable pub new_supervised_backend : Bool → ℕ → Result SupervisorError Backend
new_supervised_backend nil_driver max_active =
    if nil_driver || (max_active == 0) || ltb max_supervised_active_hard max_active
    then err invalid_supervisor
    else ok (record {
      max_active = max_active;
      slots_used = 0;
      active = [];
      releasing = 0;
      finishing = 0;
      runs = 0;
      probes = 0;
      is_closed = false;
      closing = serving;
    })

-- What the context and the arguments are found to be.
pub record CallFaults : Type 0 where
  pub nil_backend : Bool
  pub nil_context : Bool
  pub cancelled : Bool

abbrev pub is_active : Bytes → List Bytes → Bool
is_active digest = any (λ other. bytes_eq other digest)

-- `delete(b.active, digest)`
abbrev pub without : Bytes → List Bytes → List Bytes
without digest [] = []
without digest (x ∷ xs) = if bytes_eq x digest then xs else x ∷ without digest xs

-- `RunIsolated` up to the call of the driver
unfoldable pub begin_run : CallFaults → Bytes → Exec Backend SupervisorError (Unit {0})
begin_run io digest = do
  raise_if io.nil_backend invalid_supervisor
  raise_if io.nil_context nil_run_context
  raise_if io.cancelled run_cancelled
  raise_if (not (is_digest digest)) invalid_execution_digest
  b ← gets (λ b. b)
  raise_if b.is_closed supervisor_closed
  raise_if (is_active digest b.active) already_active
  raise_if (not (ltb b.slots_used b.max_active)) capacity_exhausted
  modify (λ b. record b {
    slots_used = b.slots_used + 1;
    active = digest ∷ b.active;
    runs = b.runs + 1;
  })

-- The deferred function of `RunIsolated`: under the mutex, and its two steps behind it.
unfoldable pub forget : Bytes → Backend → Backend
forget digest b = record b { active = without digest b.active; releasing = b.releasing + 1 }

unfoldable pub release : Backend → Backend
release b = record b {
  slots_used = b.slots_used - 1;
  releasing = b.releasing - 1;
  finishing = b.finishing + 1;
}

unfoldable pub finish_run : Backend → Backend
finish_run b = record b { finishing = b.finishing - 1; runs = b.runs - 1 }

-- `CheckReady` up to the call of the driver, and the deferred end of it
unfoldable pub begin_probe : CallFaults → Exec Backend SupervisorError (Unit {0})
begin_probe io = do
  raise_if io.nil_backend invalid_supervisor
  raise_if io.nil_context nil_run_context
  raise_if io.cancelled run_cancelled
  b ← gets (λ b. b)
  raise_if b.is_closed supervisor_closed
  modify (λ b. record b { probes = b.probes + 1 })

unfoldable pub end_probe : Backend → Backend
end_probe b = record b { probes = b.probes - 1 }

-- The one run of `Close`: it closes the supervisor, waits for the probes, closes the driver, and waits
-- for the runs.
unfoldable pub begin_close : Backend → Backend
begin_close b = record b { is_closed = true; closing = waits_for_probes }

-- One action of a call. A wait group is passed when its counter is 0.
pub data Action : Backend → Backend → Type 0 where
  runs_begin : (io : CallFaults) (digest : Bytes) (b : Backend) → Action b (begin_run io digest b).1
  runs_end :
      (digest : Bytes) (b : Backend) → is_active digest b.active ≡ true → Action b (forget digest b)
  slots_return : (b : Backend) → 0 < b.releasing → Action b (release b)
  runs_finish : (b : Backend) → 0 < b.finishing → Action b (finish_run b)
  probes_begin : (io : CallFaults) (b : Backend) → Action b (begin_probe io b).1
  probes_end : (b : Backend) → 0 < b.probes → Action b (end_probe b)
  close_begins : (b : Backend) → b.closing ≡ serving → Action b (begin_close b)
  probes_waited :
      (b : Backend)
      → b.closing ≡ waits_for_probes
      → b.probes ≡ 0
      → Action b (record b { closing = waits_for_runs })
  runs_waited :
      (b : Backend)
      → b.closing ≡ waits_for_runs
      → b.runs ≡ 0
      → Action b (record b { closing = returned_from_close })

pub data Actions : Backend → Backend → Type 0 where
  no_action : {b : Backend} → Actions b b
  one_more : {b c d : Backend} → Actions b c → Action c d → Actions b d
