-- ===== src/Lib.antt =====
-- A verification library for tos-ai, a host agent that runs AI and software work for others: it installs
-- signed updates of itself, takes private content in, starts agreed executions once, runs contracted work in
-- isolated containers, and keeps the host within its resources.
--
-- The parts and their files:
--   * pkg/update/manifest.go is Update/Manifest.antt: release manifests, what is signed, and `Verify`,
--     `VerifyInstalled` and `VerifyArtifact`.
--   * pkg/softwareupdate/manager.go is Update.antt and the other files of Update/. Slots has the persistent
--     state and `validateState`; Disk has the files of the root, `writeAtomic` and `readPrivateFile`; Store
--     has the manager's memory, `storeState` and `readManifest`; Staging has `Stage`; Manager has
--     `ActivatePending`, `ConfirmHealthy`, `Rollback`, `Status` and `Close`; Opening has `Open` and
--     `loadAndRecover`. Histories of calls, crashes and restarts are in History, and descriptions of what
--     restarts and `Stage` do to the state in Outcomes.
--   * pkg/executor/executor.go is Executor/Hosts, Spec, Policy and Execute: the isolation policy and the
--     `PolicyExecutor` above a container client; Confinement, Admission and Admitted describe what it lets
--     through. pkg/executor/supervisor.go is Executor/Supervisor: the
--     backend that bounds the calls of a driver.
--   * pkg/softwarework is Work.antt: Contract, Publish and Runner for runner.go, Journal for journal.go, and
--     Preset for preset.go. The runner claims an execution in the journal, gives the executor the
--     specification of its contract, stores the report and the artifact, and completes the claim.
--   * pkg/messengereventbridge/outbox.go is Outbox.antt: the durable results of an event, one file each, with
--     Listing for `Pending` and `OpenResultOutbox`, and Receiving for what feeds the outbox and its journal.
--   * pkg/commercegate/gate.go is Commerce.antt: Plan has plans, tickets and actions; Preparing `preparePlan`;
--     Records the record files; Admission and Starting `Prepare` and `Start`; Running `MarkRunning`,
--     `Complete`, `Inspect` and `Close`; Requests and Effects `PerformHTTPS`; Opening `Open` and
--     `recoverInterruptedStates`. Advance and Changes say how each method changes a record's file, and
--     History and Phases what follows for a history of calls, crashes and restarts.
--   * pkg/artifactstore/store.go is Artifacts.antt: the objects that are addressed by their digest.
--   * pkg/artifacthttp/locator.go is Locators.antt: the publication of objects and its index.
--   * pkg/privateingress/store.go is Ingress.antt: Contents has the records and files, Accepting
--     `IssueChallenge`, `Accept`, `OpenAccepted` and `Acknowledge`, and Deleting `Delete`.
--   * internal/resourceguard/guard.go is Guard.antt: the monitor that gates new work.
--   * Prelude holds what they share: Boolean tests, lists measured by native numbers, results, integers,
--     texts as bytes, sorting, and Exec, the methods that change a state and may return an error. Examples
--     holds runs on concrete data.
--
-- How code is modelled. A struct is a record and an error is a constructor of a type of errors. A method is a
-- function from the state to a result and the next state, so what was written before an error stays written.
-- A system call that may fail has a flag in a record of faults that the caller gives, and a theorem that
-- takes any such record covers every combination of failures. A crash leaves the files as a failure at that
-- call does. A mutex makes a method one action; where the code works outside of its mutex, as the runner,
-- the supervisor and `PerformHTTPS` do, each critical section is an action and the actions interleave.
-- The runner's `Execute` is also one function as a whole, for what it returns. Where `PerformHTTPS`
-- answers an effect that was sent before, the stored response is read with the record, and not behind the
-- critical section. Texts and byte strings are lists of bytes. An unsigned integer is a natural number
-- and its wrap-around is written out; a signed one, and a duration, is an integer. Loops are structural
-- recursion, so no fuel is needed.
--
-- What is a parameter: SHA-256, Ed25519, base64, JSON, archive/tar, `net.ParseIP`, `net.SplitHostPort`,
-- `path.Clean` and `path.Base`, the container client, the executor and the artifact store behind their
-- interfaces, net/http behind a connection, and the packages agentcommerce and codec with the authorities that
-- verify fences and actions. A theorem that needs something of them names it as a hypothesis.
--
-- What is not modelled: the durability of a file system that loses what was not synced, file ownership by
-- another user of the same process, goroutines and timers of the resource monitor, cancellation inside a
-- read, and the HTTP handler of the locator. The opening of the private ingress checks its arguments and
-- takes a lock, and its closing also zeroes the signing key; of these two only the release of the lock is
-- modelled. A name of an object that is too short for its prefix panics in the ingress, and is shortened
-- here; a digest is well formed where this matters. The rest of the messenger bridge, the evidence and
-- metering of outcomes, the adapters, the containerd backend, the probes and the commands are not
-- modelled.
pub mod Prelude
pub mod Update
pub mod Commerce
pub mod Artifacts
pub mod Ingress
pub mod Locators
pub mod Guard
pub mod Executor
pub mod Work
pub mod Outbox
pub mod Examples
