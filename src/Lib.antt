-- ===== src/Lib.antt =====
-- The controller of ansible-supervisor (controller/*.go): it runs AWX job templates against the
-- virtual machines of a vSphere Supervisor, one custom resource at a time.
--
-- Every kind has a Controller: watch events put keys on a work queue, a worker takes a key and runs
-- Reconcile on the object, and Reconcile holds the kind's finalizer, calls the kind's provision or
-- cleanup function, and patches the status. An AnsibleRun is provisioned by applyAnsibleRun, which
-- launches one AWX job, follows it, and is cleaned up by cleanupAnsibleRun. An AnsibleBinding keeps
-- one AnsibleBindingVM for each VM that it selects; every AnsibleBindingVM launches the jobs of its
-- VM, and runs a deprovision hook once the VM is gone.
--
-- Files:
--   Errors     Go's error chains, and terminalError, errCleanupPending, awxStatusError
--              (controller/ansiblerun.go, engine.go, util.go, awx_client.go)
--   Exec       functions that change what they point to, call out and return an error
--   Time       RFC3339 stamps, time.Since and time.Duration with their int64 bounds
--              (controller/util.go: dueFor; controller/ansiblerun.go: deadlineExceeded)
--   Objects    unstructured objects, as far as the controller reads them
--   Awx        the data of controller/awx_client.go and its requests; Lookup has what the client
--              checks of AWX's answers (findTemplate, ListOwnedHosts, jobIDFrom), and
--              resolveTemplate of controller/ansiblebindingvm.go
--   Engine     controller/engine.go: Finalizers (holdFinalizers, releaseFinalizers), Patch
--              (patchStatus, patchFinalizer), Reconcile, Report (updateGenericStatus), Events
--              (shouldEnqueueOnUpdate, watchChildren);
--              controller/workqueue.go: Queue (processNextWorkItem, reconcileByKey)
--   Run        controller/ansiblerun.go: Model (the CR and the state of a pass), Hosts
--              (recordRunHost, UpsertHost, resolveRunHost), Targets (runTargets and the checks of a
--              launch), Launch (launchRun, claimLaunch), Recover (pollRun, recoverLostLaunch,
--              expireRun, collectFinishedRun), Apply (applyAnsibleRun, reconcileRun), Cleanup
--              (cleanupAnsibleRun), Report (updateAnsibleRunStatus). Core and AtMostOnce, and the
--              children of the others, hold proofs.
--   Vm         controller/ansiblebindingvm.go, with the helpers of util.go: Model (the CR and the
--              state of a visit), Same (ansibleBindingVMDetailsCurrent), Names, History, Ready, Poll
--              (pollRecordedJob), Apply (applyAnsibleBindingVM), Hook (the record and the clock of a
--              deprovision hook; Launch and Step have launchDeprovisionHook and runDeprovisionHook),
--              Cleanup (Pass has its start, Inventory the host), Report; Events has
--              controller/events.go. The other children hold proofs.
--   Binding    controller/ansiblebinding.go: Model, Claims (what a pass decides about a VM), Writes
--              (issueChildWrites), Summary, Report, Children (cleanupAnsibleBinding), Orphans
--              (reapOrphanHosts), Details, Apply (applyAnsibleBinding)
--   VarsFrom   controller/varsfrom.go; Resolve has resolveVarsFrom
--   Caches     controller/caches.go: the cache of templates; Keys: its keys
--   Connections  controller/awxconnection.go: awxTLSOptionsFor, awxClientFor, applyAWXConnection, with
--              getSecretValue, DetectAPIBasePath and awxClientForConnection
--   Migrate    controller/migrate.go: checkForLegacyChildren
--   Tests      the theorems at concrete inputs
--
-- A function of the source that takes a pointer and returns an error is an `Exec S A`: it maps the
-- state to a result and the state it leaves, also where the result is an error. A pass over a run
-- works on `Pass W`: the world W, the status that `*AnsibleRunStatus` points to, the version of the
-- object in hand, and the list of the calls made so far, the latest first. The engine's state has
-- the world and its calls.
--
-- The API server, AWX and the clock are parameters: `Cluster`, `Workqueue`, `Services` and
-- `Requests` are records of functions on an arbitrary world W, and each call may fail and may change
-- the world. The caches and the HTTP requests of the AWX client stand behind them too, and for a run
-- varsFrom does.
-- Text that goes into a message is a list of pieces (`Text`), because the code only tests it for
-- emptiness. An instant is a number of nanoseconds; a stamp is unset, a time in whole seconds, or a
-- text that does not parse.
--
-- The loops of the source that repeat are bounded there: patchStatus by 5 rounds, patchFinalizer by
-- a second attempt, ListOwnedHosts by 100 pages, and the models recur on the same numbers. Loops
-- over lists are structural.
--
-- The deprovision hook's record is a part of the status of a visit. Where Go has two pointers to
-- one record, the prior status is changed along with the next one (releaseWithoutHost).
-- issueChildWrites runs a batch of writes at once; the model runs it in one order. Its loop recurs
-- on the number of writes that are left, which is enough as every batch has one write at least.
--
-- Not modelled: the discovery at start in util.go; the reads of the informers' stores in caches.go;
-- the shape of a Kubernetes event and of JSON patches; main.go and the informers, which are wiring;
-- the log lines.
mod Prelude
pub mod Errors
pub mod Exec
pub mod Time
pub mod Objects
pub mod Awx
pub mod Run
pub mod Vm
pub mod Binding
pub mod VarsFrom
pub mod Caches
pub mod Connections
pub mod Migrate
pub mod Engine
mod Tests
