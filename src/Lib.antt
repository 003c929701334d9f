-- ===== src/Lib.antt =====
-- The core of quotascale-controller, a Kubernetes controller that sizes namespace quotas by their use
-- and, when pods do not fit, the set of worker nodes.
--
-- The program has two controllers. The quota controller (internal/quota) watches quotas, scalers and
-- events, computes the quota that a namespace should have, and passes changes to the resize handler
-- (internal/resize). When the demand does not fit the workers it asks the node scaling controller
-- (internal/nodescaling) for a scale-out. That one keeps an inventory of scaling nodes in a custom
-- resource, activates prepared spares, writes the replicas of a MachineDeployment to a Git repository,
-- and gives nodes back after draining them.
--
-- Files and what they model:
--   Inventory             internal/nodescaling/inventory.go, the pure part (BuildNodeScalingInventorySpec,
--                         FindUnusedInventoryNodes, ...), and the data of the custom resource
--   Inventory/Store       the store of the same file, over a dynamic client
--   NodeScaling           internal/nodescaling/controller.go: fields, settings, request queues
--   NodeScaling/Nodes     marks on nodes; Pods: what blocks a drain; Waiters: the drain itself
--   NodeScaling/ScaleOut  ReconcileScaleOut; ScaleIn: ReconcileScaleIn and the baseline
--   NodeScaling/Capacity  internal/nodescaling/scalein_trigger.go
--   NodeScaling/QuotaTotals  ManagedQuotaLimitTotals of the same file
--   NodeScaling/Run       Run of internal/nodescaling/controller.go, its select loop; Keeping in the
--                         modules beside it: what their operations leave of settings and queues
--   Git                   internal/nodescaling/runtime.go: Config, the edit of the YAML tree (Manifest),
--                         and the clone, its remote and its commits (Repository)
--   ScalerResolver        internal/scalerresolver/resourcequota.go
--   Quota/Scaler          internal/quota/scaler.go; Capacity: capacity.go
--   Quota/PodEvents       internal/quota/pod_events.go: demands; Templates: the objects of the events
--   Quota/Desired         the desired quota of internal/quota/controller.go; Watcher: the watcher's
--                         events and pending scale-outs; Update: UpdateQuotaIfRequired and
--                         waitForWorkerCapacity; Controller: Run, registrations and checks
--   Resize                RunEventHandler of internal/resize/api.go; Calls: what its goroutines call
--   Logging               the levels of pkg/logging/logging.go
--   Resources             pkg/resources/resources.go and the helpers of pkg/utils/utils.go
--   Autoscaler            pkg/scalerclient/apis/quotaautoscaler/v1: types.go, register.go
--   Cluster               the Kubernetes objects, and the client as an interface
--   Prelude               lists, sorting, texts, decimals, int32 and int64, and float64 as far as it is
--                         used
--   Scenarios             runs of the theorems on small inputs
--
-- Names follow the source in snake case. A function that talks to the outside takes the state of all
-- that (`W`) and returns its result with the state that it leaves, also where it fails (`Eff`). The
-- cluster, the dynamic client, quantities, the file system, YAML and go-git are parameters; what is
-- assumed of them stands in records of laws, and Scenarios has a concrete one for each:
-- `StoresObjects` (the inventory's objects), `Serves` and `KeepsNamespaces` (the API server on
-- quotas and scalers), `StoresManifest`, `MovesHead` and `KeepsClone` (files, YAML and the commits
-- of the clone), `Sleeps` (a sleep takes its time). What the scale-out relies on of the runtime,
-- `KeepsManifest`, is proved of the clone's runtime from `KeepsClone` and `StoresManifest` in
-- Git/Repository/Runtime. YAML is only relied on for plain documents (`IsPlain`): the keys of the
-- root and of its `spec` are texts, so no merge, none stands twice, and there are no aliases. Errors
-- are data; a formatted message is its constructor with the values that it shows.
--
-- Integers: int32 and int64 operations wrap (`wrap32`, `wrap64`); times and durations are integers
-- in nanoseconds without a bound, so that the saturation of time.Since after 292 years is left out.
-- A float64 is an integer multiple of a power of two with 53 significant bits, rounded to even,
-- without infinities; its bit count runs on fuel 256, which exceeds the bits of any product or
-- quotient of two int64 that the code forms. The wait for worker capacity polls on fuel, two more
-- than its timeout has nanoseconds, and is proved to end before that runs out. The digits of a
-- number have fuel 20, more than an int64 has digits. All other loops are recursion on lists.
--
-- Goroutines and tickers appear as the steps they take: a tick of a waiter is `waiter_tick`, a
-- resize that runs is an element of `running`, an update that UpdateNs starts is an element of
-- `launched`. Both select loops are step relations, between whose steps the cluster may change. Go
-- ranges over a map in any order: the steps that do take the order. A waiter that is stopped may
-- tick once more and clears its name when it ends: in the run of the node scaling controller a tick
-- takes any name, and a waiter may end at any time. A write to a map from two goroutines at once,
-- which Go would report, is not modelled, and neither is a channel that closes.
--
-- Not modelled: the writing of log lines, kubeconfig, flags and wiring, which are input and output;
-- deployment files; generated code.
pub mod Prelude
pub mod Effects
pub mod Failure
pub mod Inventory
pub mod Cluster
pub mod Resources
pub mod Autoscaler
pub mod ScalerResolver
pub mod NodeScaling
pub mod Git
pub mod Quota
pub mod Resize
pub mod Logging
pub mod Scenarios
