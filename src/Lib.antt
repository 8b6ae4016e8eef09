-- ===== src/Lib.antt =====
-- A model of the fail-closed core of Waycloak, which routes the traffic of enrolled Kubernetes
-- Pods through VPN gateways, and theorems on it.
--
-- The parts and how they interact. A container runtime calls the CNI plugin for each Pod. The
-- plugin asks the node agent whether the Pod is enrolled, installs a deny-first policy in its
-- network namespace, waits for an address and has the path programmed. The node agent answers by
-- the Pod's label and the conditions of the route, and programs the path through the data plane.
-- Controllers reserve the Pod's address and, for a forwarded port, a port of the provider. The
-- gateway runtime keeps the forwarding rules of the leases. A node is open to protected Pods while
-- its labels say so.
--
-- The files, and what of the repository they are about:
--   Prelude    numbers, lists, int64 values as ℤ, string maps as association lists;
--   Exec       Go methods as actions on a state that return a value or an error; a call on an
--              interface is performed on a world that belongs to the implementation and is logged,
--              newest first, with its answer. Exec/Triple has the rules for pre- and postconditions;
--   Cni        internal/cni: Types is types.go, Calls its interfaces, Plugin is ADD of plugin.go
--              (add is Add, retry_value is retryValue), Removal is Check, Delete, GC and Status;
--   PortForward  internal/portforward: Intent and States hold the messages and states of runtime.go
--              and manager.go, Manager the guards and the rule set, Reconcile and Withdraw the two
--              methods, Exact the tests on observations of runtime.go and
--              Lease its IntentFor and WithdrawalFor, Reservations is allocation.go
--              (reserve_port is Reserve); Backend, Resolver and Resolution are resolver.go (resolve is
--              Resolve, select is Select);
--   Binding    internal/binding/allocation.go: Leases has the reservations, Allocator the methods,
--              Overlay ParseOverlayCIDR and ReservationForBinding;
--   Dataplane  internal/dataplane/dataplane.go: Validate, Prepare, Verify, Repair and Cleanup;
--   Scheduling internal/scheduling/nodes.go: Apply (apply_report), Withdraw and Stale, and its
--              Controller is controller.go;
--   Enrollment internal/enrollment/resolver.go: Resolve;
--   Conditions internal/conditions/conditions.go: Build, Current and CurrentTrue;
--   Allocation internal/allocation/allocator.go: Next and GatewayAddress;
--   NodeAgent  internal/nodeagent/service.go: Types has the objects and the interfaces, Lookup the
--              reads and the observations, Program is Prepare and Check, Withdraw is Withdraw and
--              LockdownAll, Groups and Reconcile are ReconcileAll (reconcile_group is
--              reconcileAttachmentGroup); Steps runs the methods one after the other;
--   GatewayAgent  internal/gatewaydataplane/service.go: reconcile is Reconcile, round is one round of
--              the loop of Run; Rounds runs the rounds one after the other;
--   Samples    the theorems at concrete inputs.
-- The other files below these prove what their first lines say.
--
-- A world, a clock and every interface is a parameter about which nothing is assumed, so a theorem
-- holds whatever the agent, the kernel, the provider and the Kubernetes API answer. Only
-- FindStatusCondition is assumed to find the first condition of its type, as documented.
--
-- Bounds and fuel. The retry loop of the plugin runs timeout / interval + 1 waits, after which the
-- bounded context has ended; context_done may end it earlier. The loop of the address allocator
-- takes fuel, since the source goes on for as long as reservations vanish between a CREATE and a
-- GET; where none does, one round more than the pool has client addresses is enough. The port loop has 16384 rounds, and
-- the overlay allocator's has one for each address of the prefix, which is enough. A uint32 is
-- reduced modulo 2 ^ 32. Times are nanoseconds from Go's zero time, which is 0 where the source
-- asks IsZero; conversions to UTC change nothing.
--
-- Not modelled: telemetry, the texts that an error prints beyond a constant, locks (each method
-- holds one for its whole run), deep copies, and the overflow of durations (but in Quarantine) and
-- of the int32 lease count. Sorting is an insertion sort. A Go map is iterated in insertion order;
-- the source sorts what it makes of it or does not depend on the order; the node agent's map of
-- groups and the sorted list of its keys are one sorted list. The node agent's Check on a nil
-- Programmer, which panics, is not modelled. Of the gateway agent, the start and the end of Run,
-- its reports of errors and its HTTP handler are left out, and its configuration is only passed
-- on. The node agent's methods run one after the other: the changes of the world between them are
-- steps of their own, those during a call are part of what the world answers.
pub mod Prelude
pub mod Exec
pub mod Cni
pub mod PortForward
pub mod Binding
pub mod Dataplane
pub mod Scheduling
pub mod Enrollment
pub mod Conditions
pub mod Allocation
pub mod NodeAgent
pub mod GatewayAgent
pub mod Samples
