-- ===== src/Lib.antt =====
-- The Cluster API infrastructure provider for WX-ONE: two controllers that make Kubernetes objects
-- (WXOneCluster, WXOneMachine) real at WX-ONE, the login and the GraphQL client that they use, the
-- conversion of cloud-init user data, the admission webhooks of the four kinds, the generated deep
-- copies, and the start of the manager.
--
-- The parts, their files here and in the repository:
--   Api         the objects: api/v1beta1/wxone*_types.go; Api/Upstream has the fields that the
--               controllers read of the Cluster API's objects, Api/Equality reflect.DeepEqual
--   Graphql     internal/controller/generated.go: inputs, answers, and one function for each of the
--               fifteen operations that the controllers call (Operations) and for the six that
--               nothing calls (Further); the generated decoders and encoders of the interface of
--               attachments (Attachments), over a record of what encoding/json does (Decoding), and
--               their round trips (Roundtrip)
--   Clients     internal/controller/clients.go: NewWXOneClients
--   Cluster     internal/controller/wxonecluster_controller.go: Stages has one function for each
--               part of reconcileNormal and reconcileDelete, Reconciler composes them
--   CloudInit   cloudInitYAMLToJSON and addPersistentLoAddressToCloudInit of
--               internal/controller/wxonemachine_controller.go
--   Machine     the rest of that file: Stages (reconcileNormal's parts), Removal (reconcileDelete),
--               Reconciler (Reconcile and WXOneClusterToWXOneMachines); Walk goes through
--               reconcileNormal once for every condition that its writes keep
--   Webhook     internal/webhook/v1beta1: Default and the three validators of each kind
--   Memory      api/v1beta1/zz_generated.deepcopy.go (Copying, DeepCopyInto, DeepCopy) over a heap
--               of cells (Heap, Layout, Contents, Slots), and ValidateUpdate on objects in memory
--               (Admission); Separation and the files after it prove what a copy shares
--   Manager     cmd/main.go: Run has main as a sequence of calls that may fail, Start and Tls what
--               it does
--   Base        names and helpers that all share; Go's maps as association lists
--   Effects     what a controller does to the outside
--   Tests       concrete objects and servers, runs, and the theorems at concrete inputs
--
-- State and effects. A controller keeps no state between two reconciles; what it reads is the
-- object that the API server holds. A function that makes calls is an action (Effects/Action): it
-- takes the trace of all calls so far, and returns an outcome (a value, an error or a panic) and
-- the longer trace, newest event first. Everything outside is one record, Env (Effects/Outside):
-- the API server, WX-ONE, HTTP, and the encoders. A reply may depend on the whole trace, so a
-- statement about every Env covers servers that change their mind, lose requests, or are written
-- by others between two calls. Go's writes through a pointer to the reconciled object become an
-- object that each part takes and returns; sharing is a matter of Memory, where an object is a
-- pointer into a heap, and a reading of the heap gives the value that the other parts use. Nil
-- pointers, nil maps and empty slices are explicit, and using one panics as in Go. Effects/Ends
-- gives a postcondition for each way to build an action: one condition for a returned value, one
-- for an error or a panic; Effects/Bounded gives the most calls that an action makes.
--
-- `stored start t` is the object that the API server holds after a trace in which the controller is
-- the object's only writer: a patch that the server accepts replaces it, and a patch that fails is
-- lost. What a patch sends is the whole object, since the patch helper computes a difference to the
-- object before.
--
-- Loops. All are structural recursion: over the images, the addresses, the machines of a list, and
-- the hash rounds, which count down from the number of rounds. No fuel is used.
--
-- Numbers are native naturals. Ports and timestamps are only compared; a requeue time is in
-- seconds. The rounds of the hash come from a float64 by Go's conversion to int, which is a
-- parameter; a bound below 1 gives no extra round, as 0 does.
--
-- Parameters. Outside the repository, and arguments here: the servers and encoders of Env;
-- DeepCopyInto of the metadata types (Memory/DeepCopyInto's Upstream); the decoder of objects in
-- encoding/json (Graphql/Decoding); the calls of controller-runtime and the environment (Host of
-- Manager/Run). What a theorem assumes of them is a named hypothesis, and Tests has functions for
-- which it holds.
--
-- Not modelled: log lines, contexts and time-outs; the parsing of flags; SetupWithManager (a builder
-- of controller-runtime), scheme registration and the empty Hub methods; the getters of generated.go,
-- which are field accesses; bytes that are no UTF-8 in user data, which is a text of code points.
pub mod Base
pub mod Api
pub mod Graphql
pub mod Effects
pub mod Clients
pub mod Cluster
pub mod CloudInit
pub mod Machine
pub mod Memory
pub mod Manager
pub mod Webhook
pub mod Tests
