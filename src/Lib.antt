-- ===== src/Lib.antt =====
-- DeviceNetwork (apis/v1alpha1, pkg, cmd): a Kubernetes driver that publishes the network devices of a
-- node, resolves the devices that the scheduler allocates, prepares claims for the kubelet, and
-- configures the devices in the network namespace of a pod.
--
-- The parts, and the modules that model them.
--   Api (apis/v1alpha1/types.go, attributes.go, helpers.go): the resource DeviceNetwork and its parts.
--   Kubernetes: the fields of the Kubernetes API types that the program reads or writes.
--   Workqueue: the rate-limiting queue of client-go, an interface with the laws its users rely on.
--   Host (pkg/host): the devices; Host/Cache (cache.go: syncDevice, buildDevice, Get, List),
--     Host/Cache/Worker (cache.go: processNextWorkItem, pollDevices), Host/Filter (filter.go:
--     EvalDevices), Host/Rdma (rdma.go).
--   Platform: the calls of the system and of packages outside the repository, as one record, with
--     the status data of pkg/status/types.go.
--   Configurators (pkg/configurators): the interface Configurator; Configurators/HostDevice
--     (hostdevice.go), Configurators/Macvlan (macvlan.go), Configurators/Common (common.go: Allocate),
--     Configurators/Random (common.go: generateRandomIP; utils.go: randomName).
--   Cmd (cmd/cmd/run.go): the map of the configurators that all parts are given.
--   Startup (cmd/cmd/run.go: newCmdRun, run; NewResolver, driver.go: Start, Stop,
--     NewDeviceNetworkController): the start of the program, as actions that may fail.
--   Reconciler (pkg/controllers/devicenetwork/reconciler.go): Reconcile, getResources, DeviceName.
--   Controller (pkg/controllers/devicenetwork/devicenetwork.go): onEvent, processNextWorkItem, and the
--     runs of handlers and worker, as a step relation.
--   Resolver (pkg/resolver/resolver.go): GetDevice and its index; Resolver/Sound.
--   Store (pkg/store/memory.go): the claims of each pod.
--   Driver (pkg/driver/driver.go): PrepareResourceClaims, nodePrepareResource, allocateDevice.
--   Nri (pkg/nri/plugin.go) and Nri/Process (pkg/nri/process.go): RunPodSandbox, StartContainer,
--     RemovePodSandbox and the goroutine of a pod.
--   Delivery: a deployment of the reconciler, the resolver, the driver and the plugin of one node.
--   Validation (pkg/validation/helpers.go), Validation/Kubernetes (pkg/validation/kubernetes.go),
--     Validation/Network (apis/v1alpha1/validation/validation.go).
--   Prelude: the helpers that the modules share. Examples: concrete data for the theorems.
--
-- How they interact. The start builds the parts over shared informers and launches them. Changes of
-- DeviceNetworks and of devices are queued for the controller, which has the reconciler run. The
-- reconciler lists the device cache and asks the configurators, and publishes devices with attributes;
-- the resolver reads the attributes back, and asks the same cache; the driver asks the resolver and a
-- configurator, and stores the claim with its status; the NRI plugin takes the claims of a pod from
-- the store and has a goroutine configure them.
--
-- How the code is modelled. A pointer is an Option, and a dereference of nil is the outcome `panic`.
-- A map is an association list. A call of the system is recorded in a history, and its outcome may
-- depend on the whole history before it. Code outside the repository (netlink, netns, ghw, cel-go,
-- encoding/json, the Kubernetes client, listers and label validators) is a parameter; what a theorem
-- needs of it is among its hypotheses. The order in which Go walks a map or a set is a parameter.
-- An error keeps the outer text of its message alone. Interface indices are natural numbers.
--
-- Bounds and fuel. Bytes are below 256. The search for a random address is bounded by the field
-- `rounds` of the platform; a search that uses it up has the outcome `unfinished`, which is neither a
-- value nor an error. No other function is on fuel.
--
-- A queue is any that has the laws of Workqueue; each of the two has one worker, as in run.go.
--
-- Not modelled: what each goroutine does before its worker starts (the waits for the informers' caches)
-- and after its end (the shutdown of the queues), the command line library, the informers' internals,
-- PublishResources and HandleError of the driver, which only pass on, the generated code, and logging.
pub mod Prelude
pub mod Kubernetes
pub mod Api
pub mod Host
pub mod Platform
pub mod Configurators
pub mod Cmd
pub mod Startup
pub mod Delivery
pub mod Resolver
pub mod Reconciler
pub mod Store
pub mod Workqueue
pub mod Controller
pub mod Driver
pub mod Nri
pub mod Validation
pub mod Examples
