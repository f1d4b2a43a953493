-- ===== src/Lib.antt =====
-- The OpenShell compute drivers: gRPC services that keep one virtual machine per sandbox, on EC2 or
-- on KubeVirt.
--
-- The parts and how they interact:
--   - pkg/quantity parses the CPU and memory quantities of a sandbox's template (Quantity). Both
--     drivers validate a request with it, and choose an instance type for it from a catalog (Sizing
--     for the choice, Ec2/Catalog and Kubevirt/Catalog for the two files instancetype.go).
--   - pkg/safeguards is the registry that both drivers keep: the records of the sandboxes, the limits
--     on their number and age, and the channels of the watchers (Safeguards). Records has the record,
--     its limits and its redacted copies; Channels the buffered Go channels, with a panic for a send
--     on a closed channel or a second close; Registry has one function for each method of `Registry`.
--     A method runs under the registry's mutex, so it is one step: a function from a registry to a
--     registry and a result. An interleaving of goroutines is a list of calls (Call, step and run of
--     Safeguards/Invariant); Safeguards/Delivery adds the receives of the watchers, on top of
--     Safeguards/Sending for one broadcast. Safeguards/Lookups and Safeguards/Fading say what a
--     method leaves of the other records.
--   - pkg/bootstrap/transport.go is Bootstrap: Config (TransportConfig), Transport (Validate), Load
--     (LoadTransportConfig) and Render (RenderSecurityBlock). Both configurations validate their
--     transport with it, and the data for a machine's first boot, Ec2/UserData for
--     drivers/ec2/userdata.go and Kubevirt/CloudInit for drivers/kubevirt/cloudinit.go, is a template
--     around its block.
--   - Service has what the handlers of both drivers share: the statuses of gRPC, the World (the
--     registry, the cloud's state, the clock), and handlers: functions from a World to a result and a
--     World, which return the new World also when they fail. Service/Actions has the reservations,
--     Service/Rollback the deferred rollback of a creation, Service/Grouping how a poll sorts what a
--     provider lists.
--   - drivers/ec2/driver.go is the EC2 driver: Ec2/Validate (validateSandbox), Ec2/Conditions (the
--     status of a state, providerError), Ec2/Create (ValidateSandboxCreate, CreateSandbox) and
--     Ec2/Resolve (resolve, GetSandbox, ListSandboxes, StopSandbox, DeleteSandbox).
--   - drivers/ec2/watcher.go reconciles the records with what EC2 lists: Ec2/Observe and Ec2/Poll
--     (Initialize and poll), and Ec2/Watcher (StartWatcher). drivers/ec2/config.go is Ec2/Config and, for Validate, Ec2/Settings.
--     drivers/ec2/ec2.go is Ec2/Provider, the interface that the driver calls, and Ec2/Adapter, its
--     implementation over the calls of the AWS SDK.
--   - drivers/kubevirt/driver.go is the KubeVirt driver: Kubevirt/Validate (validateSandbox),
--     Kubevirt/Conditions (the status of a state, providerError), Kubevirt/Create
--     (ValidateSandboxCreate, CreateSandbox) and Kubevirt/Resolve (resolve, markLaunchingDeletion,
--     GetSandbox, ListSandboxes, StopSandbox, DeleteSandbox). Kubevirt/Config and Kubevirt/Settings
--     are config.go, and Kubevirt/Provider has the types of provider.go.
--   - drivers/kubevirt/watcher.go is Kubevirt/Observe (the order of the machines, the one that is
--     kept), Kubevirt/Poll (Initialize and poll), Kubevirt/Sweep (the rounds over the machines that
--     are missing or have expired) and Kubevirt/Watcher (StartWatcher with its backoff).
--   - drivers/kubevirt/kubeapi.go implements that provider over the Kubernetes client:
--     Kubevirt/Objects (names, and the reading of a virtual machine) and Kubevirt/Client (the retries,
--     Terminate, Stop and List).
--   - pkg/server/server.go runs a driver: Server/Options (the defaults of Run), Server/Limit (the
--     interceptor that bounds concurrent unary RPCs, as a step relation on its semaphore and the handlers
--     that run), Server/Listen (listen) and Server/Run (Run, around the service of gRPC).
--   - cmd/openshell-driver-ec2/main.go and cmd/openshell-driver-kubevirt/main.go start the drivers:
--     Commands/Flags (how a setting is read), Commands/DriverEc2 and Commands/DriverKubevirt
--     (loadConfig, which hands its transport to Bootstrap and its configuration to Ec2/Settings or
--     Kubevirt/Settings).
--   - Proto has the structs and getters of gen/computepb/compute_driver.pb.go that these parts use.
--   - Text has the functions of Go's strings and unicode packages that are used on a request's texts.
--
-- Parameters, for code outside the repository: Go's float64, with strconv.ParseFloat (Floats; its
-- order is FloatOrder), sort.Slice on the catalog (Sorter: it sorts and permutes), Go's net/url,
-- crypto/tls, crypto/x509, encoding/pem, base64 and file reads (Library), SHA-256, the texts of
-- durations and times, regexp.MatchString, the EC2 client (Ec2Api), the Kubernetes client
-- (KubeApi), the sockets and files of net and os (System), the serving of gRPC (Service),
-- and the flags and variables of a process (Process). A handler takes the provider of machines as a record of calls (Provider, VmProvider),
-- which may change the World in every way, since other goroutines run while a call waits.
--
-- Choices of the model: a time is the number of nanoseconds since Go's zero time; a message is a
-- value, so a clone of it is itself; a counter of type uint64 wraps at 2 ^ 64 (add_one_uint64), and
-- theorems on leases assume fewer calls than that; a map is an association list, whose order stands
-- for Go's order of iteration. The loops run over lists, but for those that page through a listing
-- until a page has no token: they take fuel, and Kubevirt/Paging says how much is enough.
--
-- Not modelled: of the KubeVirt adapter, Launch with the objects that it builds, creates and verifies,
-- and CheckReady; the goroutines of the gRPC server and its graceful stop; main itself, of both
-- commands; WatchSandboxes' stream beyond the channel that it reads; logging and
-- contexts with their deadlines.
--
-- Tests holds runs at concrete inputs, with whole numbers in place of floats (Tests/Fixtures) and toy
-- libraries in place of the parameters.
pub mod Prelude
pub mod Text
pub mod Quantity
pub mod Proto
pub mod Safeguards
pub mod Sizing
pub mod Service
pub mod Bootstrap
pub mod Ec2
pub mod Kubevirt
pub mod Server
pub mod Commands
mod Tests
