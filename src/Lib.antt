-- ===== src/Lib.antt =====
-- Cillion: a Kubernetes controller and an eBPF loader that join clusters over SCION paths.
--
-- A policy (ScionPathPolicy) asks for paths to every peer cluster (ScionClusterPeer). The
-- controller asks the SCION control service for a path for each peer and stores it as a
-- ScionComputedPath. On a node, the loader puts two eBPF programs into the kernel, on the egress of
-- an interface and on the ingress, and fills the maps by which they pick the path of a packet.
--
--   * Api: api/v1alpha1/*_types.go, the three custom resources. Api.Registration:
--     groupversion_info.go and `init` of those files, on a `Library` that stands for package
--     scheme.
--   * DeepCopy: api/v1alpha1/zz_generated.deepcopy.go, on a memory of numbered cells.
--     DeepCopy.Memory has the structs with their pointers, DeepCopy.Copies each DeepCopyInto,
--     DeepCopy.Objects each DeepCopy and DeepCopyObject. DeepCopy.Shape says what a deep copy is.
--   * Platform: what the controller calls and the repository does not hold: the API server,
--     controller-runtime and apimachinery. `Platform` has the calls, `View` what an observer reads
--     of the server, and `IsLawful` the documented behaviour that theorems rely on.
--   * Policy: `Reconcile` of internal/controller/scionpathpolicy_controller.go as `reconcile`. The
--     body is cut at its comments: `reconcile_deleted`, `add_finalizer`, `compute_paths` with
--     `compute_path` for a round of the loop, `finish`. Policy.Keeps has the rules for what a call
--     leaves as it was, which Policy.Provenance and Policy.Ownership use for all the steps.
--     Policy.Exec has the early returns: what was written before one stays written, and a
--     dereference of nil panics.
--   * Watches: `SetupWithManager` of the same file, as the requests that an event puts into the
--     queue.
--   * Controllers: internal/controller/scionclusterpeer_controller.go and
--     scioncomputedpath_controller.go, and the three controllers of the manager side by side.
--   * Access: the +kubebuilder:rbac markers of the three controllers and config/rbac/role.yaml.
--     Access.Server has an API server that enforces a role, by the documented behaviour of RBAC.
--   * Bpf.Key: pkg/bpf/types.go, `IPToKey` and `IPFromKey`, for either byte order.
--   * Bpf.Entry: `ScionPathEntry` of pkg/bpf/types.go and the struct of bpf/maps.h as bytes in
--     memory.
--   * Bpf.Kernel and Bpf.Contract: the kernel behind the packages ebpf, link and netlink, and the
--     laws of its calls.
--   * Bpf.Objects: pkg/bpf/tc_egress_bpfel.go and xdp_ingress_bpfel.go.
--   * Bpf.Loader: pkg/bpf/loader.go, one function per method of `Loader`. Bpf.Loader.Session is a
--     run of them in any order.
--   * Startup: cmd/main.go. Startup.Flags has the flags, Startup.CommandLine the split of the
--     command line into them as package flag does it, Startup.Servers the options made of them, and
--     Startup.Run the steps of `init` and `main`. `Runtime` is controller-runtime as main calls it.
--   * Utils: test/utils/utils.go, with strings.Index, strings.Split and bufio.Scanner as functions
--     on bytes. Utils.Commands has the helpers that run commands, on a `Host`. A scanner holds
--     lines of up to 65535 bytes.
--   * Dataplane: bpf/, the two programs on the bytes of a packet. Dataplane.Packet has the reads
--     and the sizes of the headers, for a little-endian target; Dataplane.Packet.Logic is a Hoare
--     logic in which a read outside the packet satisfies nothing. Dataplane.Ingress is
--     xdp_ingress.c with scion_mac.h, Dataplane.Egress is tc_egress.c up to `bpf_skb_adjust_room`,
--     as `choose_path`; Egress.Headers has `tc_egress`, with the room as the kernel opens it and
--     the outer headers, where `skb->len` counts the bytes of the packet and those outside it.
--     Ingress.Delivery starts from the bytes of a packet, and Ingress.Loaded and Egress.Delivery
--     run them on the maps that the loader fills.
--   * Base: the names of the libraries in use, equality tests, lists and decimals.
--   * Tests: a small API server and a small kernel, which show that the laws can hold, runs of the
--     code there, and the theorems at concrete inputs.
--
-- The larger modules have child modules, named for what they prove.
--
-- A Go pointer or interface that may be nil is an Option. A string is a String, in Utils the list
-- of its bytes; a byte is a number below 256, a uint32 a number below 2 ^ 32. Every loop of the
-- code runs over a finite list and is structural recursion. Fuel is spent in Base.Decimal alone:
-- the digits of n get suc n units, and `value-digits` shows that they are enough. A call of the API
-- server is atomic. In Policy.Interference others write to it between the calls of one `Reconcile`,
-- where a platform is made of another and of what they do. Policy.Retries has a `Reconcile` that is
-- called again. Where a theorem needs that the server takes writes, it says so of the writes that
-- the call in question makes (`CallTaken` in Policy.Success), which SetControllerReference and
-- conflicts may refuse.
--
-- Not modelled: the fifth step of `write_scion_headers` in tc_egress.c, which does not compile;
-- tests; deployment files other than that role; logging.

pub mod Base
pub mod Api
pub mod DeepCopy
pub mod Platform
pub mod Policy
pub mod Watches
pub mod Controllers
pub mod Access
pub mod Startup
pub mod Bpf
pub mod Dataplane
pub mod Utils
mod Tests
