-- ===== src/Lib.antt =====
-- Sentinel5G: the decision path of the operator, from an observed packet to a block in the kernel.
--
-- The program. An XDP program counts packets and hands records to the operator. Two deterministic
-- detectors (pkg/detect) turn GTP-U traffic into threat scores, as does an AI engine outside the
-- operator. The threat score watcher (pkg/controller/threat_score_watcher.go) applies each score to
-- the policies that select the Pod: it writes the intent into the policy's status, then blocks in
-- the kernel and quarantines in the mesh. The policy reconciler lifts a mitigation after a quiet
-- time, or when the policy is deleted; the blocklist reconciler compares the kernel with all the
-- statuses and corrects it. Their shared guards are the kill switch and the reactor limiter, and
-- their shared state is the policy index and the Pod address index.
--
-- The files, each with the part of the repository it models:
--   Prelude         Go's maps as association lists (Map), a ring of keys beside a map with
--                   first-in-first-out eviction (Fifo), signed differences of times (Int), lists,
--                   Boolean tests, strings as lists of bytes
--   Events          pkg/events/types.go
--   Detect          pkg/detect: TunnelFlood is gtpu_flood.go, SourceFlood is gtpu_source_flood.go;
--                   claim, fold, observe and evaluate follow the methods of those names
--   Ebpf, Mesh      the interfaces BlocklistUpdater (pkg/ebpf/blocklist.go) and Adapter
--                   (pkg/mesh/adapter.go), as records of functions on an abstract state
--   Ebpf.Loader     the keys and the enforcement calls of pkg/ebpf/loader_linux.go and blocklist.go
--   Ebpf.Signals    the decoders of the ring buffers, in loader_linux.go
--   Ebpf.Inspector  the reads of inspect_linux.go
--   Mesh.Adapters   pkg/mesh: the adapters of Istio, Cilium and Linkerd; Client is adapter.go's use
--                   of the API server
--   Ingestion       pkg/ingestion: FromSignalingEvent, and Publisher as a loop over its inputs
--   Bus             pkg/events/nats.go (Delivery is the callback of a subscription) and connector.go
--   Capture         pkg/hubble/flow.go (Flow), pkg/falco/alert.go and bridge.go (Alert)
--   Config          pkg/config/config.go; Operator is what cmd/operator/main.go makes of it
--   Controller.Api             api/v1alpha1/telecomsecuritypolicy_types.go
--   Controller.PodIpIndex      pkg/controller/pod_ip_index.go and pod_ip_indexer.go
--   Controller.PolicyIndex     pkg/controller/policy_index.go
--   Controller.KillSwitch      pkg/controller/killswitch.go
--   Controller.Scoring         pkg/controller/scoring_pipeline.go
--   Controller.Limiter         pkg/controller/reactor_limiter.go
--   Controller.Tunnels         formatTunnel and parseTunnel of threat_score_watcher.go
--   Controller.Watcher         pkg/controller/threat_score_watcher.go; Apply is applyPolicy,
--                              Handle is Start, warmIndex and handle
--   Controller.Drift           pkg/controller/blocklist_reconciler.go; `correct` is Sync's two loops
--                              of one family, `sync` the whole pass
--   Controller.Reconciler      pkg/controller/telecomsecuritypolicy_controller.go; Lift is
--                              tryDeEscalate and finalize, Handle is Reconcile
--   Controller.Metrics         SetPolicyPhase and ForgetPolicyMetrics of pkg/controller/metrics.go
--   Tests                      the same definitions at concrete inputs
--
-- State is passed explicitly: a method is a function from the receiver's record to a new one and
-- its results. A method that holds a mutex is one step. Times are nanoseconds as natural numbers;
-- durations, which may be negative, are integers. The uint32 counter of packets wraps; TEIDs and
-- other fields are natural numbers, with a bound as a hypothesis where it matters. Loops are
-- structural recursion, so that nothing runs on fuel but the eight digits of a printed TEID, which
-- hold every uint32. Writes to the API server, the kernel and the mesh take their outcome from an
-- input or from the interface, so that every error branch is there.
--
-- Parameters, since they are not the repository's code: float64 (Floats), net.ParseIP and
-- IP.String (Addresses), the token bucket (Buckets), apimachinery's conditions and
-- controller-runtime's finalizers (Library), the kernel's maps and the mesh. Where a theorem needs
-- something of the kernel it is named: Controller.Drift.Half.Lawful, Controller.Drift.Whole.Inspected,
-- Controller.Reconciler.Release.Releasing and Controller.Reconciler.OverLoader.MapLaws say
-- that a call that succeeds has its effect and that other entries are left alone.
--
-- The parsers of settings (Parsers), JSON and the numbers in it, NATS (JetStream) and the API server
-- under the mesh adapters (Client) and Prometheus's vectors (GaugeVec, CounterVec) are parameters too.
-- Controller.Metrics.GaugeLaws says that a gauge is read back as it was set. Mesh.Client.ClientLaws and
-- Controller.Watcher.Claims.Blocking say of the API server and of the kernel that a call that succeeds
-- has its effect, and that no call touches anything else.
--
-- Not modelled: the gauges of pkg/ebpf's inspector, the readers of the ring buffers, the observer of Hubble,
-- the redelivery of messages by NATS, and the start-up of the binaries but for the settings they pass
-- on; logs, the other gauges and Kubernetes events, which nothing reads back; the XDP program in C and the AI
-- engine in Python.
pub mod Prelude
pub mod Events
pub mod Detect
pub mod Ebpf
pub mod Mesh
pub mod Controller
pub mod Config
pub mod Bus
pub mod Operator
pub mod Ingestion
pub mod Capture
pub mod Tests
