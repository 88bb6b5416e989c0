-- ===== src/Capture/Flow.antt =====
-- pkg/hubble/flow.go: a flow of Cilium's Hubble as an event. The getters of the generated code read
-- a missing message as an empty one.
use sentinel5g.Prelude.{ℕ, ◌==◌, false, Option, none, some, Text, if◌then◌else◌}
use sentinel5g.Events.{Protocol, gtpu, sip, NormalizedEvent}

-- flowpb.Flow, as far as FromFlow reads it: the UDP destination port if the flow is UDP, its time if
-- it has one, and the names.
pub record Flow : Type 0 where
  pub udp_destination_port : Option ℕ
  pub time : Option ℕ
  pub source_namespace : Text
  pub source_pod_name : Text
  pub node_name : Text
  pub ip_source : Text
  pub ip_destination : Text

abbrev pub gtpu_port : ℕ
gtpu_port = 2152

abbrev pub sip_port : ℕ
sip_port = 5060

-- classifyPort
unfoldable pub classify_port : ℕ → Option (ℕ × Protocol)
classify_port raw_port =
    if raw_port == gtpu_port
    then some (gtpu_port, gtpu)
    else if raw_port == sip_port
    then some (sip_port, sip)
    else none

unfoldable pub time_or : ℕ → Option ℕ → ℕ
time_or now none = now
time_or now (some t) = t

unfoldable pub flow_event : ℕ → Text → Flow → ℕ × Protocol → NormalizedEvent
flow_event now event_id f (dest_port, protocol) = record {
  event_id = event_id;
  observed_at = time_or now f.time;
  namespace = f.source_namespace;
  pod_name = f.source_pod_name;
  node_name = f.node_name;
  source_ip = f.ip_source;
  dest_ip = f.ip_destination;
  dest_port = dest_port;
  protocol = protocol;
  payload_size = 0;
  rate_per_second = 0;
  malformed = false;
  vlan_id = 0;
  teid = 0;
  tunnel_rate_per_second = 0;
}

-- FromFlow, at a time and with the identifier that uuid.NewString gives.
unfoldable pub from_flow : ℕ → Text → Flow → Option NormalizedEvent
from_flow now event_id f = elim f.udp_destination_port [
  | none ↦ none
  | some port ↦ elim (classify_port port) [
    | none ↦ none
    | some classified ↦ some (flow_event now event_id f classified)
  ]
]
