-- ===== src/Ingestion.antt =====
-- pkg/ingestion/ingestion.go: from a record of the kernel to an event of the bus.
pub mod Publisher
pub mod Messages
pub mod Batches
pub mod EndToEnd
pub mod Detections
use sentinel5g.Prelude.{ℕ, ◌==◌, [], Option, none, some, Text, if◌then◌else◌}
use sentinel5g.Events.{Protocol, gtpu, sip, port_scan, unknown, NormalizedEvent}
use sentinel5g.Ebpf.Interface.{Ip}
use sentinel5g.Ebpf.Signals.{
  SignalProtocol, SignalingEvent, signal_proto_gtpu, signal_proto_sip, signal_proto_port_scan,
}
use sentinel5g.Controller.Names.{NamespacedName}
use sentinel5g.Controller.PodIpIndex.{PodIpIndex, lookup_ip}
use sentinel5g.Controller.Tunnels.{Addresses}

-- protocolFromSignal
unfoldable pub protocol_from_signal : SignalProtocol → Protocol
protocol_from_signal p =
    if p == signal_proto_gtpu
    then gtpu
    else if p == signal_proto_sip
    then sip
    else if p == signal_proto_port_scan
    then port_scan
    else unknown

-- The first result of Lookup: an empty reference where there is none.
unfoldable pub ref_or_empty : Option NamespacedName → NamespacedName
ref_or_empty none = record { namespace = []; name = [] }
ref_or_empty (some ref) = ref

unfoldable pub rate_or_zero : Option ℕ → ℕ
rate_or_zero none = 0
rate_or_zero (some count) = count

-- FromSignalingEvent. The identifier is what uuid.NewString gives.
unfoldable pub from_signaling_event :
    Addresses → Text → SignalingEvent → PodIpIndex → (Ip → ℕ → Option ℕ) → Text → NormalizedEvent
from_signaling_event net event_id evt pod_index rate_lookup node_name =
    let ref = ref_or_empty (lookup_ip (net.ip_string evt.source_ip) pod_index) in
    record {
      event_id = event_id;
      observed_at = evt.observed_at;
      namespace = ref.namespace;
      pod_name = ref.name;
      node_name = node_name;
      source_ip = net.ip_string evt.source_ip;
      dest_ip = net.ip_string evt.dest_ip;
      dest_port = evt.dest_port;
      protocol = protocol_from_signal evt.protocol;
      payload_size = evt.payload_size;
      rate_per_second = rate_or_zero (rate_lookup evt.source_ip evt.dest_port);
      malformed = evt.malformed;
      vlan_id = evt.vlan_id;
      teid = evt.teid;
      tunnel_rate_per_second = evt.tunnel_rate;
    }
