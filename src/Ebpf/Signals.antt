-- ===== src/Ebpf/Signals.antt =====
-- The records of the kernel's two ring buffers (the decoders of pkg/ebpf/loader_linux.go, and
-- SignalingEvent of pkg/ebpf/blocklist.go). A sample is the list of its bytes.
pub mod Layout
pub mod Decoding
use sentinel5g.Prelude.{
  ℕ, suc, zero, ◌+◌, ◌-◌, ◌^◌, ◌==◌, Bool, true, false, not, List, [], ◌∷◌, Option, none, some,
  if◌then◌else◌, ltb, length,
}
use sentinel5g.Ebpf.Interface.{Ip}
use sentinel5g.Ebpf.Loader.{le_uint32, ipv4_from_u32}

-- type SignalProtocol, by its number.
abbrev pub SignalProtocol : Type 0
SignalProtocol = ℕ

abbrev pub signal_proto_gtpu : SignalProtocol
signal_proto_gtpu = 1

abbrev pub signal_proto_sip : SignalProtocol
signal_proto_sip = 2

abbrev pub signal_proto_port_scan : SignalProtocol
signal_proto_port_scan = 3

pub record SignalingEvent : Type 0 where
  pub observed_at : ℕ
  pub source_ip : Ip
  pub dest_ip : Ip
  pub dest_port : ℕ
  pub payload_size : ℕ
  pub protocol : SignalProtocol
  pub malformed : Bool
  pub vlan_id : ℕ
  pub teid : ℕ
  pub tunnel_rate : ℕ

-- sample[i:]
unfoldable pub from : ℕ → List ℕ → List ℕ
from zero bs = bs
from (suc i) [] = []
from (suc i) (b ∷ bs) = from i bs

-- s[:n]
unfoldable pub first : ℕ → List ℕ → List ℕ
first zero bs = []
first (suc n) [] = []
first (suc n) (b ∷ bs) = b ∷ first n bs

-- The little-endian number in the first n bytes from an offset on.
unfoldable pub le_at : ℕ → ℕ → List ℕ → ℕ
le_at n i sample = le_uint32 (first n (from i sample))

-- bootTime.Add(time.Duration(ns)), where the duration is the uint64 as an int64.
unfoldable pub since_boot : ℕ → ℕ → ℕ
since_boot boot ns = if ltb ns (2 ^ 63) then boot + ns else boot - (2 ^ 64 - ns)

-- decodeSignalingEvent
unfoldable pub decode_signaling_event : ℕ → List ℕ → Option SignalingEvent
decode_signaling_event boot sample =
    if ltb (length sample) 32
    then none
    else some (record {
      observed_at = since_boot boot (le_at 8 0 sample);
      source_ip = ipv4_from_u32 (le_at 4 8 sample);
      dest_ip = ipv4_from_u32 (le_at 4 12 sample);
      dest_port = le_at 2 16 sample;
      payload_size = le_at 2 18 sample;
      protocol = le_at 1 20 sample;
      malformed = not (le_at 1 21 sample == 0);
      vlan_id = le_at 2 22 sample;
      teid = le_at 4 24 sample;
      tunnel_rate = le_at 4 28 sample;
    })

-- decodeSignalingEventV6
unfoldable pub decode_signaling_event_v6 : ℕ → List ℕ → Option SignalingEvent
decode_signaling_event_v6 boot sample =
    if ltb (length sample) 56
    then none
    else some (record {
      observed_at = since_boot boot (le_at 8 0 sample);
      source_ip = first 16 (from 8 sample);
      dest_ip = first 16 (from 24 sample);
      dest_port = le_at 2 40 sample;
      payload_size = le_at 2 42 sample;
      protocol = le_at 1 44 sample;
      malformed = not (le_at 1 45 sample == 0);
      vlan_id = le_at 2 46 sample;
      teid = le_at 4 48 sample;
      tunnel_rate = le_at 4 52 sample;
    })
