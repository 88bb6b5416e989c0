-- ===== src/Ebpf/Signals/Layout.antt =====
-- The layouts rawSignalingEvent and rawSignalingEventV6 of pkg/ebpf/loader_linux.go, and the events
-- that their records stand for.
use sentinel5g.Prelude.{ℕ, ◌^◌, ◌<◌, ◌==◌, not, List, ◌++◌}
use sentinel5g.Ebpf.Interface.{Ip}
use sentinel5g.Ebpf.Loader.{le_bytes}
use sentinel5g.Ebpf.Signals.{SignalingEvent, since_boot}

-- rawSignalingEvent, over its addresses: a uint32, or sixteen bytes.
pub record RawSignalingEvent (A : Type 0) : Type 0 where
  pub timestamp_ns : ℕ
  pub saddr : A
  pub daddr : A
  pub dest_port : ℕ
  pub payload_size : ℕ
  pub protocol : ℕ
  pub malformed : ℕ
  pub vlan_id : ℕ
  pub teid : ℕ
  pub tunnel_rate : ℕ

-- The fields after the addresses, as the struct has them in memory.
unfoldable pub tail_bytes : {A : Type 0} → RawSignalingEvent A → List ℕ
tail_bytes raw =
    le_bytes 2 raw.dest_port
    ++ (le_bytes 2 raw.payload_size
        ++ (le_bytes 1 raw.protocol
            ++ (le_bytes 1 raw.malformed
                ++ (le_bytes 2 raw.vlan_id
                    ++ (le_bytes 4 raw.teid ++ le_bytes 4 raw.tunnel_rate)))))

-- rawSignalingEvent in memory.
unfoldable pub raw_bytes : RawSignalingEvent ℕ → List ℕ
raw_bytes raw =
    le_bytes 8 raw.timestamp_ns
    ++ (le_bytes 4 raw.saddr ++ (le_bytes 4 raw.daddr ++ tail_bytes raw))

-- rawSignalingEventV6 in memory.
unfoldable pub raw_bytes_v6 : RawSignalingEvent Ip → List ℕ
raw_bytes_v6 raw = le_bytes 8 raw.timestamp_ns ++ (raw.saddr ++ (raw.daddr ++ tail_bytes raw))

-- Each field fits its width.
abbrev pub FitsTail : {A : Type 0} → RawSignalingEvent A → Type 0
FitsTail raw =
    (raw.timestamp_ns < 2 ^ 64)
    × (raw.dest_port < 2 ^ 16)
    × (raw.payload_size < 2 ^ 16)
    × (raw.protocol < 2 ^ 8)
    × (raw.malformed < 2 ^ 8)
    × (raw.vlan_id < 2 ^ 16)
    × (raw.teid < 2 ^ 32)
    × (raw.tunnel_rate < 2 ^ 32)

-- The event that a record stands for, with its addresses.
abbrev pub event_of : {A : Type 0} → (A → Ip) → ℕ → RawSignalingEvent A → SignalingEvent
event_of address boot raw = record {
  observed_at = since_boot boot raw.timestamp_ns;
  source_ip = address raw.saddr;
  dest_ip = address raw.daddr;
  dest_port = raw.dest_port;
  payload_size = raw.payload_size;
  protocol = raw.protocol;
  malformed = not (raw.malformed == 0);
  vlan_id = raw.vlan_id;
  teid = raw.teid;
  tunnel_rate = raw.tunnel_rate;
}
