-- ===== src/Ingestion/EndToEnd.antt =====
-- From a record in the ring buffer to the key of the map that blocks its tunnel: the decoder of
-- pkg/ebpf/loader_linux.go, FromSignalingEvent, the per-tunnel detector and the loader's key.
use sentinel5g.Prelude.{
  ℕ, ◌^◌, ◌<◌, ◌≡◌, ◌≢◌, refl, arith, ap, ◌∙◌, List, ◌++◌, Option, some, Text, length,
}
use sentinel5g.Events.{NormalizedEvent, ThreatScoreEvent, Floats}
use sentinel5g.Ebpf.Interface.{Ip}
use sentinel5g.Ebpf.Loader.{
  to4, le_uint32, le_bytes, ipv4_from_u32, tunnel_map_and_key, tunnel_blocklist, number_key,
}
use sentinel5g.Ebpf.Signals.{SignalingEvent, decode_signaling_event}
use sentinel5g.Ebpf.Signals.Layout.{RawSignalingEvent, raw_bytes, FitsTail, event_of}
use sentinel5g.Ebpf.Signals.Decoding.{le_uint32-le_bytes, decode-raw_bytes}
use sentinel5g.Detect.TunnelFlood.{GtpuFloodDetector, is_flood, claim, tunnel_score}
use sentinel5g.Detect.TunnelFlood
use sentinel5g.Controller.PodIpIndex.{PodIpIndex}
use sentinel5g.Controller.Tunnels.{Addresses}
use sentinel5g.Ingestion.{from_signaling_event}

-- net.IP.String and net.ParseIP on IPv4: the printed address parses to a form of the same one.
abbrev pub PrintsV4 : Addresses → Type 0
PrintsV4 net =
    (ip : Ip)
    → length ip ≡ 4
    → (parsed : Ip) × (net.parse_ip (net.ip_string ip) ≡ some parsed) × (to4 parsed ≡ some ip)

fired_names :
    {F : Type 0} (fl : Floats F) (d : GtpuFloodDetector) (evt : NormalizedEvent) (now : ℕ)
    (s : ThreatScoreEvent F)
    → (TunnelFlood.evaluate fl d evt now).1 ≡ some s
    → (s.source_ip ≡ evt.source_ip) × (s.teid ≡ evt.teid) × (evt.teid ≢ 0)
unfolding TunnelFlood.evaluate is_flood tunnel_score
fired_names fl d evt now s h = ground (arith, h)

ipv4-four : (n : ℕ) → length (ipv4_from_u32 n) ≡ 4
unfolding ipv4_from_u32 le_bytes
ipv4-four n = refl

key_of :
    (ip : Ip) (saddr teid : ℕ)
    → to4 ip ≡ some (ipv4_from_u32 saddr)
    → saddr < 2 ^ 32
    → teid ≢ 0
    → tunnel_map_and_key ip teid ≡ some (tunnel_blocklist, number_key saddr teid)
unfolding tunnel_map_and_key ipv4_from_u32
key_of ip saddr teid h small nonzero =
    let back : le_uint32 (le_bytes 4 saddr) ≡ saddr = le_uint32-le_bytes 4 saddr small in
    ground (arith, h, nonzero, back)

-- A record of an IPv4 packet is laid out as the kernel does it, and a printed IPv4 address parses to
-- itself. If the per-tunnel detector, in any state, reports the event that the record is turned
-- into, then the score's source parses, and the key under which the loader blocks the score's tunnel
-- is the source address and the TEID exactly as they stand in the record.
pub fired-blocks_record :
    {F : Type 0} (fl : Floats F) (net : Addresses)
    → PrintsV4 net
    → (boot : ℕ) (raw : RawSignalingEvent ℕ) (rest : List ℕ) → FitsTail raw
    → raw.saddr < 2 ^ 32
    → raw.daddr < 2 ^ 32
    → (d : GtpuFloodDetector) (event_id node_name : Text) (pods : PodIpIndex)
      (rates : Ip → ℕ → Option ℕ)
    → (now : ℕ) (evt : SignalingEvent) (s : ThreatScoreEvent F)
    → decode_signaling_event boot (raw_bytes raw ++ rest) ≡ some evt
    → (TunnelFlood.evaluate fl d (from_signaling_event net event_id evt pods rates node_name) now).1
      ≡ some s
    → (ip : Ip) × (net.parse_ip s.source_ip ≡ some ip)
      × (tunnel_map_and_key ip s.teid ≡ some (tunnel_blocklist, number_key raw.saddr raw.teid))
unfolding from_signaling_event
fired-blocks_record fl net prints boot raw rest fits src dst d event_id node_name pods rates now evt
      s decodes fires =
    let is : evt ≡ event_of ipv4_from_u32 boot raw =
      ground (arith, decodes, decode-raw_bytes boot raw rest fits src dst) in
    let (source, tunnel, nonzero) =
      fired_names fl d (from_signaling_event net event_id evt pods rates node_name) now s fires in
    let (ip, parses, v4) = prints (ipv4_from_u32 raw.saddr) (ipv4-four raw.saddr) in
    let same_source = ap (λ (e : SignalingEvent). net.ip_string e.source_ip) is in
    let same_tunnel : s.teid ≡ raw.teid = tunnel ∙ ap (λ (e : SignalingEvent). e.teid) is in
    let nonzero' : raw.teid ≢ 0 = λ z. nonzero (ap (λ (e : SignalingEvent). e.teid) is ∙ z) in
    (
      ip,
      ap net.parse_ip (source ∙ same_source) ∙ parses,
      ap (tunnel_map_and_key ip) same_tunnel ∙ key_of ip raw.saddr raw.teid v4 src nonzero',
    )
