-- ===== src/Tests/Pipeline.antt =====
-- A record of the kernel on its way through the decoder, the publisher and the bus.
use sentinel5g.Prelude.{
  ℕ, ◌+◌, ◌^◌, ◌<◌, ◌≡◌, ◌≢◌, ◌⊎◌, inl, inr, Bool, true, false, List, [], ◌∷◌, ◌++◌, Option, none,
  some, Text, length, refl, arith,
}
use sentinel5g.Prelude.Int.{pos}
use sentinel5g.Events.{ThreatScoreEvent}
use sentinel5g.Ebpf.Interface.{Ip, BlockedTunnel}
use sentinel5g.Ebpf.Loader.{
  MapName, MapKey, to4, tunnel_map_and_key, tunnel_blocklist, number_key, ipv4_from_u32,
}
use sentinel5g.Ebpf.Inspector.{Iterator, Among, blocked_tunnels-finds}
use sentinel5g.Ebpf.Signals.{SignalingEvent}
use sentinel5g.Ebpf.Signals.Layout.{RawSignalingEvent, event_of}
use sentinel5g.Ebpf.Signals.Decoding.{
  ipv6_record, bytes_of, decoded, meaning, decode-raw_bytes, decoded-bytes_of,
}
use sentinel5g.Detect.TunnelFlood.{GtpuFloodDetector, new_detector, tunnel_score}
use sentinel5g.Controller.KillSwitch
use sentinel5g.Controller.Watcher.Handle.{failed}
use sentinel5g.Ingestion.{from_signaling_event}
use sentinel5g.Ingestion.Publisher.{
  Settings, Publisher, Arrival, Input, arrives, tick, batch_cap, run,
}
use sentinel5g.Ingestion.Batches.{arrived, IsBuffered, run_keeps_events}
use sentinel5g.Ingestion.Messages.{events_of, scores_of, Within}
use sentinel5g.Ingestion.Detections.{detected, scores_of-run}
use sentinel5g.Ingestion.EndToEnd.{PrintsV4, fired-blocks_record}
use sentinel5g.Bus.Delivery.{ack, SameEffects, on_message, unacknowledged-SameEffects}
use sentinel5g.Bus.Connector.{
  Attempt, new_connector, connects, failures, capped_waits, run_connector, run_connector-connects,
}
use sentinel5g.Tests.Fixtures.{hundredths, plain_addresses, source_b, score_of}
use sentinel5g.Tests.Agreement.{watcher, one_policy}

-- A GTP-U packet from 10.0.0.1 in tunnel 7, the 2000th of its window.
abbrev flood_record : {A : Type 0} → A → A → RawSignalingEvent A
flood_record saddr daddr = record {
  timestamp_ns = 5;
  saddr = saddr;
  daddr = daddr;
  dest_port = 2152;
  payload_size = 64;
  protocol = 1;
  malformed = 0;
  vlan_id = 0;
  teid = 7;
  tunnel_rate = 2000;
}

abbrev six : Ip
six = 32 ∷ 1 ∷ 0 ∷ 0 ∷ 0 ∷ 0 ∷ 0 ∷ 0 ∷ 0 ∷ 0 ∷ 0 ∷ 0 ∷ 0 ∷ 0 ∷ 0 ∷ 9 ∷ []

decoded-bytes_of_example :
    decoded
      (ipv6_record (flood_record six six))
      100
      (bytes_of (ipv6_record (flood_record six six)) ++ 3 ∷ [])
    ≡ some (meaning 100 (ipv6_record (flood_record six six)))
decoded-bytes_of_example = decoded-bytes_of 100 (ipv6_record (flood_record six six)) (3 ∷ []) (
  (
    omega arith,
    omega arith,
    omega arith,
    omega arith,
    omega arith,
    omega arith,
    omega arith,
    omega arith,
  ),
  refl,
  refl,
)

abbrev raw : RawSignalingEvent ℕ
raw = flood_record 16777226 33554442

abbrev observed : SignalingEvent
observed = event_of ipv4_from_u32 100 raw

abbrev detector : GtpuFloodDetector
detector = new_detector (record {
  enabled = true;
  packets_per_second = 1000;
  cooldown = pos 10;
  max_tracked_tunnels = pos 0;
})

plain_prints : PrintsV4 plain_addresses
plain_prints [] h = absurd (omega (arith, h))
plain_prints (a ∷ b ∷ c ∷ d ∷ []) h = (a ∷ b ∷ c ∷ d ∷ [], refl, unfold to4 in refl)
plain_prints (a ∷ []) h = absurd (omega (arith, h))
plain_prints (a ∷ b ∷ []) h = absurd (omega (arith, h))
plain_prints (a ∷ b ∷ c ∷ []) h = absurd (omega (arith, h))
plain_prints (a ∷ b ∷ c ∷ d ∷ e ∷ rest) h = absurd (omega (arith, h))

abbrev fired : ThreatScoreEvent ℕ
fired =
    tunnel_score hundredths
      (from_signaling_event plain_addresses [] observed (record { by_ip = []; by_pod = [] })
        (λ ip port. none) [])
      9

fired-blocks_record_example :
    (ip : Ip) × (plain_addresses.parse_ip fired.source_ip ≡ some ip)
    × (tunnel_map_and_key ip fired.teid ≡ some (tunnel_blocklist, number_key raw.saddr raw.teid))
unfolding sentinel5g.Detect.TunnelFlood.evaluate new_detector sentinel5g.Events.protocol_discrete
    from_signaling_event sentinel5g.Ingestion.protocol_from_signal sentinel5g.Prelude.Map.find
    sentinel5g.Prelude.Fifo.empty
fired-blocks_record_example =
    fired-blocks_record hundredths plain_addresses plain_prints 100 raw []
      (
        omega arith,
        omega arith,
        omega arith,
        omega arith,
        omega arith,
        omega arith,
        omega arith,
        omega arith,
      )
      (omega arith) (omega arith) detector [] [] (record { by_ip = []; by_pod = [] })
      (λ ip port. none) 9 observed fired
      (decode-raw_bytes 100 raw []
        (
          omega arith,
          omega arith,
          omega arith,
          omega arith,
          omega arith,
          omega arith,
          omega arith,
          omega arith,
        )
        (omega arith) (omega arith))
      refl

abbrev arrival : Arrival
arrival = record {
  event = observed;
  connected = true;
  connected_at_flush = true;
  now = 9;
  event_id = [];
  pods = record { by_ip = []; by_pod = [] };
  rate_lookup = λ ip port. none;
}

abbrev publisher : Publisher
publisher = record { tunnel_flood = some detector; source_flood = none; batch = [] }

abbrev batches_of_two : Settings
batches_of_two = record { node_name = []; batch_size = pos 2 }

abbrev inputs : List Input
inputs = arrives arrival ∷ arrives arrival ∷ arrives arrival ∷ tick true ∷ arrives arrival ∷ []

run_keeps_events_example :
    (events_of (run hundredths plain_addresses batches_of_two inputs publisher).1
        ++ (run hundredths plain_addresses batches_of_two inputs publisher).0.batch
      ≡ arrived hundredths plain_addresses batches_of_two inputs)
    × IsBuffered batches_of_two (run hundredths plain_addresses batches_of_two inputs publisher).0
    × Within
        (batch_cap batches_of_two)
        (run hundredths plain_addresses batches_of_two inputs publisher).1
run_keeps_events_example =
    run_keeps_events hundredths plain_addresses batches_of_two inputs publisher refl
      (refl, refl, (refl, refl, (refl, refl, (refl, (refl, refl, tt)))))

scores_of-run_example :
    scores_of (run hundredths plain_addresses batches_of_two inputs publisher).1
    ≡ detected hundredths plain_addresses batches_of_two inputs publisher.tunnel_flood
        publisher.source_flood
scores_of-run_example = scores_of-run hundredths plain_addresses batches_of_two inputs publisher

unacknowledged-SameEffects_example :
    ((on_message watcher
        (λ payload. some (score_of source_b 6 100))
        (λ i. record {
          now = 9;
          kill_now = 9;
          kill_after = 9;
          kill_reply = KillSwitch.failed;
          accepts = true;
        })
        9
        failed
        []
        one_policy).1
      ≡ ack)
    ⊎ SameEffects one_policy
        (on_message watcher
          (λ payload. some (score_of source_b 6 100))
          (λ i. record {
            now = 9;
            kill_now = 9;
            kill_after = 9;
            kill_reply = KillSwitch.failed;
            accepts = true;
          })
          9
          failed
          []
          one_policy).0
unacknowledged-SameEffects_example =
    unacknowledged-SameEffects watcher (λ payload. some (score_of source_b 6 100))
      (λ i. record {
        now = 9;
        kill_now = 9;
        kill_after = 9;
        kill_reply = KillSwitch.failed;
        accepts = true;
      })
      9 failed [] one_policy

abbrev reached : List (Attempt ℕ)
reached = failures 6 ++ connects 4 ∷ []

run_connector-connects_example :
    run_connector reached new_connector ≡ (record { bus = some 4 }, capped_waits 0 6)
run_connector-connects_example = run_connector-connects 6 4 [] new_connector

-- A kernel with one blocked tunnel, as the keys of its IPv4 map.
abbrev walk : Iterator (List MapKey)
walk = record { keys = keys_of }
  where
    keys_of : MapName → List MapKey → Option (List MapKey)
    keys_of tunnel_blocklist k = some k
    keys_of _ k = some []

abbrev tunnel_key : MapKey
tunnel_key = number_key 16777226 7

blocked_tunnels-finds_example :
    (t : BlockedTunnel) × Among t (record { ip = 10 ∷ 0 ∷ 0 ∷ 1 ∷ []; teid = 7 } ∷ [])
    × (tunnel_map_and_key t.ip t.teid ≡ some (tunnel_blocklist, tunnel_key))
unfolding tunnel_map_and_key to4 sentinel5g.Ebpf.Loader.le_uint32
    sentinel5g.Ebpf.Inspector.blocked_tunnels sentinel5g.Ebpf.Inspector.read_both
    sentinel5g.Ebpf.Inspector.read_all sentinel5g.Ebpf.Inspector.read_tunnel ipv4_from_u32
    sentinel5g.Ebpf.Loader.le_bytes
blocked_tunnels-finds_example =
    blocked_tunnels-finds walk (tunnel_key ∷ []) (10 ∷ 0 ∷ 0 ∷ 1 ∷ []) 7 tunnel_blocklist tunnel_key
      (tunnel_key ∷ []) (record { ip = 10 ∷ 0 ∷ 0 ∷ 1 ∷ []; teid = 7 } ∷ [])
      (omega arith, (omega arith, (omega arith, (omega arith, tt)))) refl refl (inl refl) refl
