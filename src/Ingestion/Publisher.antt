-- ===== src/Ingestion/Publisher.antt =====
-- The loop of Start and flush (pkg/ingestion/publisher.go). A publish whose failure is only logged
-- is a message that was handed to the bus.
use sentinel5g.Prelude.{
  ℕ, Bool, true, false, List, [], ◌∷◌, ◌++◌, Option, none, some, Text, if◌then◌else◌, leb, length,
}
use sentinel5g.Prelude.Int.{ℤ, pos, negsuc}
use sentinel5g.Events.{NormalizedEvent, ThreatScoreEvent, Floats}
use sentinel5g.Ebpf.Interface.{Ip}
use sentinel5g.Ebpf.Signals.{SignalingEvent}
use sentinel5g.Detect.TunnelFlood.{GtpuFloodDetector}
use sentinel5g.Detect.SourceFlood.{GtpuSourceFloodDetector}
use sentinel5g.Detect.TunnelFlood
use sentinel5g.Detect.SourceFlood
use sentinel5g.Controller.PodIpIndex.{PodIpIndex}
use sentinel5g.Controller.Tunnels.{Addresses}
use sentinel5g.Ingestion.{from_signaling_event}

-- What is handed to the bus: one event, a batch of them, or a score.
pub data Message (F : Type 0) : Type 0 where
  single : NormalizedEvent → Message F
  batched : List NormalizedEvent → Message F
  score : ThreatScoreEvent F → Message F

-- The settings: the node's name and BatchSize, a Go int.
pub record Settings : Type 0 where
  pub node_name : Text
  pub batch_size : ℤ

-- What the loop reads and writes: the two detectors, where they are enabled, and the buffer.
pub record Publisher : Type 0 where
  pub tunnel_flood : Option GtpuFloodDetector
  pub source_flood : Option GtpuSourceFloodDetector
  pub batch : List NormalizedEvent

-- A record of the kernel, with what the loop reads when it comes: whether the bus is connected, and
-- still so at a flush, the time, the identifier, the Pods and the rates.
pub record Arrival : Type 0 where
  pub event : SignalingEvent
  pub connected : Bool
  pub connected_at_flush : Bool
  pub now : ℕ
  pub event_id : Text
  pub pods : PodIpIndex
  pub rate_lookup : Ip → ℕ → Option ℕ

-- The cases of the select, with whether the bus is connected.
pub data Input : Type 0 where
  arrives : Arrival → Input
  tick : Bool → Input
  closed : Bool → Input
  cancelled : Bool → Input

-- batchCap
unfoldable pub batch_cap : Settings → ℕ
batch_cap cfg = elim cfg.batch_size [ pos n ↦ if leb 1 n then n else 1 | negsuc n ↦ 1 ]

unfoldable pub batch_message : {F : Type 0} → List NormalizedEvent → List (Message F)
batch_message [] = []
batch_message (e ∷ es) = batched (e ∷ es) ∷ []

-- flush: the buffer is empty after it, whatever became of the events.
unfoldable pub flush : {F : Type 0} → Bool → Publisher → Publisher × List (Message F)
flush connected p = (record p { batch = [] }, if connected then batch_message p.batch else [])

unfoldable pub score_message : {F : Type 0} → Option (ThreatScoreEvent F) → List (Message F)
score_message none = []
score_message (some s) = score s ∷ []

module _ {F : Type 0} (fl : Floats F) where
  -- evaluateTunnelFlood
  unfoldable pub evaluate_tunnel_flood :
      NormalizedEvent → ℕ → Option GtpuFloodDetector → Option GtpuFloodDetector × List (Message F)
  evaluate_tunnel_flood evt now none = (none, [])
  evaluate_tunnel_flood evt now (some d) =
      let (d', fired) = TunnelFlood.evaluate fl d evt now in (some d', score_message fired)

  -- evaluateSourceFlood
  unfoldable pub evaluate_source_flood :
      NormalizedEvent
      → ℕ
      → Option GtpuSourceFloodDetector
      → Option GtpuSourceFloodDetector × List (Message F)
  evaluate_source_flood evt now none = (none, [])
  evaluate_source_flood evt now (some d) =
      let (d', fired, observed) = SourceFlood.evaluate fl d evt now in
      (some d', score_message fired)

  -- The event in the buffer, which is flushed once it is full, or published on its own.
  unfoldable pub publish_event :
      Settings → Bool → NormalizedEvent → Publisher → Publisher × List (Message F)
  publish_event cfg connected evt p =
      if leb (batch_cap cfg) 1
      then (p, single evt ∷ [])
      else (let p' = record p { batch = p.batch ++ evt ∷ [] } in
          if leb (batch_cap cfg) (length p'.batch) then flush connected p' else (p', []))

  -- One event, on a bus that is connected: the detectors first.
  unfoldable pub handle_event :
      Settings → Bool → NormalizedEvent → ℕ → Publisher → Publisher × List (Message F)
  handle_event cfg connected evt now p =
      let (tunnel, fired) = evaluate_tunnel_flood evt now p.tunnel_flood in
      let (source, fired') = evaluate_source_flood evt now p.source_flood in
      let (p', sent) =
        publish_event cfg connected evt
          (record p { tunnel_flood = tunnel; source_flood = source }) in
      (p', fired ++ (fired' ++ sent))

  unfoldable pub normalized : Addresses → Settings → Arrival → NormalizedEvent
  normalized net cfg a =
      from_signaling_event net a.event_id a.event a.pods a.rate_lookup cfg.node_name

  -- One turn of the loop, and whether there is a next one.
  unfoldable pub turn :
      Addresses → Settings → Input → Publisher → Publisher × List (Message F) × Bool
  turn net cfg (arrives a) p =
      if a.connected
      then (let (p', sent) = handle_event cfg a.connected_at_flush (normalized net cfg a) a.now p in
          (p', sent, true))
      else (p, [], true)
  turn net cfg (tick connected) p = let (p', sent) = flush connected p in (p', sent, true)
  turn net cfg (closed connected) p = let (p', sent) = flush connected p in (p', sent, false)
  turn net cfg (cancelled connected) p = let (p', sent) = flush connected p in (p', sent, false)

  -- Start, over the inputs until the one that ends it.
  unfoldable pub run : Addresses → Settings → List Input → Publisher → Publisher × List (Message F)
  run net cfg [] p = (p, [])
  run net cfg (i ∷ is) p =
      let (p', sent, more) = turn net cfg i p in
      let (p'', later) = run net cfg is p' in if more then (p'', sent ++ later) else (p', sent)
