-- ===== src/Detect/TunnelFlood.antt =====
-- pkg/detect/gtpu_flood.go: the per-tunnel detector. A call takes the detector and returns it
-- changed; the mutex makes each call one step. Durations are signed nanoseconds.
pub mod Memory
pub mod Cooldown
pub mod Verdict
use sentinel5g.Prelude.{
  ℕ, Bool, true, false, Option, none, some, Text, codes, text_discrete, ℕ_discrete, ltb, ◌==◌, not,
  ◌||◌, if◌then◌else◌, ite, [],
}
use sentinel5g.Prelude.Int.{ℤ, pos, negsuc, sub_ℕ, ltb_ℤ, leb_ℤ, pos_part}
use sentinel5g.Prelude.Map.{find}
use sentinel5g.Prelude.Fifo.{Fifo, empty, admit, update}
use sentinel5g.Events.{Protocol, gtpu, protocol_discrete, NormalizedEvent, ThreatScoreEvent, Floats}

-- ModelGTPUTunnelFlood
abbrev pub model_gtpu_tunnel_flood : Text
model_gtpu_tunnel_flood = codes "rule:gtpu-tunnel-flood"

-- DefaultCooldown, 30 seconds in nanoseconds.
abbrev pub default_cooldown : ℕ
default_cooldown = 30000000000

-- defaultTrackedTunnels
abbrev pub default_tracked_tunnels : ℕ
default_tracked_tunnels = 4096

pub record GtpuFloodConfig : Type 0 where
  pub enabled : Bool
  pub packets_per_second : ℕ
  pub cooldown : ℤ
  pub max_tracked_tunnels : ℤ

pub record TunnelId : Type 0 where
  pub source_ip : Text
  pub teid : ℕ

unfoldable pub tunnel_id_discrete : Discrete TunnelId
tunnel_id_discrete = hlevel (text_discrete, ℕ_discrete)

abbrev zero_tunnel : TunnelId
zero_tunnel = record { source_ip = []; teid = 0 }

-- `table` holds lastFired, order and next.
pub record GtpuFloodDetector : Type 0 where
  pub cfg : GtpuFloodConfig
  pub table : Fifo TunnelId ℕ

-- A setting that is not positive stands for its default.
unfoldable pub or_default : ℤ → ℕ → ℕ
or_default setting fallback = if leb_ℤ setting (pos 0) then fallback else pos_part setting

-- NewGTPUFloodDetector
unfoldable pub new_detector : GtpuFloodConfig → GtpuFloodDetector
unfolding or_default
new_detector cfg = record {
  cfg = record cfg { cooldown = pos (or_default cfg.cooldown default_cooldown) };
  table = empty zero_tunnel (or_default cfg.max_tracked_tunnels default_tracked_tunnels);
}

unfoldable pub claim : GtpuFloodDetector → TunnelId → ℕ → GtpuFloodDetector × Bool
claim d id now = elim (find tunnel_id_discrete id d.table.entries) [
  | some last ↦
      if ltb_ℤ (sub_ℕ now last) d.cfg.cooldown
      then (d, false)
      else (record d { table = update tunnel_id_discrete id now d.table }, true)
  | none ↦ (record d { table = admit tunnel_id_discrete zero_tunnel id now d.table }, true)
]

-- The four guards in front of the claim.
unfoldable pub is_flood : GtpuFloodConfig → NormalizedEvent → Bool
is_flood cfg evt =
    if not cfg.enabled || cfg.packets_per_second == 0
    then false
    else if ite (protocol_discrete evt.protocol gtpu) (evt.teid == 0) true
    then false
    else not (ltb evt.tunnel_rate_per_second cfg.packets_per_second)

module _ {F : Type 0} (fl : Floats F) where
  -- The score carries the tunnel, and is 1.0: a rule has no uncertainty to express.
  unfoldable pub tunnel_score : NormalizedEvent → ℕ → ThreatScoreEvent F
  tunnel_score evt now = record {
    source_event_id = evt.event_id;
    namespace = evt.namespace;
    pod_name = evt.pod_name;
    source_ip = evt.source_ip;
    teid = evt.teid;
    score = fl.one;
    model = model_gtpu_tunnel_flood;
    detected_at = now;
  }

  -- Evaluate: the Boolean that Go returns beside the event is whether there is one.
  unfoldable pub evaluate :
      GtpuFloodDetector → NormalizedEvent → ℕ → GtpuFloodDetector × Option (ThreatScoreEvent F)
  unfolding is_flood claim tunnel_score
  evaluate d evt now =
      if is_flood d.cfg evt
      then (let (d', claimed) =
            claim d (record { source_ip = evt.source_ip; teid = evt.teid }) now in
          (d', if claimed then some (tunnel_score evt now) else none))
      else (d, none)
