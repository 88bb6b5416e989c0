-- ===== src/Events.antt =====
-- pkg/events/types.go: the wire schema. Strings are byte lists, times are nanoseconds since an
-- epoch, and a rate is the whole number of packets that the kernel counted (a uint32, which Go's
-- float64 holds exactly). A score is of an abstract type of floats.
use sentinel5g.Prelude.{ℕ, Bool, Text}

-- type Protocol, with its six constants.
pub data Protocol : Type 0 where
  gtpu sip smpp http2 port_scan unknown : Protocol

unfoldable pub protocol_discrete : Discrete Protocol
protocol_discrete = hlevel

pub record NormalizedEvent : Type 0 where
  pub event_id : Text
  pub observed_at : ℕ
  pub namespace : Text
  pub pod_name : Text
  pub node_name : Text
  pub source_ip : Text
  pub dest_ip : Text
  pub dest_port : ℕ
  pub protocol : Protocol
  pub payload_size : ℕ
  pub rate_per_second : ℕ
  pub malformed : Bool
  pub vlan_id : ℕ
  pub teid : ℕ
  pub tunnel_rate_per_second : ℕ

pub record ThreatScoreEvent (F : Type 0) : Type 0 where
  pub source_event_id : Text
  pub namespace : Text
  pub pod_name : Text
  pub source_ip : Text
  pub teid : ℕ
  pub score : F
  pub model : Text
  pub detected_at : ℕ

-- Go's float64, as far as scores and thresholds go: a product, the strict order, fmt's "%.4f" and
-- the constants 1.0, 0.8 and 1.2 that the sources write. No law is assumed of it here.
pub record Floats (F : Type 0) : Type 0 where
  pub mul : F → F → F
  pub lt : F → F → Bool
  pub format : F → Text
  pub one : F
  pub high : F
  pub low : F
