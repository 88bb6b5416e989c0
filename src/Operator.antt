-- ===== src/Operator.antt =====
-- cmd/operator/main.go: what it makes of its settings for the bus and the detectors.
use sentinel5g.Prelude.{ℕ}
use sentinel5g.Prelude.Int.{pos}
use sentinel5g.Config.{OperatorConfig}
use sentinel5g.Bus.{Config}
use sentinel5g.Detect.TunnelFlood.{GtpuFloodDetector}
use sentinel5g.Detect.SourceFlood.{GtpuSourceFloodDetector}
use sentinel5g.Detect.TunnelFlood
use sentinel5g.Detect.SourceFlood

-- DefaultConfig().ConnectTimeout of pkg/events/nats.go.
abbrev pub default_connect_timeout : ℕ
default_connect_timeout = 5000000000

unfoldable pub bus_config : {F : Type 0} → OperatorConfig F → Config
bus_config cfg = record {
  url = cfg.nats_url;
  stream_name = cfg.nats_stream_name;
  events_subject = cfg.nats_events_subject;
  threats_subject = cfg.nats_threats_subject;
  connect_timeout = default_connect_timeout;
  credentials_file = cfg.nats_credentials_file;
  username = cfg.nats_username;
  password = cfg.nats_password;
  tls_ca_file = cfg.nats_tls_ca_file;
  tls_cert_file = cfg.nats_tls_cert_file;
  tls_key_file = cfg.nats_tls_key_file;
}

-- A field that is not given is zero, which stands for its default.
unfoldable pub tunnel_detector : {F : Type 0} → OperatorConfig F → GtpuFloodDetector
tunnel_detector cfg = TunnelFlood.new_detector (record {
  enabled = cfg.gtpu_tunnel_flood_enabled;
  packets_per_second = cfg.gtpu_tunnel_flood_pps;
  cooldown = cfg.gtpu_tunnel_flood_cooldown;
  max_tracked_tunnels = pos 0;
})

unfoldable pub source_detector : {F : Type 0} → OperatorConfig F → GtpuSourceFloodDetector
source_detector cfg = SourceFlood.new_detector (record {
  enabled = cfg.gtpu_source_flood_enabled;
  packets_per_second = cfg.gtpu_source_flood_pps;
  distinct_tunnels = cfg.gtpu_source_flood_distinct_tunnels;
  window = cfg.gtpu_source_flood_window;
  cooldown = cfg.gtpu_source_flood_cooldown;
  max_tracked_sources = pos 0;
  max_tunnels_per_source = pos 0;
})
