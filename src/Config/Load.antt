-- ===== src/Config/Load.antt =====
-- Load of pkg/config/config.go: the variables that are parsed, one after another, then the record
-- and its guards.
use sentinel5g.Prelude.{ℕ, ◌*◌, Bool, true, false, inl, inr, [], codes}
use sentinel5g.Prelude.Int.{ℤ, pos}
use sentinel5g.Config.{
  OperatorConfig, Result, Parsers, Environment, get_env, get_env_allow_empty, parse_float_env,
  parse_bool_env, parse_uint32_env, parse_int_env, parse_duration_env, guarded,
}

abbrev second : ℕ
second = 1000000000

abbrev minute : ℕ
minute = 60 * second

-- The next step, if the last one gave a value: Go's early return of an error.
unfoldable pub and_then : {A B : Type 0} → Result A → (A → Result B) → Result B
and_then (inl e) next = inl e
and_then (inr a) next = next a

-- The variables of Load that are parsed.
pub record Parsed (F : Type 0) : Type 0 where
  pub threshold : F
  pub leader_elect : Bool
  pub dwell : ℤ
  pub grace : ℤ
  pub tunnel_enabled : Bool
  pub tunnel_pps : ℕ
  pub tunnel_cooldown : ℤ
  pub source_enabled : Bool
  pub source_pps : ℕ
  pub source_distinct : ℤ
  pub source_window : ℤ
  pub source_cooldown : ℤ
  pub allow : Bool
  pub reconcile_interval : ℤ
  pub kill_switch_poll : ℤ
  pub batch_size : ℤ
  pub flush_interval : ℤ
  pub reactor_rate : F
  pub reactor_burst : ℤ

module _ {F : Type 0} (ps : Parsers F) (env : Environment) where
  -- The parsed variables: the first that is invalid ends it.
  unfoldable pub parse_all : Result (Parsed F)
  parse_all =
      and_then (parse_float_env ps env (codes "THREAT_SCORE_THRESHOLD") ps.default_threshold)
        (λ threshold. and_then (parse_bool_env ps env (codes "LEADER_ELECT") false) (λ leader_elect.
          and_then (parse_duration_env ps env (codes "DE_ESCALATION_DWELL") (pos (5 * minute)))
            (λ dwell.
              and_then
                (parse_duration_env ps env (codes "SCORING_PIPELINE_GRACE") (pos (10 * minute)))
                (λ grace.
                  and_then (parse_bool_env ps env (codes "GTPU_TUNNEL_FLOOD_ENABLED") true)
                    (λ tunnel_enabled.
                      and_then (parse_uint32_env ps env (codes "GTPU_TUNNEL_FLOOD_PPS") 100000)
                        (λ tunnel_pps.
                          and_then
                            (parse_duration_env ps env (codes "GTPU_TUNNEL_FLOOD_COOLDOWN")
                              (pos (30 * second)))
                            (λ tunnel_cooldown.
                              and_then
                                (parse_bool_env ps env (codes "GTPU_SOURCE_FLOOD_ENABLED") true)
                                (λ source_enabled.
                                  and_then
                                    (parse_uint32_env ps env (codes "GTPU_SOURCE_FLOOD_PPS") 500000)
                                    (λ source_pps.
                                      and_then
                                        (parse_int_env ps env
                                          (codes "GTPU_SOURCE_FLOOD_DISTINCT_TUNNELS") (pos 2048))
                                        (λ source_distinct.
                                          and_then
                                            (parse_duration_env ps env
                                              (codes "GTPU_SOURCE_FLOOD_WINDOW") (pos second))
                                            (λ source_window.
                                              and_then
                                                (parse_duration_env ps env
                                                  (codes "GTPU_SOURCE_FLOOD_COOLDOWN")
                                                  (pos (30 * second)))
                                                (λ source_cooldown.
                                                  and_then
                                                    (parse_bool_env ps env
                                                      (codes "NATS_ALLOW_UNAUTHENTICATED") false)
                                                    (λ allow.
                                                      and_then
                                                        (parse_duration_env ps env
                                                          (codes "BLOCKLIST_RECONCILE_INTERVAL")
                                                          (pos minute))
                                                        (λ reconcile_interval.
                                                          and_then
                                                            (parse_duration_env ps env
                                                            (codes "KILL_SWITCH_POLL_INTERVAL")
                                                            (pos (2 * second)))
                                                            (λ kill_switch_poll.
                                                            and_then
                                                            (parse_int_env ps env
                                                            (codes "NATS_EVENT_BATCH_SIZE") (pos 1))
                                                            (λ batch_size.
                                                            and_then
                                                            (parse_duration_env ps env
                                                            (codes "NATS_EVENT_FLUSH_INTERVAL")
                                                            (pos 250000000))
                                                            (λ flush_interval.
                                                            and_then
                                                            (parse_float_env ps env
                                                            (codes
                                                            "REACTOR_STATUS_WRITES_PER_SECOND")
                                                            ps.default_rate)
                                                            (λ reactor_rate.
                                                            and_then
                                                            (parse_int_env ps env
                                                            (codes "REACTOR_STATUS_WRITE_BURST")
                                                            (pos 20))
                                                            (λ reactor_burst. inr (record {
                                                            threshold = threshold;
                                                            leader_elect = leader_elect;
                                                            dwell = dwell;
                                                            grace = grace;
                                                            tunnel_enabled = tunnel_enabled;
                                                            tunnel_pps = tunnel_pps;
                                                            tunnel_cooldown = tunnel_cooldown;
                                                            source_enabled = source_enabled;
                                                            source_pps = source_pps;
                                                            source_distinct = source_distinct;
                                                            source_window = source_window;
                                                            source_cooldown = source_cooldown;
                                                            allow = allow;
                                                            reconcile_interval = reconcile_interval;
                                                            kill_switch_poll = kill_switch_poll;
                                                            batch_size = batch_size;
                                                            flush_interval = flush_interval;
                                                            reactor_rate = reactor_rate;
                                                            reactor_burst = reactor_burst;
                                                            }))))))))))))))))))))

  -- The record that Load builds.
  unfoldable pub build : Parsed F → OperatorConfig F
  build p = record {
    metrics_bind_address = get_env env (codes "METRICS_BIND_ADDRESS") (codes ":8080");
    health_probe_bind_address = get_env env (codes "HEALTH_PROBE_BIND_ADDRESS") (codes ":8081");
    leader_elect = p.leader_elect;
    nats_url = get_env env (codes "NATS_URL") (codes "nats://localhost:4222");
    nats_events_subject =
        get_env env (codes "NATS_EVENTS_SUBJECT") (codes "sentinel5g.events.normalized");
    nats_threats_subject =
        get_env env (codes "NATS_THREATS_SUBJECT") (codes "sentinel5g.threats.scored");
    nats_stream_name = get_env env (codes "NATS_STREAM_NAME") (codes "SENTINEL5G");
    nats_credentials_file = get_env env (codes "NATS_CREDENTIALS_FILE") [];
    nats_username = get_env env (codes "NATS_USERNAME") [];
    nats_password = get_env env (codes "NATS_PASSWORD") [];
    nats_tls_ca_file = get_env env (codes "NATS_TLS_CA_FILE") [];
    nats_tls_cert_file = get_env env (codes "NATS_TLS_CERT_FILE") [];
    nats_tls_key_file = get_env env (codes "NATS_TLS_KEY_FILE") [];
    nats_allow_unauthenticated = p.allow;
    threat_score_threshold = p.threshold;
    mesh_adapter = get_env env (codes "MESH_ADAPTER") (codes "istio");
    hubble_addr = get_env env (codes "HUBBLE_ADDR") [];
    hubble_tls_ca_file = get_env env (codes "HUBBLE_TLS_CA_FILE") [];
    hubble_tls_cert_file = get_env env (codes "HUBBLE_TLS_CERT_FILE") [];
    hubble_tls_key_file = get_env env (codes "HUBBLE_TLS_KEY_FILE") [];
    log_level = get_env env (codes "LOG_LEVEL") (codes "info");
    de_escalation_dwell = p.dwell;
    gtpu_tunnel_flood_enabled = p.tunnel_enabled;
    gtpu_tunnel_flood_pps = p.tunnel_pps;
    gtpu_tunnel_flood_cooldown = p.tunnel_cooldown;
    gtpu_source_flood_enabled = p.source_enabled;
    gtpu_source_flood_pps = p.source_pps;
    gtpu_source_flood_distinct_tunnels = p.source_distinct;
    gtpu_source_flood_window = p.source_window;
    gtpu_source_flood_cooldown = p.source_cooldown;
    nats_event_batch_size = p.batch_size;
    nats_event_flush_interval = p.flush_interval;
    bpf_pin_path = get_env_allow_empty env (codes "BPF_PIN_PATH") (codes "/sys/fs/bpf/sentinel5g");
    blocklist_reconcile_interval = p.reconcile_interval;
    reactor_status_writes_per_second = p.reactor_rate;
    reactor_status_write_burst = p.reactor_burst;
    kill_switch_config_map_name =
        get_env_allow_empty env (codes "KILL_SWITCH_CONFIGMAP_NAME")
          (codes "sentinel5g-killswitch");
    kill_switch_namespace =
        get_env env (codes "KILL_SWITCH_NAMESPACE") (get_env env (codes "POD_NAMESPACE") []);
    kill_switch_poll_interval = p.kill_switch_poll;
    scoring_pipeline_grace = p.grace;
  }

  -- Load
  unfoldable pub load : Result (OperatorConfig F)
  load = and_then parse_all (λ p. guarded ps (build p))
