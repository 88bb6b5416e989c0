-- ===== src/Config.antt =====
-- pkg/config/config.go: the operator's settings from the environment. Durations are nanoseconds; the
-- parsers are Go's strconv and time.
pub mod Load
pub mod Accepted
pub mod Unordered
use sentinel5g.Prelude.{
  ℕ, Bool, true, false, not, ◌&&◌, ◌||◌, ◌⊎◌, inl, inr, List, [], ◌∷◌, Option, none, some, Text,
  codes, text_discrete, ite, if◌then◌else◌, ◌==◌,
}
use sentinel5g.Prelude.Int.{ℤ, pos, negsuc, ltb_ℤ, leb_ℤ}

pub record OperatorConfig (F : Type 0) : Type 0 where
  pub metrics_bind_address : Text
  pub health_probe_bind_address : Text
  pub leader_elect : Bool
  pub nats_url : Text
  pub nats_events_subject : Text
  pub nats_threats_subject : Text
  pub nats_stream_name : Text
  pub nats_credentials_file : Text
  pub nats_username : Text
  pub nats_password : Text
  pub nats_tls_ca_file : Text
  pub nats_tls_cert_file : Text
  pub nats_tls_key_file : Text
  pub nats_allow_unauthenticated : Bool
  pub threat_score_threshold : F
  pub mesh_adapter : Text
  pub hubble_addr : Text
  pub hubble_tls_ca_file : Text
  pub hubble_tls_cert_file : Text
  pub hubble_tls_key_file : Text
  pub log_level : Text
  pub de_escalation_dwell : ℤ
  pub gtpu_tunnel_flood_enabled : Bool
  pub gtpu_tunnel_flood_pps : ℕ
  pub gtpu_tunnel_flood_cooldown : ℤ
  pub gtpu_source_flood_enabled : Bool
  pub gtpu_source_flood_pps : ℕ
  pub gtpu_source_flood_distinct_tunnels : ℤ
  pub gtpu_source_flood_window : ℤ
  pub gtpu_source_flood_cooldown : ℤ
  pub nats_event_batch_size : ℤ
  pub nats_event_flush_interval : ℤ
  pub bpf_pin_path : Text
  pub blocklist_reconcile_interval : ℤ
  pub reactor_status_writes_per_second : F
  pub reactor_status_write_burst : ℤ
  pub kill_switch_config_map_name : Text
  pub kill_switch_namespace : Text
  pub kill_switch_poll_interval : ℤ
  pub scoring_pipeline_grace : ℤ

-- Why Load fails: a variable that does not parse, by its name, or a guard.
pub data LoadError : Type 0 where
  invalid : Text → LoadError
  threshold_out_of_range tunnel_flood_pps_zero source_flood_unarmed : LoadError
  window_not_positive unauthenticated : LoadError

abbrev pub Result : Type 0 → Type 0
Result A = LoadError ⊎ A

-- strconv's and time's parsers, and of float64 the order and the constants that Load writes.
pub record Parsers (F : Type 0) : Type 0 where
  pub parse_float : Text → Option F
  pub parse_bool : Text → Option Bool
  pub parse_uint32 : Text → Option ℕ
  pub atoi : Text → Option ℤ
  pub parse_duration : Text → Option ℤ
  pub lt : F → F → Bool
  pub zero_float : F
  pub one_float : F
  pub default_threshold : F
  pub default_rate : F

-- os.LookupEnv
abbrev pub Environment : Type 0
Environment = Text → Option Text

unfoldable pub non_empty : Option Text → Option Text
non_empty (some (c ∷ cs)) = some (c ∷ cs)
non_empty _ = none

unfoldable pub text_or : Text → Option Text → Text
text_or fallback none = fallback
text_or fallback (some v) = v

-- getEnv
unfoldable pub get_env : Environment → Text → Text → Text
get_env env key fallback = text_or fallback (non_empty (env key))

-- getEnvAllowEmpty
unfoldable pub get_env_allow_empty : Environment → Text → Text → Text
get_env_allow_empty env key fallback = text_or fallback (env key)

-- What a variable parses to: the fallback where it is unset or empty.
unfoldable pub parsed_or : {A : Type 0} → (Text → Option A) → Text → A → Option Text → Result A
parsed_or parse key fallback none = inr fallback
parsed_or parse key fallback (some v) = elim (parse v) [ none ↦ inl (invalid key) | some a ↦ inr a ]

-- An int that is not negative.
unfoldable pub non_negative : Option ℤ → Option ℤ
non_negative none = none
non_negative (some n) = if ltb_ℤ n (pos 0) then none else some n

module _ {F : Type 0} (ps : Parsers F) (env : Environment) where
  unfoldable pub parse_float_env : Text → F → Result F
  parse_float_env key fallback = parsed_or ps.parse_float key fallback (non_empty (env key))

  unfoldable pub parse_bool_env : Text → Bool → Result Bool
  parse_bool_env key fallback = parsed_or ps.parse_bool key fallback (non_empty (env key))

  unfoldable pub parse_uint32_env : Text → ℕ → Result ℕ
  parse_uint32_env key fallback = parsed_or ps.parse_uint32 key fallback (non_empty (env key))

  unfoldable pub parse_int_env : Text → ℤ → Result ℤ
  parse_int_env key fallback =
      parsed_or (λ v. non_negative (ps.atoi v)) key fallback (non_empty (env key))

  unfoldable pub parse_duration_env : Text → ℤ → Result ℤ
  parse_duration_env key fallback = parsed_or ps.parse_duration key fallback (non_empty (env key))

-- natsHasCredentials
unfoldable pub nats_has_credentials : {F : Type 0} → OperatorConfig F → Bool
nats_has_credentials cfg =
    ite (text_discrete cfg.nats_credentials_file [])
      (ite (text_discrete cfg.nats_username [])
        (ite (text_discrete cfg.nats_tls_cert_file [])
          (ite (text_discrete cfg.nats_tls_ca_file []) false true) true)
        true)
      true

unfoldable pub is_zero : ℤ → Bool
is_zero (pos n) = n == 0
is_zero (negsuc n) = false

-- The guards at the end of Load, in their order.
unfoldable pub guarded : {F : Type 0} → Parsers F → OperatorConfig F → Result (OperatorConfig F)
guarded ps cfg =
    if ps.lt cfg.threat_score_threshold ps.zero_float
      || ps.lt ps.one_float cfg.threat_score_threshold
    then inl threshold_out_of_range
    else if cfg.gtpu_tunnel_flood_enabled && (cfg.gtpu_tunnel_flood_pps == 0)
    then inl tunnel_flood_pps_zero
    else if cfg.gtpu_source_flood_enabled
        && ((cfg.gtpu_source_flood_pps == 0) && is_zero cfg.gtpu_source_flood_distinct_tunnels)
    then inl source_flood_unarmed
    else if leb_ℤ cfg.gtpu_source_flood_window (pos 0)
    then inl window_not_positive
    else if not cfg.nats_allow_unauthenticated && not (nats_has_credentials cfg)
    then inl unauthenticated
    else inr cfg
