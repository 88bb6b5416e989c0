-- ===== src/Tests/Wiring.antt =====
-- The settings, the other sources of events and the mesh adapters at concrete inputs.
use sentinel5g.Prelude.{
  ℕ, ◌<◌, ◌≡◌, ◌≢◌, inl, inr, Bool, true, false, [], ◌∷◌, Option, none, some, codes, text_discrete,
  ite, refl, arith, ltb, ◌*◌, ◌/◌,
}
use sentinel5g.Prelude.Int.{pos}
use sentinel5g.Events.{ThreatScoreEvent, Floats}
use sentinel5g.Config.{OperatorConfig, Parsers, Environment, threshold_out_of_range, guarded}
use sentinel5g.Config.Load.{Parsed, build, load}
use sentinel5g.Config.Accepted.{load_arms_tunnels}
use sentinel5g.Config.Unordered.{unordered_threshold-mitigates}
use sentinel5g.Operator.{tunnel_detector}
use sentinel5g.Detect.TunnelFlood
use sentinel5g.Detect.TunnelFlood.{tunnel_score}
use sentinel5g.Controller.KillSwitch
use sentinel5g.Controller.Watcher.{Inputs, Deps}
use sentinel5g.Controller.Watcher.Apply.{mitigate, apply_policy}
use sentinel5g.Controller.Watcher.Gates.{rechecked}
use sentinel5g.Tests.Fixtures.{
  hundredths, plain_addresses, Kernel, kernel_maps, counting_mesh, one_token, source_b, packet,
  blocking_policy,
}
use sentinel5g.Tests.Agreement.{one_policy}

-- Parsers that no variable reaches, as only a user's name is set.
abbrev parsers : {F : Type 0} → F → F → F → (F → F → Bool) → Parsers F
parsers zero_float one_float threshold lt = record {
  parse_float = λ v. none;
  parse_bool = λ v. none;
  parse_uint32 = λ v. none;
  atoi = λ v. none;
  parse_duration = λ v. none;
  lt = lt;
  zero_float = zero_float;
  one_float = one_float;
  default_threshold = threshold;
  default_rate = one_float;
}

abbrev only_username : Environment
only_username key = ite (text_discrete key (codes "NATS_USERNAME")) (some (codes "operator")) none

abbrev defaults : {F : Type 0} → F → F → Parsed F
defaults threshold rate = record {
  threshold = threshold;
  leader_elect = false;
  dwell = pos 300000000000;
  grace = pos 600000000000;
  tunnel_enabled = true;
  tunnel_pps = 100000;
  tunnel_cooldown = pos 30000000000;
  source_enabled = true;
  source_pps = 500000;
  source_distinct = pos 2048;
  source_window = pos 1000000000;
  source_cooldown = pos 30000000000;
  allow = false;
  reconcile_interval = pos 60000000000;
  kill_switch_poll = pos 2000000000;
  batch_size = pos 1;
  flush_interval = pos 250000000;
  reactor_rate = rate;
  reactor_burst = pos 20;
}

abbrev hundred_parsers : Parsers ℕ
hundred_parsers = parsers 0 100 85 (λ a b. ltb a b)

abbrev default_config : OperatorConfig ℕ
default_config = build hundred_parsers only_username (defaults 85 100)

load_arms_tunnels_example :
    ((TunnelFlood.evaluate hundredths
        (tunnel_detector default_config)
        (packet source_b 7 100000)
        9).1
      ≡ some (tunnel_score hundredths (packet source_b 7 100000) 9))
    × (0 < default_config.gtpu_tunnel_flood_pps)
unfolding load sentinel5g.Config.Load.and_then sentinel5g.Config.Load.parse_all
    sentinel5g.Config.parse_float_env sentinel5g.Config.parsed_or sentinel5g.Config.non_empty
    text_discrete sentinel5g.Config.parse_bool_env sentinel5g.Config.parse_duration_env
    sentinel5g.Config.parse_uint32_env sentinel5g.Config.parse_int_env guarded build
    sentinel5g.Config.nats_has_credentials sentinel5g.Config.get_env sentinel5g.Config.text_or
load_arms_tunnels_example =
    load_arms_tunnels hundred_parsers only_username default_config hundredths
      (packet source_b 7 100000) 9 refl refl refl seven (omega arith)
  where
    seven : (packet source_b 7 100000).teid ≢ 0
    seven e = omega (arith, e)

-- Hundredths with a value that is not a number.
abbrev lt_nan : Option ℕ → Option ℕ → Bool
lt_nan (some a) (some b) = ltb a b
lt_nan none b = false
lt_nan (some a) none = false

abbrev mul_nan : Option ℕ → Option ℕ → Option ℕ
mul_nan (some a) (some b) = some (a * b / 100)
mul_nan none b = none
mul_nan (some a) none = none

abbrev with_nan : Floats (Option ℕ)
with_nan = record {
  mul = mul_nan;
  lt = lt_nan;
  format = λ n. [];
  one = some 100;
  high = some 80;
  low = some 120;
}

abbrev nan_watcher : Deps (Option ℕ) Kernel ℕ ℕ
nan_watcher = record {
  fl = with_nan;
  net = plain_addresses;
  ebpf = kernel_maps;
  adapter = counting_mesh;
  rate = one_token;
  base = none;
}

abbrev nan_parsers : Parsers (Option ℕ)
nan_parsers = parsers (some 0) (some 100) none lt_nan

abbrev nan_config : OperatorConfig (Option ℕ)
nan_config = build nan_parsers only_username (defaults none (some 100))

above_nothing : (x : Option ℕ) → lt_nan x none ≡ false
above_nothing none = refl
above_nothing (some a) = refl

nan_unordered : (x : Option ℕ) → (lt_nan none x ≡ false) × (lt_nan x none ≡ false)
nan_unordered x = (refl, above_nothing x)

abbrev at_nine : Inputs
at_nine = record {
  now = 9;
  kill_now = 9;
  kill_after = 9;
  kill_reply = KillSwitch.failed;
  accepts = true;
}

abbrev benign : ThreatScoreEvent (Option ℕ)
benign = record {
  source_event_id = [];
  namespace = 1 ∷ [];
  pod_name = 1 ∷ [];
  source_ip = source_b;
  teid = 6;
  score = some 0;
  model = [];
  detected_at = 0;
}

unordered_threshold-mitigates_example :
    (guarded nan_parsers nan_config ≢ inl threshold_out_of_range)
    × (apply_policy nan_watcher at_nine blocking_policy benign one_policy
        ≡ mitigate nan_watcher at_nine blocking_policy benign
            (rechecked nan_watcher at_nine one_policy))
unfolding build KillSwitch.check_optional
unordered_threshold-mitigates_example =
    unordered_threshold-mitigates nan_watcher nan_parsers nan_config (λ x y. refl) refl
      nan_unordered (λ m x. nan_unordered x) at_nine blocking_policy benign one_policy refl refl

-- The operator starts with that threshold.
load_nan : load nan_parsers only_username ≡ inr nan_config
unfolding load sentinel5g.Config.Load.and_then sentinel5g.Config.Load.parse_all
    sentinel5g.Config.parse_float_env sentinel5g.Config.parsed_or sentinel5g.Config.non_empty
    text_discrete sentinel5g.Config.parse_bool_env sentinel5g.Config.parse_duration_env
    sentinel5g.Config.parse_uint32_env sentinel5g.Config.parse_int_env guarded build
    sentinel5g.Config.nats_has_credentials sentinel5g.Config.get_env sentinel5g.Config.text_or
load_nan = refl
