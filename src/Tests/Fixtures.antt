-- ===== src/Tests/Fixtures.antt =====
-- Small instances of what the model takes as parameters: floats as hundredths, addresses that are
-- their own text, a kernel of two maps, and a mesh that counts its quarantines.
use sentinel5g.Prelude.{
  ℕ, ◌+◌, ◌*◌, ◌/◌, ◌==◌, true, false, [], ◌∷◌, Option, none, some, Text, text_discrete, ltb,
  if◌then◌else◌,
}
use sentinel5g.Prelude.Map.{Map, put, del}
use sentinel5g.Events.{Floats, NormalizedEvent, ThreatScoreEvent, gtpu}
use sentinel5g.Ebpf.Interface.{Ip, EbpfError, refused, BlocklistUpdater}
use sentinel5g.Mesh.Interface.{Adapter}
use sentinel5g.Detect.TunnelFlood.{TunnelId, tunnel_id_discrete}
use sentinel5g.Controller.Names.{NamespacedName}
use sentinel5g.Controller.Api.{Policy, medium, mitigating}
use sentinel5g.Controller.Tunnels.{Addresses}
use sentinel5g.Controller.Limiter.{Buckets}

abbrev pub hundredths : Floats ℕ
hundredths = record {
  mul = λ a b. a * b / 100;
  lt = λ a b. ltb a b;
  format = λ n. n ∷ [];
  one = 100;
  high = 80;
  low = 120;
}

abbrev pub some_address : Text → Option Ip
some_address [] = none
some_address (x ∷ xs) = some (x ∷ xs)

abbrev pub plain_addresses : Addresses
plain_addresses = record { parse_ip = some_address; ip_string = λ ip. ip }

abbrev pub Kernel : Type 0
Kernel = Map Text Text × Map TunnelId ℕ

unfoldable pub block_tunnel_in : Ip → ℕ → Kernel → Kernel × Option EbpfError
block_tunnel_in ip teid (s, t) =
    if teid == 0
    then ((s, t), some refused)
    else ((s, put tunnel_id_discrete (record { source_ip = ip; teid = teid }) 1 t), none)

unfoldable pub unblock_tunnel_in : Ip → ℕ → Kernel → Kernel × Option EbpfError
unblock_tunnel_in ip teid (s, t) =
    if teid == 0
    then ((s, t), some refused)
    else ((s, del tunnel_id_discrete (record { source_ip = ip; teid = teid }) t), none)

abbrev pub kernel_maps : BlocklistUpdater Kernel
kernel_maps = record {
  block = λ ip k. ((put text_discrete ip ip k.0, k.1), none);
  unblock = λ ip k. ((del text_discrete ip k.0, k.1), none);
  block_tunnel = block_tunnel_in;
  unblock_tunnel = unblock_tunnel_in;
}

abbrev pub counting_mesh : Adapter ℕ
counting_mesh = record {
  quarantine = λ namespace selector m. (m + 1, true);
  release = λ namespace selector m. (m, true);
}

abbrev pub one_token : Buckets ℕ
one_token = record { new_bucket = 1; allow = λ now n. if n == 0 then (0, false) else (0, true) }

-- 10.0.0.1 and 10.0.0.2, shortened.
abbrev pub source_a : Text
source_a = 49 ∷ []

abbrev pub source_b : Text
source_b = 50 ∷ []

abbrev pub pod_a : NamespacedName
pod_a = record { namespace = 1 ∷ []; name = 1 ∷ [] }

abbrev pub pod_b : NamespacedName
pod_b = record { namespace = 1 ∷ []; name = 2 ∷ [] }

abbrev pub packet : Text → ℕ → ℕ → NormalizedEvent
packet source teid rate = record {
  event_id = [];
  observed_at = 0;
  namespace = [];
  pod_name = [];
  node_name = [];
  source_ip = source;
  dest_ip = [];
  dest_port = 2152;
  protocol = gtpu;
  payload_size = 64;
  rate_per_second = 0;
  malformed = false;
  vlan_id = 0;
  teid = teid;
  tunnel_rate_per_second = rate;
}

abbrev pub score_of : Text → ℕ → ℕ → ThreatScoreEvent ℕ
score_of source teid score = record {
  source_event_id = [];
  namespace = 1 ∷ [];
  pod_name = 1 ∷ [];
  source_ip = source;
  teid = teid;
  score = score;
  model = [];
  detected_at = 0;
}

-- A policy that blocks sources and tunnels by itself, mitigating one source since time 5.
abbrev pub blocking_policy : Policy
blocking_policy = record {
  key = pod_a;
  deleting = false;
  finalizers = [];
  spec = record {
    target_workloads = record { app = 7 ∷ []; match_labels = [] } ∷ [];
    threat_detection = record { sensitivity = medium; auto_mitigate = true };
    actions = record { ebpf_block = true; ebpf_block_tunnel = true; isolate_pod = true };
  };
  status = record {
    phase = mitigating;
    observed_threat_score = [];
    last_mitigation_time = some 5;
    blocked_source_ips = source_a ∷ [];
    blocked_tunnels = [];
    conditions = [];
  };
}
