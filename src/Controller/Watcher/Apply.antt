-- ===== src/Controller/Watcher/Apply.antt =====
-- applyPolicy of pkg/controller/threat_score_watcher.go: from a score and a policy to the status
-- write and then the actions.
use sentinel5g.Prelude.{
  ℕ, ◌==◌, not, ◌&&◌, List, [], ◌∷◌, ◌++◌, Option, none, some, Text, if◌then◌else◌, ite, map,
}
use sentinel5g.Prelude.Map.{Map, put}
use sentinel5g.Events.{ThreatScoreEvent}
use sentinel5g.Ebpf.Interface.{Ip, EbpfError, is_map_full}
use sentinel5g.Controller.Names.{name_discrete}
use sentinel5g.Controller.Api.{
  Sensitivity, high, medium, low, other, Phase, alerting, mitigating, monitoring, phase_discrete,
  Policy,
}
use sentinel5g.Controller.Tunnels.{Addresses, format_tunnel}
use sentinel5g.Controller.PolicyIndex.{put_policy}
use sentinel5g.Controller.KillSwitch.{check_optional}
use sentinel5g.Controller.Limiter.{Buckets}
use sentinel5g.Controller.Limiter
use sentinel5g.Controller.Watcher.{
  Action, ebpf_block_tunnel, ebpf_block, mesh_quarantine, success, error, no_teid, Metric, crossing,
  suppressed, mitigation, mitigation_map_full, reactor_throttled, policy_phase, ApplyError,
  update_failed, block_tunnel_failed, block_failed, quarantine_failed, World, Inputs, Deps,
  append_unique, status_decision_changed, first_match_labels, suppressed_actions, Intent, when,
}

-- The policy with a score observed: the pre-image of every status that is written.
unfoldable pub observed : Text → Policy → Policy
observed score policy = record policy {
  status = record (policy.status) { observed_threat_score = score };
}

unfoldable pub with_phase : Phase → Policy → Policy
with_phase phase policy = record policy { status = record (policy.status) { phase = phase } }

-- A benign score ends no mitigation.
unfoldable pub calmed : Policy → Policy
unfolding with_phase
calmed policy =
    ite (phase_discrete policy.status.phase mitigating) policy (with_phase monitoring policy)

unfoldable pub intent_of : {F : Type 0} → Addresses → Policy → ThreatScoreEvent F → Intent
intent_of net policy event =
    let ip = net.parse_ip event.source_ip in
    record {
      tunnel = when (policy.spec.actions.ebpf_block_tunnel && not (event.teid == 0)) ip;
      source = when policy.spec.actions.ebpf_block ip;
      quarantine =
          when policy.spec.actions.isolate_pod (first_match_labels policy.spec.target_workloads);
    }

-- Some text entered, if the action is intended.
unfoldable pub record_block : Option Ip → Text → List Text → List Text
record_block none entry xs = xs
record_block (some ip) entry xs = append_unique xs entry

-- The status that records the intent.
unfoldable pub intended : {F : Type 0} → Intent → ThreatScoreEvent F → ℕ → Policy → Policy
intended intent event now policy = record policy {
  status = record (policy.status) {
    phase = mitigating;
    last_mitigation_time = some now;
    blocked_source_ips =
        record_block intent.source event.source_ip policy.status.blocked_source_ips;
    blocked_tunnels =
        record_block intent.tunnel (format_tunnel event.source_ip event.teid)
          policy.status.blocked_tunnels;
  };
}

-- A tunnel block that is asked for on a score without a TEID is counted, and not done.
unfoldable pub no_teid_metric : {F : Type 0} → Addresses → Policy → ThreatScoreEvent F → List Metric
no_teid_metric net policy event = elim (net.parse_ip event.source_ip) [
  | none ↦ []
  | some ip ↦
      if policy.spec.actions.ebpf_block_tunnel && (event.teid == 0)
      then mitigation ebpf_block_tunnel no_teid ∷ []
      else []
]

unfoldable pub counted : {K M L : Type 0} → List Metric → World K M L → World K M L
counted ms w = record w { metrics = ms ++ w.metrics }

abbrev pub Step : Type 0 → Type 0 → Type 0 → Type 0
Step K M L = World K M L × Option ApplyError

-- The next step, if the last one did not fail.
unfoldable pub then_ok : {K M L : Type 0} → Step K M L → (World K M L → Step K M L) → Step K M L
then_ok (w, some e) next = (w, some e)
then_ok (w, none) next = next w

module _ {F K M L : Type 0} (deps : Deps F K M L) where
  open deps use {fl, net, ebpf, adapter, rate, base}

  -- sensitivityMultiplierOrDefault
  unfoldable pub sensitivity_multiplier : Sensitivity → F
  sensitivity_multiplier high = fl.high
  sensitivity_multiplier medium = fl.one
  sensitivity_multiplier low = fl.low
  sensitivity_multiplier other = fl.one

  -- The policy's threshold, clamped to 1.
  unfoldable pub threshold : Policy → F
  threshold policy =
      let scaled = fl.mul base (sensitivity_multiplier policy.spec.threat_detection.sensitivity) in
      if fl.lt fl.one scaled then fl.one else scaled

  -- updateStatus
  unfoldable pub update_status : Inputs → Policy → World K M L → Step K M L
  update_status inp policy w =
      if inp.accepts
      then (
        record w {
          statuses = put name_discrete policy.key policy.status w.statuses;
          index = put_policy policy w.index;
          metrics = policy_phase policy.key policy.status.phase ∷ w.metrics;
        },
        none,
      )
      else (w, some update_failed)

  -- writeStatus: a write that carries no decision needs a token.
  unfoldable pub write_status : Inputs → Policy → Policy → World K M L → Step K M L
  write_status inp prev next w =
      if status_decision_changed prev.status next.status
      then update_status inp next w
      else (let (limiters, granted) = Limiter.allow rate next.key inp.now w.limiters in
          if granted then update_status inp next (record w { limiters = limiters }) else (
            record w { limiters = limiters; metrics = reactor_throttled next.key ∷ w.metrics },
            none,
          ))

  map_full_metric : Action → EbpfError → List Metric
  map_full_metric action e = if is_map_full e then mitigation_map_full action ∷ [] else []

  -- The counters of a kernel action, by its result.
  kernel_result : Action → ApplyError → World K M L → K × Option EbpfError → Step K M L
  unfolding map_full_metric
  kernel_result action failure w (k, none) =
      (record w { kernel = k; metrics = mitigation action success ∷ w.metrics }, none)
  kernel_result action failure w (k, some e) = (
    record w {
      kernel = k;
      metrics = map_full_metric action e ++ mitigation action error ∷ w.metrics;
    },
    some failure,
  )

  unfoldable pub act_tunnel : Option Ip → ℕ → World K M L → Step K M L
  unfolding kernel_result
  act_tunnel none teid w = (w, none)
  act_tunnel (some ip) teid w =
      kernel_result ebpf_block_tunnel block_tunnel_failed w (ebpf.block_tunnel ip teid w.kernel)

  unfoldable pub act_source : Option Ip → World K M L → Step K M L
  unfolding kernel_result
  act_source none w = (w, none)
  act_source (some ip) w = kernel_result ebpf_block block_failed w (ebpf.block ip w.kernel)

  unfoldable pub act_mesh : Option (Map Text Text) → Text → World K M L → Step K M L
  act_mesh none namespace w = (w, none)
  act_mesh (some selector) namespace w =
      let (m, done) = adapter.quarantine namespace selector w.mesh in
      if done
      then (record w { mesh = m; metrics = mitigation mesh_quarantine success ∷ w.metrics }, none)
      else (
        record w { mesh = m; metrics = mitigation mesh_quarantine error ∷ w.metrics },
        some quarantine_failed,
      )

  -- The actions, in their order, up to the first that fails.
  unfoldable pub execute : Intent → ℕ → Text → World K M L → Step K M L
  execute intent teid namespace w =
      then_ok (then_ok (act_tunnel intent.tunnel teid w) (act_source intent.source))
        (act_mesh intent.quarantine namespace)

  -- The branch that mitigates: the status first, and only then the kernel and the mesh.
  unfoldable pub mitigate : Inputs → Policy → ThreatScoreEvent F → World K M L → Step K M L
  mitigate inp policy event w =
      let intent = intent_of net policy event in
      let latest = intended intent event inp.now (observed (fl.format event.score) policy) in
      let w' = counted (no_teid_metric net policy event ++ crossing policy.key mitigating ∷ []) w in
      then_ok (write_status inp policy latest w') (execute intent event.teid policy.key.namespace)

  -- The branch that only alerts.
  unfoldable pub alert :
      List Metric → Inputs → Policy → ThreatScoreEvent F → World K M L → Step K M L
  alert extra inp policy event w =
      write_status inp policy (with_phase alerting (observed (fl.format event.score) policy))
        (counted (crossing policy.key alerting ∷ extra) w)

  -- applyPolicy
  unfoldable pub apply_policy : Inputs → Policy → ThreatScoreEvent F → World K M L → Step K M L
  apply_policy inp policy event w =
      if fl.lt event.score (threshold policy)
      then write_status inp policy (calmed (observed (fl.format event.score) policy)) w
      else if not policy.spec.threat_detection.auto_mitigate
      then alert [] inp policy event w
      else (let (switch, engaged) =
            check_optional w.kill_switch inp.kill_now inp.kill_after inp.kill_reply in
          let w' = record w { kill_switch = switch } in
          if engaged
          then alert (map suppressed (suppressed_actions policy)) inp policy event w'
          else mitigate inp policy event w')
