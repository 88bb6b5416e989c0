-- ===== src/Tests/Mitigation.antt =====
-- applyPolicy and the reconciler of pkg/controller on small runs.
use sentinel5g.Prelude.{
  ℕ, ◌+◌, ◌<◌, ◌≤◌, ◌≡◌, ◌≢◌, ◌⊎◌, inl, inr, Bool, true, false, [], ◌∷◌, Option, none, some, Text,
  text_discrete, refl, arith, sym, ◌∙◌,
}
use sentinel5g.Prelude.Int.{pos}
use sentinel5g.Prelude.Map.{find, find-del}
use sentinel5g.Detect.TunnelFlood.{TunnelId, tunnel_id_discrete}
use sentinel5g.Controller.Names.{name_discrete}
use sentinel5g.Controller.Api.{Policy, PolicyStatus, alerting}
use sentinel5g.Controller.KillSwitch.{KillSwitch, failed}
use sentinel5g.Controller.Watcher.{World, Inputs, Deps, status_decision_changed}
use sentinel5g.Controller.Watcher.Apply.{intent_of, apply_policy, write_status, with_phase}
use sentinel5g.Controller.Watcher.Gates.{SameEnforcement, apply_policy-Withheld, alert_keeps_blocks}
use sentinel5g.Controller.Watcher.Apply
use sentinel5g.Controller.Watcher.WriteAhead.{IsRecorded, apply_policy-IsRecorded}
use sentinel5g.Controller.Reconciler.{
  last_write_failed, Reconciler, Cluster, Library, accepted, refused, policy_finalizer,
}
use sentinel5g.Controller.Reconciler.{Replies}
use sentinel5g.Controller.Reconciler.Handle.{reconcile}
use sentinel5g.Controller.Reconciler.Quiet.{SameWorld, reconcile-SameWorld}
use sentinel5g.Controller.Api.{mitigating}
use sentinel5g.Tests.Fixtures.{pod_a}
use sentinel5g.Controller.Reconciler.Lift.{dwell, try_de_escalate, finalize}
use sentinel5g.Controller.Reconciler.Release.{Releasing, IsLifted}
use sentinel5g.Controller.Reconciler.Deescalation.{
  IsCleared, try_de_escalate-on_time, try_de_escalate-IsLifted, try_de_escalate_failed,
  finalize-IsLifted,
}
use sentinel5g.Tests.Fixtures.{
  hundredths, plain_addresses, Kernel, kernel_maps, unblock_tunnel_in, counting_mesh, one_token,
  source_a, source_b, score_of, blocking_policy,
}

abbrev collaborators : Deps ℕ Kernel ℕ ℕ
collaborators = record {
  fl = hundredths;
  net = plain_addresses;
  ebpf = kernel_maps;
  adapter = counting_mesh;
  rate = one_token;
  base = 90;
}

abbrev world : Option KillSwitch → World Kernel ℕ ℕ
world switch = record {
  index = [];
  statuses = (blocking_policy.key, blocking_policy.status) ∷ [];
  kernel = ((source_a, source_a) ∷ [], []);
  mesh = 1;
  limiters = some [];
  kill_switch = switch;
  tracker = none;
  metrics = [];
}

abbrev at_nine : Inputs
at_nine = record { now = 9; kill_now = 9; kill_after = 9; kill_reply = failed; accepts = true }

apply_policy-IsRecorded_example :
    SameEnforcement
      (world none)
      (apply_policy collaborators at_nine blocking_policy (score_of source_b 6 100) (world none)).0
    ⊎ IsRecorded
        (intent_of plain_addresses blocking_policy (score_of source_b 6 100))
        blocking_policy
        (score_of source_b 6 100)
        (apply_policy collaborators at_nine blocking_policy
          (score_of source_b 6 100)
          (world none)).0
unfolding find name_discrete text_discrete
apply_policy-IsRecorded_example =
    apply_policy-IsRecorded collaborators at_nine blocking_policy (score_of source_b 6 100)
      (world none) refl

apply_policy-Withheld_example :
    SameEnforcement
      (world none)
      (apply_policy collaborators at_nine blocking_policy (score_of source_b 6 40) (world none)).0
unfolding Apply.threshold Apply.sensitivity_multiplier
apply_policy-Withheld_example =
    apply_policy-Withheld collaborators at_nine blocking_policy (score_of source_b 6 40)
      (world none) (inl refl)

-- An operator has stopped all mitigation.
abbrev stopped : Option KillSwitch
stopped = some (record { ttl = pos 10; last_checked = 5; engaged = true; ever_read = true })

alert_keeps_blocks_example :
    (s : PolicyStatus) × (find name_discrete blocking_policy.key
        (apply_policy collaborators at_nine blocking_policy
          (score_of source_b 6 100)
          (world stopped)).0.statuses
      ≡ some s)
    × (s.phase ≡ alerting)
    × (s.blocked_source_ips ≡ source_a ∷ [])
    × (s.blocked_tunnels ≡ [])
unfolding Apply.threshold Apply.sensitivity_multiplier
    sentinel5g.Controller.KillSwitch.check_optional sentinel5g.Controller.KillSwitch.check
alert_keeps_blocks_example =
    alert_keeps_blocks collaborators at_nine blocking_policy (score_of source_b 6 100)
      (world stopped) refl (inr refl) refl mitigating≢alerting
  where
    mitigating≢alerting : blocking_policy.status.phase ≢ alerting
    mitigating≢alerting e = cc

abbrev has_source : Text → Kernel → Bool
has_source ip k = elim (find text_discrete ip k.0) [ none ↦ false | some v ↦ true ]

abbrev has_tunnel : Text → ℕ → Kernel → Bool
has_tunnel ip teid k = elim (find tunnel_id_discrete (record { source_ip = ip; teid = teid }) k.1) [
  | none ↦ false
  | some v ↦ true
]

tunnel_gone :
    (ip : Text) (teid : ℕ) (k : Kernel)
    → (unblock_tunnel_in ip teid k).1 ≡ none
    → has_tunnel ip teid (unblock_tunnel_in ip teid k).0 ≡ false
unfolding unblock_tunnel_in
tunnel_gone ip teid k e =
    let id : TunnelId = record { source_ip = ip; teid = teid } in
    ground (arith, e, find-del tunnel_id_discrete id id k.1)

tunnel_brings_none :
    (ip x : Text) (teid y : ℕ) (k : Kernel)
    → has_tunnel x y k ≡ false
    → has_tunnel x y (unblock_tunnel_in ip teid k).0 ≡ false
unfolding unblock_tunnel_in
tunnel_brings_none ip x teid y k e =
    let id : TunnelId = record { source_ip = ip; teid = teid } in
    let other : TunnelId = record { source_ip = x; teid = y } in
    ground (arith, e, find-del tunnel_id_discrete other id k.1)

tunnel_apart :
    (ip x : Text) (teid : ℕ) (k : Kernel)
    → has_source x (unblock_tunnel_in ip teid k).0 ≡ has_source x k
unfolding unblock_tunnel_in
tunnel_apart ip x teid k = ground arith

source_gone :
    (ip : Text) (k : Kernel)
    → (kernel_maps.unblock ip k).1 ≡ none
    → has_source ip (kernel_maps.unblock ip k).0 ≡ false
source_gone ip k e = ground (arith, find-del text_discrete ip ip k.0)

source_brings_none :
    (ip x : Text) (k : Kernel)
    → has_source x k ≡ false
    → has_source x (kernel_maps.unblock ip k).0 ≡ false
source_brings_none ip x k e = ground (arith, e, find-del text_discrete x ip k.0)

abbrev in_maps : Releasing kernel_maps
in_maps = record {
  holds = has_source;
  holds_tunnel = has_tunnel;
  unblock_gone = source_gone;
  unblock_brings_none = source_brings_none;
  unblock_tunnel_gone = tunnel_gone;
  unblock_tunnel_brings_none = tunnel_brings_none;
  unblock_tunnel_apart = tunnel_apart;
}

-- An object's finalizers, as its list of them.
abbrev pub plain_library : Library
plain_library = record {
  find_condition = λ cs kind. none;
  set_condition = λ cs c. c ∷ cs;
  contains_finalizer = λ policy name. true;
  add_finalizer = λ policy name. record policy { finalizers = name ∷ [] };
  remove_finalizer = λ policy name. record policy { finalizers = [] };
}

abbrev reconciler : Reconciler Kernel ℕ
reconciler = record {
  net = plain_addresses;
  library = plain_library;
  ebpf = some kernel_maps;
  adapter = some counting_mesh;
  scoring = none;
  de_escalation_dwell = pos 10;
}

abbrev cluster : Cluster Kernel ℕ
cluster = record {
  store = (blocking_policy.key, blocking_policy) ∷ [];
  index = [];
  kernel = ((source_a, source_a) ∷ [], []);
  mesh = 1;
}

try_de_escalate-on_time_example :
    ((now : ℕ)
      → now < 5 + 10
      → ((try_de_escalate reconciler now accepted blocking_policy cluster).cluster ≡ cluster)
        × (now + (try_de_escalate reconciler now accepted blocking_policy cluster).requeue_after
            ≡ 5 + 10)
        × ((try_de_escalate reconciler now accepted blocking_policy cluster).failure ≡ none))
    × ((now : ℕ)
        → 5 + 10 ≤ now
        → ((try_de_escalate reconciler now accepted blocking_policy cluster).requeue_after ≡ 0)
          × (((try_de_escalate reconciler now accepted blocking_policy cluster).failure ≢ none)
              ⊎ IsCleared reconciler blocking_policy
                  (try_de_escalate reconciler now accepted blocking_policy cluster).cluster))
try_de_escalate-on_time_example =
    try_de_escalate-on_time reconciler 5 accepted blocking_policy cluster refl

try_de_escalate-IsLifted_example :
    IsLifted plain_addresses kernel_maps in_maps blocking_policy
      (try_de_escalate reconciler 15 accepted blocking_policy cluster).cluster.kernel
    × IsCleared reconciler blocking_policy
        (try_de_escalate reconciler 15 accepted blocking_policy cluster).cluster
unfolding try_de_escalate dwell sentinel5g.Controller.Reconciler.Lift.lift
    sentinel5g.Controller.Reconciler.Lift.unblock_all
    sentinel5g.Controller.Reconciler.unblock_sources
    sentinel5g.Controller.Reconciler.unblock_tunnels sentinel5g.Controller.Reconciler.Lift.release
    sentinel5g.Controller.Watcher.first_match_labels text_discrete
    sentinel5g.Controller.Reconciler.Lift.settle
try_de_escalate-IsLifted_example =
    try_de_escalate-IsLifted reconciler kernel_maps in_maps refl 15 5 accepted blocking_policy
      cluster refl (unfold dwell in omega arith) refl

refused_write :
    (try_de_escalate reconciler 15 refused blocking_policy cluster).failure ≡ some last_write_failed
unfolding try_de_escalate dwell sentinel5g.Controller.Reconciler.Lift.lift
    sentinel5g.Controller.Reconciler.Lift.unblock_all
    sentinel5g.Controller.Reconciler.unblock_sources
    sentinel5g.Controller.Reconciler.unblock_tunnels sentinel5g.Controller.Reconciler.Lift.release
    sentinel5g.Controller.Watcher.first_match_labels text_discrete
    sentinel5g.Controller.Reconciler.Lift.settle
refused_write = refl

try_de_escalate_failed_example :
    ((try_de_escalate reconciler 15 refused blocking_policy cluster).cluster.store ≡ cluster.store)
    × ((try_de_escalate reconciler 15 refused blocking_policy cluster).cluster.index
        ≡ cluster.index)
try_de_escalate_failed_example =
    try_de_escalate_failed reconciler 15 refused blocking_policy cluster fails
  where
    fails : (try_de_escalate reconciler 15 refused blocking_policy cluster).failure ≢ none
    fails e = none≢some (sym e ∙ refused_write)
      where
        none≢some : none ≢ some last_write_failed
        none≢some d = cc

finalize-IsLifted_example :
    (IsLifted plain_addresses kernel_maps in_maps blocking_policy
        (finalize reconciler accepted blocking_policy cluster).cluster.kernel
      × (find name_discrete blocking_policy.key
            (finalize reconciler accepted blocking_policy cluster).cluster.store
          ≡ some (plain_library.remove_finalizer blocking_policy policy_finalizer)))
    ⊎ ((finalize reconciler accepted blocking_policy cluster).failure ≢ none)
      × ((finalize reconciler accepted blocking_policy cluster).cluster.store ≡ cluster.store)
      × ((finalize reconciler accepted blocking_policy cluster).cluster.index ≡ cluster.index)
finalize-IsLifted_example =
    finalize-IsLifted reconciler kernel_maps in_maps refl accepted blocking_policy cluster refl

abbrev calm_policy : Policy
calm_policy = record blocking_policy {
  status = record (blocking_policy.status) { phase = alerting };
}

abbrev calm_cluster : Cluster Kernel ℕ
calm_cluster = record cluster { store = (calm_policy.key, calm_policy) ∷ [] }

abbrev all_accepted : Replies
all_accepted = record {
  readable = true;
  finalizer_write = accepted;
  phase_write = accepted;
  condition_write = accepted;
  last_write = accepted;
}

reconcile-SameWorld_example :
    SameWorld calm_cluster (reconcile reconciler 90 all_accepted pod_a calm_cluster).cluster
unfolding find name_discrete text_discrete
reconcile-SameWorld_example =
    reconcile-SameWorld reconciler 90 all_accepted pod_a calm_policy calm_cluster keeps refl refl
      alerting≢mitigating
  where
    keeps : (p : Policy) (name : Text) → (plain_library.add_finalizer p name).status ≡ p.status
    keeps p name = refl

    alerting≢mitigating : calm_policy.status.phase ≢ mitigating
    alerting≢mitigating e = cc
