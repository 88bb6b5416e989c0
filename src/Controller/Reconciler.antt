-- ===== src/Controller/Reconciler.antt =====
-- pkg/controller/telecomsecuritypolicy_controller.go: what the operator does each time a policy is
-- looked at. The API server, the kernel and the mesh are a state, and the replies to the writes
-- are inputs. The gauges of the phases, the log and the events are left out.
pub mod Lift
pub mod Handle
pub mod Release
pub mod Deescalation
pub mod OverLoader
pub mod Quiet
use sentinel5g.Prelude.{
  ℕ, ◌+◌, ◌==◌, Bool, true, false, not, ◌&&◌, List, [], ◌∷◌, Option, none, some, Text, codes,
  text_discrete, if◌then◌else◌, ite, ltb,
}
use sentinel5g.Prelude.Int.{ℤ, pos, sub_ℕ, ltb_ℤ, pos_part}
use sentinel5g.Prelude.Map.{Map, find, put}
use sentinel5g.Ebpf.Interface.{Ip, EbpfError, BlocklistUpdater}
use sentinel5g.Mesh.Interface.{Adapter}
use sentinel5g.Controller.Names.{NamespacedName, name_discrete}
use sentinel5g.Controller.Api.{
  Policy, PolicyStatus, Condition, Phase, unset, pending, monitoring, mitigating, phase_discrete,
}
use sentinel5g.Controller.Tunnels.{Addresses, parse_tunnel}
use sentinel5g.Controller.PolicyIndex.{PolicyIndex, put_policy, remove_policy}
use sentinel5g.Controller.Scoring.{
  Reason, scores_received, awaiting_first_score, no_threat_scores_received, Tracker,
}
use sentinel5g.Controller.Scoring
use sentinel5g.Controller.Watcher.{first_match_labels}

-- telecomSecurityPolicyFinalizer, ConditionScoringPipelineReady and defaultDeEscalationDwell, five
-- minutes in nanoseconds.
abbrev pub policy_finalizer : Text
policy_finalizer = codes "security.sentinel5g.io/finalizer"

abbrev pub condition_scoring_pipeline_ready : Text
condition_scoring_pipeline_ready = codes "ScoringPipelineReady"

abbrev pub default_de_escalation_dwell : ℕ
default_de_escalation_dwell = 300000000000

-- What the source calls of apimachinery's meta package and of controller-runtime's controllerutil.
pub record Library : Type 0 where
  pub find_condition : List Condition → Text → Option Condition
  pub set_condition : List Condition → Condition → List Condition
  pub contains_finalizer : Policy → Text → Bool
  pub add_finalizer : Policy → Text → Policy
  pub remove_finalizer : Policy → Text → Policy

pub data Reply : Type 0 where
  accepted conflict refused : Reply

-- The replies to the requests of one Reconcile, in the order in which it makes them: the read,
-- where `none` is an error; the write of the finalizer, of the phase and of the condition; and the
-- write that ends a de-escalation or a finalization.
pub record Replies : Type 0 where
  pub readable : Bool
  pub finalizer_write : Reply
  pub phase_write : Reply
  pub condition_write : Reply
  pub last_write : Reply

pub data ReconcileError : Type 0 where
  get_failed finalizer_failed status_failed condition_failed : ReconcileError
  unblock_failed unblock_tunnel_failed release_failed last_write_failed : ReconcileError

-- The policies that the API server has, the operator's index of them, the kernel and the mesh.
pub record Cluster (K M : Type 0) : Type 0 where
  pub store : Map NamespacedName Policy
  pub index : PolicyIndex
  pub kernel : K
  pub mesh : M

-- ctrl.Result's RequeueAfter, in nanoseconds, and the error.
pub record Reconciled (K M : Type 0) : Type 0 where
  pub cluster : Cluster K M
  pub requeue_after : ℕ
  pub failure : Option ReconcileError

pub record Reconciler (K M : Type 0) : Type 0 where
  pub net : Addresses
  pub library : Library
  pub ebpf : Option (BlocklistUpdater K)
  pub adapter : Option (Adapter M)
  pub scoring : Option Tracker
  pub de_escalation_dwell : ℤ

-- withSoonerRequeue, on RequeueAfter.
unfoldable pub with_sooner_requeue : ℕ → ℕ → ℕ
with_sooner_requeue requeue_after after =
    if after == 0
    then requeue_after
    else if requeue_after == 0
    then after
    else if ltb after requeue_after
    then after
    else requeue_after

unfoldable pub reason_text : Reason → Text
reason_text scores_received = codes "ScoresReceived"
reason_text awaiting_first_score = codes "AwaitingFirstScore"
reason_text no_threat_scores_received = codes "NoThreatScoresReceived"

unfoldable pub is_ready : Reason → Bool
is_ready scores_received = true
is_ready _ = false

-- Whether the condition that the policy has says the same.
unfoldable pub says_same : Option Condition → Condition → Bool
says_same none c = false
says_same (some e) c =
    if (if e.holds then c.holds else not c.holds)
    then ite (text_discrete e.reason c.reason) true false
    else false

-- The loop over the blocked sources: an entry that does not parse is passed over, and the first
-- call that fails ends it.
unfoldable pub unblock_sources :
    {K : Type 0} → Addresses → BlocklistUpdater K → List Text → K → K × Bool
unblock_sources net ebpf [] k = (k, true)
unblock_sources net ebpf (raw ∷ raws) k = elim (net.parse_ip raw) [
  | none ↦ unblock_sources net ebpf raws k
  | some ip ↦
      let (k', e) = ebpf.unblock ip k in
      let rest = unblock_sources net ebpf raws k' in
      elim e [ none ↦ rest | some failure ↦ (k', false) ]
]

-- The loop over the blocked tunnels.
unfoldable pub unblock_tunnels :
    {K : Type 0} → Addresses → BlocklistUpdater K → List Text → K → K × Bool
unblock_tunnels net ebpf [] k = (k, true)
unblock_tunnels net ebpf (entry ∷ entries) k = elim (parse_tunnel net entry) [
  | none ↦ unblock_tunnels net ebpf entries k
  | some (ip, teid) ↦
      let (k', e) = ebpf.unblock_tunnel ip teid k in
      let rest = unblock_tunnels net ebpf entries k' in
      elim e [ none ↦ rest | some failure ↦ (k', false) ]
]

abbrev pub give_up : {K M : Type 0} → Cluster K M → ReconcileError → Reconciled K M
give_up c e = record { cluster = c; requeue_after = 0; failure = some e }

abbrev pub finish : {K M : Type 0} → Cluster K M → ℕ → Reconciled K M
finish c after = record { cluster = c; requeue_after = after; failure = none }
