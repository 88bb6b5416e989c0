-- ===== src/Controller/Watcher.antt =====
-- pkg/controller/threat_score_watcher.go: closed-loop mitigation. One score is handled at a time;
-- the API server, the kernel, the mesh and the clock enter as a state and as inputs.
pub mod Apply
pub mod Decision
pub mod Sets
pub mod Gates
pub mod WriteAhead
pub mod Handle
pub mod Writes
pub mod Claims
pub mod Snapshot
pub mod Agreement
use sentinel5g.Prelude.{
  ℕ, ◌+◌, ◌==◌, Bool, true, false, not, ◌&&◌, List, [], ◌∷◌, ◌++◌, Option, none, some, Text, codes,
  text_discrete, if◌then◌else◌, ite, length,
}
use sentinel5g.Prelude.Map.{Map, find, put}
use sentinel5g.Events.{ThreatScoreEvent, Floats}
use sentinel5g.Ebpf.Interface.{Ip, EbpfError, is_map_full, BlocklistUpdater}
use sentinel5g.Mesh.Interface.{Adapter}
use sentinel5g.Controller.Names.{NamespacedName, name_discrete}
use sentinel5g.Controller.Api.{
  Sensitivity, high, medium, low, other, Phase, alerting, mitigating, monitoring, phase_discrete,
  Policy, PolicyStatus, WorkloadSelector,
}
use sentinel5g.Controller.Tunnels.{Addresses, format_tunnel}
use sentinel5g.Controller.PolicyIndex.{PolicyIndex, put_policy, matching_policies, no_labels}
use sentinel5g.Controller.KillSwitch.{KillSwitch, ConfigReply, check_optional}
use sentinel5g.Controller.Limiter.{Buckets, Limiters}
use sentinel5g.Controller.Limiter
use sentinel5g.Controller.Scoring.{Tracker}
use sentinel5g.Controller.Scoring

pub data Action : Type 0 where
  ebpf_block_tunnel ebpf_block mesh_quarantine : Action

pub data Outcome : Type 0 where
  success error no_teid : Outcome

-- The counters that the watcher increments. The histogram of scores and the gauge of the kill
-- switch are left out: nothing reads them back.
pub data Metric : Type 0 where
  score_received : Text → Metric
  crossing : NamespacedName → Phase → Metric
  suppressed : Action → Metric
  mitigation : Action → Outcome → Metric
  mitigation_map_full : Action → Metric
  reactor_throttled : NamespacedName → Metric
  policy_phase : NamespacedName → Phase → Metric

pub data ApplyError : Type 0 where
  update_failed block_tunnel_failed block_failed quarantine_failed : ApplyError

-- What the watcher reads and writes: the index, the statuses that the API server has, the kernel,
-- the mesh, the limiter, the switch, the tracker and the increments of the counters (their order says nothing).
pub record World (K M L : Type 0) : Type 0 where
  pub index : PolicyIndex
  pub statuses : Map NamespacedName PolicyStatus
  pub kernel : K
  pub mesh : M
  pub limiters : Option (Limiters L)
  pub kill_switch : Option KillSwitch
  pub tracker : Option Tracker
  pub metrics : List Metric

-- What happens outside while one policy is applied: the time, what the kill switch would read, and
-- whether the API server accepts a status write.
pub record Inputs : Type 0 where
  pub now : ℕ
  pub kill_now : ℕ
  pub kill_after : ℕ
  pub kill_reply : ConfigReply
  pub accepts : Bool

-- The watcher's collaborators and its setting: the floats, Go's net package, the kernel, the mesh,
-- the token buckets and BaseThreshold.
pub record Deps (F K M L : Type 0) : Type 0 where
  pub fl : Floats F
  pub net : Addresses
  pub ebpf : BlocklistUpdater K
  pub adapter : Adapter M
  pub rate : Buckets L
  pub base : F

-- appendUnique
unfoldable pub append_unique : List Text → Text → List Text
append_unique [] ip = ip ∷ []
append_unique (x ∷ xs) ip = ite (text_discrete x ip) (x ∷ xs) (x ∷ append_unique xs ip)

-- Whether a text stands in the list.
unfoldable pub contains : Text → List Text → Bool
contains x [] = false
contains x (y ∷ ys) = ite (text_discrete y x) true (contains x ys)

unfoldable pub all_in : List Text → List Text → Bool
all_in a [] = true
all_in a (x ∷ xs) = if contains x a then all_in a xs else false

-- equalStringSet
unfoldable pub equal_string_set : List Text → List Text → Bool
equal_string_set a b = if length a == length b then all_in a b else false

-- statusDecisionChanged
unfoldable pub status_decision_changed : PolicyStatus → PolicyStatus → Bool
status_decision_changed prev next =
    ite (phase_discrete prev.phase next.phase)
      (if equal_string_set prev.blocked_source_ips next.blocked_source_ips
        then not (equal_string_set prev.blocked_tunnels next.blocked_tunnels)
        else true)
      true

-- firstMatchLabels
unfoldable pub first_match_labels : List WorkloadSelector → Option (Map Text Text)
first_match_labels [] = none
first_match_labels (sel ∷ sels) =
    let rest = first_match_labels sels in
    ite (text_discrete sel.app [])
      (if no_labels sel.match_labels then rest else some sel.match_labels)
      (some ((codes "app", sel.app) ∷ []))

-- suppressedActions
unfoldable pub suppressed_actions : Policy → List Action
suppressed_actions policy =
    (if policy.spec.actions.ebpf_block_tunnel then ebpf_block_tunnel ∷ [] else [])
    ++ ((if policy.spec.actions.ebpf_block then ebpf_block ∷ [] else [])
        ++ (if policy.spec.actions.isolate_pod then mesh_quarantine ∷ [] else []))

-- What applyPolicy decides to do, with the guards that the execution shares.
pub record Intent : Type 0 where
  pub tunnel : Option Ip
  pub source : Option Ip
  pub quarantine : Option (Map Text Text)

unfoldable pub when : {A : Type 0} → Bool → Option A → Option A
when b o = if b then o else none
