-- ===== src/Controller/Api.antt =====
-- api/v1alpha1/telecomsecuritypolicy_types.go: the policy resource. Of an object's metadata the
-- model keeps what the operator reads: the name, whether deletion has begun, and the finalizers.
use sentinel5g.Prelude.{ℕ, Bool, List, Option, Text}
use sentinel5g.Prelude.Map.{Map}
use sentinel5g.Controller.Names.{NamespacedName}

pub record WorkloadSelector : Type 0 where
  pub app : Text
  pub match_labels : Map Text Text

-- A string in Go; `other` is any value outside the three constants.
pub data Sensitivity : Type 0 where
  high medium low other : Sensitivity

pub record ThreatDetectionSpec : Type 0 where
  pub sensitivity : Sensitivity
  pub auto_mitigate : Bool

pub record ActionsSpec : Type 0 where
  pub ebpf_block : Bool
  pub ebpf_block_tunnel : Bool
  pub isolate_pod : Bool

pub record PolicySpec : Type 0 where
  pub target_workloads : List WorkloadSelector
  pub threat_detection : ThreatDetectionSpec
  pub actions : ActionsSpec

-- PolicyPhase; `unset` is the empty string.
pub data Phase : Type 0 where
  unset pending monitoring alerting mitigating degraded : Phase

unfoldable pub phase_discrete : Discrete Phase
phase_discrete = hlevel

-- metav1.Condition, less its message and times.
pub record Condition : Type 0 where
  pub kind : Text
  pub holds : Bool
  pub reason : Text

pub record PolicyStatus : Type 0 where
  pub phase : Phase
  pub observed_threat_score : Text
  pub last_mitigation_time : Option ℕ
  pub blocked_source_ips : List Text
  pub blocked_tunnels : List Text
  pub conditions : List Condition

pub record Policy : Type 0 where
  pub key : NamespacedName
  pub deleting : Bool
  pub finalizers : List Text
  pub spec : PolicySpec
  pub status : PolicyStatus
