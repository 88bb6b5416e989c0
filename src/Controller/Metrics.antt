-- ===== src/Controller/Metrics.antt =====
-- pkg/controller/metrics.go: the series that belong to one policy. Prometheus's vectors are parameters.
pub mod Gauges
use sentinel5g.Prelude.{ℕ, ◌≡◌, List, [], ◌∷◌, Option, none, some, ite}
use sentinel5g.Controller.Names.{NamespacedName, name_discrete}
use sentinel5g.Controller.Api.{
  Phase, pending, monitoring, alerting, mitigating, degraded, phase_discrete,
}

-- The labels namespace and policy with phase, or with outcome.
pub record Labels : Type 0 where
  pub policy : NamespacedName
  pub phase : Phase

unfoldable pub labels_discrete : Discrete Labels
labels_discrete = hlevel (name_discrete, phase_discrete)

-- A vector of series, as far as metrics.go calls it: WithLabelValues(…).Set and DeletePartialMatch of
-- a namespace and a policy.
pub record GaugeVec (G : Type 0) : Type 0 where
  pub set : Labels → ℕ → G → G
  pub delete_partial_match : NamespacedName → G → G

pub record CounterVec (C : Type 0) : Type 0 where
  pub delete_partial_match : NamespacedName → C → C

pub record Registry (G C T : Type 0) : Type 0 where
  pub policy_phase : G
  pub threshold_crossings : C
  pub reactor_throttled : T

abbrev pub all_policy_phases : List Phase
all_policy_phases = pending ∷ monitoring ∷ alerting ∷ mitigating ∷ degraded ∷ []

unfoldable pub phase_value : Phase → Phase → ℕ
phase_value p phase = ite (phase_discrete p phase) 1 0

module _ {G : Type 0} (gauges : GaugeVec G) where
  unfoldable pub set_phases : NamespacedName → Phase → List Phase → G → G
  set_phases policy phase [] g = g
  set_phases policy phase (p ∷ ps) g =
      set_phases policy phase ps
        (gauges.set (record { policy = policy; phase = p }) (phase_value p phase) g)

  -- SetPolicyPhase
  unfoldable pub set_policy_phase :
      {C T : Type 0} → NamespacedName → Phase → Registry G C T → Registry G C T
  set_policy_phase policy phase r = record r {
    policy_phase = set_phases policy phase all_policy_phases r.policy_phase;
  }

  -- ForgetPolicyMetrics
  unfoldable pub forget_policy_metrics :
      {C T : Type 0}
      → CounterVec C
      → CounterVec T
      → NamespacedName
      → Registry G C T
      → Registry G C T
  forget_policy_metrics crossings throttled policy r = record {
    policy_phase = gauges.delete_partial_match policy r.policy_phase;
    threshold_crossings = crossings.delete_partial_match policy r.threshold_crossings;
    reactor_throttled = throttled.delete_partial_match policy r.reactor_throttled;
  }

-- What is asked of Prometheus: a Set is read back at its labels only, and a partial match deletes the
-- series of that policy and no other.
pub record GaugeLaws {G : Type 0} (gauges : GaugeVec G) : Type 0 where
  pub read : Labels → G → Option ℕ
  pub read_set :
      (l j : Labels) (n : ℕ) (g : G)
      → read j (gauges.set l n g) ≡ ite (labels_discrete l j) (some n) (read j g)
  pub read_delete :
      (policy : NamespacedName) (j : Labels) (g : G)
      → read j (gauges.delete_partial_match policy g)
        ≡ ite (name_discrete policy j.policy) none (read j g)
