-- ===== src/Tests/Gauges.antt =====
-- The phase gauge of pkg/controller/metrics.go over a vector kept in a map.
use sentinel5g.Prelude.{ℕ, ◌≡◌, ◌≢◌, arith, ap, List, [], ◌∷◌, Option, none, some, ite, refl, codes}
use sentinel5g.Prelude.Map.{Map, find, put, find-put}
use sentinel5g.Controller.Names.{NamespacedName, name_discrete}
use sentinel5g.Controller.Api.{unset, mitigating, degraded}
use sentinel5g.Controller.Metrics.{
  Labels, GaugeVec, CounterVec, GaugeLaws, Registry, labels_discrete,
}
use sentinel5g.Controller.Metrics.Gauges.{
  Update, reported, forgotten, apply_updates, apply_updates-reads,
}

-- A vector of gauges that keeps its series in a map.
forget_series : NamespacedName → Map Labels ℕ → Map Labels ℕ
forget_series policy [] = []
forget_series policy ((l, n) ∷ g) =
    let rest = forget_series policy g in ite (name_discrete policy l.policy) rest ((l, n) ∷ rest)

abbrev map_gauges : GaugeVec (Map Labels ℕ)
map_gauges = record { set = put labels_discrete; delete_partial_match = forget_series }

find-forget_series :
    (policy : NamespacedName) (j : Labels) (g : Map Labels ℕ)
    → find labels_discrete j (forget_series policy g)
      ≡ ite (name_discrete policy j.policy) none (find labels_discrete j g)
unfolding find forget_series
find-forget_series policy j [] = ground arith
find-forget_series policy j ((l, n) ∷ g) =
    let below = find-forget_series policy j g in
    elim (labels_discrete l j) [
      | yes same ↦
          let named : l.policy ≡ j.policy = ap (λ (x : Labels). x.policy) same in
          ground (arith, below, named)
      | no apart ↦ ground (arith, below, apart)
    ]

abbrev gauge_laws : GaugeLaws map_gauges
gauge_laws = record {
  read = find labels_discrete;
  read_set = λ l j n g. find-put labels_discrete j l n g;
  read_delete = find-forget_series;
}

abbrev no_counters : CounterVec (List ℕ)
no_counters = record { delete_partial_match = λ policy c. c }

abbrev fresh : Registry (Map Labels ℕ) (List ℕ) (List ℕ)
fresh = record { policy_phase = []; threshold_crossings = []; reactor_throttled = [] }

abbrev core : NamespacedName
core = record { namespace = codes "core"; name = codes "amf" }

abbrev edge : NamespacedName
edge = record { namespace = codes "edge"; name = codes "upf" }

-- Degraded after Mitigating, with another policy forgotten in between.
abbrev history : List Update
history = reported core degraded ∷ forgotten edge ∷ reported core mitigating ∷ []

apply_updates-reads_example :
    find labels_discrete
      (record { policy = core; phase = degraded })
      (apply_updates map_gauges no_counters no_counters history fresh).policy_phase
    ≡ some 1
unfolding find sentinel5g.Controller.Metrics.Gauges.one_hot
    sentinel5g.Controller.Metrics.Gauges.latest name_discrete sentinel5g.Prelude.text_discrete
    sentinel5g.Controller.Metrics.phase_value sentinel5g.Controller.Api.phase_discrete
apply_updates-reads_example =
    apply_updates-reads map_gauges gauge_laws no_counters no_counters history fresh core degraded
      degraded_known (λ j. refl)
  where
    degraded_known : degraded ≢ unset
    degraded_known e = cc
