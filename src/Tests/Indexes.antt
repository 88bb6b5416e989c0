-- ===== src/Tests/Indexes.antt =====
-- The indexes and the tunnel entries of pkg/controller on small runs.
use sentinel5g.Prelude.{◌≡◌, inl, List, [], ◌∷◌, some, Text, refl, arith, codes, text_discrete}
use sentinel5g.Prelude.Map.{Map, find}
use sentinel5g.Controller.Names.{NamespacedName}
use sentinel5g.Controller.PodIpIndex.{new_index, PodReply, found, not_found}
use sentinel5g.Controller.PodIpIndex.Ownership.{IsConsistent, run_pods, run_pods-IsConsistent}
use sentinel5g.Controller.PolicyIndex.Selectors.{SomeSelects}
use sentinel5g.Controller.PolicyIndex.View.{Write, puts, removes}
use sentinel5g.Controller.Tunnels.{parse_tunnel, format_tunnel}
use sentinel5g.Controller.Tunnels.RoundTrip.{parse_tunnel-format_tunnel}
use sentinel5g.Tests.Fixtures.{plain_addresses, source_a, source_b, pod_a, pod_b, blocking_policy}

-- An address moves from one Pod to another, and the first Pod is deleted late.
abbrev reused_address : List (NamespacedName × PodReply)
reused_address = (pod_a, found source_a) ∷ (pod_b, found source_a) ∷ (pod_a, not_found) ∷ []

run_pods-IsConsistent_example : IsConsistent (run_pods new_index reused_address)
run_pods-IsConsistent_example = run_pods-IsConsistent reused_address

abbrev both_pods : List (NamespacedName × PodReply)
both_pods = (pod_a, found source_a) ∷ (pod_b, found source_b) ∷ []

abbrev two_writes : List Write
two_writes = puts blocking_policy ∷ removes pod_b ∷ []

-- The labels of a workload that the policy's selector takes.
abbrev protected_labels : Map Text Text
protected_labels = (codes "app", 7 ∷ []) ∷ []

-- It does take it, so that the policy is among those that are given.
protected : SomeSelects blocking_policy.spec.target_workloads protected_labels
unfolding sentinel5g.Controller.PolicyIndex.label find text_discrete
protected = inl (inl (λ e. cc), (λ h. refl), tt)

parse_tunnel-format_tunnel_example :
    parse_tunnel plain_addresses (format_tunnel source_a 4294967295) ≡ some (source_a, 4294967295)
parse_tunnel-format_tunnel_example =
    parse_tunnel-format_tunnel plain_addresses source_a source_a 4294967295 refl (omega arith, tt)
      (omega arith)
