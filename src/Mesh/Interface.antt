-- ===== src/Mesh/Interface.antt =====
-- The Adapter interface of pkg/mesh/adapter.go, over the state `M` of the mesh: a namespace and a
-- label selector name the workload; the Boolean is whether the call succeeded.
use sentinel5g.Prelude.{Bool, Text}
use sentinel5g.Prelude.Map.{Map}

pub record Adapter (M : Type 0) : Type 0 where
  pub quarantine : Text → Map Text Text → M → M × Bool
  pub release : Text → Map Text Text → M → M × Bool
