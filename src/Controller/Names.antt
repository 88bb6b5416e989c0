-- ===== src/Controller/Names.antt =====
-- Names of API objects: k8s.io/apimachinery's types.NamespacedName and pkg/controller's PodRef,
-- which has the same two fields and stands for the same Pod.
use sentinel5g.Prelude.{Text, text_discrete}

pub record NamespacedName : Type 0 where
  pub namespace : Text
  pub name : Text

unfoldable pub name_discrete : Discrete NamespacedName
name_discrete = hlevel text_discrete
