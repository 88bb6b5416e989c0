-- ===== src/Tests/Meshes.antt =====
-- The mesh adapters over an API server that keeps its objects in a map and never fails.
use mathlib.Core.List.{Permᴰ}
use sentinel5g.Prelude.{
  ◌≡◌, ◌≢◌, inl, inr, Bool, true, false, List, [], ◌∷◌, Option, none, some, Text, codes,
  text_discrete, ite, if◌then◌else◌, refl, arith, sym, ap, ◌∙◌, subst,
}
use sentinel5g.Prelude.Map.{Map, find, put, del, find-put, find-del}
use sentinel5g.Mesh.Client.{
  Kind, kind_discrete, server, authorization_policy, cilium_network_policy, ObjectName, Content,
  GetReply, existing, not_found, DeleteReply, deleted, already_gone, Client, ClientLaws, Among,
  delete_if_exists,
}
use sentinel5g.Mesh.Adapters.{
  quarantine_name, quarantined, linkerd_release, delete_each, server_content, quarantine_for_label,
}
use sentinel5g.Mesh.Order.{quarantine_name-Perm}
use sentinel5g.Mesh.Isolation.{
  cilium, adapter_of, IsDenial, quarantine-release, linkerd_release-clears,
}

abbrev Store : Type 0
Store = Map ObjectName Content

unfoldable object_name_discrete : Discrete ObjectName
object_name_discrete = hlevel (kind_discrete, text_discrete)

-- Whether an object is a Server of the namespace with the label.
is_labelled : Text → Text → Text → ObjectName → Content → Bool
is_labelled namespace key value n c =
    ite (kind_discrete n.kind server)
      (ite (text_discrete n.namespace namespace)
        (elim (find text_discrete key c.labels) [
          | none ↦ false
          | some v ↦ ite (text_discrete v value) true false
        ])
        false)
      false

labelled : Text → Text → Text → Store → List ObjectName
labelled namespace key value [] = []
labelled namespace key value ((n, c) ∷ m) =
    let rest = labelled namespace key value m in
    if is_labelled namespace key value n c then n ∷ rest else rest

get_in : ObjectName → Store → GetReply
get_in n m = elim (find object_name_discrete n m) [ none ↦ not_found | some c ↦ existing [] ]

delete_in : ObjectName → Store → Store × DeleteReply
delete_in n m = (del object_name_discrete n m, deleted)

abbrev store_client : Client Store
store_client = record {
  get = get_in;
  create = λ n c m. (put object_name_discrete n c m, true);
  update = λ n v c m. (put object_name_discrete n c m, true);
  delete = delete_in;
  pod_ports = λ namespace selector m. none;
  servers_labelled = λ namespace key value m. some (labelled namespace key value m);
}

find_written :
    (n : ObjectName) (c : Content) (m : Store)
    → find object_name_discrete n (put object_name_discrete n c m) ≡ some c
find_written n c m = ground (arith, find-put object_name_discrete n n c m)

find_other :
    (n j : ObjectName) (c : Content) (m : Store)
    → j ≢ n
    → find object_name_discrete j (put object_name_discrete n c m) ≡ find object_name_discrete j m
find_other n j c m h =
    ground (arith, λ (e : n ≡ j). h (sym e), find-put object_name_discrete j n c m)

delete_in-find :
    (n j : ObjectName) (m : Store)
    → find object_name_discrete j (delete_in n m).0
      ≡ ite (object_name_discrete n j) none (find object_name_discrete j m)
unfolding delete_in
delete_in-find n j m = find-del object_name_discrete j n m

is_labelled-true :
    (key value : Text) (n : ObjectName) (c : Content)
    → n.kind ≡ server
    → find text_discrete key c.labels ≡ some value
    → is_labelled n.namespace key value n c ≡ true
unfolding is_labelled
is_labelled-true key value n c kind label = ground (arith, kind, label)

Among-if :
    (n j : ObjectName) (l : List ObjectName) (b : Bool)
    → Among n l
    → Among n (if b then j ∷ l else l)
Among-if n j l true h = inr h
Among-if n j l false h = h

labelled-Among :
    (n : ObjectName) (key value : Text) (c : Content) (m : Store)
    → n.kind ≡ server
    → find object_name_discrete n m ≡ some c
    → find text_discrete key c.labels ≡ some value
    → Among n (labelled n.namespace key value m)
unfolding labelled find
labelled-Among n key value c [] kind here label = absurd (cc)
labelled-Among n key value c ((j, d) ∷ m) kind here label =
    let later =
      λ (h : find object_name_discrete n m ≡ some c). labelled-Among n key value c m kind h label in
    elim (object_name_discrete j n) [
      | yes same ↦
          let is : d ≡ c = ground (arith, here, same) in
          let hit : is_labelled n.namespace key value j d ≡ true =
            ap (λ x. is_labelled n.namespace key value x d) same
            ∙ ap (is_labelled n.namespace key value n) is
            ∙ is_labelled-true key value n c kind label in
          rw hit (inl same)
      | no other ↦
          Among-if n j (labelled n.namespace key value m) (is_labelled n.namespace key value j d)
            (later (ground (arith, here, other)))
    ]

listed_all : {x y : List ObjectName} → ◌≡◌ {A = Option (List ObjectName)} (some x) (some y) → x ≡ y
listed_all h = cc

abbrev store_laws : ClientLaws store_client
store_laws = record {
  at = λ n m. find object_name_discrete n m;
  create_effect = λ n c m h. find_written n c m;
  update_effect = λ n v c m h. find_written n c m;
  delete_effect = λ n m h. ground (arith, delete_in-find n n m);
  create_other = λ n j c m h. find_other n j c m h;
  update_other = λ n j v c m h. find_other n j c m h;
  delete_other = λ n j m h. ground (arith, λ (e : n ≡ j). h (sym e), delete_in-find n j m);
  delete_keeps_gone = λ n j m h. ground (arith, h, delete_in-find n j m);
  list_complete = λ n key value c m names kind listed here label.
      subst (Among n) (listed_all listed) (labelled-Among n key value c m kind here label);
}

abbrev amf : Map Text Text
amf = (codes "app", codes "amf") ∷ []

abbrev bystander : ObjectName
bystander = record { kind = server; namespace = codes "core"; name = codes "other" }

quarantine-release_example :
    let during = ((adapter_of store_client cilium).quarantine (codes "core") amf []).0 in
    let after = ((adapter_of store_client cilium).release (codes "core") amf during).0 in
    ((c : Content) × (find object_name_discrete
          (quarantined cilium_network_policy (codes "core") amf)
          during
        ≡ some c)
      × IsDenial cilium amf c)
    × (find object_name_discrete (quarantined cilium_network_policy (codes "core") amf) after
        ≡ none)
    × (find object_name_discrete bystander during ≡ none)
    × (find object_name_discrete bystander after ≡ none)
unfolding sentinel5g.Mesh.Adapters.cilium_adapter sentinel5g.Mesh.Client.create_or_update get_in
    find sentinel5g.Mesh.Client.delete_if_exists delete_in
quarantine-release_example =
    quarantine-release store_client store_laws cilium (codes "core") amf [] bystander apart refl
      refl
  where
    apart : bystander ≢ quarantined cilium_network_policy (codes "core") amf
    apart e = cc

abbrev closed_port : Content
closed_port = server_content (quarantine_name amf) amf 8080

always_deleted : (names : List ObjectName) (m : Store) → (delete_each store_client names m).1 ≡ true
unfolding delete_each delete_if_exists delete_in
always_deleted [] m = refl
always_deleted (n ∷ names) m = always_deleted names (delete_in n m).0

released :
    (namespace : Text) (selector : Map Text Text) (m : Store)
    → (linkerd_release store_client namespace selector m).1 ≡ true
unfolding linkerd_release
released namespace selector m =
    always_deleted (labelled namespace quarantine_for_label (quarantine_name selector) m) m

abbrev cluster : Store
cluster = (bystander, closed_port) ∷ []

in_cluster : find object_name_discrete bystander cluster ≡ some closed_port
unfolding find
in_cluster = ground arith

closed_port_labelled :
    find text_discrete quarantine_for_label closed_port.labels ≡ some (quarantine_name amf)
unfolding find text_discrete
closed_port_labelled = refl

linkerd_release-clears_example :
    find object_name_discrete bystander (linkerd_release store_client (codes "core") amf cluster).0
    ≡ none
linkerd_release-clears_example =
    linkerd_release-clears store_client store_laws amf cluster bystander closed_port refl in_cluster
      closed_port_labelled (released (codes "core") amf cluster)

-- Two labels of a selector, and the same two in the other order.
abbrev slice : Map Text Text
slice = (codes "slice", codes "1") ∷ amf

abbrev slice_reordered : Map Text Text
slice_reordered = (codes "app", codes "amf") ∷ (codes "slice", codes "1") ∷ []

quarantine_name-Perm_example : quarantine_name slice ≡ quarantine_name slice_reordered
unfolding find text_discrete
quarantine_name-Perm_example =
    quarantine_name-Perm slice slice_reordered (refl, (refl, tt)) (Permᴰ.swap refl refl)
