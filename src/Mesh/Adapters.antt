-- ===== src/Mesh/Adapters.antt =====
-- pkg/mesh: the Istio, Cilium and Linkerd adapters (istio_adapter.go, cilium_adapter.go,
-- linkerd_adapter.go), the one that does nothing, and the choice between them.
use sentinel5g.Prelude.{
  ℕ, zero, suc, ◌+◌, ◌/◌, ◌*◌, ◌%◌, ◌^◌, ◌==◌, bit_xor, ltb, Bool, true, false, List, [], ◌∷◌, ◌++◌,
  Option, none, some, Text, codes, text_discrete, ite, if◌then◌else◌,
}
use sentinel5g.Prelude.Map.{Map, find}
use sentinel5g.Controller.Drift.{sorted_keys}
use sentinel5g.Controller.Tunnels.{hex_digit}
use sentinel5g.Mesh.Interface.{Adapter}
use sentinel5g.Mesh.Client.{
  Kind, authorization_policy, cilium_network_policy, server, ObjectName, istio_spec, cilium_spec,
  linkerd_spec, Content, Client, create_or_update, delete_if_exists,
}

-- fnv.New32a over some bytes.
unfoldable pub fnv32a : ℕ → List ℕ → ℕ
fnv32a h [] = h
fnv32a h (b ∷ bs) = fnv32a ((bit_xor h b * 16777619) % 2 ^ 32) bs

unfoldable pub value_of : Text → Map Text Text → Text
value_of k m = elim (find text_discrete k m) [ none ↦ [] | some v ↦ v ]

-- The text that is hashed: each label in the order of the keys.
unfoldable pub selector_text : Map Text Text → List Text → Text
selector_text selector [] = []
selector_text selector (k ∷ keys) =
    k ++ (codes "=" ++ (value_of k selector ++ (codes ";" ++ selector_text selector keys)))

-- fmt's %08x.
unfoldable pub hex_padded : ℕ → ℕ → Text
hex_padded zero n = []
hex_padded (suc fuel) n = hex_padded fuel (n / 16) ++ hex_digit (n % 16) ∷ []

-- quarantineName
unfoldable pub quarantine_name : Map Text Text → Text
quarantine_name selector =
    codes "sentinel5g-quarantine-"
    ++ hex_padded 8 (fnv32a 2166136261 (selector_text selector (sorted_keys selector)))

abbrev pub managed : Map Text Text
managed = (codes "app.kubernetes.io/managed-by", codes "sentinel5g") ∷ []

abbrev pub quarantined : Kind → Text → Map Text Text → ObjectName
quarantined kind namespace selector = record {
  kind = kind;
  namespace = namespace;
  name = quarantine_name selector;
}

-- newAuthorizationPolicy: one rule that matches everything, denied.
abbrev pub istio_content : Map Text Text → Content
istio_content selector = record {
  labels = managed;
  spec = istio_spec selector ([] ∷ []) (codes "DENY");
}

-- newCiliumNetworkPolicy
abbrev pub cilium_content : Map Text Text → Content
cilium_content selector = record {
  labels = managed;
  spec = cilium_spec selector (codes "all" ∷ []) (codes "all" ∷ []);
}

-- strconv.Itoa of a port: ten digits hold every int32, and a port is not negative.
unfoldable pub decimal : ℕ → ℕ → Text
decimal zero n = []
decimal (suc fuel) n =
    let rest = decimal fuel (n / 10) in
    if ltb n 10 then (48 + n) ∷ [] else rest ++ (48 + n % 10) ∷ []

abbrev pub quarantine_for_label : Text
quarantine_for_label = codes "sentinel5g.io/quarantine-for"

-- newLinkerdServer: its name, and its content.
abbrev pub server_name : Text → Text → ℕ → ObjectName
server_name namespace hash port = record {
  kind = server;
  namespace = namespace;
  name = hash ++ (codes "-" ++ decimal 10 port);
}

abbrev pub server_content : Text → Map Text Text → ℕ → Content
server_content hash selector port = record {
  labels =
      (codes "app.kubernetes.io/managed-by", codes "sentinel5g")
      ∷ (quarantine_for_label, hash)
      ∷ [];
  spec = linkerd_spec selector port (codes "deny");
}

-- A sorted list of ports without the one that is inserted twice.
unfoldable pub insert_port : ℕ → List ℕ → List ℕ
insert_port p [] = p ∷ []
insert_port p (q ∷ qs) =
    let rest = insert_port p qs in
    if p == q then q ∷ qs else if ltb p q then p ∷ q ∷ qs else q ∷ rest

-- discoverPorts, of the ports that the Pods declare.
unfoldable pub distinct_ports : List ℕ → List ℕ
distinct_ports [] = []
distinct_ports (p ∷ ps) = insert_port p (distinct_ports ps)

module _ {M : Type 0} (client : Client M) where
  open client use {pod_ports, servers_labelled}

  -- IstioAdapter
  unfoldable pub istio_adapter : Adapter M
  istio_adapter = record {
    quarantine = λ namespace selector m.
        create_or_update client (quarantined authorization_policy namespace selector)
          (istio_content selector) m;
    release = λ namespace selector m.
        delete_if_exists client (quarantined authorization_policy namespace selector) m;
  }

  -- CiliumAdapter
  unfoldable pub cilium_adapter : Adapter M
  cilium_adapter = record {
    quarantine = λ namespace selector m.
        create_or_update client (quarantined cilium_network_policy namespace selector)
          (cilium_content selector) m;
    release = λ namespace selector m.
        delete_if_exists client (quarantined cilium_network_policy namespace selector) m;
  }

  -- One Server for each port, up to the first that fails.
  unfoldable pub serve_ports : Text → Map Text Text → List ℕ → M → M × Bool
  serve_ports namespace selector [] m = (m, true)
  serve_ports namespace selector (port ∷ ports) m =
      let hash = quarantine_name selector in
      let (m', done) =
        create_or_update client (server_name namespace hash port)
          (server_content hash selector port) m in
      let rest = serve_ports namespace selector ports m' in if done then rest else (m', false)

  -- LinkerdAdapter.Quarantine: no port to close is an error.
  unfoldable pub linkerd_quarantine : Text → Map Text Text → M → M × Bool
  linkerd_quarantine namespace selector m = elim (pod_ports namespace selector m) [
    | none ↦ (m, false)
    | some [] ↦ (m, false)
    | some (p ∷ ps) ↦ serve_ports namespace selector (distinct_ports (p ∷ ps)) m
  ]

  unfoldable pub delete_each : List ObjectName → M → M × Bool
  delete_each [] m = (m, true)
  delete_each (n ∷ ns) m =
      let (m', done) = delete_if_exists client n m in
      let rest = delete_each ns m' in if done then rest else (m', false)

  -- LinkerdAdapter.Release: whatever carries the quarantine's label, not the ports of today.
  unfoldable pub linkerd_release : Text → Map Text Text → M → M × Bool
  linkerd_release namespace selector m =
      elim (servers_labelled namespace quarantine_for_label (quarantine_name selector) m) [
        | none ↦ (m, false)
        | some names ↦ delete_each names m
      ]

  unfoldable pub linkerd_adapter : Adapter M
  linkerd_adapter = record { quarantine = linkerd_quarantine; release = linkerd_release }

-- NoopAdapter
unfoldable pub noop_adapter : {M : Type 0} → Adapter M
noop_adapter = record {
  quarantine = λ namespace selector m. (m, true);
  release = λ namespace selector m. (m, true);
}

-- NewAdapter
unfoldable pub new_adapter : {M : Type 0} → Client M → Text → Option (Adapter M)
new_adapter client kind = ite (text_discrete kind (codes "istio")) (some (istio_adapter client)) (
    ite (text_discrete kind (codes "cilium")) (some (cilium_adapter client)) (
      ite (text_discrete kind (codes "linkerd")) (some (linkerd_adapter client)) (
        ite (text_discrete kind (codes "noop")) (some noop_adapter)
          (ite (text_discrete kind []) (some noop_adapter) none))))
