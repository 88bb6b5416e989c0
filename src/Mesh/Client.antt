-- ===== src/Mesh/Client.antt =====
-- pkg/mesh/adapter.go: the API objects of a quarantine, and the calls that every adapter shares. The
-- API server is a parameter.
use sentinel5g.Prelude.{
  ℕ, ◌≡◌, ◌≢◌, ◌⊎◌, Bool, true, false, List, [], ◌∷◌, Option, none, some, Text, text_discrete,
}
use sentinel5g.Prelude.Map.{Map, find}

-- A kind (its group and version with it), a namespace and a name.
pub data Kind : Type 0 where
  authorization_policy cilium_network_policy server : Kind

pub record ObjectName : Type 0 where
  pub kind : Kind
  pub namespace : Text
  pub name : Text

unfoldable pub kind_discrete : Discrete Kind
kind_discrete = hlevel

-- An AuthorizationPolicy with its selector, its rules and its action, where an empty rule matches
-- everything; a CiliumNetworkPolicy with the entities it denies, inwards and outwards; a Linkerd
-- Server with its port and its access policy.
pub data Spec : Type 0 where
  istio_spec : Map Text Text → List (Map Text Text) → Text → Spec
  cilium_spec : Map Text Text → List Text → List Text → Spec
  linkerd_spec : Map Text Text → ℕ → Text → Spec

pub record Content : Type 0 where
  pub labels : Map Text Text
  pub spec : Spec

-- The object that is there, by its resource version, that there is none, or another error.
pub data GetReply : Type 0 where
  existing : Text → GetReply
  not_found failed : GetReply

pub data DeleteReply : Type 0 where
  deleted already_gone delete_failed : DeleteReply

-- client.Client over the cluster's state, as far as the adapters call it. The two lists are those of
-- the container ports of the Pods that a selector takes, and of the Servers that carry a label.
pub record Client (M : Type 0) : Type 0 where
  pub get : ObjectName → M → GetReply
  pub create : ObjectName → Content → M → M × Bool
  pub update : ObjectName → Text → Content → M → M × Bool
  pub delete : ObjectName → M → M × DeleteReply
  pub pod_ports : Text → Map Text Text → M → Option (List ℕ)
  pub servers_labelled : Text → Text → Text → M → Option (List ObjectName)

module _ {M : Type 0} (client : Client M) where
  open client use {get, create, update, delete}

  -- createOrUpdateUnstructured
  unfoldable pub create_or_update : ObjectName → Content → M → M × Bool
  create_or_update n c m = elim (get n m) [
    | not_found ↦ create n c m
    | failed ↦ (m, false)
    | existing version ↦ update n version c m
  ]

  -- deleteUnstructuredIfExists
  unfoldable pub delete_if_exists : ObjectName → M → M × Bool
  delete_if_exists n m =
      let (m', reply) = delete n m in
      (m', elim reply [ deleted ↦ true | already_gone ↦ true | delete_failed ↦ false ])

abbrev pub Among : ObjectName → List ObjectName → Type 0
Among n [] = ⊥
Among n (x ∷ xs) = (x ≡ n) ⊎ Among n xs

-- What is asked of the API server: a call that succeeds has its effect on that object, no call
-- touches another one, a deletion brings nothing back, and a list of Servers holds all that carry the
-- label.
pub record ClientLaws {M : Type 0} (client : Client M) : Type 0 where
  pub at : ObjectName → M → Option Content
  pub create_effect :
      (n : ObjectName) (c : Content) (m : M)
      → (client.create n c m).1 ≡ true
      → at n (client.create n c m).0 ≡ some c
  pub update_effect :
      (n : ObjectName) (v : Text) (c : Content) (m : M)
      → (client.update n v c m).1 ≡ true
      → at n (client.update n v c m).0 ≡ some c
  pub delete_effect :
      (n : ObjectName) (m : M)
      → (client.delete n m).1 ≢ delete_failed
      → at n (client.delete n m).0 ≡ none
  pub create_other :
      (n j : ObjectName) (c : Content) (m : M) → j ≢ n → at j (client.create n c m).0 ≡ at j m
  pub update_other :
      (n j : ObjectName) (v : Text) (c : Content) (m : M)
      → j ≢ n
      → at j (client.update n v c m).0 ≡ at j m
  pub delete_other : (n j : ObjectName) (m : M) → j ≢ n → at j (client.delete n m).0 ≡ at j m
  pub delete_keeps_gone :
      (n j : ObjectName) (m : M) → at j m ≡ none → at j (client.delete n m).0 ≡ none
  pub list_complete :
      (n : ObjectName) (key value : Text) (c : Content) (m : M) (names : List ObjectName)
      → n.kind ≡ server
      → client.servers_labelled n.namespace key value m ≡ some names
      → at n m ≡ some c
      → find text_discrete key c.labels ≡ some value
      → Among n names
