-- ===== src/Mesh/Isolation.antt =====
-- What the adapters of pkg/mesh do to the cluster.
use sentinel5g.Prelude.{
  ◌≡◌, ◌≢◌, ◌⊎◌, inl, inr, refl, arith, ◌∙◌, true, List, [], ◌∷◌, none, some, Text, codes,
  text_discrete, Bool-cases, Option-cases, subst,
}
use sentinel5g.Prelude.Map.{Map, find}
use sentinel5g.Controller.Watcher.{contains}
use sentinel5g.Mesh.Interface.{Adapter}
use sentinel5g.Mesh.Client.{
  Kind, authorization_policy, cilium_network_policy, server, ObjectName, Content, GetReply,
  existing, not_found, failed, istio_spec, cilium_spec, Client, ClientLaws, Among, create_or_update,
  delete_if_exists,
}
use sentinel5g.Mesh.Adapters.{
  quarantine_name, quarantined, istio_content, cilium_content, istio_adapter, cilium_adapter,
  linkerd_release, delete_each, quarantine_for_label,
}

-- The adapters that keep one object for a quarantine.
pub data Single : Type 0 where
  istio cilium : Single

abbrev pub adapter_of : {M : Type 0} → Client M → Single → Adapter M
adapter_of client istio = istio_adapter client
adapter_of client cilium = cilium_adapter client

abbrev pub kind_of : Single → Kind
kind_of istio = authorization_policy
kind_of cilium = cilium_network_policy

abbrev pub HasEmptyRule : List (Map Text Text) → Type 0
HasEmptyRule [] = ⊥
HasEmptyRule (rule ∷ rules) = (rule ≡ []) ⊎ HasEmptyRule rules

-- An object of the adapter's kind that takes the selector's workloads and lets no traffic reach or
-- leave them, as far as its kind can say: an AuthorizationPolicy that denies what a rule matches, with
-- a rule that asks for nothing, and a CiliumNetworkPolicy that denies every entity in both directions.
abbrev pub IsDenial : Single → Map Text Text → Content → Type 0
IsDenial istio selector c =
    (rules : List (Map Text Text)) × (c.spec ≡ istio_spec selector rules (codes "DENY"))
    × HasEmptyRule rules
IsDenial cilium selector c =
    (inward : List Text) × (outward : List Text) × (c.spec ≡ cilium_spec selector inward outward)
    × (contains (codes "all") inward ≡ true)
    × (contains (codes "all") outward ≡ true)

module _ {M : Type 0} (client : Client M) (laws : ClientLaws client) where
  open laws use {at}

  -- The other objects are as they were.
  abbrev pub OthersKept : ObjectName → M → M → Type 0
  OthersKept n m m' = (j : ObjectName) → j ≢ n → at j m' ≡ at j m

  create_or_update-effect :
      (n : ObjectName) (c : Content) (m : M)
      → ((create_or_update client n c m).1 ≡ true → at n (create_or_update client n c m).0 ≡ some c)
        × OthersKept n m (create_or_update client n c m).0
  unfolding create_or_update
  create_or_update-effect n c m = cases (client.get n m) refl
    where
      cases :
          (r : GetReply)
          → client.get n m ≡ r
          → ((create_or_update client n c m).1 ≡ true
              → at n (create_or_update client n c m).0 ≡ some c)
            × OthersKept n m (create_or_update client n c m).0
      cases not_found e =
          rw (e, create_or_update) (laws.create_effect n c m, λ j k. laws.create_other n j c m k)
      cases failed e = rw (e, create_or_update) (λ h. absurd (cc), λ j k. refl)
      cases (existing v) e =
          rw (e, create_or_update)
            (laws.update_effect n v c m, λ j k. laws.update_other n j v c m k)

  delete_if_exists-effect :
      (n : ObjectName) (m : M)
      → ((delete_if_exists client n m).1 ≡ true → at n (delete_if_exists client n m).0 ≡ none)
        × OthersKept n m (delete_if_exists client n m).0
  unfolding delete_if_exists
  delete_if_exists-effect n m =
      (λ h. laws.delete_effect n m (λ e. cc), λ j k. laws.delete_other n j m k)

  in_turn :
      (n : ObjectName) (c : Content) (m : M) (j : ObjectName)
      → j ≢ n
      → (create_or_update client n c m).1 ≡ true
      → (delete_if_exists client n (create_or_update client n c m).0).1 ≡ true
      → (at n (create_or_update client n c m).0 ≡ some c)
        × (at n (delete_if_exists client n (create_or_update client n c m).0).0 ≡ none)
        × (at j (create_or_update client n c m).0 ≡ at j m)
        × (at j (delete_if_exists client n (create_or_update client n c m).0).0 ≡ at j m)
  in_turn n c m j other h k =
      let (there, kept) = create_or_update-effect n c m in
      let (gone, kept') = delete_if_exists-effect n (create_or_update client n c m).0 in
      (there h, gone k, kept j other, kept' j other ∙ kept j other)

  -- A quarantine that succeeds, and then a release that does, by an adapter that keeps one object per
  -- quarantine (Istio's or Cilium's), over an API server that does what it says: in between an
  -- object stands under the quarantine's name, whether one did before or not, that takes the selector's
  -- workloads and denies: Istio's under an empty rule, Cilium's the entity "all" in both directions; in the end it is gone; and another object is at both times as it was.
  pub quarantine-release :
      (s : Single) (namespace : Text) (selector : Map Text Text) (m : M) (j : ObjectName)
      → j ≢ quarantined (kind_of s) namespace selector
      → ((adapter_of client s).quarantine namespace selector m).1 ≡ true
      → ((adapter_of client s).release namespace selector
          ((adapter_of client s).quarantine namespace selector m).0).1
        ≡ true
      → let during = ((adapter_of client s).quarantine namespace selector m).0 in
        let after = ((adapter_of client s).release namespace selector during).0 in
        ((c : Content) × (at (quarantined (kind_of s) namespace selector) during ≡ some c)
          × IsDenial s selector c)
        × (at (quarantined (kind_of s) namespace selector) after ≡ none)
        × (at j during ≡ at j m)
        × (at j after ≡ at j m)
  unfolding istio_adapter cilium_adapter contains text_discrete
  quarantine-release istio namespace selector m j other h k =
      let (there, gone, kept, kept') =
        in_turn (quarantined authorization_policy namespace selector) (istio_content selector) m j
          other h k in
      ((istio_content selector, there, ([] ∷ [], refl, inl refl)), gone, kept, kept')
  quarantine-release cilium namespace selector m j other h k =
      let (there, gone, kept, kept') =
        in_turn (quarantined cilium_network_policy namespace selector) (cilium_content selector) m j
          other h k in
      (
        (cilium_content selector, there, (codes "all" ∷ [], codes "all" ∷ [], refl, refl, refl)),
        gone,
        kept,
        kept',
      )

  delete_if_exists-gone :
      (n x : ObjectName) (m : M) → at n m ≡ none → at n (delete_if_exists client x m).0 ≡ none
  unfolding delete_if_exists
  delete_if_exists-gone n x m h = laws.delete_keeps_gone x n m h

  delete_each-gone :
      (names : List ObjectName) (n : ObjectName) (m : M)
      → (delete_each client names m).1 ≡ true
      → Among n names ⊎ (at n m ≡ none)
      → at n (delete_each client names m).0 ≡ none
  unfolding delete_each
  delete_each-gone [] n m h (inl l) = absurd l
  delete_each-gone [] n m h (inr e) = e
  delete_each-gone (x ∷ xs) n m h gone = elim (Bool-cases (delete_if_exists client x m).1) [
    | inr stopped ↦ absurd (ground (arith, h, stopped))
    | inl done ↦ rw done (
        delete_each-gone xs n (delete_if_exists client x m).0 (ground (arith, h, done))
          (left done gone))
  ]
    where
      left :
          (delete_if_exists client x m).1 ≡ true
          → Among n (x ∷ xs) ⊎ (at n m ≡ none)
          → Among n xs ⊎ (at n (delete_if_exists client x m).0 ≡ none)
      left done (inl (inl same)) = inr (
          subst (λ y. at y (delete_if_exists client x m).0 ≡ none) same
            ((delete_if_exists-effect x m).0 done))
      left done (inl (inr later)) = inl later
      left done (inr e) = inr (delete_if_exists-gone n x m e)

  -- With the Linkerd adapter, over an API server that does what it says: a release that succeeds
  -- leaves none of the namespace's Servers that carried the quarantine's label, whatever ports the
  -- Pods declare by then.
  pub linkerd_release-clears :
      (selector : Map Text Text) (m : M) (n : ObjectName) (c : Content)
      → n.kind ≡ server
      → at n m ≡ some c
      → find text_discrete quarantine_for_label c.labels ≡ some (quarantine_name selector)
      → (linkerd_release client n.namespace selector m).1 ≡ true
      → at n (linkerd_release client n.namespace selector m).0 ≡ none
  unfolding linkerd_release
  linkerd_release-clears selector m n c kind here labelled h =
      elim (Option-cases
        (client.servers_labelled n.namespace quarantine_for_label (quarantine_name selector) m)) [
          | inl e ↦ absurd (ground (arith, h, e))
          | inr (names, e) ↦
              rw (e, linkerd_release)
                (delete_each-gone names n m (ground (arith, h, e)) (
                  inl (
                    laws.list_complete n quarantine_for_label (quarantine_name selector) c m names
                      kind e here labelled)))
        ]
