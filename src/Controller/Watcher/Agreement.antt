-- ===== src/Controller/Watcher/Agreement.antt =====
-- handle and applyPolicy of pkg/controller/threat_score_watcher.go: the kernel never blocks what no
-- status claims, over any scores.
use sentinel5g.Prelude.{
  ℕ, ◌+◌, ◌^◌, ◌<◌, ◌≡◌, ◌≢◌, ◌⊎◌, inl, inr, true, List, [], ◌∷◌, Option, none, some, Text, arith,
  refl, ap, sym, ◌∙◌, subst,
}
use sentinel5g.Prelude.Map.{Map, find, find-put}
use sentinel5g.Events.{ThreatScoreEvent}
use sentinel5g.Ebpf.Interface.{Ip}
use sentinel5g.Controller.Names.{NamespacedName, name_discrete}
use sentinel5g.Controller.Api.{Policy}
use sentinel5g.Controller.Tunnels.{Addresses, format_tunnel}
use sentinel5g.Controller.Tunnels.RoundTrip.{NoSlash, parse_tunnel-format_tunnel}
use sentinel5g.Controller.PolicyIndex.{in_namespace, matching_policies}
use sentinel5g.Controller.PolicyIndex.View.{
  held, held-put_policy, Listed, IsValid, select_sound, put_policy-IsValid,
}
use sentinel5g.Controller.Watcher.{World, Inputs, Deps, when}
use sentinel5g.Controller.Watcher.Apply.{intent_of, apply_policy, counted}
use sentinel5g.Controller.Watcher.WriteAhead.{IsRecorded, apply_policy-IsRecorded}
use sentinel5g.Controller.Watcher.Writes.{apply_policy-writes}
use sentinel5g.Controller.Watcher.Claims.{
  Blocking, AllClaimed, IsClaimed, Intended, apply_policy-keeps_claims, apply_policy_only,
}
use sentinel5g.Controller.Watcher.Handle.{
  PodLabels, found, not_found, failed, apply_all, received, handle, Delivery, handle_all,
}
use sentinel5g.Controller.Watcher.Snapshot.{Distinct, select-Distinct}

-- A score whose tunnel identifier is one, and whose source has no slash if it is an address.
abbrev pub IsSound : {F : Type 0} → Addresses → ThreatScoreEvent F → Type 0
IsSound net event =
    (event.teid < 2 ^ 32) × (net.parse_ip event.source_ip ≢ none → NoSlash event.source_ip)

intent-source :
    {F : Type 0} (net : Addresses) (policy : Policy) (event : ThreatScoreEvent F) (ip : Ip)
    → (intent_of net policy event).source ≡ some ip
    → net.parse_ip event.source_ip ≡ some ip
unfolding intent_of when
intent-source net policy event ip h = ground (arith, h)

intent-tunnel :
    {F : Type 0} (net : Addresses) (policy : Policy) (event : ThreatScoreEvent F) (ip : Ip)
    → (intent_of net policy event).tunnel ≡ some ip
    → net.parse_ip event.source_ip ≡ some ip
unfolding intent_of when
intent-tunnel net policy event ip h = ground (arith, h)

not_none : {A : Type 0} (o : Option A) (a : A) → o ≡ some a → o ≢ none
not_none o a h e = cc

-- What the index holds stands under its own key, with the status that the API server has.
abbrev pub IsSynced : {K M L : Type 0} → World K M L → Type 0
IsSynced w =
    (key : NamespacedName) (p : Policy)
    → held key w.index ≡ some p
    → (p.key ≡ key) × (find name_discrete key w.statuses ≡ some p.status)

-- Each of the policies has the status that the API server has.
abbrev pub Current : {K M L : Type 0} → List Policy → World K M L → Type 0
Current ps w = (p : Policy) → Listed p ps → find name_discrete p.key w.statuses ≡ some p.status

abbrev pub Delivered : {F : Type 0} → Delivery F → List (Delivery F) → Type 0
Delivered d [] = ⊥
Delivered d (e ∷ ds) = (e ≡ d) ⊎ Delivered d ds

module _ {F K M L E : Type 0} (deps : Deps F K M L) (laws : Blocking E deps.ebpf) where
  open deps use {net}
  open laws use {entry_of, tunnel_of, holds}

  -- What was intended is claimed by the status that records it.
  Intended-IsClaimed :
      (policy : Policy) (event : ThreatScoreEvent F) (w : World K M L) (x : E)
      → IsSound net event
      → IsRecorded (intent_of net policy event) policy event w
      → Intended deps laws (intent_of net policy event) event.teid x
      → IsClaimed deps laws w.statuses x
  Intended-IsClaimed policy event w x _ (s, there, _, sources, _) (inl (ip, e, same)) = (
    policy.key,
    s,
    there,
    inl (
      event.source_ip,
      ip,
      sources (not_none (intent_of net policy event).source ip e),
      intent-source net policy event ip e,
      sym same,
    ),
  )
  Intended-IsClaimed policy event w x (small, slashes) (s, there, _, _, tunnels)
        (inr (ip, e, same)) =
      let parses = intent-tunnel net policy event ip e in
      (
        policy.key,
        s,
        there,
        inr (
          format_tunnel event.source_ip event.teid,
          ip,
          event.teid,
          tunnels (not_none (intent_of net policy event).tunnel ip e),
          parse_tunnel-format_tunnel net event.source_ip ip event.teid parses
              (slashes (not_none (net.parse_ip event.source_ip) ip parses)) small,
          sym same,
        ),
      )

  apply_policy-AllClaimed :
      (inp : Inputs) (policy : Policy) (event : ThreatScoreEvent F) (w : World K M L)
      → IsSound net event
      → find name_discrete policy.key w.statuses ≡ some policy.status
      → AllClaimed deps laws w
      → AllClaimed deps laws (apply_policy deps inp policy event w).0
  apply_policy-AllClaimed inp policy event w sound current all x h =
      elim (apply_policy-IsRecorded deps inp policy event w current) [
        | inl (kernel, _) ↦ kept (ap (holds x) (sym kernel) ∙ h)
        | inr recorded ↦ elim (apply_policy_only deps laws inp policy event w x h) [
          | inl new ↦
              Intended-IsClaimed policy event (apply_policy deps inp policy event w).0 x sound
                recorded new
          | inr old ↦ kept old
        ]
      ]
    where
      kept :
          holds x w.kernel ≡ true
          → IsClaimed deps laws (apply_policy deps inp policy event w).0.statuses x
      kept old = apply_policy-keeps_claims deps laws inp policy event w x current (all x old)

  matching-Distinct :
      (namespace : Text) (labels : Map Text Text) (w : World K M L)
      → IsValid w.index
      → IsSynced w
      → Distinct (matching_policies namespace labels w.index)
  unfolding matching_policies held
  matching-Distinct namespace labels w valid synced =
      select-Distinct (in_namespace namespace w.index) labels (valid namespace) (λ j p e.
        ap (λ (k : NamespacedName). k.name)
          (synced (record { namespace = namespace; name = j }) p e).0)

  matching-Current :
      (namespace : Text) (labels : Map Text Text) (w : World K M L)
      → IsValid w.index
      → IsSynced w
      → Current (matching_policies namespace labels w.index) w
  unfolding matching_policies held
  matching-Current namespace labels w valid synced p l =
      let (j, e, _) = select_sound p (in_namespace namespace w.index) labels (valid namespace) l in
      let (same, there) = synced (record { namespace = namespace; name = j }) p e in
      ap (λ k. find name_discrete k w.statuses) same ∙ there

  -- The index has one policy per name, as the API server has it, and what the kernel blocks is claimed.
  abbrev pub Agrees : World K M L → Type 0
  Agrees w = IsValid w.index × IsSynced w × AllClaimed deps laws w

  apply_policy-IsSynced :
      (inp : Inputs) (policy : Policy) (event : ThreatScoreEvent F) (w : World K M L)
      → IsSynced w
      → IsSynced (apply_policy deps inp policy event w).0
  apply_policy-IsSynced inp policy event w synced key p h =
      elim (apply_policy-writes deps inp policy event w) [
        | inl (i, e) ↦
            let (a, b) = synced key p (ap (held key) (sym i) ∙ h) in
            (a, ap (find name_discrete key) e ∙ b)
        | inr (next, same, grows, i, e) ↦
            let h' = sym (held-put_policy key next w.index) ∙ ap (held key) (sym i) ∙ h in
            let e' =
              ap (find name_discrete key) e
              ∙ find-put name_discrete key next.key next.status w.statuses in
            elim (name_discrete next.key key) [
              | yes y ↦
                  let is : next ≡ p = ground (arith, h', y) in
                  (ground (arith, is, y), ground (arith, is, y, e'))
              | no n ↦
                  let (a, b) = synced key p (ground (arith, h', n)) in (a, ground (arith, b, e', n))
            ]
      ]

  apply_policy-IsValid :
      (inp : Inputs) (policy : Policy) (event : ThreatScoreEvent F) (w : World K M L)
      → IsValid w.index
      → IsValid (apply_policy deps inp policy event w).0.index
  apply_policy-IsValid inp policy event w valid =
      elim (apply_policy-writes deps inp policy event w) [
        | inl (i, e) ↦ subst IsValid (sym i) valid
        | inr (next, same, grows, i, e) ↦
            subst IsValid (sym i) (put_policy-IsValid next w.index valid)
      ]

  -- A policy of another key is as current as before.
  apply_policy-others :
      (inp : Inputs) (policy : Policy) (event : ThreatScoreEvent F) (w : World K M L)
      (key : NamespacedName)
      → key ≢ policy.key
      → find name_discrete key (apply_policy deps inp policy event w).0.statuses
        ≡ find name_discrete key w.statuses
  apply_policy-others inp policy event w key other =
      elim (apply_policy-writes deps inp policy event w) [
        | inl (i, e) ↦ ap (find name_discrete key) e
        | inr (next, same, grows, i, e) ↦
            let e' =
              ap (find name_discrete key) e
              ∙ find-put name_discrete key next.key next.status w.statuses in
            let apart : next.key ≢ key = λ y. other (sym y ∙ same) in ground (arith, apart, e')
      ]

  apply_all-Agrees :
      (inputs : ℕ → Inputs) (i : ℕ) (ps : List Policy) (event : ThreatScoreEvent F)
      (w : World K M L)
      → IsSound net event
      → Distinct ps
      → Current ps w
      → Agrees w
      → Agrees (apply_all deps inputs i ps event w)
  unfolding apply_all
  apply_all-Agrees inputs i [] event w sound _ _ agrees = agrees
  apply_all-Agrees inputs i (p ∷ ps) event w sound (apart, distinct) current
        (valid, synced, claimed) =
      apply_all-Agrees inputs (i + 1) ps event (apply_policy deps (inputs i) p event w).0 sound
        distinct
        (λ q l. apply_policy-others (inputs i) p event w q.key (apart q l) ∙ current q (inr l))
        (
          apply_policy-IsValid (inputs i) p event w valid,
          apply_policy-IsSynced (inputs i) p event w synced,
          apply_policy-AllClaimed (inputs i) p event w sound (current p (inl refl)) claimed,
        )

  handle-Agrees :
      (inputs : ℕ → Inputs) (now : ℕ) (pod : PodLabels) (event : ThreatScoreEvent F)
      (w : World K M L)
      → IsSound net event
      → Agrees w
      → Agrees (handle deps inputs now pod event w).0
  unfolding handle received counted
  handle-Agrees inputs now not_found event w sound agrees = agrees
  handle-Agrees inputs now failed event w sound agrees = agrees
  handle-Agrees inputs now (found labels) event w sound (valid, synced, claimed) =
      apply_all-Agrees inputs 0 (matching_policies event.namespace labels w.index) event
        (received deps now event w) sound (matching-Distinct event.namespace labels w valid synced)
        (matching-Current event.namespace labels w valid synced) (valid, synced, claimed)

  -- The scores are handled one after another from a state where the index has each policy once under
  -- its key, with the status that the API server has, and where a policy's status claims each entry
  -- that the kernel blocks; a call that blocks brings in no other entry, even where it fails, a
  -- score's TEID has 32 bits and its source no slash if it is an address. Then the state is such a
  -- state again, whatever fails: nothing is blocked that no status claims.
  pub handle_all-Agrees :
      (ds : List (Delivery F)) (w : World K M L)
      → ((d : Delivery F) → Delivered d ds → IsSound net d.event)
      → Agrees w
      → Agrees (handle_all deps ds w)
  unfolding handle_all
  handle_all-Agrees [] w sound agrees = agrees
  handle_all-Agrees (d ∷ ds) w sound agrees =
      handle_all-Agrees ds (handle deps d.inputs d.now d.pod d.event w).0 (λ e l. sound e (inr l))
        (handle-Agrees d.inputs d.now d.pod d.event w (sound d (inl refl)) agrees)
