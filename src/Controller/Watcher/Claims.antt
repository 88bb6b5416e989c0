-- ===== src/Controller/Watcher/Claims.antt =====
-- The kernel against the statuses (handle and applyPolicy of pkg/controller/threat_score_watcher.go):
-- what the kernel blocks is claimed by some policy's status that the API server has.
use sentinel5g.Prelude.{
  ℕ, ◌≡◌, ◌⊎◌, inl, inr, Bool, true, false, [], ◌∷◌, ◌++◌, Option, none, some, Text, arith, refl,
  ap, sym, ◌∙◌, subst, Bool-cases,
}
use sentinel5g.Prelude.Map.{Map, find, put, find-put}
use sentinel5g.Events.{ThreatScoreEvent}
use sentinel5g.Ebpf.Interface.{Ip, BlocklistUpdater}
use sentinel5g.Controller.Names.{NamespacedName, name_discrete}
use sentinel5g.Controller.Api.{Policy, PolicyStatus, mitigating}
use sentinel5g.Controller.Tunnels.{parse_tunnel}
use sentinel5g.Controller.Watcher.{World, Inputs, Deps, Intent, crossing, contains}
use sentinel5g.Controller.Watcher.Apply.{
  Step, intent_of, then_ok, write_status, act_tunnel, act_source, act_mesh, execute, mitigate,
  apply_policy, counted, intended, observed, no_teid_metric, threshold,
}
use sentinel5g.Controller.Watcher.Gates.{
  SameEnforcement, write_status-SameEnforcement, apply_policy-Withheld, stops, rechecked,
  apply_mitigates,
}
use sentinel5g.Controller.Watcher.Writes.{Grows, apply_policy-writes}

-- What is asked of the kernel when it is told to block: only that entry comes in, whether the call
-- succeeds or not. The entries are those of its two maps, the sources' and the tunnels'.
pub record Blocking {K : Type 0} (E : Type 0) (ebpf : BlocklistUpdater K) : Type 0 where
  pub entry_of : Ip → E
  pub tunnel_of : Ip → ℕ → E
  pub holds : E → K → Bool
  pub block_only :
      (ip : Ip) (k : K) (x : E)
      → holds x (ebpf.block ip k).0 ≡ true
      → (x ≡ entry_of ip) ⊎ (holds x k ≡ true)
  pub block_tunnel_only :
      (ip : Ip) (teid : ℕ) (k : K) (x : E)
      → holds x (ebpf.block_tunnel ip teid k).0 ≡ true
      → (x ≡ tunnel_of ip teid) ⊎ (holds x k ≡ true)

module _ {F K M L E : Type 0} (deps : Deps F K M L) (laws : Blocking E deps.ebpf) where
  open deps use {fl, net, ebpf}
  open laws use {entry_of, tunnel_of, holds, block_only, block_tunnel_only}

  -- The status names the source, or the tunnel, of the entry.
  abbrev pub Claims : PolicyStatus → E → Type 0
  Claims s x =
      ((raw : Text) × (ip : Ip) × (contains raw s.blocked_source_ips ≡ true)
        × (net.parse_ip raw ≡ some ip)
        × (entry_of ip ≡ x))
      ⊎ ((entry : Text) × (ip : Ip) × (teid : ℕ) × (contains entry s.blocked_tunnels ≡ true)
          × (parse_tunnel net entry ≡ some (ip, teid))
          × (tunnel_of ip teid ≡ x))

  abbrev pub IsClaimed : Map NamespacedName PolicyStatus → E → Type 0
  IsClaimed statuses x =
      (key : NamespacedName) × (s : PolicyStatus) × (find name_discrete key statuses ≡ some s)
      × Claims s x

  -- All that the kernel blocks is claimed.
  abbrev pub AllClaimed : World K M L → Type 0
  AllClaimed w = (x : E) → holds x w.kernel ≡ true → IsClaimed w.statuses x

  Claims-grow : (s t : PolicyStatus) (x : E) → Grows s t → Claims s x → Claims t x
  Claims-grow s t x (more, more') (inl (raw, ip, there, parses, e)) =
      inl (raw, ip, more raw there, parses, e)
  Claims-grow s t x (more, more') (inr (entry, ip, teid, there, parses, e)) =
      inr (entry, ip, teid, more' entry there, parses, e)

  IsClaimed-put :
      (statuses : Map NamespacedName PolicyStatus) (key : NamespacedName) (s t : PolicyStatus)
      (x : E)
      → find name_discrete key statuses ≡ some s
      → Grows s t
      → IsClaimed statuses x
      → IsClaimed (put name_discrete key t statuses) x
  IsClaimed-put statuses key s t x current grows (j, u, there, claims) =
      elim (name_discrete key j) [
        | yes e ↦
            let same : u ≡ s = ground (arith, e, there, current) in
            (
              j,
              t,
              ground (arith, e, find-put name_discrete j key t statuses),
              Claims-grow s t x grows (subst (λ v. Claims v x) same claims),
            )
        | no n ↦ (j, u, ground (arith, n, there, find-put name_discrete j key t statuses), claims)
      ]

  -- What was claimed stays claimed when a policy is applied whose status is the stored one.
  pub apply_policy-keeps_claims :
      (inp : Inputs) (policy : Policy) (event : ThreatScoreEvent F) (w : World K M L) (x : E)
      → find name_discrete policy.key w.statuses ≡ some policy.status
      → IsClaimed w.statuses x
      → IsClaimed (apply_policy deps inp policy event w).0.statuses x
  apply_policy-keeps_claims inp policy event w x current claimed =
      elim (apply_policy-writes deps inp policy event w) [
        | inl (i, e) ↦ subst (λ m. IsClaimed m x) (sym e) claimed
        | inr (next, same, grows, i, e) ↦
            subst (λ m. IsClaimed m x) (sym e)
              (IsClaimed-put w.statuses next.key policy.status next.status x
                (ap (λ k. find name_discrete k w.statuses) same ∙ current) grows claimed)
      ]

  -- What the actions may bring into the kernel.
  abbrev pub Intended : Intent → ℕ → E → Type 0
  Intended intent teid x =
      ((ip : Ip) × (intent.source ≡ some ip) × (x ≡ entry_of ip))
      ⊎ ((ip : Ip) × (intent.tunnel ≡ some ip) × (x ≡ tunnel_of ip teid))

  act_tunnel_only :
      (o : Option Ip) (teid : ℕ) (w : World K M L) (x : E)
      → holds x (act_tunnel deps o teid w).0.kernel ≡ true
      → ((ip : Ip) × (o ≡ some ip) × (x ≡ tunnel_of ip teid)) ⊎ (holds x w.kernel ≡ true)
  unfolding act_tunnel
  act_tunnel_only none teid w x h = inr h
  act_tunnel_only (some ip) teid w x h =
      let e : (act_tunnel deps (some ip) teid w).0.kernel ≡ (ebpf.block_tunnel ip teid w.kernel).0 =
        ground arith in
      elim (block_tunnel_only ip teid w.kernel x (ap (holds x) (sym e) ∙ h)) [
        | inl same ↦ inl (ip, refl, same)
        | inr old ↦ inr old
      ]

  act_source_only :
      (o : Option Ip) (w : World K M L) (x : E)
      → holds x (act_source deps o w).0.kernel ≡ true
      → ((ip : Ip) × (o ≡ some ip) × (x ≡ entry_of ip)) ⊎ (holds x w.kernel ≡ true)
  unfolding act_source
  act_source_only none w x h = inr h
  act_source_only (some ip) w x h =
      let e : (act_source deps (some ip) w).0.kernel ≡ (ebpf.block ip w.kernel).0 = ground arith in
      elim (block_only ip w.kernel x (ap (holds x) (sym e) ∙ h)) [
        | inl same ↦ inl (ip, refl, same)
        | inr old ↦ inr old
      ]

  then_ok-kernel :
      (p : Step K M L) (next : World K M L → Step K M L)
      → ((then_ok p next).0.kernel ≡ p.0.kernel) ⊎ ((then_ok p next).0.kernel ≡ (next p.0).0.kernel)
  unfolding then_ok
  then_ok-kernel (w, none) next = inr refl
  then_ok-kernel (w, some e) next = inl refl

  act_mesh-kernel :
      (o : Option (Map Text Text)) (namespace : Text) (w : World K M L)
      → (act_mesh deps o namespace w).0.kernel ≡ w.kernel
  unfolding act_mesh
  act_mesh-kernel o namespace w = ground arith

  execute_only :
      (intent : Intent) (teid : ℕ) (namespace : Text) (w : World K M L) (x : E)
      → holds x (execute deps intent teid namespace w).0.kernel ≡ true
      → Intended intent teid x ⊎ (holds x w.kernel ≡ true)
  unfolding execute
  execute_only intent teid namespace w x h =
      let first = act_tunnel deps intent.tunnel teid w in
      let both = then_ok first (act_source deps intent.source) in
      let acts : holds x both.0.kernel ≡ true =
        elim (then_ok-kernel both (act_mesh deps intent.quarantine namespace)) [
          | inl e ↦ ap (holds x) (sym e) ∙ h
          | inr e ↦ ap (holds x) (sym (e ∙ act_mesh-kernel intent.quarantine namespace both.0)) ∙ h
        ] in
      elim (then_ok-kernel first (act_source deps intent.source)) [
        | inl e ↦
            tunnel_first (act_tunnel_only intent.tunnel teid w x (ap (holds x) (sym e) ∙ acts))
        | inr e ↦ elim (act_source_only intent.source first.0 x (ap (holds x) (sym e) ∙ acts)) [
          | inl s ↦ inl (inl s)
          | inr old ↦ tunnel_first (act_tunnel_only intent.tunnel teid w x old)
        ]
      ]
    where
      tunnel_first :
          ((ip : Ip) × (intent.tunnel ≡ some ip) × (x ≡ tunnel_of ip teid))
            ⊎ (holds x w.kernel ≡ true)
          → Intended intent teid x ⊎ (holds x w.kernel ≡ true)
      tunnel_first (inl t) = inl (inr t)
      tunnel_first (inr old) = inr old

  mitigate_only :
      (inp : Inputs) (policy : Policy) (event : ThreatScoreEvent F) (w : World K M L) (x : E)
      → holds x (mitigate deps inp policy event w).0.kernel ≡ true
      → Intended (intent_of net policy event) event.teid x ⊎ (holds x w.kernel ≡ true)
  unfolding mitigate counted
  mitigate_only inp policy event w x h =
      let intent = intent_of net policy event in
      let next = intended intent event inp.now (observed (fl.format event.score) policy) in
      let w' = counted (no_teid_metric net policy event ++ crossing policy.key mitigating ∷ []) w in
      let wrote = write_status deps inp policy next w' in
      let same = (write_status-SameEnforcement deps inp policy next w').0 in
      elim (then_ok-kernel wrote (execute deps intent event.teid policy.key.namespace)) [
        | inl e ↦ inr (ap (holds x) (sym (e ∙ same)) ∙ h)
        | inr e ↦
            elim (execute_only intent event.teid policy.key.namespace wrote.0 x
              (ap (holds x) (sym e) ∙ h)) [
                | inl i ↦ inl i
                | inr old ↦ inr (ap (holds x) (sym same) ∙ old)
              ]
      ]

  -- Applying a policy brings only what it intends into the kernel.
  pub apply_policy_only :
      (inp : Inputs) (policy : Policy) (event : ThreatScoreEvent F) (w : World K M L) (x : E)
      → holds x (apply_policy deps inp policy event w).0.kernel ≡ true
      → Intended (intent_of net policy event) event.teid x ⊎ (holds x w.kernel ≡ true)
  apply_policy_only inp policy event w x h =
      cases (Bool-cases (fl.lt event.score (threshold deps policy)))
        (Bool-cases policy.spec.threat_detection.auto_mitigate) (Bool-cases (stops deps inp w))
    where
      kept :
          SameEnforcement w (apply_policy deps inp policy event w).0
          → Intended (intent_of net policy event) event.teid x ⊎ (holds x w.kernel ≡ true)
      kept (e, _) = inr (ap (holds x) (sym e) ∙ h)

      mitigated :
          holds x (mitigate deps inp policy event (rechecked deps inp w)).0.kernel ≡ true
          → Intended (intent_of net policy event) event.teid x ⊎ (holds x w.kernel ≡ true)
      mitigated m = mitigate_only inp policy event (rechecked deps inp w) x m

      cases :
          (fl.lt event.score (threshold deps policy) ≡ true)
            ⊎ (fl.lt event.score (threshold deps policy) ≡ false)
          → (policy.spec.threat_detection.auto_mitigate ≡ true)
            ⊎ (policy.spec.threat_detection.auto_mitigate ≡ false)
          → (stops deps inp w ≡ true) ⊎ (stops deps inp w ≡ false)
          → Intended (intent_of net policy event) event.teid x ⊎ (holds x w.kernel ≡ true)
      cases (inl below) _ _ = kept (apply_policy-Withheld deps inp policy event w (inl below))
      cases _ (inr manual) _ =
          kept (apply_policy-Withheld deps inp policy event w (inr (inl manual)))
      cases _ _ (inl stopped) =
          kept (apply_policy-Withheld deps inp policy event w (inr (inr stopped)))
      cases (inr crossed) (inl auto) (inr free) = mitigated (
          subst (λ (p : Step K M L). holds x p.0.kernel ≡ true)
            (apply_mitigates deps inp policy event w crossed auto free) h)
