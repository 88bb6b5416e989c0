-- ===== src/Controller/Watcher/Writes.antt =====
-- What applyPolicy (pkg/controller/threat_score_watcher.go) leaves in the API server and in the
-- index: either all as it was, or one status that claims whatever was claimed before.
use sentinel5g.Prelude.{
  ℕ, ◌≡◌, ◌⊎◌, inl, inr, true, false, List, [], ◌∷◌, ◌++◌, Option, none, some, Text, arith, refl,
  ap, ◌∙◌, Bool-cases,
}
use sentinel5g.Prelude.Map.{put}
use sentinel5g.Events.{ThreatScoreEvent}
use sentinel5g.Ebpf.Interface.{Ip}
use sentinel5g.Controller.Names.{name_discrete}
use sentinel5g.Controller.Api.{Policy, PolicyStatus, alerting, mitigating}
use sentinel5g.Controller.PolicyIndex.{put_policy}
use sentinel5g.Controller.Watcher.{World, Inputs, Deps, Intent, Metric, contains}
use sentinel5g.Controller.Watcher.Sets.{contains-append_unique}
use sentinel5g.Controller.Watcher.Apply.{
  Step, observed, with_phase, calmed, intended, intent_of, record_block, no_teid_metric, counted,
  then_ok, update_status, write_status, act_tunnel, act_source, act_mesh, execute, mitigate, alert,
  apply_policy, threshold,
}
use sentinel5g.Controller.Watcher.Gates.{
  stops, rechecked, apply_below, apply_manual, apply_stopped, apply_mitigates,
}

-- All that one status blocks, the other does.
abbrev pub Grows : PolicyStatus → PolicyStatus → Type 0
Grows s t =
    ((x : Text) → contains x s.blocked_source_ips ≡ true → contains x t.blocked_source_ips ≡ true)
    × ((x : Text) → contains x s.blocked_tunnels ≡ true → contains x t.blocked_tunnels ≡ true)

abbrev pub Unwritten : {K M L : Type 0} → World K M L → World K M L → Type 0
Unwritten w w' = (w'.index ≡ w.index) × (w'.statuses ≡ w.statuses)

-- A status of the policy was written, that blocks all that its own status blocks.
abbrev pub Written : {K M L : Type 0} → Policy → World K M L → World K M L → Type 0
Written policy w w' =
    (next : Policy) × (next.key ≡ policy.key)
    × Grows policy.status next.status
    × (w'.index ≡ put_policy next w.index)
    × (w'.statuses ≡ put name_discrete next.key next.status w.statuses)

record_block-contains_more :
    (o : Option Ip) (entry x : Text) (xs : List Text)
    → contains x xs ≡ true
    → contains x (record_block o entry xs) ≡ true
unfolding record_block
record_block-contains_more none entry x xs h = h
record_block-contains_more (some ip) entry x xs h =
    ground (arith, h, contains-append_unique x entry xs)

module _ {F K M L : Type 0} (deps : Deps F K M L) where
  open deps use {fl, net, rate}

  -- A status write changes nothing, or writes its policy.
  write_status-effect :
      (inp : Inputs) (policy next : Policy) (w : World K M L)
      → Unwritten w (write_status deps inp policy next w).0
        ⊎ ((write_status deps inp policy next w).0.index ≡ put_policy next w.index)
          × ((write_status deps inp policy next w).0.statuses
              ≡ put name_discrete next.key next.status w.statuses)
  unfolding write_status update_status
  write_status-effect inp policy next w = ground arith

  write_status-writes :
      (inp : Inputs) (policy next : Policy) (w : World K M L)
      → next.key ≡ policy.key
      → Grows policy.status next.status
      → Unwritten w (write_status deps inp policy next w).0
        ⊎ Written policy w (write_status deps inp policy next w).0
  write_status-writes inp policy next w same grows = elim (write_status-effect inp policy next w) [
    | inl kept ↦ inl kept
    | inr (index, statuses) ↦ inr (next, same, grows, index, statuses)
  ]

  execute-writes :
      (intent : Intent) (teid : ℕ) (namespace : Text) (w : World K M L)
      → Unwritten w (execute deps intent teid namespace w).0
  unfolding execute then_ok act_tunnel act_source act_mesh
  execute-writes intent teid namespace w = ground arith

  then_ok-writes :
      (p : Step K M L) (intent : Intent) (teid : ℕ) (namespace : Text)
      → ((then_ok p (execute deps intent teid namespace)).0.index ≡ p.0.index)
        × ((then_ok p (execute deps intent teid namespace)).0.statuses ≡ p.0.statuses)
  unfolding then_ok
  then_ok-writes (w, some e) intent teid namespace = (refl, refl)
  then_ok-writes (w, none) intent teid namespace = execute-writes intent teid namespace w

  Written-move :
      (policy : Policy) (v v' w w' : World K M L)
      → (v.index ≡ w.index) × (v.statuses ≡ w.statuses)
      → (w'.index ≡ v'.index) × (w'.statuses ≡ v'.statuses)
      → Unwritten v v' ⊎ Written policy v v'
      → Unwritten w w' ⊎ Written policy w w'
  Written-move policy v v' w w' (a, b) (c, d) (inl (e, f)) = inl (c ∙ e ∙ a, d ∙ f ∙ b)
  Written-move policy v v' w w' (a, b) (c, d) (inr (next, same, grows, e, f)) = inr (
    next,
    same,
    grows,
    c ∙ e ∙ ap (put_policy next) a,
    d ∙ f ∙ ap (put name_discrete next.key next.status) b,
  )

  mitigate-writes :
      (inp : Inputs) (policy : Policy) (event : ThreatScoreEvent F) (w : World K M L)
      → Unwritten w (mitigate deps inp policy event w).0
        ⊎ Written policy w (mitigate deps inp policy event w).0
  unfolding mitigate counted intended observed
  mitigate-writes inp policy event w =
      let intent = intent_of net policy event in
      let next = intended intent event inp.now (observed (fl.format event.score) policy) in
      let w' =
        counted (no_teid_metric net policy event ++ Metric.crossing policy.key mitigating ∷ []) w in
      Written-move policy w' (write_status deps inp policy next w').0 w
        (mitigate deps inp policy event w).0 (refl, refl)
        (then_ok-writes (write_status deps inp policy next w') intent event.teid
          policy.key.namespace)
        (write_status-writes inp policy next w' refl (
          λ x h. record_block-contains_more intent.source _ x _ h,
          λ x h. record_block-contains_more intent.tunnel _ x _ h,
        ))

  alert-writes :
      (extra : List Metric) (inp : Inputs) (policy : Policy) (event : ThreatScoreEvent F)
      (w : World K M L)
      → Unwritten w (alert deps extra inp policy event w).0
        ⊎ Written policy w (alert deps extra inp policy event w).0
  unfolding alert counted with_phase observed
  alert-writes extra inp policy event w =
      write_status-writes inp policy (with_phase alerting (observed (fl.format event.score) policy))
        _ refl (λ x h. h, λ x h. h)

  calmed-Grows :
      (policy : Policy) (score : Text)
      → ((calmed (observed score policy)).key ≡ policy.key)
        × Grows policy.status (calmed (observed score policy)).status
  unfolding calmed with_phase observed
  calmed-Grows policy score = (ground arith, (λ x h. ground (arith, h), λ x h. ground (arith, h)))

  -- Applying a policy writes at most one status, the policy's own, which blocks all that the
  -- policy's status did.
  pub apply_policy-writes :
      (inp : Inputs) (policy : Policy) (event : ThreatScoreEvent F) (w : World K M L)
      → Unwritten w (apply_policy deps inp policy event w).0
        ⊎ Written policy w (apply_policy deps inp policy event w).0
  apply_policy-writes inp policy event w =
      cases (Bool-cases (fl.lt event.score (threshold deps policy)))
        (Bool-cases policy.spec.threat_detection.auto_mitigate) (Bool-cases (stops deps inp w))
    where
      cases :
          (fl.lt event.score (threshold deps policy) ≡ true)
            ⊎ (fl.lt event.score (threshold deps policy) ≡ false)
          → (policy.spec.threat_detection.auto_mitigate ≡ true)
            ⊎ (policy.spec.threat_detection.auto_mitigate ≡ false)
          → (stops deps inp w ≡ true) ⊎ (stops deps inp w ≡ false)
          → Unwritten w (apply_policy deps inp policy event w).0
            ⊎ Written policy w (apply_policy deps inp policy event w).0
      cases (inl below) _ _ =
          let (same, grows) = calmed-Grows policy (fl.format event.score) in
          rw (apply_below deps inp policy event w below) (
            write_status-writes inp policy (calmed (observed (fl.format event.score) policy)) w same
              grows)
      cases (inr crossed) (inr manual) _ =
          rw (apply_manual deps inp policy event w crossed manual)
            (alert-writes [] inp policy event w)
      cases (inr crossed) (inl auto) (inl stopped) =
          rw (apply_stopped deps inp policy event w crossed auto stopped)
            (alert-writes _ inp policy event (rechecked deps inp w))
      cases (inr crossed) (inl auto) (inr free) =
          rw (apply_mitigates deps inp policy event w crossed auto free)
            (mitigate-writes inp policy event (rechecked deps inp w))
