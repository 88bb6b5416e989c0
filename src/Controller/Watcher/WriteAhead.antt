-- ===== src/Controller/Watcher/WriteAhead.antt =====
-- The order of applyPolicy (pkg/controller/threat_score_watcher.go): the status that records an
-- action is with the API server before the kernel or the mesh is asked for it.
use sentinel5g.Prelude.{
  ℕ, ◌≡◌, ◌≢◌, ◌⊎◌, inl, inr, true, false, List, [], ◌∷◌, ◌++◌, Option, none, some, Text, arith,
  refl, ap, ◌∙◌, Bool-cases,
}
use sentinel5g.Prelude.Map.{find, find-put}
use sentinel5g.Events.{ThreatScoreEvent}
use sentinel5g.Ebpf.Interface.{Ip}
use sentinel5g.Controller.Names.{name_discrete}
use sentinel5g.Controller.Api.{mitigating, Policy, PolicyStatus}
use sentinel5g.Controller.Tunnels.{format_tunnel}
use sentinel5g.Controller.Watcher.{
  World, Inputs, Deps, Metric, Intent, contains, all_in, equal_string_set, status_decision_changed,
}
use sentinel5g.Controller.Limiter
use sentinel5g.Controller.Watcher.Sets.{contains-append_unique_self, equal_string_set_refl}
use sentinel5g.Controller.Watcher.Apply.{
  observed, intent_of, intended, record_block, then_ok, write_status, update_status, act_tunnel,
  act_source, act_mesh, execute, mitigate, apply_policy, threshold, counted, no_teid_metric, Step,
}
use sentinel5g.Controller.Watcher.Gates.{
  SameEnforcement, write_status-SameEnforcement, apply_policy-Withheld, stops, rechecked,
  apply_mitigates,
}

contains-all_in :
    (x : Text) (a b : List Text) → all_in a b ≡ true → contains x b ≡ true → contains x a ≡ true
unfolding all_in contains
contains-all_in x a [] h k = absurd (cc)
contains-all_in x a (y ∷ ys) h k = ground (arith, h, k, contains-all_in x a ys)

contains-equal_string_set :
    (x : Text) (a b : List Text)
    → equal_string_set a b ≡ true
    → contains x b ≡ true
    → contains x a ≡ true
unfolding equal_string_set
contains-equal_string_set x a b h k = ground (arith, h, k, contains-all_in x a b)

status_decision_changed_refl : (s : PolicyStatus) → status_decision_changed s s ≡ false
unfolding status_decision_changed
status_decision_changed_refl s =
    ground
      (arith, equal_string_set_refl s.blocked_source_ips, equal_string_set_refl s.blocked_tunnels)

-- The two statuses carry the same decision: the phase and the sets of what is blocked.
same_decision :
    (s t : PolicyStatus)
    → status_decision_changed s t ≡ false
    → (s.phase ≡ t.phase)
      × (equal_string_set s.blocked_source_ips t.blocked_source_ips ≡ true)
      × (equal_string_set s.blocked_tunnels t.blocked_tunnels ≡ true)
unfolding status_decision_changed
same_decision s t h = ground (arith, h)

-- What the API server has for a policy is a status with the same decision as the given one.
abbrev pub IsStored : {K M L : Type 0} → Policy → World K M L → Type 0
IsStored next w =
    (s : PolicyStatus) × (find name_discrete next.key w.statuses ≡ some s)
    × (status_decision_changed s next.status ≡ false)

-- The status that records a mitigation: its phase, and an entry for each block that is intended.
abbrev pub IsRecorded :
    {F K M L : Type 0} → Intent → Policy → ThreatScoreEvent F → World K M L → Type 0
IsRecorded intent policy event w =
    (s : PolicyStatus) × (find name_discrete policy.key w.statuses ≡ some s)
    × (s.phase ≡ mitigating)
    × (intent.source ≢ none → contains event.source_ip s.blocked_source_ips ≡ true)
    × (intent.tunnel ≢ none
        → contains (format_tunnel event.source_ip event.teid) s.blocked_tunnels ≡ true)

record_block-contains :
    (o : Option Ip) (x : Text) (xs : List Text) → o ≢ none → contains x (record_block o x xs) ≡ true
unfolding record_block
record_block-contains none x xs h = absurd (h refl)
record_block-contains (some ip) x xs h = contains-append_unique_self x xs

module _ {F K M L : Type 0} (deps : Deps F K M L) where
  open deps use {fl, net, rate}

  update_status-stores :
      (inp : Inputs) (next : Policy) (w : World K M L)
      → (update_status deps inp next w).1 ≡ none
      → find name_discrete next.key (update_status deps inp next w).0.statuses ≡ some next.status
  unfolding update_status
  update_status-stores inp next w h =
      ground (arith, h, find-put name_discrete next.key next.key next.status w.statuses)

  -- A write either has been made or was held back, as it carries no decision.
  write_status-cases :
      (inp : Inputs) (prev next : Policy) (w : World K M L)
      → (write_status deps inp prev next w).1 ≡ none
      → (find name_discrete next.key (write_status deps inp prev next w).0.statuses
          ≡ some next.status)
        ⊎ (status_decision_changed prev.status next.status ≡ false)
          × ((write_status deps inp prev next w).0.statuses ≡ w.statuses)
  unfolding write_status
  write_status-cases inp prev next w h = ground (
    arith,
    h,
    update_status-stores inp next w,
    update_status-stores inp next
        (record w { limiters = (Limiter.allow rate next.key inp.now w.limiters).0 }),
  )

  -- A status write that reports no error leaves the API server with a status of the same decision
  -- as the one to be written, even when the limiter held the write back, if what was to be
  -- overwritten is what the API server has.
  pub write_status-IsStored :
      (inp : Inputs) (prev next : Policy) (w : World K M L)
      → next.key ≡ prev.key
      → find name_discrete prev.key w.statuses ≡ some prev.status
      → (write_status deps inp prev next w).1 ≡ none
      → IsStored next (write_status deps inp prev next w).0
  write_status-IsStored inp prev next w same current h =
      elim (write_status-cases inp prev next w h) [
        | inl e ↦ (next.status, e, status_decision_changed_refl next.status)
        | inr (kept, e) ↦ (prev.status, cc, kept)
      ]

  execute-statuses :
      (intent : Intent) (teid : ℕ) (namespace : Text) (w : World K M L)
      → (execute deps intent teid namespace w).0.statuses ≡ w.statuses
  unfolding execute then_ok act_tunnel act_source act_mesh
  execute-statuses intent teid namespace w = ground arith

  then_ok-stops :
      (p : Step K M L) (next : World K M L → Step K M L) → (p.1 ≡ none) ⊎ (then_ok p next ≡ p)
  unfolding then_ok
  then_ok-stops (w, none) next = inl refl
  then_ok-stops (w, some e) next = inr refl

  then_ok-runs :
      (p : Step K M L) (next : World K M L → Step K M L) → p.1 ≡ none → then_ok p next ≡ next p.0
  unfolding then_ok
  then_ok-runs (w, none) next h = refl
  then_ok-runs (w, some e) next h = absurd (cc)

  IsRecorded-IsStored :
      (intent : Intent) (policy : Policy) (event : ThreatScoreEvent F) (now : ℕ)
      (w w' : World K M L)
      → w'.statuses ≡ w.statuses
      → IsStored (intended intent event now (observed (fl.format event.score) policy)) w
      → IsRecorded intent policy event w'
  unfolding intended observed
  IsRecorded-IsStored intent policy event now w w' e (s, there, kept) =
      let (same, ips, tunnels) = same_decision s _ kept in
      (
        s,
        cc,
        same,
        λ h. contains-equal_string_set _ s.blocked_source_ips _ ips (
            record_block-contains intent.source event.source_ip policy.status.blocked_source_ips h),
        λ h. contains-equal_string_set _ s.blocked_tunnels _ tunnels (
            record_block-contains intent.tunnel (format_tunnel event.source_ip event.teid)
              policy.status.blocked_tunnels h),
      )

  mitigate-IsRecorded :
      (inp : Inputs) (policy : Policy) (event : ThreatScoreEvent F) (w : World K M L)
      → find name_discrete policy.key w.statuses ≡ some policy.status
      → SameEnforcement w (mitigate deps inp policy event w).0
        ⊎ IsRecorded (intent_of net policy event) policy event (mitigate deps inp policy event w).0
  unfolding mitigate counted intended observed
  mitigate-IsRecorded inp policy event w current =
      let intent = intent_of net policy event in
      let next = intended intent event inp.now (observed (fl.format event.score) policy) in
      let w' =
        counted (no_teid_metric net policy event ++ Metric.crossing policy.key mitigating ∷ []) w in
      let run = execute deps intent event.teid policy.key.namespace in
      let wrote = write_status deps inp policy next w' in
      elim (then_ok-stops wrote run) [
        | inl ok ↦ inr (
            IsRecorded-IsStored intent policy event inp.now wrote.0
              (mitigate deps inp policy event w).0
              (ap (λ (p : Step K M L). p.0.statuses) (then_ok-runs wrote run ok)
                ∙ execute-statuses intent event.teid policy.key.namespace wrote.0)
              (write_status-IsStored inp policy next w' refl current ok))
        | inr e ↦ inl (
          ap (λ (p : Step K M L). p.0.kernel) e
              ∙ (write_status-SameEnforcement deps inp policy next w').0,
          ap (λ (p : Step K M L). p.0.mesh) e
              ∙ (write_status-SameEnforcement deps inp policy next w').1,
        )
      ]

  -- Whatever a score makes of a policy whose status is the one that the API server has: either the
  -- kernel and the mesh are as they were, or the API server has a status in phase Mitigating that
  -- claims each block the policy and the score ask for. It has it also if the action failed.
  pub apply_policy-IsRecorded :
      (inp : Inputs) (policy : Policy) (event : ThreatScoreEvent F) (w : World K M L)
      → find name_discrete policy.key w.statuses ≡ some policy.status
      → SameEnforcement w (apply_policy deps inp policy event w).0
        ⊎ IsRecorded
            (intent_of net policy event)
            policy
            event
            (apply_policy deps inp policy event w).0
  apply_policy-IsRecorded inp policy event w current =
      cases (Bool-cases (fl.lt event.score (threshold deps policy)))
        (Bool-cases policy.spec.threat_detection.auto_mitigate) (Bool-cases (stops deps inp w))
    where
      cases :
          (fl.lt event.score (threshold deps policy) ≡ true)
            ⊎ (fl.lt event.score (threshold deps policy) ≡ false)
          → (policy.spec.threat_detection.auto_mitigate ≡ true)
            ⊎ (policy.spec.threat_detection.auto_mitigate ≡ false)
          → (stops deps inp w ≡ true) ⊎ (stops deps inp w ≡ false)
          → SameEnforcement w (apply_policy deps inp policy event w).0
            ⊎ IsRecorded
                (intent_of net policy event)
                policy
                event
                (apply_policy deps inp policy event w).0
      cases (inl below) _ _ = inl (apply_policy-Withheld deps inp policy event w (inl below))
      cases _ (inr manual) _ =
          inl (apply_policy-Withheld deps inp policy event w (inr (inl manual)))
      cases _ _ (inl stopped) =
          inl (apply_policy-Withheld deps inp policy event w (inr (inr stopped)))
      cases (inr crossed) (inl auto) (inr free) =
          rw (apply_mitigates deps inp policy event w crossed auto free)
            (mitigate-IsRecorded inp policy event (rechecked deps inp w) current)
