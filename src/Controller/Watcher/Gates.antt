-- ===== src/Controller/Watcher/Gates.antt =====
-- What keeps applyPolicy (pkg/controller/threat_score_watcher.go) from acting: the threshold,
-- autoMitigate and the kill switch.
use sentinel5g.Prelude.{
  ◌≡◌, ◌≢◌, ◌⊎◌, inl, inr, Bool, true, false, List, [], some, arith, refl, map, Bool-cases,
}
use sentinel5g.Prelude.Map.{find, find-put}
use sentinel5g.Events.{ThreatScoreEvent}
use sentinel5g.Controller.Names.{name_discrete}
use sentinel5g.Controller.Api.{alerting, Policy, PolicyStatus}
use sentinel5g.Controller.KillSwitch.{check_optional}
use sentinel5g.Controller.Watcher.{
  World, Inputs, Deps, Metric, suppressed, suppressed_actions, status_decision_changed,
}
use sentinel5g.Controller.Watcher.Apply.{
  observed, with_phase, calmed, threshold, update_status, write_status, alert, apply_policy,
  counted, mitigate,
}

-- Nothing is enforced that was not, and nothing ceases to be.
abbrev pub SameEnforcement : {K M L : Type 0} → World K M L → World K M L → Type 0
SameEnforcement w w' = (w'.kernel ≡ w.kernel) × (w'.mesh ≡ w.mesh)

module _ {F K M L : Type 0} (deps : Deps F K M L) where
  open deps use {fl}

  pub write_status-SameEnforcement :
      (inp : Inputs) (prev next : Policy) (w : World K M L)
      → SameEnforcement w (write_status deps inp prev next w).0
  unfolding write_status update_status
  write_status-SameEnforcement inp prev next w = ground arith

  alert-SameEnforcement :
      (extra : List Metric) (inp : Inputs) (policy : Policy) (event : ThreatScoreEvent F)
      (w : World K M L)
      → SameEnforcement w (alert deps extra inp policy event w).0
  unfolding alert counted
  alert-SameEnforcement extra inp policy event w = write_status-SameEnforcement inp policy _ _

  -- The kill switch as this score finds it, and the state with its cache renewed.
  abbrev pub stops : Inputs → World K M L → Bool
  stops inp w = (check_optional w.kill_switch inp.kill_now inp.kill_after inp.kill_reply).1

  abbrev pub rechecked : Inputs → World K M L → World K M L
  rechecked inp w = record w {
    kill_switch = (check_optional w.kill_switch inp.kill_now inp.kill_after inp.kill_reply).0;
  }

  -- The four branches of applyPolicy, each as an equation.
  pub apply_below :
      (inp : Inputs) (policy : Policy) (event : ThreatScoreEvent F) (w : World K M L)
      → fl.lt event.score (threshold deps policy) ≡ true
      → apply_policy deps inp policy event w
        ≡ write_status deps inp policy (calmed (observed (fl.format event.score) policy)) w
  unfolding apply_policy
  apply_below inp policy event w below = ground (arith, below)

  pub apply_manual :
      (inp : Inputs) (policy : Policy) (event : ThreatScoreEvent F) (w : World K M L)
      → fl.lt event.score (threshold deps policy) ≡ false
      → policy.spec.threat_detection.auto_mitigate ≡ false
      → apply_policy deps inp policy event w ≡ alert deps [] inp policy event w
  unfolding apply_policy
  apply_manual inp policy event w crossed manual = ground (arith, crossed, manual)

  pub apply_stopped :
      (inp : Inputs) (policy : Policy) (event : ThreatScoreEvent F) (w : World K M L)
      → fl.lt event.score (threshold deps policy) ≡ false
      → policy.spec.threat_detection.auto_mitigate ≡ true
      → stops inp w ≡ true
      → apply_policy deps inp policy event w
        ≡ alert deps (map suppressed (suppressed_actions policy)) inp policy event (rechecked inp w)
  unfolding apply_policy
  apply_stopped inp policy event w crossed auto stopped = ground (arith, crossed, auto, stopped)

  pub apply_mitigates :
      (inp : Inputs) (policy : Policy) (event : ThreatScoreEvent F) (w : World K M L)
      → fl.lt event.score (threshold deps policy) ≡ false
      → policy.spec.threat_detection.auto_mitigate ≡ true
      → stops inp w ≡ false
      → apply_policy deps inp policy event w ≡ mitigate deps inp policy event (rechecked inp w)
  unfolding apply_policy
  apply_mitigates inp policy event w crossed auto free = ground (arith, crossed, auto, free)

  -- One of the three reasons for which a score leads to no action.
  abbrev pub Withheld : Inputs → Policy → ThreatScoreEvent F → World K M L → Type 0
  Withheld inp policy event w =
      (fl.lt event.score (threshold deps policy) ≡ true)
      ⊎ (policy.spec.threat_detection.auto_mitigate ≡ false)
      ⊎ (stops inp w ≡ true)

  -- A score below the policy's threshold, a policy that does not mitigate by itself and an engaged
  -- kill switch each keep the kernel and the mesh exactly as they were.
  pub apply_policy-Withheld :
      (inp : Inputs) (policy : Policy) (event : ThreatScoreEvent F) (w : World K M L)
      → Withheld inp policy event w
      → SameEnforcement w (apply_policy deps inp policy event w).0
  apply_policy-Withheld inp policy event w h =
      cases h (Bool-cases (fl.lt event.score (threshold deps policy)))
        (Bool-cases policy.spec.threat_detection.auto_mitigate) (Bool-cases (stops inp w))
    where
      cases :
          Withheld inp policy event w
          → (fl.lt event.score (threshold deps policy) ≡ true)
            ⊎ (fl.lt event.score (threshold deps policy) ≡ false)
          → (policy.spec.threat_detection.auto_mitigate ≡ true)
            ⊎ (policy.spec.threat_detection.auto_mitigate ≡ false)
          → (stops inp w ≡ true) ⊎ (stops inp w ≡ false)
          → SameEnforcement w (apply_policy deps inp policy event w).0
      cases h (inl below) _ _ =
          rw (apply_below inp policy event w below) (write_status-SameEnforcement inp policy _ w)
      cases h (inr crossed) (inr manual) _ =
          rw (apply_manual inp policy event w crossed manual)
            (alert-SameEnforcement [] inp policy event w)
      cases h (inr crossed) (inl auto) (inl stopped) =
          rw (apply_stopped inp policy event w crossed auto stopped)
            (alert-SameEnforcement _ inp policy event (rechecked inp w))
      cases h (inr crossed) (inl auto) (inr free) = ground (arith, h, crossed, auto, free)

  -- A deterministic detector's score of 1.0 crosses every policy's threshold, whatever its
  -- sensitivity and the configured base: only that 1.0 is not below itself is asked of the floats.
  pub rule_score_crosses :
      (policy : Policy) → fl.lt fl.one fl.one ≡ false → fl.lt fl.one (threshold deps policy) ≡ false
  unfolding threshold
  rule_score_crosses policy h = ground (arith, h)

  alert-blocks :
      (extra : List Metric) (inp : Inputs) (policy : Policy) (event : ThreatScoreEvent F)
      (w : World K M L)
      → inp.accepts ≡ true
      → policy.status.phase ≢ alerting
      → (s : PolicyStatus) × (find name_discrete policy.key
            (alert deps extra inp policy event w).0.statuses
          ≡ some s)
        × (s.phase ≡ alerting)
        × (s.blocked_source_ips ≡ policy.status.blocked_source_ips)
        × (s.blocked_tunnels ≡ policy.status.blocked_tunnels)
  unfolding alert write_status update_status status_decision_changed counted with_phase observed
  alert-blocks extra inp policy event w accepts changes =
      let s : PolicyStatus = record (policy.status) {
        phase = alerting;
        observed_threat_score = fl.format event.score;
      } in
      (
        s,
        ground (arith, accepts, changes, find-put name_discrete policy.key policy.key s w.statuses),
        refl,
        refl,
        refl,
      )

  -- A score crosses the threshold of a policy that is in any phase but Alerting, and whose actions
  -- are withheld, be it by its own setting or by the kill switch. If the API server accepts the
  -- status, it has the policy in Alerting, with the blocked sources and tunnels as they were.
  pub alert_keeps_blocks :
      (inp : Inputs) (policy : Policy) (event : ThreatScoreEvent F) (w : World K M L)
      → fl.lt event.score (threshold deps policy) ≡ false
      → (policy.spec.threat_detection.auto_mitigate ≡ false) ⊎ (stops inp w ≡ true)
      → inp.accepts ≡ true
      → policy.status.phase ≢ alerting
      → (s : PolicyStatus) × (find name_discrete policy.key
            (apply_policy deps inp policy event w).0.statuses
          ≡ some s)
        × (s.phase ≡ alerting)
        × (s.blocked_source_ips ≡ policy.status.blocked_source_ips)
        × (s.blocked_tunnels ≡ policy.status.blocked_tunnels)
  alert_keeps_blocks inp policy event w crossed held accepts changes =
      cases held (Bool-cases policy.spec.threat_detection.auto_mitigate)
    where
      cases :
          (policy.spec.threat_detection.auto_mitigate ≡ false) ⊎ (stops inp w ≡ true)
          → (policy.spec.threat_detection.auto_mitigate ≡ true)
            ⊎ (policy.spec.threat_detection.auto_mitigate ≡ false)
          → (s : PolicyStatus) × (find name_discrete policy.key
                (apply_policy deps inp policy event w).0.statuses
              ≡ some s)
            × (s.phase ≡ alerting)
            × (s.blocked_source_ips ≡ policy.status.blocked_source_ips)
            × (s.blocked_tunnels ≡ policy.status.blocked_tunnels)
      cases _ (inr manual) =
          rw (apply_manual inp policy event w crossed manual)
            (alert-blocks [] inp policy event w accepts changes)
      cases (inl manual) (inl auto) = absurd (cc)
      cases (inr stopped) (inl auto) =
          rw (apply_stopped inp policy event w crossed auto stopped)
            (alert-blocks _ inp policy event (rechecked inp w) accepts changes)
