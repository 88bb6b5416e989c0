-- ===== src/Controller/Watcher/Handle.antt =====
-- handle, warmIndex and the start of pkg/controller/threat_score_watcher.go: from one score to the
-- policies that select its Pod. Each policy is applied to what the index held when the score came.
use sentinel5g.Prelude.{
  ℕ, ◌+◌, ◌==◌, Bool, true, false, List, [], ◌∷◌, Option, none, some, Text, codes, if◌then◌else◌,
  text_discrete, ite,
}
use sentinel5g.Prelude.Map.{Map}
use sentinel5g.Events.{ThreatScoreEvent}
use sentinel5g.Controller.Api.{Policy}
use sentinel5g.Controller.PolicyIndex.{PolicyIndex, put_policy, matching_policies}
use sentinel5g.Controller.Scoring.{Tracker}
use sentinel5g.Controller.Scoring
use sentinel5g.Controller.Watcher.{World, Inputs, Deps, score_received}
use sentinel5g.Controller.Watcher.Apply.{apply_policy, counted}

-- strings.HasPrefix(s, prefix)
unfoldable pub has_prefix : Text → Text → Bool
has_prefix [] s = true
has_prefix (c ∷ cs) [] = false
has_prefix (c ∷ cs) (d ∷ ds) = if c == d then has_prefix cs ds else false

-- scoreSourceLabel
unfoldable pub score_source_label : Text → Text
score_source_label model =
    ite (text_discrete model []) (codes "unknown")
      (if has_prefix (codes "rule:") model then codes "rule" else codes "model")

-- The API server's answer to the Get of the score's Pod: its labels, that there is none, or another
-- error.
pub data PodLabels : Type 0 where
  found : Map Text Text → PodLabels
  not_found failed : PodLabels

unfoldable pub observe_tracker : ℕ → Option Tracker → Option Tracker
observe_tracker now none = none
observe_tracker now (some t) = some (Scoring.observe now t)

unfoldable pub mark_tracker : ℕ → Option Tracker → Option Tracker
mark_tracker now none = none
mark_tracker now (some t) = some (Scoring.mark_started now t)

-- The loop of warmIndex: a policy that is being deleted is left out.
unfoldable pub warm : List Policy → PolicyIndex → PolicyIndex
warm [] idx = idx
warm (policy ∷ policies) idx =
    if policy.deleting then warm policies idx else warm policies (put_policy policy idx)

-- Start up to its subscription: the index first, without which it gives up, then the tracker.
unfoldable pub start_watching :
    {K M L : Type 0} → ℕ → Option (List Policy) → World K M L → World K M L × Bool
start_watching now none w = (w, false)
start_watching now (some policies) w =
    (record w { index = warm policies w.index; tracker = mark_tracker now w.tracker }, true)

module _ {F K M L : Type 0} (deps : Deps F K M L) where
  -- The loop of handle: a policy that fails is logged, and the next one is applied all the same.
  -- The inputs are those of each round.
  unfoldable pub apply_all :
      (ℕ → Inputs) → ℕ → List Policy → ThreatScoreEvent F → World K M L → World K M L
  apply_all inputs i [] event w = w
  apply_all inputs i (policy ∷ policies) event w =
      apply_all inputs (i + 1) policies event (apply_policy deps (inputs i) policy event w).0

  -- What handle counts before anything else.
  unfoldable pub received : ℕ → ThreatScoreEvent F → World K M L → World K M L
  received now event w =
      counted (score_received (score_source_label event.model) ∷ [])
        (record w { tracker = observe_tracker now w.tracker })

  -- handle, and whether it succeeded: a Pod that is gone is no error.
  unfoldable pub handle :
      (ℕ → Inputs) → ℕ → PodLabels → ThreatScoreEvent F → World K M L → World K M L × Bool
  handle inputs now not_found event w = (received now event w, true)
  handle inputs now failed event w = (received now event w, false)
  handle inputs now (found labels) event w =
      let w' = received now event w in
      (apply_all inputs 0 (matching_policies event.namespace labels w'.index) event w', true)

-- One score as it is delivered, with what its handling meets.
pub record Delivery (F : Type 0) : Type 0 where
  pub inputs : ℕ → Inputs
  pub now : ℕ
  pub pod : PodLabels
  pub event : ThreatScoreEvent F

-- Scores are handled one after another.
unfoldable pub handle_all :
    {F K M L : Type 0} → Deps F K M L → List (Delivery F) → World K M L → World K M L
handle_all deps [] w = w
handle_all deps (d ∷ ds) w = handle_all deps ds (handle deps d.inputs d.now d.pod d.event w).0
