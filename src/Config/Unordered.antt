-- ===== src/Config/Unordered.antt =====
-- Thresholds outside the order, such as NaN: what the guard of Load (pkg/config/config.go) and
-- applyPolicy (pkg/controller/threat_score_watcher.go) make of them.
use sentinel5g.Prelude.{◌≡◌, ◌≢◌, inl, true, false, arith}
use sentinel5g.Events.{ThreatScoreEvent}
use sentinel5g.Config.{OperatorConfig, threshold_out_of_range, Parsers, guarded}
use sentinel5g.Controller.Api.{Policy}
use sentinel5g.Controller.Watcher.{World, Inputs, Deps}
use sentinel5g.Controller.Watcher.Apply.{threshold, sensitivity_multiplier, mitigate, apply_policy}
use sentinel5g.Controller.Watcher.Gates.{stops, rechecked, apply_mitigates}

nothing_below :
    {F K M L : Type 0} (deps : Deps F K M L) (policy : Policy) (score : F)
    → ((m x : F)
        → (deps.fl.lt (deps.fl.mul deps.base m) x ≡ false)
          × (deps.fl.lt x (deps.fl.mul deps.base m) ≡ false))
    → deps.fl.lt score (threshold deps policy) ≡ false
unfolding threshold
nothing_below deps policy score multiples =
    let m = sensitivity_multiplier deps policy.spec.threat_detection.sensitivity in
    ground (arith, (multiples m score).1, (multiples m deps.fl.one).1)

-- Let the order be false wherever the configured threshold or a multiple of it stands, as float64's is
-- at NaN. Then Load's guard does not refuse the threshold, and with it as the base, whatever the
-- score is, a policy with autoMitigate mitigates unless the kill switch stops it.
pub unordered_threshold-mitigates :
    {F K M L : Type 0} (deps : Deps F K M L) (ps : Parsers F) (cfg : OperatorConfig F)
    → ((x y : F) → ps.lt x y ≡ deps.fl.lt x y)
    → cfg.threat_score_threshold ≡ deps.base
    → ((x : F) → (deps.fl.lt deps.base x ≡ false) × (deps.fl.lt x deps.base ≡ false))
    → ((m x : F)
        → (deps.fl.lt (deps.fl.mul deps.base m) x ≡ false)
          × (deps.fl.lt x (deps.fl.mul deps.base m) ≡ false))
    → (inp : Inputs) (policy : Policy) (event : ThreatScoreEvent F) (w : World K M L)
    → policy.spec.threat_detection.auto_mitigate ≡ true
    → stops deps inp w ≡ false
    → (guarded ps cfg ≢ inl threshold_out_of_range)
      × (apply_policy deps inp policy event w
          ≡ mitigate deps inp policy event (rechecked deps inp w))
unfolding guarded
unordered_threshold-mitigates deps ps cfg order base unordered multiples inp policy event w auto
      free =
    (
      λ refused. ground (
        arith,
        refused,
        order cfg.threat_score_threshold ps.zero_float,
        order ps.one_float cfg.threat_score_threshold,
        base,
        unordered ps.zero_float,
        unordered ps.one_float,
      ),
      apply_mitigates deps inp policy event w (nothing_below deps policy event.score multiples) auto
          free,
    )
