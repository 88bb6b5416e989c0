-- ===== src/Detect/SourceFlood/Verdict.antt =====
-- What makes the per-peer detector (pkg/detect/gtpu_source_flood.go) look at an event and report.
use sentinel5g.Prelude.{ℕ, ◌<◌, ◌≡◌, ◌≢◌, ◌⊎◌, ◌↔◌, true, none, some, [], arith, inl, inr}
use sentinel5g.Prelude.Int.{pos, ltb_ℤ}
use sentinel5g.Events.{gtpu, NormalizedEvent, ThreatScoreEvent, Floats}
use sentinel5g.Detect.SourceFlood.{
  GtpuSourceFloodDetector, observe, is_configured, is_tunnelled, source_score, evaluate,
  no_observation,
}

-- An enabled detector with at least one of its two thresholds set.
abbrev pub IsArmed : GtpuSourceFloodDetector → Type 0
IsArmed d =
    (d.cfg.enabled ≡ true)
    × ((0 < d.cfg.packets_per_second) ⊎ (ltb_ℤ (pos 0) d.cfg.distinct_tunnels ≡ true))

pub is_configured_iff : (d : GtpuSourceFloodDetector) → (is_configured d ≡ true) ↔ IsArmed d
unfolding is_configured
is_configured_iff d = (λ h. ground (arith, h), λ h. ground (arith, h))

-- A GTP-U packet with a tunnel identity and a source address.
pub record IsTunnelled (evt : NormalizedEvent) : Type 0 where
  pub tunnelled : evt.protocol ≡ gtpu
  pub identified : evt.teid ≢ 0
  pub attributed : evt.source_ip ≢ []

pub is_tunnelled_iff : (evt : NormalizedEvent) → (is_tunnelled evt ≡ true) ↔ IsTunnelled evt
unfolding is_tunnelled
is_tunnelled_iff evt = (
  λ h. record {
    tunnelled = ground (arith, h);
    identified = ground (arith, h);
    attributed = ground (arith, h);
  },
  λ h. ground (arith, h),
)

module _ {F : Type 0} (fl : Floats F) (d : GtpuSourceFloodDetector) (evt : NormalizedEvent)
    (now : ℕ) where
  -- An armed detector reports a tunnelled packet exactly when its source's window says to emit;
  -- the score names the source, at 1.0, and deliberately no tunnel: its TEID is 0.
  pub evaluate_source-eq-some_iff :
      (s : ThreatScoreEvent F)
      → ((evaluate fl d evt now).1 ≡ some s) ↔ (
          IsArmed d
          × IsTunnelled evt
          × ((observe d evt.source_ip evt.teid now).2 ≡ true)
          × (s ≡ source_score fl evt now))
  unfolding evaluate
  evaluate_source-eq-some_iff s = (
    λ h. (
      (is_configured_iff d).0 (ground (arith, h)),
      (is_tunnelled_iff evt).0 (ground (arith, h)),
      ground (arith, h),
      ground (arith, h),
    ),
    λ h. ground (arith, (is_configured_iff d).1 h.0, (is_tunnelled_iff evt).1 h.1, h.2, h.3),
  )

  -- Any other event, and every event of a detector that is not armed, is neither counted nor
  -- reported.
  pub evaluate_source_inert :
      (¬ IsArmed d) ⊎ (¬ IsTunnelled evt) → evaluate fl d evt now ≡ (d, none, no_observation)
  unfolding evaluate
  evaluate_source_inert (inl h) = ground (arith, h, (is_configured_iff d).0)
  evaluate_source_inert (inr h) = ground (arith, h, (is_tunnelled_iff evt).0)
