-- ===== src/Tests/Detection.antt =====
-- The detectors of pkg/detect on small runs.
use sentinel5g.Prelude.{
  ℕ, ◌+◌, ◌%◌, ◌^◌, ◌≤◌, ◌≡◌, ◌↔◌, ◌≢◌, Bool, true, false, List, [], ◌∷◌, Option, none, some, Text,
  text_discrete, length, refl, arith,
}
use sentinel5g.Prelude.Int.{pos, sub_ℕ, ltb_ℤ}
use sentinel5g.Prelude.Map.{find}
use sentinel5g.Events.{NormalizedEvent}
use sentinel5g.Detect.TunnelFlood.{
  GtpuFloodConfig, TunnelId, or_default, default_cooldown, default_tracked_tunnels, claim,
  tunnel_score,
}
use sentinel5g.Detect.TunnelFlood
use sentinel5g.Detect.TunnelFlood.Cooldown.{
  Request, Logged, claim_all, claim_all-covered, verdicts, reference_all, verdicts-eq-reference,
}
use sentinel5g.Detect.TunnelFlood.Memory.{tracked-le-capacity}
use sentinel5g.Detect.TunnelFlood.Memory
use sentinel5g.Detect.TunnelFlood.Verdict.{IsFlood, IsDue, IsReport, evaluate-eq-some_iff}
use sentinel5g.Detect.SourceFlood.{
  GtpuSourceFloodConfig, SourceWindow, fresh, default_tracked_sources, default_tunnels_per_source,
  source_score,
}
use sentinel5g.Detect.SourceFlood
use sentinel5g.Detect.SourceFlood.Window.{Emits, IsTeidSet}
use sentinel5g.Detect.SourceFlood.Tracked.{
  Heard, verdicts_on, tracked_storm-Emits, tracked_cooldown-silent,
}
use sentinel5g.Detect.SourceFlood.Memory.{sources-le-capacity}
use sentinel5g.Detect.SourceFlood.Memory as SourceMemory
use sentinel5g.Tests.Fixtures.{hundredths, source_a, source_b, packet}

-- A ring of two tunnels, a cooldown of ten, a threshold of three packets a second.
abbrev two_tunnels : GtpuFloodConfig
two_tunnels = record {
  enabled = true;
  packets_per_second = 3;
  cooldown = pos 10;
  max_tracked_tunnels = pos 2;
}

abbrev tunnel : ℕ → TunnelId
tunnel teid = record { source_ip = source_a; teid = teid }

abbrev three_claims : List Request
three_claims = (tunnel 1, 0) ∷ (tunnel 2, 1) ∷ (tunnel 3, 2) ∷ []

claim_all-covered_example :
    (last : ℕ) × Logged
      (tunnel 3)
      last
      (claim_all (TunnelFlood.new_detector two_tunnels) [] three_claims).1
    × (ltb_ℤ (sub_ℕ 5 last) (pos (or_default (pos 10) default_cooldown)) ≡ true)
unfolding claim find claim_all TunnelFlood.new_detector sentinel5g.Prelude.Fifo.empty
    sentinel5g.Prelude.Fifo.admit sentinel5g.Prelude.Map.put TunnelFlood.tunnel_id_discrete
    text_discrete sentinel5g.Prelude.Map.del
claim_all-covered_example = claim_all-covered two_tunnels three_claims (tunnel 3) 5 refl

abbrev two_claims : List Request
two_claims = (tunnel 1, 0) ∷ (tunnel 2, 1) ∷ (tunnel 1, 4) ∷ []

verdicts-eq-reference_example :
    verdicts (TunnelFlood.new_detector two_tunnels) two_claims
    ≡ (reference_all (pos (or_default (pos 10) default_cooldown)) [] two_claims).1
unfolding sentinel5g.Detect.TunnelFlood.Cooldown.reference_claim or_default find
    sentinel5g.Prelude.Map.put TunnelFlood.tunnel_id_discrete text_discrete
verdicts-eq-reference_example =
    verdicts-eq-reference two_tunnels two_claims (unfold reference_all in omega arith)

abbrev flood : List (NormalizedEvent × ℕ)
flood = (packet source_a 1 9, 0) ∷ (packet source_a 2 9, 1) ∷ (packet source_a 3 9, 2) ∷ []

tracked-le-capacity_example :
    (length
        (Memory.observe_all hundredths (TunnelFlood.new_detector two_tunnels) flood).table.entries
      ≤ 2)
    × Memory.IsValid (Memory.observe_all hundredths (TunnelFlood.new_detector two_tunnels) flood)
unfolding or_default
tracked-le-capacity_example = tracked-le-capacity hundredths two_tunnels flood

evaluate-eq-some_iff_example :
    ((TunnelFlood.evaluate hundredths
        (TunnelFlood.new_detector two_tunnels)
        (packet source_a 1 9)
        7).1
      ≡ some (tunnel_score hundredths (packet source_a 1 9) 7))
    ↔ (IsFlood (TunnelFlood.new_detector two_tunnels).cfg (packet source_a 1 9)
        × IsDue hundredths (TunnelFlood.new_detector two_tunnels) (packet source_a 1 9) 7 10
        × IsReport hundredths
            (TunnelFlood.new_detector two_tunnels)
            (packet source_a 1 9)
            7
            (tunnel_score hundredths (packet source_a 1 9) 7))
unfolding TunnelFlood.new_detector or_default
evaluate-eq-some_iff_example =
    evaluate-eq-some_iff hundredths (TunnelFlood.new_detector two_tunnels) (packet source_a 1 9) 7
      10 (tunnel_score hundredths (packet source_a 1 9) 7) refl

-- A window of ten, a cooldown of thirty, and three packets in a window are a storm.
abbrev two_sources : GtpuSourceFloodConfig
two_sources = record {
  enabled = true;
  packets_per_second = 3;
  distinct_tunnels = pos 0;
  window = pos 10;
  cooldown = pos 30;
  max_tracked_sources = pos 2;
  max_tunnels_per_source = pos 2;
}

-- One packet from each of two sources, which fill the table.
abbrev two_heard : SourceFlood.GtpuSourceFloodDetector
two_heard =
    (SourceFlood.observe (SourceFlood.observe (SourceFlood.new_detector two_sources) source_a 1 0).0
      source_b 1 0).0

-- Two more packets of the first source, with one of the other in between.
abbrev storm : List Heard
storm = (source_a, 2, 1) ∷ (source_b, 7, 1) ∷ (source_a, 3, 2) ∷ []

abbrev one_packet : SourceWindow
one_packet = record { start = 0; packets = 1; teids = 1 ∷ []; last_fired = none }

tracked_storm-Emits_example : Emits (verdicts_on source_a two_heard storm)
unfolding find SourceFlood.observe sentinel5g.Prelude.Fifo.update sentinel5g.Prelude.Map.put
    SourceFlood.new_detector sentinel5g.Prelude.Fifo.empty sentinel5g.Prelude.Fifo.admit
    text_discrete sentinel5g.Detect.SourceFlood.Tracked.own
tracked_storm-Emits_example =
    tracked_storm-Emits source_a two_heard one_packet storm refl
      ((λ e. cc), ((λ e. cc), ((λ e. cc), tt))) refl (omega arith) (omega arith) (omega arith)
      (refl, (refl, tt))

-- Both windows of the table just after the first source was reported.
abbrev after_storm : SourceFlood.GtpuSourceFloodDetector
after_storm = (SourceFlood.observe (SourceFlood.observe two_heard source_a 2 1).0 source_a 3 2).0

abbrev reported : SourceWindow
reported = record { start = 0; packets = 3; teids = 1 ∷ 2 ∷ []; last_fired = some 2 }

abbrev later : List Heard
later = (source_a, 4, 12) ∷ (source_b, 7, 20) ∷ (source_a, 5, 31) ∷ []

tracked_cooldown-silent_example : ¬ Emits (verdicts_on source_a after_storm later)
unfolding find SourceFlood.observe sentinel5g.Prelude.Fifo.update sentinel5g.Prelude.Map.put
    SourceFlood.new_detector sentinel5g.Prelude.Fifo.empty sentinel5g.Prelude.Fifo.admit
    text_discrete sentinel5g.Detect.SourceFlood.Tracked.own
tracked_cooldown-silent_example =
    tracked_cooldown-silent source_a after_storm reported 2 later refl
      ((λ e. cc), ((λ e. cc), ((λ e. cc), tt))) refl (refl, (refl, tt))

abbrev sources : List (NormalizedEvent × ℕ)
sources = (packet source_a 1 9, 0) ∷ (packet source_b 2 9, 1) ∷ (packet (51 ∷ []) 3 9, 2) ∷ []

sources-le-capacity_example :
    (length
        (SourceMemory.observe_all hundredths
          (SourceFlood.new_detector two_sources)
          sources).table.entries
      ≤ 2)
    × ((source : Text) (w : SourceWindow)
        → find text_discrete source
            (SourceMemory.observe_all hundredths
              (SourceFlood.new_detector two_sources)
              sources).table.entries
          ≡ some w
        → IsTeidSet w.teids × (length w.teids ≤ 2))
unfolding or_default
sources-le-capacity_example = sources-le-capacity hundredths two_sources sources
