-- ===== src/Detect/TunnelFlood/Verdict.antt =====
-- What makes the per-tunnel detector (pkg/detect/gtpu_flood.go) fire, and what its score says.
use sentinel5g.Prelude.{
  ℕ, ◌≤◌, ◌<◌, ◌≡◌, ◌≢◌, ◌↔◌, ◌+◌, ◌⊎◌, inl, inr, true, none, some, arith, refl, sym, subst, codes,
  Option-cases,
}
use sentinel5g.Prelude.Int.{pos}
use sentinel5g.Prelude.Map.{find}
use sentinel5g.Events.{gtpu, NormalizedEvent, ThreatScoreEvent, Floats}
use sentinel5g.Detect.TunnelFlood.{
  GtpuFloodConfig, GtpuFloodDetector, TunnelId, claim, is_flood, tunnel_score, evaluate,
  tunnel_id_discrete,
}

-- What the configuration and the event must say.
pub record IsFlood (cfg : GtpuFloodConfig) (evt : NormalizedEvent) : Type 0 where
  pub enabled : cfg.enabled ≡ true
  pub threshold : 0 < cfg.packets_per_second
  pub tunnelled : evt.protocol ≡ gtpu
  pub identified : evt.teid ≢ 0
  pub fast : cfg.packets_per_second ≤ evt.tunnel_rate_per_second

is_flood_sound :
    (cfg : GtpuFloodConfig) (evt : NormalizedEvent) → is_flood cfg evt ≡ true → IsFlood cfg evt
unfolding is_flood
is_flood_sound cfg evt h = record {
  enabled = ground arith;
  threshold = ground arith;
  tunnelled = ground arith;
  identified = ground arith;
  fast = ground arith;
}

is_flood_complete :
    (cfg : GtpuFloodConfig) (evt : NormalizedEvent) → IsFlood cfg evt → is_flood cfg evt ≡ true
unfolding is_flood
is_flood_complete cfg evt h = ground (arith, h)

pub is_flood_iff :
    (cfg : GtpuFloodConfig) (evt : NormalizedEvent) → (is_flood cfg evt ≡ true) ↔ IsFlood cfg evt
is_flood_iff cfg evt = (is_flood_sound cfg evt, is_flood_complete cfg evt)

module _ {F : Type 0} (fl : Floats F) (d : GtpuFloodDetector) (evt : NormalizedEvent)
    (now : ℕ) where
  abbrev tunnel_of : TunnelId
  tunnel_of = record { source_ip = evt.source_ip; teid = evt.teid }

  -- The tunnel is not in the table, or the report that it was put in for, or last renewed, is at least
  -- a cooldown ago.
  abbrev pub IsDue : ℕ → Type 0
  IsDue cooldown =
      (find tunnel_id_discrete tunnel_of d.table.entries ≡ none)
      ⊎ ((last : ℕ) × (find tunnel_id_discrete tunnel_of d.table.entries ≡ some last)
          × (last + cooldown ≤ now))

  -- A score of 1.0 under the rule's model name, that names the event, its Pod, its source and its
  -- tunnel.
  abbrev pub IsReport : ThreatScoreEvent F → Type 0
  IsReport s =
      (s.source_event_id ≡ evt.event_id)
      × (s.namespace ≡ evt.namespace)
      × (s.pod_name ≡ evt.pod_name)
      × (s.source_ip ≡ evt.source_ip)
      × (s.teid ≡ evt.teid)
      × (s.score ≡ fl.one)
      × (s.model ≡ codes "rule:gtpu-tunnel-flood")
      × (s.detected_at ≡ now)

  claim_iff :
      (cooldown : ℕ)
      → d.cfg.cooldown ≡ pos cooldown
      → ((claim d tunnel_of now).1 ≡ true) ↔ IsDue cooldown
  unfolding claim
  claim_iff cooldown e = elim (Option-cases (find tunnel_id_discrete tunnel_of d.table.entries)) [
    | inl new ↦ (λ h. inl new, λ h. ground (arith, new))
    | inr (last, old) ↦ (
      λ h. inr (last, old, ground (arith, h, old, e)),
      λ h. elim h [
        | inl new ↦ absurd (cc (new, old))
        | inr (last', old', over) ↦
            let same : last' ≡ last = cc (old, old') in ground (arith, old, e, over, same)
      ],
    )
  ]

  pub evaluate-eq-tunnel_score :
      IsFlood d.cfg evt
      → (claim d tunnel_of now).1 ≡ true
      → (evaluate fl d evt now).1 ≡ some (tunnel_score fl evt now)
  unfolding evaluate
  evaluate-eq-tunnel_score flood ready = ground (arith, is_flood_complete d.cfg evt flood, ready)

  -- In a detector with a cooldown that is not negative, as every new one has: it fires exactly for a
  -- GTP-U packet with a tunnel identity whose tunnel's own rate is at or above a positive threshold,
  -- while it is enabled, if the tunnel is not in its table or was last reported a cooldown ago or more.
  -- The score then names that tunnel and source, at 1.0, under the rule's model name.
  pub evaluate-eq-some_iff :
      (cooldown : ℕ) (s : ThreatScoreEvent F)
      → d.cfg.cooldown ≡ pos cooldown
      → ((evaluate fl d evt now).1 ≡ some s) ↔ (IsFlood d.cfg evt × IsDue cooldown × IsReport s)
  unfolding evaluate tunnel_score
  evaluate-eq-some_iff cooldown s e =
      let due = claim_iff cooldown e in
      (
        λ h.
            let is : s ≡ tunnel_score fl evt now = ground (arith, h) in
            (
              is_flood_sound d.cfg evt (ground (arith, h)),
              due.0 (ground (arith, h)),
              subst IsReport (sym is) (refl, refl, refl, refl, refl, refl, refl, refl),
            ),
        λ (flood, ready, report).
            let (e0, e1, e2, e3, e4, e5, e6, e7) = report in
            let is : tunnel_score fl evt now ≡ s = cc (e0, e1, e2, e3, e4, e5, e6, e7) in
            ground (arith, is_flood_complete d.cfg evt flood, due.1 ready, is),
      )

  -- Any other event, one without a tunnel identity above all, is not reported and leaves the
  -- detector as it was: it takes no slot of the table and starts no cooldown.
  pub evaluate_inert : ¬ IsFlood d.cfg evt → evaluate fl d evt now ≡ (d, none)
  unfolding evaluate
  evaluate_inert h = ground (arith, h, is_flood_sound d.cfg evt)
