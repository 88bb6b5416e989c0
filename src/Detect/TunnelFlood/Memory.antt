-- ===== src/Detect/TunnelFlood/Memory.antt =====
-- Bounded memory of the per-tunnel detector (pkg/detect/gtpu_flood.go): attacker-chosen tunnel
-- identifiers never grow the table past its capacity.
use sentinel5g.Prelude.{
  ℕ, ◌≤◌, ◌≡◌, refl, arith, length, Option-cases, inl, inr, Bool-cases, length-set,
  length-replicate, ◌∙◌, List, [], ◌∷◌,
}
use sentinel5g.Prelude.Int.{sub_ℕ, ltb_ℤ}
use sentinel5g.Prelude.Map.{find}
use sentinel5g.Prelude.Fifo.{
  IsFifo, empty, empty-IsFifo, admit-IsFifo, update-IsFifo, admit, update,
}
use sentinel5g.Events.{NormalizedEvent, Floats}
use sentinel5g.Detect.TunnelFlood.{
  GtpuFloodConfig, GtpuFloodDetector, TunnelId, tunnel_id_discrete, zero_tunnel, or_default,
  default_tracked_tunnels, new_detector, claim, evaluate,
}

-- The ring is an index of the table, and the table fits its capacity.
abbrev pub IsValid : GtpuFloodDetector → Type 0
IsValid d = IsFifo tunnel_id_discrete d.table

pub new_detector-IsValid : (cfg : GtpuFloodConfig) → IsValid (new_detector cfg)
unfolding new_detector
new_detector-IsValid cfg = empty-IsFifo tunnel_id_discrete zero_tunnel _ (ground arith)

pub claim-IsValid :
    (d : GtpuFloodDetector) (id : TunnelId) (now : ℕ) → IsValid d → IsValid (claim d id now).0
unfolding claim
claim-IsValid d id now v = elim (Option-cases (find tunnel_id_discrete id d.table.entries)) [
  | inl new ↦ rw (new, claim) (admit-IsFifo tunnel_id_discrete zero_tunnel id now d.table v new)
  | inr (last, old) ↦
      rw (old, claim)
        (elim (Bool-cases (ltb_ℤ (sub_ℕ now last) d.cfg.cooldown)) [
          | inl soon ↦ rw soon v
          | inr late ↦
              rw late
                (update-IsFifo tunnel_id_discrete id now d.table v (λ e. ground (arith, old, e)))
        ])
]

-- Neither the settings nor the ring's size changes.
pub claim-fixed :
    (d : GtpuFloodDetector) (id : TunnelId) (now : ℕ)
    → ((claim d id now).0.cfg ≡ d.cfg)
      × (length (claim d id now).0.table.order ≡ length d.table.order)
unfolding claim admit update
claim-fixed d id now = ground (arith, length-set d.table.order d.table.next id)

module _ {F : Type 0} (fl : Floats F) where
  -- A detector through a sequence of events, each with the time at which it is evaluated.
  unfoldable pub observe_all : GtpuFloodDetector → List (NormalizedEvent × ℕ) → GtpuFloodDetector
  observe_all d [] = d
  observe_all d ((evt, now) ∷ evts) = observe_all (evaluate fl d evt now).0 evts

  evaluate-keeps :
      (d : GtpuFloodDetector) (evt : NormalizedEvent) (now : ℕ)
      → IsValid d
      → IsValid (evaluate fl d evt now).0
        × (length (evaluate fl d evt now).0.table.order ≡ length d.table.order)
  unfolding evaluate
  evaluate-keeps d evt now v =
      let id : TunnelId = record { source_ip = evt.source_ip; teid = evt.teid } in
      ground (arith, v, claim-IsValid d id now v, claim-fixed d id now)

  observe_all-keeps :
      (d : GtpuFloodDetector) (evts : List (NormalizedEvent × ℕ))
      → IsValid d
      → IsValid (observe_all d evts)
        × (length (observe_all d evts).table.order ≡ length d.table.order)
  unfolding observe_all
  observe_all-keeps d [] v = (v, refl)
  observe_all-keeps d ((evt, now) ∷ evts) v =
      let step = evaluate-keeps d evt now v in
      let rest = observe_all-keeps (evaluate fl d evt now).0 evts step.0 in
      (rest.0, rest.1 ∙ step.1)

  -- Whatever events a new detector is given, it tracks at most as many tunnels as its setting
  -- says (4096 where the setting is not positive), its ring holding each of them exactly once.
  pub tracked-le-capacity :
      (cfg : GtpuFloodConfig) (evts : List (NormalizedEvent × ℕ))
      → (length (observe_all (new_detector cfg) evts).table.entries
          ≤ or_default cfg.max_tracked_tunnels default_tracked_tunnels)
        × IsValid (observe_all (new_detector cfg) evts)
  tracked-le-capacity cfg evts =
      let all = observe_all-keeps (new_detector cfg) evts (new_detector-IsValid cfg) in
      (omega (arith, all.0.bounded, all.1, length-new_detector cfg), all.0)
    where
      length-new_detector :
          (cfg : GtpuFloodConfig)
          → length (new_detector cfg).table.order
            ≡ or_default cfg.max_tracked_tunnels default_tracked_tunnels
      length-new_detector cfg = unfold new_detector empty in length-replicate _ zero_tunnel
