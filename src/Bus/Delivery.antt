-- ===== src/Bus/Delivery.antt =====
-- SubscribeThreatScores of pkg/events/nats.go: what its callback does with one message, with handle
-- of pkg/controller/threat_score_watcher.go as the handler.
use sentinel5g.Prelude.{
  ℕ, ◌≡◌, ◌⊎◌, inl, inr, refl, arith, ap, sym, ◌∙◌, Bool, true, false, Option, none, some, Text,
  if◌then◌else◌, Option-cases, subst,
}
use sentinel5g.Events.{ThreatScoreEvent}
use sentinel5g.Controller.Watcher.{World, Inputs, Deps}
use sentinel5g.Controller.Watcher.Apply.{counted}
use sentinel5g.Controller.Watcher.Handle.{PodLabels, found, not_found, failed, received, handle}

-- Term, Nak and Ack.
pub data Disposition : Type 0 where
  term nak ack : Disposition

abbrev pub max_threat_score_deliveries : ℕ
max_threat_score_deliveries = 5

-- The callback: a payload that does not decode never reaches the handler.
unfoldable pub deliver :
    {S E : Type 0} → (Text → Option E) → (E → S → S × Bool) → Text → S → S × Disposition
deliver decode handler payload s = elim (decode payload) [
  | none ↦ (s, term)
  | some event ↦ let (s', done) = handler event s in (s', if done then ack else nak)
]

-- A message as the watcher meets it.
unfoldable pub on_message :
    {F K M L : Type 0}
    → Deps F K M L
    → (Text → Option (ThreatScoreEvent F))
    → (ℕ → Inputs)
    → ℕ
    → PodLabels
    → Text
    → World K M L
    → World K M L × Disposition
on_message deps decode inputs now pod payload w =
    deliver decode (λ event v. handle deps inputs now pod event v) payload w

-- All but the tracker and the counters.
abbrev pub SameEffects : {K M L : Type 0} → World K M L → World K M L → Type 0
SameEffects w w' =
    (w'.kernel ≡ w.kernel)
    × (w'.mesh ≡ w.mesh)
    × (w'.statuses ≡ w.statuses)
    × (w'.index ≡ w.index)
    × (w'.limiters ≡ w.limiters)
    × (w'.kill_switch ≡ w.kill_switch)

nak≢ack : nak ≡ ack → ⊥
nak≢ack e = cc

module _ {F K M L : Type 0} (deps : Deps F K M L) where
  -- What handle has done when it fails.
  handle_failed :
      (inputs : ℕ → Inputs) (now : ℕ) (pod : PodLabels) (event : ThreatScoreEvent F)
      (w : World K M L)
      → ((handle deps inputs now pod event w).1 ≡ true)
        ⊎ (SameEffects w (handle deps inputs now pod event w).0)
  unfolding handle received counted
  handle_failed inputs now not_found event w = inl refl
  handle_failed inputs now failed event w = inr (refl, refl, refl, refl, refl, refl)
  handle_failed inputs now (found labels) event w = inl refl

  on_message-cases :
      (decode : Text → Option (ThreatScoreEvent F)) (inputs : ℕ → Inputs) (now : ℕ)
      (pod : PodLabels) (payload : Text) (w : World K M L)
      → ((decode payload ≡ none) × (on_message deps decode inputs now pod payload w ≡ (w, term)))
        ⊎ ((event : ThreatScoreEvent F) × (decode payload ≡ some event)
            × (on_message deps decode inputs now pod payload w ≡ (
              (handle deps inputs now pod event w).0,
              if (handle deps inputs now pod event w).1 then ack else nak,
            )))
  unfolding on_message deliver
  on_message-cases decode inputs now pod payload w = elim (Option-cases (decode payload)) [
    | inl e ↦ inl (e, ground (arith, e))
    | inr (event, e) ↦ inr (event, e, ground (arith, e))
  ]

  -- A message that is not acknowledged, be it for good or to be delivered again, has changed nothing
  -- in the kernel, the mesh, the statuses, the index, the limiter or the kill switch.
  pub unacknowledged-SameEffects :
      (decode : Text → Option (ThreatScoreEvent F)) (inputs : ℕ → Inputs) (now : ℕ)
      (pod : PodLabels) (payload : Text) (w : World K M L)
      → ((on_message deps decode inputs now pod payload w).1 ≡ ack)
        ⊎ SameEffects w (on_message deps decode inputs now pod payload w).0
  unacknowledged-SameEffects decode inputs now pod payload w =
      elim (on_message-cases decode inputs now pod payload w) [
        | inl (_, e) ↦ inr (moved w e (refl, refl, refl, refl, refl, refl))
        | inr (event, _, e) ↦ elim (handle_failed inputs now pod event w) [
          | inl done ↦ inl (ap (λ (p : World K M L × Disposition). p.1) e ∙ acked _ done)
          | inr same ↦ inr (moved (handle deps inputs now pod event w).0 e same)
        ]
      ]
    where
      acked : (b : Bool) → b ≡ true → (if b then ack else nak) ≡ ack
      acked true h = refl
      acked false h = absurd (cc)

      moved :
          (v : World K M L) {d : Disposition}
          → on_message deps decode inputs now pod payload w ≡ (v, d)
          → SameEffects w v
          → SameEffects w (on_message deps decode inputs now pod payload w).0
      moved v e same = subst (λ (p : World K M L × Disposition). SameEffects w p.0) (sym e) same
