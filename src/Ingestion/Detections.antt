-- ===== src/Ingestion/Detections.antt =====
-- The detectors in the loop of pkg/ingestion/publisher.go: batching and flushes have no part in what
-- they report.
use sentinel5g.Prelude.{
  ℕ, ◌≡◌, ◌⊎◌, inl, inr, refl, ap, ◌∙◌, Bool, true, false, List, [], ◌∷◌, ◌++◌, Option, none, some,
  if◌then◌else◌, leb, length, append_nil, append_assoc, Bool-cases,
}
use sentinel5g.Events.{NormalizedEvent, ThreatScoreEvent, Floats}
use sentinel5g.Detect.TunnelFlood.{GtpuFloodDetector}
use sentinel5g.Detect.SourceFlood.{GtpuSourceFloodDetector}
use sentinel5g.Detect.TunnelFlood
use sentinel5g.Detect.SourceFlood
use sentinel5g.Controller.Tunnels.{Addresses}
use sentinel5g.Ingestion.Publisher.{
  Message, Settings, Publisher, Input, arrives, tick, closed, cancelled, batch_cap, batch_message,
  flush, evaluate_tunnel_flood, evaluate_source_flood, publish_event, handle_event, normalized,
  score_message, turn, run,
}
use sentinel5g.Ingestion.Messages.{scores_of, scores_of-append}

if_both :
    {A : Type 0} (b : Bool) (x x' y y' : A)
    → x ≡ x'
    → y ≡ y'
    → (if b then x else y) ≡ (if b then x' else y')
if_both true x x' y y' e f = e
if_both false x x' y y' e f = f

-- What a detector that may be missing makes of an event, and the score it reports, if any.
abbrev pub reports : {F : Type 0} → Option (ThreatScoreEvent F) → List (ThreatScoreEvent F)
reports none = []
reports (some s) = s ∷ []

module _ {F : Type 0} (fl : Floats F) where
  unfoldable pub tunnel_step :
      NormalizedEvent
      → ℕ
      → Option GtpuFloodDetector
      → Option GtpuFloodDetector × List (ThreatScoreEvent F)
  tunnel_step evt now none = (none, [])
  tunnel_step evt now (some d) =
      let (d', fired) = TunnelFlood.evaluate fl d evt now in (some d', reports fired)

  unfoldable pub source_step :
      NormalizedEvent
      → ℕ
      → Option GtpuSourceFloodDetector
      → Option GtpuSourceFloodDetector × List (ThreatScoreEvent F)
  source_step evt now none = (none, [])
  source_step evt now (some d) =
      let (d', fired, observed) = SourceFlood.evaluate fl d evt now in (some d', reports fired)

  score_message-reports :
      (o : Option (ThreatScoreEvent F)) → scores_of (score_message o) ≡ reports o
  unfolding scores_of score_message
  score_message-reports none = refl
  score_message-reports (some s) = refl

  tunnel_step-eq :
      (evt : NormalizedEvent) (now : ℕ) (d : Option GtpuFloodDetector)
      → ((evaluate_tunnel_flood fl evt now d).0 ≡ (tunnel_step evt now d).0)
        × (scores_of (evaluate_tunnel_flood fl evt now d).1 ≡ (tunnel_step evt now d).1)
  unfolding evaluate_tunnel_flood tunnel_step
  tunnel_step-eq evt now none = unfold scores_of in (refl, refl)
  tunnel_step-eq evt now (some d) =
      (refl, score_message-reports (TunnelFlood.evaluate fl d evt now).1)

  source_step-eq :
      (evt : NormalizedEvent) (now : ℕ) (d : Option GtpuSourceFloodDetector)
      → ((evaluate_source_flood fl evt now d).0 ≡ (source_step evt now d).0)
        × (scores_of (evaluate_source_flood fl evt now d).1 ≡ (source_step evt now d).1)
  unfolding evaluate_source_flood source_step
  source_step-eq evt now none = unfold scores_of in (refl, refl)
  source_step-eq evt now (some d) =
      (refl, score_message-reports (SourceFlood.evaluate fl d evt now).1)

  batch_message-silent :
      (c : Bool) (es : List NormalizedEvent)
      → scores_of {F = F} (if c then batch_message es else []) ≡ []
  unfolding scores_of batch_message
  batch_message-silent false es = refl
  batch_message-silent true [] = refl
  batch_message-silent true (e ∷ es) = refl

  publish_event-silent :
      (cfg : Settings) (c : Bool) (evt : NormalizedEvent) (p : Publisher)
      → ((publish_event fl cfg c evt p).0.tunnel_flood ≡ p.tunnel_flood)
        × ((publish_event fl cfg c evt p).0.source_flood ≡ p.source_flood)
        × (scores_of (publish_event fl cfg c evt p).1 ≡ [])
  unfolding publish_event flush scores_of
  publish_event-silent cfg c evt p =
      cases (Bool-cases (leb (batch_cap cfg) 1))
        (Bool-cases (leb (batch_cap cfg) (length (p.batch ++ evt ∷ []))))
    where
      cases :
          (leb (batch_cap cfg) 1 ≡ true) ⊎ (leb (batch_cap cfg) 1 ≡ false)
          → (leb (batch_cap cfg) (length (p.batch ++ evt ∷ [])) ≡ true)
            ⊎ (leb (batch_cap cfg) (length (p.batch ++ evt ∷ [])) ≡ false)
          → ((publish_event fl cfg c evt p).0.tunnel_flood ≡ p.tunnel_flood)
            × ((publish_event fl cfg c evt p).0.source_flood ≡ p.source_flood)
            × (scores_of (publish_event fl cfg c evt p).1 ≡ [])
      cases (inl one) _ = rw one (refl, refl, refl)
      cases (inr many) (inl full) =
          rw (many, full) (refl, refl, batch_message-silent c (p.batch ++ evt ∷ []))
      cases (inr many) (inr room) = rw (many, room) (refl, refl, refl)

  flush-silent : (c : Bool) (p : Publisher) → scores_of (flush {F = F} c p).1 ≡ []
  unfolding flush
  flush-silent c p = batch_message-silent c p.batch

  ap2_append : {x x' y y' : List (ThreatScoreEvent F)} → x ≡ x' → y ≡ y' → (x ++ y) ≡ (x' ++ y')
  ap2_append e f = cc (e, f)

  handle_event-scores :
      (cfg : Settings) (c : Bool) (evt : NormalizedEvent) (now : ℕ) (p : Publisher)
      → scores_of (handle_event fl cfg c evt now p).1
        ≡ (tunnel_step evt now p.tunnel_flood).1 ++ (source_step evt now p.source_flood).1
  unfolding handle_event
  handle_event-scores cfg c evt now p =
      let (tunnel, fired) = evaluate_tunnel_flood fl evt now p.tunnel_flood in
      let (source, fired') = evaluate_source_flood fl evt now p.source_flood in
      let q = record p { tunnel_flood = tunnel; source_flood = source } in
      let sent = (publish_event fl cfg c evt q).1 in
      scores_of-append fired (fired' ++ sent)
      ∙ ap (λ l. scores_of fired ++ l)
          (scores_of-append fired' sent
            ∙ ap (λ l. scores_of fired' ++ l) (publish_event-silent cfg c evt q).2
            ∙ append_nil (scores_of fired'))
      ∙ ap2_append (tunnel_step-eq evt now p.tunnel_flood).1
          (source_step-eq evt now p.source_flood).1

  handle_event-detectors :
      (cfg : Settings) (c : Bool) (evt : NormalizedEvent) (now : ℕ) (p : Publisher)
      → ((handle_event fl cfg c evt now p).0.tunnel_flood ≡ (tunnel_step evt now p.tunnel_flood).0)
        × ((handle_event fl cfg c evt now p).0.source_flood
            ≡ (source_step evt now p.source_flood).0)
  unfolding handle_event
  handle_event-detectors cfg c evt now p =
      let (tunnel, fired) = evaluate_tunnel_flood fl evt now p.tunnel_flood in
      let (source, fired') = evaluate_source_flood fl evt now p.source_flood in
      let (a, b, _) =
        publish_event-silent cfg c evt
          (record p { tunnel_flood = tunnel; source_flood = source }) in
      (a ∙ (tunnel_step-eq evt now p.tunnel_flood).0, b ∙ (source_step-eq evt now p.source_flood).0)

  -- The turns after one.
  abbrev after :
      Publisher × List (Message F) × Bool
      → (Publisher → Publisher × List (Message F))
      → Publisher × List (Message F)
  after t rest = if t.2 then ((rest t.0).0, t.1 ++ (rest t.0).1) else (t.0, t.1)

  turn_if :
      (b : Bool) (p : Publisher) (q : Publisher × List (Message F))
      (rest : Publisher → Publisher × List (Message F))
      → scores_of (after (if b then (q.0, q.1, true) else (p, [], true)) rest).1
        ≡ (if b then scores_of (q.1 ++ (rest q.0).1) else scores_of (rest p).1)
  turn_if true p q rest = refl
  turn_if false p q rest = refl

  module _ (net : Addresses) (cfg : Settings) where
    -- What the detectors alone report on the records of the loop's inputs: on each, first the one of
    -- tunnels and then the one of sources.
    unfoldable pub detected :
        List Input
        → Option GtpuFloodDetector
        → Option GtpuSourceFloodDetector
        → List (ThreatScoreEvent F)
    detected [] tunnel source = []
    detected (arrives a ∷ is) tunnel source =
        let evt = normalized fl net cfg a in
        let (tunnel', fired) = tunnel_step evt a.now tunnel in
        let (source', fired') = source_step evt a.now source in
        let unseen = detected is tunnel source in
        let rest = detected is tunnel' source' in
        if a.connected then fired ++ (fired' ++ rest) else unseen
    detected (tick c ∷ is) tunnel source = detected is tunnel source
    detected (closed c ∷ is) tunnel source = []
    detected (cancelled c ∷ is) tunnel source = []

    flushed :
        (c : Bool) (p : Publisher) (is : List Input)
        → detected is (flush {F = F} c p).0.tunnel_flood (flush {F = F} c p).0.source_flood
          ≡ detected is p.tunnel_flood p.source_flood
    unfolding flush
    flushed c p is = refl

    -- Whatever the batch size, the flushes and the state of the bus at them, and whatever is in the
    -- buffer: the scores that the loop publishes are, in their order, what the two detectors alone
    -- report on the records that come while the bus is connected.
    pub scores_of-run :
        (is : List Input) (p : Publisher)
        → scores_of (run fl net cfg is p).1 ≡ detected is p.tunnel_flood p.source_flood
    unfolding run turn detected scores_of
    scores_of-run [] p = refl
    scores_of-run (tick c ∷ is) p =
        let q = flush {F = F} c p in
        scores_of-append q.1 (run fl net cfg is q.0).1
        ∙ ap (λ l. l ++ scores_of (run fl net cfg is q.0).1) (flush-silent c p)
        ∙ scores_of-run is q.0
        ∙ flushed c p is
    scores_of-run (closed c ∷ is) p = flush-silent c p
    scores_of-run (cancelled c ∷ is) p = flush-silent c p
    scores_of-run (arrives a ∷ is) p =
        let evt = normalized fl net cfg a in
        let q = handle_event fl cfg a.connected_at_flush evt a.now p in
        let tunnel = tunnel_step evt a.now p.tunnel_flood in
        let source = source_step evt a.now p.source_flood in
        let (e, f) = handle_event-detectors cfg a.connected_at_flush evt a.now p in
        let later : scores_of (run fl net cfg is q.0).1 ≡ detected is tunnel.0 source.0 =
          scores_of-run is q.0
          ∙ ap (λ t. detected is t q.0.source_flood) e
          ∙ ap (detected is tunnel.0) f in
        turn_if a.connected p q (run fl net cfg is)
        ∙ if_both a.connected _ (tunnel.1 ++ (source.1 ++ detected is tunnel.0 source.0)) _
            (detected is p.tunnel_flood p.source_flood)
            (scores_of-append q.1 (run fl net cfg is q.0).1
              ∙ ap (λ l. l ++ scores_of (run fl net cfg is q.0).1)
                  (handle_event-scores cfg a.connected_at_flush evt a.now p)
              ∙ append_assoc tunnel.1 source.1 (scores_of (run fl net cfg is q.0).1)
              ∙ ap (λ l. tunnel.1 ++ (source.1 ++ l)) later)
            (scores_of-run is p)
