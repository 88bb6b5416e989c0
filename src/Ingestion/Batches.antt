-- ===== src/Ingestion/Batches.antt =====
-- What batching keeps (pkg/ingestion/publisher.go): every event, its order, the bound of a batch, and
-- what the detectors say.
use sentinel5g.Prelude.{
  ℕ, ◌+◌, ◌≤◌, ◌<◌, ◌≡◌, ◌⊎◌, inl, inr, refl, arith, ap, sym, ◌∙◌, Bool, true, false, List, [], ◌∷◌,
  ◌++◌, Option, none, some, if◌then◌else◌, leb, length, length-append, append_nil, append_assoc,
  Bool-cases, subst,
}
use sentinel5g.Events.{NormalizedEvent, Floats}
use sentinel5g.Detect.TunnelFlood.{GtpuFloodDetector}
use sentinel5g.Detect.SourceFlood.{GtpuSourceFloodDetector}
use sentinel5g.Detect.TunnelFlood
use sentinel5g.Detect.SourceFlood
use sentinel5g.Controller.Tunnels.{Addresses}
use sentinel5g.Ingestion.Publisher.{
  Message, Settings, Publisher, Arrival, Input, arrives, tick, closed, cancelled, batch_cap,
  batch_message, flush, evaluate_tunnel_flood, evaluate_source_flood, publish_event, handle_event,
  normalized, turn, run,
}
use sentinel5g.Ingestion.Messages.{
  events_of, Within, events_of-append, Within-append, score_message-quiet, batch_message-all,
}

batch_cap-positive : (cfg : Settings) → 1 ≤ batch_cap cfg
unfolding batch_cap
batch_cap-positive cfg = ground arith

-- The buffer has room for one more event.
abbrev pub IsBuffered : Settings → Publisher → Type 0
IsBuffered cfg p = length p.batch < batch_cap cfg

-- A step that loses no event: those of the messages, then those of the buffer after it, are those of
-- the buffer before it, then the given ones.
abbrev pub Keeps :
    {F : Type 0}
    → Settings
    → List NormalizedEvent
    → Publisher
    → Publisher × List (Message F)
    → Type 0
Keeps cfg es p (p', sent) =
    (events_of sent ++ p'.batch ≡ p.batch ++ es) × IsBuffered cfg p' × Within (batch_cap cfg) sent

-- The bus is connected whenever the loop asks.
abbrev pub AllConnected : List Input → Type 0
AllConnected [] = Unit {0}
AllConnected (arrives a ∷ is) =
    (a.connected ≡ true) × (a.connected_at_flush ≡ true) × AllConnected is
AllConnected (tick c ∷ is) = (c ≡ true) × AllConnected is
AllConnected (closed c ∷ is) = c ≡ true
AllConnected (cancelled c ∷ is) = c ≡ true

pub if_true : {A : Type 0} (b : Bool) (x y : A) → b ≡ true → (if b then x else y) ≡ x
if_true true x y h = refl
if_true false x y h = absurd (cc)

abbrev longer : NormalizedEvent → Publisher → Publisher
longer evt p = record p { batch = p.batch ++ evt ∷ [] }

module _ {F : Type 0} (fl : Floats F) where
  flush-Keeps :
      (cfg : Settings) (p : Publisher)
      → length p.batch ≤ batch_cap cfg
      → Keeps cfg [] p (flush {F = F} true p)
  unfolding flush
  flush-Keeps cfg p h =
      let (all, within) = batch_message-all F p.batch (batch_cap cfg) h in
      (
        append_nil (events_of (batch_message {F = F} p.batch)) ∙ all ∙ sym (append_nil p.batch),
        batch_cap-positive cfg,
        within,
      )

  publish_event-Keeps :
      (cfg : Settings) (evt : NormalizedEvent) (p : Publisher)
      → IsBuffered cfg p
      → Keeps cfg (evt ∷ []) p (publish_event fl cfg true evt p)
  unfolding publish_event events_of
  publish_event-Keeps cfg evt p h =
      cases (Bool-cases (leb (batch_cap cfg) 1))
        (Bool-cases (leb (batch_cap cfg) (length (longer evt p).batch)))
    where
      grown : length (longer evt p).batch ≡ length p.batch + 1
      grown = length-append p.batch (evt ∷ [])

      empty : (es : List NormalizedEvent) → length es < 1 → evt ∷ es ≡ es ++ evt ∷ []
      empty [] k = refl
      empty (e ∷ es) k = absurd (omega arith)

      move :
          (q : Publisher × List (Message F))
          → Keeps cfg [] (longer evt p) q
          → Keeps cfg (evt ∷ []) p q
      move q (a, b, c) = (a ∙ append_nil (longer evt p).batch, b, c)

      cases :
          (leb (batch_cap cfg) 1 ≡ true) ⊎ (leb (batch_cap cfg) 1 ≡ false)
          → (leb (batch_cap cfg) (length (longer evt p).batch) ≡ true)
            ⊎ (leb (batch_cap cfg) (length (longer evt p).batch) ≡ false)
          → Keeps cfg (evt ∷ []) p (publish_event fl cfg true evt p)
      cases (inl one) _ = rw one (empty p.batch (ground (arith, one, h)), h, tt)
      cases (inr many) (inl full) =
          rw (many, full)
            (move (flush {F = F} true (longer evt p))
              (flush-Keeps cfg (longer evt p) (omega (arith, grown, h))))
      cases (inr many) (inr room) = rw (many, room) (refl, ground (arith, room), tt)

  evaluate_tunnel_flood-quiet :
      (evt : NormalizedEvent) (now n : ℕ) (o : Option GtpuFloodDetector)
      → (events_of (evaluate_tunnel_flood fl evt now o).1 ≡ [])
        × Within n (evaluate_tunnel_flood fl evt now o).1
  unfolding evaluate_tunnel_flood events_of
  evaluate_tunnel_flood-quiet evt now n none = (refl, tt)
  evaluate_tunnel_flood-quiet evt now n (some d) =
      score_message-quiet (TunnelFlood.evaluate fl d evt now).1 n

  evaluate_source_flood-quiet :
      (evt : NormalizedEvent) (now n : ℕ) (o : Option GtpuSourceFloodDetector)
      → (events_of (evaluate_source_flood fl evt now o).1 ≡ [])
        × Within n (evaluate_source_flood fl evt now o).1
  unfolding evaluate_source_flood events_of
  evaluate_source_flood-quiet evt now n none = (refl, tt)
  evaluate_source_flood-quiet evt now n (some d) =
      score_message-quiet (SourceFlood.evaluate fl d evt now).1 n

  handle_event-Keeps :
      (cfg : Settings) (evt : NormalizedEvent) (now : ℕ) (p : Publisher)
      → IsBuffered cfg p
      → Keeps cfg (evt ∷ []) p (handle_event fl cfg true evt now p)
  unfolding handle_event
  handle_event-Keeps cfg evt now p h =
      let (tunnel, fired) = evaluate_tunnel_flood fl evt now p.tunnel_flood in
      let (source, fired') = evaluate_source_flood fl evt now p.source_flood in
      let (q, within) = evaluate_tunnel_flood-quiet evt now (batch_cap cfg) p.tunnel_flood in
      let (q', within') = evaluate_source_flood-quiet evt now (batch_cap cfg) p.source_flood in
      let (p', sent) =
        publish_event fl cfg true evt (record p { tunnel_flood = tunnel; source_flood = source }) in
      let (a, b, c) =
        publish_event-Keeps cfg evt (record p { tunnel_flood = tunnel; source_flood = source }) h in
      let e : events_of (fired ++ (fired' ++ sent)) ≡ events_of sent =
        events_of-append fired (fired' ++ sent)
        ∙ ap (λ l. l ++ events_of (fired' ++ sent)) q
        ∙ events_of-append fired' sent
        ∙ ap (λ l. l ++ events_of sent) q' in
      (
        ap (λ l. l ++ p'.batch) e ∙ a,
        b,
        Within-append (batch_cap cfg) fired (fired' ++ sent) within
            (Within-append (batch_cap cfg) fired' sent within' c),
      )

  module _ (net : Addresses) (cfg : Settings) where
    -- The events of the records up to the end, one for each.
    unfoldable pub arrived : List Input → List NormalizedEvent
    arrived [] = []
    arrived (arrives a ∷ is) = normalized fl net cfg a ∷ arrived is
    arrived (tick c ∷ is) = arrived is
    arrived (closed c ∷ is) = []
    arrived (cancelled c ∷ is) = []

    Keeps-then :
        (es es' : List NormalizedEvent) (p : Publisher) (q : Publisher × List (Message F))
        (r : Publisher × List (Message F))
        → Keeps cfg es p q
        → Keeps cfg es' q.0 r
        → Keeps cfg (es ++ es') p (r.0, q.1 ++ r.1)
    Keeps-then es es' p (p', sent) (p'', later) (a, b, c) (a', b', c') = (
      ap (λ l. l ++ p''.batch) (events_of-append sent later)
          ∙ append_assoc (events_of sent) (events_of later) p''.batch
          ∙ ap (λ l. events_of sent ++ l) a'
          ∙ sym (append_assoc (events_of sent) p'.batch es')
          ∙ ap (λ l. l ++ es') a
          ∙ append_assoc p.batch es es',
      b',
      Within-append (batch_cap cfg) sent later c c',
    )

    turn_connected :
        (a : Arrival) (p : Publisher)
        → a.connected ≡ true
        → turn fl net cfg (arrives a) p ≡ (
          (handle_event fl cfg a.connected_at_flush (normalized fl net cfg a) a.now p).0,
          (handle_event fl cfg a.connected_at_flush (normalized fl net cfg a) a.now p).1,
          true,
        )
    unfolding turn
    turn_connected a p on = if_true a.connected _ _ on

    run_more :
        (i : Input) (is : List Input) (p : Publisher) (q : Publisher × List (Message F))
        → turn fl net cfg i p ≡ (q.0, q.1, true)
        → run fl net cfg (i ∷ is) p ≡ ((run fl net cfg is q.0).0, q.1 ++ (run fl net cfg is q.0).1)
    unfolding run
    run_more i is p q e = rw e refl

    run-Keeps :
        (is : List Input) (p : Publisher)
        → IsBuffered cfg p
        → AllConnected is
        → Keeps cfg (arrived is) p (run fl net cfg is p)
    unfolding run turn arrived events_of
    run-Keeps [] p h c = (sym (append_nil p.batch), h, tt)
    run-Keeps (arrives a ∷ is) p h (on, still, c) =
        let e = normalized fl net cfg a in
        let here =
          subst (λ b. Keeps cfg (e ∷ []) p (handle_event fl cfg b e a.now p)) (sym still)
            (handle_event-Keeps cfg e a.now p h) in
        subst (Keeps cfg (arrived (arrives a ∷ is)) p)
          (sym (
            run_more (arrives a) is p (handle_event fl cfg a.connected_at_flush e a.now p)
              (turn_connected a p on)))
          (Keeps-then (e ∷ []) (arrived is) p (handle_event fl cfg a.connected_at_flush e a.now p)
            (run fl net cfg is (handle_event fl cfg a.connected_at_flush e a.now p).0) here
            (run-Keeps is (handle_event fl cfg a.connected_at_flush e a.now p).0 here.1 c))
    run-Keeps (tick b ∷ is) p h (on, c) =
        let here =
          subst (λ b. Keeps cfg [] p (flush {F = F} b p)) (sym on)
            (flush-Keeps cfg p (omega (arith, h))) in
        Keeps-then [] (arrived is) p (flush {F = F} b p) (run fl net cfg is (flush {F = F} b p).0)
          here (run-Keeps is (flush {F = F} b p).0 here.1 c)
    run-Keeps (closed b ∷ is) p h on =
        subst (λ b. Keeps cfg [] p (flush {F = F} b p)) (sym on)
          (flush-Keeps cfg p (omega (arith, h)))
    run-Keeps (cancelled b ∷ is) p h on =
        subst (λ b. Keeps cfg [] p (flush {F = F} b p)) (sym on)
          (flush-Keeps cfg p (omega (arith, h)))

    -- From an empty buffer, on a bus that stays connected, the events of the messages followed by
    -- those in the buffer are the events of all the records that came up to the end, in their
    -- order; the buffer is below the bound, and no batch is empty or above it.
    pub run_keeps_events :
        (is : List Input) (p : Publisher)
        → p.batch ≡ []
        → AllConnected is
        → (events_of (run fl net cfg is p).1 ++ (run fl net cfg is p).0.batch ≡ arrived is)
          × IsBuffered cfg (run fl net cfg is p).0
          × Within (batch_cap cfg) (run fl net cfg is p).1
    run_keeps_events is p empty connected =
        let room : IsBuffered cfg p = ground (arith, empty, batch_cap-positive cfg) in
        let (a, b, c) = run-Keeps is p room connected in (a ∙ ap (λ l. l ++ arrived is) empty, b, c)
