-- ===== src/Capture/Inert.antt =====
-- Events of pkg/hubble and pkg/falco name no tunnel: what the detectors of pkg/detect make of them.
use sentinel5g.Prelude.{
  ℕ, ◌≡◌, ◌≢◌, ◌⊎◌, ◌↔◌, inl, inr, refl, arith, ap, sym, Bool, true, false, [], Option, none, some,
  Text, text_discrete, if◌then◌else◌, Option-cases, subst,
}
use sentinel5g.Events.{NormalizedEvent, Floats}
use sentinel5g.Detect.TunnelFlood.{GtpuFloodDetector, is_flood}
use sentinel5g.Detect.SourceFlood.{GtpuSourceFloodDetector, is_tunnelled, SourceFloodObservation}
use sentinel5g.Detect.TunnelFlood
use sentinel5g.Detect.SourceFlood
use sentinel5g.Capture.Flow.{Flow, flow_event, from_flow}
use sentinel5g.Capture.Alert.{
  Alert, Ports, Reply, ok, unauthorized, bad_request, internal_server_error, Request, from_alert,
  serve, handle_request,
}

-- Neither detector reports the event, and neither changes.
abbrev pub IsInert : {F : Type 0} → Floats F → NormalizedEvent → Type 0
IsInert fl evt =
    ((d : GtpuFloodDetector) (now : ℕ) → TunnelFlood.evaluate fl d evt now ≡ (d, none))
    × ((d : GtpuSourceFloodDetector) (now : ℕ)
        → ((SourceFlood.evaluate fl d evt now).0 ≡ d)
          × ((SourceFlood.evaluate fl d evt now).1 ≡ none))

no_tunnel-IsInert :
    {F : Type 0} (fl : Floats F) (evt : NormalizedEvent) → evt.teid ≡ 0 → IsInert fl evt
unfolding TunnelFlood.evaluate is_flood SourceFlood.evaluate is_tunnelled
no_tunnel-IsInert fl evt h =
    (λ d now. ground (arith, h), λ d now. (ground (arith, h), ground (arith, h)))

-- No flow of Hubble and no alert of Falco makes an event that a detector reports, or that changes a
-- detector: neither names a tunnel.
pub captured-IsInert :
    {F N : Type 0} (fl : Floats F) (ports : Ports N) (now : ℕ) (event_id node_name : Text)
    (f : Flow) (alert : Alert N) (evt : NormalizedEvent)
    → (from_flow now event_id f ≡ some evt) ⊎ (from_alert ports node_name now event_id alert ≡ evt)
    → IsInert fl evt
unfolding from_flow flow_event from_alert
captured-IsInert fl ports now event_id node_name f alert evt (inl h) =
    no_tunnel-IsInert fl evt (ground (arith, h))
captured-IsInert fl ports now event_id node_name f alert evt (inr h) =
    no_tunnel-IsInert fl evt (sym (ap (λ (e : NormalizedEvent). e.teid) h))

module _ {N : Type 0} (ports : Ports N) (decode : Text → Option (Alert N))
    (shared_secret node_name : Text) (now : ℕ) (event_id : Text) (accepts : Bool) where
  abbrev served : Text → Option NormalizedEvent × Reply
  served = serve ports decode shared_secret node_name now event_id accepts

  abbrev handled : Request → Option NormalizedEvent × Reply
  handled = handle_request ports decode shared_secret node_name now event_id accepts

  -- What comes of a body: bad request and no event if it does not decode, else its alert's event, and
  -- an ok exactly if the bus accepts it.
  abbrev pub IsServed : Option NormalizedEvent × Reply → Text → Type 0
  IsServed q body =
      (q.1 ≡ bad_request) × (q.0 ≡ none) × (decode body ≡ none)
      ⊎ ((alert : Alert N) × (decode body ≡ some alert)
          × (q.0 ≡ some (from_alert ports node_name now event_id alert))
          × ((q.1 ≡ ok) ↔ (accepts ≡ true)))

  -- What comes of a request: without the secret, where there is one, it is refused.
  abbrev pub IsAnswered : Request → Type 0
  IsAnswered r =
      ((handled r ≡ (none, unauthorized)) × (shared_secret ≢ []) × (r.secret ≢ shared_secret))
      ⊎ (((shared_secret ≡ []) ⊎ (r.secret ≡ shared_secret)) × IsServed (handled r) r.body)

  reply_iff : (b : Bool) → ((if b then ok else internal_server_error) ≡ ok) ↔ (b ≡ true)
  reply_iff true = (λ _. refl, λ _. refl)
  reply_iff false = (λ e. cc, λ e. cc)

  served-IsServed : (body : Text) → IsServed (served body) body
  unfolding serve
  served-IsServed body = elim (Option-cases (decode body)) [
    | inl e ↦ inl (ground (arith, e), ground (arith, e), e)
    | inr (alert, e) ↦ inr (alert, e, ground (arith, e), rw (e, serve) (reply_iff accepts))
  ]

  handled-served :
      (r : Request) → (shared_secret ≡ []) ⊎ (r.secret ≡ shared_secret) → handled r ≡ served r.body
  unfolding handle_request
  handled-served r h = ground (arith, h)

  handled-refused :
      (r : Request)
      → shared_secret ≢ []
      → r.secret ≢ shared_secret
      → handled r ≡ (none, unauthorized)
  unfolding handle_request
  handled-refused r h k = ground (arith, h, k)

  -- Every request is answered in one of three ways. Without the bridge's secret, where there is
  -- one: unauthorized, and no event. With it: bad request and no event if the body does not decode,
  -- else the alert's event is handed to the bus, and the reply is ok exactly if the bus accepts it.
  pub handle_request-IsAnswered : (r : Request) → IsAnswered r
  handle_request-IsAnswered r = elim (text_discrete shared_secret []) [
    | yes e ↦ through (inl e)
    | no n ↦ elim (text_discrete r.secret shared_secret) [
      | yes e ↦ through (inr e)
      | no m ↦ inl (handled-refused r n m, n, m)
    ]
  ]
    where
      through : (shared_secret ≡ []) ⊎ (r.secret ≡ shared_secret) → IsAnswered r
      through h =
          inr
            (h, subst (λ q. IsServed q r.body) (sym (handled-served r h)) (served-IsServed r.body))
