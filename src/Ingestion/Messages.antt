-- ===== src/Ingestion/Messages.antt =====
-- What the messages of pkg/ingestion/publisher.go hold.
use sentinel5g.Prelude.{
  ℕ, ◌≤◌, ◌<◌, ◌≡◌, refl, arith, ap, sym, ◌∙◌, List, [], ◌∷◌, ◌++◌, Option, none, some, length,
  append_nil, append_assoc,
}
use sentinel5g.Events.{NormalizedEvent, ThreatScoreEvent}
use sentinel5g.Ingestion.Publisher.{Message, single, batched, score, batch_message, score_message}

-- The events in the messages, in their order.
unfoldable pub events_of : {F : Type 0} → List (Message F) → List NormalizedEvent
events_of [] = []
events_of (single e ∷ ms) = e ∷ events_of ms
events_of (batched es ∷ ms) = es ++ events_of ms
events_of (score s ∷ ms) = events_of ms

-- The scores in the messages, in their order.
unfoldable pub scores_of : {F : Type 0} → List (Message F) → List (ThreatScoreEvent F)
scores_of [] = []
scores_of (single e ∷ ms) = scores_of ms
scores_of (batched es ∷ ms) = scores_of ms
scores_of (score s ∷ ms) = s ∷ scores_of ms

-- No batch is empty or larger than the bound.
abbrev pub Within : {F : Type 0} → ℕ → List (Message F) → Type 0
Within n [] = Unit {0}
Within n (single e ∷ ms) = Within n ms
Within n (batched es ∷ ms) = (0 < length es) × (length es ≤ n) × Within n ms
Within n (score s ∷ ms) = Within n ms

module _ {F : Type 0} where
  pub events_of-append :
      (ms ns : List (Message F)) → events_of (ms ++ ns) ≡ events_of ms ++ events_of ns
  unfolding events_of
  events_of-append [] ns = refl
  events_of-append (single e ∷ ms) ns = ap (λ l. e ∷ l) (events_of-append ms ns)
  events_of-append (batched es ∷ ms) ns =
      ap (λ l. es ++ l) (events_of-append ms ns)
      ∙ sym (append_assoc es (events_of ms) (events_of ns))
  events_of-append (score s ∷ ms) ns = events_of-append ms ns

  pub scores_of-append :
      (ms ns : List (Message F)) → scores_of (ms ++ ns) ≡ scores_of ms ++ scores_of ns
  unfolding scores_of
  scores_of-append [] ns = refl
  scores_of-append (single e ∷ ms) ns = scores_of-append ms ns
  scores_of-append (batched es ∷ ms) ns = scores_of-append ms ns
  scores_of-append (score s ∷ ms) ns = ap (λ l. s ∷ l) (scores_of-append ms ns)

  pub Within-append :
      (n : ℕ) (ms ns : List (Message F)) → Within n ms → Within n ns → Within n (ms ++ ns)
  Within-append n [] ns h k = k
  Within-append n (single e ∷ ms) ns h k = Within-append n ms ns h k
  Within-append n (batched es ∷ ms) ns (a, b, h) k = (a, b, Within-append n ms ns h k)
  Within-append n (score s ∷ ms) ns h k = Within-append n ms ns h k

  pub score_message-quiet :
      (o : Option (ThreatScoreEvent F)) (n : ℕ)
      → (events_of (score_message o) ≡ []) × Within n (score_message o)
  unfolding events_of score_message
  score_message-quiet none n = (refl, tt)
  score_message-quiet (some s) n = (refl, tt)

pub batch_message-all :
    (F : Type 0) (es : List NormalizedEvent) (n : ℕ)
    → length es ≤ n
    → (events_of (batch_message {F = F} es) ≡ es) × Within n (batch_message {F = F} es)
unfolding events_of batch_message
batch_message-all F [] n h = (refl, tt)
batch_message-all F (e ∷ es) n h = (append_nil (e ∷ es), (omega arith, h, tt))
