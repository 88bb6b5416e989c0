-- ===== src/Detect/SourceFlood/Memory.antt =====
-- Bounded memory of the per-peer detector (pkg/detect/gtpu_source_flood.go): neither rotated
-- source addresses nor rotated TEIDs grow its state past the two capacities.
use sentinel5g.Prelude.{
  ℕ, ◌≤◌, ◌≡◌, ◌≢◌, refl, none, some, List, [], ◌∷◌, Text, text_discrete, length, arith, inl, inr,
  ◌∙◌, Option-cases, Bool-cases, length-set, length-replicate,
}
use sentinel5g.Prelude.Int.{pos}
use sentinel5g.Prelude.Map.{find, find-put}
use sentinel5g.Prelude.Fifo.{
  IsFifo, empty, admit, update, empty-IsFifo, admit-IsFifo, update-IsFifo, find-admit,
  find-room_for,
}
use sentinel5g.Events.{NormalizedEvent, Floats}
use sentinel5g.Detect.TunnelFlood.{or_default}
use sentinel5g.Detect.SourceFlood.{
  GtpuSourceFloodConfig, GtpuSourceFloodDetector, SourceWindow, new_detector, track, observe, fold,
  fresh, evaluate, is_configured, is_tunnelled, default_tracked_sources, default_tunnels_per_source,
}
use sentinel5g.Detect.SourceFlood.Window.{IsTeidSet, IsBounded, fold-IsBounded}

-- The ring indexes the table, the table fits, and so does every window in it.
pub record IsValid (cap : ℕ) (d : GtpuSourceFloodDetector) : Type 0 where
  pub ring : IsFifo text_discrete d.table
  pub windows :
      (source : Text) (w : SourceWindow)
      → find text_discrete source d.table.entries ≡ some w
      → IsBounded d.cfg w
  pub cap_set : d.cfg.max_tunnels_per_source ≡ pos cap

fresh-IsBounded :
    (cfg : GtpuSourceFloodConfig) (now cap : ℕ)
    → cfg.max_tunnels_per_source ≡ pos cap
    → IsBounded cfg (fresh now)
fresh-IsBounded cfg now cap e = record {
  teid_set = tt;
  teid_cap = rw e (ground arith);
  uint32 = omega arith;
}

-- The table after `track` holds the source, keeps the ring, and hands out a bounded window.
track-keeps :
    (cap : ℕ) (d : GtpuSourceFloodDetector) (source : Text) (now : ℕ)
    → IsValid cap d
    → IsFifo text_discrete (track d.table source now).0
      × (find text_discrete source (track d.table source now).0.entries ≢ none)
      × (length (track d.table source now).0.order ≡ length d.table.order)
      × IsBounded d.cfg (track d.table source now).1
      × ((j : Text) (w : SourceWindow)
          → find text_discrete j (track d.table source now).0.entries ≡ some w
          → IsBounded d.cfg w)
unfolding track
track-keeps cap d source now v = elim (Option-cases (find text_discrete source d.table.entries)) [
  | inr (w, old) ↦ rw (old, track) (v.ring, (λ e. cc), refl, v.windows source w old, v.windows)
  | inl new ↦
      let new_window = fresh-IsBounded d.cfg now cap v.cap_set in
      rw (new, track)
        (
          admit-IsFifo text_discrete [] source (fresh now) d.table v.ring new,
          rw find-admit (ground arith),
          unfold admit in length-set d.table.order d.table.next source,
          new_window,
          λ j w e. ground (
            arith,
            e,
            new_window,
            find-admit text_discrete j [] source (fresh now) d.table,
            find-room_for text_discrete [] j w d.table,
            v.windows j w,
          ),
        )
]

observe-keeps :
    (cap : ℕ) (d : GtpuSourceFloodDetector) (source : Text) (teid now : ℕ)
    → IsValid cap d
    → IsValid cap (observe d source teid now).0
      × (length (observe d source teid now).0.table.order ≡ length d.table.order)
unfolding observe
observe-keeps cap d source teid now v =
    let (ring, known, same, bounded, all) = track-keeps cap d source now v in
    let w' = (fold d.cfg teid now (track d.table source now).1).0 in
    let bounded' = fold-IsBounded d.cfg teid now (track d.table source now).1 bounded in
    (
      record {
        ring = update-IsFifo text_discrete source w' (track d.table source now).0 ring known;
        windows = λ j w e.
            unfold update in
            ground (
              arith,
              e,
              bounded',
              find-put text_discrete j source w' (track d.table source now).0.entries,
              all j w,
            );
        cap_set = v.cap_set;
      },
      unfold update in same,
    )

new_detector-IsValid :
    (cfg : GtpuSourceFloodConfig)
    → IsValid (or_default cfg.max_tunnels_per_source default_tunnels_per_source) (new_detector cfg)
unfolding new_detector find empty
new_detector-IsValid cfg = record {
  ring = empty-IsFifo text_discrete [] _ (ground arith);
  windows = λ source w e. absurd (cc);
  cap_set = refl;
}

length-new_detector :
    (cfg : GtpuSourceFloodConfig)
    → length (new_detector cfg).table.order
      ≡ or_default cfg.max_tracked_sources default_tracked_sources
unfolding new_detector empty
length-new_detector cfg = length-replicate _ []

module _ {F : Type 0} (fl : Floats F) where
  -- A detector through a sequence of events, each with the time at which it is evaluated.
  unfoldable pub observe_all :
      GtpuSourceFloodDetector → List (NormalizedEvent × ℕ) → GtpuSourceFloodDetector
  observe_all d [] = d
  observe_all d ((evt, now) ∷ evts) = observe_all (evaluate fl d evt now).0 evts

  evaluate-keeps :
      (cap : ℕ) (d : GtpuSourceFloodDetector) (evt : NormalizedEvent) (now : ℕ)
      → IsValid cap d
      → IsValid cap (evaluate fl d evt now).0
        × (length (evaluate fl d evt now).0.table.order ≡ length d.table.order)
  unfolding evaluate
  evaluate-keeps cap d evt now v = elim (Bool-cases (is_configured d)) [
    | inr off ↦ rw off (v, refl)
    | inl on ↦ elim (Bool-cases (is_tunnelled evt)) [
      | inr other ↦ rw (on, other) (v, refl)
      | inl tunnelled ↦ rw (on, tunnelled) (observe-keeps cap d evt.source_ip evt.teid now v)
    ]
  ]

  observe_all-keeps :
      (cap : ℕ) (d : GtpuSourceFloodDetector) (evts : List (NormalizedEvent × ℕ))
      → IsValid cap d
      → IsValid cap (observe_all d evts)
        × (length (observe_all d evts).table.order ≡ length d.table.order)
  unfolding observe_all
  observe_all-keeps cap d [] v = (v, refl)
  observe_all-keeps cap d ((evt, now) ∷ evts) v =
      let step = evaluate-keeps cap d evt now v in
      let rest = observe_all-keeps cap (evaluate fl d evt now).0 evts step.0 in
      (rest.0, rest.1 ∙ step.1)

  -- Whatever events a new detector is given, it tracks at most as many sources as its setting says
  -- (1024 where the setting is not positive), and holds at most as many TEIDs of each as the
  -- other setting says (4096 by default), each once.
  pub sources-le-capacity :
      (cfg : GtpuSourceFloodConfig) (evts : List (NormalizedEvent × ℕ))
      → (length (observe_all (new_detector cfg) evts).table.entries
          ≤ or_default cfg.max_tracked_sources default_tracked_sources)
        × ((source : Text) (w : SourceWindow)
            → find text_discrete source (observe_all (new_detector cfg) evts).table.entries ≡ some w
            → IsTeidSet w.teids
              × (length w.teids ≤ or_default cfg.max_tunnels_per_source default_tunnels_per_source))
  sources-le-capacity cfg evts =
      let cap = or_default cfg.max_tunnels_per_source default_tunnels_per_source in
      let (v, same) = observe_all-keeps cap (new_detector cfg) evts (new_detector-IsValid cfg) in
      (
        omega (arith, v.ring.bounded, same, length-new_detector cfg),
        λ source w e.
            let b = v.windows source w e in (b.teid_set, ground (arith, b.teid_cap, v.cap_set)),
      )
