-- ===== src/Detect/SourceFlood/Tracked.antt =====
-- The per-peer detector (pkg/detect/gtpu_source_flood.go) on the packets of many sources: what it makes
-- of one of them, as long as the source is not evicted from the table.
use sentinel5g.Prelude.{
  ℕ, ◌+◌, ◌^◌, ◌≤◌, ◌<◌, ◌≡◌, ◌≢◌, Bool, none, some, List, [], ◌∷◌, Text, text_discrete, length,
  arith, refl, ite, sym, ap, ◌∙◌, subst, Option-cases, inl, inr, if_pos, if_neg,
}
use sentinel5g.Prelude.Map.{find, put, find-put}
use sentinel5g.Prelude.Fifo.{Fifo, update, room_for, find-admit, find-room_for}
use sentinel5g.Detect.SourceFlood.{
  GtpuSourceFloodConfig, GtpuSourceFloodDetector, SourceWindow, track, observe, fold, fresh,
}
use sentinel5g.Detect.SourceFlood.Window.{
  Packet, fold_all, Within, Cooling, Emits, storm-Emits, cooldown_spans_windows,
}

-- A packet: its source, its TEID and the time at which it is observed.
abbrev pub Heard : Type 0
Heard = Text × ℕ × ℕ

unfoldable pub own : Text → List Heard → List Packet
own source [] = []
own source ((s, teid, now) ∷ hs) =
    let rest = own source hs in ite (text_discrete s source) ((teid, now) ∷ rest) rest

-- The detector's verdicts on the packets of one source, among those of all.
unfoldable pub verdicts_on : Text → GtpuSourceFloodDetector → List Heard → List Bool
verdicts_on source d [] = []
verdicts_on source d ((s, teid, now) ∷ hs) =
    let (d', w, emit) = observe d s teid now in
    let rest = verdicts_on source d' hs in ite (text_discrete s source) (emit ∷ rest) rest

-- No packet evicts the source.
abbrev pub Stays : Text → GtpuSourceFloodDetector → List Heard → Type 0
Stays source d [] = Unit {0}
Stays source d ((s, teid, now) ∷ hs) =
    (find text_discrete source (observe d s teid now).0.table.entries ≢ none)
    × Stays source (observe d s teid now).0 hs

observe-cfg :
    (d : GtpuSourceFloodDetector) (s : Text) (teid now : ℕ) → (observe d s teid now).0.cfg ≡ d.cfg
unfolding observe
observe-cfg d s teid now = refl

observe-entries :
    (d : GtpuSourceFloodDetector) (s : Text) (teid now : ℕ)
    → ((observe d s teid now).0.table.entries
        ≡ put text_discrete s
            (fold d.cfg teid now (track d.table s now).1).0
            (track d.table s now).0.entries)
      × ((observe d s teid now).2 ≡ (fold d.cfg teid now (track d.table s now).1).1)
unfolding observe update
observe-entries d s teid now = (refl, refl)

track_held :
    (table : Fifo Text SourceWindow) (s : Text) (now : ℕ) (w : SourceWindow)
    → find text_discrete s table.entries ≡ some w
    → track table s now ≡ (table, w)
unfolding track
track_held table s now w e = rw (e, track) refl

-- To make room for a source that is new leaves every other one with its window, if it is kept.
track_other :
    (table : Fifo Text SourceWindow) (s source : Text) (now : ℕ) (w : SourceWindow)
    → s ≢ source
    → find text_discrete source table.entries ≡ some w
    → find text_discrete source (track table s now).0.entries ≢ none
    → find text_discrete source (track table s now).0.entries ≡ some w
unfolding track
track_other table s source now w other e stays =
    elim (Option-cases (find text_discrete s table.entries)) [
      | inr (v, old) ↦ ground (arith, old, e)
      | inl new ↦
          let entered = find-admit text_discrete source [] s (fresh now) table in
          elim (Option-cases (find text_discrete source (room_for text_discrete [] table))) [
            | inl gone ↦ absurd (stays (ground (arith, new, entered, gone, other)))
            | inr (v, kept) ↦
                let same = find-room_for text_discrete [] source v table kept in
                ground (arith, new, entered, kept, same, e, other)
          ]
    ]

-- A packet of the source itself.
observe_own :
    (d : GtpuSourceFloodDetector) (source : Text) (teid now : ℕ) (w : SourceWindow)
    → find text_discrete source d.table.entries ≡ some w
    → ((observe d source teid now).2 ≡ (fold d.cfg teid now w).1)
      × (find text_discrete source (observe d source teid now).0.table.entries
          ≡ some (fold d.cfg teid now w).0)
observe_own d source teid now w e =
    let (entries, emit) = observe-entries d source teid now in
    let tracked =
      ap (λ (p : Fifo Text SourceWindow × SourceWindow). p.1) (track_held d.table source now w e) in
    (
      emit ∙ ap (λ v. (fold d.cfg teid now v).1) tracked,
      ap (find text_discrete source) entries
          ∙ find-put text_discrete source source _ _
          ∙ if_pos (text_discrete source source) refl _ _
          ∙ ap (λ v. some (fold d.cfg teid now v).0) tracked,
    )

-- A packet of another source, if it does not evict this one.
observe_other :
    (d : GtpuSourceFloodDetector) (s source : Text) (teid now : ℕ) (w : SourceWindow)
    → s ≢ source
    → find text_discrete source d.table.entries ≡ some w
    → find text_discrete source (observe d s teid now).0.table.entries ≢ none
    → find text_discrete source (observe d s teid now).0.table.entries ≡ some w
observe_other d s source teid now w other e stays =
    let apart =
      ap (find text_discrete source) (observe-entries d s teid now).0
      ∙ find-put text_discrete source s (fold d.cfg teid now (track d.table s now).1).0
          (track d.table s now).0.entries
      ∙ if_neg (text_discrete s source) other _ _ in
    apart ∙ track_other d.table s source now w other e (λ gone. stays (apart ∙ gone))

cons_eq : {b b' : Bool} {bs bs' : List Bool} → b ≡ b' → bs ≡ bs' → (b ∷ bs) ≡ (b' ∷ bs')
cons_eq e f = cc (e, f)

-- What the detector says of a source that stays in its table is what its window alone says, through the
-- source's own packets.
verdicts_on-fold_all :
    (source : Text) (d : GtpuSourceFloodDetector) (w : SourceWindow) (hs : List Heard)
    → find text_discrete source d.table.entries ≡ some w
    → Stays source d hs
    → verdicts_on source d hs ≡ (fold_all d.cfg w (own source hs)).1
unfolding verdicts_on own fold_all
verdicts_on-fold_all source d w [] e stays = refl
verdicts_on-fold_all source d w ((s, teid, now) ∷ hs) e (here, later) =
    elim (text_discrete s source) [
      | yes same ↦
          let (emit, kept) =
            observe_own d s teid now w (ap (λ x. find text_discrete x d.table.entries) same ∙ e) in
          let rest =
            verdicts_on-fold_all source (observe d s teid now).0 (fold d.cfg teid now w).0 hs
              (ap (λ x. find text_discrete x (observe d s teid now).0.table.entries) (sym same)
                ∙ kept)
              later in
          if_pos (text_discrete s source) same _ _
          ∙ cons_eq emit (
              rest
              ∙ ap
                  (λ (c : GtpuSourceFloodConfig).
                    (fold_all c (fold d.cfg teid now w).0 (own source hs)).1)
                  (observe-cfg d s teid now))
          ∙ ap (λ ps. (fold_all d.cfg w ps).1)
              (sym (
                if_pos (text_discrete s source) same ((teid, now) ∷ own source hs) (own source hs)))
      | no other ↦
          let kept = observe_other d s source teid now w other e here in
          let rest = verdicts_on-fold_all source (observe d s teid now).0 w hs kept later in
          if_neg (text_discrete s source) other _ _
          ∙ rest
          ∙ ap (λ (c : GtpuSourceFloodConfig). (fold_all c w (own source hs)).1)
              (observe-cfg d s teid now)
          ∙ ap (λ ps. (fold_all d.cfg w ps).1)
              (sym (
                if_neg (text_discrete s source) other ((teid, now) ∷ own source hs)
                  (own source hs)))
    ]

-- A source stands in the table, has not been reported, and counts fewer packets in its window than the
-- threshold. Whatever other sources send in between, as long as that evicts this one at no point: if
-- its packets reach the threshold before the window is over, the detector reports it on one of them (the
-- count stays below the uint32's bound).
pub tracked_storm-Emits :
    (source : Text) (d : GtpuSourceFloodDetector) (w : SourceWindow) (hs : List Heard)
    → find text_discrete source d.table.entries ≡ some w
    → Stays source d hs
    → w.last_fired ≡ none
    → w.packets < d.cfg.packets_per_second
    → d.cfg.packets_per_second ≤ w.packets + length (own source hs)
    → w.packets + length (own source hs) < 2 ^ 32
    → Within d.cfg w.start (own source hs)
    → Emits (verdicts_on source d hs)
tracked_storm-Emits source d w hs e stays unfired below reached small within =
    subst Emits (sym (verdicts_on-fold_all source d w hs e stays))
      (storm-Emits d.cfg w (own source hs) unfired below reached small within)

-- A source stands in the table and was reported at some time. As long as it is not evicted, whatever
-- other sources send in between, the detector says nothing of its packets that come before the
-- cooldown from that time is over, however many windows begin in between and whatever they count.
pub tracked_cooldown-silent :
    (source : Text) (d : GtpuSourceFloodDetector) (w : SourceWindow) (last : ℕ) (hs : List Heard)
    → find text_discrete source d.table.entries ≡ some w
    → Stays source d hs
    → w.last_fired ≡ some last
    → Cooling d.cfg last (own source hs)
    → ¬ Emits (verdicts_on source d hs)
tracked_cooldown-silent source d w last hs e stays fired cooling emits =
    cooldown_spans_windows d.cfg w last (own source hs) fired cooling
      (subst Emits (verdicts_on-fold_all source d w hs e stays) emits)
