-- ===== src/Controller/Scoring/Readiness.antt =====
-- What the tracker (pkg/controller/scoring_pipeline.go) reports over time.
use sentinel5g.Prelude.{
  ℕ, ◌+◌, ◌<◌, ◌≡◌, ◌≢◌, ◌↔◌, true, arith, ℕ_discrete, refl, List, [], ◌∷◌, inl, inr, ◌⊎◌, ◌≤◌, ◌-◌,
  ap, ◌∙◌,
}
use sentinel5g.Prelude.Int.{ℤ, set_or, set_or-eq}
use sentinel5g.Controller.Scoring.{
  Tracker, awaiting_first_score, no_threat_scores_received, new_tracker, mark_started, observe,
  ever_scored, status, grace_of,
}

-- What the watcher does to the tracker, at a time after the epoch.
pub data Step : Type 0 where
  starts scores : ℕ → Step

unfoldable pub run : Tracker → List Step → Tracker
unfolding mark_started observe
run t [] = t
run t (starts now ∷ steps) = run (mark_started now t) steps
run t (scores now ∷ steps) = run (observe now t) steps

-- Some step brought a score, at a time other than the epoch itself.
abbrev pub Scored : List Step → Type 0
Scored [] = ⊥
Scored (starts now ∷ steps) = Scored steps
Scored (scores now ∷ steps) = (now ≢ 0) ⊎ Scored steps

run-scored :
    (t : Tracker) (steps : List Step)
    → t.first_score ≢ 0
    → (run t steps).first_score ≡ t.first_score
unfolding run
run-scored t [] h = refl
run-scored t (starts now ∷ steps) h = run-scored (mark_started now t) steps h
run-scored t (scores now ∷ steps) h = ground (arith, h, run-scored (observe now t) steps)

after-Scored :
    (t : Tracker) (steps : List Step)
    → t.first_score ≡ 0
    → (run t steps).first_score ≢ 0
    → Scored steps
unfolding run
after-Scored t [] z h = absurd (h z)
after-Scored t (starts now ∷ steps) z h = after-Scored (mark_started now t) steps z h
after-Scored t (scores now ∷ steps) z h = elim (ℕ_discrete now 0) [
  | no later ↦ inl later
  | yes epoch ↦ inr (after-Scored (observe now t) steps (ground (arith, z, epoch)) h)
]

Scored-after : (t : Tracker) (steps : List Step) → Scored steps → (run t steps).first_score ≢ 0
unfolding run
Scored-after t [] s = absurd s
Scored-after t (starts now ∷ steps) s = Scored-after (mark_started now t) steps s
Scored-after t (scores now ∷ steps) (inl h) = ground (arith, h, run-scored (observe now t) steps)
Scored-after t (scores now ∷ steps) (inr s) = Scored-after (observe now t) steps s

-- The tracker reports a score exactly if one ever arrived, whatever came before or after: no
-- restart and no silence takes the report back.
pub ever_scored_iff :
    (grace : ℤ) (now : ℕ) (steps : List Step)
    → (ever_scored (run (new_tracker grace now) steps) ≡ true) ↔ Scored steps
ever_scored_iff grace now steps =
    let unscored : (new_tracker grace now).first_score ≡ 0 = unfold new_tracker in refl in
    (
      λ e.
          after-Scored (new_tracker grace now) steps unscored
            (unfold ever_scored in ground (arith, e)),
      λ s. unfold ever_scored in ground (arith, Scored-after (new_tracker grace now) steps s),
    )

-- The last start: that of the tracker, or of the watcher if it started since.
unfoldable pub last_start : ℕ → List Step → ℕ
last_start start [] = start
last_start start (starts now ∷ steps) = last_start now steps
last_start start (scores now ∷ steps) = last_start start steps

run-timing :
    (t : Tracker) (steps : List Step)
    → ((run t steps).started_at ≡ last_start t.started_at steps) × ((run t steps).grace ≡ t.grace)
unfolding run last_start
run-timing t [] = (refl, refl)
run-timing t (starts now ∷ steps) = run-timing (mark_started now t) steps
run-timing t (scores now ∷ steps) =
    unfold observe in ground (arith, run-timing (observe now t) steps)

grace_of-eq : (t : Tracker) → grace_of t ≡ set_or t.grace 600000000000
unfolding grace_of
grace_of-eq t = set_or-eq t.grace 600000000000

status_early :
    (t : Tracker) (now : ℕ)
    → t.first_score ≡ 0
    → now < t.started_at + grace_of t
    → (delay : ℕ) × (status now t ≡ (awaiting_first_score, delay))
      × (now + delay ≡ t.started_at + grace_of t)
unfolding status
status_early t now unscored h =
    (t.started_at + grace_of t - now, ground (arith, unscored, h), omega (arith, h))

status_late :
    (t : Tracker) (now : ℕ)
    → t.first_score ≡ 0
    → t.started_at + grace_of t ≤ now
    → status now t ≡ (no_threat_scores_received, 60000000000)
unfolding status
status_late t now unscored h = ground (arith, unscored, h)

-- Until a score comes (at a time after the epoch), however often the watcher starts: the grace period runs from the last start,
-- as long as it is configured, or for ten minutes where that is not positive. Whenever the tracker is
-- asked before its end, it awaits the first score, and asks to be looked at again exactly at that end.
-- From then on it reports that none was received, and asks to be looked at again in a minute.
pub status_wakes :
    (grace : ℤ) (start : ℕ) (steps : List Step)
    → ¬ Scored steps
    → let t = run (new_tracker grace start) steps in
      let end = last_start start steps + set_or grace 600000000000 in
      ((now : ℕ)
        → now < end
        → (delay : ℕ) × (status now t ≡ (awaiting_first_score, delay)) × (now + delay ≡ end))
      × ((now : ℕ) → end ≤ now → status now t ≡ (no_threat_scores_received, 60000000000))
unfolding new_tracker
status_wakes grace start steps silent =
    let t = run (new_tracker grace start) steps in
    let unscored : t.first_score ≡ 0 = elim (ℕ_discrete t.first_score 0) [
      | yes z ↦ z
      | no n ↦
          absurd
            (silent (after-Scored (new_tracker grace start) steps (unfold new_tracker in refl) n))
    ] in
    let (started, kept) = run-timing (new_tracker grace start) steps in
    let end : t.started_at + grace_of t ≡ last_start start steps + set_or grace 600000000000 =
      ap (λ x. x + grace_of t) started
      ∙ ap (λ x. last_start start steps + x)
          (grace_of-eq t ∙ ap (λ g. set_or g 600000000000) kept) in
    (
      λ now h.
          let (delay, e, f) = status_early t now unscored (omega (arith, end, h)) in
          (delay, e, f ∙ end),
      λ now h. status_late t now unscored (omega (arith, end, h)),
    )
