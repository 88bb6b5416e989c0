-- ===== src/Controller/Scoring.antt =====
-- pkg/controller/scoring_pipeline.go: whether the AI engine has ever published a score. Times are
-- nanoseconds since the Unix epoch.
pub mod Readiness
use sentinel5g.Prelude.{ℕ, ◌+◌, ◌==◌, Bool, true, false, not, if◌then◌else◌}
use sentinel5g.Prelude.Int.{ℤ, pos, sub_ℕ, ltb_ℤ, pos_part}

-- DefaultScoringPipelineGrace, ten minutes, and notReadyRecheck, one minute.
abbrev pub default_scoring_pipeline_grace : ℕ
default_scoring_pipeline_grace = 600000000000

abbrev pub not_ready_recheck : ℕ
not_ready_recheck = 60000000000

-- The condition's reasons.
pub data Reason : Type 0 where
  scores_received awaiting_first_score no_threat_scores_received : Reason

-- `first_score` is 0 until the first score arrives.
pub record Tracker : Type 0 where
  pub first_score : ℕ
  pub started_at : ℕ
  pub grace : ℤ

-- NewScoringPipelineTracker
unfoldable pub new_tracker : ℤ → ℕ → Tracker
new_tracker grace now = record { first_score = 0; started_at = now; grace = grace }

-- MarkStarted
unfoldable pub mark_started : ℕ → Tracker → Tracker
mark_started now t = record t { started_at = now }

-- grace
unfoldable pub grace_of : Tracker → ℕ
grace_of t = if ltb_ℤ (pos 0) t.grace then pos_part t.grace else default_scoring_pipeline_grace

-- Observe: the load and the compare-and-swap are one step.
unfoldable pub observe : ℕ → Tracker → Tracker
observe now t = if t.first_score == 0 then record t { first_score = now } else t

-- EverScored
unfoldable pub ever_scored : Tracker → Bool
ever_scored t = not (t.first_score == 0)

-- Status: the reason, and how long until it should be looked at again. `grace - (now - started)` is
-- the difference of `grace + started` and `now`.
unfoldable pub status : ℕ → Tracker → Reason × ℕ
unfolding ever_scored
status now t =
    if ever_scored t
    then (scores_received, 0)
    else (let remaining = sub_ℕ (grace_of t + t.started_at) now in
        if ltb_ℤ (pos 0) remaining
        then (awaiting_first_score, pos_part remaining)
        else (no_threat_scores_received, not_ready_recheck))
