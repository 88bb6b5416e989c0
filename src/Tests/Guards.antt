-- ===== src/Tests/Guards.antt =====
-- The kill switch, the scoring tracker and the limiter of pkg/controller on small runs.
use sentinel5g.Prelude.{
  ℕ, ◌+◌, ◌<◌, ◌≤◌, ◌≡◌, ◌≢◌, ◌↔◌, Bool, true, codes, arith, List, [], ◌∷◌, some, refl,
}
use sentinel5g.Prelude.Int.{pos}
use sentinel5g.Controller.KillSwitch.{KillSwitch, unread, found, not_found, failed}
use sentinel5g.Controller.KillSwitch.Caching.{
  Call, check_all, AllAnswer, check_all-once, check_all_failing,
}
use sentinel5g.Controller.Scoring.{
  new_tracker, status, awaiting_first_score, no_threat_scores_received,
}
use sentinel5g.Controller.Scoring.Readiness.{Step, starts, run, status_wakes}
use sentinel5g.Controller.Limiter.{allow}
use sentinel5g.Controller.Limiter.Isolation.{allow_all, allow-other}
use sentinel5g.Tests.Fixtures.{one_token, pod_a, pod_b}

-- Engaged by a read at time 100.
abbrev engaged_switch : KillSwitch
engaged_switch = record { ttl = pos 10; last_checked = 100; engaged = true; ever_read = true }

abbrev first_call : Call
first_call = record { now = 99; now_after = 100; reply = found (some (codes "true")) }

abbrev early_calls : List Call
early_calls =
    record { now = 101; now_after = 101; reply = not_found }
    ∷ record { now = 109; now_after = 109; reply = failed }
    ∷ []

check_all-once_example :
    (b : Bool) × ((b ≡ true) ↔ (first_call.reply ≡ found (some (codes "true"))))
    × AllAnswer b (check_all (unread (pos 10)) (first_call ∷ early_calls)).answers
    × ((check_all (unread (pos 10)) (first_call ∷ early_calls)).reads ≡ 1)
unfolding sentinel5g.Controller.KillSwitch.check
check_all-once_example =
    check_all-once (unread (pos 10)) first_call early_calls refl (λ e. cc)
      (omega arith, (omega arith, tt))

abbrev late_calls : List Call
late_calls =
    record { now = 200; now_after = 201; reply = failed }
    ∷ record { now = 300; now_after = 301; reply = failed }
    ∷ []

check_all_failing_example :
    AllAnswer true (check_all engaged_switch late_calls).answers
    × ((check_all engaged_switch late_calls).switch.engaged ≡ true)
check_all_failing_example = check_all_failing engaged_switch late_calls refl (refl, (refl, tt))

status_wakes_example :
    ((now : ℕ)
      → now < 21 + 60
      → (delay : ℕ) × (status now (run (new_tracker (pos 60) 1) (starts 21 ∷ []))
          ≡ (awaiting_first_score, delay))
        × (now + delay ≡ 21 + 60))
    × ((now : ℕ)
        → 21 + 60 ≤ now
        → status now (run (new_tracker (pos 60) 1) (starts 21 ∷ []))
          ≡ (no_threat_scores_received, 60000000000))
unfolding sentinel5g.Controller.Scoring.Readiness.last_start
status_wakes_example = status_wakes (pos 60) 1 (starts 21 ∷ []) (λ e. e)

allow-other_example :
    (allow one_token pod_a 9 (allow_all one_token (some []) ((pod_b, 1) ∷ (pod_b, 2) ∷ []))).1
    ≡ (allow one_token pod_a 9 (some [])).1
allow-other_example =
    allow-other one_token pod_a 9 (some []) ((pod_b, 1) ∷ (pod_b, 2) ∷ []) (b≢a, (b≢a, tt))
  where
    b≢a : pod_b ≢ pod_a
    b≢a e = cc
