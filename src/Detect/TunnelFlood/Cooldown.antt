-- ===== src/Detect/TunnelFlood/Cooldown.antt =====
-- When the per-tunnel detector (pkg/detect/gtpu_flood.go) speaks: the cooldown against a log of
-- what it fired, and against a reference that never forgets a tunnel.
use sentinel5g.Prelude.{
  ℕ, ◌≤◌, ◌≡◌, refl, Bool, true, false, none, some, arith, length, List, [], ◌∷◌, if◌then◌else◌,
  ◌⊎◌, ap, subst, ◌∙◌, length-replicate,
}
use sentinel5g.Prelude.Int.{ℤ, pos, sub_ℕ, ltb_ℤ}
use sentinel5g.Prelude.Map.{Map, find, put, find-put, length-put_new, length-put_old}
use sentinel5g.Prelude.Fifo.{empty, admit, update, find-admit, room_for-keep, find-room_for}
use sentinel5g.Detect.TunnelFlood.{
  GtpuFloodConfig, GtpuFloodDetector, TunnelId, tunnel_id_discrete, zero_tunnel, new_detector,
  claim, or_default, default_tracked_tunnels, default_cooldown,
}
use sentinel5g.Detect.TunnelFlood.Memory.{claim-fixed}

-- A request to report a tunnel at a time.
abbrev pub Request : Type 0
Request = TunnelId × ℕ

-- (id, last) stands in the log.
abbrev pub Logged : TunnelId → ℕ → List Request → Type 0
Logged id last [] = ⊥
Logged id last ((id', last') ∷ log) = ((id' ≡ id) × (last' ≡ last)) ⊎ Logged id last log

-- A detector through a sequence of claims, with the log of those that fired, newest first.
unfoldable pub claim_all :
    GtpuFloodDetector → List Request → List Request → GtpuFloodDetector × List Request
claim_all d log [] = (d, log)
claim_all d log ((id, now) ∷ reqs) =
    let (d', fired) = claim d id now in claim_all d' (if fired then (id, now) ∷ log else log) reqs

-- What the table says fired, fired.
abbrev IsLogged : GtpuFloodDetector → List Request → Type 0
IsLogged d log =
    (id : TunnelId) (last : ℕ)
    → find tunnel_id_discrete id d.table.entries ≡ some last
    → Logged id last log

claim-IsLogged :
    (d : GtpuFloodDetector) (id : TunnelId) (now : ℕ) (log : List Request)
    → IsLogged d log
    → IsLogged (claim d id now).0 (if (claim d id now).1 then (id, now) ∷ log else log)
unfolding claim update
claim-IsLogged d id now log h j last = ground (
  arith,
  h j last,
  find-put tunnel_id_discrete j id now d.table.entries,
  find-admit tunnel_id_discrete j zero_tunnel id now d.table,
  find-room_for tunnel_id_discrete zero_tunnel j last d.table,
)

claim_all-IsLogged :
    (d : GtpuFloodDetector) (log reqs : List Request)
    → IsLogged d log
    → IsLogged (claim_all d log reqs).0 (claim_all d log reqs).1
unfolding claim_all
claim_all-IsLogged d log [] h = h
claim_all-IsLogged d log ((id, now) ∷ reqs) h =
    claim_all-IsLogged (claim d id now).0 _ reqs (claim-IsLogged d id now log h)

claim_all-cfg :
    (d : GtpuFloodDetector) (log reqs : List Request) → (claim_all d log reqs).0.cfg ≡ d.cfg
unfolding claim_all
claim_all-cfg d log [] = refl
claim_all-cfg d log ((id, now) ∷ reqs) =
    claim_all-cfg (claim d id now).0 _ reqs ∙ (claim-fixed d id now).0

refused :
    (d : GtpuFloodDetector) (id : TunnelId) (now : ℕ)
    → (claim d id now).1 ≡ false
    → (last : ℕ) × (find tunnel_id_discrete id d.table.entries ≡ some last)
      × (ltb_ℤ (sub_ℕ now last) d.cfg.cooldown ≡ true)
unfolding claim
refused d id now h = ground arith

-- A tunnel is passed over only if an event for that very tunnel fired before, less than a cooldown
-- ago, whatever was evicted in between.
pub claim_all-covered :
    (cfg : GtpuFloodConfig) (reqs : List Request) (id : TunnelId) (now : ℕ)
    → (claim (claim_all (new_detector cfg) [] reqs).0 id now).1 ≡ false
    → (last : ℕ) × Logged id last (claim_all (new_detector cfg) [] reqs).1
      × (ltb_ℤ (sub_ℕ now last) (pos (or_default cfg.cooldown default_cooldown)) ≡ true)
claim_all-covered cfg reqs id now h =
    let d = (claim_all (new_detector cfg) [] reqs).0 in
    let (last, held, soon) = refused d id now h in
    (
      last,
      claim_all-IsLogged (new_detector cfg) [] reqs start id last held,
      subst (λ c. ltb_ℤ (sub_ℕ now last) c ≡ true) settings soon,
    )
  where
    start : IsLogged (new_detector cfg) []
    start = unfold new_detector empty find in λ j t e. cc

    settings :
        (claim_all (new_detector cfg) [] reqs).0.cfg.cooldown
        ≡ pos (or_default cfg.cooldown default_cooldown)
    settings =
        ap (λ (c : GtpuFloodConfig). c.cooldown) (claim_all-cfg (new_detector cfg) [] reqs)
        ∙ unfold new_detector in refl

-- The reference: a table without a bound, so that it forgets no tunnel.
unfoldable pub reference_claim : ℤ → Map TunnelId ℕ → TunnelId → ℕ → Map TunnelId ℕ × Bool
reference_claim cooldown m id now = elim (find tunnel_id_discrete id m) [
  | some last ↦
      if ltb_ℤ (sub_ℕ now last) cooldown
      then (m, false)
      else (put tunnel_id_discrete id now m, true)
  | none ↦ (put tunnel_id_discrete id now m, true)
]

unfoldable pub reference_all : ℤ → Map TunnelId ℕ → List Request → Map TunnelId ℕ × List Bool
reference_all cooldown m [] = (m, [])
reference_all cooldown m ((id, now) ∷ reqs) =
    let (m', fired) = reference_claim cooldown m id now in
    let (last, rest) = reference_all cooldown m' reqs in (last, fired ∷ rest)

-- The detector's verdicts on a sequence of claims.
unfoldable pub verdicts : GtpuFloodDetector → List Request → List Bool
verdicts d [] = []
verdicts d ((id, now) ∷ reqs) = let (d', fired) = claim d id now in fired ∷ verdicts d' reqs

reference_claim-grows :
    (cooldown : ℤ) (m : Map TunnelId ℕ) (id : TunnelId) (now : ℕ)
    → (length m ≤ length (reference_claim cooldown m id now).0)
unfolding reference_claim
reference_claim-grows cooldown m id now =
    ground (
      arith,
      length-put_new tunnel_id_discrete id now m,
      length-put_old tunnel_id_discrete id now m,
    )

reference_all-grows :
    (cooldown : ℤ) (m : Map TunnelId ℕ) (reqs : List Request)
    → length m ≤ length (reference_all cooldown m reqs).0
unfolding reference_all
reference_all-grows cooldown m [] = omega arith
reference_all-grows cooldown m ((id, now) ∷ reqs) = omega (
  arith,
  reference_claim-grows cooldown m id now,
  reference_all-grows cooldown (reference_claim cooldown m id now).0 reqs,
)

-- One claim is the reference's, if that stays within the ring.
claim-reference :
    (d : GtpuFloodDetector) (cooldown : ℤ) (m : Map TunnelId ℕ) (id : TunnelId) (now : ℕ)
    → d.cfg.cooldown ≡ cooldown
    → d.table.entries ≡ m
    → length (reference_claim cooldown m id now).0 ≤ length d.table.order
    → ((claim d id now).1 ≡ (reference_claim cooldown m id now).1)
      × ((claim d id now).0.table.entries ≡ (reference_claim cooldown m id now).0)
unfolding claim reference_claim admit update
claim-reference d cooldown m id now same held h = ground (
  arith,
  length-put_new tunnel_id_discrete id now m,
  room_for-keep tunnel_id_discrete zero_tunnel d.table,
)

verdicts-reference :
    (d : GtpuFloodDetector) (cooldown : ℤ) (m : Map TunnelId ℕ) (reqs : List Request)
    → d.cfg.cooldown ≡ cooldown
    → d.table.entries ≡ m
    → length (reference_all cooldown m reqs).0 ≤ length d.table.order
    → verdicts d reqs ≡ (reference_all cooldown m reqs).1
unfolding verdicts reference_all
verdicts-reference d cooldown m [] same held h = refl
verdicts-reference d cooldown m ((id, now) ∷ reqs) same held h =
    let m' = (reference_claim cooldown m id now).0 in
    let fixed = claim-fixed d id now in
    let grows = reference_all-grows cooldown m' reqs in
    let step = claim-reference d cooldown m id now same held (omega arith) in
    let rest =
      verdicts-reference (claim d id now).0 cooldown m' reqs
        (ap (λ (c : GtpuFloodConfig). c.cooldown) fixed.0 ∙ same) step.1 (omega (arith, fixed.1)) in
    cc (step.0, rest)

-- While the tunnels seen fit the ring, the detector fires exactly when the reference does.
pub verdicts-eq-reference :
    (cfg : GtpuFloodConfig) (reqs : List Request)
    → length (reference_all (pos (or_default cfg.cooldown default_cooldown)) [] reqs).0
      ≤ or_default cfg.max_tracked_tunnels default_tracked_tunnels
    → verdicts (new_detector cfg) reqs
      ≡ (reference_all (pos (or_default cfg.cooldown default_cooldown)) [] reqs).1
verdicts-eq-reference cfg reqs h =
    verdicts-reference (new_detector cfg) _ [] reqs (unfold new_detector in refl)
      (unfold new_detector empty in refl)
      (unfold new_detector empty in
        omega (
          arith,
          h,
          length-replicate (or_default cfg.max_tracked_tunnels default_tracked_tunnels) zero_tunnel,
        ))
