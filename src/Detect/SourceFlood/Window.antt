-- ===== src/Detect/SourceFlood/Window.antt =====
-- One source's window (pkg/detect/gtpu_source_flood.go): what it counts, when a storm is reported
-- and for how long it then stays silent.
use sentinel5g.Prelude.{
  ℕ, ◌+◌, ◌%◌, ◌^◌, ◌≤◌, ◌<◌, ◌≡◌, Bool, true, false, none, some, List, [], ◌∷◌, length, arith, inl,
  inr, ◌⊎◌, Bool-cases, subst, sym,
}
use sentinel5g.Prelude.Int.{pos, sub_ℕ, ltb_ℤ, leb_ℤ}
use sentinel5g.Detect.SourceFlood.{
  GtpuSourceFloodConfig, SourceWindow, report, add_teid, roll, count, fire, fold,
}

-- A packet of one source: its TEID and the time at which it is observed.
abbrev pub Packet : Type 0
Packet = ℕ × ℕ

-- A window through a sequence of packets.
unfoldable pub fold_all :
    GtpuSourceFloodConfig → SourceWindow → List Packet → SourceWindow × List Bool
fold_all cfg w [] = (w, [])
fold_all cfg w ((teid, now) ∷ ps) =
    let (w', emit) = fold cfg teid now w in
    let (last, rest) = fold_all cfg w' ps in (last, emit ∷ rest)

-- Every packet comes within the window that began at `start`.
abbrev pub Within : GtpuSourceFloodConfig → ℕ → List Packet → Type 0
Within cfg start [] = Unit {0}
Within cfg start ((teid, now) ∷ ps) =
    (leb_ℤ cfg.window (sub_ℕ now start) ≡ false) × Within cfg start ps

fold-counts :
    (cfg : GtpuSourceFloodConfig) (teid now : ℕ) (w : SourceWindow)
    → leb_ℤ cfg.window (sub_ℕ now w.start) ≡ false
    → ((fold cfg teid now w).0.packets ≡ (w.packets + 1) % 2 ^ 32)
      × ((fold cfg teid now w).0.start ≡ w.start)
unfolding fold roll count fire
fold-counts cfg teid now w h = ground arith

-- Within one window the detector's packet count is the source's packets, as a uint32.
pub fold_all-counts :
    (cfg : GtpuSourceFloodConfig) (w : SourceWindow) (ps : List Packet)
    → Within cfg w.start ps
    → (fold_all cfg w ps).0.packets % 2 ^ 32 ≡ (w.packets + length ps) % 2 ^ 32
unfolding fold_all
fold_all-counts cfg w [] h = omega arith
fold_all-counts cfg w ((teid, now) ∷ ps) h =
    let step = fold-counts cfg teid now w h.0 in
    omega (
      arith,
      step.0,
      fold_all-counts cfg (fold cfg teid now w).0 ps
          (subst (λ s. Within cfg s ps) (sym step.1) h.1),
    )

-- Whether one of the verdicts says to emit.
abbrev pub Emits : List Bool → Type 0
Emits [] = ⊥
Emits (b ∷ bs) = (b ≡ true) ⊎ Emits bs

quiet_packet :
    (cfg : GtpuSourceFloodConfig) (teid now : ℕ) (w : SourceWindow)
    → leb_ℤ cfg.window (sub_ℕ now w.start) ≡ false
    → w.last_fired ≡ none
    → 0 < cfg.packets_per_second
    → (fold cfg teid now w).1 ≡ false
    → ((fold cfg teid now w).0.packets < cfg.packets_per_second)
      × ((fold cfg teid now w).0.last_fired ≡ none)
unfolding fold roll count fire report
quiet_packet cfg teid now w h unfired positive quiet = ground arith

-- A window of a source that has not been reported, folded over packets that reach the threshold before
-- it is over, says to emit on one of them (the count stays below the uint32's bound).
pub storm-Emits :
    (cfg : GtpuSourceFloodConfig) (w : SourceWindow) (ps : List Packet)
    → w.last_fired ≡ none
    → w.packets < cfg.packets_per_second
    → cfg.packets_per_second ≤ w.packets + length ps
    → w.packets + length ps < 2 ^ 32
    → Within cfg w.start ps
    → Emits (fold_all cfg w ps).1
unfolding fold_all
storm-Emits cfg w [] unfired below reached small h = absurd (omega arith)
storm-Emits cfg w ((teid, now) ∷ ps) unfired below reached small h =
    elim (Bool-cases (fold cfg teid now w).1) [
      | inl yells ↦ inl yells
      | inr quiet ↦
          let step = fold-counts cfg teid now w h.0 in
          let calm = quiet_packet cfg teid now w h.0 unfired (omega arith) quiet in
          let counted : (fold cfg teid now w).0.packets ≡ w.packets + 1 = omega (arith, step.0) in
          inr (
            storm-Emits cfg (fold cfg teid now w).0 ps calm.1 calm.0 (omega arith) (omega arith)
              (subst (λ s. Within cfg s ps) (sym step.1) h.1))
    ]

-- Every packet comes before the cooldown from `last` is over.
abbrev pub Cooling : GtpuSourceFloodConfig → ℕ → List Packet → Type 0
Cooling cfg last [] = Unit {0}
Cooling cfg last ((teid, now) ∷ ps) =
    (ltb_ℤ (sub_ℕ now last) cfg.cooldown ≡ true) × Cooling cfg last ps

cooling_packet :
    (cfg : GtpuSourceFloodConfig) (teid now last : ℕ) (w : SourceWindow)
    → w.last_fired ≡ some last
    → ltb_ℤ (sub_ℕ now last) cfg.cooldown ≡ true
    → ((fold cfg teid now w).1 ≡ false) × ((fold cfg teid now w).0.last_fired ≡ some last)
unfolding fold roll count fire
cooling_packet cfg teid now last w fired soon = ground arith

-- A window of a source that has been reported says nothing on packets that come before the cooldown is
-- over, however often it begins anew in between and whatever it counts.
pub cooldown_spans_windows :
    (cfg : GtpuSourceFloodConfig) (w : SourceWindow) (last : ℕ) (ps : List Packet)
    → w.last_fired ≡ some last
    → Cooling cfg last ps
    → ¬ Emits (fold_all cfg w ps).1
unfolding fold_all
cooldown_spans_windows cfg w last [] fired h = λ e. e
cooldown_spans_windows cfg w last ((teid, now) ∷ ps) fired h =
    let step = cooling_packet cfg teid now last w fired h.0 in
    let rest = cooldown_spans_windows cfg (fold cfg teid now w).0 last ps step.1 h.1 in
    ground (arith, step.0, rest)

-- A set of TEIDs: each stands once.
abbrev pub Has : ℕ → List ℕ → Type 0
Has t [] = ⊥
Has t (x ∷ xs) = (x ≡ t) ⊎ Has t xs

abbrev pub IsTeidSet : List ℕ → Type 0
IsTeidSet [] = Unit {0}
IsTeidSet (x ∷ xs) = (¬ Has x xs) × IsTeidSet xs

Has-add_teid : (t s : ℕ) (xs : List ℕ) → Has s (add_teid t xs) → (s ≡ t) ⊎ Has s xs
unfolding add_teid
Has-add_teid t s [] h = ground arith
Has-add_teid t s (x ∷ xs) h = ground (arith, Has-add_teid t s xs)

add_teid-IsTeidSet : (t : ℕ) (xs : List ℕ) → IsTeidSet xs → IsTeidSet (add_teid t xs)
unfolding add_teid
add_teid-IsTeidSet t [] h = (λ e. e, tt)
add_teid-IsTeidSet t (x ∷ xs) h = ground (arith, add_teid-IsTeidSet t xs h.1, Has-add_teid t x xs)

length-add_teid-le : (t : ℕ) (xs : List ℕ) → length (add_teid t xs) ≤ length xs + 1
unfolding add_teid
length-add_teid-le t [] = omega arith
length-add_teid-le t (x ∷ xs) = ground (arith, length-add_teid-le t xs)

-- What every window keeps to: a set of TEIDs within its cap, and a count that is a uint32.
pub record IsBounded (cfg : GtpuSourceFloodConfig) (w : SourceWindow) : Type 0 where
  pub teid_set : IsTeidSet w.teids
  pub teid_cap : leb_ℤ (pos (length w.teids)) cfg.max_tunnels_per_source ≡ true
  pub uint32 : w.packets < 2 ^ 32

roll-IsBounded :
    (cfg : GtpuSourceFloodConfig) (now : ℕ) (w : SourceWindow)
    → IsBounded cfg w
    → IsBounded cfg (roll cfg now w)
unfolding roll
roll-IsBounded cfg now w v = elim (Bool-cases (leb_ℤ cfg.window (sub_ℕ now w.start))) [
  | inl over ↦
      rw over
        (record { teid_set = tt; teid_cap = ground (arith, v.teid_cap); uint32 = omega arith })
  | inr current ↦ rw current v
]

count-IsBounded :
    (cfg : GtpuSourceFloodConfig) (teid : ℕ) (w : SourceWindow)
    → IsBounded cfg w
    → IsBounded cfg (count cfg teid w)
unfolding count
count-IsBounded cfg teid w v =
    elim (Bool-cases (ltb_ℤ (pos (length w.teids)) cfg.max_tunnels_per_source)) [
      | inl free ↦ rw free (record {
        teid_set = add_teid-IsTeidSet teid w.teids v.teid_set;
        teid_cap = ground (arith, free, length-add_teid-le teid w.teids);
        uint32 = omega arith;
      })
      | inr full ↦
          rw full (record { teid_set = v.teid_set; teid_cap = v.teid_cap; uint32 = omega arith })
    ]

fire-keeps :
    (cfg : GtpuSourceFloodConfig) (now : ℕ) (w : SourceWindow)
    → ((fire cfg now w).0.teids ≡ w.teids) × ((fire cfg now w).0.packets ≡ w.packets)
unfolding fire
fire-keeps cfg now w = ground arith

pub fold-IsBounded :
    (cfg : GtpuSourceFloodConfig) (teid now : ℕ) (w : SourceWindow)
    → IsBounded cfg w
    → IsBounded cfg (fold cfg teid now w).0
unfolding fold
fold-IsBounded cfg teid now w v =
    let counted = count cfg teid (roll cfg now w) in
    let b = count-IsBounded cfg teid (roll cfg now w) (roll-IsBounded cfg now w v) in
    let same = fire-keeps cfg now counted in
    record {
      teid_set = subst IsTeidSet (sym same.0) b.teid_set;
      teid_cap = rw same.0 b.teid_cap;
      uint32 = rw same.1 b.uint32;
    }
