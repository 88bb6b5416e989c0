-- ===== src/Detect/SourceFlood.antt =====
-- pkg/detect/gtpu_source_flood.go: the per-peer detector. Go's map holds pointers to windows and
-- `observe` writes through one; here the window is written back to the table.
pub mod Window
pub mod Tracked
pub mod Memory
pub mod Verdict
use sentinel5g.Prelude.{
  ℕ, ◌+◌, ◌%◌, ◌^◌, Bool, true, false, Option, none, some, List, [], ◌∷◌, Text, codes,
  text_discrete, ℕ_discrete, ltb, leb, ◌==◌, not, ◌&&◌, if◌then◌else◌, ite, length,
}
use sentinel5g.Prelude.Int.{ℤ, pos, sub_ℕ, ltb_ℤ, leb_ℤ}
use sentinel5g.Prelude.Map.{find}
use sentinel5g.Prelude.Fifo.{Fifo, empty, admit, update}
use sentinel5g.Events.{Protocol, gtpu, protocol_discrete, NormalizedEvent, ThreatScoreEvent, Floats}
use sentinel5g.Detect.TunnelFlood.{or_default, default_cooldown}

-- ModelGTPUSourceFlood
abbrev pub model_gtpu_source_flood : Text
model_gtpu_source_flood = codes "rule:gtpu-source-flood"

-- DefaultSourceFloodWindow, one second in nanoseconds, and the default capacities.
abbrev pub default_source_flood_window : ℕ
default_source_flood_window = 1000000000

abbrev pub default_tracked_sources : ℕ
default_tracked_sources = 1024

abbrev pub default_tunnels_per_source : ℕ
default_tunnels_per_source = 4096

-- A Go int may be negative.
pub record GtpuSourceFloodConfig : Type 0 where
  pub enabled : Bool
  pub packets_per_second : ℕ
  pub distinct_tunnels : ℤ
  pub window : ℤ
  pub cooldown : ℤ
  pub max_tracked_sources : ℤ
  pub max_tunnels_per_source : ℤ

-- One source's state for the current window. `teids` is a set: a TEID stands in it once.
-- `last_fired` is `none` for Go's zero time.
pub record SourceWindow : Type 0 where
  pub start : ℕ
  pub packets : ℕ
  pub teids : List ℕ
  pub last_fired : Option ℕ

-- `table` holds sources, order and next.
pub record GtpuSourceFloodDetector : Type 0 where
  pub cfg : GtpuSourceFloodConfig
  pub table : Fifo Text SourceWindow

-- NewGTPUSourceFloodDetector
unfoldable pub new_detector : GtpuSourceFloodConfig → GtpuSourceFloodDetector
unfolding or_default
new_detector cfg = record {
  cfg = record {
    enabled = cfg.enabled;
    packets_per_second = cfg.packets_per_second;
    distinct_tunnels = cfg.distinct_tunnels;
    window = pos (or_default cfg.window default_source_flood_window);
    cooldown = pos (or_default cfg.cooldown default_cooldown);
    max_tracked_sources = pos (or_default cfg.max_tracked_sources default_tracked_sources);
    max_tunnels_per_source = pos (or_default cfg.max_tunnels_per_source default_tunnels_per_source);
  };
  table = empty [] (or_default cfg.max_tracked_sources default_tracked_sources);
}

-- Configured, of a detector that is not nil.
unfoldable pub is_configured : GtpuSourceFloodDetector → Bool
is_configured d =
    if d.cfg.enabled
    then (if ltb 0 d.cfg.packets_per_second then true else ltb_ℤ (pos 0) d.cfg.distinct_tunnels)
    else false

-- report
unfoldable pub report : GtpuSourceFloodConfig → ℕ → ℕ → Bool
report cfg packets distinct =
    if ltb 0 cfg.packets_per_second && leb cfg.packets_per_second packets
    then true
    else ltb_ℤ (pos 0) cfg.distinct_tunnels && leb_ℤ cfg.distinct_tunnels (pos distinct)

-- set[teid] = struct{}{}
unfoldable pub add_teid : ℕ → List ℕ → List ℕ
add_teid t [] = t ∷ []
add_teid t (x ∷ xs) = ite (ℕ_discrete x t) (x ∷ xs) (x ∷ add_teid t xs)

-- The window in which a packet at this time counts: the old one, or a new one that starts now.
unfoldable pub roll : GtpuSourceFloodConfig → ℕ → SourceWindow → SourceWindow
roll cfg now w =
    if leb_ℤ cfg.window (sub_ℕ now w.start)
    then record w { start = now; packets = 0; teids = [] }
    else w

-- One packet counted; packets is a uint32, and the set of TEIDs stops at its cap.
unfoldable pub count : GtpuSourceFloodConfig → ℕ → SourceWindow → SourceWindow
unfolding add_teid
count cfg teid w = record w {
  packets = (w.packets + 1) % 2 ^ 32;
  teids =
      if ltb_ℤ (pos (length w.teids)) cfg.max_tunnels_per_source
      then add_teid teid w.teids
      else w.teids;
}

-- The end of observe: whether to report now, and the window with that time.
unfoldable pub fire : GtpuSourceFloodConfig → ℕ → SourceWindow → SourceWindow × Bool
unfolding report
fire cfg now w =
    if report cfg w.packets (length w.teids)
    then elim w.last_fired [
      | none ↦ (record w { last_fired = some now }, true)
      | some last ↦
          if ltb_ℤ (sub_ℕ now last) cfg.cooldown
          then (w, false)
          else (record w { last_fired = some now }, true)
    ]
    else (w, false)

-- What observe does to the window of the packet's source.
unfoldable pub fold : GtpuSourceFloodConfig → ℕ → ℕ → SourceWindow → SourceWindow × Bool
unfolding roll count fire
fold cfg teid now w = fire cfg now (count cfg teid (roll cfg now w))

abbrev pub fresh : ℕ → SourceWindow
fresh now = record { start = now; packets = 0; teids = []; last_fired = none }

-- The table with the source in it, and its window.
unfoldable pub track : Fifo Text SourceWindow → Text → ℕ → Fifo Text SourceWindow × SourceWindow
track table source now = elim (find text_discrete source table.entries) [
  | some w ↦ (table, w)
  | none ↦ (admit text_discrete [] source (fresh now) table, fresh now)
]

-- observe: the detector after the packet, the window's counts and whether to emit.
unfoldable pub observe :
    GtpuSourceFloodDetector → Text → ℕ → ℕ → GtpuSourceFloodDetector × SourceWindow × Bool
unfolding track fold
observe d source teid now =
    let (table, w) = track d.table source now in
    let (w', emit) = fold d.cfg teid now w in
    (record d { table = update text_discrete source w' table }, w', emit)

-- SourceFloodObservation
pub record SourceFloodObservation : Type 0 where
  pub packets_in_window : ℕ
  pub distinct_tunnels : ℕ

abbrev no_observation : SourceFloodObservation
no_observation = record { packets_in_window = 0; distinct_tunnels = 0 }

-- The guards of Evaluate: tunnelled traffic only.
unfoldable pub is_tunnelled : NormalizedEvent → Bool
is_tunnelled evt =
    ite (protocol_discrete evt.protocol gtpu)
      (ite (ℕ_discrete evt.teid 0) false (ite (text_discrete evt.source_ip []) false true)) false

module _ {F : Type 0} (fl : Floats F) where
  -- The score is about the peer: its TEID is 0.
  unfoldable pub source_score : NormalizedEvent → ℕ → ThreatScoreEvent F
  source_score evt now = record {
    source_event_id = evt.event_id;
    namespace = evt.namespace;
    pod_name = evt.pod_name;
    source_ip = evt.source_ip;
    teid = 0;
    score = fl.one;
    model = model_gtpu_source_flood;
    detected_at = now;
  }

  unfoldable pub evaluate :
      GtpuSourceFloodDetector
      → NormalizedEvent
      → ℕ
      → GtpuSourceFloodDetector × Option (ThreatScoreEvent F) × SourceFloodObservation
  evaluate d evt now =
      if not (is_configured d)
      then (d, none, no_observation)
      else if not (is_tunnelled evt)
      then (d, none, no_observation)
      else (let (d', w, fired) = observe d evt.source_ip evt.teid now in
          (
            d',
            if fired then some (source_score evt now) else none,
            record { packets_in_window = w.packets; distinct_tunnels = length w.teids },
          ))
