-- ===== src/Tests.antt =====
-- Runs of the model at concrete inputs.
mod Fixtures
mod Detection
mod Indexes
mod Gauges
mod Guards
mod Mitigation
mod Corrections
mod Replay
mod Loader
mod Agreement
mod Pipeline
mod Wiring
mod Meshes
