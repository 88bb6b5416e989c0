-- ===== src/Detect.antt =====
-- pkg/detect: the deterministic flood detectors.
pub mod TunnelFlood
pub mod SourceFlood
