-- ===== src/Capture.antt =====
-- The other sources of events: pkg/hubble and pkg/falco.
pub mod Flow
pub mod Alert
pub mod Inert
