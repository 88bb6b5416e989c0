-- ===== src/Ebpf.antt =====
-- pkg/ebpf: the enforcement maps and the event stream.
pub mod Interface
pub mod Loader
pub mod Signals
pub mod Inspector
