-- ===== src/Controller.antt =====
-- pkg/controller: the operator's indexes, guards and reconcilers.
pub mod Names
pub mod PodIpIndex
pub mod KillSwitch
pub mod Scoring
pub mod Api
pub mod Tunnels
pub mod PolicyIndex
pub mod Limiter
pub mod Watcher
pub mod Drift
pub mod Reconciler
pub mod Metrics
