-- ===== src/Ebpf/Interface.antt =====
-- The BlocklistUpdater interface of pkg/ebpf/blocklist.go, and the errors of its calls that the
-- controllers tell apart. An address is net.IP's bytes.
use sentinel5g.Prelude.{ℕ, Bool, true, false, List, Option}

abbrev pub Ip : Type 0
Ip = List ℕ

pub data EbpfError : Type 0 where
  map_full refused failed : EbpfError

-- IsMapFull
unfoldable pub is_map_full : EbpfError → Bool
is_map_full map_full = true
is_map_full _ = false

-- Over the kernel's state `K`: each call gives the state after it, and an error if it failed.
pub record BlocklistUpdater (K : Type 0) : Type 0 where
  pub block : Ip → K → K × Option EbpfError
  pub unblock : Ip → K → K × Option EbpfError
  pub block_tunnel : Ip → ℕ → K → K × Option EbpfError
  pub unblock_tunnel : Ip → ℕ → K → K × Option EbpfError

-- BlockedTunnel
pub record BlockedTunnel : Type 0 where
  pub ip : Ip
  pub teid : ℕ
