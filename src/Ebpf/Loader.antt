-- ===== src/Ebpf/Loader.antt =====
-- pkg/ebpf/blocklist.go and the enforcement part of pkg/ebpf/loader_linux.go: which kernel map an
-- address goes to, under which key, and what Block, Unblock and the reads of rates do there. The
-- kernel's maps themselves are reached through github.com/cilium/ebpf, and are a parameter.
pub mod Keys
use sentinel5g.Prelude.{
  ℕ, zero, suc, ◌+◌, ◌*◌, ◌/◌, ◌%◌, ◌==◌, Bool, true, false, ◌&&◌, ◌||◌, List, [], ◌∷◌, Option,
  none, some, if◌then◌else◌,
}
use sentinel5g.Ebpf.Interface.{Ip, EbpfError, refused, BlocklistUpdater}

-- net.IP's To4: four bytes are themselves, and sixteen are their last four after the prefix of a
-- v4-mapped address.
unfoldable pub all_zero : List ℕ → Bool
all_zero [] = true
all_zero (b ∷ bs) = if b == 0 then all_zero bs else false

unfoldable pub to4 : Ip → Option Ip
to4 (a ∷ b ∷ c ∷ d ∷ []) = some (a ∷ b ∷ c ∷ d ∷ [])
to4 (z0 ∷ z1 ∷ z2 ∷ z3 ∷ z4 ∷ z5 ∷ z6 ∷ z7 ∷ z8 ∷ z9 ∷ p ∷ q ∷ a ∷ b ∷ c ∷ d ∷ []) =
    if all_zero (z0 ∷ z1 ∷ z2 ∷ z3 ∷ z4 ∷ z5 ∷ z6 ∷ z7 ∷ z8 ∷ z9 ∷ []) && ((p == 255) && (q == 255))
    then some (a ∷ b ∷ c ∷ d ∷ [])
    else none
to4 _ = none

-- The sixteen bytes of a v4-mapped address.
abbrev pub mapped : ℕ → ℕ → ℕ → ℕ → Ip
mapped a b c d = 0 ∷ 0 ∷ 0 ∷ 0 ∷ 0 ∷ 0 ∷ 0 ∷ 0 ∷ 0 ∷ 0 ∷ 255 ∷ 255 ∷ a ∷ b ∷ c ∷ d ∷ []

-- net.IP's To16, on what is not IPv4: sixteen bytes are themselves.
unfoldable pub is_sixteen : List ℕ → Bool
is_sixteen (_ ∷ _ ∷ _ ∷ _ ∷ _ ∷ _ ∷ _ ∷ _ ∷ _ ∷ _ ∷ _ ∷ _ ∷ _ ∷ _ ∷ _ ∷ _ ∷ []) = true
is_sixteen _ = false

-- ipv4Key
unfoldable pub ipv4_key : Ip → Option (List ℕ)
ipv4_key ip = to4 ip

-- ipv6Key: an IPv4 address, mapped or not, has none.
unfoldable pub ipv6_key : Ip → Option (List ℕ)
ipv6_key ip = elim (to4 ip) [ some v4 ↦ none | none ↦ if is_sixteen ip then some ip else none ]

pub data MapName : Type 0 where
  blocklist blocklist_v6 tunnel_blocklist tunnel_blocklist_v6 : MapName
  signal_rate signal_rate_v6 scan_rate scan_rate_v6 tunnel_rate tunnel_rate_v6 : MapName

-- The layouts of a key: the bytes of an address; scanRateKey and tunnelRateKey, where the address
-- is a uint32 beside a port or a TEID; and their v6 forms.
pub data MapKey : Type 0 where
  address_key : List ℕ → MapKey
  number_key : ℕ → ℕ → MapKey
  address_number_key : List ℕ → ℕ → MapKey

pub data Deletion : Type 0 where
  deleted not_there delete_failed : Deletion

-- Put, Delete and Lookup of an ebpf.Map; Lookup gives the entry's count.
pub record KernelMaps (K : Type 0) : Type 0 where
  pub insert : MapName → MapKey → K → K × Option EbpfError
  pub delete : MapName → MapKey → K → K × Deletion
  pub lookup : MapName → MapKey → K → Option ℕ

-- binary.LittleEndian.Uint32, of four bytes.
unfoldable pub le_uint32 : List ℕ → ℕ
le_uint32 [] = 0
le_uint32 (b ∷ bs) = b + 256 * le_uint32 bs

-- binary.LittleEndian.PutUint32, a byte at a time.
unfoldable pub le_bytes : ℕ → ℕ → List ℕ
le_bytes zero n = []
le_bytes (suc k) n = n % 256 ∷ le_bytes k (n / 256)

-- ipv4FromU32
unfoldable pub ipv4_from_u32 : ℕ → Ip
ipv4_from_u32 raw = le_bytes 4 raw

-- blocklistMapAndKey
unfoldable pub blocklist_map_and_key : Ip → Option (MapName × MapKey)
blocklist_map_and_key ip = elim (ipv4_key ip) [
  | some key ↦ some (blocklist, address_key key)
  | none ↦ elim (ipv6_key ip) [ some key ↦ some (blocklist_v6, address_key key) | none ↦ none ]
]

-- tunnelBlocklistMapAndKey: TEID 0 is no tunnel.
unfoldable pub tunnel_map_and_key : Ip → ℕ → Option (MapName × MapKey)
tunnel_map_and_key ip teid = if teid == 0 then none else elim (to4 ip) [
  | some v4 ↦ some (tunnel_blocklist, number_key (le_uint32 v4) teid)
  | none ↦ elim (ipv6_key ip) [
    | some v6 ↦ some (tunnel_blocklist_v6, address_number_key v6 teid)
    | none ↦ none
  ]
]

module _ {K : Type 0} (maps : KernelMaps K) where
  -- Put under the key, where there is one.
  unfoldable pub insert_at : Option (MapName × MapKey) → K → K × Option EbpfError
  insert_at none k = (k, some refused)
  insert_at (some (m, key)) k = maps.insert m key k

  unfoldable pub delete_error : Deletion → Option EbpfError
  delete_error deleted = none
  delete_error not_there = none
  delete_error delete_failed = some EbpfError.failed

  -- Delete under the key: an entry that is already gone is what was asked for.
  unfoldable pub delete_at : Option (MapName × MapKey) → K → K × Option EbpfError
  delete_at none k = (k, some refused)
  delete_at (some (m, key)) k = let (k', d) = maps.delete m key k in (k', delete_error d)

  -- Block, Unblock, BlockTunnel and UnblockTunnel.
  abbrev pub loader : BlocklistUpdater K
  loader = record {
    block = λ ip k. insert_at (blocklist_map_and_key ip) k;
    unblock = λ ip k. delete_at (blocklist_map_and_key ip) k;
    block_tunnel = λ ip teid k. insert_at (tunnel_map_and_key ip teid) k;
    unblock_tunnel = λ ip teid k. delete_at (tunnel_map_and_key ip teid) k;
  }

  -- SignalRate: the two signaling ports are counted by source, every other by source and port.
  unfoldable pub signal_rate_of : Ip → ℕ → K → Option ℕ
  signal_rate_of ip dest_port k = elim (to4 ip) [
    | some v4 ↦
        if (dest_port == 2152) || (dest_port == 5060)
        then maps.lookup signal_rate (address_key v4) k
        else maps.lookup scan_rate (number_key (le_uint32 v4) dest_port) k
    | none ↦ elim (ipv6_key ip) [
      | none ↦ none
      | some v6 ↦
          if (dest_port == 2152) || (dest_port == 5060)
          then maps.lookup signal_rate_v6 (address_key v6) k
          else maps.lookup scan_rate_v6 (address_number_key v6 dest_port) k
    ]
  ]

  -- TunnelRate
  unfoldable pub tunnel_rate_of : Ip → ℕ → K → Option ℕ
  tunnel_rate_of ip teid k = elim (to4 ip) [
    | some v4 ↦ maps.lookup tunnel_rate (number_key (le_uint32 v4) teid) k
    | none ↦ elim (ipv6_key ip) [
      | none ↦ none
      | some v6 ↦ maps.lookup tunnel_rate_v6 (address_number_key v6 teid) k
    ]
  ]
