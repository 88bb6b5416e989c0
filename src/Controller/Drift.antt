-- ===== src/Controller/Drift.antt =====
-- pkg/controller/blocklist_reconciler.go: the periodic comparison of the kernel's maps with what
-- the policies' statuses claim. A set of entries is a map from the text of an entry to the entry.
pub mod Half
pub mod Order
pub mod Convergence
pub mod Claimed
pub mod Whole
pub mod Replay
use sentinel5g.Prelude.{
  ℕ, ◌+◌, Bool, true, false, List, [], ◌∷◌, ◌++◌, Option, none, some, Text, codes, text_discrete,
  if◌then◌else◌, length, ltb, leb, ◌==◌,
}
use sentinel5g.Prelude.Map.{Map, find, put}
pub use sentinel5g.Ebpf.Interface.{BlockedTunnel}
use sentinel5g.Ebpf.Interface.{Ip, EbpfError, BlocklistUpdater}
use sentinel5g.Controller.Api.{Policy}
use sentinel5g.Controller.Tunnels.{Addresses, format_tunnel, parse_tunnel}
use sentinel5g.Controller.Watcher.{contains}

-- The reads of BlocklistInspector that a sync needs; a failed read is `none`.
pub record Inspector (K : Type 0) : Type 0 where
  pub blocked_ips : K → Option (List Ip)
  pub blocked_tunnels : K → Option (List BlockedTunnel)

-- Go's order of strings: by bytes.
unfoldable pub text_le : Text → Text → Bool
text_le [] ys = true
text_le (x ∷ xs) [] = false
text_le (x ∷ xs) (y ∷ ys) = if x == y then text_le xs ys else ltb x y

unfoldable pub insert_text : Text → List Text → List Text
insert_text x [] = x ∷ []
insert_text x (y ∷ ys) = let rest = insert_text x ys in if text_le x y then x ∷ y ∷ ys else y ∷ rest

-- sortedKeys
unfoldable pub sorted_keys : {A : Type 0} → Map Text A → List Text
sorted_keys [] = []
sorted_keys ((k, a) ∷ m) = insert_text k (sorted_keys m)

-- How one family of entries, the sources or the tunnels, is added and removed.
pub record Family (K A : Type 0) : Type 0 where
  pub prefix : Text
  pub add : A → K → K × Option EbpfError
  pub remove : A → K → K × Option EbpfError

-- What a sync has done so far in one family: the kernel after it, the counts of DriftReport, the
-- keys found unclaimed and the errors.
pub record Progress (K : Type 0) : Type 0 where
  pub kernel : K
  pub missing : ℕ
  pub extra : ℕ
  pub pending : ℕ
  pub unclaimed : List Text
  pub errors : List EbpfError

unfoldable pub error_list : Option EbpfError → List EbpfError
error_list none = []
error_list (some e) = e ∷ []

module _ {K A : Type 0} (family : Family K A) where
  -- One entry of the loop over the desired keys.
  unfoldable pub add_one : Map Text A → Map Text A → Progress K → Text → Progress K
  add_one desired actual p key = elim (find text_discrete key actual) [
    | some a ↦ p
    | none ↦ elim (find text_discrete key desired) [
      | none ↦ p
      | some a ↦
          let (k, e) = family.add a p.kernel in
          record p { kernel = k; missing = p.missing + 1; errors = error_list e ++ p.errors }
    ]
  ]

  -- One entry of the loop over the kernel's keys: an entry that no policy claims is removed if the
  -- pass before found it unclaimed too.
  unfoldable pub remove_one : List Text → Map Text A → Map Text A → Progress K → Text → Progress K
  remove_one previous desired actual p key = elim (find text_discrete key desired) [
    | some a ↦ p
    | none ↦
        let p' = record p { unclaimed = (family.prefix ++ key) ∷ p.unclaimed } in
        if contains (family.prefix ++ key) previous
        then (elim (find text_discrete key actual) [
          | none ↦ p'
          | some a ↦
              let (k, e) = family.remove a p.kernel in
              record p' { kernel = k; extra = p.extra + 1; errors = error_list e ++ p.errors }
        ])
        else record p' { pending = p.pending + 1 }
  ]

  unfoldable pub each : (Progress K → Text → Progress K) → Progress K → List Text → Progress K
  each f p [] = p
  each f p (key ∷ keys) = each f (f p key) keys

  unfoldable pub start : K → Progress K
  start k = record { kernel = k; missing = 0; extra = 0; pending = 0; unclaimed = []; errors = [] }

  -- The two loops of a family: first what is missing, then what is unclaimed.
  unfoldable pub correct : List Text → Map Text A → Map Text A → K → Progress K
  unfolding start
  correct previous desired actual k =
      each (remove_one previous desired actual)
        (each (add_one desired actual) (start k) (sorted_keys desired)) (sorted_keys actual)

-- The sources that a status claims; an entry that does not parse is passed over.
unfoldable pub desired_ips : Addresses → List Text → Map Text Ip → Map Text Ip
desired_ips net [] m = m
desired_ips net (raw ∷ raws) m = elim (net.parse_ip raw) [
  | none ↦ desired_ips net raws m
  | some ip ↦ desired_ips net raws (put text_discrete (net.ip_string ip) ip m)
]

unfoldable pub desired_tunnels :
    Addresses → List Text → Map Text BlockedTunnel → Map Text BlockedTunnel
desired_tunnels net [] m = m
desired_tunnels net (entry ∷ entries) m = elim (parse_tunnel net entry) [
  | none ↦ desired_tunnels net entries m
  | some (ip, teid) ↦ desired_tunnels net entries (
      if teid == 0
      then m
      else put text_discrete (format_tunnel (net.ip_string ip) teid)
          (record { ip = ip; teid = teid }) m)
]

-- desiredEnforcement: a policy that is being deleted claims nothing.
unfoldable pub desired_enforcement :
    Addresses
    → List Policy
    → Map Text Ip
    → Map Text BlockedTunnel
    → Map Text Ip × Map Text BlockedTunnel
desired_enforcement net [] ips tunnels = (ips, tunnels)
desired_enforcement net (policy ∷ policies) ips tunnels =
    if policy.deleting
    then desired_enforcement net policies ips tunnels
    else desired_enforcement net policies (desired_ips net policy.status.blocked_source_ips ips)
        (desired_tunnels net policy.status.blocked_tunnels tunnels)

unfoldable pub actual_ips : Addresses → List Ip → Map Text Ip → Map Text Ip
actual_ips net [] m = m
actual_ips net (ip ∷ ips) m = actual_ips net ips (put text_discrete (net.ip_string ip) ip m)

unfoldable pub actual_tunnels :
    Addresses → List BlockedTunnel → Map Text BlockedTunnel → Map Text BlockedTunnel
actual_tunnels net [] m = m
actual_tunnels net (t ∷ ts) m =
    actual_tunnels net ts (put text_discrete (format_tunnel (net.ip_string t.ip) t.teid) t m)

-- What a sync leaves: the kernel, the keys unclaimed in this pass, and the two families' counts,
-- absent if a read failed.
pub record Synced (K : Type 0) : Type 0 where
  pub kernel : K
  pub unclaimed : List Text
  pub report : Option (Progress K × Progress K)

-- Sync, on the list of policies (absent if the API server did not give it) and the keys that the
-- pass before found unclaimed. The gauges that it also sets are left out.
unfoldable pub sync :
    {K : Type 0}
    → Addresses
    → BlocklistUpdater K
    → Inspector K
    → Option (List Policy)
    → List Text
    → K
    → Synced K
sync net ebpf inspector none previous k = record { kernel = k; unclaimed = previous; report = none }
sync net ebpf inspector (some policies) previous k = elim (inspector.blocked_ips k) [
  | none ↦ record { kernel = k; unclaimed = previous; report = none }
  | some ips ↦ elim (inspector.blocked_tunnels k) [
    | none ↦ record { kernel = k; unclaimed = previous; report = none }
    | some tunnels ↦
        let (want_ips, want_tunnels) = desired_enforcement net policies [] [] in
        let sources =
          correct (record { prefix = codes "ip:"; add = ebpf.block; remove = ebpf.unblock })
            previous want_ips (actual_ips net ips []) k in
        let paths =
          correct
            (record {
              prefix = codes "tunnel:";
              add = λ (t : BlockedTunnel). ebpf.block_tunnel t.ip t.teid;
              remove = λ (t : BlockedTunnel). ebpf.unblock_tunnel t.ip t.teid;
            })
            previous want_tunnels (actual_tunnels net tunnels []) sources.kernel in
        record {
          kernel = paths.kernel;
          unclaimed = paths.unclaimed ++ sources.unclaimed;
          report = some (sources, paths);
        }
  ]
]
