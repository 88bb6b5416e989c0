-- ===== src/Tests/Loader.antt =====
-- The loader of pkg/ebpf over maps held as one association list.
use sentinel5g.Prelude.{
  ℕ, ◌≡◌, ◌≢◌, Bool, true, false, [], ◌∷◌, none, some, text_discrete, ℕ_discrete, refl, arith,
}
use sentinel5g.Prelude.Int.{pos}
use sentinel5g.Prelude.Map.{Map, find, put, del, find-del}
use sentinel5g.Controller.Api.{Policy}
use sentinel5g.Controller.Reconciler.{Reconciler, Cluster, accepted}
use sentinel5g.Controller.Reconciler.Lift.{dwell, try_de_escalate}
use sentinel5g.Controller.Reconciler.Release.{IsLifted}
use sentinel5g.Controller.Reconciler.OverLoader.{MapLaws, loader_releases, try_de_escalate-loader}
use sentinel5g.Ebpf.Loader.{
  MapName, blocklist, MapKey, address_key, number_key, address_number_key, Deletion, deleted,
  delete_failed, KernelMaps, mapped, le_uint32, ipv4_from_u32, blocklist_map_and_key,
  tunnel_map_and_key, signal_rate_of, tunnel_rate_of, loader,
}
use sentinel5g.Ebpf.Loader.Keys.{tunnel_map_and_key-injective}
use sentinel5g.Tests.Fixtures.{plain_addresses, counting_mesh, blocking_policy}
use sentinel5g.Tests.Mitigation.{plain_library}

abbrev Entries : Type 0
Entries = Map (MapName × MapKey) ℕ

name_discrete : Discrete MapName
name_discrete = hlevel

key_discrete : Discrete MapKey
key_discrete = hlevel (text_discrete, ℕ_discrete)

unfoldable entry_discrete : Discrete (MapName × MapKey)
entry_discrete = hlevel (name_discrete, key_discrete)

abbrev entries : KernelMaps Entries
entries = record {
  insert = λ m key k. (put entry_discrete (m, key) 1 k, none);
  delete = λ m key k. (del entry_discrete (m, key) k, deleted);
  lookup = λ m key k. find entry_discrete (m, key) k;
}

abbrev has_entry_of : MapName → MapKey → Entries → Bool
has_entry_of m key k = elim (find entry_discrete (m, key) k) [ none ↦ false | some v ↦ true ]

entry_gone :
    (m : MapName) (key : MapKey) (k : Entries)
    → (entries.delete m key k).1 ≢ delete_failed
    → has_entry_of m key (entries.delete m key k).0 ≡ false
entry_gone m key k h = ground (arith, find-del entry_discrete (m, key) (m, key) k)

entry_brings_none :
    (m n : MapName) (key x : MapKey) (k : Entries)
    → has_entry_of n x k ≡ false
    → has_entry_of n x (entries.delete m key k).0 ≡ false
entry_brings_none m n key x k h = ground (arith, h, find-del entry_discrete (n, x) (m, key) k)

entry_apart :
    (m n : MapName) (key x : MapKey) (k : Entries)
    → m ≢ n
    → has_entry_of n x (entries.delete m key k).0 ≡ has_entry_of n x k
entry_apart m n key x k h = ground (arith, h, find-del entry_discrete (n, x) (m, key) k)

abbrev entry_laws : MapLaws entries
entry_laws = record {
  has = has_entry_of;
  delete_gone = entry_gone;
  delete_brings_none = entry_brings_none;
  delete_apart = entry_apart;
}

abbrev over_entries : Reconciler Entries ℕ
over_entries = record {
  net = plain_addresses;
  library = plain_library;
  ebpf = some (loader entries);
  adapter = some counting_mesh;
  scoring = none;
  de_escalation_dwell = pos 10;
}

abbrev no_policies : Cluster Entries ℕ
no_policies = record {
  store = [];
  index = [];
  kernel = ((blocklist, address_key (10 ∷ 0 ∷ 0 ∷ 1 ∷ [])), 1) ∷ [];
  mesh = 0;
}

-- Mitigating 10.0.0.1, as its four bytes.
abbrev lan_policy : Policy
lan_policy = record blocking_policy {
  status = record (blocking_policy.status) { blocked_source_ips = (10 ∷ 0 ∷ 0 ∷ 1 ∷ []) ∷ [] };
}

try_de_escalate-loader_example :
    IsLifted plain_addresses
      (loader entries)
      (loader_releases entries entry_laws)
      lan_policy
      (try_de_escalate over_entries 15 accepted lan_policy no_policies).cluster.kernel
unfolding try_de_escalate dwell sentinel5g.Controller.Reconciler.Lift.lift
    sentinel5g.Controller.Reconciler.Lift.unblock_all
    sentinel5g.Controller.Reconciler.unblock_sources sentinel5g.Ebpf.Loader.delete_at
    blocklist_map_and_key sentinel5g.Ebpf.Loader.ipv4_key sentinel5g.Ebpf.Loader.to4
    sentinel5g.Ebpf.Loader.delete_error sentinel5g.Controller.Reconciler.unblock_tunnels
    sentinel5g.Controller.Reconciler.Lift.release sentinel5g.Controller.Watcher.first_match_labels
    text_discrete sentinel5g.Controller.Reconciler.Lift.settle
try_de_escalate-loader_example =
    try_de_escalate-loader entries entry_laws over_entries refl 15 5 accepted lan_policy no_policies
      refl (unfold dwell in omega arith) refl

abbrev six : ℕ
six = 6

tunnel_map_and_key-injective_example :
    (six ≡ six)
    × (blocklist_map_and_key (mapped 10 0 0 1) ≡ blocklist_map_and_key (10 ∷ 0 ∷ 0 ∷ 1 ∷ []))
unfolding tunnel_map_and_key sentinel5g.Ebpf.Loader.to4 sentinel5g.Ebpf.Loader.all_zero le_uint32
tunnel_map_and_key-injective_example =
    tunnel_map_and_key-injective (mapped 10 0 0 1) (10 ∷ 0 ∷ 0 ∷ 1 ∷ []) 6 6
      (MapName.tunnel_blocklist, number_key 16777226 6)
      (
        omega arith,
        (
          omega arith,
          (
            omega arith,
            (
              omega arith,
              (
                omega arith,
                (
                  omega arith,
                  (
                    omega arith,
                    (
                      omega arith,
                      (
                        omega arith,
                        (
                          omega arith,
                          (
                            omega arith,
                            (
                              omega arith,
                              (omega arith, (omega arith, (omega arith, (omega arith, tt)))),
                            ),
                          ),
                        ),
                      ),
                    ),
                  ),
                ),
              ),
            ),
          ),
        ),
      )
      (omega arith, (omega arith, (omega arith, (omega arith, tt)))) refl refl
